-- ===== src/Ota.antt =====
-- `OTAManager` (src/Services/OTAManager.h and .cpp): firmware updates received in chunks.
pub mod State
pub mod Handlers
pub mod Session
pub mod Lifecycle
pub mod SelfTest
mod Tests
