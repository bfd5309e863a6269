-- ===== src/Logger.antt =====
-- `DataLoggerService` (src/Services/DataLoggerService.h, .cpp): the sample windows
-- (src/Domain/SampleWindow.h), and the sessions that record them.
pub mod Window
pub mod Session
pub mod Windows
pub mod Sliding
pub mod Recorded
pub mod Lifetime
pub mod Fresh
pub mod BaseNames
mod Tests
