-- ===== src/Configuration.antt =====
-- `ConfigService` (src/Services/ConfigService.h and .cpp, src/Domain/UserConfig.h): the user's
-- settings, kept in RAM and written to NVS some time after a change.
pub mod State
pub mod Store
pub mod Changes
pub mod Consistent
pub mod Steps
pub mod Reload
mod Tests
