-- ===== src/Network.antt =====
-- Wi-Fi and the clock: `WifiService` (src/Services/WifiService.h, .cpp) and `TimeService`
-- (src/Services/TimeService.h, .cpp), with the callback by which src/main.cpp connects them.
pub mod Wifi
pub mod Clock
pub mod Steps
pub mod Radio
pub mod OneShot
pub mod Credentials
mod Tests
