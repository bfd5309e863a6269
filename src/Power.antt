-- ===== src/Power.antt =====
-- `PowerManager` (src/Services/PowerManager.cpp): the power states, the battery and the way into deep
-- sleep.
pub mod State
pub mod Battery
pub mod Machine
pub mod Sleep
pub mod Control
mod Ocv
mod Gauge
mod Guards
mod Attempts
mod Life
mod Events
mod Paired
mod Calm
mod Tests
