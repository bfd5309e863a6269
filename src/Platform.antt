-- ===== src/Platform.antt =====
-- What the services ask of the platform (ESP-IDF, FreeRTOS, the Arduino core). None of it is code of
-- the repository, so its answers are inputs: one record for each kind of call.
use esp32_sensor_firmware_pl.Prelude.{ℕ, Bool}

-- `esp_reset_reason_t`, as far as the services tell its values apart.
pub data ResetReason : Type 0 where
  power_on software brownout panic int_wdt task_wdt other_wdt other_reset : ResetReason

-- What one call of a method meets: whether the mutex is taken in time, whether a queue takes the
-- message offered, `millis()`, `HAL::getSystemUptime()` and `time(NULL)`.
pub record Call : Type 0 where
  pub mutex_taken : Bool
  pub queue_accepts : Bool
  pub millis : ℕ
  pub uptime : ℕ
  pub epoch : ℕ
