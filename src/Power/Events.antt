-- ===== src/Power/Events.antt =====
-- Sequences of calls of the power manager.
use esp32_sensor_firmware_pl.Power.Sleep.{enter_deep_sleep}
use esp32_sensor_firmware_pl.Power.Machine.{
  check_idle_timeout, reset_rolling_prox_average, update_rolling_prox_average,
  clear_sensor_wake_flag, defer_sleep, increment_sleep_cancel_count, notify_activity, cancel_sleep,
  request_sleep, transition_to,
}
use esp32_sensor_firmware_pl.Power.Battery.{update_battery_status}
use esp32_sensor_firmware_pl.Power.Control.{set_ota_manager, init, update, WakeupCause}
use esp32_sensor_firmware_pl.Platform.{ResetReason}
use esp32_sensor_firmware_pl.Power.State.{PowerState, Manager, PowerCall, PowerConfig, Floats}
use esp32_sensor_firmware_pl.Prelude.{ℕ, Bool, List, [], ◌∷◌}

-- The public methods that change the state, the start first: `start` is `init` with the services
-- that are there, the reset reason and the wake-up cause.
pub data PowerEvent : Type 0 where
  start : (ble history protocol : Bool) → ResetReason → WakeupCause → PowerCall → PowerEvent
  attach_ota : Bool → PowerEvent
  tick : PowerCall → PowerEvent
  gauge : PowerCall → PowerEvent
  enter : PowerState → PowerCall → PowerEvent
  ask_sleep : PowerCall → PowerEvent
  cancel : PowerCall → PowerEvent
  activity : PowerCall → PowerEvent
  count_cancel : PowerEvent
  defer : PowerEvent
  clear_wake : PowerEvent
  proximity : ℕ → PowerEvent
  forget_proximity : PowerEvent
  check_idle : PowerCall → PowerEvent
  sleep_now : PowerCall → PowerEvent

module _ {F : Type 0} (ops : Floats F) (cfg : PowerConfig) where
  unfoldable pub dispatch : Manager F → PowerEvent → Manager F
  unfolding update update_battery_status transition_to request_sleep cancel_sleep notify_activity
      increment_sleep_cancel_count init set_ota_manager defer_sleep clear_sensor_wake_flag
      update_rolling_prox_average reset_rolling_prox_average check_idle_timeout enter_deep_sleep
  dispatch m (start ble history protocol reset cause call) =
      init ops cfg m ble history protocol reset cause call
  dispatch m (attach_ota there) = set_ota_manager m there
  dispatch m (tick call) = update ops cfg m call
  dispatch m (gauge call) = update_battery_status ops cfg m call
  dispatch m (enter s call) = transition_to ops m s call
  dispatch m (ask_sleep call) = request_sleep ops m call
  dispatch m (cancel call) = cancel_sleep ops m call
  dispatch m (activity call) = notify_activity ops m call
  dispatch m count_cancel = (increment_sleep_cancel_count cfg m).0
  dispatch m defer = defer_sleep m
  dispatch m clear_wake = clear_sensor_wake_flag m
  dispatch m (proximity n) = update_rolling_prox_average ops m n
  dispatch m forget_proximity = reset_rolling_prox_average ops m
  dispatch m (check_idle call) = check_idle_timeout ops cfg m call
  dispatch m (sleep_now call) = enter_deep_sleep ops cfg m call

  unfoldable pub run : Manager F → List PowerEvent → Manager F
  unfolding dispatch
  run m [] = m
  run m (e ∷ es) = run (dispatch m e) es
