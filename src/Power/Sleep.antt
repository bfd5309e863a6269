-- ===== src/Power/Sleep.antt =====
-- The way into deep sleep: `canSafelyEnterSleep` and `enterDeepSleep`.
use esp32_sensor_firmware_pl.Prelude.{
  Bool, not, ◌&&◌, ◌||◌, ltb, if◌then◌else◌, ◌++◌, List, [], ◌∷◌,
}
use esp32_sensor_firmware_pl.Power.State.{
  wake_mode, detection_active, PowerConfig, Floats, color_sleep_prep, color_error, color_off,
  fast_blink, Effect, set_color, set_pattern, led_sleep, increment_ghost_bond, before_sleep,
  send_sleep_notification, flush_config, stop_storage_worker, force_nvs_sync, disconnect,
  stop_advertising, configure_sensor, configure_wake_sources, enable_timer, disable_timer,
  start_deep_sleep, Manager, PowerCall, emit,
}
use esp32_sensor_firmware_pl.Power.Battery.{update_battery_status}
use esp32_sensor_firmware_pl.Power.Machine.{transition_to}

-- A sequence of calls, each made where its condition holds.
abbrev pub call_if : Bool → List Effect → List Effect
call_if b es = if b then es else []

abbrev pub calls_of : List (Bool × List Effect) → List Effect
calls_of [] = []
calls_of ((b, es) ∷ rest) = call_if b es ++ calls_of rest

module _ {F : Type 0} where
  -- The two reasons that block; the other tests only log.
  unfoldable pub can_safely_enter_sleep : Manager F → PowerCall → Bool
  can_safely_enter_sleep m call =
      not ((m.has_protocol && ltb 0 call.pending_count) || (m.has_ota && call.ota_in_progress))

  -- The calls of `enterDeepSleep` up to the sensor's, in their order, with their conditions.
  abbrev pub shut_down_calls : Manager F → PowerCall → List (Bool × List Effect)
  shut_down_calls m call =
      ((m.has_ble, increment_ghost_bond ∷ [])
        ∷ (call.has_before_sleep, before_sleep ∷ [])
        ∷ (m.has_protocol && m.has_ble && call.connected, send_sleep_notification ∷ [])
        ∷ (call.config_dirty, flush_config ∷ [])
        ∷ (m.has_history, stop_storage_worker ∷ [])
        ∷ (m.has_history && call.has_pending_data, force_nvs_sync ∷ [])
        ∷ (m.has_ble && call.connected, disconnect ∷ [])
        ∷ (m.has_ble, stop_advertising ∷ [])
        ∷ (call.has_led, set_pattern color_sleep_prep fast_blink ∷ led_sleep ∷ [])
        ∷ (call.has_sensor, configure_sensor ∷ [])
        ∷ [])

  unfoldable pub shut_down : Manager F → PowerCall → List Effect
  shut_down m call = calls_of (shut_down_calls m call)

abbrev error_flash : List Effect
error_flash = set_color color_error ∷ set_color color_off ∷ []

-- The wake sources and the timer: the failsafe one where the sensor is ready, the emergency one
-- otherwise.
unfoldable pub arm : PowerConfig → PowerCall → List Effect
arm cfg call =
    configure_wake_sources
    ∷ (if call.has_sensor && call.sensor_configured
        then enable_timer cfg.failsafe_wake_interval_us ∷ []
        else enable_timer cfg.emergency_wake_interval_us
          ∷ call_if call.has_led (error_flash ++ error_flash ++ error_flash ++ led_sleep ∷ []))

module _ {F : Type 0} (ops : Floats F) (cfg : PowerConfig) where
  -- The two last checks, each of which turns back.
  unfoldable pub last_checks : Manager F → PowerCall → Manager F
  unfolding transition_to
  last_checks m call =
      if call.has_sensor && not call.proximity_below_threshold
      then record (transition_to ops (emit m disable_timer) wake_mode call) {
        last_activity_time = call.millis;
      }
      else if call.proximity_pin_low
      then record (transition_to ops (emit m disable_timer) detection_active call) {
        last_activity_time = call.millis;
      }
      else emit m start_deep_sleep

  unfoldable pub enter_deep_sleep : Manager F → PowerCall → Manager F
  unfolding shut_down arm update_battery_status last_checks
  enter_deep_sleep m call =
      let armed = record m { effects = m.effects ++ shut_down m call ++ arm cfg call } in
      last_checks (update_battery_status ops cfg armed call) call
