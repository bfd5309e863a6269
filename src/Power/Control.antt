-- ===== src/Power/Control.antt =====
-- `init`, `detectWakeReason` and the state machine's `update`.
use esp32_sensor_firmware_pl.Prelude.{
  Bool, true, false, not, ◌&&◌, ◌||◌, leb, ltb, ◌==◌, sub_u32, if◌then◌else◌,
}
use esp32_sensor_firmware_pl.Platform.{ResetReason, power_on, software, brownout}
use esp32_sensor_firmware_pl.Power.State.{
  PowerState, wake_mode, active, sleep_prep, deep_sleep, WakeReason, by_power_on, by_button,
  by_sensor, by_timer, by_brownout, by_software, unknown, PowerConfig, Floats, color_pairing, solid,
  slow_blink, set_color, set_pattern, led_update, Manager, PowerCall, emit,
}
use esp32_sensor_firmware_pl.Power.Battery.{update_battery_status}
use esp32_sensor_firmware_pl.Power.Machine.{
  show, transition_to, request_sleep, check_idle_timeout, get_sleep_prep_remaining,
  should_force_sleep,
}
use esp32_sensor_firmware_pl.Power.Sleep.{can_safely_enter_sleep, enter_deep_sleep}

-- `esp_sleep_get_wakeup_cause`, as far as its values are told apart.
pub data WakeupCause : Type 0 where
  ext0 ext1 timer_wakeup undefined_cause other_cause : WakeupCause

abbrev pub cold_reason : ResetReason → WakeReason
cold_reason power_on = by_power_on
cold_reason software = by_software
cold_reason _ = unknown

abbrev pub cause_reason : WakeupCause → ResetReason → WakeReason
cause_reason ext0 reset = by_button
cause_reason ext1 reset = by_sensor
cause_reason timer_wakeup reset = by_timer
cause_reason undefined_cause reset = cold_reason reset
cause_reason other_cause reset = unknown

abbrev is_brownout : ResetReason → Bool
is_brownout brownout = true
is_brownout _ = false

abbrev pub is_sensor : WakeReason → Bool
is_sensor by_sensor = true
is_sensor _ = false

module _ {F : Type 0} where
  unfoldable pub detect_wake_reason : Manager F → ResetReason → WakeupCause → Manager F × WakeReason
  detect_wake_reason m reset cause =
      if is_brownout reset
      then (record m { brownout_detected = true }, by_brownout)
      else (m, cause_reason cause reset)

  unfoldable pub set_ota_manager : Manager F → Bool → Manager F
  set_ota_manager m ota_manager = record m { has_ota = ota_manager }

module _ {F : Type 0} (ops : Floats F) (cfg : PowerConfig) where
  unfoldable pub init :
      Manager F → (ble history protocol : Bool) → ResetReason → WakeupCause → PowerCall → Manager F
  unfolding detect_wake_reason update_battery_status
  init m ble history protocol reset cause call =
      let linked = record m { has_ble = ble; has_history = history; has_protocol = protocol } in
      let (detected, reason) = detect_wake_reason linked reset cause in
      let woken = record detected {
        wake_reason = reason;
        woke_from_sensor = if is_sensor reason then true else detected.woke_from_sensor;
      } in
      record (update_battery_status ops cfg woken call) {
        initialized = true;
        state_entry_time = call.millis;
      }

  -- The LED in WAKE_MODE is set again only where it shows something else.
  unfoldable pub refresh_led : Manager F → PowerCall → Manager F
  refresh_led m call =
      let lit =
        if m.has_ble && call.advertising && call.pairing_mode
        then (if call.led_pattern_matches slow_blink color_pairing
            then m
            else emit m (set_pattern color_pairing slow_blink))
        else (if call.led_pattern_matches solid color_pairing
            then m
            else emit m (set_color color_pairing)) in
      if call.has_led then emit lit led_update else m

  unfoldable pub while_active : Manager F → PowerCall → Manager F
  unfolding request_sleep
  while_active m call =
      if m.has_ota && call.ota_in_progress
      then record m { last_activity_time = call.millis }
      else if m.has_history && call.is_flushing
      then record m { last_activity_time = call.millis }
      else if ltb 0 m.last_activity_time
          && leb cfg.connected_idle_timeout_ms (sub_u32 call.millis m.last_activity_time)
      then request_sleep ops m call
      else m

  unfoldable pub while_preparing : Manager F → PowerCall → Manager F
  unfolding get_sleep_prep_remaining should_force_sleep can_safely_enter_sleep transition_to
      enter_deep_sleep
  while_preparing m call =
      let shown = show m call led_update in
      let elapsed = get_sleep_prep_remaining cfg shown call.millis == 0 in
      let forces = should_force_sleep cfg shown call in
      if elapsed || forces
      then (if can_safely_enter_sleep shown call || forces
          then enter_deep_sleep ops cfg (transition_to ops shown deep_sleep call) call
          else record shown { sleep_deferred = true; sleep_prep_start_time = call.millis })
      else shown

  unfoldable pub update_state : PowerState → Manager F → PowerCall → Manager F
  unfolding refresh_led check_idle_timeout while_active while_preparing
  update_state wake_mode m call = check_idle_timeout ops cfg (refresh_led m call) call
  update_state active m call = while_active m call
  update_state sleep_prep m call = while_preparing m call
  update_state _ m call = m

  unfoldable pub update : Manager F → PowerCall → Manager F
  unfolding update_battery_status update_state
  update m call =
      let checked =
        if leb cfg.battery_check_interval_ms (sub_u32 call.millis m.last_battery_check_time)
        then update_battery_status ops cfg m call
        else m in
      if not m.initialized then m else update_state checked.current checked call
