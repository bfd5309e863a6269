-- ===== src/Power/Life.antt =====
-- The changes of the power state that `update` and `checkIdleTimeout` make, and when they make them.
use esp32_sensor_firmware_pl.Power.Attempts.{ready_to_sleep}
use esp32_sensor_firmware_pl.Prelude.{
  ltb, ◌≡◌, Bool, true, false, not, ◌&&◌, leb, sub_u32, if◌then◌else◌, arith,
}
use esp32_sensor_firmware_pl.Power.State.{
  PowerState, wake_mode, active, detection_active, sleep_prep, deep_sleep, PowerConfig, Floats,
  Manager, PowerCall,
}
use esp32_sensor_firmware_pl.Power.Machine.{
  same_state, request_sleep, check_idle_timeout, idle_limit,
}
use esp32_sensor_firmware_pl.Power.Guards.{turns_back, transition_to-quiet}

module _ {F : Type 0} (ops : Floats F) (cfg : PowerConfig) where
  -- An awake device that is alone has been idle for its limit, and no sleep was cancelled just before.
  abbrev pub is_idle_alone : Manager F → PowerCall → Bool
  is_idle_alone m call =
      not (m.has_ble && call.connected)
      && leb cfg.sleep_rerequest_debounce_ms (sub_u32 call.millis m.last_sleep_cancellation_time)
      && leb (idle_limit ops cfg m call) (sub_u32 call.millis m.last_activity_time)

  -- A connected device has seen no activity for the time-out, and neither an update nor a flush goes on.
  abbrev pub is_idle_connected : Manager F → PowerCall → Bool
  is_idle_connected m call =
      not (m.has_ota && call.ota_in_progress)
      && not (m.has_history && call.is_flushing)
      && ltb 0 m.last_activity_time
      && leb cfg.connected_idle_timeout_ms (sub_u32 call.millis m.last_activity_time)

  -- Whether a state is left at this call.
  abbrev pub is_due : PowerState → Manager F → PowerCall → Bool
  is_due wake_mode m call = is_idle_alone m call
  is_due active m call = is_idle_connected m call
  is_due sleep_prep m call = ready_to_sleep ops cfg m call
  is_due _ m call = false

abbrev pub sees_something : PowerCall → Bool
sees_something call = call.has_sensor && not call.proximity_below_threshold

-- The edges of the diagram, each with the condition under which the manager takes it at a call.
pub data Moves {F : Type 0} (ops : Floats F) (cfg : PowerConfig) (m : Manager F) (call : PowerCall)
    : PowerState → PowerState → Type 0 where
  stay :
      {s : PowerState}
      → (m.initialized && is_due ops cfg s m call) ≡ false
      → Moves ops cfg m call s s
  idle_alone :
      m.initialized ≡ true
      → is_idle_alone ops cfg m call ≡ true
      → Moves ops cfg m call wake_mode sleep_prep
  idle_connected :
      m.initialized ≡ true
      → is_idle_connected ops cfg m call ≡ true
      → Moves ops cfg m call active sleep_prep
  fall_asleep :
      m.initialized ≡ true
      → ready_to_sleep ops cfg m call ≡ true
      → turns_back call ≡ false
      → Moves ops cfg m call sleep_prep deep_sleep
  turn_back :
      m.initialized ≡ true
      → ready_to_sleep ops cfg m call ≡ true
      → sees_something call ≡ true
      → Moves ops cfg m call sleep_prep wake_mode
  touched :
      m.initialized ≡ true
      → ready_to_sleep ops cfg m call ≡ true
      → sees_something call ≡ false
      → call.proximity_pin_low ≡ true
      → Moves ops cfg m call sleep_prep detection_active

-- Where a state that is left leads.
abbrev after : PowerState → PowerCall → PowerState
after wake_mode call = sleep_prep
after active call = sleep_prep
after sleep_prep call =
    if sees_something call
    then wake_mode
    else if call.proximity_pin_low
    then detection_active
    else deep_sleep
after s call = s

module _ {F : Type 0} (ops : Floats F) (cfg : PowerConfig) where
  -- A device that is awake and alone asks for sleep exactly when its idle time has reached the limit and
  -- no sleep was cancelled just before; `checkIdleTimeout` does nothing else to the state.
  pub check_idle_timeout_lem :
      (m : Manager F) (call : PowerCall)
      → (check_idle_timeout ops cfg m call).current ≡ (
          if same_state m.current wake_mode
            && not (m.has_ble && call.connected)
            && leb cfg.sleep_rerequest_debounce_ms
                (sub_u32 call.millis m.last_sleep_cancellation_time)
            && leb (idle_limit ops cfg m call) (sub_u32 call.millis m.last_activity_time)
          then sleep_prep
          else m.current)
  unfolding check_idle_timeout request_sleep
  check_idle_timeout_lem m call = ground (arith, transition_to-quiet ops cfg m sleep_prep call)
