-- ===== src/Power/Paired.antt =====
-- The wake-up timer through any sequence of calls.
use esp32_sensor_firmware_pl.Power.Events.{
  forget_proximity, check_idle, sleep_now, start, attach_ota, tick, gauge, enter, ask_sleep, cancel,
  activity, count_cancel, defer, clear_wake, proximity, PowerEvent, run, dispatch,
}
use esp32_sensor_firmware_pl.Power.Battery.{update_battery_status}
use esp32_sensor_firmware_pl.Platform.{ResetReason}
use esp32_sensor_firmware_pl.Power.Attempts.{
  check_idle_timeout-quiet, request_sleep-quiet, attempts, update_sleeps,
}
use esp32_sensor_firmware_pl.Power.Guards.{
  enter_deep_sleep_lem, update_battery_status-frame, last_call, transition_to-quiet, wake_interval,
  sleep_calls,
}
use esp32_sensor_firmware_pl.Power.Control.{
  is_sensor, WakeupCause, set_ota_manager, detect_wake_reason, update, init,
}
use esp32_sensor_firmware_pl.Power.Machine.{
  check_idle_timeout, reset_rolling_prox_average, transition_to, request_sleep,
  update_rolling_prox_average, clear_sensor_wake_flag, defer_sleep, increment_sleep_cancel_count,
  cancel_sleep, notify_activity,
}
use esp32_sensor_firmware_pl.Power.State.{
  wake_mode, active, enable_timer, Manager, PowerCall, Floats, PowerConfig, Effect, disable_timer,
  start_deep_sleep,
}
use esp32_sensor_firmware_pl.Prelude.{
  if_false, if◌then◌else◌, if_true, ◌++◌, ◌≡◌, refl, ap, ◌∙◌, Bool, true, false, not, List, [], ◌∷◌,
  arith, Bool-cases, inl, inr,
}

-- Whether each arming of the timer is followed by its end, where it is armed at the start or not.
abbrev pub is_paired : (armed : Bool) → List Effect → Bool
is_paired armed [] = not armed
is_paired false (enable_timer us ∷ es) = is_paired true es
is_paired true (disable_timer ∷ es) = is_paired false es
is_paired true (start_deep_sleep ∷ es) = is_paired false es
is_paired _ (_ ∷ es) = false

is_paired-append :
    (armed : Bool) (xs ys : List Effect)
    → is_paired armed xs ≡ true
    → is_paired armed (xs ++ ys) ≡ is_paired false ys
is_paired-append false [] ys h = refl
is_paired-append true [] ys h = absurd (ground arith)
is_paired-append armed (x ∷ xs) ys h =
    ground (arith, is_paired-append true xs ys, is_paired-append false xs ys, h)

last_call-is_paired :
    (cfg : PowerConfig) (call : PowerCall)
    → is_paired false (enable_timer (wake_interval cfg call) ∷ last_call call ∷ []) ≡ true
last_call-is_paired cfg call = ground arith

module _ {F : Type 0} (ops : Floats F) (cfg : PowerConfig) where
  abbrev IsPaired : Manager F → Type 0
  IsPaired m = is_paired false (sleep_calls m.effects) ≡ true

  -- What leaves the calls on the timer as they are.
  kept :
      (m m' : Manager F) → sleep_calls m'.effects ≡ sleep_calls m.effects → IsPaired m → IsPaired m'
  kept m m' e v = ap (is_paired false) e ∙ v

  cancel_sleep-quiet :
      (m : Manager F) (call : PowerCall)
      → sleep_calls (cancel_sleep ops m call).effects ≡ sleep_calls m.effects
  unfolding cancel_sleep
  cancel_sleep-quiet m call =
      let cancelled = record m { last_sleep_cancellation_time = call.millis } in
      ground (
        arith,
        transition_to-quiet ops cfg cancelled active call,
        transition_to-quiet ops cfg cancelled wake_mode call,
      )

  notify_activity-quiet :
      (m : Manager F) (call : PowerCall)
      → sleep_calls (notify_activity ops m call).effects ≡ sleep_calls m.effects
  unfolding notify_activity
  notify_activity-quiet m call =
      ground (arith, cancel_sleep-quiet (record m { last_activity_time = call.millis }) call)

  init-quiet :
      (m : Manager F) (ble history protocol : Bool) (reset : ResetReason) (cause : WakeupCause)
      (call : PowerCall)
      → sleep_calls (init ops cfg m ble history protocol reset cause call).effects
        ≡ sleep_calls m.effects
  unfolding init detect_wake_reason
  init-quiet m ble history protocol reset cause call =
      let linked = record m { has_ble = ble; has_history = history; has_protocol = protocol } in
      let (detected, reason) = detect_wake_reason linked reset cause in
      let woken = record detected {
        wake_reason = reason;
        woke_from_sensor = if is_sensor reason then true else detected.woke_from_sensor;
      } in
      ap sleep_calls (update_battery_status-frame ops cfg woken call).0 ∙ ground arith

  update-IsPaired :
      (m : Manager F) (call : PowerCall) → IsPaired m → IsPaired (update ops cfg m call)
  update-IsPaired m call v =
      let sleeps = update_sleeps ops cfg m call in
      elim (Bool-cases (attempts ops cfg m call)) [
        | inl tries ↦
            ap (is_paired false) (sleeps ∙ if_true (attempts ops cfg m call) _ _ tries)
            ∙ is_paired-append false (sleep_calls m.effects) _ v
            ∙ last_call-is_paired cfg call
        | inr waits ↦
            kept m (update ops cfg m call) (sleeps ∙ if_false (attempts ops cfg m call) _ _ waits) v
      ]

  dispatch-IsPaired :
      (m : Manager F) (e : PowerEvent) → IsPaired m → IsPaired (dispatch ops cfg m e)
  unfolding dispatch increment_sleep_cancel_count set_ota_manager defer_sleep clear_sensor_wake_flag
      update_rolling_prox_average reset_rolling_prox_average
  dispatch-IsPaired m (start ble history protocol reset cause call) v =
      kept m (init ops cfg m ble history protocol reset cause call)
        (init-quiet m ble history protocol reset cause call) v
  dispatch-IsPaired m (attach_ota there) v = v
  dispatch-IsPaired m (tick call) v = update-IsPaired m call v
  dispatch-IsPaired m (gauge call) v =
      kept m (update_battery_status ops cfg m call)
        (ap sleep_calls (update_battery_status-frame ops cfg m call).0) v
  dispatch-IsPaired m (enter s call) v =
      kept m (transition_to ops m s call) (transition_to-quiet ops cfg m s call).0 v
  dispatch-IsPaired m (ask_sleep call) v =
      kept m (request_sleep ops m call) (request_sleep-quiet ops cfg m call) v
  dispatch-IsPaired m (cancel call) v =
      kept m (cancel_sleep ops m call) (cancel_sleep-quiet m call) v
  dispatch-IsPaired m (activity call) v =
      kept m (notify_activity ops m call) (notify_activity-quiet m call) v
  dispatch-IsPaired m count_cancel v = v
  dispatch-IsPaired m defer v = v
  dispatch-IsPaired m clear_wake v = v
  dispatch-IsPaired m (proximity n) v =
      kept m (update_rolling_prox_average ops m n) (ground arith) v
  dispatch-IsPaired m forget_proximity v = v
  dispatch-IsPaired m (check_idle call) v =
      kept m (check_idle_timeout ops cfg m call) (check_idle_timeout-quiet ops cfg m call) v
  dispatch-IsPaired m (sleep_now call) v =
      ap (is_paired false) (enter_deep_sleep_lem ops cfg m call)
      ∙ is_paired-append false (sleep_calls m.effects) _ v
      ∙ last_call-is_paired cfg call

  pub run-is_paired :
      (m : Manager F) (es : List PowerEvent)
      → is_paired false (sleep_calls m.effects) ≡ true
      → is_paired false (sleep_calls (run ops cfg m es).effects) ≡ true
  unfolding run
  run-is_paired m [] v = v
  run-is_paired m (e ∷ es) v = run-is_paired (dispatch ops cfg m e) es (dispatch-IsPaired m e v)
