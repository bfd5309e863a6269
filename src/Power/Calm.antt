-- ===== src/Power/Calm.antt =====
-- The power manager through any sequence of calls.
use esp32_sensor_firmware_pl.Power.Events.{
  forget_proximity, check_idle, sleep_now, start, attach_ota, tick, gauge, enter, ask_sleep, cancel,
  activity, count_cancel, defer, clear_wake, proximity, run, dispatch, PowerEvent,
}
use esp32_sensor_firmware_pl.Power.Guards.{sleep_calls}
use esp32_sensor_firmware_pl.Power.Paired.{run-is_paired, is_paired}
use esp32_sensor_firmware_pl.Prelude.{
  ltb, ◌++◌, ◌≤◌, ◌≡◌, refl, Bool, true, false, not, ◌&&◌, List, [], ◌∷◌, leb, sub_u32,
  if◌then◌else◌, arith,
}
use esp32_sensor_firmware_pl.Platform.{ResetReason}
use esp32_sensor_firmware_pl.Power.State.{
  PowerState, booting, wake_mode, active, detection_active, sleep_prep, deep_sleep, PowerConfig,
  Floats, led_update, disable_timer, Manager, PowerCall, emit, new,
}
use esp32_sensor_firmware_pl.Power.Battery.{track_battery, update_battery_status}
use esp32_sensor_firmware_pl.Power.Machine.{
  defer_sleep, clear_sensor_wake_flag, update_rolling_prox_average, count_detection,
  reset_rolling_prox_average, same_state, is_asleep, show, transition_to, on_entry, request_sleep,
  cancel_sleep, notify_activity, check_idle_timeout, increment_sleep_cancel_count,
}
use esp32_sensor_firmware_pl.Power.Sleep.{shut_down, arm, last_checks, enter_deep_sleep}
use esp32_sensor_firmware_pl.Power.Control.{
  init, set_ota_manager, detect_wake_reason, is_sensor, WakeupCause, update, update_state,
  while_preparing, while_active, refresh_led,
}

-- No party goes on in SLEEP_PREP or DEEP_SLEEP, and the percentage is one.
pub record IsSane {F : Type 0} (m : Manager F) : Type 0 where
  pub no_party : (is_asleep m.current && m.party_mode_active) ≡ false
  pub percentage : m.battery_percent ≤ 100

if-IsSane :
    {F : Type 0} (b : Bool) (x y : Manager F) → IsSane x → IsSane y → IsSane (if b then x else y)
if-IsSane true x y p q = p
if-IsSane false x y p q = q

module _ {F : Type 0} (ops : Floats F) (cfg : PowerConfig) where
  on_entry-IsSane :
      (s : PowerState) (m : Manager F) (call : PowerCall)
      → m.current ≡ s
      → IsSane m
      → IsSane (on_entry ops s m call)
  unfolding on_entry reset_rolling_prox_average count_detection
  on_entry-IsSane booting m call e v = v
  on_entry-IsSane wake_mode m call e v = record {
    no_party = ground arith;
    percentage = ground arith;
  }
  on_entry-IsSane active m call e v = record { no_party = ground arith; percentage = ground arith }
  on_entry-IsSane detection_active m call e v = record {
    no_party = ground arith;
    percentage = ground arith;
  }
  on_entry-IsSane sleep_prep m call e v = record {
    no_party = ground (arith, v);
    percentage = ground arith;
  }
  on_entry-IsSane deep_sleep m call e v = record {
    no_party = ground (arith, v);
    percentage = v.percentage;
  }

  transition_to-IsSane :
      (m : Manager F) (s : PowerState) (call : PowerCall)
      → IsSane m
      → IsSane (transition_to ops m s call)
  unfolding transition_to
  transition_to-IsSane m s call v =
      let ended =
        if is_asleep s && m.party_mode_active
        then record m { party_mode_active = false; consecutive_detections = 0 }
        else m in
      let moved = record ended {
        previous = m.current;
        current = s;
        state_entry_time = call.millis;
        sleep_deferred = false;
      } in
      if-IsSane (same_state m.current s) m (on_entry ops s moved call) v (
        on_entry-IsSane s moved call refl
          (record { no_party = ground arith; percentage = ground (arith, v) }))

  update_battery_status-IsSane :
      (m : Manager F) (call : PowerCall) → IsSane m → IsSane (update_battery_status ops cfg m call)
  unfolding update_battery_status track_battery
  update_battery_status-IsSane m call v = record {
    no_party = ground (arith, v);
    percentage = ground (arith, v);
  }

  request_sleep-IsSane :
      (m : Manager F) (call : PowerCall) → IsSane m → IsSane (request_sleep ops m call)
  unfolding request_sleep
  request_sleep-IsSane m call v =
      if-IsSane (not (same_state m.current sleep_prep)) (transition_to ops m sleep_prep call) m
        (transition_to-IsSane m sleep_prep call v) v

  cancel_sleep-IsSane :
      (m : Manager F) (call : PowerCall) → IsSane m → IsSane (cancel_sleep ops m call)
  unfolding cancel_sleep
  cancel_sleep-IsSane m call v =
      let cancelled = record m { last_sleep_cancellation_time = call.millis } in
      let sane : IsSane cancelled = record { no_party = v.no_party; percentage = v.percentage } in
      if-IsSane (same_state m.current sleep_prep) _ m
        (if-IsSane (m.has_ble && call.connected) (transition_to ops cancelled active call)
          (transition_to ops cancelled wake_mode call)
          (transition_to-IsSane cancelled active call sane)
          (transition_to-IsSane cancelled wake_mode call sane))
        v

  last_checks-IsSane :
      (m : Manager F) (call : PowerCall) → IsSane m → IsSane (last_checks ops cfg m call)
  unfolding last_checks
  last_checks-IsSane m call v =
      let off = emit m disable_timer in
      let sane : IsSane off = record { no_party = v.no_party; percentage = v.percentage } in
      let woken = transition_to-IsSane off wake_mode call sane in
      let touched = transition_to-IsSane off detection_active call sane in
      if-IsSane (call.has_sensor && not call.proximity_below_threshold) _ _
        (record { no_party = woken.no_party; percentage = woken.percentage })
        (if-IsSane call.proximity_pin_low _ _
          (record { no_party = touched.no_party; percentage = touched.percentage })
          (record { no_party = v.no_party; percentage = v.percentage }))

  enter_deep_sleep-IsSane :
      (m : Manager F) (call : PowerCall) → IsSane m → IsSane (enter_deep_sleep ops cfg m call)
  unfolding enter_deep_sleep
  enter_deep_sleep-IsSane m call v =
      let armed = record m { effects = m.effects ++ shut_down m call ++ arm cfg call } in
      last_checks-IsSane (update_battery_status ops cfg armed call) call (
        update_battery_status-IsSane armed call
          (record { no_party = v.no_party; percentage = v.percentage }))

  check_idle_timeout-IsSane :
      (m : Manager F) (call : PowerCall) → IsSane m → IsSane (check_idle_timeout ops cfg m call)
  unfolding check_idle_timeout
  check_idle_timeout-IsSane m call v = if-IsSane (not (same_state m.current wake_mode)) m _ v (
      if-IsSane (m.has_ble && call.connected) m _ v (
        if-IsSane _ m _ v
          (if-IsSane _ (request_sleep ops m call) m (request_sleep-IsSane m call v) v)))

  update_state-IsSane :
      (s : PowerState) (m : Manager F) (call : PowerCall)
      → IsSane m
      → IsSane (update_state ops cfg s m call)
  unfolding update_state refresh_led while_active while_preparing
  update_state-IsSane wake_mode m call v =
      let lit = refresh_led ops cfg m call in
      let sane : IsSane lit = record {
        no_party = ground (arith, v);
        percentage = ground (arith, v);
      } in
      check_idle_timeout-IsSane lit call sane
  update_state-IsSane active m call v =
      let busy = record m { last_activity_time = call.millis } in
      let sane : IsSane busy = record { no_party = v.no_party; percentage = v.percentage } in
      if-IsSane (m.has_ota && call.ota_in_progress) busy _ sane (
        if-IsSane (m.has_history && call.is_flushing) busy _ sane
          (if-IsSane _ (request_sleep ops m call) m (request_sleep-IsSane m call v) v))
  update_state-IsSane sleep_prep m call v =
      let shown = show m call led_update in
      let deferred = record shown { sleep_deferred = true; sleep_prep_start_time = call.millis } in
      let sane : IsSane shown = record {
        no_party = ground (arith, v);
        percentage = ground (arith, v);
      } in
      if-IsSane _ _ shown
        (if-IsSane _ (enter_deep_sleep ops cfg (transition_to ops shown deep_sleep call) call)
          deferred
          (enter_deep_sleep-IsSane (transition_to ops shown deep_sleep call) call
            (transition_to-IsSane shown deep_sleep call sane))
          (record { no_party = sane.no_party; percentage = sane.percentage }))
        sane
  update_state-IsSane booting m call v = v
  update_state-IsSane detection_active m call v = v
  update_state-IsSane deep_sleep m call v = v

  init-IsSane :
      (m : Manager F) (ble history protocol : Bool) (reset : ResetReason) (cause : WakeupCause)
      (call : PowerCall)
      → IsSane m
      → IsSane (init ops cfg m ble history protocol reset cause call)
  unfolding init detect_wake_reason
  init-IsSane m ble history protocol reset cause call v =
      let linked = record m { has_ble = ble; has_history = history; has_protocol = protocol } in
      let (detected, reason) = detect_wake_reason linked reset cause in
      let woken = record detected {
        wake_reason = reason;
        woke_from_sensor = if is_sensor reason then true else detected.woke_from_sensor;
      } in
      let sane : IsSane woken = record {
        no_party = ground (arith, v);
        percentage = ground (arith, v);
      } in
      let gauged = update_battery_status-IsSane woken call sane in
      record { no_party = gauged.no_party; percentage = gauged.percentage }

  dispatch-IsSane : (m : Manager F) (e : PowerEvent) → IsSane m → IsSane (dispatch ops cfg m e)
  unfolding dispatch update notify_activity increment_sleep_cancel_count set_ota_manager defer_sleep
      clear_sensor_wake_flag update_rolling_prox_average reset_rolling_prox_average
  dispatch-IsSane m (start ble history protocol reset cause call) v =
      init-IsSane m ble history protocol reset cause call v
  dispatch-IsSane m (attach_ota there) v = record {
    no_party = v.no_party;
    percentage = v.percentage;
  }
  dispatch-IsSane m (tick call) v =
      let c =
        if leb cfg.battery_check_interval_ms (sub_u32 call.millis m.last_battery_check_time)
        then update_battery_status ops cfg m call
        else m in
      if-IsSane (not m.initialized) m _ v (
        update_state-IsSane c.current c call (
          if-IsSane _ (update_battery_status ops cfg m call) m
            (update_battery_status-IsSane m call v) v))
  dispatch-IsSane m (gauge call) v = update_battery_status-IsSane m call v
  dispatch-IsSane m (enter s call) v = transition_to-IsSane m s call v
  dispatch-IsSane m (ask_sleep call) v = request_sleep-IsSane m call v
  dispatch-IsSane m (cancel call) v = cancel_sleep-IsSane m call v
  dispatch-IsSane m (activity call) v =
      let noted = record m { last_activity_time = call.millis } in
      let sane : IsSane noted = record { no_party = v.no_party; percentage = v.percentage } in
      if-IsSane (same_state m.current sleep_prep) (cancel_sleep ops noted call) noted
        (cancel_sleep-IsSane noted call sane) sane
  dispatch-IsSane m count_cancel v = record { no_party = v.no_party; percentage = v.percentage }
  dispatch-IsSane m defer v = record { no_party = v.no_party; percentage = v.percentage }
  dispatch-IsSane m clear_wake v = record { no_party = v.no_party; percentage = v.percentage }
  dispatch-IsSane m (proximity n) v =
      if-IsSane (ltb m.rolling_prox_sample_count 10) _ _
        (record { no_party = v.no_party; percentage = v.percentage })
        (record { no_party = v.no_party; percentage = v.percentage })
  dispatch-IsSane m forget_proximity v = record { no_party = v.no_party; percentage = v.percentage }
  dispatch-IsSane m (check_idle call) v = check_idle_timeout-IsSane m call v
  dispatch-IsSane m (sleep_now call) v = enter_deep_sleep-IsSane m call v

  run_from-IsSane : (m : Manager F) (es : List PowerEvent) → IsSane m → IsSane (run ops cfg m es)
  unfolding run
  run_from-IsSane m [] v = v
  run_from-IsSane m (e ∷ es) v = run_from-IsSane (dispatch ops cfg m e) es (dispatch-IsSane m e v)

  -- Through any calls of its methods on a new manager, `init` among them, no party mode is on in SLEEP_PREP or
  -- DEEP_SLEEP, the battery percentage stays within 100, and the wake-up timer never stays armed on a
  -- device that is awake: each time it is armed, it is disarmed or deep sleep starts before it is
  -- armed again, and neither happens without it.
  pub run-IsSane :
      (es : List PowerEvent)
      → let m = run ops cfg (new ops) es in
        IsSane m × (is_paired false (sleep_calls m.effects) ≡ true)
  unfolding new
  run-IsSane es = (
    run_from-IsSane (new ops) es (record { no_party = refl; percentage = omega arith }),
    run-is_paired ops cfg (new ops) es refl,
  )
