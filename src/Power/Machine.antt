-- ===== src/Power/Machine.antt =====
-- The transitions of `PowerManager` and the small operations around them.
use esp32_sensor_firmware_pl.Prelude.{
  ℕ, ◌+◌, ◌-◌, Bool, true, false, not, ◌&&◌, leb, ltb, ◌==◌, u8, u16, sub_u32, if◌then◌else◌,
}
use esp32_sensor_firmware_pl.Power.State.{
  PowerState, booting, wake_mode, active, detection_active, sleep_prep, deep_sleep, PowerConfig,
  Floats, color_pairing, color_active, color_hit, color_sleep_prep, slow_blink, fast_blink, Effect,
  set_color, set_pattern, Manager, PowerCall, emit,
}

abbrev pub same_state : PowerState → PowerState → Bool
same_state booting booting = true
same_state wake_mode wake_mode = true
same_state active active = true
same_state detection_active detection_active = true
same_state sleep_prep sleep_prep = true
same_state deep_sleep deep_sleep = true
same_state _ _ = false

abbrev pub is_asleep : PowerState → Bool
is_asleep sleep_prep = true
is_asleep deep_sleep = true
is_asleep _ = false

abbrev pub is_disconnectable : PowerState → Bool
is_disconnectable wake_mode = true
is_disconnectable sleep_prep = true
is_disconnectable _ = false

abbrev pub party_mode_window_ms : ℕ
party_mode_window_ms = 30000

abbrev pub party_mode_detection_threshold : ℕ
party_mode_detection_threshold = 3

module _ {F : Type 0} where
  abbrev pub show : Manager F → PowerCall → Effect → Manager F
  show m call e = if call.has_led then emit m e else m

module _ {F : Type 0} (ops : Floats F) where
  unfoldable pub reset_rolling_prox_average : Manager F → Manager F
  reset_rolling_prox_average m = record m {
    rolling_prox_average = ops.nought;
    rolling_prox_sample_count = 0;
  }

  unfoldable pub count_detection : Manager F → ℕ → Manager F
  count_detection m now =
      let count =
        if ltb (sub_u32 now m.last_hit_time) party_mode_window_ms
        then u8 (m.consecutive_detections + 1)
        else 1 in
      record m {
        woke_from_sensor = false;
        consecutive_detections = count;
        last_hit_time = now;
        party_mode_active =
            if leb party_mode_detection_threshold count then true else m.party_mode_active;
      }

  -- The `switch` of `transitionTo` on the new state.
  unfoldable pub on_entry : PowerState → Manager F → PowerCall → Manager F
  unfolding reset_rolling_prox_average count_detection
  on_entry booting m call = m
  on_entry wake_mode m call =
      let lit = show m call (
        if m.has_ble && call.advertising
        then set_pattern color_pairing slow_blink
        else set_color color_pairing) in
      record (reset_rolling_prox_average lit) { last_activity_time = call.millis }
  on_entry active m call = record (show m call (set_color color_active)) {
    sleep_cancel_count = 0;
    woke_from_sensor = false;
    last_activity_time = call.millis;
  }
  on_entry detection_active m call = count_detection (show m call (set_color color_hit)) call.millis
  on_entry sleep_prep m call =
      show (record m { sleep_prep_start_time = call.millis }) call
        (set_pattern color_sleep_prep fast_blink)
  on_entry deep_sleep m call = record m { sleep_cancel_count = 0 }

  unfoldable pub transition_to : Manager F → PowerState → PowerCall → Manager F
  unfolding on_entry
  transition_to m new_state call =
      let ended =
        if is_asleep new_state && m.party_mode_active
        then record m { party_mode_active = false; consecutive_detections = 0 }
        else m in
      let moved = record ended {
        previous = m.current;
        current = new_state;
        state_entry_time = call.millis;
        sleep_deferred = false;
      } in
      if same_state m.current new_state then m else on_entry new_state moved call

  unfoldable pub request_sleep : Manager F → PowerCall → Manager F
  unfolding transition_to
  request_sleep m call =
      if not (same_state m.current sleep_prep) then transition_to m sleep_prep call else m

  unfoldable pub cancel_sleep : Manager F → PowerCall → Manager F
  unfolding transition_to
  cancel_sleep m call =
      let cancelled = record m { last_sleep_cancellation_time = call.millis } in
      if same_state m.current sleep_prep
      then (if m.has_ble && call.connected
          then transition_to cancelled active call
          else transition_to cancelled wake_mode call)
      else m

  unfoldable pub notify_activity : Manager F → PowerCall → Manager F
  unfolding cancel_sleep
  notify_activity m call =
      let noted = record m { last_activity_time = call.millis } in
      if same_state m.current sleep_prep then cancel_sleep noted call else noted

  unfoldable pub update_rolling_prox_average : Manager F → ℕ → Manager F
  update_rolling_prox_average m proximity =
      if ltb m.rolling_prox_sample_count 10
      then record m {
        rolling_prox_average =
            ops.running_mean m.rolling_prox_average m.rolling_prox_sample_count proximity;
        rolling_prox_sample_count = u16 (m.rolling_prox_sample_count + 1);
      }
      else record m { rolling_prox_average = ops.moving_average m.rolling_prox_average proximity }

  unfoldable pub get_dynamic_sleep_cancel_threshold : PowerConfig → Manager F → ℕ
  get_dynamic_sleep_cancel_threshold cfg m =
      let dynamic = ops.threshold_of m.rolling_prox_average in
      if ltb dynamic cfg.floor_threshold then cfg.floor_threshold else dynamic

  -- `checkIdleTimeout`.
  unfoldable pub idle_limit : PowerConfig → Manager F → PowerCall → ℕ
  idle_limit cfg m call =
      if m.woke_from_sensor
      then (if m.has_ble && ltb 0 call.bond_count
          then cfg.sensor_wake_bonded_timeout_ms
          else cfg.sensor_wake_quick_sleep_timeout_ms)
      else cfg.disconnected_sleep_timeout_ms

  unfoldable pub check_idle_timeout : PowerConfig → Manager F → PowerCall → Manager F
  unfolding idle_limit request_sleep
  check_idle_timeout cfg m call =
      if not (same_state m.current wake_mode)
      then m
      else if m.has_ble && call.connected
      then m
      else if ltb (sub_u32 call.millis m.last_sleep_cancellation_time)
          cfg.sleep_rerequest_debounce_ms
      then m
      else if leb (idle_limit cfg m call) (sub_u32 call.millis m.last_activity_time)
      then request_sleep m call
      else m

module _ {F : Type 0} where
  unfoldable pub defer_sleep : Manager F → Manager F
  defer_sleep m = record m { sleep_deferred = true }

  unfoldable pub clear_sensor_wake_flag : Manager F → Manager F
  clear_sensor_wake_flag m = record m { woke_from_sensor = false }

  unfoldable pub get_time_in_state : Manager F → ℕ → ℕ
  get_time_in_state m now = sub_u32 now m.state_entry_time

  unfoldable pub get_time_since_activity : Manager F → ℕ → ℕ
  get_time_since_activity m now =
      if m.last_activity_time == 0 then 0 else sub_u32 now m.last_activity_time

  unfoldable pub get_sleep_prep_remaining : PowerConfig → Manager F → ℕ → ℕ
  get_sleep_prep_remaining cfg m now =
      let elapsed = sub_u32 now m.sleep_prep_start_time in
      if not (same_state m.current sleep_prep)
      then 0
      else if leb cfg.sleep_prep_time_ms elapsed
      then 0
      else cfg.sleep_prep_time_ms - elapsed

  unfoldable pub should_force_sleep : PowerConfig → Manager F → PowerCall → Bool
  unfolding get_time_in_state
  should_force_sleep cfg m call =
      if leb cfg.max_sleep_cancel_count m.sleep_cancel_count
      then true
      else is_disconnectable m.current
        && m.has_ble
        && not call.connected
        && leb cfg.force_sleep_timeout_ms (get_time_in_state m call.millis)

  -- The result tells whether the limit is reached.
  unfoldable pub increment_sleep_cancel_count : PowerConfig → Manager F → Manager F × Bool
  increment_sleep_cancel_count cfg m =
      let count = u8 (m.sleep_cancel_count + 1) in
      (record m { sleep_cancel_count = count }, leb cfg.max_sleep_cancel_count count)
