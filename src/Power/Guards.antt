-- ===== src/Power/Guards.antt =====
-- The steps into deep sleep and the calls on the wake-up timer.
use esp32_sensor_firmware_pl.Prelude.{
  ℕ, ◌≡◌, refl, ap, ap₂, length, ◌∙◌, ◌++◌, append-nil, append_assoc, Bool, true, false, not, ◌&&◌,
  ◌||◌, List, [], ◌∷◌, leb, select, if◌then◌else◌, arith, Bool-cases, inl, inr,
}
use esp32_sensor_firmware_pl.Power.State.{
  color_hit, color_active, slow_blink, color_pairing, PowerState, booting, wake_mode, active,
  detection_active, sleep_prep, deep_sleep, PowerConfig, Floats, Effect, enable_timer,
  disable_timer, start_deep_sleep, Manager, PowerCall, emit, set_color, set_pattern,
  color_sleep_prep, fast_blink,
}
use esp32_sensor_firmware_pl.Power.Battery.{track_battery, update_battery_status}
use esp32_sensor_firmware_pl.Power.Machine.{
  get_time_in_state, is_asleep, count_detection, reset_rolling_prox_average, on_entry, same_state,
  show, transition_to, get_sleep_prep_remaining, should_force_sleep,
}
use esp32_sensor_firmware_pl.Power.Sleep.{
  call_if, calls_of, shut_down_calls, can_safely_enter_sleep, shut_down, arm, last_checks,
  enter_deep_sleep,
}

-- The calls that arm or disarm the wake-up timer or start deep sleep.
abbrev pub is_sleep_call : Effect → Bool
is_sleep_call (enable_timer us) = true
is_sleep_call disable_timer = true
is_sleep_call start_deep_sleep = true
is_sleep_call _ = false

abbrev pub sleep_calls : List Effect → List Effect
sleep_calls es = select is_sleep_call es

sleep_calls-append :
    (xs ys : List Effect) → sleep_calls (xs ++ ys) ≡ sleep_calls xs ++ sleep_calls ys
sleep_calls-append [] ys = refl
sleep_calls-append (x ∷ xs) ys = ground (arith, sleep_calls-append xs ys)

abbrev all_quiet : List (Bool × List Effect) → Bool
all_quiet [] = true
all_quiet ((b, es) ∷ rest) = leb (length (sleep_calls es)) 0 && all_quiet rest

sleep_calls-call_if :
    (b : Bool) (es : List Effect)
    → leb (length (sleep_calls es)) 0 ≡ true
    → sleep_calls (call_if b es) ≡ []
sleep_calls-call_if true es h = ground arith
sleep_calls-call_if false es h = refl

sleep_calls-calls_of :
    (parts : List (Bool × List Effect)) → all_quiet parts ≡ true → sleep_calls (calls_of parts) ≡ []
sleep_calls-calls_of [] h = refl
sleep_calls-calls_of ((b, es) ∷ rest) h =
    sleep_calls-append (call_if b es) (calls_of rest)
    ∙ ap₂ ◌++◌ (sleep_calls-call_if b es (ground arith)) (sleep_calls-calls_of rest (ground arith))

pub sleep_calls-snoc :
    (es : List Effect) (e : Effect)
    → is_sleep_call e ≡ false
    → sleep_calls (es ++ (e ∷ [])) ≡ sleep_calls es
sleep_calls-snoc es e h =
    sleep_calls-append es (e ∷ [])
    ∙ ap (λ b. sleep_calls es ++ (if b then e ∷ [] else [])) h
    ∙ append-nil (sleep_calls es)

-- The timer of a sleep attempt, and how it ends.
abbrev pub wake_interval : PowerConfig → PowerCall → ℕ
wake_interval cfg call =
    if call.has_sensor && call.sensor_configured
    then cfg.failsafe_wake_interval_us
    else cfg.emergency_wake_interval_us

abbrev pub turns_back : PowerCall → Bool
turns_back call = (call.has_sensor && not call.proximity_below_threshold) || call.proximity_pin_low

abbrev pub last_call : PowerCall → Effect
last_call call = if turns_back call then disable_timer else start_deep_sleep

module _ {F : Type 0} where
  sleep_calls-shut_down : (m : Manager F) (call : PowerCall) → sleep_calls (shut_down m call) ≡ []
  unfolding shut_down
  sleep_calls-shut_down m call = sleep_calls-calls_of (shut_down_calls m call) refl

  pub sleep_calls-show :
      (m : Manager F) (call : PowerCall) (e : Effect)
      → is_sleep_call e ≡ false
      → sleep_calls (show m call e).effects ≡ sleep_calls m.effects
  sleep_calls-show m call e h = ground (arith, sleep_calls-snoc m.effects e h)

sleep_calls-arm :
    (cfg : PowerConfig) (call : PowerCall)
    → sleep_calls (arm cfg call) ≡ enable_timer (wake_interval cfg call) ∷ []
unfolding arm
sleep_calls-arm cfg call = ground arith

module _ {F : Type 0} (ops : Floats F) (cfg : PowerConfig) where
  pub on_entry-quiet :
      (s : PowerState) (m : Manager F) (call : PowerCall)
      → (sleep_calls (on_entry ops s m call).effects ≡ sleep_calls m.effects)
        × ((on_entry ops s m call).current ≡ m.current)
  unfolding on_entry reset_rolling_prox_average count_detection
  on_entry-quiet booting m call = (refl, refl)
  on_entry-quiet wake_mode m call = ground (
    arith,
    sleep_calls-snoc m.effects (set_pattern color_pairing slow_blink) refl,
    sleep_calls-snoc m.effects (set_color color_pairing) refl,
  )
  on_entry-quiet active m call =
      ground (arith, sleep_calls-snoc m.effects (set_color color_active) refl)
  on_entry-quiet detection_active m call =
      ground (arith, sleep_calls-snoc m.effects (set_color color_hit) refl)
  on_entry-quiet sleep_prep m call =
      ground (arith, sleep_calls-snoc m.effects (set_pattern color_sleep_prep fast_blink) refl)
  on_entry-quiet deep_sleep m call = (refl, refl)

  pub same_state_sound : (s t : PowerState) → same_state s t ≡ true → s ≡ t
  same_state_sound s t h = ground arith

  pub transition_to-quiet :
      (m : Manager F) (s : PowerState) (call : PowerCall)
      → (sleep_calls (transition_to ops m s call).effects ≡ sleep_calls m.effects)
        × ((transition_to ops m s call).current ≡ s)
  unfolding transition_to
  transition_to-quiet m s call =
      let ended =
        if is_asleep s && m.party_mode_active
        then record m { party_mode_active = false; consecutive_detections = 0 }
        else m in
      let moved = record ended {
        previous = m.current;
        current = s;
        state_entry_time = call.millis;
        sleep_deferred = false;
      } in
      let entered = on_entry-quiet s moved call in
      elim (Bool-cases (same_state m.current s)) [
        | inl same ↦ rw same (refl, same_state_sound m.current s same)
        | inr changed ↦ rw changed (entered.0 ∙ ground arith, entered.1)
      ]

  -- What the gauge leaves alone.
  pub update_battery_status-frame :
      (m : Manager F) (call : PowerCall)
      → let m' = update_battery_status ops cfg m call in
        (m'.effects ≡ m.effects)
        × (m'.current ≡ m.current)
        × (m'.initialized ≡ m.initialized)
        × (m'.party_mode_active ≡ m.party_mode_active)
        × (get_sleep_prep_remaining cfg m' call.millis ≡ get_sleep_prep_remaining cfg m call.millis)
        × (should_force_sleep cfg m' call ≡ should_force_sleep cfg m call)
        × (can_safely_enter_sleep m' call ≡ can_safely_enter_sleep m call)
  unfolding update_battery_status track_battery get_sleep_prep_remaining should_force_sleep
      get_time_in_state can_safely_enter_sleep
  update_battery_status-frame m call = ground arith

  pub last_checks_lem :
      (m : Manager F) (call : PowerCall)
      → (sleep_calls (last_checks ops cfg m call).effects
          ≡ sleep_calls m.effects ++ (last_call call ∷ []))
        × ((last_checks ops cfg m call).current ≡ (
            if call.has_sensor && not call.proximity_below_threshold
            then wake_mode
            else if call.proximity_pin_low
            then detection_active
            else m.current))
  unfolding last_checks
  last_checks_lem m call =
      let back = emit m disable_timer in
      ground (
        arith,
        transition_to-quiet back wake_mode call,
        transition_to-quiet back detection_active call,
        sleep_calls-append m.effects (disable_timer ∷ []),
        sleep_calls-append m.effects (start_deep_sleep ∷ []),
      )

  pub enter_deep_sleep_lem :
      (m : Manager F) (call : PowerCall)
      → sleep_calls (enter_deep_sleep ops cfg m call).effects
        ≡ sleep_calls m.effects ++ enable_timer (wake_interval cfg call) ∷ last_call call ∷ []
  unfolding enter_deep_sleep
  enter_deep_sleep_lem m call =
      let armed = record m { effects = m.effects ++ shut_down m call ++ arm cfg call } in
      let gauged = update_battery_status ops cfg armed call in
      (last_checks_lem gauged call).0
      ∙ ap (λ es. sleep_calls es ++ (last_call call ∷ []))
          (update_battery_status-frame armed call).0
      ∙ ap (λ l. l ++ (last_call call ∷ []))
          (sleep_calls-append (m.effects ++ shut_down m call) (arm cfg call)
            ∙ ap₂ ◌++◌
                (sleep_calls-append m.effects (shut_down m call)
                  ∙ ap (λ l. sleep_calls m.effects ++ l) (sleep_calls-shut_down m call)
                  ∙ append-nil (sleep_calls m.effects))
                (sleep_calls-arm cfg call))
      ∙ append_assoc (sleep_calls m.effects) (enable_timer (wake_interval cfg call) ∷ [])
          (last_call call ∷ [])
