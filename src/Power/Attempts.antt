-- ===== src/Power/Attempts.antt =====
-- When `update` starts deep sleep, and with which timer.
use esp32_sensor_firmware_pl.Prelude.{
  ap₂, ◌≡◌, refl, sym, ap, ◌∙◌, ◌++◌, Bool, true, false, not, ◌&&◌, ◌||◌, List, [], ◌∷◌, leb, ◌==◌,
  sub_u32, if◌then◌else◌, arith, Bool-cases, inl, inr,
}
use esp32_sensor_firmware_pl.Power.State.{
  PowerState, booting, wake_mode, active, detection_active, sleep_prep, deep_sleep, PowerConfig,
  Floats, Effect, enable_timer, led_update, set_color, set_pattern, color_pairing, slow_blink,
  Manager, PowerCall,
}
use esp32_sensor_firmware_pl.Power.Battery.{update_battery_status}
use esp32_sensor_firmware_pl.Power.Machine.{
  same_state, show, transition_to, get_sleep_prep_remaining, should_force_sleep, request_sleep,
  check_idle_timeout, get_time_in_state,
}
use esp32_sensor_firmware_pl.Power.Sleep.{can_safely_enter_sleep, enter_deep_sleep}
use esp32_sensor_firmware_pl.Power.Control.{
  update, update_state, while_preparing, while_active, refresh_led,
}
use esp32_sensor_firmware_pl.Power.Guards.{
  sleep_calls, wake_interval, last_call, transition_to-quiet, update_battery_status-frame,
  enter_deep_sleep_lem, sleep_calls-show, sleep_calls-snoc,
}

if_not-true : {A : Type 0} (b : Bool) (x y : A) → b ≡ true → (if not b then x else y) ≡ y
if_not-true b x y h = ground arith

if_not-false : {A : Type 0} (b : Bool) (x y : A) → b ≡ false → (if not b then x else y) ≡ x
if_not-false b x y h = ground arith

-- The branches of the preparation, by the three tests.
two_ways :
    {F : Type 0} (elapsed forces safe : Bool) (goes defers waits : Manager F) {a s : List Effect}
    → sleep_calls goes.effects ≡ a
    → sleep_calls defers.effects ≡ s
    → sleep_calls waits.effects ≡ s
    → sleep_calls
        (if elapsed || forces then (if safe || forces then goes else defers) else waits).effects
      ≡ (if forces || (elapsed && safe) then a else s)
two_ways true true true g d w p q r = p
two_ways true true false g d w p q r = p
two_ways true false true g d w p q r = p
two_ways true false false g d w p q r = q
two_ways false true true g d w p q r = p
two_ways false true false g d w p q r = p
two_ways false false true g d w p q r = r
two_ways false false false g d w p q r = r

module _ {F : Type 0} (ops : Floats F) (cfg : PowerConfig) where
  pub show-frame :
      (m : Manager F) (call : PowerCall)
      → let m' = show m call led_update in
        (get_sleep_prep_remaining cfg m' call.millis ≡ get_sleep_prep_remaining cfg m call.millis)
        × (should_force_sleep cfg m' call ≡ should_force_sleep cfg m call)
        × (can_safely_enter_sleep m' call ≡ can_safely_enter_sleep m call)
  unfolding get_sleep_prep_remaining should_force_sleep get_time_in_state can_safely_enter_sleep
  show-frame m call = ground arith

  pub request_sleep-quiet :
      (m : Manager F) (call : PowerCall)
      → sleep_calls (request_sleep ops m call).effects ≡ sleep_calls m.effects
  unfolding request_sleep
  request_sleep-quiet m call = ground (arith, transition_to-quiet ops cfg m sleep_prep call)

  while_active-quiet :
      (m : Manager F) (call : PowerCall)
      → sleep_calls (while_active ops cfg m call).effects ≡ sleep_calls m.effects
  unfolding while_active
  while_active-quiet m call = ground (arith, request_sleep-quiet m call)

  pub check_idle_timeout-quiet :
      (m : Manager F) (call : PowerCall)
      → sleep_calls (check_idle_timeout ops cfg m call).effects ≡ sleep_calls m.effects
  unfolding check_idle_timeout
  check_idle_timeout-quiet m call = ground (arith, request_sleep-quiet m call)

  refresh_led-quiet :
      (m : Manager F) (call : PowerCall)
      → sleep_calls (refresh_led ops cfg m call).effects ≡ sleep_calls m.effects
  unfolding refresh_led
  refresh_led-quiet m call =
      let pattern = set_pattern color_pairing slow_blink in
      ground (
        arith,
        sleep_calls-snoc m.effects pattern refl,
        sleep_calls-snoc m.effects (set_color color_pairing) refl,
        sleep_calls-snoc m.effects led_update refl,
        sleep_calls-snoc (m.effects ++ (pattern ∷ [])) led_update refl,
        sleep_calls-snoc (m.effects ++ (set_color color_pairing ∷ [])) led_update refl,
      )

  abbrev pub ready_to_sleep : Manager F → PowerCall → Bool
  ready_to_sleep m call =
      should_force_sleep cfg m call
      || (get_sleep_prep_remaining cfg m call.millis == 0 && can_safely_enter_sleep m call)

  -- Whether an `update` makes an attempt to sleep.
  abbrev pub attempts : Manager F → PowerCall → Bool
  attempts m call = m.initialized && same_state m.current sleep_prep && ready_to_sleep m call

  -- The manager once the battery has been looked at, if that is due.
  unfoldable pub checked : Manager F → PowerCall → Manager F
  checked m call =
      if leb cfg.battery_check_interval_ms (sub_u32 call.millis m.last_battery_check_time)
      then update_battery_status ops cfg m call
      else m

  pub checked-frame :
      (m : Manager F) (call : PowerCall)
      → ((checked m call).effects ≡ m.effects)
        × ((checked m call).current ≡ m.current)
        × (ready_to_sleep (checked m call) call ≡ ready_to_sleep m call)
  unfolding checked
  checked-frame m call =
      let f = update_battery_status-frame ops cfg m call in
      elim (Bool-cases
        (leb cfg.battery_check_interval_ms (sub_u32 call.millis m.last_battery_check_time))) [
          | inl due ↦ rw due (f.0, f.1, rw (f.4, f.5, f.6) refl)
          | inr early ↦ rw early (refl, refl, refl)
        ]

  while_preparing_lem :
      (m : Manager F) (call : PowerCall)
      → sleep_calls (while_preparing ops cfg m call).effects ≡ (
          if ready_to_sleep m call
          then sleep_calls m.effects ++ enable_timer (wake_interval cfg call) ∷ last_call call ∷ []
          else sleep_calls m.effects)
  unfolding while_preparing
  while_preparing_lem m call =
      let shown = show m call led_update in
      let deferred = record shown { sleep_deferred = true; sleep_prep_start_time = call.millis } in
      let frame = show-frame m call in
      let led = sleep_calls-show m call led_update refl in
      rw (frame.0, frame.1, frame.2)
        (two_ways (get_sleep_prep_remaining cfg m call.millis == 0) (should_force_sleep cfg m call)
          (can_safely_enter_sleep m call)
          (enter_deep_sleep ops cfg (transition_to ops shown deep_sleep call) call) deferred shown
          (enter_deep_sleep_lem ops cfg (transition_to ops shown deep_sleep call) call
            ∙ ap (λ es. es ++ enable_timer (wake_interval cfg call) ∷ last_call call ∷ [])
                ((transition_to-quiet ops cfg shown deep_sleep call).0 ∙ led))
          led led)

  update_state_lem :
      (s : PowerState) (m : Manager F) (call : PowerCall)
      → sleep_calls (update_state ops cfg s m call).effects ≡ (
          if same_state s sleep_prep && ready_to_sleep m call
          then sleep_calls m.effects ++ enable_timer (wake_interval cfg call) ∷ last_call call ∷ []
          else sleep_calls m.effects)
  unfolding update_state
  update_state_lem wake_mode m call =
      check_idle_timeout-quiet (refresh_led ops cfg m call) call ∙ refresh_led-quiet m call
  update_state_lem active m call = while_active-quiet m call
  update_state_lem sleep_prep m call = while_preparing_lem m call
  update_state_lem booting m call = refl
  update_state_lem detection_active m call = refl
  update_state_lem deep_sleep m call = refl

  pub update_sleeps :
      (m : Manager F) (call : PowerCall)
      → sleep_calls (update ops cfg m call).effects ≡ (
          if attempts m call
          then sleep_calls m.effects ++ enable_timer (wake_interval cfg call) ∷ last_call call ∷ []
          else sleep_calls m.effects)
  unfolding update checked
  update_sleeps m call =
      let c = checked m call in
      let frame = checked-frame m call in
      let calls = enable_timer (wake_interval cfg call) ∷ last_call call ∷ [] in
      elim (Bool-cases m.initialized) [
        | inl on ↦
            ap (λ x. sleep_calls x.effects) (if_not-true m.initialized m _ on)
            ∙ update_state_lem c.current c call
            ∙ ap₂ (λ b l. if b then l ++ calls else l)
                (ap₂ (λ st b. same_state st sleep_prep && b) frame.1 frame.2
                  ∙ sym
                      (ap (λ i. i && same_state m.current sleep_prep && ready_to_sleep m call) on))
                (ap sleep_calls frame.0)
        | inr off ↦
            ap (λ x. sleep_calls x.effects) (if_not-false m.initialized m _ off)
            ∙ sym (
                ap
                  (λ i.
                    if i && same_state m.current sleep_prep && ready_to_sleep m call
                    then sleep_calls m.effects ++ calls
                    else sleep_calls m.effects)
                  off)
      ]
