-- ===== src/Recovery/Cycles.antt =====
-- Turning the device off and on again, on an NVS that reads back what was committed last.
use esp32_sensor_firmware_pl.Prelude.{
  Bool-cases, leb, ◌||◌, ◌&&◌, ℕ, zero, suc, ◌<◌, ◌^◌, ◌≡◌, ◌≢◌, refl, ap, ◌∙◌, ◌++◌, Bool, true,
  List, [], ◌∷◌, if◌then◌else◌, arith, ◌==◌, inl, inr, Bool-cases,
}
use esp32_sensor_firmware_pl.Platform.{power_on}
use esp32_sensor_firmware_pl.Recovery.{
  NvsCall, set_counter, commit, Tracker, new, flash_ok, ReadResult, found, not_found, read_failed,
  init, increment_if_eligible, reset_counter, persist_counter,
}
use esp32_sensor_firmware_pl.Recovery.Boots.{
  enter_flasher, BootConfig, RtcFlags, BootCall, checked_flags, count_boot, choose_mode,
}

-- The counter that a read answers with; without the key it is 0.
abbrev pub value_of : ReadResult → ℕ
value_of (found n) = n
value_of _ = 0

abbrev all_ok : BootCall
all_ok = record {
  reason = power_on;
  count_ok = true;
  trigger_reset_ok = true;
  entry_reset_ok = true;
}

zero-reset_counter : (t : Tracker) (ok : Bool) → (reset_counter t ok).counter ≡ 0
unfolding reset_counter persist_counter
zero-reset_counter t ok = ground arith

enter_flasher_lem :
    (cfg : BootConfig) (flags : RtcFlags) (t : Tracker) (call : BootCall)
    → cfg.mode_normal ≢ cfg.mode_flasher
    → 0 < cfg.recovery_trigger_count
    → let ((flags', t'), enters) = enter_flasher cfg flags t call in
      (enters ≡ (
        flags.boot_mode == cfg.mode_flasher
        || leb cfg.recovery_trigger_count flags.stability_counter))
      × (flags'.rtc_magic ≡ flags.rtc_magic)
      × (flags'.boot_mode ≢ cfg.mode_flasher)
      × ((if enters then t'.counter else 0) ≡ 0)
      × (flags'.stability_counter < cfg.recovery_trigger_count)
unfolding enter_flasher
enter_flasher_lem cfg flags t call modes positive = ground (
  arith,
  zero-reset_counter t call.entry_reset_ok,
  zero-reset_counter (reset_counter t call.trigger_reset_ok) call.entry_reset_ok,
)

mode-checked_flags :
    (cfg : BootConfig) (flags : RtcFlags) (t : Tracker)
    → cfg.mode_normal ≢ cfg.mode_flasher
    → ((checked_flags cfg flags t).rtc_magic ≡ cfg.rtc_magic_key)
      × (((checked_flags cfg flags t).boot_mode == cfg.mode_flasher)
          ≡ (flags.rtc_magic == cfg.rtc_magic_key && flags.boot_mode == cfg.mode_flasher))
unfolding checked_flags
mode-checked_flags cfg flags t modes = ground arith

mode-count_boot :
    (cfg : BootConfig) (flags : RtcFlags) (t : Tracker) (call : BootCall)
    → ((count_boot cfg flags t call).0.rtc_magic ≡ flags.rtc_magic)
      × ((count_boot cfg flags t call).0.boot_mode ≡ flags.boot_mode)
unfolding count_boot
mode-count_boot cfg flags t call = ground arith

-- `setup` enters the flasher mode exactly when valid RTC memory asks for it or the boots counted,
-- with this one, reach the trigger. Afterwards the RTC memory is valid, does not ask for it and is
-- below the trigger; after an entry the tracker counts from 0. The two modes must differ, and the
-- trigger be positive.
pub choose_mode_lem :
    (cfg : BootConfig) (flags : RtcFlags) (t : Tracker) (call : BootCall)
    → cfg.mode_normal ≢ cfg.mode_flasher
    → 0 < cfg.recovery_trigger_count
    → let ((flags', t'), enters) = choose_mode cfg flags t call in
      let seen = (count_boot cfg (checked_flags cfg flags t) t call).0.stability_counter in
      (enters ≡ (
        (flags.rtc_magic == cfg.rtc_magic_key && flags.boot_mode == cfg.mode_flasher)
        || leb cfg.recovery_trigger_count seen))
      × (flags'.rtc_magic ≡ cfg.rtc_magic_key)
      × (flags'.boot_mode ≢ cfg.mode_flasher)
      × ((if enters then t'.counter else 0) ≡ 0)
      × (flags'.stability_counter < cfg.recovery_trigger_count)
unfolding choose_mode
choose_mode_lem cfg flags t call modes positive =
    let checked = checked_flags cfg flags t in
    let (counted, t1) = count_boot cfg checked t call in
    let e = enter_flasher_lem cfg counted t1 call modes positive in
    let c = mode-count_boot cfg checked t call in
    let m = mode-checked_flags cfg flags t modes in
    (
      e.0
          ∙ ap
              (λ k.
                k == cfg.mode_flasher || leb cfg.recovery_trigger_count counted.stability_counter)
              c.1
          ∙ ap (λ b. b || leb cfg.recovery_trigger_count counted.stability_counter) m.1,
      e.1 ∙ c.0 ∙ m.0,
      e.2,
      e.3,
      e.4,
    )

-- An NVS, with the writing calls of one boot run on it, and what is relied on: the value that is set
-- and committed last is read back, and without a call the same is read again.
pub record ReadsBack {Store : Type 0} (read : Store → ReadResult)
    (run : Store → List NvsCall → Store) : Type 0 where
  pub last_value :
      (st : Store) (calls : List NvsCall) (n : ℕ)
      → read (run st (calls ++ set_counter n ∷ commit ∷ [])) ≡ found n
  pub no_call : (st : Store) → read (run st []) ≡ read st

-- A tracker that has read the count `c`.
abbrev holding : ℕ → Tracker
holding c = record { initialized = true; available = true; counter = c; calls = [] }

abbrev cycle_calls : BootConfig → ℕ → List NvsCall
cycle_calls cfg c =
    if suc c == cfg.recovery_trigger_count
    then (set_counter (suc c) ∷ commit ∷ []) ++ set_counter 0 ∷ commit ∷ []
    else set_counter (suc c) ∷ commit ∷ []

choose_mode-holding :
    (cfg : BootConfig) (flags : RtcFlags) (c : ℕ)
    → flags.rtc_magic ≢ cfg.rtc_magic_key
    → cfg.mode_normal ≢ cfg.mode_flasher
    → c < cfg.recovery_trigger_count
    → cfg.recovery_trigger_count < 2 ^ 32
    → let ((flags', t'), enters) = choose_mode cfg flags (holding c) all_ok in
      (enters ≡ (suc c == cfg.recovery_trigger_count)) × (t'.calls ≡ cycle_calls cfg c)
unfolding choose_mode enter_flasher checked_flags count_boot increment_if_eligible reset_counter
    persist_counter
choose_mode-holding cfg flags c lost modes h small = ground arith

init-holding :
    (answer : ReadResult)
    → answer ≢ read_failed
    → (init new flash_ok true answer).0 ≡ holding (value_of answer)
unfolding init new
init-holding (found n) ok = refl
init-holding not_found ok = refl
init-holding read_failed ok = absurd (ok refl)

module _ (cfg : BootConfig) (flags : RtcFlags) {Store : Type 0} (read : Store → ReadResult)
    (run : Store → List NvsCall → Store) where
  -- The device is turned on, with its RTC memory lost to `flags`, and off before it is stable. With
  -- the store, whether the flasher mode was entered.
  unfoldable pub power_cycle : Store → Store × Bool
  unfolding init new choose_mode
  power_cycle st =
      let ((flags', t'), enters) =
        choose_mode cfg flags (init new flash_ok true (read st)).0 all_ok in
      (run st t'.calls, enters)

  unfoldable pub power_cycles : ℕ → Store → Store
  unfolding power_cycle
  power_cycles zero st = st
  power_cycles (suc n) st = (power_cycle (power_cycles n st)).0

  module _ (laws : ReadsBack read run) (lost : flags.rtc_magic ≢ cfg.rtc_magic_key)
      (modes : cfg.mode_normal ≢ cfg.mode_flasher)
      (small : cfg.recovery_trigger_count < 2 ^ 32) where
    read-cycle_calls :
        (st : Store) (c : ℕ)
        → read (run st (cycle_calls cfg c))
          ≡ found (if suc c == cfg.recovery_trigger_count then 0 else suc c)
    read-cycle_calls st c = elim (Bool-cases (suc c == cfg.recovery_trigger_count)) [
      | inl last ↦ rw last (laws.last_value st (set_counter (suc c) ∷ commit ∷ []) 0)
      | inr early ↦ rw early (laws.last_value st [] (suc c))
    ]

    cycle :
        (st : Store)
        → read st ≢ read_failed
        → value_of (read st) < cfg.recovery_trigger_count
        → let n = suc (value_of (read st)) in
          ((power_cycle st).1 ≡ (n == cfg.recovery_trigger_count))
          × (read (power_cycle st).0 ≡ found (if n == cfg.recovery_trigger_count then 0 else n))
    unfolding power_cycle
    cycle st ok h =
        let c = value_of (read st) in
        let chosen = choose_mode-holding cfg flags c lost modes h small in
        rw (init-holding (read st) ok)
          (chosen.0, ap (λ calls. read (run st calls)) chosen.1 ∙ read-cycle_calls st c)

    counted_cycles :
        (st : Store) (n : ℕ)
        → read st ≢ read_failed
        → value_of (read st) ≡ 0
        → n < cfg.recovery_trigger_count
        → (read (power_cycles n st) ≢ read_failed) × (value_of (read (power_cycles n st)) ≡ n)
    unfolding power_cycles
    counted_cycles st zero ok e h = (ok, e)
    counted_cycles st (suc n) ok e h =
        let before = counted_cycles st n ok e (omega arith) in
        let one = cycle (power_cycles n st) before.0 (omega (arith, before.1)) in
        ground (arith, one.1, before.1)

    -- From a count of 0, on an NVS that keeps what is committed, and with the RTC memory lost each
    -- time: the device that is turned on and off enters the flasher mode at exactly the
    -- `RECOVERY_TRIGGER_COUNT`-th time, and until then the count is the number of times.
    pub power_cycles_lem :
        (st : Store) (n : ℕ)
        → read st ≢ read_failed
        → value_of (read st) ≡ 0
        → n < cfg.recovery_trigger_count
        → (value_of (read (power_cycles n st)) ≡ n)
          × ((power_cycle (power_cycles n st)).1 ≡ (suc n == cfg.recovery_trigger_count))
    power_cycles_lem st n ok e h =
        let before = counted_cycles st n ok e h in
        (
          before.1,
          (cycle (power_cycles n st) before.0 (omega (arith, before.1))).0
              ∙ ap (λ c. suc c == cfg.recovery_trigger_count) before.1,
        )
