-- ===== src/Recovery/Crashes.antt =====
-- `performCrashRecoveryCheck` (src/main.cpp), the crash counter.
use esp32_sensor_firmware_pl.Prelude.{
  ℕ, ◌+◌, ◌*◌, ◌<◌, ◌≡◌, Bool, true, false, not, ◌&&◌, List, [], ◌∷◌, leb, u32, if◌then◌else◌,
  arith,
}
use esp32_sensor_firmware_pl.Platform.{
  ResetReason, power_on, brownout, panic, int_wdt, task_wdt, other_wdt,
}

abbrev pub crash_recovery_threshold : ℕ
crash_recovery_threshold = 3

abbrev pub is_cold : ResetReason → Bool
is_cold power_on = true
is_cold brownout = true
is_cold _ = false

abbrev pub was_crash_reset : ResetReason → Bool
was_crash_reset panic = true
was_crash_reset int_wdt = true
was_crash_reset task_wdt = true
was_crash_reset other_wdt = true
was_crash_reset _ = false

-- The crash counter, and whether NVS is erased. `pending_verify`: the running image is a new one.
unfoldable pub crash_check : ℕ → (pending_verify : Bool) → ResetReason → (erases : Bool) → ℕ × Bool
crash_check crash_counter pending_verify reason erases =
    let counted = if was_crash_reset reason then u32 (crash_counter + 1) else crash_counter in
    if pending_verify
    then (crash_counter, false)
    else if is_cold reason
    then (0, false)
    else if leb crash_recovery_threshold counted
    then (if erases then (0, true) else (counted, false))
    else (counted, false)

-- Resets of a confirmed image, on a flash that can be erased: the counter, and the number of erasures.
unfoldable pub resets : ℕ → List ResetReason → ℕ × ℕ
unfolding crash_check
resets crash_counter [] = (crash_counter, 0)
resets crash_counter (reason ∷ reasons) =
    let (counter, erased) = crash_check crash_counter false reason true in
    let (last, n) = resets counter reasons in (last, (if erased then 1 else 0) + n)

abbrev pub crashes : List ResetReason → ℕ
crashes [] = 0
crashes (reason ∷ reasons) = (if was_crash_reset reason then 1 else 0) + crashes reasons

abbrev pub all_warm : List ResetReason → Bool
all_warm [] = true
all_warm (reason ∷ reasons) = not (is_cold reason) && all_warm reasons

warm_reset :
    (c : ℕ) (reason : ResetReason)
    → c < 3
    → is_cold reason ≡ false
    → let (c', erased) = crash_check c false reason true in
      (c' < 3)
      × (c' + 3 * (if erased then 1 else 0) ≡ c + (if was_crash_reset reason then 1 else 0))
unfolding crash_check
warm_reset c reason h warm = ground arith

-- Over resets with no cold boot among them, from a counter below 3, every third crash erases NVS: the
-- counter stays below 3, and with three for each erasure it has counted every crash once.
pub resets_lem :
    (c : ℕ) (reasons : List ResetReason)
    → c < 3
    → all_warm reasons ≡ true
    → let (c', n) = resets c reasons in (c' < 3) × (c' + 3 * n ≡ c + crashes reasons)
unfolding resets
resets_lem c [] h warm = (h, omega arith)
resets_lem c (reason ∷ reasons) h warm =
    let one = warm_reset c reason h (ground arith) in
    let rest = resets_lem (crash_check c false reason true).0 reasons one.0 (ground arith) in
    (rest.0, omega (arith, one.1, rest.1))
