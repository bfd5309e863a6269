-- ===== src/History/Scan.antt =====
-- The loop that every reader of the ring runs:
--   `while (current != head && guard) { ...; current = (current + 1) % BUFFER_SIZE; }`
-- `visit` is the body, and tells whether it ends in `break`. The fuel counts tests of the loop's
-- condition; `none` means that it ran out, as it does where the loop of the source never ends.
use esp32_sensor_firmware_pl.Prelude.{
  ℕ, zero, suc, ◌+◌, ◌%◌, Bool, ◌==◌, ◌&&◌, Option, none, some, if◌then◌else◌, not,
}

module _ (size : ℕ) {S : Type 0} (guard : S → Bool) (visit : ℕ → S → S × Bool) (head : ℕ) where
  unfoldable pub scan : ℕ → ℕ → S → Option S
  scan zero current s = none
  scan (suc fuel) current s =
      let (s', stop) = visit current s in
      let rest = scan fuel ((current + 1) % size) s' in
      if not (current == head) && guard s then (if stop then some s' else rest) else some s

  -- What the loop does when `n` cells lie before `head`.
  unfoldable pub walk : ℕ → ℕ → S → S
  walk zero current s = s
  walk (suc n) current s =
      let (s', stop) = visit current s in
      let rest = walk n ((current + 1) % size) s' in
      if guard s then (if stop then s' else rest) else s
