-- ===== src/Recovery/Boots.antt =====
-- The boot mode in `setup` and the stability window in `loop` (src/main.cpp).
use esp32_sensor_firmware_pl.Prelude.{
  ℕ, ◌+◌, Bool, true, false, ◌&&◌, ◌||◌, leb, ltb, ◌==◌, u32, if◌then◌else◌,
}
use esp32_sensor_firmware_pl.Platform.{ResetReason}
use esp32_sensor_firmware_pl.Recovery.{
  Tracker, should_increment, increment_if_eligible, reset_counter,
}

-- The `BootConfig` constants, which are not in the repository.
pub record BootConfig : Type 0 where
  pub rtc_magic_key : ℕ
  pub mode_normal : ℕ
  pub mode_flasher : ℕ
  pub recovery_trigger_count : ℕ
  pub stability_window_ms : ℕ

-- The three variables that RTC memory keeps over a reset.
pub record RtcFlags : Type 0 where
  pub rtc_magic : ℕ
  pub boot_mode : ℕ
  pub stability_counter : ℕ

-- Whether the writes of the counter succeed: of the count, and of the two resets.
pub record BootCall : Type 0 where
  pub reason : ResetReason
  pub count_ok : Bool
  pub trigger_reset_ok : Bool
  pub entry_reset_ok : Bool

module _ (cfg : BootConfig) where
  -- RTC memory that does not carry the magic number starts afresh, from the tracker's count.
  unfoldable pub checked_flags : RtcFlags → Tracker → RtcFlags
  checked_flags flags t = if flags.rtc_magic == cfg.rtc_magic_key then flags else record {
    rtc_magic = cfg.rtc_magic_key;
    boot_mode = cfg.mode_normal;
    stability_counter = if t.available then t.counter else 0;
  }

  unfoldable pub count_boot : RtcFlags → Tracker → BootCall → RtcFlags × Tracker
  unfolding increment_if_eligible
  count_boot flags t call =
      if should_increment call.reason
      then (if t.available
          then (let (t', count) = increment_if_eligible t call.reason call.count_ok in
              (record flags { stability_counter = count }, t'))
          else (record flags { stability_counter = u32 (flags.stability_counter + 1) }, t))
      else (flags, t)

  -- From `enterFlasher` on: the flags and the tracker, and whether `FlasherService::run` is called.
  unfoldable pub enter_flasher : RtcFlags → Tracker → BootCall → (RtcFlags × Tracker) × Bool
  unfolding reset_counter
  enter_flasher counted t1 call =
      let requested = counted.boot_mode == cfg.mode_flasher in
      let normal = if requested then record counted { boot_mode = cfg.mode_normal } else counted in
      let triggered = leb cfg.recovery_trigger_count normal.stability_counter in
      let quiet = if triggered then record normal { stability_counter = 0 } else normal in
      let t2 = if triggered then reset_counter t1 call.trigger_reset_ok else t1 in
      if requested || triggered
      then ((quiet, reset_counter t2 call.entry_reset_ok), true)
      else ((quiet, t2), false)

  unfoldable pub choose_mode : RtcFlags → Tracker → BootCall → (RtcFlags × Tracker) × Bool
  unfolding checked_flags count_boot enter_flasher
  choose_mode flags t call =
      let (counted, t1) = count_boot (checked_flags flags t) t call in enter_flasher counted t1 call

  -- The stability check at the top of `loop`.
  unfoldable pub stabilize : RtcFlags → Tracker → (now : ℕ) → (reset_ok : Bool) → RtcFlags × Tracker
  unfolding reset_counter
  stabilize flags t now reset_ok =
      if ltb 0 flags.stability_counter && ltb cfg.stability_window_ms now
      then (record flags { stability_counter = 0 }, reset_counter t reset_ok)
      else (flags, t)
