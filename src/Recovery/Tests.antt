-- ===== src/Recovery/Tests.antt =====
-- The theorems on the boot counter at an NVS that keeps what was committed last.
use esp32_sensor_firmware_pl.Prelude.{
  ℕ, ◌<◌, ◌≡◌, ◌≢◌, refl, true, ◌||◌, leb, List, [], ◌∷◌, ◌++◌, if◌then◌else◌, arith,
}
use esp32_sensor_firmware_pl.Platform.{ResetReason, power_on, software, panic, int_wdt}
use esp32_sensor_firmware_pl.Recovery.{
  NvsCall, set_counter, commit, ReadResult, found, not_found, Tracker,
}
use esp32_sensor_firmware_pl.Recovery.Boots.{
  BootConfig, RtcFlags, BootCall, choose_mode, count_boot, checked_flags,
}
use esp32_sensor_firmware_pl.Recovery.Cycles.{
  ReadsBack, value_of, power_cycle, power_cycles, power_cycles_lem, choose_mode_lem,
}

abbrev boot_cfg : BootConfig
boot_cfg = record {
  rtc_magic_key = 99;
  mode_normal = 0;
  mode_flasher = 1;
  recovery_trigger_count = 3;
  stability_window_ms = 10000;
}

abbrev lost_flags : RtcFlags
lost_flags = record { rtc_magic = 12345; boot_mode = 1; stability_counter = 40 }

abbrev asking_flags : RtcFlags
asking_flags = record { rtc_magic = 99; boot_mode = 1; stability_counter = 0 }

abbrev tracker : Tracker
tracker = record { initialized = true; available = true; counter = 1; calls = [] }

abbrev boot_call : BootCall
boot_call = record {
  reason = power_on;
  count_ok = true;
  trigger_reset_ok = true;
  entry_reset_ok = true;
}

-- An NVS as what it answers and what is set but not committed; later calls win.
abbrev Flash : Type 0
Flash = ReadResult × ReadResult

abbrev run_call : Flash → NvsCall → Flash
run_call (kept, staged) (set_counter n) = (kept, found n)
run_call (kept, staged) commit = (staged, staged)

abbrev run_calls : Flash → List NvsCall → Flash
run_calls st [] = st
run_calls st (c ∷ cs) = run_calls (run_call st c) cs

abbrev read_flash : Flash → ReadResult
read_flash st = st.0

last_committed :
    (st : Flash) (cs : List NvsCall) (n : ℕ)
    → read_flash (run_calls st (cs ++ set_counter n ∷ commit ∷ [])) ≡ found n
last_committed st [] n = refl
last_committed st (c ∷ cs) n = last_committed (run_call st c) cs n

flash_laws : ReadsBack read_flash run_calls
flash_laws = record { last_value = last_committed; no_call = λ st. refl }

abbrev empty_flash : Flash
empty_flash = (not_found, not_found)

power_cycles_lem_example :
    (value_of (read_flash (power_cycles boot_cfg lost_flags read_flash run_calls 2 empty_flash))
      ≡ 2)
    × ((power_cycle boot_cfg lost_flags read_flash run_calls
          (power_cycles boot_cfg lost_flags read_flash run_calls 2 empty_flash)).1
        ≡ true)
power_cycles_lem_example =
    power_cycles_lem boot_cfg lost_flags read_flash run_calls flash_laws (omega arith) (omega arith)
      (omega arith) empty_flash 2 (ground arith) refl (omega arith)

choose_mode_lem_example :
    let ((flags', t'), enters) = choose_mode boot_cfg asking_flags tracker boot_call in
    let (counted, t1) =
      count_boot boot_cfg (checked_flags boot_cfg asking_flags tracker) tracker boot_call in
    let seen = counted.stability_counter in
    (enters ≡ (true || leb 3 seen))
    × (flags'.rtc_magic ≡ 99)
    × (flags'.boot_mode ≢ 1)
    × ((if enters then t'.counter else 0) ≡ 0)
    × (flags'.stability_counter < 3)
choose_mode_lem_example =
    choose_mode_lem boot_cfg asking_flags tracker boot_call (omega arith) (omega arith)

abbrev crashing : List ResetReason
crashing = panic ∷ int_wdt ∷ software ∷ panic ∷ panic ∷ []
