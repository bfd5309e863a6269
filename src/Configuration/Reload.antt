-- ===== src/Configuration/Reload.antt =====
-- What the next boot finds after a change of the settings.
use esp32_sensor_firmware_pl.Prelude.{ℕ, ◌≡◌, ap, ◌∙◌, Bool, true, false, Option, none, some, arith}
use esp32_sensor_firmware_pl.Configuration.State.{
  UserConfig, ConfigService, user_config_size, validate_sensitivity, seal,
  init_user_config_defaults,
}
use esp32_sensor_firmware_pl.Configuration.Store.{
  WriteCall, ReadCall, write_to_nvs, take_over, read_blob, read_from_nvs, apply_sensitivity_to_hal,
}
use esp32_sensor_firmware_pl.Configuration.Changes.{
  SetCall, set_sensitivity, commit_timer_callback, timer_expires, worker_round, force_flush,
  factory_reset,
}
use esp32_sensor_firmware_pl.Configuration.Consistent.{
  kept, IsConsistent, set_sensitivity-IsConsistent, timer_expires-IsConsistent,
  worker_round-IsConsistent,
}
use esp32_sensor_firmware_pl.Configuration.Steps.{Succeeds}

-- NVS hands back the config that it holds.
abbrev pub as_blob : Option UserConfig → Option (UserConfig × ℕ)
as_blob none = none
as_blob (some c) = some (c, user_config_size)

-- A consistent config that does not wait is what a boot reads.
reads_back :
    (start : Option UserConfig) (s : ConfigService)
    → IsConsistent start s
    → s.dirty ≡ false
    → (t : ConfigService) (call : ReadCall)
    → read_blob t call (as_blob (kept start s.nvs)) ≡ (record t { config = s.config }, true)
unfolding take_over
reads_back start s v clean t call = ground (arith, v)

-- The commit timer runs out and the worker has its round.
abbrev pub settle : ConfigService → WriteCall → ConfigService
settle s call = worker_round (timer_expires s) false call

settle-clean :
    (s : ConfigService) (call : WriteCall)
    → s.has_worker_task ≡ true
    → Succeeds call
    → ((settle s call).dirty ≡ false) × ((settle s call).config.sensitivity ≡ s.config.sensitivity)
unfolding worker_round write_to_nvs seal commit_timer_callback
settle-clean s call task ok = ground (arith, ok)

set_sensitivity-takes :
    (s : ConfigService) (call : SetCall) (value : ℕ)
    → call.mutex_taken ≡ true
    → ((set_sensitivity s call value).config.sensitivity ≡ validate_sensitivity value)
      × ((set_sensitivity s call value).has_worker_task ≡ s.has_worker_task)
unfolding set_sensitivity apply_sensitivity_to_hal
set_sensitivity-takes s call value taken = ground arith

-- A sensitivity that is set, at most 100 or cut down to it, is in the config that a boot reads back
-- once the commit timer has run out and the worker has written: the read succeeds, and gives the
-- config of before the restart.
pub set_sensitivity-reload :
    (start : Option UserConfig) (s : ConfigService) (call : SetCall) (value : ℕ) (write : WriteCall)
    (t : ConfigService) (read : ReadCall)
    → IsConsistent start s
    → s.has_worker_task ≡ true
    → call.mutex_taken ≡ true
    → Succeeds write
    → read.blob ≡ as_blob (kept start (settle (set_sensitivity s call value) write).nvs)
    → let s' = settle (set_sensitivity s call value) write in
      (read_from_nvs t read ≡ (record t { config = s'.config }, true))
      × (s'.config.sensitivity ≡ validate_sensitivity value)
unfolding read_from_nvs
set_sensitivity-reload start s call value write t read v task taken ok blob =
    let set = set_sensitivity s call value in
    let takes = set_sensitivity-takes s call value taken in
    let clean = settle-clean set write (takes.1 ∙ task) ok in
    let kept_all =
      worker_round-IsConsistent start (timer_expires set) false write (
        timer_expires-IsConsistent start set (set_sensitivity-IsConsistent start s call value v)) in
    (
      ap (read_blob t read) blob ∙ reads_back start (settle set write) kept_all clean.0 t read,
      clean.1 ∙ takes.0,
    )

-- Where nothing waits to be written, a factory reset that cannot open NVS returns false with the
-- defaults in RAM; the sensor still works with the old sensitivity, NVS is as it was, and a flush
-- that follows writes nothing and reports success.
pub factory_reset-fails :
    (s : ConfigService) (call : SetCall) (random : ℕ) (write : WriteCall) (accepts : Bool)
    (later : WriteCall)
    → s.dirty ≡ false
    → call.mutex_taken ≡ true
    → write.mutex_taken ≡ true
    → write.opens ≡ false
    → let r = factory_reset s call random write in
      (r.1 ≡ false)
      × (r.0.config ≡ seal (seal (init_user_config_defaults random)))
      × (r.0.hal ≡ s.hal)
      × (r.0.nvs ≡ s.nvs)
      × ((force_flush r.0 accepts later).0.nvs ≡ s.nvs)
      × ((force_flush r.0 accepts later).1 ≡ true)
unfolding factory_reset write_to_nvs force_flush
factory_reset-fails s call random write accepts later clean taken locked closed =
    (ground arith, ground arith, ground arith, ground arith, ground arith, ground arith)
