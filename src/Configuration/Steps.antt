-- ===== src/Configuration/Steps.antt =====
-- Any sequence of calls of `ConfigService`, from the boot on.
use esp32_sensor_firmware_pl.Prelude.{
  if◌then◌else◌, not, ◌∙◌, ap, Bool-cases, ◌<◌, ℕ, ◌≤◌, ◌≡◌, refl, ◌⊎◌, inl, inr, Bool, true, false,
  [], Option, none, some, ◌==◌, arith,
}
use esp32_sensor_firmware_pl.Configuration.State.{
  UserConfig, ConfigService, user_config_size, calculate_config_crc, current_version,
  init_user_config_defaults, seal, new,
}
use esp32_sensor_firmware_pl.Configuration.Store.{
  WriteCall, ReadCall, InitCall, write_to_nvs, apply_sensitivity_to_hal, to_version_2, to_version_3,
  take_over, read_blob, read_from_nvs, migrate, forward_chain, init, load_or_default,
}
use esp32_sensor_firmware_pl.Configuration.Changes.{
  SetCall, set_sensitivity, set_led_brightness, update_last_known_epoch, timer_expires,
  worker_round, force_flush, factory_reset,
}
use esp32_sensor_firmware_pl.Configuration.Consistent.{
  kept, kept-saved, last_applied-append, IsConsistent, calculate_config_crc-seal,
  set_sensitivity-IsConsistent, set_led_brightness-IsConsistent,
  update_last_known_epoch-IsConsistent, timer_expires-IsConsistent, worker_round-IsConsistent,
  force_flush-IsConsistent, factory_reset-IsConsistent,
}

-- One call, whatever it meets. A factory reset counts where it succeeds.
pub data Step : ConfigService → ConfigService → Type 0 where
  sensitivity :
      (s : ConfigService) (call : SetCall) (value : ℕ) → Step s (set_sensitivity s call value)
  brightness :
      (s : ConfigService) (call : SetCall) (value : ℕ) → Step s (set_led_brightness s call value)
  epoch :
      (s : ConfigService) (call : SetCall) (value : ℕ)
      → Step s (update_last_known_epoch s call value)
  timer : (s : ConfigService) → Step s (timer_expires s)
  worker :
      (s : ConfigService) (shutdown : Bool) (call : WriteCall)
      → Step s (worker_round s shutdown call)
  flush :
      (s : ConfigService) (accepts : Bool) (call : WriteCall)
      → Step s (force_flush s accepts call).0
  reset :
      (s : ConfigService) (call : SetCall) (random : ℕ) (write : WriteCall)
      → (factory_reset s call random write).1 ≡ true
      → Step s (factory_reset s call random write).0
  boot_again : (s : ConfigService) (call : InitCall) → s.initialized ≡ true → Step s (init s call).0

pub data Reach (s : ConfigService) : ConfigService → Type 0 where
  here : Reach s s
  next : {t u : ConfigService} → Reach s t → Step t u → Reach s u

init_again : (s : ConfigService) (call : InitCall) → s.initialized ≡ true → (init s call).0 ≡ s
unfolding init
init_again s call h = ground arith

Step-IsConsistent :
    (start : Option UserConfig) {s t : ConfigService}
    → Step s t
    → IsConsistent start s
    → IsConsistent start t
Step-IsConsistent start (sensitivity s call value) v =
    set_sensitivity-IsConsistent start s call value v
Step-IsConsistent start (brightness s call value) v =
    set_led_brightness-IsConsistent start s call value v
Step-IsConsistent start (epoch s call value) v =
    update_last_known_epoch-IsConsistent start s call value v
Step-IsConsistent start (timer s) v = timer_expires-IsConsistent start s v
Step-IsConsistent start (worker s shutdown call) v =
    worker_round-IsConsistent start s shutdown call v
Step-IsConsistent start (flush s accepts call) v = force_flush-IsConsistent start s accepts call v
Step-IsConsistent start (reset s call random write ok) v =
    factory_reset-IsConsistent start s call random write v ok
Step-IsConsistent start (boot_again s call h) v = rw (init_again s call h) v

Reach-keeps :
    (start : Option UserConfig) {s t : ConfigService}
    → Reach s t
    → IsConsistent start s
    → IsConsistent start t
Reach-keeps start here v = v
Reach-keeps start (next r st) v = Step-IsConsistent start st (Reach-keeps start r v)

-- The blob as NVS holds it, where it could be read.
abbrev pub blob_of : Option (UserConfig × ℕ) → Option UserConfig
blob_of none = none
blob_of (some (c, size)) = some c

pub record Succeeds (call : WriteCall) : Type 0 where
  pub mutex_taken : call.mutex_taken ≡ true
  pub opens : call.opens ≡ true
  pub sets : call.sets ≡ true
  pub commits : call.commits ≡ true

-- The driver, the timer and the task are there, and a write that the boot needs succeeds.
pub record Boots (call : InitCall) : Type 0 where
  pub sensor_hal : call.sensor_hal ≡ true
  pub timer_created : call.timer_created ≡ true
  pub task_created : call.task_created ≡ true
  pub migrates : Succeeds call.read.write
  pub writes : Succeeds call.write

-- No config of an older version has a sensitivity above 100.
abbrev pub IsSane : Option (UserConfig × ℕ) → Type 0
IsSane none = Unit {0}
IsSane (some (c, size)) = (c.version ≡ current_version) ⊎ (c.sensitivity ≤ 100)

-- What a config must be for `init` to end consistent, before the sensitivity is applied.
record IsLoaded (start : Option UserConfig) (s : ConfigService) : Type 0 where
  has_sensor_hal : s.has_sensor_hal ≡ true
  version : s.config.version ≡ current_version
  in_range : s.config.sensitivity ≤ 100
  stored : (kept start s.nvs ≡ some s.config) × (s.config.crc32 ≡ calculate_config_crc s.config)

module _ (s : ConfigService) (call : InitCall) (up : s.has_sensor_hal ≡ true) (fresh : s.nvs ≡ [])
    (b : Boots call) where
  migrated :
      (c : UserConfig)
      → c.sensitivity ≤ 100
      → (migrate s call.read c).1 ≡ true
      → IsLoaded (some c) (migrate s call.read c).0
  unfolding migrate write_to_nvs seal
  migrated c h ok =
      let new = to_version_3 (to_version_2 call.read.random c) in
      let sealed = calculate_config_crc-seal (seal new) in
      ground (arith, b.migrates, kept-saved (some c) s.nvs (seal (seal new)), sealed, h, ok)

  taken_over :
      (c : UserConfig)
      → (c.version ≡ current_version) ⊎ (c.sensitivity ≤ 100)
      → (take_over s call.read c).1 ≡ true
      → IsLoaded (some c) (take_over s call.read c).0
  unfolding take_over
  taken_over c h ok = ground (arith, migrated c, fresh)

  loaded :
      (blob : Option (UserConfig × ℕ))
      → IsSane blob
      → (read_blob s call.read blob).1 ≡ true
      → IsLoaded (blob_of blob) (read_blob s call.read blob).0
  loaded none h ok = cc
  loaded (some (c, size)) h ok = ground (arith, taken_over c)

  defaulted :
      (start : Option UserConfig) (s' : ConfigService)
      → s'.has_sensor_hal ≡ true
      → IsLoaded start
          (write_to_nvs
            (record s' { config = seal (init_user_config_defaults call.random) })
            call.write).0
  unfolding write_to_nvs init_user_config_defaults seal
  defaulted start s' h =
      let d = init_user_config_defaults call.random in
      let sealed = calculate_config_crc-seal (seal d) in
      ground (arith, b.writes, kept-saved start s'.nvs (seal (seal d)), sealed)

not_found :
    (s : ConfigService) (call : ReadCall) (blob : Option (UserConfig × ℕ))
    → (read_blob s call blob).1 ≡ false
    → (read_blob s call blob).0 ≡ s
unfolding take_over migrate
not_found s call none h = refl
not_found s call (some (c, size)) h = ground arith

load_or_default-IsLoaded :
    (s : ConfigService) (call : InitCall)
    → s.has_sensor_hal ≡ true
    → s.nvs ≡ []
    → Boots call
    → IsSane call.read.blob
    → IsLoaded (blob_of call.read.blob) (load_or_default s call)
unfolding load_or_default read_from_nvs
load_or_default-IsLoaded s call up fresh b sane =
    elim (Bool-cases (read_blob s call.read call.read.blob).1) [
      | inl found ↦ rw found (forwarded (loaded s call up fresh b call.read.blob sane found))
      | inr missing ↦ rw missing (
          defaulted s call up fresh b (blob_of call.read.blob)
            (read_blob s call.read call.read.blob).0
            (ap (λ (t : ConfigService). t.has_sensor_hal)
                (not_found s call.read call.read.blob missing)
              ∙ up))
    ]
  where
    forwarded :
        {start : Option UserConfig} {t : ConfigService}
        → IsLoaded start t
        → IsLoaded start (forward_chain t)
    forwarded v = ground arith

init-IsConsistent :
    (random : ℕ) (mutex : Bool) (call : InitCall)
    → Boots call
    → IsSane call.read.blob
    → IsConsistent (blob_of call.read.blob) (init (new random mutex) call).0
unfolding init new apply_sensitivity_to_hal
init-IsConsistent random mutex call b sane =
    let s = record (new random mutex) {
      has_sensor_hal = true;
      has_commit_timer = call.timer_created;
      worker_running = call.task_created;
      has_worker_task = call.task_created;
    } in
    let l = load_or_default-IsLoaded s call refl refl b sane in
    ground (
      arith,
      b,
      l,
      last_applied-append none (load_or_default s call).hal
          (load_or_default s call).config.sensitivity,
    )

-- The settings are consistent from a boot on which the driver, the timer, the task and the writes
-- that it needs are there, whatever calls follow (a factory reset that fails excepted): the version
-- is the current one, the sensitivity at most 100 and the one that the sensor works with, and
-- whenever nothing waits to be written, NVS holds the config under a checksum that fits. A config of
-- an older version must have a sensitivity of at most 100 already.
pub Reach-IsConsistent :
    (random : ℕ) (mutex : Bool) (call : InitCall) {t : ConfigService}
    → Boots call
    → IsSane call.read.blob
    → Reach (init (new random mutex) call).0 t
    → IsConsistent (blob_of call.read.blob) t
Reach-IsConsistent random mutex call b sane r =
    Reach-keeps (blob_of call.read.blob) r (init-IsConsistent random mutex call b sane)

-- A config with a sensitivity above 100, under a checksum that fits, is refused where it is of the
-- current version; where it is of version 1 or 2 the read succeeds and takes the sensitivity over.
pub read_from_nvs-range :
    (s : ConfigService) (call : ReadCall) (c : UserConfig)
    → call.blob ≡ some (c, user_config_size)
    → c.crc32 ≡ calculate_config_crc c
    → 100 < c.sensitivity
    → (c.version ≡ 1) ⊎ ((c.version ≡ 2) ⊎ (c.version ≡ current_version))
    → ((read_from_nvs s call).1 ≡ not (c.version == current_version))
      × ((read_from_nvs s call).0.config.sensitivity
          ≡ (if c.version == current_version then s.config.sensitivity else c.sensitivity))
unfolding read_from_nvs take_over migrate write_to_nvs seal
read_from_nvs-range s call c e f h known = (rw e (ground arith), rw e (ground arith))
