-- ===== src/Configuration/Store.antt =====
-- The NVS side of `ConfigService`: `writeToNvs`, `readFromNvs`, `init`.
use esp32_sensor_firmware_pl.Prelude.{
  ℕ, ◌+◌, ◌++◌, Bool, true, false, not, [], ◌∷◌, Option, none, some, ltb, ◌==◌, u32, if◌then◌else◌,
}
use esp32_sensor_firmware_pl.Configuration.State.{
  UserConfig, user_config_size, current_version, init_user_config_defaults, calculate_config_crc,
  seal, NvsCall, saved, unsure, ConfigService,
}

-- What one `writeToNvs` meets: whether the mutex is taken in time, and whether `nvs_open`,
-- `nvs_set_blob` and `nvs_commit` succeed.
pub record WriteCall : Type 0 where
  pub mutex_taken : Bool
  pub opens : Bool
  pub sets : Bool
  pub commits : Bool

abbrev pub log_nvs : ConfigService → NvsCall → ConfigService
log_nvs s call = record s { nvs = s.nvs ++ (call ∷ []) }

unfoldable pub write_to_nvs : ConfigService → WriteCall → ConfigService × Bool
unfolding seal
write_to_nvs s call =
    let sealed = record s { config = seal s.config } in
    if not call.mutex_taken
    then (s, false)
    else if not call.opens
    then (sealed, false)
    else if not call.sets
    then (sealed, false)
    else if not call.commits
    then (log_nvs sealed (unsure sealed.config), false)
    else (record (log_nvs sealed (saved sealed.config)) { dirty = false }, true)

-- What one `readFromNvs` meets: the blob with the size that `nvs_get_blob` reports, where it is
-- opened and read without an error; the number of `esp_random`; and the write of a migration.
pub record ReadCall : Type 0 where
  pub blob : Option (UserConfig × ℕ)
  pub random : ℕ
  pub write : WriteCall

-- Version 1 becomes version 2 with a signature, version 2 becomes version 3 with an epoch.
abbrev pub to_version_2 : (random : ℕ) → UserConfig → UserConfig
to_version_2 random c =
    if c.version == 1 then record c { version = 2; reserved = 0; signature = random } else c

abbrev pub to_version_3 : UserConfig → UserConfig
to_version_3 c =
    if c.version == 2 then record c { version = current_version; last_known_epoch = 0 } else c

unfoldable pub migrate : ConfigService → ReadCall → UserConfig → ConfigService × Bool
unfolding write_to_nvs seal
migrate s call c =
    let new = to_version_3 (to_version_2 call.random c) in
    if new.version == current_version
    then ((write_to_nvs (record s { config = seal new }) call.write).0, true)
    else (s, false)

-- A blob of the right size.
unfoldable pub take_over : ConfigService → ReadCall → UserConfig → ConfigService × Bool
unfolding migrate calculate_config_crc
take_over s call c =
    if not (calculate_config_crc c == c.crc32)
    then (s, false)
    else if not (c.version == current_version)
    then migrate s call c
    else if ltb 100 c.sensitivity
    then (s, false)
    else (record s { config = c }, true)

abbrev pub read_blob : ConfigService → ReadCall → Option (UserConfig × ℕ) → ConfigService × Bool
read_blob s call none = (s, false)
read_blob s call (some (c, size)) =
    if not (size == user_config_size) then (s, false) else take_over s call c

unfoldable pub read_from_nvs : ConfigService → ReadCall → ConfigService × Bool
unfolding take_over
read_from_nvs s call = read_blob s call call.blob

unfoldable pub apply_sensitivity_to_hal : ConfigService → ConfigService
apply_sensitivity_to_hal s =
    if s.has_sensor_hal then record s { hal = s.hal ++ (s.config.sensitivity ∷ []) } else s

-- What `init` meets: the sensor driver, the timer and the worker task, the read, and the write of
-- the defaults with the number of `esp_random`.
pub record InitCall : Type 0 where
  pub sensor_hal : Bool
  pub timer_created : Bool
  pub task_created : Bool
  pub read : ReadCall
  pub random : ℕ
  pub write : WriteCall

-- The clock is set one second past the last known epoch, if there is one.
abbrev pub forward_chain : ConfigService → ConfigService
forward_chain s =
    if ltb 0 s.config.last_known_epoch
    then record s { clock = s.clock ++ (u32 (s.config.last_known_epoch + 1) ∷ []) }
    else s

unfoldable pub load_or_default : ConfigService → InitCall → ConfigService
unfolding read_from_nvs write_to_nvs init_user_config_defaults seal
load_or_default s call =
    let (loaded, found) = read_from_nvs s call.read in
    if found
    then forward_chain loaded
    else (write_to_nvs (record loaded { config = seal (init_user_config_defaults call.random) })
        call.write).0

unfoldable pub init : ConfigService → InitCall → ConfigService × Bool
unfolding load_or_default apply_sensitivity_to_hal
init s call =
    let with_timer = record s { has_sensor_hal = true; has_commit_timer = call.timer_created } in
    let with_task = record with_timer {
      worker_running = call.task_created;
      has_worker_task = call.task_created;
    } in
    if s.initialized
    then (s, true)
    else if not call.sensor_hal
    then (s, false)
    else if not call.timer_created
    then (with_timer, false)
    else if not call.task_created
    then (with_task, false)
    else (
      record (apply_sensitivity_to_hal (load_or_default with_task call)) {
        initialized = true;
        dirty = false;
      },
      true,
    )
