-- ===== src/Configuration/Tests.antt =====
-- The theorems on the settings at a small history.
use esp32_sensor_firmware_pl.Prelude.{◌≡◌, refl, inl, inr, true, false, none, some, arith, ◌∷◌, []}
use esp32_sensor_firmware_pl.Configuration.State.{
  UserConfig, ConfigService, calculate_config_crc, validate_sensitivity, seal,
  init_user_config_defaults, new,
}
use esp32_sensor_firmware_pl.Configuration.Store.{
  apply_sensitivity_to_hal, write_to_nvs, load_or_default, WriteCall, ReadCall, InitCall,
  read_from_nvs, init,
}
use esp32_sensor_firmware_pl.Configuration.Changes.{
  SetCall, set_sensitivity, factory_reset, force_flush, timer_expires,
}
use esp32_sensor_firmware_pl.Configuration.Consistent.{kept, IsConsistent}
use esp32_sensor_firmware_pl.Configuration.Steps.{
  here, next, sensitivity, timer, Succeeds, Boots, Reach-IsConsistent, read_from_nvs-range,
}
use esp32_sensor_firmware_pl.Configuration.Reload.{
  as_blob, settle, set_sensitivity-reload, factory_reset-fails,
}

abbrev good_write : WriteCall
good_write = record { mutex_taken = true; opens = true; sets = true; commits = true }

abbrev good_write-Succeeds : Succeeds good_write
good_write-Succeeds = record { mutex_taken = refl; opens = refl; sets = refl; commits = refl }

abbrev closed_write : WriteCall
closed_write = record { mutex_taken = true; opens = false; sets = true; commits = true }

abbrev free_call : SetCall
free_call = record { mutex_taken = true; timer_accepts = true }

-- The first boot of a device: NVS holds no config.
abbrev first_read : ReadCall
first_read = record { blob = none; random = 7; write = good_write }

abbrev first_boot : InitCall
first_boot = record {
  sensor_hal = true;
  timer_created = true;
  task_created = true;
  read = first_read;
  random = 77;
  write = good_write;
}

first_boot-Boots : Boots first_boot
first_boot-Boots = record {
  sensor_hal = refl;
  timer_created = refl;
  task_created = refl;
  migrates = good_write-Succeeds;
  writes = good_write-Succeeds;
}

abbrev booted : ConfigService
booted = (init (new 5 true) first_boot).0

Reach-IsConsistent_example : IsConsistent none (timer_expires (set_sensitivity booted free_call 80))
Reach-IsConsistent_example = Reach-IsConsistent 5 true first_boot first_boot-Boots tt (
    next (next here (sensitivity booted free_call 80))
      (timer (set_sensitivity booted free_call 80)))

booted-IsConsistent : IsConsistent none booted
booted-IsConsistent = Reach-IsConsistent 5 true first_boot first_boot-Boots tt here

booted_worker : booted.has_worker_task ≡ true
unfolding init new
booted_worker =
    unfold load_or_default read_from_nvs write_to_nvs apply_sensitivity_to_hal
      init_user_config_defaults seal in
    refl

abbrev changed : ConfigService
changed = settle (set_sensitivity booted free_call 200) good_write

abbrev next_read : ReadCall
next_read = record { blob = as_blob (kept none changed.nvs); random = 8; write = good_write }

set_sensitivity-reload_example :
    (read_from_nvs (new 6 true) next_read ≡ (record (new 6 true) { config = changed.config }, true))
    × (changed.config.sensitivity ≡ validate_sensitivity 200)
set_sensitivity-reload_example =
    set_sensitivity-reload none booted free_call 200 good_write (new 6 true) next_read
      booted-IsConsistent booted_worker refl good_write-Succeeds refl

abbrev old_config : UserConfig
old_config = seal (record (init_user_config_defaults 9) { version = 2; sensitivity = 150 })

abbrev old_read : ReadCall
old_read = record { blob = some (old_config, 16); random = 7; write = good_write }

read_from_nvs-range_example :
    ((read_from_nvs (new 5 true) old_read).1 ≡ true)
    × ((read_from_nvs (new 5 true) old_read).0.config.sensitivity ≡ 150)
unfolding seal init_user_config_defaults calculate_config_crc
read_from_nvs-range_example =
    read_from_nvs-range (new 5 true) old_read old_config refl refl (omega arith) (inr (inl refl))

abbrev idle_service : ConfigService
idle_service = record (new 5 true) { hal = 80 ∷ [] }

factory_reset-fails_example :
    let r = factory_reset idle_service free_call 3 closed_write in
    (r.1 ≡ false)
    × (r.0.config ≡ seal (seal (init_user_config_defaults 3)))
    × (r.0.hal ≡ 80 ∷ [])
    × (r.0.nvs ≡ [])
    × ((force_flush r.0 true good_write).0.nvs ≡ [])
    × ((force_flush r.0 true good_write).1 ≡ true)
unfolding new
factory_reset-fails_example =
    factory_reset-fails idle_service free_call 3 closed_write true good_write refl refl refl refl
