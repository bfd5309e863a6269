-- ===== src/Configuration/Consistent.antt =====
-- What holds of the settings between the calls of `ConfigService`.
use esp32_sensor_firmware_pl.Prelude.{
  ℕ, ◌≤◌, ◌++◌, ◌≡◌, refl, ◌⊎◌, Bool, true, false, List, [], ◌∷◌, Option, none, some, arith,
}
use esp32_sensor_firmware_pl.Configuration.State.{
  UserConfig, ConfigService, NvsCall, saved, unsure, calculate_config_crc, current_version,
  init_user_config_defaults, validate_sensitivity, seal,
}
use esp32_sensor_firmware_pl.Configuration.Store.{WriteCall, write_to_nvs, apply_sensitivity_to_hal}
use esp32_sensor_firmware_pl.Configuration.Changes.{
  SetCall, set_sensitivity, set_led_brightness, update_last_known_epoch, commit_timer_callback,
  timer_expires, worker_round, force_flush, factory_reset,
}

-- The config that NVS holds after some writes, if that is certain; `start` is what it held before.
abbrev pub kept : Option UserConfig → List NvsCall → Option UserConfig
kept start [] = start
kept start (saved c ∷ calls) = kept (some c) calls
kept start (unsure c ∷ calls) = kept none calls

abbrev pub last_applied : Option ℕ → List ℕ → Option ℕ
last_applied start [] = start
last_applied start (v ∷ vs) = last_applied (some v) vs

pub kept-saved :
    (start : Option UserConfig) (calls : List NvsCall) (c : UserConfig)
    → kept start (calls ++ (saved c ∷ [])) ≡ some c
kept-saved start [] c = refl
kept-saved start (saved d ∷ calls) c = kept-saved (some d) calls c
kept-saved start (unsure d ∷ calls) c = kept-saved none calls c

pub last_applied-append :
    (start : Option ℕ) (vs : List ℕ) (v : ℕ) → last_applied start (vs ++ (v ∷ [])) ≡ some v
last_applied-append start [] v = refl
last_applied-append start (w ∷ vs) v = last_applied-append (some w) vs v

-- The config is one of the current version and in range; unless it waits to be written, NVS holds
-- it under a checksum that fits; and the sensor works with its sensitivity.
pub record IsConsistent (start : Option UserConfig) (s : ConfigService) : Type 0 where
  pub has_sensor_hal : s.has_sensor_hal ≡ true
  pub version : s.config.version ≡ current_version
  pub in_range : s.config.sensitivity ≤ 100
  pub stored :
      (s.dirty ≡ true)
      ⊎ ((kept start s.nvs ≡ some s.config) × (s.config.crc32 ≡ calculate_config_crc s.config))
  pub applied : last_applied none s.hal ≡ some s.config.sensitivity

pub calculate_config_crc-seal : (c : UserConfig) → (seal c).crc32 ≡ calculate_config_crc (seal c)
unfolding seal calculate_config_crc
calculate_config_crc-seal c = refl

module _ (start : Option UserConfig) where
  -- A write that is done while the config waits to be written.
  write_to_nvs-IsConsistent :
      (s : ConfigService) (call : WriteCall)
      → IsConsistent start s
      → s.dirty ≡ true
      → IsConsistent start (write_to_nvs s call).0
  unfolding write_to_nvs seal
  write_to_nvs-IsConsistent s call v d =
      let c = calculate_config_crc-seal s.config in
      ground (arith, kept-saved start s.nvs (seal s.config), v, c)

  pub set_sensitivity-IsConsistent :
      (s : ConfigService) (call : SetCall) (value : ℕ)
      → IsConsistent start s
      → IsConsistent start (set_sensitivity s call value)
  unfolding set_sensitivity validate_sensitivity apply_sensitivity_to_hal
  set_sensitivity-IsConsistent s call value v =
      ground (arith, last_applied-append none s.hal value, last_applied-append none s.hal 100)

  pub set_led_brightness-IsConsistent :
      (s : ConfigService) (call : SetCall) (value : ℕ)
      → IsConsistent start s
      → IsConsistent start (set_led_brightness s call value)
  unfolding set_led_brightness
  set_led_brightness-IsConsistent s call value v = ground arith

  pub update_last_known_epoch-IsConsistent :
      (s : ConfigService) (call : SetCall) (value : ℕ)
      → IsConsistent start s
      → IsConsistent start (update_last_known_epoch s call value)
  unfolding update_last_known_epoch
  update_last_known_epoch-IsConsistent s call value v = ground arith

  pub timer_expires-IsConsistent :
      (s : ConfigService) → IsConsistent start s → IsConsistent start (timer_expires s)
  unfolding commit_timer_callback
  timer_expires-IsConsistent s v = ground arith

  pub worker_round-IsConsistent :
      (s : ConfigService) (shutdown : Bool) (call : WriteCall)
      → IsConsistent start s
      → IsConsistent start (worker_round s shutdown call)
  unfolding worker_round
  worker_round-IsConsistent s shutdown call v =
      ground (arith, write_to_nvs-IsConsistent (record s { save_notified = false }) call)

  pub force_flush-IsConsistent :
      (s : ConfigService) (accepts : Bool) (call : WriteCall)
      → IsConsistent start s
      → IsConsistent start (force_flush s accepts call).0
  unfolding force_flush
  force_flush-IsConsistent s accepts call v = ground (
    arith,
    write_to_nvs-IsConsistent s call,
    write_to_nvs-IsConsistent (record s { timer_active = false }) call,
  )

  pub factory_reset-IsConsistent :
      (s : ConfigService) (call : SetCall) (random : ℕ) (write : WriteCall)
      → IsConsistent start s
      → (factory_reset s call random write).1 ≡ true
      → IsConsistent start (factory_reset s call random write).0
  unfolding factory_reset write_to_nvs init_user_config_defaults apply_sensitivity_to_hal seal
  factory_reset-IsConsistent s call random write v ok =
      let d = init_user_config_defaults random in
      let c = calculate_config_crc-seal (seal d) in
      ground (arith, kept-saved start s.nvs (seal (seal d)), last_applied-append none s.hal 50, c)
