-- ===== src/Configuration/State.antt =====
-- `UserConfig`, the members of `ConfigService`, and its checksum.
use esp32_sensor_firmware_pl.Prelude.{ℕ, ◌++◌, Bool, false, List, [], ◌∷◌, ltb, if◌then◌else◌, le32}
use esp32_sensor_firmware_pl.Crc.{calculate_crc32}

pub record UserConfig : Type 0 where
  pub version : ℕ  -- uint8_t
  pub sensitivity : ℕ  -- uint8_t
  pub led_brightness : ℕ  -- uint8_t
  pub reserved : ℕ  -- uint8_t
  pub signature : ℕ  -- uint32_t
  pub last_known_epoch : ℕ  -- uint32_t
  pub crc32 : ℕ  -- uint32_t

-- `sizeof(UserConfig)`.
abbrev pub user_config_size : ℕ
user_config_size = 16

-- `UserConfigDefaults::VERSION`.
abbrev pub current_version : ℕ
current_version = 3

-- `random` is what `esp_random` returns.
unfoldable pub init_user_config_defaults : (random : ℕ) → UserConfig
init_user_config_defaults random = record {
  version = current_version;
  sensitivity = 50;
  led_brightness = 128;
  reserved = 0;
  signature = random;
  last_known_epoch = 0;
  crc32 = 0;
}

unfoldable pub validate_sensitivity : ℕ → ℕ
validate_sensitivity sensitivity = if ltb 100 sensitivity then 100 else sensitivity

-- The first `CRC_DATA_SIZE` bytes of the packed record.
abbrev pub crc_data : UserConfig → List ℕ
crc_data c =
    (c.version ∷ c.sensitivity ∷ c.led_brightness ∷ c.reserved ∷ [])
    ++ le32 c.signature
    ++ le32 c.last_known_epoch

unfoldable pub calculate_config_crc : UserConfig → ℕ
calculate_config_crc c = calculate_crc32 (crc_data c)

-- `_config.crc32 = calculateConfigCrc()`.
unfoldable pub seal : UserConfig → UserConfig
seal c = record c { crc32 = calculate_config_crc c }

-- What has become of the blob under the key: a config that was set and committed, or one that was
-- set and whose commit failed.
pub data NvsCall : Type 0 where
  saved : UserConfig → NvsCall
  unsure : UserConfig → NvsCall

-- A handle is modelled by whether it is there; `timer_active` is the commit timer's state and
-- `save_notified` the bit NOTIFY_SAVE_CONFIG of the worker's notification. `nvs`, `hal` and `clock`
-- record, oldest first, the writes to NVS, the calls of `setUserSensitivity` and of `settimeofday`.
pub record ConfigService : Type 0 where
  pub has_sensor_hal : Bool
  pub config : UserConfig
  pub initialized : Bool
  pub dirty : Bool
  pub has_commit_timer : Bool
  pub timer_active : Bool
  pub has_worker_task : Bool
  pub worker_running : Bool
  pub save_notified : Bool
  pub has_mutex : Bool
  pub nvs : List NvsCall
  pub hal : List ℕ
  pub clock : List ℕ

-- The constructor; `mutex` is what the kernel returns.
unfoldable pub new : (random : ℕ) → (mutex : Bool) → ConfigService
unfolding init_user_config_defaults
new random mutex = record {
  has_sensor_hal = false;
  config = init_user_config_defaults random;
  initialized = false;
  dirty = false;
  has_commit_timer = false;
  timer_active = false;
  has_worker_task = false;
  worker_running = false;
  save_notified = false;
  has_mutex = mutex;
  nvs = [];
  hal = [];
  clock = [];
}

-- The getters return the field whether or not they take the mutex.
abbrev pub get_sensitivity : ConfigService → ℕ
get_sensitivity s = s.config.sensitivity

abbrev pub get_led_brightness : ConfigService → ℕ
get_led_brightness s = s.config.led_brightness

abbrev pub get_config_crc : ConfigService → ℕ
get_config_crc s = s.config.crc32

abbrev pub get_config_signature : ConfigService → ℕ
get_config_signature s = s.config.signature

abbrev pub get_last_known_epoch : ConfigService → ℕ
get_last_known_epoch s = s.config.last_known_epoch
