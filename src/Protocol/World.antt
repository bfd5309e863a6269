-- ===== src/Protocol/World.antt =====
-- What a received message acts on: the protocol handler with the services behind it.
use esp32_sensor_firmware_pl.Prelude.{ℕ, ◌++◌, Bool, List, [], ◌∷◌, Option}
use esp32_sensor_firmware_pl.Platform.{Call}
use esp32_sensor_firmware_pl.History.State.{Config, Service}
use esp32_sensor_firmware_pl.History.Nvs.{FlushCall}
use esp32_sensor_firmware_pl.Ota.State.{OtaConfig, Manager}
use esp32_sensor_firmware_pl.Ota.Handlers.{StartCall}
use esp32_sensor_firmware_pl.Configuration.State.{ConfigService}
use esp32_sensor_firmware_pl.Configuration.Changes.{SetCall}
use esp32_sensor_firmware_pl.Protocol.State.{Handler}
use esp32_sensor_firmware_pl.Protocol.Sending.{SendCall}

-- A call of a part that is not modelled here. `boot_flags` is the write of `g_rtc_magic` and
-- `g_boot_mode`, `restart` is `esp_restart`.
pub data Effect : Type 0 where
  activity_detected sleep_commanded pairing_enabled bonds_deleted restart : Effect
  time_synced : ℕ → Effect
  clock_set : ℕ → Effect
  detections_suppressed : ℕ → Effect
  boot_flags : ℕ → ℕ → Effect

-- `effects` records these calls, oldest first.
pub record World : Type 0 where
  pub handler : Handler
  pub history : Service
  pub ota : Manager
  pub config : ConfigService
  pub effects : List Effect

-- The constants of Config.h, which is not in the repository.
pub record ProtocolConfig : Type 0 where
  pub history : Config
  pub ota : OtaConfig
  pub rtc_magic_key : ℕ
  pub mode_flasher : ℕ

-- What the handling of one message meets. `send` and `history` give the answers to the first, second
-- and later call of `sendMessage` and of the history; `security_mutex`, `ack_mutex` and
-- `again_mutex` are the three times that an acknowledgement takes the handler's mutex, `rx_mutex` and
-- `nack_mutex` those of `processReceived` and `clearPending`. `has_config` and `has_sensor` tell
-- whether `getInstance` returns an object. The rest is what callbacks and drivers report.
pub record Meeting : Type 0 where
  pub millis : ℕ
  pub send : ℕ → SendCall
  pub history : ℕ → Call
  pub flush : FlushCall
  pub rx_mutex : Bool
  pub nack_mutex : Bool
  pub security_mutex : Bool
  pub ack_mutex : Bool
  pub again_mutex : Bool
  pub has_config : Bool
  pub has_sensor : Bool
  pub set_call : SetCall
  pub ota_start : StartCall
  pub ota_written : ℕ
  pub ota_ends : Bool
  pub ota_partition : Option ℕ
  pub battery_percent : ℕ
  pub charging : Bool
  pub uptime : ℕ
  pub bond_count : ℕ
  pub mac : List ℕ
  pub wake_threshold : ℕ
  pub hit_threshold : ℕ

abbrev pub log_effect : World → Effect → World
log_effect w e = record w { effects = w.effects ++ (e ∷ []) }

abbrev pub with_handler : World → Handler → World
with_handler w h = record w { handler = h }
