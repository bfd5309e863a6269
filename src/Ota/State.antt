-- ===== src/Ota/State.antt =====
-- The state of `OTAManager`, what it asks of the flash writer, and the messages it sends.
use esp32_sensor_firmware_pl.Prelude.{
  ℕ, ◌+◌, ◌*◌, ◌/◌, ◌%◌, ◌++◌, Bool, true, false, List, [], ◌∷◌, leb, ltb, ◌==◌, byte_at, read_le16,
  read_le32, u8, if◌then◌else◌,
}

pub data OtaState : Type 0 where
  idle receiving validating committing rebooting failed : OtaState

pub data OtaError : Type 0 where
  no_error low_battery no_partition too_large begin_failed write_failed size_mismatch crc_mismatch
        commit_failed timeout invalid_state chunk_out_of_order self_test_failed version_rejected :
      OtaError

abbrev pub error_code : OtaError → ℕ
error_code no_error = 0x00
error_code low_battery = 0x01
error_code no_partition = 0x02
error_code too_large = 0x03
error_code begin_failed = 0x04
error_code write_failed = 0x05
error_code size_mismatch = 0x06
error_code crc_mismatch = 0x07
error_code commit_failed = 0x08
error_code timeout = 0x09
error_code invalid_state = 0x0A
error_code chunk_out_of_order = 0x0B
error_code self_test_failed = 0x0C
error_code version_rejected = 0x0D

-- The constants of Config.h and the version macros of the build, none of them in the repository.
pub record OtaConfig : Type 0 where
  pub min_battery_percent : ℕ
  pub chunk_timeout_ms : ℕ
  pub version_major : ℕ
  pub version_minor : ℕ
  pub version_patch : ℕ
  pub build_type : ℕ

-- The calls that change the update partition, or leave the program. A write is recorded where the
-- writer has taken all of its bytes.
pub data FlashCall : Type 0 where
  begin : ℕ → FlashCall
  write : List ℕ → FlashCall
  abort finish restart : FlashCall

-- The payloads handed to `ProtocolHandler::sendMessage`.
pub data OtaMessage : Type 0 where
  status : List ℕ → OtaMessage
  data_ack : List ℕ → OtaMessage
  info_resp : List ℕ → OtaMessage

-- `sent` and `flash` record, oldest first, the messages sent and the flash calls made.
pub record Manager : Type 0 where
  pub has_protocol_handler : Bool
  pub state : OtaState
  pub last_error : OtaError
  pub initialized : Bool
  pub expected_size : ℕ
  pub received_size : ℕ
  pub expected_crc : ℕ
  pub running_crc : ℕ
  pub expected_chunks : ℕ
  pub received_chunks : ℕ
  pub new_major : ℕ
  pub new_minor : ℕ
  pub new_patch : ℕ
  pub last_chunk_time : ℕ
  pub start_time : ℕ
  pub sent : List OtaMessage
  pub flash : List FlashCall

unfoldable pub new : Manager
new = record {
  has_protocol_handler = false;
  state = idle;
  last_error = no_error;
  initialized = false;
  expected_size = 0;
  received_size = 0;
  expected_crc = 0;
  running_crc = 0xFFFFFFFF;
  expected_chunks = 0;
  received_chunks = 0;
  new_major = 0;
  new_minor = 0;
  new_patch = 0;
  last_chunk_time = 0;
  start_time = 0;
  sent = [];
  flash = [];
}

unfoldable pub init : Manager → Bool → Manager × Bool
init m protocol_handler =
    (record m { has_protocol_handler = protocol_handler; initialized = true }, true)

-- `OtaStartPayload`, packed and little-endian.
pub record StartPayload : Type 0 where
  pub total_size : ℕ
  pub expected_crc : ℕ
  pub new_major : ℕ
  pub new_minor : ℕ
  pub new_patch : ℕ
  pub total_chunks : ℕ

abbrev pub start_payload_size : ℕ
start_payload_size = 14

unfoldable pub read_start : List ℕ → StartPayload
read_start bytes = record {
  total_size = read_le32 bytes 0;
  expected_crc = read_le32 bytes 4;
  new_major = byte_at bytes 8;
  new_minor = byte_at bytes 9;
  new_patch = byte_at bytes 10;
  total_chunks = read_le16 bytes 11;
}

-- A call of `sendMessage` goes out only where there is a protocol handler.
abbrev pub send : Manager → OtaMessage → Manager
send m msg = if m.has_protocol_handler then record m { sent = m.sent ++ (msg ∷ []) } else m

unfoldable pub send_status : Manager → ℕ → OtaError → Manager
send_status m code error =
    send m (
      status
        (code ∷ error_code error ∷ u8 (m.received_chunks / 256) ∷ m.received_chunks % 256 ∷ []))

unfoldable pub send_chunk_ack : Manager → ℕ → Bool → Manager
send_chunk_ack m chunk_index success =
    send m (
      data_ack (u8 (chunk_index / 256) ∷ chunk_index % 256 ∷ (if success then 0x00 else 0x01) ∷ []))

unfoldable pub get_progress : Manager → ℕ
get_progress m =
    if m.expected_chunks == 0 then 0 else u8 (m.received_chunks * 100 / m.expected_chunks)

-- `(major << 16) | (minor << 8) | patch`, of three bytes.
abbrev pub version_number : ℕ → ℕ → ℕ → ℕ
version_number major minor patch = major * 65536 + minor * 256 + patch

module _ (cfg : OtaConfig) where
  -- The charge is taken to be 100 %.
  unfoldable pub check_battery_level : Bool
  check_battery_level = leb cfg.min_battery_percent 100

  -- A debug build (2) takes any version.
  unfoldable pub validate_version : ℕ → ℕ → ℕ → Bool
  validate_version major minor patch =
      if cfg.build_type == 2
      then true
      else if ltb (version_number major minor patch)
          (version_number cfg.version_major cfg.version_minor cfg.version_patch)
      then false
      else true
