-- ===== src/Protocol/Messages.antt =====
-- The message types and error codes of src/Domain/ProtocolDefs.h.
use esp32_sensor_firmware_pl.Prelude.{ℕ, List, [], ◌∷◌, Option, none, some, ◌==◌, find_first}

-- A value of the enumeration; `unlisted` is one that no enumerator names.
pub data MessageType : Type 0 where
  msg_hello msg_hello_ack msg_ack msg_nack msg_heartbeat msg_ping msg_pong msg_sleep : MessageType
  msg_detection_event msg_battery_status msg_device_status msg_sync_request msg_sync_data :
      MessageType
  msg_set_config msg_get_config msg_config_data msg_calibrate msg_time_sync msg_set_colors :
      MessageType
  msg_set_wifi msg_ota_info msg_ota_info_resp msg_ota_start msg_ota_data msg_ota_data_ack :
      MessageType
  msg_ota_commit msg_ota_abort msg_ota_status msg_enter_ota_mode msg_log_request msg_log_data :
      MessageType
  msg_factory_reset msg_pairing_mode msg_clear_bonds : MessageType
  unlisted : ℕ → MessageType

unfoldable pub type_code : MessageType → ℕ
type_code msg_hello = 0x00
type_code msg_hello_ack = 0x01
type_code msg_ack = 0x02
type_code msg_nack = 0x03
type_code msg_heartbeat = 0x04
type_code msg_ping = 0x05
type_code msg_pong = 0x06
type_code msg_sleep = 0x07
type_code msg_detection_event = 0x10
type_code msg_battery_status = 0x11
type_code msg_device_status = 0x12
type_code msg_sync_request = 0x13
type_code msg_sync_data = 0x14
type_code msg_set_config = 0x20
type_code msg_get_config = 0x21
type_code msg_config_data = 0x22
type_code msg_calibrate = 0x23
type_code msg_time_sync = 0x24
type_code msg_set_colors = 0x25
type_code msg_set_wifi = 0x26
type_code msg_ota_info = 0x30
type_code msg_ota_info_resp = 0x31
type_code msg_ota_start = 0x32
type_code msg_ota_data = 0x33
type_code msg_ota_data_ack = 0x34
type_code msg_ota_commit = 0x35
type_code msg_ota_abort = 0x36
type_code msg_ota_status = 0x37
type_code msg_enter_ota_mode = 0x38
type_code msg_log_request = 0x40
type_code msg_log_data = 0x41
type_code msg_factory_reset = 0x42
type_code msg_pairing_mode = 0x43
type_code msg_clear_bonds = 0x44
type_code (unlisted n) = n

-- The types that the `switch` of `dispatchMessage` has a case for.
abbrev pub handled_types : List MessageType
handled_types =
    msg_hello ∷ msg_ack ∷ msg_nack ∷ msg_heartbeat ∷ msg_ping ∷ msg_sync_request ∷ msg_time_sync
    ∷ msg_calibrate ∷ msg_set_config ∷ msg_get_config ∷ msg_sleep ∷ msg_ota_info ∷ msg_ota_start
    ∷ msg_ota_data ∷ msg_ota_commit ∷ msg_ota_abort ∷ msg_enter_ota_mode ∷ msg_pairing_mode
    ∷ msg_clear_bonds ∷ msg_set_wifi ∷ []

abbrev pub or_unlisted : ℕ → Option MessageType → MessageType
or_unlisted n none = unlisted n
or_unlisted n (some t) = t

-- `static_cast<MessageType>` of a byte, told apart as far as the `switch` does.
unfoldable pub handled_type : ℕ → MessageType
unfolding type_code
handled_type n = or_unlisted n (find_first (λ t. type_code t == n) handled_types)

pub data ErrorCode : Type 0 where
  err_none err_crc_mismatch err_seq_out_of_order err_invalid_length err_unknown_msg : ErrorCode
  err_invalid_state err_busy err_flash_write err_low_battery err_not_bonded : ErrorCode
  err_invalid_payload err_timeout err_ota_failed err_calibration err_sensor err_internal : ErrorCode

unfoldable pub error_byte : ErrorCode → ℕ
error_byte err_none = 0x00
error_byte err_crc_mismatch = 0x01
error_byte err_seq_out_of_order = 0x02
error_byte err_invalid_length = 0x03
error_byte err_unknown_msg = 0x04
error_byte err_invalid_state = 0x05
error_byte err_busy = 0x06
error_byte err_flash_write = 0x07
error_byte err_low_battery = 0x08
error_byte err_not_bonded = 0x09
error_byte err_invalid_payload = 0x0A
error_byte err_timeout = 0x0B
error_byte err_ota_failed = 0x0C
error_byte err_calibration = 0x0D
error_byte err_sensor = 0x0E
error_byte err_internal = 0xFF
