-- ===== src/Protocol/Frame.antt =====
-- `buildFrame` and `parseFrame`. A pointer with its length is a list of bytes.
pub mod RoundTrip
pub mod Corruption
use esp32_sensor_firmware_pl.Prelude.{
  ℕ, ◌+◌, ◌-◌, ◌++◌, Bool, not, ◌&&◌, List, [], ◌∷◌, Option, none, some, leb, ltb, ◌==◌, length,
  take, drop, byte_at, be16, read_be16, if◌then◌else◌,
}
use esp32_sensor_firmware_pl.Crc.{calculate_crc16}

abbrev pub sof : ℕ
sof = 0xA5

abbrev pub protocol_version : ℕ
protocol_version = 1

abbrev pub header_size : ℕ
header_size = 7

abbrev pub crc_size : ℕ
crc_size = 2

abbrev pub max_payload_size : ℕ
max_payload_size = 500

abbrev pub min_frame_size : ℕ
min_frame_size = header_size + crc_size

pub record MessageHeader : Type 0 where
  pub sof_byte : ℕ
  pub msg_type : ℕ
  pub version : ℕ
  pub seq_num : ℕ
  pub payload_length : ℕ

-- `MessageHeader::isValid`.
abbrev pub is_valid : MessageHeader → Bool
is_valid h =
    h.sof_byte == sof && h.version == protocol_version && leb h.payload_length max_payload_size

-- The bytes under the checksum.
abbrev pub frame_body : ℕ → List ℕ → ℕ → List ℕ
frame_body type payload seq_num =
    (sof ∷ type ∷ protocol_version ∷ be16 seq_num) ++ be16 (length payload) ++ payload

-- `none` is the result `false`.
unfoldable pub build_frame : ℕ → List ℕ → ℕ → Option (List ℕ)
build_frame type payload seq_num =
    let body = frame_body type payload seq_num in
    if ltb max_payload_size (length payload)
    then none
    else some (body ++ be16 (calculate_crc16 body))

abbrev pub read_header : List ℕ → MessageHeader
read_header bytes = record {
  sof_byte = byte_at bytes 0;
  msg_type = byte_at bytes 1;
  version = byte_at bytes 2;
  seq_num = read_be16 bytes 3;
  payload_length = read_be16 bytes 5;
}

unfoldable pub parse_frame : List ℕ → Option (MessageHeader × List ℕ)
parse_frame bytes =
    let n = length bytes in
    let header = read_header bytes in
    if ltb n min_frame_size
    then none
    else if not (byte_at bytes 0 == sof)
    then none
    else if not (is_valid header)
    then none
    else if not (n == header_size + header.payload_length + crc_size)
    then none
    else if not (read_be16 bytes (n - 2) == calculate_crc16 (take (n - crc_size) bytes))
    then none
    else some (header, take header.payload_length (drop header_size bytes))
