-- ===== src/Event.antt =====
-- `DetectionEvent` of src/Domain/DetectionEvent.h: its fields, flag methods and packed bytes.
pub mod Flags
use esp32_sensor_firmware_pl.Prelude.{
  ℕ, zero, ◌-◌, ◌/◌, ◌%◌, ◌^◌, List, [], ◌∷◌, ◌++◌, Bool, not, has_bit, set_bit, ◌==◌, replicate,
  le16, le32, if◌then◌else◌,
}

pub record DetectionEvent : Type 0 where
  pub id : ℕ  -- uint32_t
  pub timestamp_ms : ℕ  -- uint32_t
  pub boot_count : ℕ  -- uint32_t
  pub duration_ms : ℕ  -- uint16_t
  pub timestamp : ℕ  -- uint32_t
  pub flags : ℕ  -- uint8_t
  pub reserved : List ℕ  -- five bytes

abbrev pub zero_event : DetectionEvent
zero_event = record {
  id = 0;
  timestamp_ms = 0;
  boot_count = 0;
  duration_ms = 0;
  timestamp = 0;
  flags = 0;
  reserved = replicate 5 0;
}

unfoldable pub is_synced : DetectionEvent → Bool
is_synced e = has_bit 0 e.flags

unfoldable pub set_synced : DetectionEvent → DetectionEvent
set_synced e = record e { flags = set_bit 0 e.flags }

unfoldable pub clear_synced : DetectionEvent → DetectionEvent
clear_synced e = record e { flags = if has_bit 0 e.flags then e.flags - 1 else e.flags }

unfoldable pub was_overflow : DetectionEvent → Bool
was_overflow e = has_bit 1 e.flags

unfoldable pub set_overflow : DetectionEvent → DetectionEvent
set_overflow e = record e { flags = set_bit 1 e.flags }

unfoldable pub is_time_estimated : DetectionEvent → Bool
is_time_estimated e = has_bit 2 e.flags

unfoldable pub set_time_estimated : DetectionEvent → DetectionEvent
set_time_estimated e = record e { flags = set_bit 2 e.flags }

unfoldable pub is_time_valid : DetectionEvent → Bool
is_time_valid e = not (e.timestamp == 0)

unfoldable pub clear_flags : DetectionEvent → DetectionEvent
clear_flags e = record e { flags = 0 }

unfoldable pub event_bytes : DetectionEvent → List ℕ
event_bytes e =
    le32 e.id
    ++ le32 e.timestamp_ms
    ++ le32 e.boot_count
    ++ le16 e.duration_ms
    ++ le32 e.timestamp
    ++ e.flags ∷ e.reserved

unfoldable pub buffer_bytes : List DetectionEvent → List ℕ
unfolding event_bytes
buffer_bytes [] = []
buffer_bytes (e ∷ es) = event_bytes e ++ buffer_bytes es
