-- ===== src/Logger/Window.antt =====
-- `SampleWindow` with its header and its checksum.
use esp32_sensor_firmware_pl.Prelude.{ℕ, ◌++◌, Bool, ◌&&◌, List, [], ◌∷◌, leb, ◌==◌, le16, le32}
use esp32_sensor_firmware_pl.Crc.{calculate_crc32}

pub data GestureLabel : Type 0 where
  idle_gesture approach hover quick_pass cover_hold confirmed_event surface_reflection noise :
      GestureLabel
  unknown unlabeled invalid : GestureLabel

-- The enum's values.
unfoldable pub label_code : GestureLabel → ℕ
label_code idle_gesture = 0
label_code approach = 1
label_code hover = 2
label_code quick_pass = 3
label_code cover_hold = 4
label_code confirmed_event = 5
label_code surface_reflection = 6
label_code noise = 7
label_code unknown = 8
label_code unlabeled = 254
label_code invalid = 255

pub record SampleRecord : Type 0 where
  pub proximity : ℕ  -- uint16_t
  pub dt_ms : ℕ  -- uint16_t

-- The reserved bytes are always 0.
pub record WindowHeader : Type 0 where
  pub magic : ℕ
  pub version : ℕ
  pub sample_count : ℕ
  pub session_id : ℕ
  pub window_id : ℕ
  pub label : ℕ
  pub start_uptime_ms : ℕ
  pub start_epoch : ℕ
  pub wake_threshold : ℕ
  pub detection_threshold : ℕ
  pub critical_detection_threshold : ℕ
  pub sensitivity : ℕ
  pub flags : ℕ
  pub boot_count : ℕ
  pub crc32 : ℕ

pub record SampleWindow : Type 0 where
  pub header : WindowHeader
  pub samples : List SampleRecord

-- The `MLConfig` and `Timing` constants of Config.h, which is not in the repository.
pub record LoggerConfig : Type 0 where
  pub window_size : ℕ
  pub window_stride : ℕ
  pub window_magic : ℕ
  pub window_version : ℕ
  pub sampling_period_ms : ℕ

-- The packed header, without its checksum.
abbrev pub header_bytes : WindowHeader → List ℕ
header_bytes h =
    le16 h.magic
    ++ (h.version ∷ h.sample_count ∷ [])
    ++ le16 h.session_id
    ++ le16 h.window_id
    ++ (h.label ∷ 0 ∷ [])
    ++ le32 h.start_uptime_ms
    ++ le32 h.start_epoch
    ++ le16 h.wake_threshold
    ++ le16 h.detection_threshold
    ++ le16 h.critical_detection_threshold
    ++ (h.sensitivity ∷ h.flags ∷ h.boot_count ∷ 0 ∷ [])

abbrev pub sample_bytes : List SampleRecord → List ℕ
sample_bytes [] = []
sample_bytes (s ∷ ss) = le16 s.proximity ++ le16 s.dt_ms ++ sample_bytes ss

unfoldable pub calculate_crc : SampleWindow → ℕ
calculate_crc w = calculate_crc32 (header_bytes w.header ++ sample_bytes w.samples)

unfoldable pub is_valid : LoggerConfig → SampleWindow → Bool
unfolding calculate_crc
is_valid cfg w =
    w.header.magic == cfg.window_magic
    && w.header.version == cfg.window_version
    && leb w.header.sample_count cfg.window_size
    && w.header.crc32 == calculate_crc w
