-- ===== src/History/State.antt =====
-- The state of `HistoryService` (src/Services/HistoryService.h) and its private helpers.
use esp32_sensor_firmware_pl.Prelude.{
  ℕ, ◌+◌, ◌-◌, ◌%◌, Bool, false, List, [], leb, ◌==◌, if◌then◌else◌, get_or, replicate,
}
use esp32_sensor_firmware_pl.Crc.{calculate_crc32}
use esp32_sensor_firmware_pl.Event.{DetectionEvent, zero_event, buffer_bytes}

-- The `HistoryConfig` constants. Config.h is not in the repository, so they are parameters.
pub record Config : Type 0 where
  pub buffer_size : ℕ
  pub nvs_flush_threshold : ℕ
  pub rtc_magic_number : ℕ

pub data StorageCmd : Type 0 where
  save_hit force_flush restore clear_nvs : StorageCmd

pub record StorageMessage : Type 0 where
  pub cmd : StorageCmd
  pub event_id : ℕ

pub record RtcState : Type 0 where
  pub magic_number : ℕ
  pub crc32 : ℕ
  pub boot_count : ℕ
  pub head : ℕ
  pub tail : ℕ
  pub global_event_id : ℕ
  pub buffer : List DetectionEvent
  pub reserved : List ℕ

-- A handle is modelled by whether it is there. `accepted` records, oldest first, the messages that
-- `xQueueSend` has taken.
pub record Service : Type 0 where
  pub state : RtcState
  pub has_mutex : Bool
  pub has_queue : Bool
  pub has_task : Bool
  pub initialized : Bool
  pub storage_worker_running : Bool
  pub last_nvs_flush_id : ℕ
  pub events_since_flush : ℕ
  pub time_sync_received : Bool
  pub flush_pending : Bool
  pub ble_connected : Bool
  pub connection_start_time : ℕ
  pub accepted : List StorageMessage

-- `_state.buffer[i]`.
abbrev pub event_at : List DetectionEvent → ℕ → DetectionEvent
event_at buf i = get_or buf i zero_event

unfoldable pub calculate_buffer_crc : RtcState → ℕ
unfolding buffer_bytes
calculate_buffer_crc st = calculate_crc32 (buffer_bytes st.buffer)

unfoldable pub update_crc : RtcState → RtcState
update_crc st = record st { crc32 = calculate_buffer_crc st }

-- The constructor; the two handles are what the kernel returns.
unfoldable pub new : RtcState → Bool → Bool → Service
new st mutex queue = record {
  state = st;
  has_mutex = mutex;
  has_queue = queue;
  has_task = false;
  initialized = false;
  storage_worker_running = false;
  last_nvs_flush_id = 0;
  events_since_flush = 0;
  time_sync_received = false;
  flush_pending = false;
  ble_connected = false;
  connection_start_time = 0;
  accepted = [];
}

module _ (cfg : Config) where
  -- `(i + 1) % HistoryConfig::BUFFER_SIZE`.
  abbrev pub next_index : ℕ → ℕ
  next_index i = (i + 1) % cfg.buffer_size

  unfoldable pub validate_state : RtcState → Bool
  validate_state st =
      if st.magic_number == cfg.rtc_magic_number then calculate_buffer_crc st == st.crc32 else false

  unfoldable pub reset_state : RtcState → RtcState
  reset_state st = update_crc (record {
    magic_number = cfg.rtc_magic_number;
    crc32 = 0;
    boot_count = 0;
    head = 0;
    tail = 0;
    global_event_id = 0;
    buffer = replicate cfg.buffer_size zero_event;
    reserved = replicate 2 0;
  })

  unfoldable pub event_count : RtcState → ℕ
  event_count st =
      if leb st.tail st.head then st.head - st.tail else cfg.buffer_size - st.tail + st.head

  unfoldable pub needs_nvs_flush : Service → Bool
  needs_nvs_flush s = leb cfg.nvs_flush_threshold s.events_since_flush
