-- ===== src/History/Samples.antt =====
-- A ring of three cells with two events, and the calls that the examples make on it.
use esp32_sensor_firmware_pl.Prelude.{◌*◌, ℕ, refl, true, false, [], ◌∷◌, arith, replicate}
use esp32_sensor_firmware_pl.Platform.{Call, software, power_on}
use esp32_sensor_firmware_pl.Event.{DetectionEvent, zero_event}
use esp32_sensor_firmware_pl.History.Numbering.{IsNumbered}
use esp32_sensor_firmware_pl.History.State.{
  event_count, Config, RtcState, Service, update_crc, calculate_buffer_crc,
}
use esp32_sensor_firmware_pl.History.Window.{InBounds}
use esp32_sensor_firmware_pl.History.Append.{IsSealed}
use esp32_sensor_firmware_pl.History.Queries.{IsReady}
use esp32_sensor_firmware_pl.History.Marking.{IsSound}
use esp32_sensor_firmware_pl.History.Nvs.{FlushCall, RestoreCall, NvsImage}
use esp32_sensor_firmware_pl.History.Worker.{InitCall}

abbrev pub small_cfg : Config
small_cfg = record { buffer_size = 3; nvs_flush_threshold = 2; rtc_magic_number = 77 }

abbrev event_of : ℕ → ℕ → DetectionEvent
event_of n flags = record zero_event {
  id = n;
  timestamp_ms = 1000 * n;
  boot_count = 1;
  flags = flags;
}

-- Events 4 and 5; the first is synced.
abbrev pub raw_ring : RtcState
raw_ring = record {
  magic_number = 77;
  crc32 = 0;
  boot_count = 1;
  head = 2;
  tail = 0;
  global_event_id = 5;
  buffer = event_of 4 1 ∷ event_of 5 0 ∷ zero_event ∷ [];
  reserved = replicate 2 0;
}

unfoldable pub ring : RtcState
unfolding update_crc
ring = update_crc raw_ring

unfoldable pub service : Service
unfolding ring
service = record {
  state = ring;
  has_mutex = true;
  has_queue = true;
  has_task = true;
  initialized = true;
  storage_worker_running = true;
  last_nvs_flush_id = 0;
  events_since_flush = 1;
  time_sync_received = false;
  flush_pending = false;
  ble_connected = false;
  connection_start_time = 0;
  accepted = [];
}

abbrev pub call : Call
call = record {
  mutex_taken = true;
  queue_accepts = true;
  millis = 9000;
  uptime = 9000;
  epoch = 1700000000;
}

abbrev pub late_call : Call
late_call = record call { mutex_taken = false }

abbrev pub flush : FlushCall
flush = record {
  battery_critical = false;
  charging = false;
  pairing_mode = false;
  mutex_taken = true;
  opens = true;
  put_boot_count = 4;
  put_event_id = 4;
  put_head = 2;
  put_tail = 2;
  put_bytes = λ attempt. 72;
}

abbrev pub image : NvsImage
image = record {
  boot_count = 1;
  event_id = 5;
  head = 2;
  tail = 0;
  events = event_of 4 1 ∷ event_of 5 0 ∷ zero_event ∷ [];
}

abbrev pub view : RestoreCall
view = record { opens = true; has_event_id = true; image = image; mutex_taken = true }

abbrev pub warm_boot : InitCall
warm_boot = record {
  reason = software;
  view = view;
  mutex_created = true;
  queue_created = true;
  task_created = true;
}

abbrev pub cold_boot : InitCall
cold_boot = record warm_boot { reason = power_on }

abbrev pub lost_boot : InitCall
lost_boot = record cold_boot { view = record view { opens = false } }

pub ring-InBounds : InBounds small_cfg service.state
unfolding service ring update_crc
ring-InBounds = record {
  two_cells = omega arith;
  cells = refl;
  head_in = omega arith;
  tail_in = omega arith;
}

pub raw_ring-InBounds : InBounds small_cfg raw_ring
raw_ring-InBounds = record {
  two_cells = omega arith;
  cells = refl;
  head_in = omega arith;
  tail_in = omega arith;
}

pub ring-IsSealed : IsSealed small_cfg service.state
unfolding service ring update_crc calculate_buffer_crc
ring-IsSealed = record { magic = refl; checksum = refl }

pub service-IsSound : IsSound small_cfg service
service-IsSound = record { bounds = ring-InBounds; sealed = ring-IsSealed }

pub service-IsReady : IsReady small_cfg service call
unfolding service
service-IsReady = record {
  initialized = refl;
  has_mutex = refl;
  mutex_taken = refl;
  in_bounds = ring-InBounds;
}

pub service-IsNumbered : IsNumbered small_cfg service
unfolding service ring update_crc event_count
service-IsNumbered = refl
