-- ===== src/Protocol/Samples.antt =====
-- A handler with the small history behind it, and what its messages meet.
use esp32_sensor_firmware_pl.Ota
use esp32_sensor_firmware_pl.Configuration
use esp32_sensor_firmware_pl.History.Samples.{
  service-IsNumbered, ring-IsSealed, flush, service, call, small_cfg, service-IsReady,
}
use esp32_sensor_firmware_pl.Protocol.Sending.{SendCall}
use esp32_sensor_firmware_pl.Protocol.Acked.{IsServed}
use esp32_sensor_firmware_pl.Protocol.Outcome.{IsFresh}
use esp32_sensor_firmware_pl.Ota.State.{OtaConfig}
use esp32_sensor_firmware_pl.Protocol.Answered.{IsBacked}
use esp32_sensor_firmware_pl.Protocol.State.{empty_message, max_pending_messages, Handler}
use esp32_sensor_firmware_pl.Protocol.World.{Meeting, ProtocolConfig, World}
use esp32_sensor_firmware_pl.Protocol.Replies.{IsLinked}
use esp32_sensor_firmware_pl.Prelude.{refl, arith, arith, replicate, true, false, none, []}

abbrev pub ota_cfg : OtaConfig
ota_cfg = record {
  min_battery_percent = 30;
  chunk_timeout_ms = 10000;
  version_major = 1;
  version_minor = 2;
  version_patch = 3;
  build_type = 0;
}

abbrev pub cfg : ProtocolConfig
cfg = record { history = small_cfg; ota = ota_cfg; rtc_magic_key = 99; mode_flasher = 1 }

-- After `init`, with an update manager and two callbacks.
abbrev pub handler : Handler
handler = record {
  has_ble = true;
  has_history = true;
  has_ota = true;
  tx_seq_num = 0;
  expected_rx_seq_num = 0;
  pending = replicate max_pending_messages empty_message;
  tx_count = 0;
  rx_count = 0;
  retry_count = 0;
  error_count = 0;
  invalid_ack_count = 0;
  last_security_event = 0;
  detection_event_count = 0;
  detection_window_start = 0;
  last_config_seq_num = 0;
  config_seq_initialized = false;
  initialized = true;
  broken = false;
  has_mutex = true;
  on_time_sync_received = true;
  on_sleep_command_received = false;
  on_calibrate_requested = false;
  on_get_battery_status = false;
  on_activity_detected = true;
  sent = [];
}

unfoldable pub world : World
world = record {
  handler = handler;
  history = service;
  ota = Ota.State.new;
  config = Configuration.State.new 7 true;
  effects = [];
}

abbrev pub send_call : SendCall
send_call = record { connected = true; mutex_taken = true; notified = true; millis = 100 }

abbrev pub meeting : Meeting
meeting = record {
  millis = 100;
  send = λ k. send_call;
  history = λ k. call;
  flush = flush;
  rx_mutex = true;
  nack_mutex = true;
  security_mutex = true;
  ack_mutex = true;
  again_mutex = true;
  has_config = true;
  has_sensor = true;
  set_call = record { mutex_taken = true; timer_accepts = true };
  ota_start = record { partition = none; begins = true; millis = 5 };
  ota_written = 0;
  ota_ends = true;
  ota_partition = none;
  battery_percent = 80;
  charging = false;
  uptime = 10;
  bond_count = 1;
  mac = replicate 6 0;
  wake_threshold = 100;
  hit_threshold = 200;
}

pub world-IsLinked : IsLinked world.handler meeting
unfolding world
world-IsLinked = record {
  initialized = refl;
  has_ble = refl;
  connected = λ k. refl;
  mutex_taken = λ k. refl;
  notified = λ k. refl;
}

pub world-IsServed : IsServed cfg world meeting
unfolding world
world-IsServed = record {
  security_mutex = refl;
  ack_mutex = refl;
  again_mutex = refl;
  has_history = refl;
  ready = service-IsReady;
  sealed = ring-IsSealed;
}

pub world-IsBacked : IsBacked cfg world meeting
unfolding world
world-IsBacked = record {
  has_history = refl;
  ready = λ k. service-IsReady;
  sealed = ring-IsSealed;
  numbered = service-IsNumbered;
  small = omega arith;
}

pub world-IsFresh : IsFresh world.handler
unfolding world
world-IsFresh = refl
