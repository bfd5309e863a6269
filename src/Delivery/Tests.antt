-- ===== src/Delivery/Tests.antt =====
-- The pump at the history's sample ring.
use esp32_sensor_firmware_pl.Prelude.{◌≡◌, true, ◌&&◌, some, none, if◌then◌else◌, find_first}
use esp32_sensor_firmware_pl.History.Window.{contents}
use esp32_sensor_firmware_pl.History.Queries.{unsynced}
use esp32_sensor_firmware_pl.History.Samples.{small_cfg, service, call, service-IsReady}
use esp32_sensor_firmware_pl.Delivery.{Pump, PumpCall, update}
use esp32_sensor_firmware_pl.Delivery.Rate.{is_due, may_send, attempted, update_offers}

abbrev pump : Pump
pump = record {
  has_ble = true;
  has_history = true;
  has_protocol = true;
  last_attempt_ms = 1000;
  initialized = true;
  success_count = 0;
  skip_count = 0;
}

abbrev pump_call : PumpCall
pump_call = record {
  millis = 1150;
  connected = true;
  subscribed = true;
  pending_count = 7;
  history = call;
  sends = true;
}

update_offers_example :
    let offered =
      if is_due pump pump_call && may_send pump pump_call
      then find_first unsynced (contents small_cfg service.state)
      else none in
    update small_cfg pump service pump_call ≡ some (attempted pump pump_call offered, offered)
update_offers_example = update_offers small_cfg pump service pump_call service-IsReady
