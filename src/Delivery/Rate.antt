-- ===== src/Delivery/Rate.antt =====
-- What the pump sends, and when.
use esp32_sensor_firmware_pl.Prelude.{
  ◌+◌, ◌≡◌, ap, ◌∙◌, Bool, true, false, not, ◌&&◌, Option, none, some, ltb, leb, u32, sub_u32,
  if◌then◌else◌, arith, find_first,
}
use esp32_sensor_firmware_pl.Event.{DetectionEvent}
use esp32_sensor_firmware_pl.History.State.{Config, Service}
use esp32_sensor_firmware_pl.History.Readers.{get_next_unsynced}
use esp32_sensor_firmware_pl.History.Window.{contents}
use esp32_sensor_firmware_pl.History.Queries.{IsReady, unsynced, get_next_unsynced_lem}
use esp32_sensor_firmware_pl.Delivery.{
  Pump, PumpCall, min_pump_interval_ms, max_pending_before_backoff, is_transport_ready,
  is_protocol_ready, deliver, update,
}

abbrev pub is_due : Pump → PumpCall → Bool
is_due p call = p.initialized && leb min_pump_interval_ms (sub_u32 call.millis p.last_attempt_ms)

abbrev pub may_send : Pump → PumpCall → Bool
may_send p call =
    p.has_ble
    && p.has_protocol
    && call.connected
    && call.subscribed
    && ltb call.pending_count max_pending_before_backoff

abbrev pub is_some : Option DetectionEvent → Bool
is_some none = false
is_some (some e) = true

-- The pump with the outcome of its attempt counted.
abbrev pub attempted : Pump → PumpCall → Option DetectionEvent → Pump
attempted p call offered = record p {
  last_attempt_ms = if is_due p call then call.millis else p.last_attempt_ms;
  success_count =
      if is_some offered && call.sends then u32 (p.success_count + 1) else p.success_count;
  skip_count =
      if is_due p call && not (may_send p call) then u32 (p.skip_count + 1) else p.skip_count;
}

-- What `update` comes to, given what the history offers.
after : Pump → PumpCall → Option (Option DetectionEvent) → Option (Pump × Option DetectionEvent)
after p call next =
    let attempt = record p { last_attempt_ms = call.millis } in
    let skip = record attempt { skip_count = u32 (p.skip_count + 1) } in
    if is_due p call
    then (if may_send p call then deliver attempt call.sends next else some (skip, none))
    else some (p, none)

after-attempted :
    (p : Pump) (call : PumpCall) (next : Option DetectionEvent)
    → let offered = if is_due p call && may_send p call then next else none in
      after p call (some next) ≡ some (attempted p call offered, offered)
unfolding after
after-attempted p call none = ground arith
after-attempted p call (some e) = ground arith

update-after :
    (cfg : Config) (p : Pump) (history : Service) (call : PumpCall)
    → update cfg p history call ≡ after p call (get_next_unsynced cfg history call.history)
unfolding update after is_transport_ready is_protocol_ready
update-after cfg p history call = ground arith

-- `update` ends on a ready history. It hands over an event exactly when the pump is initialized, 150
-- ms have gone by since its last attempt (on a clock that wraps), the app is connected and subscribed,
-- and fewer than 8 frames are pending; the event is then the oldest of the ring that is not synced. A
-- due attempt that may not send counts as a skip, and an event that is sent as a success.
pub update_offers :
    (cfg : Config) (p : Pump) (history : Service) (call : PumpCall)
    → IsReady cfg history call.history
    → let offered =
        if is_due p call && may_send p call
        then find_first unsynced (contents cfg history.state)
        else none in
      update cfg p history call ≡ some (attempted p call offered, offered)
update_offers cfg p history call ready =
    update-after cfg p history call
    ∙ ap (after p call) (get_next_unsynced_lem cfg history call.history ready)
    ∙ after-attempted p call (find_first unsynced (contents cfg history.state))
