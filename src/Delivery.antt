-- ===== src/Delivery.antt =====
-- `DetectionDeliveryPump` (src/Services/DetectionDeliveryPump.cpp): one unsynced event at a time to the
-- app.
mod Rate
mod Tests
use esp32_sensor_firmware_pl.Prelude.{
  ℕ, ◌+◌, Bool, true, false, not, ◌&&◌, Option, none, some, ltb, u32, sub_u32, if◌then◌else◌,
}
use esp32_sensor_firmware_pl.Platform.{Call}
use esp32_sensor_firmware_pl.Event.{DetectionEvent}
use esp32_sensor_firmware_pl.History.State.{Config, Service}
use esp32_sensor_firmware_pl.History.Readers.{get_next_unsynced}

-- A pointer is modelled by whether it is set.
pub record Pump : Type 0 where
  pub has_ble : Bool
  pub has_history : Bool
  pub has_protocol : Bool
  pub last_attempt_ms : ℕ
  pub initialized : Bool
  pub success_count : ℕ
  pub skip_count : ℕ

unfoldable pub new : Pump
new = record {
  has_ble = false;
  has_history = false;
  has_protocol = false;
  last_attempt_ms = 0;
  initialized = false;
  success_count = 0;
  skip_count = 0;
}

unfoldable pub init : Pump → (ble history protocol : Bool) → (millis : ℕ) → Pump × Bool
init p ble history protocol millis =
    if not ble
    then (p, false)
    else if not history
    then (p, false)
    else if not protocol
    then (p, false)
    else (
      record p {
        has_ble = true;
        has_history = true;
        has_protocol = true;
        last_attempt_ms = millis;
        initialized = true;
      },
      true,
    )

-- What one `update` meets: the clock, the link, the frames that wait for an acknowledgement, the
-- history's mutex, and whether `sendDetectionEvent` succeeds.
pub record PumpCall : Type 0 where
  pub millis : ℕ
  pub connected : Bool
  pub subscribed : Bool
  pub pending_count : ℕ
  pub history : Call
  pub sends : Bool

abbrev pub min_pump_interval_ms : ℕ
min_pump_interval_ms = 150

abbrev pub max_pending_before_backoff : ℕ
max_pending_before_backoff = 8

unfoldable pub is_transport_ready : Pump → PumpCall → Bool
is_transport_ready p call = if not p.has_ble then false else call.connected && call.subscribed

unfoldable pub is_protocol_ready : Pump → PumpCall → Bool
is_protocol_ready p call =
    if not p.has_protocol then false else ltb call.pending_count max_pending_before_backoff

-- After `getNextUnsynced`: the pump, and the event handed to `sendDetectionEvent`.
abbrev pub deliver :
    Pump → (sends : Bool) → Option (Option DetectionEvent) → Option (Pump × Option DetectionEvent)
deliver p sends none = none
deliver p sends (some none) = some (p, none)
deliver p sends (some (some event)) =
    some (if sends then record p { success_count = u32 (p.success_count + 1) } else p, some event)

-- The outer `Option` is the history loop's.
unfoldable pub update : Config → Pump → Service → PumpCall → Option (Pump × Option DetectionEvent)
unfolding is_transport_ready is_protocol_ready get_next_unsynced
update cfg p history call =
    let attempt = record p { last_attempt_ms = call.millis } in
    let skip = record attempt { skip_count = u32 (p.skip_count + 1) } in
    if not p.initialized
    then some (p, none)
    else if ltb (sub_u32 call.millis p.last_attempt_ms) min_pump_interval_ms
    then some (p, none)
    else if not (is_transport_ready attempt call)
    then some (skip, none)
    else if not (is_protocol_ready attempt call)
    then some (skip, none)
    else deliver attempt call.sends (get_next_unsynced cfg history call.history)

unfoldable pub reset_stats : Pump → Pump
reset_stats p = record p { success_count = 0; skip_count = 0 }
