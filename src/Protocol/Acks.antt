-- ===== src/Protocol/Acks.antt =====
-- The handlers of acknowledgements: `handleAck` with `validateAckSecurity`, and `handleNack`.
use esp32_sensor_firmware_pl.Prelude.{
  ℕ, ◌+◌, Bool, true, false, not, ◌&&◌, List, Option, none, some, ltb, leb, length, set, read_be16,
  read_le32, u8, u32, sub_u32, if◌then◌else◌,
}
use esp32_sensor_firmware_pl.History.State.{Service}
use esp32_sensor_firmware_pl.History.Sync.{mark_as_synced}
use esp32_sensor_firmware_pl.Protocol.Messages.{MessageType, msg_detection_event}
use esp32_sensor_firmware_pl.Protocol.Frame.{header_size}
use esp32_sensor_firmware_pl.Protocol.State.{
  PendingMessage, Handler, find_slot, slot_at, waits_for, release, clear_pending,
}
use esp32_sensor_firmware_pl.Protocol.World.{World, ProtocolConfig, Meeting, with_handler}

abbrev pub invalid_ack_threshold : ℕ
invalid_ack_threshold = 10

abbrev pub security_reset_window_ms : ℕ
security_reset_window_ms = 60000

abbrev pub is_found : Option ℕ → Bool
is_found none = false
is_found (some i) = true

-- An acknowledgement of nothing that waits is counted; the count starts again after a minute without
-- one, and when it reaches the threshold (`handleSecurityThresholdExceeded`).
abbrev pub count_phantom : Handler → (millis : ℕ) → Handler
count_phantom h millis =
    let old =
      if ltb security_reset_window_ms (sub_u32 millis h.last_security_event)
      then 0
      else h.invalid_ack_count in
    let count = u8 (old + 1) in
    record h {
      invalid_ack_count = if leb invalid_ack_threshold count then 0 else count;
      last_security_event = millis;
      error_count = u32 (h.error_count + 1);
    }

unfoldable pub validate_ack_security : Handler → Meeting → ℕ → Handler × Bool
validate_ack_security h m seq_num =
    if m.security_mutex && is_found (find_slot (waits_for seq_num) h.pending)
    then (h, true)
    else (count_phantom h m.millis, false)

-- The slot is given free, and the count of phantoms starts again.
abbrev pub release_acked : Handler → ℕ → Handler
release_acked h i = record h {
  pending = set h.pending i (release (slot_at h.pending i));
  invalid_ack_count = 0;
}

-- The event id, as it lies at the start of the payload.
abbrev pub event_id_of : PendingMessage → ℕ
event_id_of p = read_le32 p.frame header_size

-- After `markAsSynced`; the mutex is taken again and the slot is looked at again.
abbrev pub acked_event : World → Meeting → ℕ → ℕ → Option (Service × Bool) → Option World
acked_event w m seq_num i none = none
acked_event w m seq_num i (some (s, found)) =
    let marked = record w { history = s } in
    some (
      if m.again_mutex && waits_for seq_num (slot_at w.handler.pending i)
      then with_handler marked (release_acked w.handler i)
      else marked)

abbrev pub is_detection : MessageType → Bool
is_detection msg_detection_event = true
is_detection _ = false

module _ (cfg : ProtocolConfig) where
  -- The body of the loop of `handleAck` at the slot that waits for the number.
  abbrev pub ack_slot : World → Meeting → ℕ → Option ℕ → Option World
  ack_slot w m seq_num none = some w
  ack_slot w m seq_num (some i) =
      let p = slot_at w.handler.pending i in
      if is_detection p.msg_type
      then acked_event w m seq_num i (
          if w.handler.has_history
          then mark_as_synced cfg.history w.history (m.history 0) (event_id_of p)
          else some (w.history, false))
      else some (with_handler w (release_acked w.handler i))

  unfoldable pub handle_ack : World → Meeting → List ℕ → Option World
  unfolding validate_ack_security mark_as_synced
  handle_ack w m payload =
      let seq_num = read_be16 payload 0 in
      let (h, valid) = validate_ack_security w.handler m seq_num in
      let checked = with_handler w h in
      let done = ack_slot checked m seq_num (find_slot (waits_for seq_num) h.pending) in
      if ltb (length payload) 2
      then some w
      else if not valid
      then some checked
      else if not m.ack_mutex
      then some checked
      else done

  unfoldable pub handle_nack : World → Meeting → List ℕ → World
  unfolding clear_pending
  handle_nack w m payload =
      let cleared = (clear_pending w.handler m.nack_mutex (read_be16 payload 0)).0 in
      if ltb (length payload) 3
      then w
      else with_handler w (record cleared { error_count = u32 (cleared.error_count + 1) })
