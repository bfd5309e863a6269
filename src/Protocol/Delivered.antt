-- ===== src/Protocol/Delivered.antt =====
-- A detection that is sent and acknowledged: it is marked in the history, and waits no longer.
use esp32_sensor_firmware_pl.Prelude.{
  u8, ℕ, ◌+◌, ◌^◌, ◌≤◌, ◌<◌, ◌≡◌, refl, sym, ap, subst, ◌∙◌, inl, inr, Bool, true, false, List,
  ◌++◌, some, length, update_first, set, be16, u32, if◌then◌else◌, arith,
}
use esp32_sensor_firmware_pl.Crc.{calculate_crc16}
use esp32_sensor_firmware_pl.Event.{DetectionEvent, event_bytes, set_synced}
use esp32_sensor_firmware_pl.History.Window.{contents}
use esp32_sensor_firmware_pl.History.Marking.{has_id, IsSound}
use esp32_sensor_firmware_pl.Protocol.Messages.{
  MessageType, msg_ack, msg_detection_event, type_code, handled_type,
}
use esp32_sensor_firmware_pl.Protocol.Frame.{max_payload_size, frame_body, build_frame}
use esp32_sensor_firmware_pl.Protocol.Frame.RoundTrip.{framed, parse-build}
use esp32_sensor_firmware_pl.Protocol.State.{
  PendingMessage, Handler, find_slot, slot_at, waits_for, fill_slot, release,
}
use esp32_sensor_firmware_pl.Protocol.Sending.{
  notify, SendCall, send_message, renew_window, send_detection_event,
}
use esp32_sensor_firmware_pl.Protocol.World.{World, ProtocolConfig, Meeting, with_handler}
use esp32_sensor_firmware_pl.Protocol.Acks.{event_id_of, is_detection, handle_ack}
use esp32_sensor_firmware_pl.Protocol.Dispatch.{handle_message, dispatch_message, process_received}
use esp32_sensor_firmware_pl.Protocol.Table.{waiting}
use esp32_sensor_firmware_pl.Protocol.Outcome.{IsFresh, IsTracked, send_message_lem}
use esp32_sensor_firmware_pl.Protocol.Acked.{IsServed, handle_ack-detection}

-- The event id is read where the frame holds it.
names_event :
    (seq_num millis : ℕ) (e : DetectionEvent) (frame : List ℕ) (old : PendingMessage)
    → e.id < 2 ^ 32
    → build_frame (type_code msg_detection_event) (event_bytes e) seq_num ≡ some frame
    → length (event_bytes e) ≤ max_payload_size
    → event_id_of (fill_slot seq_num msg_detection_event frame millis old) ≡ e.id
unfolding event_bytes
names_event seq_num millis e frame old small built short =
    let made = framed (type_code msg_detection_event) (event_bytes e) seq_num short in
    let whole : frame
        ≡ frame_body (type_code msg_detection_event) (event_bytes e) seq_num
          ++ be16 (
              calculate_crc16
                (frame_body (type_code msg_detection_event) (event_bytes e) seq_num)) =
      cc in
    rw whole (omega arith)

-- An acknowledgement that arrives is handed to `handleAck`, with one more frame counted.
abbrev pub counted_rx : World → Meeting → World
counted_rx w m = with_handler w (
    if m.rx_mutex
    then record (w.handler) { rx_count = u32 (w.handler.rx_count + 1) }
    else w.handler)

arrives :
    (cfg : ProtocolConfig) (w : World) (m : Meeting) (payload : List ℕ) (seq_num : ℕ)
    (bytes : List ℕ)
    → w.handler.initialized ≡ true
    → length payload ≤ max_payload_size
    → seq_num < 65536
    → build_frame (type_code msg_ack) payload seq_num ≡ some bytes
    → process_received cfg w m bytes ≡ handle_ack cfg (counted_rx w m) m payload
unfolding process_received dispatch_message handle_message handled_type type_code
arrives cfg w m payload seq_num bytes up short small built =
    let (frame, made, parsed) =
      parse-build (type_code msg_ack) payload seq_num short (omega arith) small in
    let same : bytes ≡ frame = cc in rw (up, same, parsed) refl

-- The handler once the rate limit has let a detection pass.
abbrev governed : Handler → ℕ → Bool → Handler
governed h millis bypass =
    let window = renew_window h millis in
    if bypass
    then h
    else record window { detection_event_count = u8 (window.detection_event_count + 1) }

passes :
    (h : Handler) (millis : ℕ) (call : SendCall) (e : DetectionEvent) (bypass : Bool)
    → (send_detection_event h millis call e bypass).1 ≡ true
    → let r =
        send_message (governed h millis bypass) call msg_detection_event (event_bytes e) true in
      send_detection_event h millis call e bypass ≡ (r.0, r.1, false)
unfolding send_detection_event
passes h millis call e bypass ok = ground arith

governed-same :
    (h : Handler) (millis : ℕ) (bypass : Bool)
    → let g = governed h millis bypass in
      (g.pending ≡ h.pending)
      × (g.tx_seq_num ≡ h.tx_seq_num)
      × (g.initialized ≡ h.initialized)
      × (g.has_history ≡ h.has_history)
governed-same h millis bypass = (ground arith, ground arith, ground arith, ground arith)

send_message-keeps :
    (h : Handler) (call : SendCall) (type : MessageType) (payload : List ℕ) (require_ack : Bool)
    → let r = send_message h call type payload require_ack in
      (r.0.initialized ≡ h.initialized) × (r.0.has_history ≡ h.has_history)
unfolding send_message notify
send_message-keeps h call type payload require_ack = (ground arith, ground arith)

-- What is known of a detection that `sendDetectionEvent` has sent.
record IsOut (h : Handler) (call : SendCall) (e : DetectionEvent) (h' : Handler) : Type 0 where
  start : Handler
  same_pending : start.pending ≡ h.pending
  same_number : start.tx_seq_num ≡ h.tx_seq_num
  short : length (event_bytes e) ≤ max_payload_size
  tracked : IsTracked start call msg_detection_event (event_bytes e) h'
  initialized : h'.initialized ≡ true
  has_history : h'.has_history ≡ h.has_history

send_detection_event-IsOut :
    (h : Handler) (millis : ℕ) (call : SendCall) (e : DetectionEvent) (bypass : Bool)
    → IsFresh h
    → (send_detection_event h millis call e bypass).1 ≡ true
    → IsOut h call e (send_detection_event h millis call e bypass).0
send_detection_event-IsOut h millis call e bypass fresh ok =
    let g = governed h millis bypass in
    let same = governed-same h millis bypass in
    let r = send_message g call msg_detection_event (event_bytes e) true in
    let eq = passes h millis call e bypass ok in
    let keeps = send_message-keeps g call msg_detection_event (event_bytes e) true in
    let sent : r.1 ≡ true = ap (λ (x : Handler × Bool × Bool). x.1) (sym eq) ∙ ok in
    let fresh' : IsFresh g = rw (same.0, same.1) fresh in
    let out : IsOut h call e r.0 =
      elim (send_message_lem g call msg_detection_event (event_bytes e) fresh') [
        | inl (yes_sent, up, tracked) ↦ record {
          start = g;
          same_pending = same.0;
          same_number = same.1;
          short = ground (arith, up);
          tracked = tracked;
          initialized = keeps.0 ∙ ground (arith, up);
          has_history = keeps.1 ∙ same.3;
        }
        | inr lost ↦ (let lost_not = lost.0 in absurd (cc))
      ] in
    subst (λ (x : Handler × Bool × Bool). IsOut h call e x.0) (sym eq) out

-- A detection that was sent, from a table where no message waited for its number, and whose
-- acknowledgement then arrives, where the mutexes are taken and the history is sound: the first event
-- with its id is marked as synced in the history, and no other; the messages that wait are those of
-- before; the history stays sound.
pub process_received-ack :
    (cfg : ProtocolConfig) (w : World) (m : Meeting) (millis : ℕ) (call : SendCall)
    (e : DetectionEvent) (bypass : Bool) (ack_seq : ℕ) (bytes : List ℕ)
    → IsServed cfg w m
    → IsFresh w.handler
    → w.handler.tx_seq_num < 65536
    → e.id < 2 ^ 32
    → (send_detection_event w.handler millis call e bypass).1 ≡ true
    → ack_seq < 65536
    → build_frame (type_code msg_ack) (be16 w.handler.tx_seq_num) ack_seq ≡ some bytes
    → (w' : World) × (process_received cfg
          (with_handler w (send_detection_event w.handler millis call e bypass).0)
          m
          bytes
        ≡ some w')
      × (contents cfg.history w'.history.state
          ≡ update_first (has_id e.id) set_synced (contents cfg.history w.history.state))
      × (waiting w'.handler.pending ≡ waiting w.handler.pending)
      × IsSound cfg.history w'.history
process_received-ack cfg w m millis call e bypass ack_seq bytes served fresh num id ok aseq built =
    let h = (send_detection_event w.handler millis call e bypass).0 in
    let out = send_detection_event-IsOut w.handler millis call e bypass fresh ok in
    let t = out.tracked in
    let w1 = counted_rx (with_handler w h) m in
    let same : w1.handler.pending ≡ h.pending = ground arith in
    let served' : IsServed cfg w1 m = record {
      security_mutex = served.security_mutex;
      ack_mutex = served.ack_mutex;
      again_mutex = served.again_mutex;
      has_history = ground (arith, out.has_history, served.has_history);
      ready = served.ready;
      sealed = served.sealed;
    } in
    let filled : slot_at w1.handler.pending t.slot
        ≡ fill_slot w.handler.tx_seq_num msg_detection_event t.frame call.millis t.old =
      ap (λ ms. slot_at ms t.slot) same
      ∙ t.filled
      ∙ ap (λ n. fill_slot n msg_detection_event t.frame call.millis t.old) out.same_number in
    let found : find_slot (waits_for w.handler.tx_seq_num) w1.handler.pending ≡ some t.slot =
      ap (find_slot (waits_for w.handler.tx_seq_num)) same
      ∙ ap (λ n. find_slot (waits_for n) h.pending) (sym out.same_number)
      ∙ t.found in
    let names =
      ap event_id_of filled
      ∙ names_event w.handler.tx_seq_num call.millis e t.frame t.old id
          (ap (λ n. build_frame (type_code msg_detection_event) (event_bytes e) n)
              (sym out.same_number)
            ∙ t.built)
          out.short in
    let (w', done, marked, freed, sound) =
      handle_ack-detection cfg w1 m w.handler.tx_seq_num t.slot e.id served' num found
        (ap (waits_for w.handler.tx_seq_num) filled ∙ ground arith)
        (ap (λ (p : PendingMessage). is_detection p.msg_type) filled) names in
    (
      w',
      arrives cfg (with_handler w h) m (be16 w.handler.tx_seq_num) ack_seq bytes out.initialized
            (omega arith) aseq built
          ∙ done,
      marked,
      ap (λ (g : Handler). waiting g.pending) freed
          ∙ ap (λ ms. waiting (set ms t.slot (release (slot_at ms t.slot)))) same
          ∙ t.others
          ∙ ap waiting out.same_pending,
      sound,
    )
