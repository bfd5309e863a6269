-- ===== src/Protocol/Extends.antt =====
-- The frames that a method adds to those that are out.
use esp32_sensor_firmware_pl.Prelude.{
  if_keeps, u8, sub_u32, u16, ℕ, ◌+◌, ◌≡◌, refl, sym, ap, ◌∙◌, inl, inr, Bool, true, false, not,
  ◌&&◌, List, [], ◌∷◌, ◌++◌, append_assoc, append-nil, Option, none, some, ltb, leb, if◌then◌else◌,
  Bool-cases,
}
use esp32_sensor_firmware_pl.Event.{event_bytes, DetectionEvent}
use esp32_sensor_firmware_pl.Ota.State.{OtaMessage, status, data_ack, info_resp}
use esp32_sensor_firmware_pl.Protocol.Messages.{
  msg_detection_event, msg_detection_event, msg_ota_info_resp, msg_ota_data_ack, msg_ota_status,
  MessageType, type_code,
}
use esp32_sensor_firmware_pl.Protocol.Frame.{build_frame}
use esp32_sensor_firmware_pl.Protocol.State.{track_pending_locked, PendingMessage, Handler}
use esp32_sensor_firmware_pl.Protocol.Sending.{
  max_detections_per_window, notify_tracked, detection_rate_window_ms, transmit, renew_window,
  SendCall, notify, send_message, send_detection_event,
}
use esp32_sensor_firmware_pl.Protocol.World.{Meeting}
use esp32_sensor_firmware_pl.Protocol.Commands.{send_ota_message, send_ota_messages}
use esp32_sensor_firmware_pl.Protocol.Syncing.{send_events}

-- Frames are only added, and the link stays as it is.
pub record Extends (h h' : Handler) : Type 0 where
  pub added : List (List ℕ)
  pub sent : h'.sent ≡ h.sent ++ added
  pub initialized : h'.initialized ≡ h.initialized
  pub has_ble : h'.has_ble ≡ h.has_ble

pub Extends-refl : (h : Handler) → Extends h h
Extends-refl h = record {
  added = [];
  sent = sym (append-nil h.sent);
  initialized = refl;
  has_ble = refl;
}

pub Extends-trans : (a b c : Handler) → Extends a b → Extends b c → Extends a c
Extends-trans a b c f g = record {
  added = f.added ++ g.added;
  sent = g.sent ∙ ap (λ l. l ++ g.added) f.sent ∙ append_assoc a.sent f.added g.added;
  initialized = g.initialized ∙ f.initialized;
  has_ble = g.has_ble ∙ f.has_ble;
}

notify-Extends :
    (h : Handler) (call : SendCall) (n : ℕ) (frame : List ℕ) → Extends h (notify h call n frame).0
unfolding notify
notify-Extends h call n frame = elim (Bool-cases call.notified) [
  | inl t ↦ rw t (record { added = frame ∷ []; sent = refl; initialized = refl; has_ble = refl })
  | inr f ↦
      rw f
        (record { added = []; sent = sym (append-nil h.sent); initialized = refl; has_ble = refl })
]

-- Other members may change.
pub Extends-same :
    (h h' : Handler)
    → h'.sent ≡ h.sent
    → h'.initialized ≡ h.initialized
    → h'.has_ble ≡ h.has_ble
    → Extends h h'
Extends-same h h' s i b = record {
  added = [];
  sent = s ∙ sym (append-nil h.sent);
  initialized = i;
  has_ble = b;
}

abbrev Keeps : Handler → Handler × Bool → Type 0
Keeps h r = Extends h r.0

transmit-Extends :
    (h : Handler) (call : SendCall) (type : MessageType) (n : ℕ) (require_ack : Bool)
    (frame : Option (List ℕ))
    → Extends h (transmit h call type n require_ack frame).0
transmit-Extends h call type n require_ack none = Extends-refl h
transmit-Extends h call type n false (some frame) = notify-Extends h call n frame
transmit-Extends h call type n true (some frame) =
    tracked (track_pending_locked h.pending n type frame call.millis)
  where
    tracked : (o : Option (List PendingMessage)) → Extends h (notify_tracked h call n frame o).0
    tracked none = Extends-refl h
    tracked (some pending) =
        Extends-trans h (record h { pending = pending })
          (notify (record h { pending = pending }) call n frame).0
          (Extends-same h (record h { pending = pending }) refl refl refl)
          (notify-Extends (record h { pending = pending }) call n frame)

pub send_message-Extends :
    (h : Handler) (call : SendCall) (type : MessageType) (payload : List ℕ) (require_ack : Bool)
    → Extends h (send_message h call type payload require_ack).0
unfolding send_message
send_message-Extends h call type payload require_ack =
    let g = record h { tx_seq_num = u16 (h.tx_seq_num + 1) } in
    let frame = build_frame (type_code type) payload h.tx_seq_num in
    if_keeps (Keeps h) (not (h.initialized && h.has_ble)) _ _ (Extends-refl h) (
      if_keeps (Keeps h) (not call.connected) _ _ (Extends-refl h) (
        if_keeps (Keeps h) (not call.mutex_taken) _ _ (Extends-refl h) (
          Extends-trans h g (transmit g call type h.tx_seq_num require_ack frame).0
            (Extends-same h g refl refl refl)
            (transmit-Extends g call type h.tx_seq_num require_ack frame))))

pub send_detection_event-Extends :
    (h : Handler) (millis : ℕ) (call : SendCall) (e : DetectionEvent) (bypass : Bool)
    → Extends h (send_detection_event h millis call e bypass).0
unfolding send_detection_event
send_detection_event-Extends h millis call e bypass =
    let window = renew_window h millis in
    let renewed : Extends h window =
      if_keeps (Extends h) (ltb detection_rate_window_ms (sub_u32 millis h.detection_window_start))
        _ _
        (Extends-same h (record h { detection_window_start = millis; detection_event_count = 0 })
          refl refl refl)
        (Extends-refl h) in
    let counted = record window { detection_event_count = u8 (window.detection_event_count + 1) } in
    let allowed : Extends h (if bypass then h else counted) =
      if_keeps (Extends h) bypass _ _ (Extends-refl h)
        (Extends-trans h window counted renewed (Extends-same window counted refl refl refl)) in
    if_keeps (λ (r : Handler × Bool × Bool). Extends h r.0)
      (not bypass && leb max_detections_per_window window.detection_event_count) _ _ renewed
      (Extends-trans h (if bypass then h else counted) _ allowed (
        send_message-Extends (if bypass then h else counted) call msg_detection_event
          (event_bytes e) true))

pub send_events-Extends :
    (i : ℕ) (h : Handler) (m : Meeting) (es : List DetectionEvent)
    → Extends h (send_events i h m es)
unfolding send_events
send_events-Extends i h m [] = Extends-refl h
send_events-Extends i h m (e ∷ es) =
    let r = send_detection_event h m.millis (m.send i) e true in
    let one = send_detection_event-Extends h m.millis (m.send i) e true in
    elim (Bool-cases r.1) [
      | inl ok ↦
          rw (send_events, ok)
            (Extends-trans h r.0 (send_events (i + 1) r.0 m es) one
              (send_events-Extends (i + 1) r.0 m es))
      | inr lost ↦ rw (send_events, lost) one
    ]

pub send_ota_messages-Extends :
    (h : Handler) (m : Meeting) (k : ℕ) (msgs : List OtaMessage)
    → Extends h (send_ota_messages h m k msgs)
send_ota_messages-Extends h m k [] = Extends-refl h
send_ota_messages-Extends h m k (x ∷ xs) =
    Extends-trans h (send_ota_message h m k x) (send_ota_messages h m k (x ∷ xs)) (one x)
      (send_ota_messages-Extends (send_ota_message h m k x) m (k + 1) xs)
  where
    one : (y : OtaMessage) → Extends h (send_ota_message h m k y)
    one (status bytes) = send_message-Extends h (m.send k) msg_ota_status bytes false
    one (data_ack bytes) = send_message-Extends h (m.send k) msg_ota_data_ack bytes false
    one (info_resp bytes) = send_message-Extends h (m.send k) msg_ota_info_resp bytes false
