-- ===== src/Protocol/Replies.antt =====
-- Frames that answer a message.
use esp32_sensor_firmware_pl.Prelude.{
  ℕ, ◌≡◌, ap, ◌∙◌, true, false, List, [], ◌∷◌, ◌++◌, append_assoc, some, be16, arith,
}
use esp32_sensor_firmware_pl.Protocol.Messages.{
  MessageType, msg_ack, msg_nack, type_code, ErrorCode, error_byte,
}
use esp32_sensor_firmware_pl.Protocol.Frame.{build_frame}
use esp32_sensor_firmware_pl.Protocol.Frame.RoundTrip.{framed}
use esp32_sensor_firmware_pl.Protocol.State.{Handler}
use esp32_sensor_firmware_pl.Protocol.Sending.{notify, send_message, send_ack, send_nack}
use esp32_sensor_firmware_pl.Protocol.World.{Meeting}
use esp32_sensor_firmware_pl.Protocol.Extends.{Extends}

-- A frame that answers the message with a number: an acknowledgement of it, or a refusal.
pub data IsReply (seq_num : ℕ) (frame : List ℕ) : Type 0 where
  acks :
      (n : ℕ)
      → build_frame (type_code msg_ack) (be16 seq_num) n ≡ some frame
      → IsReply seq_num frame
  nacks :
      (n : ℕ) (error : ErrorCode)
      → build_frame (type_code msg_nack) (be16 seq_num ++ error_byte error ∷ []) n ≡ some frame
      → IsReply seq_num frame

-- Among the frames that are new there is one that answers.
pub record IsAnswered (seq_num : ℕ) (h h' : Handler) : Type 0 where
  pub before : List (List ℕ)
  pub frame : List ℕ
  pub after : List (List ℕ)
  pub sent : h'.sent ≡ h.sent ++ (before ++ frame ∷ after)
  pub answers : IsReply seq_num frame

-- The app is connected, and the BLE manager takes every frame of the reply.
pub record IsLinked (h : Handler) (m : Meeting) : Type 0 where
  pub initialized : h.initialized ≡ true
  pub has_ble : h.has_ble ≡ true
  pub connected : (k : ℕ) → (m.send k).connected ≡ true
  pub mutex_taken : (k : ℕ) → (m.send k).mutex_taken ≡ true
  pub notified : (k : ℕ) → (m.send k).notified ≡ true

pub IsLinked-Extends : (h h' : Handler) (m : Meeting) → IsLinked h m → Extends h h' → IsLinked h' m
IsLinked-Extends h h' m v e = record {
  initialized = e.initialized ∙ v.initialized;
  has_ble = e.has_ble ∙ v.has_ble;
  connected = v.connected;
  mutex_taken = v.mutex_taken;
  notified = v.notified;
}

goes_out :
    (h : Handler) (m : Meeting) (k : ℕ) (type : MessageType) (payload frame : List ℕ)
    → IsLinked h m
    → build_frame (type_code type) payload h.tx_seq_num ≡ some frame
    → (send_message h (m.send k) type payload false).0.sent ≡ h.sent ++ (frame ∷ [])
unfolding send_message notify
goes_out h m k type payload frame v built =
    ground (arith, v.connected k, v.mutex_taken k, v.notified k, v.initialized, v.has_ble)

IsAnswered-after :
    (seq_num : ℕ) (h g g' : Handler) (frame : List ℕ)
    → Extends h g
    → IsReply seq_num frame
    → g'.sent ≡ g.sent ++ (frame ∷ [])
    → IsAnswered seq_num h g'
IsAnswered-after seq_num h g g' frame e r s = record {
  before = e.added;
  frame = frame;
  after = [];
  sent = s ∙ ap (λ l. l ++ frame ∷ []) e.sent ∙ append_assoc h.sent e.added (frame ∷ []);
  answers = r;
}

pub send_ack-IsAnswered :
    (h g : Handler) (m : Meeting) (k seq_num : ℕ)
    → IsLinked h m
    → Extends h g
    → IsAnswered seq_num h (send_ack g (m.send k) seq_num)
unfolding send_ack
send_ack-IsAnswered h g m k seq_num v e =
    let built = framed (type_code msg_ack) (be16 seq_num) g.tx_seq_num (omega arith) in
    IsAnswered-after seq_num h g _ _ e (acks g.tx_seq_num built)
      (goes_out g m k msg_ack (be16 seq_num) _ (IsLinked-Extends h g m v e) built)

pub send_nack-IsAnswered :
    (h g : Handler) (m : Meeting) (k seq_num : ℕ) (error : ErrorCode)
    → IsLinked h m
    → Extends h g
    → IsAnswered seq_num h (send_nack g (m.send k) seq_num error)
unfolding send_nack
send_nack-IsAnswered h g m k seq_num error v e =
    let payload = be16 seq_num ++ error_byte error ∷ [] in
    let built = framed (type_code msg_nack) payload g.tx_seq_num (omega arith) in
    IsAnswered-after seq_num h g _ _ e (nacks g.tx_seq_num error built)
      (goes_out g m k msg_nack payload _ (IsLinked-Extends h g m v e) built)

pub IsAnswered-Extends :
    (seq_num : ℕ) (h g g' : Handler)
    → IsAnswered seq_num h g
    → Extends g g'
    → IsAnswered seq_num h g'
IsAnswered-Extends seq_num h g g' a e = record {
  before = a.before;
  frame = a.frame;
  after = a.after ++ e.added;
  sent =
      e.sent
      ∙ ap (λ l. l ++ e.added) a.sent
      ∙ append_assoc h.sent (a.before ++ a.frame ∷ a.after) e.added
      ∙ ap (λ l. h.sent ++ l) (append_assoc a.before (a.frame ∷ a.after) e.added);
  answers = a.answers;
}
