-- ===== src/Protocol/Outcome.antt =====
-- What `sendMessage` comes to for a message that needs an acknowledgement.
use esp32_sensor_firmware_pl.Protocol.Frame.RoundTrip.{framed}
use esp32_sensor_firmware_pl.Crc.{calculate_crc16}
use esp32_sensor_firmware_pl.Prelude.{
  subst, be16, ℕ, ◌+◌, ◌<◌, ◌≡◌, refl, sym, ap, ◌∙◌, ◌⊎◌, inl, inr, Bool, true, false, ◌&&◌, List,
  [], ◌∷◌, ◌++◌, none, some, leb, ltb, length, set, u16, Bool-cases, arith,
}
use esp32_sensor_firmware_pl.Protocol.Messages.{MessageType, type_code}
use esp32_sensor_firmware_pl.Protocol.Frame.{frame_body, max_payload_size, build_frame}
use esp32_sensor_firmware_pl.Protocol.State.{
  PendingMessage, Handler, find_slot, slot_at, is_free, waits_for, fill_slot, track_pending_locked,
  release, clear_pending_locked,
}
use esp32_sensor_firmware_pl.Protocol.Sending.{SendCall, notify, send_message}
use esp32_sensor_firmware_pl.Protocol.Table.{
  waiting, find_slot-some, find_slot-set, slot_at-set, set-set, waiting-set_free,
  length-waiting_fill, find_slot-is_free,
}

-- No message waits for the number that the next frame gets.
abbrev pub IsFresh : Handler → Type 0
IsFresh h = find_slot (waits_for h.tx_seq_num) h.pending ≡ none

abbrev pub is_up : Handler → SendCall → Bool
is_up h call = h.initialized && h.has_ble && call.connected && call.mutex_taken

-- The frame is out, and its message is the one that the table finds under its number; the others are
-- those of before.
pub record IsTracked (h : Handler) (call : SendCall) (type : MessageType) (payload : List ℕ)
    (h' : Handler) : Type 0 where
  pub frame : List ℕ
  pub slot : ℕ
  pub old : PendingMessage
  pub built : build_frame (type_code type) payload h.tx_seq_num ≡ some frame
  pub sent : h'.sent ≡ h.sent ++ (frame ∷ [])
  pub found : find_slot (waits_for h.tx_seq_num) h'.pending ≡ some slot
  pub filled : slot_at h'.pending slot ≡ fill_slot h.tx_seq_num type frame call.millis old
  pub others : waiting (set h'.pending slot (release (slot_at h'.pending slot))) ≡ waiting h.pending
  pub counted : length (waiting h'.pending) ≡ length (waiting h.pending) + 1

module _ (h : Handler) (call : SendCall) (type : MessageType) (frame : List ℕ) (fresh : IsFresh h)
    (slot : ℕ) (free : find_slot is_free h.pending ≡ some slot) where
  abbrev filled_slot : PendingMessage
  filled_slot = fill_slot h.tx_seq_num type frame call.millis (slot_at h.pending slot)

  abbrev tracked_pending : List PendingMessage
  tracked_pending = set h.pending slot filled_slot

  was_free : (slot < length h.pending) × ((slot_at h.pending slot).active ≡ false)
  was_free = let f = find_slot-some is_free h.pending slot free in (f.0, ground (arith, f.1))

  waits_now : waits_for h.tx_seq_num filled_slot ≡ true
  waits_now = ground arith

  finds : find_slot (waits_for h.tx_seq_num) tracked_pending ≡ some slot
  finds =
      find_slot-set (waits_for h.tx_seq_num) h.pending slot filled_slot fresh was_free.0 waits_now

  restores :
      waiting (set tracked_pending slot (release (slot_at tracked_pending slot)))
      ≡ waiting h.pending
  restores =
      ap waiting (set-set h.pending slot filled_slot (release (slot_at tracked_pending slot)))
      ∙ waiting-set_free h.pending slot (release (slot_at tracked_pending slot)) was_free.1 refl

  takes_back : waiting (clear_pending_locked tracked_pending h.tx_seq_num).0 ≡ waiting h.pending
  unfolding clear_pending_locked
  takes_back = rw finds restores

  abbrev numbered : Handler
  numbered = record h { tx_seq_num = u16 (h.tx_seq_num + 1); pending = tracked_pending }

  reaches_notify :
      (payload : List ℕ)
      → is_up h call ≡ true
      → build_frame (type_code type) payload h.tx_seq_num ≡ some frame
      → send_message h call type payload true ≡ notify numbered call h.tx_seq_num frame
  unfolding send_message track_pending_locked
  reaches_notify payload up built = ground arith

  taken :
      (payload : List ℕ)
      → call.notified ≡ true
      → build_frame (type_code type) payload h.tx_seq_num ≡ some frame
      → ((notify numbered call h.tx_seq_num frame).1 ≡ true)
        × IsTracked h call type payload (notify numbered call h.tx_seq_num frame).0
  unfolding notify
  taken payload t built = rw t (
    refl,
    record {
      frame = frame;
      slot = slot;
      old = slot_at h.pending slot;
      built = built;
      sent = refl;
      found = finds;
      filled = slot_at-set h.pending slot filled_slot was_free.0;
      others = restores;
      counted = length-waiting_fill h.pending slot filled_slot was_free.0 was_free.1 refl;
    },
  )

  refused :
      call.notified ≡ false
      → ((notify numbered call h.tx_seq_num frame).1 ≡ false)
        × (waiting (notify numbered call h.tx_seq_num frame).0.pending ≡ waiting h.pending)
        × ((notify numbered call h.tx_seq_num frame).0.sent ≡ h.sent)
  unfolding notify
  refused t = rw t (refl, takes_back, refl)

-- A message that needs an acknowledgement, in a table of 64 slots where none waits for its number, is
-- sent exactly when the handler is initialized with a BLE manager, the app is connected, the mutex is
-- taken, the payload has at most 500 bytes, there is pending space and the BLE manager takes the
-- frame. If it is, the frame is out and its message waits under its number beside those of before; if
-- not, no frame is out and the messages that wait are those of before.
pub send_message_lem :
    (h : Handler) (call : SendCall) (type : MessageType) (payload : List ℕ)
    → IsFresh h
    → let r = send_message h call type payload true in
      ((r.1 ≡ true)
        × (is_up h call
              && leb (length payload) max_payload_size
              && ltb (length (waiting h.pending)) (length h.pending)
              && call.notified
            ≡ true)
        × IsTracked h call type payload r.0)
      ⊎ ((r.1 ≡ false)
          × (is_up h call
                && leb (length payload) max_payload_size
                && ltb (length (waiting h.pending)) (length h.pending)
                && call.notified
              ≡ false)
          × (waiting r.0.pending ≡ waiting h.pending)
          × (r.0.sent ≡ h.sent))
unfolding send_message build_frame track_pending_locked
send_message_lem h call type payload fresh = elim (find_slot-is_free h.pending) [
  | inl (n, full) ↦ inr (ground arith, ground arith, ground arith, ground arith)
  | inr (slot, free, room) ↦
      elim (Bool-cases (is_up h call && leb (length payload) max_payload_size)) [
        | inr down ↦ inr (ground arith, ground arith, ground arith, ground arith)
        | inl up ↦
            let frame =
              frame_body (type_code type) payload h.tx_seq_num
              ++ be16 (calculate_crc16 (frame_body (type_code type) payload h.tx_seq_num)) in
            let built = framed (type_code type) payload h.tx_seq_num (ground arith) in
            let e = reaches_notify h call type frame fresh slot free payload (ground arith) built in
            elim (Bool-cases call.notified) [
              | inr t ↦
                  let r = refused h call type frame fresh slot free t in
                  inr (
                    ap (λ (x : Handler × Bool). x.1) e ∙ r.0,
                    ground arith,
                    ap (λ (x : Handler × Bool). waiting x.0.pending) e ∙ r.1,
                    ap (λ (x : Handler × Bool). x.0.sent) e ∙ r.2,
                  )
              | inl t ↦
                  let r = taken h call type frame fresh slot free payload t built in
                  inl (
                    ap (λ (x : Handler × Bool). x.1) e ∙ r.0,
                    ground arith,
                    subst (λ (x : Handler × Bool). IsTracked h call type payload x.0) (sym e) r.1,
                  )
            ]
      ]
]
