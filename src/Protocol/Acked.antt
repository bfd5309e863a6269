-- ===== src/Protocol/Acked.antt =====
-- `handleAck` for a detection that waits in a slot.
use esp32_sensor_firmware_pl.Prelude.{
  ℕ, ◌+◌, ◌*◌, ◌/◌, ◌%◌, ◌<◌, ◌≡◌, refl, ap, ◌∙◌, Bool, true, Option, some, update_first, be16,
  arith,
}
use esp32_sensor_firmware_pl.Event.{set_synced}
use esp32_sensor_firmware_pl.History.State.{Service}
use esp32_sensor_firmware_pl.History.Window.{contents}
use esp32_sensor_firmware_pl.History.Append.{IsSealed}
use esp32_sensor_firmware_pl.History.Queries.{IsReady}
use esp32_sensor_firmware_pl.History.Sync.{mark_as_synced}
use esp32_sensor_firmware_pl.History.Marking.{has_id, IsSound, mark_as_synced_lem}
use esp32_sensor_firmware_pl.Protocol.State.{Handler, find_slot, slot_at, waits_for}
use esp32_sensor_firmware_pl.Protocol.World.{World, ProtocolConfig, Meeting}
use esp32_sensor_firmware_pl.Protocol.Acks.{
  validate_ack_security, event_id_of, release_acked, is_detection, handle_ack, ack_slot,
}

-- The mutexes are taken in time, and the history is there, in bounds and under its checksum.
pub record IsServed (cfg : ProtocolConfig) (w : World) (m : Meeting) : Type 0 where
  pub security_mutex : m.security_mutex ≡ true
  pub ack_mutex : m.ack_mutex ≡ true
  pub again_mutex : m.again_mutex ≡ true
  pub has_history : w.handler.has_history ≡ true
  pub ready : IsReady cfg.history w.history (m.history 0)
  pub sealed : IsSealed cfg.history w.history.state

validated :
    (h : Handler) (m : Meeting) (seq_num slot : ℕ)
    → m.security_mutex ≡ true
    → find_slot (waits_for seq_num) h.pending ≡ some slot
    → validate_ack_security h m seq_num ≡ (h, true)
unfolding validate_ack_security
validated h m seq_num slot locked found = ground arith

marks_slot :
    (cfg : ProtocolConfig) (w : World) (m : Meeting) (seq_num slot id : ℕ) (s : Service) (b : Bool)
    → m.again_mutex ≡ true
    → w.handler.has_history ≡ true
    → waits_for seq_num (slot_at w.handler.pending slot) ≡ true
    → is_detection (slot_at w.handler.pending slot).msg_type ≡ true
    → event_id_of (slot_at w.handler.pending slot) ≡ id
    → mark_as_synced cfg.history w.history (m.history 0) id ≡ some (s, b)
    → ack_slot cfg w m seq_num (some slot)
      ≡ some (record w { history = s; handler = release_acked w.handler slot })
marks_slot cfg w m seq_num slot id s b again has waits detects names ends =
    let e = ap (λ i. mark_as_synced cfg.history w.history (m.history 0) i) names ∙ ends in
    ground arith

checked :
    (cfg : ProtocolConfig) (w : World) (m : Meeting) (seq_num slot : ℕ) (r : Option World)
    → validate_ack_security w.handler m seq_num ≡ (w.handler, true)
    → m.ack_mutex ≡ true
    → seq_num < 65536
    → find_slot (waits_for seq_num) w.handler.pending ≡ some slot
    → ack_slot cfg w m seq_num (some slot) ≡ r
    → handle_ack cfg w m (be16 seq_num) ≡ r
unfolding handle_ack
checked cfg w m seq_num slot r valid locked small found done =
    let number : seq_num / 256 % 256 * 256 + seq_num % 256 ≡ seq_num = omega arith in
    rw (number, valid, found, locked) done

-- The acknowledgement of a detection whose message is in a slot.
pub handle_ack-detection :
    (cfg : ProtocolConfig) (w : World) (m : Meeting) (seq_num slot id : ℕ)
    → IsServed cfg w m
    → seq_num < 65536
    → find_slot (waits_for seq_num) w.handler.pending ≡ some slot
    → waits_for seq_num (slot_at w.handler.pending slot) ≡ true
    → is_detection (slot_at w.handler.pending slot).msg_type ≡ true
    → event_id_of (slot_at w.handler.pending slot) ≡ id
    → (w' : World) × (handle_ack cfg w m (be16 seq_num) ≡ some w')
      × (contents cfg.history w'.history.state
          ≡ update_first (has_id id) set_synced (contents cfg.history w.history.state))
      × (w'.handler ≡ release_acked w.handler slot)
      × IsSound cfg.history w'.history
handle_ack-detection cfg w m seq_num slot id served small found waits detects names =
    let (s', ends, marked, frame, sound) =
      mark_as_synced_lem cfg.history w.history (m.history 0) id served.ready served.sealed in
    let w' : World = record w { history = s'; handler = release_acked w.handler slot } in
    let done =
      marks_slot cfg w m seq_num slot id s' _ served.again_mutex served.has_history waits detects
        names ends in
    (
      w',
      checked cfg w m seq_num slot (some w')
          (validated w.handler m seq_num slot served.security_mutex found) served.ack_mutex small
          found done,
      marked,
      refl,
      sound,
    )
