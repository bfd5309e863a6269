-- ===== src/Protocol/Corrupted.antt =====
-- What `processReceived` does with a frame that arrives changed.
use esp32_sensor_firmware_pl.Protocol.Messages.{ErrorCode, err_crc_mismatch}
use esp32_sensor_firmware_pl.Protocol.State.{Handler}
use esp32_sensor_firmware_pl.Protocol.Commands.{nack}
use esp32_sensor_firmware_pl.Protocol.Sending.{SendCall, notify, send_message, send_nack}
use esp32_sensor_firmware_pl.Protocol.Frame.Corruption.{parse-set}
use esp32_sensor_firmware_pl.Protocol.Frame.{build_frame, max_payload_size}
use esp32_sensor_firmware_pl.Protocol.World.{with_handler, Meeting, World, ProtocolConfig}
use esp32_sensor_firmware_pl.Protocol.Dispatch.{received, process_received}
use esp32_sensor_firmware_pl.Prelude.{
  if_keeps, AreBytes, List, ℕ, ◌≡◌, ◌≢◌, ◌<◌, ◌≤◌, ◌+◌, length, some, byte_at, set, refl,
  Bool-cases, inl, inr, arith, ap, ◌∙◌, leb, if_true, u32, read_be16,
}

send_nack-rx :
    (h : Handler) (call : SendCall) (seq_num : ℕ) (error : ErrorCode)
    → (send_nack h call seq_num error).rx_count ≡ h.rx_count
unfolding send_nack send_message notify
send_nack-rx h call seq_num error = ground arith

-- The services and the count of frames stay as they were.
abbrev pub Leaves : World → World → Type 0
Leaves w w' =
    (w'.history ≡ w.history)
    × (w'.ota ≡ w.ota)
    × (w'.config ≡ w.config)
    × (w'.effects ≡ w.effects)
    × (w'.handler.rx_count ≡ w.handler.rx_count)

-- A frame of this protocol that arrives with one byte changed, in the header, the payload or the
-- checksum, has no effect on the services: the history, the firmware update, the configuration and the
-- calls of other parts stay as they were, and no frame counts as received.
pub process_received-set :
    (cfg : ProtocolConfig) (w : World) (m : Meeting) (type : ℕ) (payload : List ℕ) (seq_num : ℕ)
    (frame : List ℕ) (i y : ℕ)
    → type < 256
    → AreBytes payload
    → length payload ≤ max_payload_size
    → build_frame type payload seq_num ≡ some frame
    → i < length frame
    → y < 256
    → y ≢ byte_at frame i
    → (w' : World) × (process_received cfg w m (set frame i y) ≡ some w') × Leaves w w'
unfolding process_received
process_received-set cfg w m type payload seq_num frame i y ht hp small built hi hy other =
    let bad = parse-set type payload seq_num frame i y ht hp small built hi hy other in
    elim (Bool-cases w.handler.initialized) [
      | inl up ↦
          let failed =
            with_handler w (record (w.handler) { error_count = u32 (w.handler.error_count + 1) }) in
          (
            _,
            if_true w.handler.initialized _ (some w) up ∙ ap (received cfg w m (set frame i y)) bad,
            if_keeps (Leaves w) (leb 5 (length (set frame i y)))
                (nack failed m 0 (read_be16 (set frame i y) 3) err_crc_mismatch) failed
                (refl, refl, refl, refl, send_nack-rx failed.handler (m.send 0) _ err_crc_mismatch)
                (refl, refl, refl, refl, refl),
          )
      | inr down ↦ (w, rw down refl, (refl, refl, refl, refl, refl))
    ]
