-- ===== src/Protocol/Commands.antt =====
-- The handlers of `ProtocolHandler` for firmware updates, pairing and the flasher mode.
use esp32_sensor_firmware_pl.Prelude.{
  ℕ, ◌+◌, Bool, false, not, ◌||◌, List, [], ◌∷◌, ltb, length, drop, read_be16, if◌then◌else◌,
}
use esp32_sensor_firmware_pl.Ota.State.{Manager, OtaMessage, status, data_ack, info_resp}
use esp32_sensor_firmware_pl.Ota.Handlers.{
  Chunk, handle_start, handle_data, handle_commit, handle_abort, handle_info_request,
}
use esp32_sensor_firmware_pl.Protocol.Messages.{
  msg_ota_status, msg_ota_data_ack, msg_ota_info_resp, ErrorCode, err_internal, err_invalid_state,
  err_ota_failed,
}
use esp32_sensor_firmware_pl.Protocol.State.{Handler}
use esp32_sensor_firmware_pl.Protocol.Sending.{send_message, send_ack, send_nack}
use esp32_sensor_firmware_pl.Protocol.World.{
  pairing_enabled, bonds_deleted, restart, boot_flags, World, ProtocolConfig, Meeting, log_effect,
  with_handler,
}
use esp32_sensor_firmware_pl.Protocol.Handlers.{ack}

abbrev pub nack : World → Meeting → ℕ → ℕ → ErrorCode → World
nack w m k seq_num error = with_handler w (send_nack w.handler (m.send k) seq_num error)

-- A message of the update manager goes out through `sendMessage`.
abbrev pub send_ota_message : Handler → Meeting → ℕ → OtaMessage → Handler
send_ota_message h m k (status bytes) = (send_message h (m.send k) msg_ota_status bytes false).0
send_ota_message h m k (data_ack bytes) = (send_message h (m.send k) msg_ota_data_ack bytes false).0
send_ota_message h m k (info_resp bytes) =
    (send_message h (m.send k) msg_ota_info_resp bytes false).0

abbrev pub send_ota_messages : Handler → Meeting → ℕ → List OtaMessage → Handler
send_ota_messages h m k [] = h
send_ota_messages h m k (x ∷ xs) = send_ota_messages (send_ota_message h m k x) m (k + 1) xs

-- The update manager's new state, and what it has sent in the call, from the second call of
-- `sendMessage` on; the first is the reply's.
abbrev pub after_ota : World → Meeting → Manager → World
after_ota w m ota = record w {
  ota = ota;
  handler = send_ota_messages w.handler m 1 (drop (length w.ota.sent) ota.sent);
}

abbrev pub reply : World → Meeting → ℕ → (ok : Bool) → World
reply w m seq_num ok = if ok then ack w m 0 seq_num else nack w m 0 seq_num err_ota_failed

module _ (cfg : ProtocolConfig) where
  unfoldable pub handle_ota_info : World → Meeting → ℕ → World
  unfolding handle_info_request send_message send_ack send_nack
  handle_ota_info w m seq_num =
      if not w.handler.has_ota
      then nack w m 0 seq_num err_invalid_state
      else ack (after_ota w m (handle_info_request cfg.ota w.ota m.ota_partition)) m 0 seq_num

  unfoldable pub handle_ota_start : World → Meeting → ℕ → List ℕ → World
  unfolding handle_start send_message send_ack send_nack
  handle_ota_start w m seq_num payload =
      let started = handle_start cfg.ota w.ota m.ota_start payload in
      if not w.handler.has_ota
      then nack w m 0 seq_num err_invalid_state
      else reply (after_ota w m started.0) m seq_num started.1

unfoldable pub handle_ota_data : World → Meeting → ℕ → List ℕ → World
unfolding handle_data send_message send_nack
handle_ota_data w m seq_num payload =
    let chunk : Chunk = record {
      index = read_be16 payload 0;
      payload = drop 2 payload;
      written = m.ota_written;
      millis = m.millis;
    } in
    if not w.handler.has_ota || ltb (length payload) 2
    then nack w m 0 seq_num err_invalid_state
    else after_ota w m (handle_data w.ota chunk).0

-- After a commit that succeeds the device has restarted, and nothing more is sent.
unfoldable pub handle_ota_commit : World → Meeting → ℕ → World
unfolding handle_commit send_message send_nack
handle_ota_commit w m seq_num =
    let committed = handle_commit w.ota m.ota_ends in
    if not w.handler.has_ota
    then nack w m 0 seq_num err_invalid_state
    else if committed.1
    then after_ota w m committed.0
    else nack (after_ota w m committed.0) m 0 seq_num err_ota_failed

unfoldable pub handle_ota_abort : World → Meeting → ℕ → World
unfolding handle_abort send_message send_ack
handle_ota_abort w m seq_num =
    if w.handler.has_ota
    then ack (after_ota w m (handle_abort w.ota)) m 0 seq_num
    else ack w m 0 seq_num

-- The device restarts into the flasher mode.
unfoldable pub handle_enter_ota_mode : ProtocolConfig → World → Meeting → ℕ → World
unfolding send_ack
handle_enter_ota_mode cfg w m seq_num =
    log_effect (log_effect (ack w m 0 seq_num) (boot_flags cfg.rtc_magic_key cfg.mode_flasher))
      restart

unfoldable pub handle_pairing_mode : World → Meeting → ℕ → World
unfolding send_ack send_nack
handle_pairing_mode w m seq_num =
    if not w.handler.has_ble
    then nack w m 0 seq_num err_internal
    else ack (log_effect w pairing_enabled) m 0 seq_num

unfoldable pub handle_clear_bonds : World → Meeting → ℕ → World
unfolding send_ack send_nack
handle_clear_bonds w m seq_num =
    if not w.handler.has_ble
    then nack w m 0 seq_num err_internal
    else ack (log_effect (log_effect w bonds_deleted) pairing_enabled) m 0 seq_num

-- The credentials are not looked at: the method returns after the acknowledgement.
unfoldable pub handle_set_wifi : World → Meeting → ℕ → List ℕ → World
unfolding send_ack
handle_set_wifi w m seq_num payload = ack w m 0 seq_num
