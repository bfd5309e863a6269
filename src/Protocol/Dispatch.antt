-- ===== src/Protocol/Dispatch.antt =====
-- `dispatchMessage` and `processReceived`.
use esp32_sensor_firmware_pl.Prelude.{
  ℕ, ◌+◌, Bool, true, false, ◌&&◌, List, Option, none, some, leb, length, read_be16, u32,
  if◌then◌else◌,
}
use esp32_sensor_firmware_pl.Protocol.Messages.{
  MessageType, msg_hello, msg_ack, msg_nack, msg_heartbeat, msg_ping, msg_sleep, msg_sync_request,
  msg_set_config, msg_get_config, msg_calibrate, msg_time_sync, msg_set_wifi, msg_ota_info,
  msg_ota_start, msg_ota_data, msg_ota_commit, msg_ota_abort, msg_enter_ota_mode, msg_pairing_mode,
  msg_clear_bonds, handled_type, err_unknown_msg, err_crc_mismatch,
}
use esp32_sensor_firmware_pl.Protocol.Frame.{MessageHeader, parse_frame}
use esp32_sensor_firmware_pl.Protocol.Sending.{send_nack}
use esp32_sensor_firmware_pl.Protocol.World.{
  activity_detected, World, ProtocolConfig, Meeting, log_effect, with_handler,
}
use esp32_sensor_firmware_pl.Protocol.Handlers.{handle_hello, handle_sync_request, handle_time_sync}
use esp32_sensor_firmware_pl.Protocol.Settings.{
  handle_calibrate, handle_set_config, handle_get_config, handle_sleep_command, handle_ping,
}
use esp32_sensor_firmware_pl.Protocol.Acks.{handle_ack, handle_nack}
use esp32_sensor_firmware_pl.Protocol.Commands.{
  nack, handle_ota_info, handle_ota_start, handle_ota_data, handle_ota_commit, handle_ota_abort,
  handle_enter_ota_mode, handle_pairing_mode, handle_clear_bonds, handle_set_wifi,
}

abbrev pub is_activity_message : MessageType → Bool
is_activity_message msg_heartbeat = false
is_activity_message msg_ack = false
is_activity_message msg_nack = false
is_activity_message _ = true

module _ (cfg : ProtocolConfig) where
  -- The `switch`.
  unfoldable pub handle_message : World → Meeting → MessageType → ℕ → List ℕ → Option World
  unfolding send_nack
  handle_message w m msg_hello seq_num payload = some (handle_hello cfg w m seq_num payload)
  handle_message w m msg_ack seq_num payload = handle_ack cfg w m payload
  handle_message w m msg_nack seq_num payload = some (handle_nack cfg w m payload)
  handle_message w m msg_heartbeat seq_num payload = some w
  handle_message w m msg_ping seq_num payload = some (handle_ping cfg w m seq_num)
  handle_message w m msg_sync_request seq_num payload = handle_sync_request cfg w m seq_num payload
  handle_message w m msg_time_sync seq_num payload = handle_time_sync cfg w m seq_num payload
  handle_message w m msg_calibrate seq_num payload = some (handle_calibrate cfg w m seq_num)
  handle_message w m msg_set_config seq_num payload =
      some (handle_set_config cfg w m seq_num payload)
  handle_message w m msg_get_config seq_num payload = some (handle_get_config cfg w m seq_num)
  handle_message w m msg_sleep seq_num payload = some (handle_sleep_command cfg w m seq_num)
  handle_message w m msg_ota_info seq_num payload = some (handle_ota_info cfg w m seq_num)
  handle_message w m msg_ota_start seq_num payload = some (handle_ota_start cfg w m seq_num payload)
  handle_message w m msg_ota_data seq_num payload = some (handle_ota_data w m seq_num payload)
  handle_message w m msg_ota_commit seq_num payload = some (handle_ota_commit w m seq_num)
  handle_message w m msg_ota_abort seq_num payload = some (handle_ota_abort w m seq_num)
  handle_message w m msg_enter_ota_mode seq_num payload =
      some (handle_enter_ota_mode cfg w m seq_num)
  handle_message w m msg_pairing_mode seq_num payload = some (handle_pairing_mode w m seq_num)
  handle_message w m msg_clear_bonds seq_num payload = some (handle_clear_bonds w m seq_num)
  handle_message w m msg_set_wifi seq_num payload = some (handle_set_wifi w m seq_num payload)
  handle_message w m _ seq_num payload = some (nack w m 0 seq_num err_unknown_msg)

  unfoldable pub dispatch_message : World → Meeting → MessageType → ℕ → List ℕ → Option World
  unfolding handle_message
  dispatch_message w m type seq_num payload =
      handle_message
        (if is_activity_message type && w.handler.on_activity_detected
          then log_effect w activity_detected
          else w)
        m type seq_num payload

  abbrev pub received : World → Meeting → List ℕ → Option (MessageHeader × List ℕ) → Option World
  received w m bytes none =
      let counted = record (w.handler) { error_count = u32 (w.handler.error_count + 1) } in
      let failed = with_handler w counted in
      some (
        if leb 5 (length bytes)
        then nack failed m 0 (read_be16 bytes 3) err_crc_mismatch
        else failed)
  received w m bytes (some (header, payload)) =
      let counted =
        if m.rx_mutex
        then record (w.handler) { rx_count = u32 (w.handler.rx_count + 1) }
        else w.handler in
      dispatch_message (with_handler w counted) m (handled_type header.msg_type) header.seq_num
        payload

  unfoldable pub process_received : World → Meeting → List ℕ → Option World
  unfolding parse_frame dispatch_message send_nack handled_type
  process_received w m bytes =
      if w.handler.initialized then received w m bytes (parse_frame bytes) else some w
