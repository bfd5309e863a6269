-- ===== src/Protocol/Branches.antt =====
-- Each branch of the handlers that answer.
use esp32_sensor_firmware_pl.Configuration.Changes.{set_led_brightness, set_sensitivity}
use esp32_sensor_firmware_pl.Ota.Handlers.{handle_abort, handle_info_request, handle_start}
use esp32_sensor_firmware_pl.Ota.State.{Manager}
use esp32_sensor_firmware_pl.Prelude.{
  if_keeps, drop, ◌==◌, byte_at, ℕ, refl, Bool, true, false, not, ◌&&◌, List, [], ltb, length,
}
use esp32_sensor_firmware_pl.Protocol.Messages.{
  msg_hello_ack, msg_pong, msg_config_data, ErrorCode, err_invalid_payload, err_internal,
  err_invalid_state, err_ota_failed,
}
use esp32_sensor_firmware_pl.Protocol.State.{Handler}
use esp32_sensor_firmware_pl.Protocol.Sending.{send_ack, send_nack, send_pong}
use esp32_sensor_firmware_pl.Protocol.World.{
  detections_suppressed, log_effect, World, ProtocolConfig, Meeting, with_handler,
}
use esp32_sensor_firmware_pl.Protocol.Handlers.{
  hello_ack_payload, sync_event_id, send_hello_ack, ack, handle_hello,
}
use esp32_sensor_firmware_pl.Protocol.Settings.{
  is_stale, change_config, config_accepted, send_config_data, handle_calibrate, handle_set_config,
  handle_get_config, handle_sleep_command, handle_ping,
}
use esp32_sensor_firmware_pl.Protocol.Commands.{
  after_ota, handle_ota_info, handle_ota_start, handle_ota_abort, handle_pairing_mode,
  handle_clear_bonds,
}
use esp32_sensor_firmware_pl.Protocol.Extends.{
  Extends, Extends-refl, Extends-same, Extends-trans, send_message-Extends,
  send_ota_messages-Extends,
}
use esp32_sensor_firmware_pl.Protocol.Replies.{
  IsAnswered, IsAnswered-Extends, IsLinked, send_ack-IsAnswered, send_nack-IsAnswered,
}

module _ (cfg : ProtocolConfig) (w : World) (m : Meeting) (v : IsLinked w.handler m)
    (seq_num : ℕ) where
  abbrev Answers : World → Type 0
  Answers w' = IsAnswered seq_num w.handler w'.handler

  pub acked :
      (k : ℕ) (h : Handler)
      → Extends w.handler h
      → IsAnswered seq_num w.handler (send_ack h (m.send k) seq_num)
  acked k h e = send_ack-IsAnswered w.handler h m k seq_num v e

  pub nacked :
      (k : ℕ) (h : Handler) (error : ErrorCode)
      → Extends w.handler h
      → IsAnswered seq_num w.handler (send_nack h (m.send k) seq_num error)
  nacked k h error e = send_nack-IsAnswered w.handler h m k seq_num error v e

  pub handle_ping-Answers : Answers (handle_ping cfg w m seq_num)
  unfolding handle_ping send_pong
  handle_ping-Answers = acked 1 _ (send_message-Extends w.handler (m.send 0) msg_pong [] false)

  pub handle_hello-Answers : (payload : List ℕ) → Answers (handle_hello cfg w m seq_num payload)
  unfolding handle_hello send_hello_ack
  handle_hello-Answers payload =
      let synced = sync_event_id cfg w m payload in
      let same : Extends w.handler synced.handler =
        if_keeps (λ (x : World). Extends w.handler x.handler) _ _ _ (Extends-refl w.handler)
          (Extends-refl w.handler) in
      acked 1 _ (
        Extends-trans w.handler synced.handler _ same (
          send_message-Extends synced.handler (m.send 0) msg_hello_ack
            (hello_ack_payload cfg synced m) false))

  config_data-Extends :
      (x : World) (k : ℕ) → Extends x.handler (send_config_data cfg x m (m.send k)).0
  unfolding send_config_data
  config_data-Extends x k =
      if_keeps (λ (r : Handler × Bool). Extends x.handler r.0) m.has_config _ _
        (send_message-Extends x.handler (m.send k) msg_config_data _ false) (Extends-refl x.handler)

  pub config_accepted-Answers :
      (x : World) → Extends w.handler x.handler → Answers (config_accepted cfg x m seq_num)
  config_accepted-Answers x e =
      let h = record (x.handler) { last_config_seq_num = seq_num; config_seq_initialized = true } in
      let replied = ack (with_handler x h) m 0 seq_num in
      IsAnswered-Extends seq_num w.handler replied.handler _
        (acked 0 h
          (Extends-trans w.handler x.handler h e (Extends-same x.handler h refl refl refl)))
        (config_data-Extends replied 1)

  pub change_config-Answers :
      (x : World) (config_id value : ℕ)
      → Extends w.handler x.handler
      → Answers (change_config cfg x m seq_num config_id value)
  change_config-Answers x config_id value e =
      let refused = nacked 0 x.handler err_invalid_payload e in
      if_keeps Answers (config_id == 1) _ _
        (if_keeps Answers (ltb 100 value) _ _ refused (
          config_accepted-Answers (record x { config = set_sensitivity x.config m.set_call value })
            e))
        (if_keeps Answers (config_id == 2) _ _
          (config_accepted-Answers
            (record x { config = set_led_brightness x.config m.set_call value }) e)
          refused)

  pub handle_set_config-Answers :
      (payload : List ℕ) → Answers (handle_set_config cfg w m seq_num payload)
  unfolding handle_set_config
  handle_set_config-Answers payload =
      let same = Extends-refl w.handler in
      let calmed : Extends w.handler _ =
        if_keeps (λ (x : World). Extends w.handler x.handler)
          (m.has_sensor && byte_at payload 0 == 1) (log_effect w (detections_suppressed 500)) w same
          same in
      if_keeps Answers (is_stale cfg w.handler seq_num) _ _ (acked 0 w.handler same) (
        if_keeps Answers (ltb (length payload) 4) _ _ (nacked 0 w.handler err_invalid_payload same)
          (if_keeps Answers (not m.has_config) _ _ (nacked 0 w.handler err_internal same)
            (change_config-Answers _ (byte_at payload 0) (byte_at payload 1) calmed)))

  pub handle_get_config-Answers : Answers (handle_get_config cfg w m seq_num)
  unfolding handle_get_config
  handle_get_config-Answers =
      let replied = ack w m 0 seq_num in
      IsAnswered-Extends seq_num w.handler replied.handler _
        (acked 0 w.handler (Extends-refl w.handler)) (config_data-Extends replied 1)

  pub handle_sleep_command-Answers : Answers (handle_sleep_command cfg w m seq_num)
  unfolding handle_sleep_command
  handle_sleep_command-Answers =
      let one = acked 0 w.handler (Extends-refl w.handler) in
      if_keeps Answers w.handler.on_sleep_command_received _ _ one one

  pub handle_calibrate-Answers : Answers (handle_calibrate cfg w m seq_num)
  unfolding handle_calibrate
  handle_calibrate-Answers =
      if_keeps Answers w.handler.on_calibrate_requested _ _
        (acked 1 _ (send_message-Extends w.handler (m.send 0) msg_config_data _ false))
        (acked 1 w.handler (Extends-refl w.handler))

  ota-Extends : (ota : Manager) → Extends w.handler (after_ota w m ota).handler
  ota-Extends ota = send_ota_messages-Extends w.handler m 1 (drop (length w.ota.sent) ota.sent)

  pub handle_ota_info-Answers : Answers (handle_ota_info cfg w m seq_num)
  unfolding handle_ota_info
  handle_ota_info-Answers =
      if_keeps Answers (not w.handler.has_ota) _ _
        (nacked 0 w.handler err_invalid_state (Extends-refl w.handler))
        (acked 0 _ (ota-Extends (handle_info_request cfg.ota w.ota m.ota_partition)))

  pub handle_ota_start-Answers :
      (payload : List ℕ) → Answers (handle_ota_start cfg w m seq_num payload)
  unfolding handle_ota_start
  handle_ota_start-Answers payload =
      if_keeps Answers (not w.handler.has_ota) _ _
        (nacked 0 w.handler err_invalid_state (Extends-refl w.handler))
        (if_keeps Answers (handle_start cfg.ota w.ota m.ota_start payload).1 _ _
          (acked 0 _ (ota-Extends (handle_start cfg.ota w.ota m.ota_start payload).0))
          (nacked 0 _ err_ota_failed
            (ota-Extends (handle_start cfg.ota w.ota m.ota_start payload).0)))

  pub handle_ota_abort-Answers : Answers (handle_ota_abort w m seq_num)
  unfolding handle_ota_abort
  handle_ota_abort-Answers =
      if_keeps Answers w.handler.has_ota _ _ (acked 0 _ (ota-Extends (handle_abort w.ota)))
        (acked 0 w.handler (Extends-refl w.handler))

  pub handle_pairing_mode-Answers : Answers (handle_pairing_mode w m seq_num)
  unfolding handle_pairing_mode
  handle_pairing_mode-Answers =
      if_keeps Answers (not w.handler.has_ble) _ _
        (nacked 0 w.handler err_internal (Extends-refl w.handler))
        (acked 0 w.handler (Extends-refl w.handler))

  pub handle_clear_bonds-Answers : Answers (handle_clear_bonds w m seq_num)
  unfolding handle_clear_bonds
  handle_clear_bonds-Answers =
      if_keeps Answers (not w.handler.has_ble) _ _
        (nacked 0 w.handler err_internal (Extends-refl w.handler))
        (acked 0 w.handler (Extends-refl w.handler))
