-- ===== src/Protocol/Settings.antt =====
-- The handlers of `ProtocolHandler` for calibration, the settings, sleep and ping.
use esp32_sensor_firmware_pl.Prelude.{
  ℕ, ◌+◌, ◌-◌, ◌%◌, ◌++◌, Bool, true, false, not, ◌&&◌, ◌||◌, List, ◌∷◌, ltb, leb, ◌==◌, length,
  replicate, byte_at, be16, if◌then◌else◌,
}
use esp32_sensor_firmware_pl.Configuration.State.{get_sensitivity, get_led_brightness}
use esp32_sensor_firmware_pl.Configuration.Changes.{set_sensitivity, set_led_brightness}
use esp32_sensor_firmware_pl.Protocol.Messages.{msg_config_data, err_invalid_payload, err_internal}
use esp32_sensor_firmware_pl.Protocol.State.{Handler}
use esp32_sensor_firmware_pl.Protocol.Sending.{
  SendCall, send_message, send_ack, send_nack, send_pong,
}
use esp32_sensor_firmware_pl.Protocol.World.{
  sleep_commanded, detections_suppressed, World, ProtocolConfig, Meeting, log_effect, with_handler,
}
use esp32_sensor_firmware_pl.Protocol.Handlers.{ack}

module _ (cfg : ProtocolConfig) where
  -- Where the callback is set. The source names its second threshold `detectionThresh` here, which it
  -- does not declare; it is taken to be `hitThresh`.
  unfoldable pub handle_calibrate : World → Meeting → ℕ → World
  unfolding send_message send_ack
  handle_calibrate w m seq_num =
      if w.handler.on_calibrate_requested
      then ack
          (with_handler w
            (send_message w.handler (m.send 0) msg_config_data
              (be16 m.wake_threshold ++ be16 m.hit_threshold) false).0)
          m 1 seq_num
      else ack w m 1 seq_num

  unfoldable pub send_config_data : World → Meeting → SendCall → Handler × Bool
  unfolding send_message
  send_config_data w m call =
      if m.has_config
      then send_message w.handler call msg_config_data
          (get_sensitivity w.config ∷ get_led_brightness w.config ∷ replicate 2 0) false
      else (w.handler, false)

  -- `(int16_t)(seqNum - last) <= 0`.
  abbrev pub is_stale : Handler → ℕ → Bool
  is_stale h seq_num =
      let diff = (seq_num + 65536 - h.last_config_seq_num) % 65536 in
      h.config_seq_initialized && (diff == 0 || leb 32768 diff)

  -- The end of `handleSetConfig`.
  abbrev pub config_accepted : World → Meeting → ℕ → World
  config_accepted w m seq_num =
      let h = record (w.handler) { last_config_seq_num = seq_num; config_seq_initialized = true } in
      let acked = ack (with_handler w h) m 0 seq_num in
      with_handler acked (send_config_data acked m (m.send 1)).0

  -- The `switch` on the config id.
  abbrev pub change_config : World → Meeting → ℕ → ℕ → ℕ → World
  change_config w m seq_num config_id value =
      let refused = with_handler w (send_nack w.handler (m.send 0) seq_num err_invalid_payload) in
      if config_id == 1
      then (if ltb 100 value
          then refused
          else config_accepted (record w { config = set_sensitivity w.config m.set_call value }) m
              seq_num)
      else if config_id == 2
      then config_accepted (record w { config = set_led_brightness w.config m.set_call value }) m
          seq_num
      else refused

  unfoldable pub handle_set_config : World → Meeting → ℕ → List ℕ → World
  unfolding send_ack send_nack send_config_data set_sensitivity set_led_brightness
  handle_set_config w m seq_num payload =
      let config_id = byte_at payload 0 in
      let calmed =
        if m.has_sensor && config_id == 1 then log_effect w (detections_suppressed 500) else w in
      if is_stale w.handler seq_num
      then ack w m 0 seq_num
      else if ltb (length payload) 4
      then with_handler w (send_nack w.handler (m.send 0) seq_num err_invalid_payload)
      else if not m.has_config
      then with_handler w (send_nack w.handler (m.send 0) seq_num err_internal)
      else change_config calmed m seq_num config_id (byte_at payload 1)

  unfoldable pub handle_get_config : World → Meeting → ℕ → World
  unfolding send_ack send_config_data
  handle_get_config w m seq_num =
      let acked = ack w m 0 seq_num in with_handler acked (send_config_data acked m (m.send 1)).0

  unfoldable pub handle_sleep_command : World → Meeting → ℕ → World
  unfolding send_ack
  handle_sleep_command w m seq_num =
      let acked = ack w m 0 seq_num in
      if w.handler.on_sleep_command_received then log_effect acked sleep_commanded else acked

  unfoldable pub handle_ping : World → Meeting → ℕ → World
  unfolding send_pong send_ack
  handle_ping w m seq_num = ack (with_handler w (send_pong w.handler (m.send 0)).0) m 1 seq_num
