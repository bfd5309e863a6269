-- ===== src/Protocol/Handlers.antt =====
-- The handlers of `ProtocolHandler`, one for each message. Where a handler goes through the ring of
-- the history, `none` is a loop there that does not end.
use esp32_sensor_firmware_pl.Prelude.{
  ℕ, zero, suc, ◌+◌, ◌++◌, Bool, true, false, not, ◌&&◌, ◌||◌, List, [], ◌∷◌, Option, none, some,
  ltb, leb, length, replicate, read_be32, read_le32, le32, u8, if◌then◌else◌,
}
use esp32_sensor_firmware_pl.Event.{DetectionEvent}
use esp32_sensor_firmware_pl.History.State.{Service}
use esp32_sensor_firmware_pl.History.Readers.{get_events_since}
use esp32_sensor_firmware_pl.History.Sync.{apply_time_sync}
use esp32_sensor_firmware_pl.History.Nvs.{fast_forward_event_id}
use esp32_sensor_firmware_pl.Configuration.State.{
  get_sensitivity, get_config_crc, get_config_signature,
}
use esp32_sensor_firmware_pl.Configuration.Changes.{update_last_known_epoch}
use esp32_sensor_firmware_pl.Protocol.Messages.{msg_hello_ack, err_invalid_payload}
use esp32_sensor_firmware_pl.Protocol.State.{Handler}
use esp32_sensor_firmware_pl.Protocol.Sending.{
  SendCall, send_message, send_ack, send_nack, send_detection_event,
}
use esp32_sensor_firmware_pl.Protocol.World.{
  time_synced, clock_set, World, ProtocolConfig, Meeting, log_effect, with_handler,
}

-- `sendAck` and `sendNack` at the given call of `sendMessage`.
abbrev pub ack : World → Meeting → ℕ → ℕ → World
ack w m k seq_num = with_handler w (send_ack w.handler (m.send k) seq_num)

module _ (cfg : ProtocolConfig) where
  -- `HelloAckPayload`, packed. The checksum, the signature, the hardware id and the two reserved
  -- bytes stand last, in the order in which `sendHelloAck` sets them.
  abbrev pub hello_ack_payload : World → Meeting → List ℕ
  hello_ack_payload w m =
      let asked = w.handler.on_get_battery_status in
      (cfg.ota.version_major ∷ cfg.ota.version_minor ∷ cfg.ota.version_patch ∷ cfg.ota.build_type
        ∷ [])
      ++ le32 0
      ++ ((if asked then m.battery_percent else 0) ∷ (if asked && m.charging then 1 else 0) ∷ [])
      ++ le32 (if w.handler.has_history then w.history.state.global_event_id else 0)
      ++ le32 m.uptime
      ++ ((if w.handler.has_ble then u8 m.bond_count else 0)
          ∷ (if m.has_config then get_sensitivity w.config else 50)
          ∷ [])
      ++ le32 (if m.has_config then get_config_crc w.config else 0)
      ++ le32 (if m.has_config then get_config_signature w.config else 0)
      ++ m.mac
      ++ replicate 2 0

  unfoldable pub send_hello_ack : World → Meeting → SendCall → Handler × Bool
  unfolding send_message
  send_hello_ack w m call = send_message w.handler call msg_hello_ack (hello_ack_payload w m) false

  -- The event id that the app reports moves the history's forward.
  abbrev pub sync_event_id : World → Meeting → List ℕ → World
  sync_event_id w m payload =
      let app_last = read_be32 payload 1 in
      if leb 5 (length payload)
        && w.handler.has_history
        && ltb w.history.state.global_event_id app_last
      then record w {
        history = (fast_forward_event_id cfg.history w.history (m.history 0) m.flush app_last).0;
      }
      else w

  unfoldable pub handle_hello : World → Meeting → ℕ → List ℕ → World
  unfolding send_hello_ack send_ack fast_forward_event_id
  handle_hello w m seq_num payload =
      let synced = sync_event_id w m payload in
      ack (with_handler synced (send_hello_ack synced m (m.send 0)).0) m 1 seq_num

  -- The body of the loop of `handleSyncRequest`: the first event after `since` in the ring.
  abbrev pub first_of : Option (Bool × List DetectionEvent) → Option (Option DetectionEvent)
  first_of none = none
  first_of (some (ok, [])) = some none
  first_of (some (ok, e ∷ es)) = some (if ok then some e else none)

  -- The rounds that are left of the ten, and the number of the next.
  unfoldable pub sync_events : ℕ → ℕ → World → Meeting → ℕ → Option World
  unfolding get_events_since send_detection_event
  sync_events zero i w m since_id = some w
  sync_events (suc n) i w m since_id =
      elim (first_of (get_events_since cfg.history w.history (m.history i) since_id 1))
        as (λ o. Option World) [
          | none ↦ none
          | some next ↦ elim next as (λ o. Option World) [
            | none ↦ some w
            | some e ↦
                let sent = send_detection_event w.handler m.millis (m.send i) e true in
                let w' = with_handler w sent.0 in
                elim sent.1 as (λ b. Option World) [
                  | true ↦ sync_events n (i + 1) w' m e.id
                  | false ↦ some w'
                ]
          ]
        ]

  abbrev pub ack_after : Meeting → ℕ → ℕ → Option World → Option World
  ack_after m k seq_num none = none
  ack_after m k seq_num (some w) = some (ack w m k seq_num)

  unfoldable pub handle_sync_request : World → Meeting → ℕ → List ℕ → Option World
  unfolding sync_events send_ack send_nack
  handle_sync_request w m seq_num payload =
      let synced = sync_events 10 0 w m (read_be32 payload 0) in
      if ltb (length payload) 4 || not w.handler.has_history
      then some (with_handler w (send_nack w.handler (m.send 0) seq_num err_invalid_payload))
      else ack_after m 10 seq_num synced

  abbrev pub with_clock : World → Option (Service × Option ℕ) → Option World
  with_clock w none = none
  with_clock w (some (s, none)) = some (record w { history = s })
  with_clock w (some (s, some seconds)) =
      some (log_effect (record w { history = s }) (clock_set seconds))

  abbrev pub time_synced_after : Meeting → ℕ → ℕ → Option World → Option World
  time_synced_after m seq_num epoch none = none
  time_synced_after m seq_num epoch (some w) =
      let stored =
        if m.has_config
        then record w { config = update_last_known_epoch w.config m.set_call epoch }
        else w in
      let told =
        if w.handler.on_time_sync_received then log_effect stored (time_synced epoch) else stored in
      some (ack told m 0 seq_num)

  -- `TimeSyncPayload` is read as it lies in memory, little-endian.
  unfoldable pub handle_time_sync : World → Meeting → ℕ → List ℕ → Option World
  unfolding apply_time_sync update_last_known_epoch send_ack send_nack
  handle_time_sync w m seq_num payload =
      let epoch = read_le32 payload 0 in
      let applied =
        if w.handler.has_history
        then with_clock w (apply_time_sync cfg.history w.history (m.history 0) epoch)
        else some w in
      if ltb (length payload) 6
      then some (with_handler w (send_nack w.handler (m.send 0) seq_num err_invalid_payload))
      else time_synced_after m seq_num epoch applied
