-- ===== src/Protocol/Answered.antt =====
-- Which messages are answered.
use esp32_sensor_firmware_pl.History.Sync.{apply_time_sync}
use esp32_sensor_firmware_pl.Configuration.Changes.{update_last_known_epoch}
use esp32_sensor_firmware_pl.Prelude.{
  if_keeps, inl, inr, if_true, if_false, if_true, select, take, ℕ, ◌≤◌, ◌≡◌, refl, ap, ◌∙◌, Bool,
  true, false, ◌&&◌, List, Option, some, ltb, length, read_be32, read_le32, if◌then◌else◌,
  Bool-cases,
}
use esp32_sensor_firmware_pl.History.Window.{contents}
use esp32_sensor_firmware_pl.History.Append.{IsSealed}
use esp32_sensor_firmware_pl.History.Numbering.{IsNumbered}
use esp32_sensor_firmware_pl.History.Backfill.{apply_time_sync_lem}
use esp32_sensor_firmware_pl.Protocol.Messages.{
  MessageType, msg_hello, msg_ack, msg_nack, msg_heartbeat, msg_ping, msg_sleep, msg_sync_request,
  msg_set_config, msg_get_config, msg_calibrate, msg_time_sync, msg_set_wifi, msg_ota_info,
  msg_ota_start, msg_ota_data, msg_ota_commit, msg_ota_abort, msg_enter_ota_mode, msg_pairing_mode,
  msg_clear_bonds, err_unknown_msg, err_invalid_payload,
}
use esp32_sensor_firmware_pl.Protocol.State.{Handler}
use esp32_sensor_firmware_pl.Protocol.World.{
  activity_detected, time_synced, clock_set, log_effect, World, ProtocolConfig, Meeting,
}
use esp32_sensor_firmware_pl.Protocol.Handlers.{
  time_synced_after, with_clock, handle_sync_request, handle_time_sync,
}
use esp32_sensor_firmware_pl.Protocol.Commands.{handle_enter_ota_mode, handle_set_wifi}
use esp32_sensor_firmware_pl.Protocol.Dispatch.{
  is_activity_message, handle_message, dispatch_message,
}
use esp32_sensor_firmware_pl.Protocol.Syncing.{Listens, newer, handle_sync_request_lem}
use esp32_sensor_firmware_pl.Protocol.Extends.{Extends, Extends-refl, send_events-Extends}
use esp32_sensor_firmware_pl.Protocol.Replies.{IsAnswered, IsLinked}
use esp32_sensor_firmware_pl.Protocol.Branches.{
  acked, nacked, handle_ping-Answers, handle_hello-Answers, handle_set_config-Answers,
  handle_get_config-Answers, handle_sleep_command-Answers, handle_calibrate-Answers,
  handle_ota_info-Answers, handle_ota_start-Answers, handle_ota_abort-Answers,
  handle_pairing_mode-Answers, handle_clear_bonds-Answers,
}

-- All but acknowledgements and refusals, heartbeats, firmware chunks (which have replies of their own)
-- and the commit of an update (after which the device restarts).
unfoldable pub wants_reply : MessageType → Bool
wants_reply msg_ack = false
wants_reply msg_nack = false
wants_reply msg_heartbeat = false
wants_reply msg_ota_data = false
wants_reply msg_ota_commit = false
wants_reply _ = true

-- The history is there, in bounds, sealed, and its events are numbered.
pub record IsBacked (cfg : ProtocolConfig) (w : World) (m : Meeting) : Type 0 where
  pub has_history : w.handler.has_history ≡ true
  pub ready : Listens cfg m w
  pub sealed : IsSealed cfg.history w.history.state
  pub numbered : IsNumbered cfg.history w.history
  pub small : cfg.history.buffer_size ≤ 65536

-- The handling ends, and answers.
abbrev pub Ends : ℕ → Handler → Option World → Type 0
Ends seq_num h o = (w' : World) × (o ≡ some w') × IsAnswered seq_num h w'.handler

module _ (cfg : ProtocolConfig) (w : World) (m : Meeting) (v : IsLinked w.handler m)
    (b : IsBacked cfg w m) (seq_num : ℕ) (payload : List ℕ) where
  handle_sync_request-Ends : Ends seq_num w.handler (handle_sync_request cfg w m seq_num payload)
  handle_sync_request-Ends =
      let events =
        take 10 (select (newer (read_be32 payload 0)) (contents cfg.history w.history.state)) in
      (
        _,
        handle_sync_request_lem cfg m w seq_num payload b.ready b.numbered b.has_history,
        if_keeps (λ (x : World). IsAnswered seq_num w.handler x.handler) (ltb (length payload) 4) _
            _ (nacked cfg w m v seq_num 0 w.handler err_invalid_payload (Extends-refl w.handler))
            (acked cfg w m v seq_num 10 _ (send_events-Extends 0 w.handler m events)),
      )

  handle_time_sync-Ends : Ends seq_num w.handler (handle_time_sync cfg w m seq_num payload)
  unfolding handle_time_sync
  handle_time_sync-Ends =
      let epoch = read_le32 payload 0 in
      let dated =
        apply_time_sync_lem cfg.history w.history (m.history 0) epoch (b.ready 0) b.sealed
          b.small in
      let same = Extends-refl w.handler in
      let applied =
        if_true w.handler.has_history
          (with_clock cfg w (apply_time_sync cfg.history w.history (m.history 0) epoch)) (some w)
          b.has_history
        ∙ ap (with_clock cfg w) dated.1 in
      let synced = log_effect (record w { history = dated.0 }) (clock_set epoch) in
      let stored =
        if m.has_config
        then record synced { config = update_last_known_epoch synced.config m.set_call epoch }
        else synced in
      let kept : Extends w.handler stored.handler =
        if_keeps (λ (x : World). Extends w.handler x.handler) m.has_config _ _ same same in
      let told : Extends w.handler _ =
        if_keeps (λ (x : World). Extends w.handler x.handler) w.handler.on_time_sync_received
          (log_effect stored (time_synced epoch)) stored kept kept in
      elim (Bool-cases (ltb (length payload) 6)) [
        | inl short ↦ (
          _,
          if_true (ltb (length payload) 6) _ _ short,
          nacked cfg w m v seq_num 0 w.handler err_invalid_payload same,
        )
        | inr full ↦ (
          _,
          if_false (ltb (length payload) 6) _ _ full
              ∙ ap (time_synced_after cfg m seq_num epoch) applied,
          acked cfg w m v seq_num 0 _ told,
        )
      ]

handle_message-Ends :
    (cfg : ProtocolConfig) (w : World) (m : Meeting) (type : MessageType) (seq_num : ℕ)
    (payload : List ℕ)
    → wants_reply type ≡ true
    → IsLinked w.handler m
    → IsBacked cfg w m
    → Ends seq_num w.handler (handle_message cfg w m type seq_num payload)
unfolding handle_message wants_reply handle_set_wifi handle_enter_ota_mode
handle_message-Ends cfg w m msg_hello n p h v b = (_, refl, handle_hello-Answers cfg w m v n p)
handle_message-Ends cfg w m msg_ack n p h v b = absurd (cc)
handle_message-Ends cfg w m msg_nack n p h v b = absurd (cc)
handle_message-Ends cfg w m msg_heartbeat n p h v b = absurd (cc)
handle_message-Ends cfg w m msg_ping n p h v b = (_, refl, handle_ping-Answers cfg w m v n)
handle_message-Ends cfg w m msg_sync_request n p h v b = handle_sync_request-Ends cfg w m v b n p
handle_message-Ends cfg w m msg_time_sync n p h v b = handle_time_sync-Ends cfg w m v b n p
handle_message-Ends cfg w m msg_calibrate n p h v b =
    (_, refl, handle_calibrate-Answers cfg w m v n)
handle_message-Ends cfg w m msg_set_config n p h v b =
    (_, refl, handle_set_config-Answers cfg w m v n p)
handle_message-Ends cfg w m msg_get_config n p h v b =
    (_, refl, handle_get_config-Answers cfg w m v n)
handle_message-Ends cfg w m msg_sleep n p h v b =
    (_, refl, handle_sleep_command-Answers cfg w m v n)
handle_message-Ends cfg w m msg_ota_info n p h v b = (_, refl, handle_ota_info-Answers cfg w m v n)
handle_message-Ends cfg w m msg_ota_start n p h v b =
    (_, refl, handle_ota_start-Answers cfg w m v n p)
handle_message-Ends cfg w m msg_ota_data n p h v b = absurd (cc)
handle_message-Ends cfg w m msg_ota_commit n p h v b = absurd (cc)
handle_message-Ends cfg w m msg_ota_abort n p h v b =
    (_, refl, handle_ota_abort-Answers cfg w m v n)
handle_message-Ends cfg w m msg_enter_ota_mode n p h v b =
    (_, refl, acked cfg w m v n 0 w.handler (Extends-refl w.handler))
handle_message-Ends cfg w m msg_pairing_mode n p h v b =
    (_, refl, handle_pairing_mode-Answers cfg w m v n)
handle_message-Ends cfg w m msg_clear_bonds n p h v b =
    (_, refl, handle_clear_bonds-Answers cfg w m v n)
handle_message-Ends cfg w m msg_set_wifi n p h v b =
    (_, refl, acked cfg w m v n 0 w.handler (Extends-refl w.handler))
handle_message-Ends cfg w m _ n p h v b =
    (_, refl, nacked cfg w m v n 0 w.handler err_unknown_msg (Extends-refl w.handler))

-- A message that is neither an acknowledgement or a refusal, nor a heartbeat, a firmware chunk or
-- the commit of an update, is handled to its end and answered. Where the app is connected, the handler's
-- mutex is taken and the BLE manager takes every frame, and the history is there, ready at every call,
-- in bounds, sealed and numbered and has at most 65536 slots, the handling ends with frames added to those that went out, one of which is an
-- acknowledgement or a refusal of the message's number.
pub dispatch_message-answers :
    (cfg : ProtocolConfig) (w : World) (m : Meeting) (type : MessageType) (seq_num : ℕ)
    (payload : List ℕ)
    → wants_reply type ≡ true
    → IsLinked w.handler m
    → IsBacked cfg w m
    → Ends seq_num w.handler (dispatch_message cfg w m type seq_num payload)
unfolding dispatch_message
dispatch_message-answers cfg w m type seq_num payload h v b =
    let backed : IsBacked cfg (log_effect w activity_detected) m = record {
      has_history = b.has_history;
      ready = b.ready;
      sealed = b.sealed;
      numbered = b.numbered;
      small = b.small;
    } in
    if_keeps (λ (x : World). Ends seq_num w.handler (handle_message cfg x m type seq_num payload))
      (is_activity_message type && w.handler.on_activity_detected) (log_effect w activity_detected)
      w (handle_message-Ends cfg (log_effect w activity_detected) m type seq_num payload h v backed)
      (handle_message-Ends cfg w m type seq_num payload h v b)
