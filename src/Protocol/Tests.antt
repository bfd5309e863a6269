-- ===== src/Protocol/Tests.antt =====
-- The theorems on the protocol handler at the sample world.
use esp32_sensor_firmware_pl.Protocol.Delivered.{process_received-ack}
use esp32_sensor_firmware_pl.History.Marking.{IsSound, has_id}
use esp32_sensor_firmware_pl.Event.{event_bytes, set_synced, zero_event, DetectionEvent}
use esp32_sensor_firmware_pl.Protocol.Answered.{dispatch_message-answers, Ends, wants_reply}
use esp32_sensor_firmware_pl.Protocol.Replay.{handle_set_config-stale}
use esp32_sensor_firmware_pl.Protocol.Outcome.{send_message_lem, IsTracked, is_up}
use esp32_sensor_firmware_pl.Protocol.Corrupted.{process_received-set, Leaves}
use esp32_sensor_firmware_pl.Protocol.Handlers.{ack, handle_sync_request}
use esp32_sensor_firmware_pl.Protocol.Frame.RoundTrip.{parse-build, framed}
use esp32_sensor_firmware_pl.Protocol.Dispatch.{dispatch_message, process_received}
use esp32_sensor_firmware_pl.Protocol.Messages.{
  msg_time_sync, msg_ack, err_invalid_payload, msg_detection_event, msg_pong, type_code,
}
use esp32_sensor_firmware_pl.Protocol.Samples.{
  handler, world-IsServed, world-IsLinked, world-IsBacked, world-IsFresh, send_call, meeting, world,
  cfg,
}
use esp32_sensor_firmware_pl.History.Window.{contents}
use esp32_sensor_firmware_pl.Crc.{calculate_crc16}
use esp32_sensor_firmware_pl.Protocol.State.{
  find_free_slot, track_pending_locked, reset_for_new_connection, empty_message, PendingMessage,
  Handler,
}
use esp32_sensor_firmware_pl.Protocol.Syncing.{handle_sync_request_lem, send_events, newer}
use esp32_sensor_firmware_pl.Protocol.Settings.{is_stale, handle_set_config}
use esp32_sensor_firmware_pl.Protocol.Retries.{run_retries-gives_up, run_retries}
use esp32_sensor_firmware_pl.Protocol.Frame.{
  protocol_version, sof, frame_body, parse_frame, build_frame, max_payload_size,
}
use esp32_sensor_firmware_pl.Protocol.World.{with_handler, World}
use esp32_sensor_firmware_pl.Protocol.Sending.{
  notify, send_detection_event, send_nack, send_message, RetryCall, RetryConfig,
}
use esp32_sensor_firmware_pl.Protocol.Table.{waiting}
use esp32_sensor_firmware_pl.Prelude.{
  ℕ, ◌≡◌, ◌<◌, refl, inr, true, false, [], ◌∷◌, ◌++◌, some, arith, List, be16, length, ltb, leb,
  if◌then◌else◌, take, select, read_be32, update_first, set, ◌&&◌, ◌⊎◌,
}

abbrev pong_body : List ℕ
pong_body = frame_body (type_code msg_pong) [] 7

abbrev pong_frame : List ℕ
pong_frame = pong_body ++ be16 (calculate_crc16 pong_body)

pong_built : build_frame (type_code msg_pong) [] 7 ≡ some pong_frame
pong_built = framed (type_code msg_pong) [] 7 (omega arith)

parse-build_example :
    (frame : List ℕ) × (build_frame 16 (3 ∷ 4 ∷ []) 258 ≡ some frame)
    × (parse_frame frame
        ≡ some (
          record {
            sof_byte = sof;
            msg_type = 16;
            version = protocol_version;
            seq_num = 258;
            payload_length = 2;
          },
          3 ∷ 4 ∷ [],
        ))
parse-build_example = parse-build 16 (3 ∷ 4 ∷ []) 258 (omega arith) (omega arith) (omega arith)

pong_small : type_code msg_pong < 256
unfolding type_code
pong_small = omega arith

process_received-set_example :
    (w' : World) × (process_received cfg world meeting (set pong_frame 4 8) ≡ some w')
    × Leaves world w'
process_received-set_example =
    process_received-set cfg world meeting (type_code msg_pong) [] 7 pong_frame 4 8 pong_small tt
      (omega arith) pong_built (omega arith) (omega arith) (λ e. omega (arith, e))

send_message_lem_example :
    let r = send_message world.handler send_call msg_detection_event (1 ∷ []) true in
    ((r.1 ≡ true)
      × (is_up world.handler send_call
            && leb 1 max_payload_size
            && ltb (length (waiting world.handler.pending)) (length world.handler.pending)
            && true
          ≡ true)
      × IsTracked world.handler send_call msg_detection_event (1 ∷ []) r.0)
    ⊎ ((r.1 ≡ false)
        × (is_up world.handler send_call
              && leb 1 max_payload_size
              && ltb (length (waiting world.handler.pending)) (length world.handler.pending)
              && true
            ≡ false)
        × (waiting r.0.pending ≡ waiting world.handler.pending)
        × (r.0.sent ≡ world.handler.sent))
send_message_lem_example =
    send_message_lem world.handler send_call msg_detection_event (1 ∷ []) world-IsFresh

-- A table where one message waits.
abbrev waiting_message : PendingMessage
waiting_message = record empty_message { active = true; seq_num = 5; data_len = 9 }

abbrev waiting_handler : Handler
waiting_handler = record handler { pending = waiting_message ∷ [] }

abbrev retry_cfg : RetryConfig
retry_cfg = record { ack_timeout_ms = 2000; max_retry_count = 2 }

abbrev round : ℕ → RetryCall
round t = record { connected = true; millis = t; mutex_taken = λ k. true; notified = λ k. true }

run_retries-gives_up_example :
    waiting
      (run_retries retry_cfg (round 3000 ∷ round 6000 ∷ round 9000 ∷ []) waiting_handler).pending
    ≡ []
run_retries-gives_up_example =
    run_retries-gives_up retry_cfg (omega arith) (round 3000) (round 6000 ∷ round 9000 ∷ [])
      waiting_handler refl refl (refl, λ k. refl) (inr (omega arith), tt)
      ((refl, λ k. refl), omega arith, ((refl, λ k. refl), omega arith, tt)) (omega arith)

sync_payload : List ℕ
sync_payload = 0 ∷ 0 ∷ 0 ∷ 4 ∷ []

handle_sync_request_lem_example :
    let events =
      take 10
        (select (newer (read_be32 sync_payload 0)) (contents cfg.history world.history.state)) in
    handle_sync_request cfg world meeting 9 sync_payload
    ≡ some (
        if ltb (length sync_payload) 4
        then with_handler world (send_nack world.handler send_call 9 err_invalid_payload)
        else ack (with_handler world (send_events 0 world.handler meeting events)) meeting 10 9)
handle_sync_request_lem_example =
    handle_sync_request_lem cfg meeting world 9 sync_payload world-IsBacked.ready
      world-IsBacked.numbered world-IsBacked.has_history

wants_time_sync : wants_reply msg_time_sync ≡ true
unfolding wants_reply
wants_time_sync = refl

dispatch_message-answers_example :
    Ends 9 world.handler (dispatch_message cfg world meeting msg_time_sync 9 (1 ∷ 2 ∷ []))
dispatch_message-answers_example =
    dispatch_message-answers cfg world meeting msg_time_sync 9 (1 ∷ 2 ∷ []) wants_time_sync
      world-IsLinked world-IsBacked

not_stale : is_stale cfg world.handler 40 ≡ false
unfolding world
not_stale = refl

handle_set_config-stale_example :
    let w1 = handle_set_config cfg world meeting 40 (1 ∷ 60 ∷ 0 ∷ 0 ∷ []) in
    let w2 = with_handler w1 (reset_for_new_connection w1.handler true) in
    (handle_set_config cfg w1 meeting 1 (1 ∷ 70 ∷ 0 ∷ 0 ∷ []) ≡ ack w1 meeting 0 1)
    × (handle_set_config cfg w2 meeting 1 (1 ∷ 70 ∷ 0 ∷ 0 ∷ []) ≡ ack w2 meeting 0 1)
handle_set_config-stale_example =
    handle_set_config-stale cfg world meeting meeting 40 39 (1 ∷ 60 ∷ 0 ∷ 0 ∷ [])
      (1 ∷ 70 ∷ 0 ∷ 0 ∷ []) true refl refl not_stale (omega arith) (omega arith)

-- The newer event of the sample history, and the acknowledgement that answers its frame.
abbrev newest : DetectionEvent
newest = record zero_event { id = 5; timestamp_ms = 5000; boot_count = 1 }

newest_sent : (send_detection_event world.handler 100 send_call newest true).1 ≡ true
unfolding send_detection_event send_message notify build_frame track_pending_locked find_free_slot
    world event_bytes
newest_sent = refl

first_number : world.handler.tx_seq_num ≡ 0
unfolding world
first_number = refl

abbrev ack_body : List ℕ
ack_body = frame_body (type_code msg_ack) (be16 world.handler.tx_seq_num) 3

process_received-ack_example :
    let sent = (send_detection_event world.handler 100 send_call newest true).0 in
    (w' : World) × (process_received cfg
        (with_handler world sent)
        meeting
        (ack_body ++ be16 (calculate_crc16 ack_body))
      ≡ some w')
    × (contents cfg.history w'.history.state
        ≡ update_first (has_id 5) set_synced (contents cfg.history world.history.state))
    × (waiting w'.handler.pending ≡ waiting world.handler.pending)
    × IsSound cfg.history w'.history
process_received-ack_example =
    process_received-ack cfg world meeting 100 send_call newest true 3
      (ack_body ++ be16 (calculate_crc16 ack_body)) world-IsServed world-IsFresh
      (omega (arith, first_number)) (omega arith) newest_sent (omega arith)
      (framed (type_code msg_ack) (be16 world.handler.tx_seq_num) 3 (omega arith))
