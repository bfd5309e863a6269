-- ===== src/Protocol/Sending.antt =====
-- The methods of `ProtocolHandler` that send frames, and `processRetries`.
use esp32_sensor_firmware_pl.Prelude.{
  ℕ, ◌+◌, ◌++◌, Bool, true, false, not, ◌&&◌, List, [], ◌∷◌, Option, none, some, ltb, leb, take, u8,
  u16, u32, sub_u32, be16, le16, le32, if◌then◌else◌,
}
use esp32_sensor_firmware_pl.Event.{DetectionEvent, event_bytes}
use esp32_sensor_firmware_pl.Protocol.Messages.{
  MessageType, msg_ack, msg_nack, msg_pong, msg_sleep, msg_detection_event, msg_battery_status,
  msg_device_status, type_code, ErrorCode, error_byte,
}
use esp32_sensor_firmware_pl.Protocol.Frame.{build_frame}
use esp32_sensor_firmware_pl.Protocol.State.{
  PendingMessage, Handler, track_pending_locked, clear_pending_locked, release,
}

-- What one `sendMessage` meets: the link, the mutex, whether `sendNotification` takes the frame, and
-- `millis()`.
pub record SendCall : Type 0 where
  pub connected : Bool
  pub mutex_taken : Bool
  pub notified : Bool
  pub millis : ℕ

-- `sendNotification` and what follows it.
unfoldable pub notify : Handler → SendCall → ℕ → List ℕ → Handler × Bool
unfolding clear_pending_locked
notify h call seq_num frame =
    if call.notified
    then (record h { tx_count = u32 (h.tx_count + 1); sent = h.sent ++ (frame ∷ []) }, true)
    else (
      record h {
        pending = (clear_pending_locked h.pending seq_num).0;
        error_count = u32 (h.error_count + 1);
      },
      false,
    )

abbrev pub notify_tracked :
    Handler → SendCall → ℕ → List ℕ → Option (List PendingMessage) → Handler × Bool
notify_tracked h call seq_num frame none = (h, false)
notify_tracked h call seq_num frame (some pending) =
    notify (record h { pending = pending }) call seq_num frame

abbrev pub transmit :
    Handler → SendCall → MessageType → ℕ → (require_ack : Bool) → Option (List ℕ) → Handler × Bool
transmit h call type seq_num require_ack none = (h, false)
transmit h call type seq_num require_ack (some frame) =
    if require_ack
    then notify_tracked h call seq_num frame
        (track_pending_locked h.pending seq_num type frame call.millis)
    else notify h call seq_num frame

-- The sequence number is used up though nothing may be sent.
unfoldable pub send_message :
    Handler → SendCall → MessageType → List ℕ → (require_ack : Bool) → Handler × Bool
unfolding notify
send_message h call type payload require_ack =
    if not (h.initialized && h.has_ble)
    then (h, false)
    else if not call.connected
    then (h, false)
    else if not call.mutex_taken
    then (h, false)
    else transmit (record h { tx_seq_num = u16 (h.tx_seq_num + 1) }) call type h.tx_seq_num
        require_ack (build_frame (type_code type) payload h.tx_seq_num)

unfoldable pub send_ack : Handler → SendCall → ℕ → Handler
unfolding send_message
send_ack h call seq_num = (send_message h call msg_ack (be16 seq_num) false).0

unfoldable pub send_nack : Handler → SendCall → ℕ → ErrorCode → Handler
unfolding send_message error_byte
send_nack h call seq_num error =
    (send_message h call msg_nack (be16 seq_num ++ error_byte error ∷ []) false).0

unfoldable pub send_pong : Handler → SendCall → Handler × Bool
unfolding send_message
send_pong h call = send_message h call msg_pong [] false

unfoldable pub send_sleep_notification : Handler → SendCall → Handler × Bool
unfolding send_message
send_sleep_notification h call = send_message h call msg_sleep [] false

unfoldable pub send_battery_status : Handler → SendCall → ℕ → (charging : Bool) → Handler × Bool
unfolding send_message
send_battery_status h call percent charging =
    send_message h call msg_battery_status ((percent ∷ (if charging then 1 else 0) ∷ []) ++ le16 0)
      false

-- `connected` is the check before the payload is made; `rssi` is the byte of an int8_t.
unfoldable pub send_wifi_status :
    Handler → (connected : Bool) → SendCall → (state reason rssi ip : ℕ) → Handler × Bool
unfolding send_message
send_wifi_status h connected call state reason rssi ip =
    if not (h.initialized && h.has_ble && connected)
    then (h, false)
    else send_message h call msg_device_status ((state ∷ reason ∷ rssi ∷ []) ++ le32 ip) false

abbrev pub max_detections_per_window : ℕ
max_detections_per_window = 5

abbrev pub detection_rate_window_ms : ℕ
detection_rate_window_ms = 1000

-- The rate limit before a detection is sent: a window that has gone by starts again.
abbrev pub renew_window : Handler → (millis : ℕ) → Handler
renew_window h millis =
    if ltb detection_rate_window_ms (sub_u32 millis h.detection_window_start)
    then record h { detection_window_start = millis; detection_event_count = 0 }
    else h

-- The last component tells that `suppressDetections(1000)` is called, where there is a sensor driver.
unfoldable pub send_detection_event :
    Handler
    → (millis : ℕ) → SendCall
    → DetectionEvent
    → (bypass_governor : Bool) → Handler × Bool × Bool
unfolding send_message event_bytes
send_detection_event h millis call event bypass_governor =
    let window = renew_window h millis in
    let counted = record window { detection_event_count = u8 (window.detection_event_count + 1) } in
    let allowed = if bypass_governor then h else counted in
    if not bypass_governor && leb max_detections_per_window window.detection_event_count
    then (window, false, true)
    else (let (h', ok) = send_message allowed call msg_detection_event (event_bytes event) true in
        (h', ok, false))

-- The `Timing` constants of Config.h, which is not in the repository.
pub record RetryConfig : Type 0 where
  pub ack_timeout_ms : ℕ
  pub max_retry_count : ℕ

-- What one `processRetries` meets: the link, the clock, and for each slot whether the mutex is taken
-- in time and whether `sendNotification` takes the frame.
pub record RetryCall : Type 0 where
  pub connected : Bool
  pub millis : ℕ
  pub mutex_taken : ℕ → Bool
  pub notified : ℕ → Bool

-- The members that the loop of `processRetries` changes besides the slots.
pub record RetryTotals : Type 0 where
  pub retry_count : ℕ
  pub error_count : ℕ
  pub sent : List (List ℕ)

module _ (cfg : RetryConfig) (call : RetryCall) where
  -- One round of the loop.
  unfoldable pub retry_slot : ℕ → PendingMessage → RetryTotals → PendingMessage × RetryTotals
  retry_slot i m t =
      if not (call.mutex_taken i)
      then (m, t)
      else if not m.active
      then (m, t)
      else if not (ltb cfg.ack_timeout_ms (sub_u32 call.millis m.sent_time))
      then (m, t)
      else if ltb m.retry_count cfg.max_retry_count
      then (
        record m { retry_count = u8 (m.retry_count + 1); sent_time = call.millis },
        record t {
          retry_count = u32 (t.retry_count + 1);
          sent = if call.notified i then t.sent ++ (take m.data_len m.frame ∷ []) else t.sent;
        },
      )
      else (release m, record t { error_count = u32 (t.error_count + 1) })

  unfoldable pub retry_slots :
      ℕ → List PendingMessage → RetryTotals → List PendingMessage × RetryTotals
  unfolding retry_slot
  retry_slots i [] t = ([], t)
  retry_slots i (m ∷ ms) t =
      let (m', t') = retry_slot i m t in
      let (ms', t'') = retry_slots (i + 1) ms t' in (m' ∷ ms', t'')

  unfoldable pub process_retries : Handler → Handler
  unfolding retry_slots
  process_retries h =
      let start : RetryTotals = record {
        retry_count = h.retry_count;
        error_count = h.error_count;
        sent = h.sent;
      } in
      let (pending, t) = retry_slots 0 h.pending start in
      if not (h.initialized && h.has_ble && call.connected) then h else record h {
        pending = pending;
        retry_count = t.retry_count;
        error_count = t.error_count;
        sent = t.sent;
      }
