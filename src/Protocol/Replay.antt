-- ===== src/Protocol/Replay.antt =====
use esp32_sensor_firmware_pl.Configuration.Changes.{set_led_brightness, set_sensitivity}
use esp32_sensor_firmware_pl.Protocol.Handlers.{ack}
use esp32_sensor_firmware_pl.Protocol.Messages.{msg_config_data, msg_ack, MessageType}
use esp32_sensor_firmware_pl.Protocol.Sending.{send_ack, SendCall, notify, send_message}
use esp32_sensor_firmware_pl.Protocol.World.{
  detections_suppressed, log_effect, with_handler, Meeting, World, ProtocolConfig,
}
use esp32_sensor_firmware_pl.Protocol.State.{clear_all_pending, reset_for_new_connection, Handler}
use esp32_sensor_firmware_pl.Protocol.Settings.{
  config_accepted, change_config, send_config_data, is_stale, handle_set_config,
}
use esp32_sensor_firmware_pl.Prelude.{
  if_keeps, sym, subst, not, if_false, if_true, be16, byte_at, false, arith, ◌≤◌, ◌&&◌, ◌%◌, ◌<◌,
  length, true, ◌-◌, leb, ◌+◌, Bool, ◌≡◌, ℕ, List,
}
-- Old packets of SET_CONFIG.

use esp32_sensor_firmware_pl.Prelude.{
  ℕ, List, Bool, true, false, ◌≡◌, ◌<◌, ◌≤◌, ◌+◌, ◌-◌, ◌%◌, ◌&&◌, ◌||◌, ◌==◌, leb, ltb, length,
  byte_at, ap, ◌∙◌, arith, if◌then◌else◌,
}

-- A packet that `handleSetConfig` carries out: a known setting in its range.
abbrev pub changes : List ℕ → Bool
changes payload =
    leb 4 (length payload)
    && (byte_at payload 0 == 1 && leb (byte_at payload 1) 100 || byte_at payload 0 == 2)

-- The number that is `k` before another.
abbrev pub before : ℕ → ℕ → ℕ
before seq_num k = (seq_num + 65536 - k) % 65536

stale_before :
    (cfg : ProtocolConfig) (h : Handler) (seq_num k : ℕ)
    → h.config_seq_initialized ≡ true
    → h.last_config_seq_num ≡ seq_num
    → seq_num < 65536
    → k ≤ 32768
    → is_stale cfg h (before seq_num k) ≡ true
stale_before cfg h seq_num k i l small old = ground arith

send_message-seq :
    (h : Handler) (call : SendCall) (type : MessageType) (payload : List ℕ)
    → let r = send_message h call type payload false in
      (r.0.last_config_seq_num ≡ h.last_config_seq_num)
      × (r.0.config_seq_initialized ≡ h.config_seq_initialized)
unfolding send_message notify
send_message-seq h call type payload = (ground arith, ground arith)

-- The last change of the settings that was carried out has this number.
record Remembers (seq_num : ℕ) (h : Handler) : Type 0 where
  last : h.last_config_seq_num ≡ seq_num
  initialized : h.config_seq_initialized ≡ true

accepted-Remembers :
    (cfg : ProtocolConfig) (w : World) (m : Meeting) (seq_num : ℕ)
    → Remembers seq_num (config_accepted cfg w m seq_num).handler
unfolding send_config_data send_ack
accepted-Remembers cfg w m seq_num =
    let h = record (w.handler) { last_config_seq_num = seq_num; config_seq_initialized = true } in
    let acked = send_message-seq h (m.send 0) msg_ack (be16 seq_num) in
    let acked_w = ack (with_handler w h) m 0 seq_num in
    let r : Remembers seq_num acked_w.handler = record { last = acked.0; initialized = acked.1 } in
    if_keeps (λ (x : Handler × Bool). Remembers seq_num x.0) m.has_config
      (send_message acked_w.handler (m.send 1) msg_config_data _ false) (acked_w.handler, false)
      (let sent = send_message-seq acked_w.handler (m.send 1) msg_config_data _ in
        record { last = sent.0 ∙ acked.0; initialized = sent.1 ∙ acked.1 })
      r

change-Remembers :
    (cfg : ProtocolConfig) (w : World) (m : Meeting) (seq_num config_id value : ℕ)
    → config_id == 1 && leb value 100 || config_id == 2 ≡ true
    → Remembers seq_num (change_config cfg w m seq_num config_id value).handler
change-Remembers cfg w m seq_num config_id value known =
    let sensitive =
      accepted-Remembers cfg (record w { config = set_sensitivity w.config m.set_call value }) m
        seq_num in
    let bright =
      accepted-Remembers cfg (record w { config = set_led_brightness w.config m.set_call value }) m
        seq_num in
    ground (arith, sensitive, bright)

set_config-Remembers :
    (cfg : ProtocolConfig) (w : World) (m : Meeting) (seq_num : ℕ) (payload : List ℕ)
    → m.has_config ≡ true
    → changes payload ≡ true
    → is_stale cfg w.handler seq_num ≡ false
    → Remembers seq_num (handle_set_config cfg w m seq_num payload).handler
unfolding handle_set_config
set_config-Remembers cfg w m seq_num payload has ch fresh =
    let known : byte_at payload 0 == 1 && leb (byte_at payload 1) 100 || byte_at payload 0 == 2
        ≡ true =
      ground arith in
    let calmed =
      if m.has_sensor && byte_at payload 0 == 1
      then log_effect w (detections_suppressed 500)
      else w in
    let changed =
      change-Remembers cfg calmed m seq_num (byte_at payload 0) (byte_at payload 1) known in
    let long : ltb (length payload) 4 ≡ false = ground arith in
    let carried : handle_set_config cfg w m seq_num payload
        ≡ change_config cfg calmed m seq_num (byte_at payload 0) (byte_at payload 1) =
      if_false (is_stale cfg w.handler seq_num) _ _ fresh
      ∙ if_false (ltb (length payload) 4) _ _ long
      ∙ if_false (not m.has_config) _ _ (ap not has) in
    subst (λ (x : World). Remembers seq_num x.handler) (sym carried) changed

reset-Remembers :
    (seq_num : ℕ) (h : Handler) (mutex_taken : Bool)
    → Remembers seq_num h
    → Remembers seq_num (reset_for_new_connection h mutex_taken)
unfolding reset_for_new_connection clear_all_pending
reset-Remembers seq_num h true r = record { last = r.last; initialized = r.initialized }
reset-Remembers seq_num h false r = record { last = r.last; initialized = r.initialized }

drops :
    (cfg : ProtocolConfig) (w : World) (m : Meeting) (seq_num k : ℕ) (payload : List ℕ)
    → Remembers seq_num w.handler
    → seq_num < 65536
    → k ≤ 32768
    → handle_set_config cfg w m (before seq_num k) payload ≡ ack w m 0 (before seq_num k)
unfolding handle_set_config
drops cfg w m seq_num k payload r small old =
    if_true (is_stale cfg w.handler (before seq_num k)) _ _
      (stale_before cfg w.handler seq_num k r.initialized r.last small old)

-- Once a change of the settings has been carried out, the same packet, and any whose number is up to
-- 32768 before its number, is acknowledged and changes nothing, whatever it holds; a new connection
-- in between makes no difference.
pub handle_set_config-stale :
    (cfg : ProtocolConfig) (w : World) (m m' : Meeting) (seq_num k : ℕ) (payload payload' : List ℕ)
    (mutex_taken : Bool)
    → m.has_config ≡ true
    → changes payload ≡ true
    → is_stale cfg w.handler seq_num ≡ false
    → seq_num < 65536
    → k ≤ 32768
    → let w1 = handle_set_config cfg w m seq_num payload in
      let w2 = with_handler w1 (reset_for_new_connection w1.handler mutex_taken) in
      let n = before seq_num k in
      (handle_set_config cfg w1 m' n payload' ≡ ack w1 m' 0 n)
      × (handle_set_config cfg w2 m' n payload' ≡ ack w2 m' 0 n)
handle_set_config-stale cfg w m m' seq_num k payload payload' mutex_taken has ch fresh small old =
    let w1 = handle_set_config cfg w m seq_num payload in
    let r = set_config-Remembers cfg w m seq_num payload has ch fresh in
    (
      drops cfg w1 m' seq_num k payload' r small old,
      drops cfg (with_handler w1 (reset_for_new_connection w1.handler mutex_taken)) m' seq_num k
          payload' (reset-Remembers seq_num w1.handler mutex_taken r) small old,
    )
