-- ===== src/Network/Radio.antt =====
-- When the radio is on, and what the status callback is told.
use esp32_sensor_firmware_pl.Network.Wifi.{
  pass_max_length, has_credentials, ssid_max_length, is_busy, connect_timeout_ms, is_up,
  while_connecting, WlStatus, handle_connection_timeout, update_state, handle_connected,
  clear_credentials, shutdown, start_connection, update, handle_disconnected, fail, call_radio,
  set_credentials, WifiCall, connected, notify_status, connect, connecting, is_error, tell_change,
  error_reason, Wifi, Status, WifiState, Reasons, RadioCall,
}
use esp32_sensor_firmware_pl.Network.Wifi.{
  begin, disconnect, disconnect_off, mode_off, mode_sta, wifi_disabled, disconnected, connecting,
  connected, wifi_error, wl_connected, wl_connect_failed, wl_no_ssid_avail, wl_other,
}
use esp32_sensor_firmware_pl.Prelude.{
  if_keeps, if_split, if_true, if_false, subst, length, ltb, sub_u32, ◌%◌, ◌&&◌, ℕ, Bool, true,
  false, not, List, [], ◌∷◌, ◌++◌, ◌≡◌, ◌≢◌, refl, sym, ap, ◌∙◌, arith, if◌then◌else◌, ◌==◌,
}

-- What a call of the library does to the radio.
abbrev pub radio_step : Bool → RadioCall → Bool
radio_step on disconnect = on
radio_step on disconnect_off = false
radio_step on mode_off = false
radio_step on mode_sta = true
radio_step on (begin ssid password) = on

abbrev pub radio_after : Bool → List RadioCall → Bool
radio_after on [] = on
radio_after on (c ∷ cs) = radio_after (radio_step on c) cs

-- The radio is off at first.
abbrev pub radio_on : Wifi → Bool
radio_on w = radio_after false w.radio

abbrev pub uses_radio : WifiState → Bool
uses_radio connecting = true
uses_radio connected = true
uses_radio wifi_error = true
uses_radio _ = false

pub radio_after-append :
    (on : Bool) (cs : List RadioCall) (c : RadioCall)
    → radio_after on (cs ++ (c ∷ [])) ≡ radio_step (radio_after on cs) c
radio_after-append on [] c = refl
radio_after-append on (d ∷ cs) c = radio_after-append (radio_step on d) cs c

-- An error is reported with the reason 255.
abbrev pub AreVague : List Status → Type 0
AreVague [] = Unit {0}
AreVague (s ∷ ss) = ((is_error s.state ≡ true) → s.reason ≡ 255) × AreVague ss

AreVague-append :
    (ss : List Status) (s : Status)
    → AreVague ss
    → (is_error s.state ≡ true → s.reason ≡ 255)
    → AreVague (ss ++ (s ∷ []))
AreVague-append [] s v h = (h, tt)
AreVague-append (t ∷ ss) s v h = (v.0, AreVague-append ss s v.1 h)

-- The radio is on exactly in CONNECTING, CONNECTED and WIFI_ERROR; no error has a known reason.
pub record IsTuned (w : Wifi) : Type 0 where
  pub radio : radio_on w ≡ uses_radio w.state
  pub reason : w.last_disconnect_reason ≡ 0
  pub vague : AreVague w.statuses

-- No reason of the library is 0.
pub record AreReasons (reasons : Reasons) : Type 0 where
  pub auth_fail : reasons.auth_fail ≢ 0
  pub handshake_timeout : reasons.handshake_timeout ≢ 0
  pub no_ap_found : reasons.no_ap_found ≢ 0

IsTuned-tell_change : (w : Wifi) (up : Bool) → IsTuned w → IsTuned (tell_change w up)
IsTuned-tell_change w up v =
    if_keeps IsTuned w.has_connection_callback (record w { changes = w.changes ++ (up ∷ []) }) w
      (record { radio = v.radio; reason = v.reason; vague = v.vague }) v

module _ (reasons : Reasons) (known : AreReasons reasons) where
  unknown : (n : ℕ) → n ≡ 0 → error_reason reasons n ≡ 255
  unknown n z = ground (arith, known.auth_fail, known.handshake_timeout, known.no_ap_found)

  notify_status-IsTuned :
      (w : Wifi) (call : WifiCall) → IsTuned w → IsTuned (notify_status reasons w call)
  unfolding notify_status
  notify_status-IsTuned w call v =
      if_keeps IsTuned w.has_status_callback _ w
        (record {
          radio = v.radio;
          reason = v.reason;
          vague =
              AreVague-append w.statuses _ v.vague
                (λ e. rw e (unknown w.last_disconnect_reason v.reason));
        })
        v

  -- A change of the state that leaves the radio as it is.
  moved :
      (w w' : Wifi)
      → IsTuned w
      → radio_on w' ≡ uses_radio w'.state
      → w'.last_disconnect_reason ≡ w.last_disconnect_reason
      → w'.statuses ≡ w.statuses
      → IsTuned w'
  moved w w' v on same told = record {
    radio = on;
    reason = same ∙ v.reason;
    vague = subst AreVague (sym told) v.vague;
  }

  -- A connection is begun from any state.
  connect-IsTuned :
      (w : Wifi) (call : WifiCall)
      → length w.ssid == 0 ≡ false
      → w.last_disconnect_reason ≡ 0
      → AreVague w.statuses
      → IsTuned (connect reasons w call)
  unfolding connect
  connect-IsTuned w call named z v =
      let started = record (call_radio w mode_sta) {
        state = connecting;
        connection_start_time = call.millis;
        last_connection_attempt = call.millis;
        retry_count = 0;
      } in
      let tuned : IsTuned started = record {
        radio = radio_after-append false w.radio mode_sta;
        reason = z;
        vague = v;
      } in
      let told = notify_status-IsTuned started call tuned in
      let begun : IsTuned
          (call_radio (notify_status reasons started call) (begin w.ssid w.password)) =
        moved (notify_status reasons started call) _ told
          (radio_after-append false (notify_status reasons started call).radio
              (begin w.ssid w.password)
            ∙ told.radio)
          refl refl in
      subst IsTuned
        (sym (if_false (length w.ssid == 0) (record w { state = wifi_disabled }) _ named)) begun

  fail-IsTuned :
      (w : Wifi) (call : WifiCall)
      → IsTuned w
      → uses_radio w.state ≡ true
      → IsTuned (fail reasons w call)
  fail-IsTuned w call v on =
      let failed = record w { state = wifi_error; last_connection_attempt = call.millis } in
      IsTuned-tell_change (notify_status reasons failed call) false
        (notify_status-IsTuned failed call (moved w failed v (v.radio ∙ on) refl refl))

  disconnect-IsTuned : (w : Wifi) → IsTuned w → IsTuned (call_radio w disconnect)
  disconnect-IsTuned w v =
      moved w (call_radio w disconnect) v (radio_after-append false w.radio disconnect ∙ v.radio)
        refl refl

  handle_connected-IsTuned :
      (w : Wifi) (call : WifiCall)
      → IsTuned w
      → radio_on w ≡ true
      → IsTuned (handle_connected reasons w call)
  unfolding handle_connected
  handle_connected-IsTuned w call v on =
      let up = record w { state = connected; retry_count = 0 } in
      IsTuned-tell_change (notify_status reasons up call) true
        (notify_status-IsTuned up call (moved w up v on refl refl))

  while_connecting-IsTuned :
      (w : Wifi) (call : WifiCall) (status : WlStatus)
      → IsTuned w
      → uses_radio w.state ≡ true
      → IsTuned (while_connecting reasons w call status)
  unfolding handle_disconnected handle_connection_timeout
  while_connecting-IsTuned w call wl_connected v on =
      handle_connected-IsTuned w call v (v.radio ∙ on)
  while_connecting-IsTuned w call wl_connect_failed v on =
      if_keeps IsTuned (ltb connect_timeout_ms (sub_u32 call.millis w.connection_start_time)) _ _
        (fail-IsTuned (call_radio w disconnect) call (disconnect-IsTuned w v) on)
        (fail-IsTuned w call v on)
  while_connecting-IsTuned w call wl_no_ssid_avail v on =
      if_keeps IsTuned (ltb connect_timeout_ms (sub_u32 call.millis w.connection_start_time)) _ _
        (fail-IsTuned (call_radio w disconnect) call (disconnect-IsTuned w v) on)
        (fail-IsTuned w call v on)
  while_connecting-IsTuned w call wl_other v on =
      if_keeps IsTuned (ltb connect_timeout_ms (sub_u32 call.millis w.connection_start_time)) _ _
        (fail-IsTuned (call_radio w disconnect) call (disconnect-IsTuned w v) on) v

  update_state-IsTuned :
      (w : Wifi) (call : WifiCall) (s : WifiState)
      → w.state ≡ s
      → IsTuned w
      → call.mode_null ≡ not (radio_on w)
      → IsTuned (update_state reasons w call s)
  unfolding handle_disconnected
  update_state-IsTuned w call connecting e v true_mode =
      while_connecting-IsTuned w call call.status v (ap uses_radio e)
  update_state-IsTuned w call disconnected e v true_mode =
      let off : call.mode_null ≡ true = true_mode ∙ ap not (v.radio ∙ ap uses_radio e) in
      subst IsTuned (sym (if_true call.mode_null w _ off)) v
  update_state-IsTuned w call connected e v true_mode =
      if_keeps IsTuned (is_up reasons call.status) _ _ v (fail-IsTuned w call v (ap uses_radio e))
  update_state-IsTuned w call wifi_disabled e v true_mode = v
  update_state-IsTuned w call wifi_error e v true_mode = v

  pub update-IsTuned :
      (w : Wifi) (call : WifiCall)
      → IsTuned w
      → call.mode_null ≡ not (radio_on w)
      → IsTuned (update reasons w call)
  unfolding update
  update-IsTuned w call v true_mode =
      if_keeps IsTuned w.initialized _ _ (update_state-IsTuned w call w.state refl v true_mode) v

  pub start_connection-IsTuned :
      (w : Wifi) (call : WifiCall) → IsTuned w → IsTuned (start_connection reasons w call).0
  unfolding start_connection
  start_connection-IsTuned w call v =
      if_keeps (λ (r : Wifi × Bool). IsTuned r.0) (not w.initialized) (w, false) _ v
        (if_split (λ (r : Wifi × Bool). IsTuned r.0) (not (has_credentials w)) (w, false) _ (λ e. v)
          (λ named.
            if_keeps (λ (r : Wifi × Bool). IsTuned r.0) (is_busy w.state) (w, true) _ v
              (connect-IsTuned (record w { state = disconnected; retry_count = 0 }) call
                (ground (arith, named)) v.reason v.vague)))

  pub set_credentials-IsTuned :
      (w : Wifi) (call : WifiCall) (opens : Bool) (put_ssid put_pass : ℕ) (ssid password : List ℕ)
      → IsTuned w
      → IsTuned (set_credentials reasons w call opens put_ssid put_pass ssid password).0
  unfolding set_credentials
  set_credentials-IsTuned w call opens put_ssid put_pass ssid password v =
      let stored = record w { ssid = ssid; password = password; retry_count = 0 } in
      let keeps = (λ (b : Bool) (r : Wifi × Bool).
        if_keeps (λ (x : Wifi × Bool). IsTuned x.0) b (w, false) r v) in
      if_split (λ (x : Wifi × Bool). IsTuned x.0) (length ssid == 0) (w, false) _ (λ e. v)
        (λ named. keeps (ltb ssid_max_length (length ssid)) _ (
          keeps (ltb pass_max_length (length password)) _ (
            keeps (not opens) _ (
              keeps (not (put_ssid % 2 == 1 && put_pass % 2 == 1)) _ (
                if_keeps
                  (λ (x : Wifi). IsTuned (connect reasons (record x { state = disconnected }) call))
                  (is_busy w.state) (call_radio stored disconnect) stored
                  (connect-IsTuned (record (call_radio stored disconnect) { state = disconnected })
                    call named v.reason v.vague)
                  (connect-IsTuned (record stored { state = disconnected }) call named v.reason
                    v.vague))))))

pub shutdown-IsTuned : (w : Wifi) → IsTuned w → IsTuned (shutdown w)
unfolding shutdown
shutdown-IsTuned w v =
    let left = if is_busy w.state then call_radio w disconnect_off else w in
    let off = record (call_radio left mode_off) {
      state = if has_credentials w then disconnected else wifi_disabled;
      retry_count = 0;
    } in
    let same : (left.last_disconnect_reason ≡ 0) × AreVague left.statuses =
      if_keeps (λ (x : Wifi). (x.last_disconnect_reason ≡ 0) × AreVague x.statuses)
        (is_busy w.state) (call_radio w disconnect_off) w (v.reason, v.vague) (v.reason, v.vague) in
    IsTuned-tell_change off false (record {
      radio =
          radio_after-append false left.radio mode_off
          ∙ if_keeps (λ (s : WifiState). false ≡ uses_radio s) (has_credentials w) disconnected
              wifi_disabled refl refl;
      reason = same.0;
      vague = same.1;
    })

pub clear_credentials-IsTuned : (w : Wifi) → IsTuned w → IsTuned (clear_credentials w)
unfolding clear_credentials
clear_credentials-IsTuned w v =
    let forgotten = record (call_radio w disconnect_off) {
      ssid = [];
      password = [];
      retry_count = 0;
      state = wifi_disabled;
    } in
    IsTuned-tell_change forgotten false (record {
      radio = radio_after-append false w.radio disconnect_off;
      reason = v.reason;
      vague = v.vague;
    })
