-- ===== src/Network/Wifi.antt =====
-- `WifiService`: the credentials and the state of the connection.
use esp32_sensor_firmware_pl.Prelude.{
  ℕ, ◌%◌, ◌++◌, Bool, true, false, not, ◌&&◌, ◌||◌, List, [], ◌∷◌, Option, none, some, ltb, ◌==◌,
  length, sub_u32, if◌then◌else◌,
}

pub data WifiState : Type 0 where
  wifi_disabled disconnected connecting connected wifi_error : WifiState

-- The enum's values.
abbrev pub state_code : WifiState → ℕ
state_code wifi_disabled = 0
state_code disconnected = 1
state_code connecting = 2
state_code connected = 3
state_code wifi_error = 4

-- `wl_status_t`, as far as `update` tells its values apart.
pub data WlStatus : Type 0 where
  wl_connected wl_connect_failed wl_no_ssid_avail wl_other : WlStatus

-- The calls of the radio's library: `WiFi.disconnect()`, `WiFi.disconnect(true)`, which turns the radio
-- off, `WiFi.mode` and `WiFi.begin`.
pub data RadioCall : Type 0 where
  disconnect disconnect_off mode_off mode_sta : RadioCall
  begin : List ℕ → List ℕ → RadioCall

-- What the status callback gets.
pub record Status : Type 0 where
  pub state : WifiState
  pub reason : ℕ
  pub rssi : ℕ
  pub ip : ℕ

-- A string is the list of its bytes. `radio`, `changes` and `statuses` record, oldest first, the calls
-- of the radio's library and of the two callbacks.
pub record Wifi : Type 0 where
  pub state : WifiState
  pub ssid : List ℕ
  pub password : List ℕ
  pub last_connection_attempt : ℕ
  pub connection_start_time : ℕ
  pub retry_count : ℕ
  pub initialized : Bool
  pub last_disconnect_reason : ℕ
  pub has_connection_callback : Bool
  pub has_status_callback : Bool
  pub radio : List RadioCall
  pub changes : List Bool
  pub statuses : List Status

abbrev pub connect_timeout_ms : ℕ
connect_timeout_ms = 15000

abbrev pub ssid_max_length : ℕ
ssid_max_length = 32

abbrev pub pass_max_length : ℕ
pass_max_length = 64

-- What a call meets: whether `esp_wifi_get_mode` reports WIFI_MODE_NULL, `WiFi.status`, the clock, and
-- the signal and the address of a connection.
pub record WifiCall : Type 0 where
  pub mode_null : Bool
  pub status : WlStatus
  pub millis : ℕ
  pub rssi : ℕ
  pub ip : ℕ

-- The disconnect reasons of the Wi-Fi library.
pub record Reasons : Type 0 where
  pub auth_fail : ℕ
  pub handshake_timeout : ℕ
  pub no_ap_found : ℕ

unfoldable pub new : Wifi
new = record {
  state = wifi_disabled;
  ssid = [];
  password = [];
  last_connection_attempt = 0;
  connection_start_time = 0;
  retry_count = 0;
  initialized = false;
  last_disconnect_reason = 0;
  has_connection_callback = false;
  has_status_callback = false;
  radio = [];
  changes = [];
  statuses = [];
}

abbrev pub has_credentials : Wifi → Bool
has_credentials w = not (length w.ssid == 0)

-- `stored`: the two strings of NVS, where its namespace opens.
unfoldable pub init : Wifi → (stored : Option (List ℕ × List ℕ)) → Wifi
init w stored =
    let read = elim stored as (λ o. Wifi) [
      | none ↦ w
      | some (ssid, password) ↦ record w { ssid = ssid; password = password }
    ] in
    if w.initialized then w else record read {
      initialized = true;
      state = if has_credentials read then disconnected else wifi_disabled;
    }

abbrev pub is_connected : WifiState → Bool
is_connected connected = true
is_connected _ = false

abbrev pub is_error : WifiState → Bool
is_error wifi_error = true
is_error _ = false

-- CONNECTED or CONNECTING.
abbrev pub is_busy : WifiState → Bool
is_busy connected = true
is_busy connecting = true
is_busy _ = false

abbrev pub call_radio : Wifi → RadioCall → Wifi
call_radio w c = record w { radio = w.radio ++ (c ∷ []) }

-- `_onConnectionChange`, where it is set.
abbrev pub tell_change : Wifi → Bool → Wifi
tell_change w up =
    if w.has_connection_callback then record w { changes = w.changes ++ (up ∷ []) } else w

module _ (reasons : Reasons) where
  abbrev pub error_reason : ℕ → ℕ
  error_reason reason =
      if reason == reasons.auth_fail || reason == reasons.handshake_timeout || reason == 15
      then 1
      else if reason == reasons.no_ap_found || reason == 201
      then 2
      else 255

  unfoldable pub notify_status : Wifi → WifiCall → Wifi
  notify_status w call =
      let status : Status = record {
        state = w.state;
        reason = if is_error w.state then error_reason w.last_disconnect_reason else 0;
        rssi = if is_connected w.state then call.rssi else 0;
        ip = if is_connected w.state then call.ip else 0;
      } in
      if w.has_status_callback then record w { statuses = w.statuses ++ (status ∷ []) } else w

  unfoldable pub connect : Wifi → WifiCall → Wifi
  unfolding notify_status
  connect w call =
      let started = record (call_radio w mode_sta) {
        state = connecting;
        connection_start_time = call.millis;
        last_connection_attempt = call.millis;
        retry_count = 0;
      } in
      if length w.ssid == 0
      then record w { state = wifi_disabled }
      else call_radio (notify_status started call) (begin w.ssid w.password)

  -- The end of an attempt or of a connection.
  abbrev pub fail : Wifi → WifiCall → Wifi
  fail w call =
      tell_change
        (notify_status (record w { state = wifi_error; last_connection_attempt = call.millis })
          call)
        false

  unfoldable pub handle_connection_timeout : Wifi → WifiCall → Wifi
  unfolding notify_status
  handle_connection_timeout w call = fail (call_radio w disconnect) call

  unfoldable pub handle_connected : Wifi → WifiCall → Wifi
  unfolding notify_status
  handle_connected w call =
      tell_change (notify_status (record w { state = connected; retry_count = 0 }) call) true

  unfoldable pub handle_disconnected : Wifi → WifiCall → Wifi
  unfolding notify_status
  handle_disconnected w call = fail w call

  -- The `switch` of `update`, in CONNECTING.
  abbrev pub while_connecting : Wifi → WifiCall → WlStatus → Wifi
  while_connecting w call wl_connected = handle_connected w call
  while_connecting w call status =
      let failed = elim status as (λ s. Wifi) [
        | wl_connected ↦ w
        | wl_connect_failed ↦ handle_disconnected w call
        | wl_no_ssid_avail ↦ handle_disconnected w call
        | wl_other ↦ w
      ] in
      if ltb connect_timeout_ms (sub_u32 call.millis w.connection_start_time)
      then handle_connection_timeout w call
      else failed

  abbrev pub is_up : WlStatus → Bool
  is_up wl_connected = true
  is_up _ = false

  abbrev pub update_state : Wifi → WifiCall → WifiState → Wifi
  update_state w call connecting = while_connecting w call call.status
  update_state w call disconnected =
      if call.mode_null then w else if is_up call.status then handle_connected w call else w
  update_state w call connected = if is_up call.status then w else handle_disconnected w call
  update_state w call wifi_disabled = w
  update_state w call wifi_error = w

  -- With the radio off there is nothing to do in DISCONNECTED and WIFI_DISABLED.
  unfoldable pub update : Wifi → WifiCall → Wifi
  unfolding handle_connected handle_disconnected handle_connection_timeout
  update w call = if w.initialized then update_state w call w.state else w

  unfoldable pub start_connection : Wifi → WifiCall → Wifi × Bool
  unfolding connect
  start_connection w call =
      if not w.initialized
      then (w, false)
      else if not (has_credentials w)
      then (w, false)
      else if is_busy w.state
      then (w, true)
      else (connect (record w { state = disconnected; retry_count = 0 }) call, true)

  -- What `setCredentials` meets: whether the namespace opens, and what the two `putString` return.
  unfoldable pub set_credentials :
      Wifi
      → WifiCall
      → (opens : Bool) → (put_ssid put_pass : ℕ) → (ssid password : List ℕ) → Wifi × Bool
  unfolding connect
  set_credentials w call opens put_ssid put_pass ssid password =
      let stored = record w { ssid = ssid; password = password; retry_count = 0 } in
      let freed = if is_busy w.state then call_radio stored disconnect else stored in
      if length ssid == 0
      then (w, false)
      else if ltb ssid_max_length (length ssid)
      then (w, false)
      else if ltb pass_max_length (length password)
      then (w, false)
      else if not opens
      then (w, false)
      else if not (put_ssid % 2 == 1 && put_pass % 2 == 1)
      then (w, false)
      else (connect (record freed { state = disconnected }) call, true)

unfoldable pub shutdown : Wifi → Wifi
shutdown w =
    let left = if is_busy w.state then call_radio w disconnect_off else w in
    tell_change
      (record (call_radio left mode_off) {
        state = if has_credentials w then disconnected else wifi_disabled;
        retry_count = 0;
      })
      false

unfoldable pub clear_credentials : Wifi → Wifi
clear_credentials w =
    tell_change
      (record (call_radio w disconnect_off) {
        ssid = [];
        password = [];
        retry_count = 0;
        state = wifi_disabled;
      })
      false
