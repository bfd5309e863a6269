-- ===== src/Network/OneShot.antt =====
-- The one-shot sync, and any sequence of calls.
use esp32_sensor_firmware_pl.Network.Steps.{
  wifi_tick, clock_tick, timeout, provision, start, credentials, clear, turn_off, run, update_wifi,
  on_changes, dispatch, NetEvent,
}
use esp32_sensor_firmware_pl.Network.Radio.{
  clear_credentials-IsTuned, set_credentials-IsTuned, start_connection-IsTuned, update-IsTuned,
  radio_after-append, shutdown-IsTuned, AreVague, IsTuned, uses_radio, radio_on, AreReasons,
}
use esp32_sensor_firmware_pl.Network.Wifi.{
  update, WifiState, wifi_disabled, disconnected, has_credentials, mode_off, disconnect_off,
  call_radio, is_busy, Wifi, Reasons, shutdown,
}
use esp32_sensor_firmware_pl.Network.Clock.{
  unsynced, update_state, ClockState, check_time_validity, valid, timer_expires,
  time_check_interval_ms, min_valid_epoch, start_provisioning_mode, get_epoch, syncing,
  handle_sync_timeout, tell_time, init_sntp, ClockCall, handle_sync_success, Clock, Net,
  update_clock, start_sync, stop_sync,
}
use esp32_sensor_firmware_pl.Prelude.{
  ◌&&◌, if_true, if_false, subst, ◌≤◌, Bool, true, false, not, List, [], ◌∷◌, ◌++◌, ◌≡◌, refl, sym,
  ap, ◌∙◌, arith, if◌then◌else◌, if_keeps, length, drop, ltb, sub_u32, length-append,
}

-- The callback gets a time at most once.
abbrev pub IsToldOnce : Clock → Type 0
IsToldOnce c = length c.told ≡ (if c.callback_fired then 1 else 0)

tell_time-IsToldOnce : (c : Clock) (call : ClockCall) → IsToldOnce c → IsToldOnce (tell_time c call)
tell_time-IsToldOnce c call v = ground (arith, length-append c.told (get_epoch call ∷ []))

stop_sync-IsToldOnce : (c : Clock) → IsToldOnce c → IsToldOnce (stop_sync c)
unfolding stop_sync
stop_sync-IsToldOnce c v = ground (arith, v)

start_sync-IsToldOnce :
    (c : Clock) (call : ClockCall) → IsToldOnce c → IsToldOnce (start_sync c call)
unfolding start_sync init_sntp
start_sync-IsToldOnce c call v =
    let waiting_clock = record c { state = syncing; sync_start_time = call.millis } in
    if_keeps IsToldOnce (not c.initialized) _ _ v (
      if_keeps IsToldOnce (check_time_validity call) _ _
        (tell_time-IsToldOnce (record c { state = valid }) call v)
        (stop_sync-IsToldOnce waiting_clock v))

on_changes-IsToldOnce :
    (c : Clock) (call : ClockCall) (changes : List Bool)
    → IsToldOnce c
    → IsToldOnce (on_changes c call changes)
on_changes-IsToldOnce c call [] v = v
on_changes-IsToldOnce c call (true ∷ changes) v =
    on_changes-IsToldOnce (start_sync c call) call changes (start_sync-IsToldOnce c call v)
on_changes-IsToldOnce c call (false ∷ changes) v = on_changes-IsToldOnce c call changes v

-- What every call keeps.
abbrev IsGood : Net → Type 0
IsGood n = IsTuned n.wifi × IsToldOnce n.clock

update_state-IsGood :
    (n : Net) (call : ClockCall) (s : ClockState) → IsGood n → IsGood (update_state n call s)
unfolding handle_sync_success
update_state-IsGood n call unsynced v = v
update_state-IsGood n call syncing v =
    let told = tell_time-IsToldOnce (record (n.clock) { state = valid }) call v.1 in
    if_keeps IsGood (not (check_time_validity call)) _ _ v (
      if_keeps IsGood n.clock.one_shot_sync_active _ _
        (shutdown-IsTuned n.wifi v.0, stop_sync-IsToldOnce _ told) (v.0, told))
update_state-IsGood n call valid v = if_keeps IsGood (check_time_validity call) _ _ v v

update_clock-IsGood : (n : Net) (call : ClockCall) → IsGood n → IsGood (update_clock n call)
unfolding update_clock
update_clock-IsGood n call v =
    let looked = record n { clock = record (n.clock) { last_time_check = call.millis } } in
    if_keeps IsGood (not n.clock.initialized) _ _ v (
      if_keeps IsGood (ltb (sub_u32 call.millis n.clock.last_time_check) time_check_interval_ms) _ _
        v (update_state-IsGood looked call n.clock.state v))

-- `esp_wifi_get_mode` reports what the calls have set.
abbrev pub IsTruthful : Net → NetEvent → Type 0
IsTruthful n (wifi_tick call clock_call) = call.mode_null ≡ not (radio_on n.wifi)
IsTruthful n _ = Unit {0}

abbrev pub AreTruthful : Reasons → Net → List NetEvent → Type 0
AreTruthful reasons n [] = Unit {0}
AreTruthful reasons n (e ∷ es) = IsTruthful n e × AreTruthful reasons (dispatch reasons n e) es

module _ (reasons : Reasons) (known : AreReasons reasons) where
  dispatch-IsGood :
      (n : Net) (e : NetEvent) → IsTruthful n e → IsGood n → IsGood (dispatch reasons n e)
  unfolding dispatch update_wifi handle_sync_timeout start_provisioning_mode
  dispatch-IsGood n (wifi_tick call clock_call) t v = (
    update-IsTuned reasons known n.wifi call v.0 t,
    on_changes-IsToldOnce n.clock clock_call
        (drop (length n.wifi.changes) (update reasons n.wifi call).changes) v.1,
  )
  dispatch-IsGood n (clock_tick call) t v = update_clock-IsGood n call v
  dispatch-IsGood n timeout t v = (shutdown-IsTuned n.wifi v.0, stop_sync-IsToldOnce _ v.1)
  dispatch-IsGood n (provision call) t v = v
  dispatch-IsGood n (start call) t v = (start_connection-IsTuned reasons known n.wifi call v.0, v.1)
  dispatch-IsGood n (credentials call opens put_ssid put_pass ssid password) t v = (
    set_credentials-IsTuned reasons known n.wifi call opens put_ssid put_pass ssid password v.0,
    v.1,
  )
  dispatch-IsGood n clear t v = (clear_credentials-IsTuned n.wifi v.0, v.1)
  dispatch-IsGood n turn_off t v = (shutdown-IsTuned n.wifi v.0, v.1)

-- Through any sequence of calls on the two services, where `esp_wifi_get_mode` reports what the calls
-- have set and no disconnect reason of the library is 0: the radio is on exactly in CONNECTING,
-- CONNECTED and WIFI_ERROR, every error is reported with the reason 255, and the time is told to the
-- callback at most once.
pub run-IsTuned :
    (reasons : Reasons) (es : List NetEvent) (n : Net)
    → AreReasons reasons
    → AreTruthful reasons n es
    → IsTuned n.wifi
    → IsToldOnce n.clock
    → let n' = run reasons n es in
      (radio_on n'.wifi ≡ uses_radio n'.wifi.state)
      × AreVague n'.wifi.statuses
      × (length n'.clock.told ≤ 1)
unfolding run
run-IsTuned reasons [] n known t v o = (v.radio, v.vague, ground (arith, o))
run-IsTuned reasons (e ∷ es) n known t v o =
    let r = dispatch-IsGood reasons known n e t.0 (v, o) in
    run-IsTuned reasons es (dispatch reasons n e) known t.1 r.0 r.1

-- What is left when a one-shot sync is over: the radio and the NTP client are off.
pub record IsOver (n : Net) : Type 0 where
  pub inactive : n.clock.one_shot_sync_active ≡ false
  pub stopped : n.clock.sntp_started ≡ false
  pub off : radio_on n.wifi ≡ false
  pub idle : uses_radio n.wifi.state ≡ false

shutdown-off :
    (w : Wifi) → (radio_on (shutdown w) ≡ false) × (uses_radio (shutdown w).state ≡ false)
unfolding shutdown
shutdown-off w =
    let left = if is_busy w.state then call_radio w disconnect_off else w in
    let off = record (call_radio left mode_off) {
      state = if has_credentials w then disconnected else wifi_disabled;
      retry_count = 0;
    } in
    let idle : uses_radio off.state ≡ false =
      if_keeps (λ (s : WifiState). uses_radio s ≡ false) (has_credentials w) disconnected
        wifi_disabled refl refl in
    let silent : radio_on off ≡ false = radio_after-append false left.radio mode_off in
    if_keeps (λ (x : Wifi). (radio_on x ≡ false) × (uses_radio x.state ≡ false))
      off.has_connection_callback (record off { changes = off.changes ++ (false ∷ []) }) off
      (silent, idle) (silent, idle)

stop_sync-stops :
    (c : Clock)
    → ((stop_sync c).sntp_started ≡ false)
      × ((stop_sync c).one_shot_sync_active ≡ c.one_shot_sync_active)
unfolding stop_sync
stop_sync-stops c = (ground arith, ground arith)

stop_sync-state : (c : Clock) → (stop_sync c).state ≡ c.state
unfolding stop_sync
stop_sync-state c = ground arith

IsOver-shutdown :
    (n : Net) (c : Clock)
    → c.one_shot_sync_active ≡ false
    → IsOver (record n { wifi = shutdown n.wifi; clock = stop_sync c })
IsOver-shutdown n c inactive =
    let off = shutdown-off n.wifi in
    let stops = stop_sync-stops c in
    record { inactive = stops.1 ∙ inactive; stopped = stops.0; off = off.0; idle = off.1 }

-- A one-shot sync ends with the radio and the NTP client off, whatever state they are in: when its
-- timer fires, and at the first look at the clock that finds the time valid while it waits for it, which
-- marks the clock as valid.
pub one_shot-IsOver :
    (n : Net) (call : ClockCall)
    → n.clock.initialized ≡ true
    → n.clock.state ≡ syncing
    → n.clock.one_shot_sync_active ≡ true
    → min_valid_epoch ≤ call.time
    → time_check_interval_ms ≤ sub_u32 call.millis n.clock.last_time_check
    → IsOver (timer_expires n)
      × IsOver (update_clock n call)
      × ((update_clock n call).clock.state ≡ valid)
unfolding update_clock handle_sync_success handle_sync_timeout
one_shot-IsOver n call up waits active known due =
    let looked = record n { clock = record (n.clock) { last_time_check = call.millis } } in
    let found = record looked {
      clock = tell_time (record (looked.clock) { state = valid }) call;
    } in
    let over : update_clock n call ≡ handle_sync_success found call =
      if_false (not n.clock.initialized) _ _ (ap not up)
      ∙ if_false (ltb (sub_u32 call.millis n.clock.last_time_check) time_check_interval_ms) _ _
          (ground arith)
      ∙ ap (update_state looked call) waits
      ∙ if_false (not (check_time_validity call)) _ _ (ground arith)
      ∙ if_true looked.clock.one_shot_sync_active _ found active in
    let ended = record (found.clock) {
      one_shot_sync_active = false;
      timer_active = found.clock.timer_active && not (found.clock.has_timer && call.timer_accepts);
    } in
    let marked : found.clock.state ≡ valid =
      if_keeps (λ (c : Clock). c.state ≡ valid) (n.clock.has_callback && not n.clock.callback_fired)
        _ _ refl refl in
    (
      IsOver-shutdown n (record (n.clock) { timer_active = false; one_shot_sync_active = false })
          refl,
      subst IsOver (sym over) (IsOver-shutdown found ended refl),
      ap (λ (x : Net). x.clock.state) over ∙ stop_sync-state ended ∙ marked,
    )
