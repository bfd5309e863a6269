-- ===== src/Network/Tests.antt =====
-- The theorems on Wi-Fi and the clock at a small network.
use esp32_sensor_firmware_pl.Network.OneShot.{run-IsTuned, one_shot-IsOver, AreTruthful, IsOver}
use esp32_sensor_firmware_pl.Network.Radio.{AreVague, uses_radio, AreReasons, IsTuned, radio_on}
use esp32_sensor_firmware_pl.Network.Credentials.{set_credentials_lem, SetOutcome}
use esp32_sensor_firmware_pl.Prelude.{
  ℕ, ◌≤◌, Bool, true, false, List, [], ◌∷◌, ◌≡◌, refl, arith, length,
}
use esp32_sensor_firmware_pl.Network.Steps.{
  run, credentials, wifi_tick, timeout, NetEvent, dispatch, update_wifi,
}
use esp32_sensor_firmware_pl.Network.Wifi.{
  Wifi, wifi_disabled, wl_other, wl_no_ssid_avail, WlStatus, WifiCall, Reasons, set_credentials,
}
use esp32_sensor_firmware_pl.Platform.{power_on}
use esp32_sensor_firmware_pl.Network.Clock.{
  handle_sync_timeout, Clock, syncing, valid, sntp_init, Net, ClockCall, timer_expires,
  update_clock,
}

abbrev reasons : Reasons
reasons = record { auth_fail = 202; handshake_timeout = 204; no_ap_found = 201 }

reasons-AreReasons : AreReasons reasons
reasons-AreReasons = record {
  auth_fail = λ e. omega (arith, e);
  handshake_timeout = λ e. omega (arith, e);
  no_ap_found = λ e. omega (arith, e);
}

-- After `init` with nothing stored, and with both callbacks.
abbrev wifi : Wifi
wifi = record {
  state = wifi_disabled;
  ssid = [];
  password = [];
  last_connection_attempt = 0;
  connection_start_time = 0;
  retry_count = 0;
  initialized = true;
  last_disconnect_reason = 0;
  has_connection_callback = true;
  has_status_callback = true;
  radio = [];
  changes = [];
  statuses = [];
}

-- A one-shot sync that waits for the time.
abbrev clock : Clock
clock = record {
  state = syncing;
  initialized = true;
  sntp_started = true;
  callback_fired = false;
  last_time_check = 0;
  sync_start_time = 0;
  has_callback = true;
  has_timer = true;
  timer_active = true;
  one_shot_sync_active = true;
  boot_reason = power_on;
  sntp = sntp_init ∷ [];
  told = [];
}

abbrev net : Net
net = record { wifi = wifi; clock = clock }

abbrev wifi_call : Bool → WlStatus → ℕ → WifiCall
wifi_call mode_null status t = record {
  mode_null = mode_null;
  status = status;
  millis = t;
  rssi = 200;
  ip = 1;
}

abbrev clock_call : ClockCall
clock_call = record { time = 1700000000; millis = 5000; timer_accepts = true }

-- Credentials are set, no access point is found, and the timer fires.
abbrev events : List NetEvent
events =
    credentials (wifi_call true wl_other 10) true 3 5 (65 ∷ 66 ∷ 67 ∷ []) (1 ∷ 2 ∷ 3 ∷ 4 ∷ 5 ∷ [])
    ∷ wifi_tick (wifi_call false wl_no_ssid_avail 20) clock_call
    ∷ timeout
    ∷ []

wifi-IsTuned : IsTuned wifi
wifi-IsTuned = record { radio = refl; reason = refl; vague = tt }

events-AreTruthful : AreTruthful reasons net events
unfolding dispatch update_wifi handle_sync_timeout
events-AreTruthful = (tt, (refl, (tt, tt)))

run-IsTuned_example :
    let n' = run reasons net events in
    (radio_on n'.wifi ≡ uses_radio n'.wifi.state)
    × AreVague n'.wifi.statuses
    × (length n'.clock.told ≤ 1)
run-IsTuned_example =
    run-IsTuned reasons events net reasons-AreReasons events-AreTruthful wifi-IsTuned refl

one_shot-IsOver_example :
    IsOver (timer_expires net)
    × IsOver (update_clock net clock_call)
    × ((update_clock net clock_call).clock.state ≡ valid)
one_shot-IsOver_example = one_shot-IsOver net clock_call refl refl refl (omega arith) (omega arith)

set_credentials_lem_example :
    SetOutcome wifi true
      (65 ∷ 66 ∷ [])
      (1 ∷ [])
      (set_credentials reasons wifi (wifi_call true wl_other 10) true 2 1 (65 ∷ 66 ∷ []) (1 ∷ []))
set_credentials_lem_example =
    set_credentials_lem reasons wifi (wifi_call true wl_other 10) true (65 ∷ 66 ∷ []) (1 ∷ [])
