-- ===== src/Network/Steps.antt =====
-- The calls that the firmware makes on the two services.
use esp32_sensor_firmware_pl.Network.Clock.{
  timer_expires, start_provisioning_mode, handle_sync_timeout, Net, ClockCall, update_clock,
  start_sync, Clock,
}
use esp32_sensor_firmware_pl.Network.Wifi.{
  shutdown, clear_credentials, set_credentials, start_connection, Reasons, update, WifiCall,
}
use esp32_sensor_firmware_pl.Prelude.{ℕ, Bool, true, false, List, [], ◌∷◌, drop, length}

-- The connection callback that `setup` sets: a connection that is up starts the sync.
abbrev pub on_changes : Clock → ClockCall → List Bool → Clock
on_changes c call [] = c
on_changes c call (true ∷ changes) = on_changes (start_sync c call) call changes
on_changes c call (false ∷ changes) = on_changes c call changes

-- `WifiService::update` in `loop`, with the callback.
unfoldable pub update_wifi : Reasons → Net → WifiCall → ClockCall → Net
unfolding update start_sync
update_wifi reasons n call clock_call =
    let w = update reasons n.wifi call in
    record n {
      wifi = w;
      clock = on_changes n.clock clock_call (drop (length n.wifi.changes) w.changes);
    }

-- One call, with any answers of the platform.
pub data NetEvent : Type 0 where
  wifi_tick : WifiCall → ClockCall → NetEvent
  clock_tick : ClockCall → NetEvent
  timeout : NetEvent
  provision : ClockCall → NetEvent
  start : WifiCall → NetEvent
  credentials : WifiCall → Bool → ℕ → ℕ → List ℕ → List ℕ → NetEvent
  clear : NetEvent
  turn_off : NetEvent

module _ (reasons : Reasons) where
  unfoldable pub dispatch : Net → NetEvent → Net
  unfolding update_wifi update_clock handle_sync_timeout start_provisioning_mode start_connection
      set_credentials clear_credentials shutdown
  dispatch n (wifi_tick call clock_call) = update_wifi reasons n call clock_call
  dispatch n (clock_tick call) = update_clock n call
  dispatch n timeout = timer_expires n
  dispatch n (provision call) = record n { clock = start_provisioning_mode n.clock call }
  dispatch n (start call) = record n { wifi = (start_connection reasons n.wifi call).0 }
  dispatch n (credentials call opens put_ssid put_pass ssid password) = record n {
    wifi = (set_credentials reasons n.wifi call opens put_ssid put_pass ssid password).0;
  }
  dispatch n clear = record n { wifi = clear_credentials n.wifi }
  dispatch n turn_off = record n { wifi = shutdown n.wifi }

  unfoldable pub run : Net → List NetEvent → Net
  unfolding dispatch
  run n [] = n
  run n (e ∷ es) = run (dispatch n e) es
