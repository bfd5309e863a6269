-- ===== src/Network/Clock.antt =====
-- `TimeService`: the state of the clock, and the one-shot sync.
use esp32_sensor_firmware_pl.Prelude.{
  ℕ, ◌++◌, Bool, true, false, not, ◌&&◌, ◌||◌, List, [], ◌∷◌, ltb, leb, sub_u32, u32, if◌then◌else◌,
}
use esp32_sensor_firmware_pl.Platform.{ResetReason}
use esp32_sensor_firmware_pl.Network.Wifi.{Wifi, shutdown}

pub data ClockState : Type 0 where
  unsynced syncing valid : ClockState

-- The calls of the NTP client.
pub data SntpCall : Type 0 where
  sntp_init sntp_stop : SntpCall

-- `timer_active` is the state of the timeout timer. `sntp` and `told` record, oldest first, the calls of
-- the NTP client and the epochs that the callback got.
pub record Clock : Type 0 where
  pub state : ClockState
  pub initialized : Bool
  pub sntp_started : Bool
  pub callback_fired : Bool
  pub last_time_check : ℕ
  pub sync_start_time : ℕ
  pub has_callback : Bool
  pub has_timer : Bool
  pub timer_active : Bool
  pub one_shot_sync_active : Bool
  pub boot_reason : ResetReason
  pub sntp : List SntpCall
  pub told : List ℕ

abbrev pub min_valid_epoch : ℕ
min_valid_epoch = 1577836800

abbrev pub time_check_interval_ms : ℕ
time_check_interval_ms = 1000

-- What a call meets: `time`, `millis`, and whether the timer task takes a command.
pub record ClockCall : Type 0 where
  pub time : ℕ
  pub millis : ℕ
  pub timer_accepts : Bool

-- The two services, and the callback that connects them.
pub record Net : Type 0 where
  pub wifi : Wifi
  pub clock : Clock

unfoldable pub new : ResetReason → Clock
new unknown = record {
  state = unsynced;
  initialized = false;
  sntp_started = false;
  callback_fired = false;
  last_time_check = 0;
  sync_start_time = 0;
  has_callback = false;
  has_timer = false;
  timer_active = false;
  one_shot_sync_active = false;
  boot_reason = unknown;
  sntp = [];
  told = [];
}

unfoldable pub init : Clock → ResetReason → (timer_created : Bool) → Clock
init c reason timer_created = if c.initialized then c else record c {
  boot_reason = reason;
  has_timer = timer_created;
  initialized = true;
  state = unsynced;
}

abbrev pub check_time_validity : ClockCall → Bool
check_time_validity call = leb min_valid_epoch call.time

unfoldable pub get_epoch : ClockCall → ℕ
get_epoch call = if ltb call.time min_valid_epoch then 0 else u32 call.time

-- The callback, once.
abbrev pub tell_time : Clock → ClockCall → Clock
tell_time c call =
    if c.has_callback && not c.callback_fired
    then record c { callback_fired = true; told = c.told ++ (get_epoch call ∷ []) }
    else c

abbrev pub call_sntp : Clock → SntpCall → Clock
call_sntp c s = record c { sntp = c.sntp ++ (s ∷ []) }

unfoldable pub stop_sync : Clock → Clock
stop_sync c =
    if not c.sntp_started then c else record (call_sntp c sntp_stop) { sntp_started = false }

unfoldable pub init_sntp : Clock → Clock
unfolding stop_sync
init_sntp c = record (call_sntp (stop_sync c) sntp_init) { sntp_started = true }

unfoldable pub start_sync : Clock → ClockCall → Clock
unfolding init_sntp get_epoch
start_sync c call =
    if not c.initialized
    then c
    else if check_time_validity call
    then tell_time (record c { state = valid }) call
    else init_sntp (record c { state = syncing; sync_start_time = call.millis })

-- The policy is overridden: the method returns before it looks at anything.
unfoldable pub evaluate_boot_sync_policy : Clock → Clock
evaluate_boot_sync_policy c = c

-- A change of the period starts the timer.
unfoldable pub start_provisioning_mode : Clock → ClockCall → Clock
start_provisioning_mode c call = record c {
  one_shot_sync_active = true;
  sync_start_time = call.millis;
  timer_active = c.timer_active || c.has_timer && call.timer_accepts;
}

unfoldable pub handle_sync_success : Net → ClockCall → Net
unfolding shutdown stop_sync
handle_sync_success n call =
    let stopped = record (n.clock) {
      one_shot_sync_active = false;
      timer_active = n.clock.timer_active && not (n.clock.has_timer && call.timer_accepts);
    } in
    record n { wifi = shutdown n.wifi; clock = stop_sync stopped }

unfoldable pub handle_sync_timeout : Net → Net
unfolding shutdown stop_sync
handle_sync_timeout n = record n {
  wifi = shutdown n.wifi;
  clock = stop_sync (record (n.clock) { one_shot_sync_active = false });
}

-- The timer fires once, and calls `syncTimeoutCallback`.
abbrev pub timer_expires : Net → Net
timer_expires n =
    handle_sync_timeout (record n { clock = record (n.clock) { timer_active = false } })

-- The `switch` of `update`.
abbrev pub update_state : Net → ClockCall → ClockState → Net
update_state n call unsynced = n
update_state n call syncing =
    let known = record n { clock = tell_time (record (n.clock) { state = valid }) call } in
    if not (check_time_validity call)
    then n
    else if n.clock.one_shot_sync_active
    then handle_sync_success known call
    else known
update_state n call valid =
    if check_time_validity call
    then n
    else record n { clock = record (n.clock) { state = unsynced } }

unfoldable pub update_clock : Net → ClockCall → Net
unfolding handle_sync_success get_epoch
update_clock n call =
    let looked = record n { clock = record (n.clock) { last_time_check = call.millis } } in
    if not n.clock.initialized
    then n
    else if ltb (sub_u32 call.millis n.clock.last_time_check) time_check_interval_ms
    then n
    else update_state looked call n.clock.state
