-- ===== src/Configuration/Changes.antt =====
-- The setters of `ConfigService`, the commit timer, the worker, and the flush.
use esp32_sensor_firmware_pl.Prelude.{
  ℕ, Bool, true, false, not, ◌&&◌, ◌||◌, leb, ◌==◌, if◌then◌else◌,
}
use esp32_sensor_firmware_pl.Configuration.State.{
  ConfigService, init_user_config_defaults, validate_sensitivity, seal,
}
use esp32_sensor_firmware_pl.Configuration.Store.{WriteCall, write_to_nvs, apply_sensitivity_to_hal}

-- What a setter meets: whether the mutex is taken in time, and whether the timer task takes the
-- command to start, restart or stop the commit timer.
pub record SetCall : Type 0 where
  pub mutex_taken : Bool
  pub timer_accepts : Bool

-- A restart that is refused leaves an active timer running.
abbrev pub restart_timer : ConfigService → SetCall → ConfigService
restart_timer s call =
    if s.has_commit_timer
    then record s { timer_active = s.timer_active || call.timer_accepts }
    else s

unfoldable pub set_sensitivity : ConfigService → SetCall → ℕ → ConfigService
unfolding validate_sensitivity apply_sensitivity_to_hal
set_sensitivity s call sensitivity =
    let value = validate_sensitivity sensitivity in
    let changed = record s { config = record (s.config) { sensitivity = value }; dirty = true } in
    if s.has_mutex && not call.mutex_taken
    then s
    else if s.config.sensitivity == value
    then s
    else restart_timer (apply_sensitivity_to_hal changed) call

unfoldable pub set_led_brightness : ConfigService → SetCall → ℕ → ConfigService
set_led_brightness s call brightness =
    let changed = record s {
      config = record (s.config) { led_brightness = brightness };
      dirty = true;
    } in
    if s.has_mutex && not call.mutex_taken
    then s
    else if s.config.led_brightness == brightness
    then s
    else restart_timer changed call

unfoldable pub update_last_known_epoch : ConfigService → SetCall → ℕ → ConfigService
update_last_known_epoch s call epoch =
    let changed = record s {
      config = record (s.config) { last_known_epoch = epoch };
      dirty = true;
    } in
    if leb epoch s.config.last_known_epoch
    then s
    else if s.has_mutex && not call.mutex_taken
    then s
    else restart_timer changed call

-- The commit timer fires once and calls `commitTimerCallback`.
unfoldable pub commit_timer_callback : ConfigService → ConfigService
commit_timer_callback s =
    if s.dirty && s.has_worker_task then record s { save_notified = true } else s

abbrev pub timer_expires : ConfigService → ConfigService
timer_expires s = commit_timer_callback (record s { timer_active = false })

-- One round of `configWorkerTask` that got a notification: its bits are cleared, and `shutdown` is
-- the bit NOTIFY_SHUTDOWN.
unfoldable pub worker_round : ConfigService → (shutdown : Bool) → WriteCall → ConfigService
unfolding write_to_nvs
worker_round s shutdown call =
    let taken = record s { save_notified = false } in
    if shutdown
    then record taken { has_worker_task = false }
    else if s.save_notified && s.dirty
    then (write_to_nvs taken call).0
    else taken

abbrev pub stop_timer : ConfigService → (timer_accepts : Bool) → ConfigService
stop_timer s timer_accepts =
    if s.has_commit_timer && timer_accepts then record s { timer_active = false } else s

unfoldable pub force_flush :
    ConfigService → (timer_accepts : Bool) → WriteCall → ConfigService × Bool
unfolding write_to_nvs
force_flush s timer_accepts call =
    let stopped = stop_timer s timer_accepts in
    if not s.dirty then (stopped, true) else write_to_nvs stopped call

unfoldable pub factory_reset :
    ConfigService → SetCall → (random : ℕ) → WriteCall → ConfigService × Bool
unfolding write_to_nvs init_user_config_defaults apply_sensitivity_to_hal seal
factory_reset s call random write =
    let stopped = stop_timer s call.timer_accepts in
    let (written, success) =
      write_to_nvs (record stopped { config = seal (init_user_config_defaults random) }) write in
    if s.has_mutex && not call.mutex_taken
    then (s, false)
    else (if success then apply_sensitivity_to_hal written else written, success)
