-- ===== src/History/Worker.antt =====
-- `init`, the storage worker's life and its commands (src/Services/HistoryService.cpp).
use esp32_sensor_firmware_pl.Prelude.{
  ℕ, ◌+◌, Bool, true, false, not, ◌&&◌, ◌||◌, List, [], ◌∷◌, Option, none, some, ltb, ◌==◌, u32,
  sub_u32, if◌then◌else◌,
}
use esp32_sensor_firmware_pl.Platform.{ResetReason, power_on, brownout}
use esp32_sensor_firmware_pl.History.State.{
  Config, Service, StorageCmd, StorageMessage, restore, clear_nvs, update_crc, validate_state,
  reset_state,
}
use esp32_sensor_firmware_pl.History.Nvs.{
  NvsImage, FlushCall, RestoreCall, flush_to_nvs, restore_from_nvs,
}

-- What `clear_nvs` does is the store's; a command may also write an image to it.
pub data StoreEffect : Type 0 where
  untouched cleared : StoreEffect
  written : NvsImage → StoreEffect

abbrev pub effect_of : Option NvsImage → StoreEffect
effect_of none = untouched
effect_of (some image) = written image

-- The delays of the worker before and after a command, in milliseconds.
abbrev pub handshake_window_ms : ℕ
handshake_window_ms = 4000

abbrev pub connection_age : Service → ℕ → ℕ
connection_age s now =
    if ltb 0 s.connection_start_time then sub_u32 now s.connection_start_time else 0

unfoldable pub pre_flash_yield : Service → ℕ → ℕ
pre_flash_yield s now =
    if not s.ble_connected
    then 0
    else if ltb (connection_age s now) handshake_window_ms
    then 100
    else 50

-- `storage_task_yield_ms` is `FreeRTOSConfig::STORAGE_TASK_YIELD_MS`.
unfoldable pub post_flash_yield : ℕ → Service → ℕ → ℕ
post_flash_yield storage_task_yield_ms s now =
    if not s.ble_connected
    then storage_task_yield_ms
    else if ltb (connection_age s now) handshake_window_ms
    then 150
    else 100

abbrev pub is_cold_reason : ResetReason → Bool
is_cold_reason power_on = true
is_cold_reason brownout = true
is_cold_reason _ = false

-- One message taken from the queue while the worker stops, with what processing it meets.
pub record Drained : Type 0 where
  pub msg : StorageMessage
  pub flush : FlushCall
  pub view : RestoreCall
  pub opens : Bool

-- What `init` meets: the reset reason, the backup, and whether the kernel makes the mutex, the queue
-- and the task.
pub record InitCall : Type 0 where
  pub reason : ResetReason
  pub view : RestoreCall
  pub mutex_created : Bool
  pub queue_created : Bool
  pub task_created : Bool

unfoldable pub start_storage_worker : Service → Bool → Service × Bool
start_storage_worker s created =
    if s.storage_worker_running
    then (s, true)
    else if not s.has_queue
    then (s, false)
    else if created
    then (record s { has_task = true; storage_worker_running = true }, true)
    else (record s { has_task = false }, false)

module _ (cfg : Config) where
  -- `processStorageCommand`, by the command.
  unfoldable pub process_cmd :
      StorageCmd → Service → FlushCall → RestoreCall → (opens : Bool) → Service × StoreEffect
  unfolding flush_to_nvs restore_from_nvs
  process_cmd restore s flush view opens = ((restore_from_nvs cfg s view).0, untouched)
  process_cmd clear_nvs s flush view opens = (s, if opens then cleared else untouched)
  process_cmd _ s flush view opens =
      let (flushed, ok, image) = flush_to_nvs cfg s flush in
      (record flushed { flush_pending = false }, effect_of image)

  unfoldable pub process_storage_command :
      Service → StorageMessage → FlushCall → RestoreCall → Bool → Service × StoreEffect
  unfolding process_cmd
  process_storage_command s msg flush view opens = process_cmd msg.cmd s flush view opens

  unfoldable pub drain : Service → List Drained → Service
  unfolding process_storage_command
  drain s [] = s
  drain s (d ∷ ds) = drain (process_storage_command s d.msg d.flush d.view d.opens).0 ds

  -- The messages are those that the queue still holds.
  unfoldable pub stop_storage_worker : Service → List Drained → Service
  unfolding drain
  stop_storage_worker s remaining =
      if not s.storage_worker_running && not s.has_task
      then s
      else record (drain (record s { storage_worker_running = false }) remaining) {
        has_task = false;
      }

  -- The backup if it holds an event, with the boot counted; a fresh state otherwise.
  unfoldable pub restore_or_reset : Service → RestoreCall → Service
  unfolding restore_from_nvs reset_state
  restore_or_reset s view =
      let (restored, count) = restore_from_nvs cfg s view in
      if ltb 0 count
      then record restored {
        state = record (restored.state) { boot_count = u32 (restored.state.boot_count + 1) };
      }
      else record restored { state = record (reset_state cfg restored.state) { boot_count = 1 } }

  -- The handles that were missing are made again.
  abbrev pub with_handles : Service → InitCall → Service
  with_handles s call = record s {
    has_mutex = s.has_mutex || call.mutex_created;
    has_queue = s.has_queue || call.queue_created;
  }

  -- The branches of `init` on the kind of boot.
  unfoldable pub boot : Service → InitCall → Service
  unfolding restore_or_reset validate_state
  boot s call =
      let is_cold_boot =
        is_cold_reason call.reason || not (s.state.magic_number == cfg.rtc_magic_number) in
      if is_cold_boot
      then restore_or_reset (with_handles s call) call.view
      else if not (validate_state cfg s.state)
      then restore_or_reset (with_handles s call) call.view
      else with_handles s call

  unfoldable pub init : Service → InitCall → Service
  unfolding boot start_storage_worker
  init s call =
      let booted = boot s call in
      let ready = record booted {
        state = update_crc booted.state;
        last_nvs_flush_id = booted.state.global_event_id;
        events_since_flush = 0;
        initialized = true;
      } in
      (start_storage_worker ready call.task_created).0
