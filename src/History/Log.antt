-- ===== src/History/Log.antt =====
-- `queueStorageCommand` and `logDetection` of src/Services/HistoryService.cpp.
use esp32_sensor_firmware_pl.Prelude.{
  ℕ, ◌+◌, ◌*◌, ◌/◌, Bool, true, false, not, ◌&&◌, ◌||◌, ◌++◌, [], ◌∷◌, Option, none, some, leb,
  ◌==◌, set, replicate, u8, u32, if◌then◌else◌,
}
use esp32_sensor_firmware_pl.Platform.{Call}
use esp32_sensor_firmware_pl.Event.{DetectionEvent, set_overflow, set_time_estimated, clear_flags}
use esp32_sensor_firmware_pl.History.State.{
  Config, RtcState, Service, StorageMessage, save_hit, event_at, next_index, update_crc,
  needs_nvs_flush, event_count,
}

-- `MIN_VALID_EPOCH`, 2020-01-01.
abbrev pub min_valid_epoch : ℕ
min_valid_epoch = 1577836800

-- `queueStorageCommand`: the service, and whether the message was taken.
unfoldable pub queue_storage_command : Service → Call → StorageMessage → Service × Bool
queue_storage_command s call msg =
    if s.has_queue && call.queue_accepts
    then (record s { accepted = s.accepted ++ (msg ∷ []) }, true)
    else (s, false)

-- `_flushPending = true; if (!queueStorageCommand(...)) _flushPending = false;`
unfoldable pub queue_flush : Service → Call → ℕ → Service
unfolding queue_storage_command
queue_flush s call event_id =
    let marked = record s { flush_pending = true } in
    let (sent, ok) =
      queue_storage_command marked call (record { cmd = save_hit; event_id = event_id }) in
    if ok then sent else record sent { flush_pending = false }

-- What `logDetection` writes into the cell at the head, given what stood there.
unfoldable pub logged_event : DetectionEvent → RtcState → Bool → Call → ℕ → Bool → DetectionEvent
unfolding set_overflow set_time_estimated clear_flags
logged_event old st time_sync_received call duration_ms overflow =
    let stamped = record old {
      id = u32 (st.global_event_id + 1);
      timestamp_ms = call.uptime;
      boot_count = st.boot_count;
      duration_ms = duration_ms;
      timestamp = if leb min_valid_epoch call.epoch then call.epoch else 0;
    } in
    let estimated =
      if leb min_valid_epoch call.epoch && not time_sync_received
      then set_time_estimated stamped
      else stamped in
    let cleared = clear_flags (record estimated { reserved = replicate 5 0 }) in
    if overflow then set_overflow cleared else cleared

module _ (cfg : Config) where
  -- What `logDetection` does to the stored state while it holds the mutex.
  unfoldable pub store_event : RtcState → Bool → Call → ℕ → RtcState
  store_event st time_sync_received call duration_ms =
      let next_head = next_index cfg st.head in
      let overflow = next_head == st.tail in
      let event =
        logged_event (event_at st.buffer st.head) st time_sync_received call duration_ms overflow in
      update_crc (record st {
        tail = if overflow then next_index cfg st.tail else st.tail;
        global_event_id = u32 (st.global_event_id + 1);
        buffer = set st.buffer st.head event;
        head = next_head;
      })

  -- `CRITICAL_FLUSH_THRESHOLD`.
  abbrev pub critical_flush_threshold : ℕ
  critical_flush_threshold = cfg.buffer_size * 9 / 10

  -- Whether `logDetection` asks for a flush: a ring 90 % full, or a due flush with no central
  -- connected.
  unfoldable pub should_queue_flush : Service → Bool
  unfolding event_count needs_nvs_flush
  should_queue_flush s =
      leb critical_flush_threshold (event_count cfg s.state)
      || (needs_nvs_flush cfg s && not s.ble_connected)

  -- The service, the event id returned (0 on failure), and the epoch that is handed to
  -- `ConfigService::updateLastKnownEpoch`.
  unfoldable pub log_detection : Service → Call → ℕ → Service × ℕ × Option ℕ
  unfolding store_event should_queue_flush queue_flush
  log_detection s call duration_ms =
      if s.initialized && s.has_mutex && call.mutex_taken
      then (let stored = record s {
        state = store_event s.state s.time_sync_received call duration_ms;
        events_since_flush = u8 (s.events_since_flush + 1);
      } in
          let event_id = u32 (s.state.global_event_id + 1) in
          (
            if should_queue_flush stored && not stored.flush_pending
                then queue_flush stored call event_id
                else stored,
            event_id,
            if leb min_valid_epoch call.epoch then some call.epoch else none,
          ))
      else (s, 0, none)
