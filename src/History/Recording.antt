-- ===== src/History/Recording.antt =====
-- `logDetection` as a whole: the event stored, the id returned, the flush asked for.
use esp32_sensor_firmware_pl.Prelude.{
  ℕ, ◌+◌, ◌-◌, ◌≤◌, ◌≡◌, refl, sym, ap, subst, ◌∙◌, Bool, false, not, ◌&&◌, ◌||◌, ◌++◌, List, [],
  ◌∷◌, none, some, leb, drop, if◌then◌else◌, arith, u8, u32, if_all,
}
use esp32_sensor_firmware_pl.Platform.{Call}
use esp32_sensor_firmware_pl.Event.{DetectionEvent, is_time_estimated}
use esp32_sensor_firmware_pl.History.State.{
  Config, RtcState, Service, save_hit, event_count, needs_nvs_flush, update_crc,
}
use esp32_sensor_firmware_pl.History.Window.{contents, InBounds}
use esp32_sensor_firmware_pl.History.Append.{
  IsSealed, is_full, push_bounded, detection, contents-store_event, store_event-InBounds,
  store_event-IsSealed,
}
use esp32_sensor_firmware_pl.History.Queries.{IsReady}
use esp32_sensor_firmware_pl.History.Log.{
  min_valid_epoch, store_event, queue_flush, queue_storage_command, should_queue_flush,
  log_detection, critical_flush_threshold,
}
use esp32_sensor_firmware_pl.History.Backfill.{state-queue_flush}
use esp32_sensor_firmware_pl.History.Marking.{IsSound}

-- The service once the event is stored and counted, before a flush is considered.
abbrev pub recorded : Config → Service → Call → ℕ → Service
recorded cfg s call d = record s {
  state = store_event cfg s.state s.time_sync_received call d;
  events_since_flush = u8 (s.events_since_flush + 1);
}

abbrev pub logged : Config → Service → Call → ℕ → Service
logged cfg s call d =
    if should_queue_flush cfg (recorded cfg s call d) && not s.flush_pending
    then queue_flush (recorded cfg s call d) call (u32 (s.state.global_event_id + 1))
    else recorded cfg s call d

log_detection-ready :
    (cfg : Config) (s : Service) (call : Call) (d : ℕ)
    → IsReady cfg s call
    → log_detection cfg s call d ≡ (
      logged cfg s call d,
      u32 (s.state.global_event_id + 1),
      if leb min_valid_epoch call.epoch then some call.epoch else none,
    )
unfolding log_detection
log_detection-ready cfg s call d ready =
    if_all s.initialized s.has_mutex call.mutex_taken _ _ ready.initialized ready.has_mutex
      ready.mutex_taken

state-logged :
    (cfg : Config) (s : Service) (call : Call) (d : ℕ)
    → (logged cfg s call d).state ≡ store_event cfg s.state s.time_sync_received call d
state-logged cfg s call d =
    ground
      (arith, state-queue_flush (recorded cfg s call d) call (u32 (s.state.global_event_id + 1)))

last_id-store_event :
    (cfg : Config) (st : RtcState) (b : Bool) (call : Call) (d : ℕ)
    → (store_event cfg st b call d).global_event_id ≡ u32 (st.global_event_id + 1)
unfolding store_event update_crc
last_id-store_event cfg st b call d = refl

-- On a ready service `logDetection` pushes its event onto the queue of `BUFFER_SIZE - 1` events (a
-- full queue loses its oldest, and the event is then flagged), returns the event's id, which is the
-- new last id, and leaves the ring sound.
pub log_detection_lem :
    (cfg : Config) (s : Service) (call : Call) (d : ℕ)
    → IsReady cfg s call
    → IsSealed cfg s.state
    → let (s', id, epoch) = log_detection cfg s call d in
      (contents cfg s'.state
        ≡ push_bounded
            (cfg.buffer_size - 1)
            (contents cfg s.state)
            (detection s.state call d (is_full (cfg.buffer_size - 1) (contents cfg s.state))))
      × (id ≡ u32 (s.state.global_event_id + 1))
      × (s'.state.global_event_id ≡ id)
      × IsSound cfg s'
log_detection_lem cfg s call d ready sealed = rw (log_detection-ready cfg s call d ready) (
  ap (contents cfg) (state-logged cfg s call d)
      ∙ contents-store_event cfg s.state s.time_sync_received call d ready.in_bounds,
  refl,
  ap (λ st. st.global_event_id) (state-logged cfg s call d)
      ∙ last_id-store_event cfg s.state s.time_sync_received call d,
  record {
    bounds =
        subst (InBounds cfg) (sym (state-logged cfg s call d))
          (store_event-InBounds cfg s.state s.time_sync_received call d ready.in_bounds);
    sealed =
        subst (IsSealed cfg) (sym (state-logged cfg s call d))
          (store_event-IsSealed cfg s.state s.time_sync_received call d ready.in_bounds sealed);
  },
)

-- A service that is not initialized, has no mutex or does not get it in time drops the detection: it
-- returns 0 and changes nothing.
pub log_detection-refused :
    (cfg : Config) (s : Service) (call : Call) (d : ℕ)
    → (s.initialized && s.has_mutex && call.mutex_taken) ≡ false
    → log_detection cfg s call d ≡ (s, 0, none)
unfolding log_detection
log_detection-refused cfg s call d h = rw h

-- A message for the storage worker is taken exactly when the ring is 90 % full, or the flush is due
-- and no central is connected, and no flush is pending, and the queue is there and takes it; then the
-- flush is pending, and otherwise the flag stays as it was.
pub log_detection-flush :
    (cfg : Config) (s : Service) (call : Call) (d : ℕ)
    → IsReady cfg s call
    → let s' = (log_detection cfg s call d).0 in
      let due =
        (leb (critical_flush_threshold cfg) (event_count cfg s'.state)
          || (leb cfg.nvs_flush_threshold (u8 (s.events_since_flush + 1)) && not s.ble_connected))
        && not s.flush_pending
        && s.has_queue
        && call.queue_accepts in
      (s'.accepted ≡ (
        if due
        then s.accepted
          ++ record { cmd = save_hit; event_id = u32 (s.state.global_event_id + 1) } ∷ []
        else s.accepted))
      × (s'.flush_pending ≡ (s.flush_pending || due))
unfolding queue_flush queue_storage_command should_queue_flush needs_nvs_flush
log_detection-flush cfg s call d ready =
    rw (log_detection-ready cfg s call d ready, state-logged cfg s call d) (ground arith)

-- An event dated by a clock that was set before this boot is meant to be flagged as estimated; the
-- flags are cleared after that, so the event just stored never is.
pub log_detection-not_estimated :
    (cfg : Config) (s : Service) (call : Call) (d : ℕ)
    → IsReady cfg s call
    → IsSealed cfg s.state
    → min_valid_epoch ≤ call.epoch
    → s.time_sync_received ≡ false
    → (older : List DetectionEvent) × (e : DetectionEvent) × (contents cfg
          (log_detection cfg s call d).0.state
        ≡ older ++ (e ∷ []))
      × (e.timestamp ≡ call.epoch)
      × (is_time_estimated e ≡ false)
unfolding is_time_estimated
log_detection-not_estimated cfg s call d ready sealed valid chained = (
  if is_full (cfg.buffer_size - 1) (contents cfg s.state)
      then drop 1 (contents cfg s.state)
      else contents cfg s.state,
  detection s.state call d (is_full (cfg.buffer_size - 1) (contents cfg s.state)),
  (log_detection_lem cfg s call d ready sealed).0,
  ground arith,
  ground arith,
)
