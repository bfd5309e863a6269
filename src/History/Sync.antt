-- ===== src/History/Sync.antt =====
-- The methods that mark events as synced and that date them: `markAsSynced`,
-- `markMultipleAsSynced`, `applyTimeSync`, `onSystemTimeSynced`, `clear`, `setBleConnected`.
use esp32_sensor_firmware_pl.Prelude.{
  ℕ, ◌+◌, ◌-◌, ◌/◌, Bool, true, false, not, ◌&&◌, List, [], ◌∷◌, Option, none, some, leb, ltb, ◌==◌,
  set, replicate, u8, u32, if◌then◌else◌,
}
use esp32_sensor_firmware_pl.Platform.{Call}
use esp32_sensor_firmware_pl.Event.{DetectionEvent, zero_event, is_synced, set_synced}
use esp32_sensor_firmware_pl.History.State.{
  Config, RtcState, Service, event_at, update_crc, needs_nvs_flush,
}
use esp32_sensor_firmware_pl.History.Scan.{scan}
use esp32_sensor_firmware_pl.History.Readers.{always}
use esp32_sensor_firmware_pl.History.Log.{queue_flush}

-- `_state.buffer[i] = event`.
abbrev pub put_event : RtcState → ℕ → DetectionEvent → RtcState
put_event st i e = record st { buffer = set st.buffer i e }

-- The loop body of `markAsSynced`.
abbrev pub mark_one : ℕ → ℕ → RtcState × Bool → (RtcState × Bool) × Bool
mark_one event_id i (st, found) =
    if (event_at st.buffer i).id == event_id
    then ((update_crc (put_event st i (set_synced (event_at st.buffer i))), true), true)
    else ((st, found), false)

-- The inner loop body of `markMultipleAsSynced`.
abbrev pub mark_counted : ℕ → ℕ → RtcState × ℕ → (RtcState × ℕ) × Bool
mark_counted event_id i (st, count) =
    if (event_at st.buffer i).id == event_id
    then (if is_synced (event_at st.buffer i)
        then ((st, count), true)
        else ((put_event st i (set_synced (event_at st.buffer i)), u8 (count + 1)), true))
    else ((st, count), false)

-- `bootEpoch`: the epoch at which the uptime was 0, or 0 where it would be negative.
abbrev pub boot_epoch : ℕ → ℕ → ℕ
boot_epoch current_epoch uptime =
    if leb (uptime / 1000) current_epoch then current_epoch - uptime / 1000 else 0

-- An event of this boot that has no time gets one.
abbrev pub is_undated : ℕ → DetectionEvent → Bool
is_undated boot_count e = e.boot_count == boot_count && e.timestamp == 0

abbrev pub date_event : ℕ → ℕ → DetectionEvent → DetectionEvent
date_event current_epoch uptime e = record e {
  timestamp = u32 (boot_epoch current_epoch uptime + e.timestamp_ms / 1000);
}

-- The loop body of `applyTimeSync`; the number is `updatedCount`.
abbrev pub backfill : ℕ → ℕ → ℕ → RtcState × ℕ → (RtcState × ℕ) × Bool
backfill current_epoch uptime i (st, updated) =
    if is_undated st.boot_count (event_at st.buffer i)
    then (
      (put_event st i (date_event current_epoch uptime (event_at st.buffer i)), u32 (updated + 1)),
      false,
    )
    else ((st, updated), false)

module _ (cfg : Config) where
  -- One loop that may write the ring; `head` and `tail` do not change under it.
  abbrev pub through_ring : {S : Type 0} → (ℕ → S → S × Bool) → RtcState → S → Option S
  through_ring visit st s = scan cfg.buffer_size always visit st.head cfg.buffer_size st.tail s

  abbrev pub marked : Service → Option (RtcState × Bool) → Option (Service × Bool)
  marked s none = none
  marked s (some (st, found)) = some (record s { state = st }, found)

  unfoldable pub mark_as_synced : Service → Call → ℕ → Option (Service × Bool)
  mark_as_synced s call event_id =
      if s.initialized && s.has_mutex && call.mutex_taken
      then marked s (through_ring (mark_one event_id) s.state (s.state, false))
      else some (s, false)

  -- The outer loop of `markMultipleAsSynced`.
  unfoldable pub mark_each : List ℕ → RtcState → ℕ → Option (RtcState × ℕ)
  mark_each [] st count = some (st, count)
  mark_each (event_id ∷ ids) st count = elim (through_ring (mark_counted event_id) st (st, count)) [
    | none ↦ none
    | some r ↦ mark_each ids r.0 r.1
  ]

  abbrev pub counted : Service → Option (RtcState × ℕ) → Option (Service × ℕ)
  counted s none = none
  counted s (some (st, count)) =
      some (record s { state = if ltb 0 count then update_crc st else st }, count)

  unfoldable pub mark_multiple_as_synced : Service → Call → List ℕ → Option (Service × ℕ)
  unfolding mark_each
  mark_multiple_as_synced s call [] = some (s, 0)
  mark_multiple_as_synced s call (event_id ∷ ids) =
      if s.initialized && s.has_mutex && call.mutex_taken
      then counted s (mark_each (event_id ∷ ids) s.state 0)
      else some (s, 0)

  -- After the loop of `applyTimeSync`: the checksum, and a flush through a running worker.
  abbrev pub backfilled : Service → Call → Option (RtcState × ℕ) → Option Service
  backfilled s call none = none
  backfilled s call (some (st, updated)) = some (
      if ltb 0 updated
      then (let sealed = record s { state = update_crc st } in
          if sealed.storage_worker_running && not sealed.flush_pending
          then queue_flush sealed call 0
          else sealed)
      else record s { state = st })

  abbrev pub with_clock : ℕ → Option Service → Option (Service × Option ℕ)
  with_clock current_epoch none = none
  with_clock current_epoch (some s) = some (s, some current_epoch)

  -- The service, and the seconds that `settimeofday` is called with.
  unfoldable pub apply_time_sync : Service → Call → ℕ → Option (Service × Option ℕ)
  apply_time_sync s call current_epoch =
      if s.initialized && s.has_mutex
      then (let synced = record s { time_sync_received = true } in
          with_clock current_epoch (
            if call.mutex_taken
            then backfilled synced call
                (through_ring (backfill current_epoch call.uptime) synced.state (synced.state, 0))
            else some synced))
      else some (s, none)

  unfoldable pub on_system_time_synced : Service → Call → ℕ → Option (Service × Option ℕ)
  unfolding apply_time_sync
  on_system_time_synced s call current_epoch = apply_time_sync s call current_epoch

  unfoldable pub clear : Service → Call → Service
  clear s call =
      if s.has_mutex && call.mutex_taken
      then record s {
        state = update_crc (record (s.state) {
          head = 0;
          tail = 0;
          global_event_id = 0;
          buffer = replicate cfg.buffer_size zero_event;
        });
      }
      else s

  unfoldable pub set_ble_connected : Service → Call → Bool → Service
  set_ble_connected s call connected =
      let changed = record s { ble_connected = connected } in
      let started =
        if not s.ble_connected && connected
        then record changed { connection_start_time = call.millis }
        else changed in
      if s.ble_connected && not connected
      then (let stopped = record started { connection_start_time = 0 } in
          if needs_nvs_flush cfg stopped && not stopped.flush_pending
          then queue_flush stopped call stopped.state.global_event_id
          else stopped)
      else started
