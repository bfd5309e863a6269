-- ===== src/History/Nvs.antt =====
-- The NVS backup of the history: `flushToNvs`, `restoreFromNvs`, `fastForwardEventId` and the
-- metadata pair. The `Preferences` library is not code of the repository: its answers are inputs, and
-- what it is given to write is an output.
use esp32_sensor_firmware_pl.Prelude.{
  ℕ, zero, suc, ◌+◌, ◌*◌, Bool, true, false, not, ◌&&◌, List, Option, none, some, ltb, ◌==◌,
  has_bit, u8, if◌then◌else◌,
}
use esp32_sensor_firmware_pl.Platform.{Call}
use esp32_sensor_firmware_pl.Event.{DetectionEvent}
use esp32_sensor_firmware_pl.History.State.{
  Config, RtcState, Service, StorageMessage, force_flush, update_crc, event_count,
}
use esp32_sensor_firmware_pl.History.Log.{queue_storage_command}

-- The five entries of the namespace "devicedata".
pub record NvsImage : Type 0 where
  pub boot_count : ℕ
  pub event_id : ℕ
  pub head : ℕ
  pub tail : ℕ
  pub events : List DetectionEvent

-- What a flush meets. The `put` fields are the numbers that `putULong` and `putUShort` return; an
-- attempt of `putBytes` returns the number of bytes written.
pub record FlushCall : Type 0 where
  pub battery_critical : Bool
  pub charging : Bool
  pub pairing_mode : Bool
  pub mutex_taken : Bool
  pub opens : Bool
  pub put_boot_count : ℕ
  pub put_event_id : ℕ
  pub put_head : ℕ
  pub put_tail : ℕ
  pub put_bytes : ℕ → ℕ

-- `sizeof(DetectionEvent)`.
abbrev pub event_size : ℕ
event_size = 24

-- `success &= n`, with `success` a bool and `n` a size_t: only the lowest bit of `n` counts.
abbrev pub and_assign : Bool → ℕ → Bool
and_assign success n = success && has_bit 0 n

-- The retry loop: `rounds` attempts are left, and the last result is kept.
unfoldable pub put_events : (ℕ → ℕ) → ℕ → ℕ → ℕ → ℕ → ℕ
put_events put_bytes size zero attempt written = written
put_events put_bytes size (suc rounds) attempt written =
    let now = put_bytes attempt in
    let rest = put_events put_bytes size rounds (attempt + 1) now in
    if now == size then now else rest

abbrev pub image_of : RtcState → NvsImage
image_of st = record {
  boot_count = st.boot_count;
  event_id = st.global_event_id;
  head = st.head;
  tail = st.tail;
  events = st.buffer;
}

-- What a restore reads: `image` holds what the getters return.
pub record RestoreCall : Type 0 where
  pub opens : Bool
  pub has_event_id : Bool
  pub image : NvsImage
  pub mutex_taken : Bool

module _ (cfg : Config) where
  -- The service, the result, and the image handed to the store, if the flush got so far.
  unfoldable pub flush_to_nvs : Service → FlushCall → Service × Bool × Option NvsImage
  unfolding put_events
  flush_to_nvs s call =
      let size = cfg.buffer_size * event_size in
      let copied = record s {
        last_nvs_flush_id = s.state.global_event_id;
        events_since_flush = 0;
      } in
      let success =
        and_assign
          (and_assign (and_assign (and_assign true call.put_boot_count) call.put_event_id)
            call.put_head)
          call.put_tail in
      let written = put_events call.put_bytes size 3 0 0 in
      if not s.initialized
      then (s, false, none)
      else if call.battery_critical && not call.charging
      then (s, false, none)
      else if call.pairing_mode
      then (s, false, none)
      else if not s.has_mutex
      then (s, false, none)
      else if not call.mutex_taken
      then (s, false, none)
      else if not call.opens
      then (copied, false, none)
      else (copied, (written == size) && success, some (image_of s.state))

  unfoldable pub restored_state : RtcState → NvsImage → RtcState
  restored_state st image = update_crc (record st {
    magic_number = cfg.rtc_magic_number;
    boot_count = image.boot_count;
    global_event_id = image.event_id;
    head = image.head;
    tail = image.tail;
    buffer = image.events;
  })

  -- The service and the number of events restored (a uint8_t).
  unfoldable pub restore_from_nvs : Service → RestoreCall → Service × ℕ
  unfolding restored_state event_count
  restore_from_nvs s call =
      if not call.opens
      then (s, 0)
      else if not call.has_event_id
      then (s, 0)
      else if s.has_mutex && call.mutex_taken
      then (
        record s {
          state = restored_state s.state call.image;
          last_nvs_flush_id = call.image.event_id;
          events_since_flush = 0;
        },
        u8 (event_count cfg (restored_state s.state call.image)),
      )
      else (s, 0)

  unfoldable pub save_metadata_to_nvs : Service → FlushCall → Bool × Option (ℕ × ℕ)
  save_metadata_to_nvs s call =
      if s.has_mutex && call.mutex_taken && call.opens
      then (true, some (s.state.boot_count, s.state.global_event_id))
      else (false, none)

  -- The third argument: whether the key of the boot count is there.
  unfoldable pub load_metadata_from_nvs : Service → RestoreCall → Bool → Service × Bool
  load_metadata_from_nvs s call has_boot_count =
      if call.opens && has_boot_count && s.has_mutex && call.mutex_taken
      then (
        record s {
          state = record (s.state) {
            boot_count = call.image.boot_count;
            global_event_id = call.image.event_id;
          };
        },
        true,
      )
      else (s, false)

  -- The service, and what a synchronous flush handed to the store.
  unfoldable pub fast_forward_event_id : Service → Call → FlushCall → ℕ → Service × Option NvsImage
  unfolding queue_storage_command flush_to_nvs
  fast_forward_event_id s call flush new_id =
      if s.initialized && s.has_mutex && call.mutex_taken && ltb s.state.global_event_id new_id
      then (let moved = record s {
        state = update_crc (record (s.state) { global_event_id = new_id });
        events_since_flush = cfg.nvs_flush_threshold;
      } in
          let msg : StorageMessage = record { cmd = force_flush; event_id = new_id } in
          let sent : Service × Bool =
            if moved.storage_worker_running
            then queue_storage_command moved call msg
            else (moved, false) in
          if sent.1
          then (sent.0, none)
          else (let (flushed, ok, image) = flush_to_nvs sent.0 flush in (flushed, image)))
      else (s, none)
