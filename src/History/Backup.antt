-- ===== src/History/Backup.antt =====
-- What a flush writes and returns, and what a restore brings back.
use esp32_sensor_firmware_pl.Prelude.{
  ℕ, ◌*◌, ◌%◌, ◌≤◌, ◌<◌, ◌≡◌, ◌⊎◌, refl, sym, subst, Bool, true, false, not, ◌&&◌, ◌||◌, none, some,
  ◌==◌, length, if◌then◌else◌, arith, u8,
}
use esp32_sensor_firmware_pl.History.State.{
  Config, RtcState, Service, event_count, update_crc, calculate_buffer_crc,
}
use esp32_sensor_firmware_pl.History.Window.{contents, InBounds, event_count-closes, length-window}
use esp32_sensor_firmware_pl.History.Append.{IsSealed}
use esp32_sensor_firmware_pl.History.Marking.{IsSound}
use esp32_sensor_firmware_pl.History.Nvs.{
  NvsImage, FlushCall, RestoreCall, event_size, put_events, image_of, flush_to_nvs, restored_state,
  restore_from_nvs,
}

-- Up to three attempts: the last result is the full size exactly when one of them wrote it all.
put_events_lem :
    (f : ℕ → ℕ) (size : ℕ)
    → 0 < size
    → (put_events f size 3 0 0 == size) ≡ ((f 0 == size) || (f 1 == size) || (f 2 == size))
unfolding put_events
put_events_lem f size h = ground arith

abbrev pub flushes : Service → FlushCall → Bool
flushes s call =
    s.initialized
    && not (call.battery_critical && not call.charging)
    && not call.pairing_mode
    && s.has_mutex
    && call.mutex_taken

-- `flushToNvs` hands its image to the store exactly when the service is initialized, the battery is
-- not critical (or charging), no pairing is on, the mutex is taken and the namespace opens. It leaves
-- the stored state alone, and the count of unflushed events restarts even where the store fails.
pub flush_to_nvs_lem :
    (cfg : Config) (s : Service) (call : FlushCall)
    → let (s', ok, image) = flush_to_nvs cfg s call in
      (image ≡ (if flushes s call && call.opens then some (image_of s.state) else none))
      × (s'.state ≡ s.state)
      × (s'.events_since_flush ≡ (if flushes s call then 0 else s.events_since_flush))
unfolding flush_to_nvs
flush_to_nvs_lem cfg s call = ground arith

-- `flushToNvs` returns true exactly when the image went to the store, all four `put` results are odd
-- numbers, and one of three attempts wrote the whole buffer.
pub flush_to_nvs-result :
    (cfg : Config) (s : Service) (call : FlushCall)
    → 0 < cfg.buffer_size
    → (flush_to_nvs cfg s call).1 ≡ (
        flushes s call
        && call.opens
        && ((call.put_bytes 0 == cfg.buffer_size * event_size)
            || (call.put_bytes 1 == cfg.buffer_size * event_size)
            || (call.put_bytes 2 == cfg.buffer_size * event_size))
        && (call.put_boot_count % 2 == 1)
        && (call.put_event_id % 2 == 1)
        && (call.put_head % 2 == 1)
        && (call.put_tail % 2 == 1))
unfolding flush_to_nvs
flush_to_nvs-result cfg s call h =
    ground (arith, put_events_lem call.put_bytes (cfg.buffer_size * event_size) (omega arith))

-- The store returns the number of bytes of an entry that it has written, and 0 on failure.
pub record CountsBytes (call : FlushCall) : Type 0 where
  pub boot_count_bytes : (call.put_boot_count ≡ 4) ⊎ (call.put_boot_count ≡ 0)
  pub event_id_bytes : (call.put_event_id ≡ 4) ⊎ (call.put_event_id ≡ 0)
  pub head_bytes : (call.put_head ≡ 2) ⊎ (call.put_head ≡ 0)
  pub tail_bytes : (call.put_tail ≡ 2) ⊎ (call.put_tail ≡ 0)

-- Where the store counts bytes, `flushToNvs` reports a failure whatever it has written.
pub flush_to_nvs-never_ok :
    (cfg : Config) (s : Service) (call : FlushCall)
    → CountsBytes call
    → (flush_to_nvs cfg s call).1 ≡ false
unfolding flush_to_nvs
flush_to_nvs-never_ok cfg s call counts = ground (arith, counts)

flushed_image :
    (cfg : Config) (s : Service) (call : FlushCall) {image : NvsImage}
    → (flush_to_nvs cfg s call).2 ≡ some image
    → image ≡ image_of s.state
flushed_image cfg s call wrote = ground (arith, (flush_to_nvs_lem cfg s call).0)

pub restore_from_nvs-opened :
    (cfg : Config) (t : Service) (view : RestoreCall)
    → view.opens ≡ true
    → view.has_event_id ≡ true
    → t.has_mutex ≡ true
    → view.mutex_taken ≡ true
    → restore_from_nvs cfg t view ≡ (
      record t {
        state = restored_state cfg t.state view.image;
        last_nvs_flush_id = view.image.event_id;
        events_since_flush = 0;
      },
      u8 (event_count cfg (restored_state cfg t.state view.image)),
    )
unfolding restore_from_nvs
restore_from_nvs-opened cfg t view o k m taken = ground arith

-- Of an image that is the copy of a ring within its bounds.
pub restored_state_lem :
    (cfg : Config) (st old : RtcState) (image : NvsImage)
    → image ≡ image_of old
    → InBounds cfg old
    → let st' = restored_state cfg st image in
      (contents cfg st' ≡ contents cfg old)
      × (event_count cfg st' ≡ event_count cfg old)
      × (st'.boot_count ≡ old.boot_count)
      × (st'.global_event_id ≡ old.global_event_id)
      × InBounds cfg st'
      × IsSealed cfg st'
unfolding restored_state update_crc event_count calculate_buffer_crc
restored_state_lem cfg st old image e v =
    subst
      (λ i.
        let st' = restored_state cfg st i in
        (contents cfg st' ≡ contents cfg old)
        × (event_count cfg st' ≡ event_count cfg old)
        × (st'.boot_count ≡ old.boot_count)
        × (st'.global_event_id ≡ old.global_event_id)
        × InBounds cfg st'
        × IsSealed cfg st')
      (sym e)
      (
        refl,
        refl,
        refl,
        refl,
        record {
          two_cells = v.two_cells;
          cells = v.cells;
          head_in = v.head_in;
          tail_in = v.tail_in;
        },
        record { magic = refl; checksum = refl },
      )

-- With a ring of at most 256 cells whose indices are within it, a restore that takes its mutex, opens the
-- store and reads back what a flush has handed to it brings back the events, the boot count and the last
-- id, in a sound ring, and returns the number of events.
pub restore-flush :
    (cfg : Config) (s t : Service) (call : FlushCall) (view : RestoreCall)
    → InBounds cfg s.state
    → cfg.buffer_size ≤ 256
    → (flush_to_nvs cfg s call).2 ≡ some view.image
    → view.opens ≡ true
    → view.has_event_id ≡ true
    → t.has_mutex ≡ true
    → view.mutex_taken ≡ true
    → let (t', count) = restore_from_nvs cfg t view in
      (contents cfg t'.state ≡ contents cfg s.state)
      × (count ≡ length (contents cfg s.state))
      × (t'.state.boot_count ≡ s.state.boot_count)
      × (t'.state.global_event_id ≡ s.state.global_event_id)
      × IsSound cfg t'
restore-flush cfg s t call view v small wrote o k m taken =
    let st = restored_state_lem cfg t.state s.state view.image (flushed_image cfg s call wrote) v in
    rw (restore_from_nvs-opened cfg t view o k m taken) (
      st.0,
      omega (
        arith,
        st.1,
        event_count-closes cfg s.state v,
        length-window s.state.buffer cfg.buffer_size s.state.tail (event_count cfg s.state),
      ),
      st.2,
      st.3,
      record { bounds = st.4; sealed = st.5 },
    )
