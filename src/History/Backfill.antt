-- ===== src/History/Backfill.antt =====
-- Dating events after a time sync, in terms of the list of events that the ring holds.
use esp32_sensor_firmware_pl.Prelude.{
  ℕ, suc, ◌+◌, ◌^◌, ◌≤◌, ◌<◌, ◌≡◌, inl, inr, refl, sym, ap, subst, ◌∙◌, true, false, not, ◌&&◌,
  List, [], ◌∷◌, map, some, ltb, length, set, if◌then◌else◌, arith, u32, if_both, if_true,
  Bool-cases,
}
use esp32_sensor_firmware_pl.Platform.{Call}
use esp32_sensor_firmware_pl.Event.{DetectionEvent}
use esp32_sensor_firmware_pl.History.State.{
  Config, RtcState, Service, event_at, event_count, update_crc, calculate_buffer_crc,
}
use esp32_sensor_firmware_pl.History.Scan.{walk}
use esp32_sensor_firmware_pl.History.Readers.{always}
use esp32_sensor_firmware_pl.History.Window.{window, contents, InBounds, event_count-closes}
use esp32_sensor_firmware_pl.History.Append.{IsSealed}
use esp32_sensor_firmware_pl.History.Queries.{IsReady}
use esp32_sensor_firmware_pl.History.Log.{queue_flush, queue_storage_command}
use esp32_sensor_firmware_pl.History.Sync.{
  is_undated, date_event, backfill, backfilled, with_clock, apply_time_sync,
}
use esp32_sensor_firmware_pl.History.Edit.{Edit, edit_events, Edited, walk-edit}
use esp32_sensor_firmware_pl.History.Marking.{
  SameFrame, SameFrame-refl, contents-SameFrame, InBounds-SameFrame, through_ring-walk, set-get_or,
  IsSound,
}

-- The effect of a time sync on one event of the boot `boot_count`.
abbrev pub dated : ℕ → ℕ → ℕ → DetectionEvent → DetectionEvent
dated boot_count current_epoch uptime e =
    if is_undated boot_count e then date_event current_epoch uptime e else e

edit_date : ℕ → ℕ → ℕ → Edit ℕ
edit_date boot_count current_epoch uptime e updated =
    if is_undated boot_count e
    then (date_event current_epoch uptime e, u32 (updated + 1), false)
    else (e, updated, false)

edit_date-map :
    (boot_count current_epoch uptime : ℕ) (es : List DetectionEvent) (a : ℕ)
    → (edit_events (edit_date boot_count current_epoch uptime) es a).0
      ≡ map (dated boot_count current_epoch uptime) es
unfolding edit_date
edit_date-map b t u [] a = refl
edit_date-map b t u (e ∷ es) a =
    ground (arith, edit_date-map b t u es a, edit_date-map b t u es (u32 (a + 1)))

module _ (cfg : Config) (st : RtcState) (v : InBounds cfg st) (t u : ℕ) where
  date_result : RtcState × ℕ
  date_result =
      walk cfg.buffer_size always (backfill t u) st.head (event_count cfg st) st.tail (st, 0)

  abbrev Dating : ℕ → RtcState → ℕ → Type 0
  Dating n st' a = SameFrame st st' × (a + n < 2 ^ 32) × (a ≡ 0 → st' ≡ st)

  abbrev Dated : RtcState → ℕ → Type 0
  Dated st' a = SameFrame st st' × (a ≡ 0 → st' ≡ st)

  date_done : (st' : RtcState) (a : ℕ) → Dating 0 st' a → Dated st' a
  date_done st' a k = (k.0, k.2)

  date_leaves :
      (n i : ℕ) (st' : RtcState) (a : ℕ)
      → Dating (suc n) st' a
      → (backfill t u i (st', a)).1 ≡ true
      → Dated (backfill t u i (st', a)).0.0 (backfill t u i (st', a)).0.1
  date_leaves n i st' a k h = ground arith

  date_keeps :
      (n i : ℕ) (st' : RtcState) (a : ℕ)
      → Dating (suc n) st' a
      → (backfill t u i (st', a)).1 ≡ false
      → Dating n (backfill t u i (st', a)).0.0 (backfill t u i (st', a)).0.1
  date_keeps n i st' a k h = ground (arith, k)

  date_writes :
      (n i : ℕ) (st' : RtcState) (a : ℕ)
      → Dating (suc n) st' a
      → ((backfill t u i (st', a)).0.0.buffer
          ≡ set st'.buffer i (edit_date st.boot_count t u (event_at st'.buffer i) a).0)
        × ((backfill t u i (st', a)).0.1
            ≡ (edit_date st.boot_count t u (event_at st'.buffer i) a).1)
        × ((backfill t u i (st', a)).1 ≡ (edit_date st.boot_count t u (event_at st'.buffer i) a).2)
  unfolding edit_date
  date_writes n i st' a k = rw (← k.0.boot) (ground (arith, set-get_or st'.buffer i))

  date-Edited :
      cfg.buffer_size ≤ 65536
      → Edited cfg.buffer_size
          (event_count cfg st)
          st.tail
          Dated
          st
          date_result
          (edit_events (edit_date st.boot_count t u) (contents cfg st) 0)
  unfolding date_result
  date-Edited small =
      walk-edit cfg.buffer_size st.head (backfill t u) (edit_date st.boot_count t u) Dating Dated
        date_done date_leaves date_keeps date_writes (event_count cfg st) st.tail st 0
        (SameFrame-refl st, omega (arith, event_count-closes cfg st v), λ e. refl) v.cells v.tail_in
        (event_count-closes cfg st v).1

-- Asking for a flush leaves the stored state alone.
pub state-queue_flush :
    (s : Service) (call : Call) (id : ℕ) → (queue_flush s call id).state ≡ s.state
unfolding queue_flush
state-queue_flush s call id = ground arith

-- The state after a backfill: under its checksum, if an event was dated.
abbrev pub resealed : RtcState × ℕ → RtcState
resealed r = if ltb 0 r.1 then update_crc r.0 else r.0

after_backfill : Service → Call → RtcState × ℕ → Service
after_backfill s call r =
    if ltb 0 r.1
    then (let sealed = record s { state = update_crc r.0 } in
        if sealed.storage_worker_running && not sealed.flush_pending
        then queue_flush sealed call 0
        else sealed)
    else record s { state = r.0 }

state-after_backfill :
    (s : Service) (call : Call) (r : RtcState × ℕ) → (after_backfill s call r).state ≡ resealed r
unfolding after_backfill
state-after_backfill s call r =
    ground (arith, state-queue_flush (record s { state = update_crc r.0 }) call 0)

synced-after_backfill :
    (s : Service) (call : Call) (r : RtcState × ℕ)
    → (after_backfill s call r).time_sync_received ≡ s.time_sync_received
unfolding after_backfill queue_flush queue_storage_command
synced-after_backfill s call r = ground arith

pub resealed_lem :
    (cfg : Config) (st : RtcState) (r : RtcState × ℕ)
    → SameFrame st r.0
    → (r.1 ≡ 0 → r.0 ≡ st)
    → IsSealed cfg st
    → SameFrame st (resealed r) × IsSealed cfg (resealed r) × ((resealed r).buffer ≡ r.0.buffer)
unfolding update_crc calculate_buffer_crc
resealed_lem cfg st r f same sealed = elim (Bool-cases (ltb 0 r.1)) [
  | inl some_dated ↦ rw some_dated (
    record {
      magic = f.magic;
      boot = f.boot;
      same_head = f.same_head;
      same_tail = f.same_tail;
      last_id = f.last_id;
    },
    record { magic = f.magic ∙ sealed.magic; checksum = refl },
    refl,
  )
  | inr none_dated ↦
      rw none_dated (f, subst (IsSealed cfg) (sym (same (ground arith))) sealed, refl)
]

-- `applyTimeSync`, on a sealed ring of at most 65536 cells of a service that is initialized, whose indices
-- are in bounds and whose mutex is taken, ends. It dates, from the epoch and the uptime, exactly the events of this boot that
-- have no time, and leaves all else in the ring alone; it records that a time sync came, sets the
-- system clock, and leaves the ring under its checksum.
pub apply_time_sync_lem :
    (cfg : Config) (s : Service) (call : Call) (current_epoch : ℕ)
    → IsReady cfg s call
    → IsSealed cfg s.state
    → cfg.buffer_size ≤ 65536
    → (s' : Service) × (apply_time_sync cfg s call current_epoch ≡ some (s', some current_epoch))
      × (contents cfg s'.state
          ≡ map (dated s.state.boot_count current_epoch call.uptime) (contents cfg s.state))
      × SameFrame s.state s'.state
      × (s'.time_sync_received ≡ true)
      × IsSound cfg s'
unfolding apply_time_sync date_result after_backfill
apply_time_sync_lem cfg s call t ready sealed small =
    let v = ready.in_bounds in
    let st = s.state in
    let synced = record s { time_sync_received = true } in
    let r = date_result cfg st v t call.uptime in
    let edited = date-Edited cfg st v t call.uptime small in
    let whole = resealed_lem cfg st r edited.2.0 edited.2.1 sealed in
    let s' = after_backfill synced call r in
    let is_state : s'.state ≡ resealed r = state-after_backfill synced call r in
    (
      s',
      if_both s.initialized s.has_mutex _ _ ready.initialized ready.has_mutex
          ∙ ap (with_clock cfg t) (
              if_true call.mutex_taken _ _ ready.mutex_taken
              ∙ ap (backfilled cfg synced call)
                  (through_ring-walk cfg st v (backfill t call.uptime) 0)),
      ap (contents cfg) is_state
          ∙ contents-SameFrame cfg st (resealed r) whole.0
          ∙ ap (λ b. window b cfg.buffer_size st.tail (event_count cfg st)) whole.2
          ∙ edited.0
          ∙ edit_date-map st.boot_count t call.uptime (contents cfg st) 0,
      subst (SameFrame st) (sym is_state) whole.0,
      synced-after_backfill synced call r,
      record {
        bounds =
            subst (InBounds cfg) (sym is_state)
              (InBounds-SameFrame cfg st (resealed r) whole.0 (ap length whole.2 ∙ edited.3) v);
        sealed = subst (IsSealed cfg) (sym is_state) whole.1;
      },
    )
