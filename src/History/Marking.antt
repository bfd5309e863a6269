-- ===== src/History/Marking.antt =====
-- Marking events as synced, in terms of the list of events that the ring holds.
use esp32_sensor_firmware_pl.Prelude.{
  ℕ, zero, suc, ◌≡◌, refl, sym, ap, subst, if_all, ◌∙◌, Bool, true, false, List, [], ◌∷◌, some, ltb,
  ◌==◌, length, set, update_first, select, if◌then◌else◌, arith,
}
use esp32_sensor_firmware_pl.Platform.{Call}
use esp32_sensor_firmware_pl.Event.{DetectionEvent, set_synced}
use esp32_sensor_firmware_pl.History.State.{
  Config, RtcState, Service, event_at, event_count, update_crc, calculate_buffer_crc,
}
use esp32_sensor_firmware_pl.History.Scan.{walk}
use esp32_sensor_firmware_pl.History.Readers.{always}
use esp32_sensor_firmware_pl.History.Window.{
  window, contents, InBounds, event_count-closes, scan-walk,
}
use esp32_sensor_firmware_pl.History.Append.{IsSealed}
use esp32_sensor_firmware_pl.History.Queries.{IsReady}
use esp32_sensor_firmware_pl.History.Sync.{mark_one, through_ring, marked, mark_as_synced}
use esp32_sensor_firmware_pl.History.Edit.{Edit, edit_events, Edited, walk-edit}

-- The stored state but for its buffer and checksum.
pub record SameFrame (a b : RtcState) : Type 0 where
  pub magic : b.magic_number ≡ a.magic_number
  pub boot : b.boot_count ≡ a.boot_count
  pub same_head : b.head ≡ a.head
  pub same_tail : b.tail ≡ a.tail
  pub last_id : b.global_event_id ≡ a.global_event_id

pub SameFrame-refl : (a : RtcState) → SameFrame a a
SameFrame-refl a = record {
  magic = refl;
  boot = refl;
  same_head = refl;
  same_tail = refl;
  last_id = refl;
}

pub contents-SameFrame :
    (cfg : Config) (a b : RtcState)
    → SameFrame a b
    → contents cfg b ≡ window b.buffer cfg.buffer_size a.tail (event_count cfg a)
unfolding event_count
contents-SameFrame cfg a b f = rw (f.same_head, f.same_tail)

pub InBounds-SameFrame :
    (cfg : Config) (a b : RtcState)
    → SameFrame a b
    → length b.buffer ≡ cfg.buffer_size
    → InBounds cfg a
    → InBounds cfg b
InBounds-SameFrame cfg a b f len v = omega (arith, f, v)

-- A writing loop over a ring within its bounds ends, and edits its contents.
module _ (cfg : Config) (st : RtcState) (v : InBounds cfg st) {A : Type 0}
    (visit : ℕ → RtcState × A → (RtcState × A) × Bool) (a : A) where
  pub through_ring-walk :
      through_ring cfg visit st (st, a)
      ≡ some (walk cfg.buffer_size always visit st.head (event_count cfg st) st.tail (st, a))
  through_ring-walk =
      scan-walk cfg.buffer_size always visit st.head (event_count cfg st) cfg.buffer_size st.tail
        (st, a) (event_count-closes cfg st v).1 v.tail_in (event_count-closes cfg st v).1
        (event_count-closes cfg st v).0

abbrev pub has_id : ℕ → DetectionEvent → Bool
has_id event_id e = e.id == event_id

edit_one : ℕ → Edit Bool
edit_one event_id e found =
    if e.id == event_id then (set_synced e, true, true) else (e, found, false)

edit_one-update :
    (event_id : ℕ) (es : List DetectionEvent)
    → edit_events (edit_one event_id) es false
      ≡ (update_first (has_id event_id) set_synced es, ltb 0 (length (select (has_id event_id) es)))
unfolding edit_one
edit_one-update event_id [] = refl
edit_one-update event_id (e ∷ es) = ground (arith, edit_one-update event_id es)

pub set-get_or : (xs : List DetectionEvent) (i : ℕ) → set xs i (event_at xs i) ≡ xs
set-get_or [] i = refl
set-get_or (x ∷ xs) zero = refl
set-get_or (x ∷ xs) (suc i) = ap (λ l. x ∷ l) (set-get_or xs i)

module _ (cfg : Config) (st : RtcState) (v : InBounds cfg st) (sealed : IsSealed cfg st)
    (event_id : ℕ) where
  mark_result : RtcState × Bool
  mark_result =
      walk cfg.buffer_size always (mark_one event_id) st.head (event_count cfg st) st.tail
        (st, false)

  abbrev Untouched : ℕ → RtcState → Bool → Type 0
  Untouched n st' found = (st' ≡ st) × (found ≡ false)

  abbrev Marked : RtcState → Bool → Type 0
  Marked st' found = SameFrame st st' × IsSealed cfg st'

  mark_leaves :
      (n i : ℕ) (st' : RtcState) (a : Bool)
      → Untouched (suc n) st' a
      → (mark_one event_id i (st', a)).1 ≡ true
      → Marked (mark_one event_id i (st', a)).0.0 (mark_one event_id i (st', a)).0.1
  unfolding update_crc calculate_buffer_crc
  mark_leaves n i st' a k h = ground (arith, sealed, ap (λ x. x.magic_number) k.0)

  mark_done : (st' : RtcState) (a : Bool) → Untouched 0 st' a → Marked st' a
  mark_done st' a k =
      subst (λ x. SameFrame st x × IsSealed cfg x) (sym k.0) (SameFrame-refl st, sealed)

  mark_keeps :
      (n i : ℕ) (st' : RtcState) (a : Bool)
      → Untouched (suc n) st' a
      → (mark_one event_id i (st', a)).1 ≡ false
      → Untouched n (mark_one event_id i (st', a)).0.0 (mark_one event_id i (st', a)).0.1
  mark_keeps n i st' a k h = ground (arith, k)

  mark_writes :
      (n i : ℕ) (st' : RtcState) (a : Bool)
      → Untouched (suc n) st' a
      → ((mark_one event_id i (st', a)).0.0.buffer
          ≡ set st'.buffer i (edit_one event_id (event_at st'.buffer i) a).0)
        × ((mark_one event_id i (st', a)).0.1 ≡ (edit_one event_id (event_at st'.buffer i) a).1)
        × ((mark_one event_id i (st', a)).1 ≡ (edit_one event_id (event_at st'.buffer i) a).2)
  unfolding edit_one update_crc
  mark_writes n i st' a k = ground (arith, set-get_or st'.buffer i)

  mark-Edited : Edited cfg.buffer_size (event_count cfg st) st.tail Marked st mark_result (
    update_first (has_id event_id) set_synced (contents cfg st),
    ltb 0 (length (select (has_id event_id) (contents cfg st))),
  )
  unfolding mark_result
  mark-Edited =
      subst (Edited cfg.buffer_size (event_count cfg st) st.tail Marked st mark_result)
        (edit_one-update event_id (contents cfg st))
        (walk-edit cfg.buffer_size st.head (mark_one event_id) (edit_one event_id) Untouched Marked
          mark_done mark_leaves mark_keeps mark_writes (event_count cfg st) st.tail st false
          (refl, refl) v.cells v.tail_in (event_count-closes cfg st v).1)

-- What holds of the service between two calls: the ring within its bounds, under its checksum.
pub record IsSound (cfg : Config) (s : Service) : Type 0 where
  pub bounds : InBounds cfg s.state
  pub sealed : IsSealed cfg s.state

-- `markAsSynced`, on a sealed ring of a service that is initialized, whose indices are in bounds and whose
-- mutex is taken, ends. It marks the first event with the id, and no other, and returns whether there is one; the ring stays sound, with the same head, tail, boot count and last event id.
pub mark_as_synced_lem :
    (cfg : Config) (s : Service) (call : Call) (event_id : ℕ)
    → IsReady cfg s call
    → IsSealed cfg s.state
    → (s' : Service) × (mark_as_synced cfg s call event_id
        ≡ some (s', ltb 0 (length (select (has_id event_id) (contents cfg s.state)))))
      × (contents cfg s'.state ≡ update_first (has_id event_id) set_synced (contents cfg s.state))
      × SameFrame s.state s'.state
      × IsSound cfg s'
unfolding mark_as_synced mark_result
mark_as_synced_lem cfg s call event_id ready sealed =
    let v = ready.in_bounds in
    let r = mark_result cfg s.state v sealed event_id in
    let edited = mark-Edited cfg s.state v sealed event_id in
    (
      record s { state = r.0 },
      if_all s.initialized s.has_mutex call.mutex_taken _ _ ready.initialized ready.has_mutex
            ready.mutex_taken
          ∙ ap (marked cfg s) (through_ring-walk cfg s.state v (mark_one event_id) false)
          ∙ ap (λ b. some (record s { state = r.0 }, b)) edited.1,
      contents-SameFrame cfg s.state r.0 edited.2.0 ∙ edited.0,
      edited.2.0,
      record {
        bounds = InBounds-SameFrame cfg s.state r.0 edited.2.0 edited.3 v;
        sealed = edited.2.1;
      },
    )
