-- ===== src/History/MarkingMany.antt =====
-- `markMultipleAsSynced`, in terms of the list of events that the ring holds.
use esp32_sensor_firmware_pl.Prelude.{
  ℕ, ◌+◌, ◌≤◌, ◌<◌, ◌≡◌, refl, sym, ap, ap₂, subst, ◌∙◌, List, [], ◌∷◌, Option, none, some, length,
  select, update_first, arith, if_all,
}
use esp32_sensor_firmware_pl.Platform.{Call}
use esp32_sensor_firmware_pl.Event.{DetectionEvent, set_synced}
use esp32_sensor_firmware_pl.History.State.{Config, RtcState, Service, event_count}
use esp32_sensor_firmware_pl.History.Window.{window, contents, InBounds}
use esp32_sensor_firmware_pl.History.Append.{IsSealed}
use esp32_sensor_firmware_pl.History.Queries.{IsReady, unsynced}
use esp32_sensor_firmware_pl.History.Sync.{
  mark_counted, through_ring, mark_each, counted, mark_multiple_as_synced,
}
use esp32_sensor_firmware_pl.History.Edit.{edit_events}
use esp32_sensor_firmware_pl.History.Backfill.{resealed, resealed_lem}
use esp32_sensor_firmware_pl.History.Marking.{
  SameFrame, SameFrame-refl, contents-SameFrame, InBounds-SameFrame, through_ring-walk, has_id,
  IsSound,
}
use esp32_sensor_firmware_pl.History.MarkingOne.{
  edit_counted, edit_counted-update, edit_counted-pending, inner_result, inner-Edited,
}

-- The events with each id in turn marked.
abbrev pub mark_all : List ℕ → List DetectionEvent → List DetectionEvent
mark_all [] es = es
mark_all (id ∷ ids) es = mark_all ids (update_first (has_id id) set_synced es)

-- What the outer loop leaves: the marked events, and a count of those that were pending.
record MarkedMany (cfg : Config) (st : RtcState) (ids : List ℕ) (c : ℕ) (r : RtcState × ℕ)
    : Type 0 where
  marked : contents cfg r.0 ≡ mark_all ids (contents cfg st)
  pending :
      r.1 + length (select unsynced (contents cfg r.0))
      ≡ c + length (select unsynced (contents cfg st))
  frame : SameFrame st r.0
  bounds : InBounds cfg r.0
  grows : c ≤ r.1
  at_most : r.1 ≤ c + length ids
  untouched : r.1 ≡ c → r.0 ≡ st

one_marked :
    (cfg : Config) (st : RtcState) (v : InBounds cfg st) (event_id c : ℕ) (h : c < 255)
    → MarkedMany cfg st (event_id ∷ []) c (inner_result cfg st v event_id c h)
one_marked cfg st v event_id c h =
    let r = inner_result cfg st v event_id c h in
    let es = contents cfg st in
    let edited = inner-Edited cfg st v event_id c h in
    let after : contents cfg r.0 ≡ (edit_events (edit_counted event_id) es c).0 =
      contents-SameFrame cfg st r.0 edited.2.0 ∙ edited.0 in
    let count = edit_counted-pending event_id es c h in
    record {
      marked = after ∙ edit_counted-update event_id es c;
      pending = ap₂ (λ n l. n + length (select unsynced l)) edited.1 after ∙ count.0;
      frame = edited.2.0;
      bounds = InBounds-SameFrame cfg st r.0 edited.2.0 edited.3 v;
      grows = omega (arith, edited.1, count.2);
      at_most = omega (arith, edited.1, count.1);
      untouched = edited.2.1;
    }

SameFrame-trans : (a b c : RtcState) → SameFrame a b → SameFrame b c → SameFrame a c
SameFrame-trans a b c f g = ground (arith, f, g)

mark_each-cons :
    (cfg : Config) (event_id : ℕ) (ids : List ℕ) (st : RtcState) (c : ℕ) {r : RtcState × ℕ}
    → through_ring cfg (mark_counted event_id) st (st, c) ≡ some r
    → mark_each cfg (event_id ∷ ids) st c ≡ mark_each cfg ids r.0 r.1
unfolding mark_each
mark_each-cons cfg event_id ids st c {r} h =
    subst
      (λ o.
        (elim o as (λ o'. Option (RtcState × ℕ)) [
          | none ↦ none
          | some q ↦ mark_each cfg ids q.0 q.1
        ])
        ≡ mark_each cfg ids r.0 r.1)
      (sym h) refl

mark_each_lem :
    (cfg : Config) (ids : List ℕ) (st : RtcState) (c : ℕ)
    → InBounds cfg st
    → c + length ids < 256
    → (r : RtcState × ℕ) × (mark_each cfg ids st c ≡ some r) × MarkedMany cfg st ids c r
unfolding mark_each inner_result
mark_each_lem cfg [] st c v h = (
  (st, c),
  refl,
  record {
    marked = refl;
    pending = refl;
    frame = SameFrame-refl st;
    bounds = v;
    grows = omega arith;
    at_most = omega arith;
    untouched = λ e. refl;
  },
)
mark_each_lem cfg (id ∷ ids) st c v h =
    let r1 = inner_result cfg st v id c (omega arith) in
    let one = one_marked cfg st v id c (omega arith) in
    let (r, ends, rest) = mark_each_lem cfg ids r1.0 r1.1 one.bounds (omega (arith, one.at_most)) in
    (
      r,
      mark_each-cons cfg id ids st c (through_ring-walk cfg st v (mark_counted id) c) ∙ ends,
      record {
        marked = rest.marked ∙ ap (mark_all ids) one.marked;
        pending = rest.pending ∙ one.pending;
        frame = SameFrame-trans st r1.0 r.0 one.frame rest.frame;
        bounds = rest.bounds;
        grows = omega (arith, one.grows, rest.grows);
        at_most = omega (arith, one.at_most, rest.at_most);
        untouched = λ e.
            rest.untouched (omega (arith, one.grows, rest.grows, e))
            ∙ one.untouched (omega (arith, one.grows, rest.grows, e));
      },
    )

-- `markMultipleAsSynced`, on a sealed ring of a service that is initialized, whose indices are in bounds
-- and whose mutex is taken, with at least one and at most 255 ids, ends. It marks the first event with
-- each id, and no other, and returns how many events were pending before and are not after; the ring
-- stays sound.
pub mark_multiple_as_synced_lem :
    (cfg : Config) (s : Service) (call : Call) (id : ℕ) (ids : List ℕ)
    → IsReady cfg s call
    → IsSealed cfg s.state
    → length ids < 255
    → (s' : Service) × (count : ℕ) × (mark_multiple_as_synced cfg s call (id ∷ ids)
        ≡ some (s', count))
      × (contents cfg s'.state ≡ mark_all (id ∷ ids) (contents cfg s.state))
      × (count + length (select unsynced (contents cfg s'.state))
          ≡ length (select unsynced (contents cfg s.state)))
      × SameFrame s.state s'.state
      × IsSound cfg s'
unfolding mark_multiple_as_synced
mark_multiple_as_synced_lem cfg s call id ids ready sealed few =
    let st = s.state in
    let (r, ends, many) = mark_each_lem cfg (id ∷ ids) st 0 ready.in_bounds (omega arith) in
    let whole = resealed_lem cfg st r many.frame many.untouched sealed in
    let same =
      contents-SameFrame cfg st (resealed r) whole.0
      ∙ ap (λ b. window b cfg.buffer_size st.tail (event_count cfg st)) whole.2
      ∙ sym (contents-SameFrame cfg st r.0 many.frame) in
    (
      record s { state = resealed r },
      r.1,
      if_all s.initialized s.has_mutex call.mutex_taken _ _ ready.initialized ready.has_mutex
            ready.mutex_taken
          ∙ ap (counted cfg s) ends,
      same ∙ many.marked,
      ap (λ l. r.1 + length (select unsynced l)) same ∙ many.pending ∙ omega arith,
      whole.0,
      record {
        bounds =
            InBounds-SameFrame cfg st (resealed r) whole.0 (ap length whole.2 ∙ many.bounds.cells)
              ready.in_bounds;
        sealed = whole.1;
      },
    )
