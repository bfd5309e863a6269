-- ===== src/History/Climbs.antt =====
-- Lists of events whose ids rise.
use esp32_sensor_firmware_pl.Prelude.{
  ℕ, ◌≤◌, ◌<◌, ◌≡◌, inl, inr, refl, ◌∙◌, Bool, true, ◌&&◌, ◌++◌, List, [], ◌∷◌, map, length, select,
  drop, update_first, ltb, leb, arith, Bool-cases,
}
use esp32_sensor_firmware_pl.Event.{DetectionEvent, set_synced}
use esp32_sensor_firmware_pl.History.Append.{is_full, push_bounded}
use esp32_sensor_firmware_pl.History.Marking.{has_id}
use esp32_sensor_firmware_pl.History.MarkingMany.{mark_all}
use esp32_sensor_firmware_pl.History.Backfill.{dated}

-- The ids rise from above `lo` to at most `hi`.
abbrev pub climbs : ℕ → List DetectionEvent → ℕ → Bool
climbs lo [] hi = leb lo hi
climbs lo (e ∷ es) hi = ltb lo e.id && climbs e.id es hi

climbs-lower :
    (lo lo' hi : ℕ) (es : List DetectionEvent)
    → lo' ≤ lo
    → climbs lo es hi ≡ true
    → climbs lo' es hi ≡ true
climbs-lower lo lo' hi [] h c = ground arith
climbs-lower lo lo' hi (e ∷ es) h c = ground arith

pub climbs-raise :
    (lo hi hi' : ℕ) (es : List DetectionEvent)
    → hi ≤ hi'
    → climbs lo es hi ≡ true
    → climbs lo es hi' ≡ true
climbs-raise lo hi hi' [] h c = ground arith
climbs-raise lo hi hi' (e ∷ es) h c = ground (arith, climbs-raise e.id hi hi' es h)

climbs-snoc :
    (lo hi : ℕ) (es : List DetectionEvent) (new : DetectionEvent)
    → hi < new.id
    → climbs lo es hi ≡ true
    → climbs lo (es ++ (new ∷ [])) new.id ≡ true
climbs-snoc lo hi [] new h c = ground arith
climbs-snoc lo hi (e ∷ es) new h c = ground (arith, climbs-snoc e.id hi es new h)

climbs-drop :
    (lo hi : ℕ) (es : List DetectionEvent)
    → climbs lo es hi ≡ true
    → climbs lo (drop 1 es) hi ≡ true
climbs-drop lo hi [] c = c
climbs-drop lo hi (e ∷ es) c = climbs-lower e.id lo hi es (ground arith) (ground arith)

pub climbs-push_bounded :
    (cap hi : ℕ) (es : List DetectionEvent) (new : DetectionEvent)
    → hi < new.id
    → climbs 0 es hi ≡ true
    → climbs 0 (push_bounded cap es new) new.id ≡ true
climbs-push_bounded cap hi es new h c = elim (Bool-cases (is_full cap es)) [
  | inl full ↦ rw full (climbs-snoc 0 hi (drop 1 es) new h (climbs-drop 0 hi es c))
  | inr room ↦ rw room (climbs-snoc 0 hi es new h c)
]

pub climbs-update_first :
    (lo hi : ℕ) (p : DetectionEvent → Bool) (es : List DetectionEvent)
    → climbs lo (update_first p set_synced es) hi ≡ climbs lo es hi
unfolding set_synced
climbs-update_first lo hi p [] = refl
climbs-update_first lo hi p (e ∷ es) = ground (arith, climbs-update_first e.id hi p es)

pub climbs-mark_all :
    (hi : ℕ) (ids : List ℕ) (es : List DetectionEvent)
    → climbs 0 (mark_all ids es) hi ≡ climbs 0 es hi
climbs-mark_all hi [] es = refl
climbs-mark_all hi (id ∷ ids) es =
    climbs-mark_all hi ids (update_first (has_id id) set_synced es)
    ∙ climbs-update_first 0 hi (has_id id) es

pub climbs-dated :
    (lo hi b t u : ℕ) (es : List DetectionEvent)
    → climbs lo (map (dated b t u) es) hi ≡ climbs lo es hi
climbs-dated lo hi b t u [] = refl
climbs-dated lo hi b t u (e ∷ es) = ground (arith, climbs-dated e.id hi b t u es)

-- At most one event has a given id.
none_below :
    (lo hi i : ℕ) (es : List DetectionEvent)
    → i ≤ lo
    → climbs lo es hi ≡ true
    → length (select (has_id i) es) ≡ 0
none_below lo hi i [] h c = refl
none_below lo hi i (e ∷ es) h c =
    let rest = none_below e.id hi i es (ground arith) (ground arith) in ground (arith, rest)

pub at_most_one :
    (lo hi i : ℕ) (es : List DetectionEvent)
    → climbs lo es hi ≡ true
    → length (select (has_id i) es) ≤ 1
at_most_one lo hi i [] c = omega arith
at_most_one lo hi i (e ∷ es) c = elim (Bool-cases (has_id i e)) [
  | inl same ↦
      let rest = none_below e.id hi i es (ground arith) (ground arith) in
      rw same (omega (arith, rest))
  | inr other ↦ let rest = at_most_one e.id hi i es (ground arith) in rw other rest
]
