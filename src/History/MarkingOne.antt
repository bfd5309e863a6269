-- ===== src/History/MarkingOne.antt =====
-- One id of `markMultipleAsSynced`: the inner loop, in terms of the list of events that the ring holds.
use esp32_sensor_firmware_pl.Prelude.{
  ℕ, suc, ◌+◌, ◌≤◌, ◌<◌, ◌≡◌, refl, sym, subst, true, false, List, [], ◌∷◌, ◌==◌, length, set,
  select, update_first, if◌then◌else◌, arith, u8,
}
use esp32_sensor_firmware_pl.Event.{DetectionEvent, is_synced, set_synced}
use esp32_sensor_firmware_pl.Event.Flags.{synced-set_synced}
use esp32_sensor_firmware_pl.History.State.{Config, RtcState, event_at, event_count}
use esp32_sensor_firmware_pl.History.Scan.{walk}
use esp32_sensor_firmware_pl.History.Readers.{always}
use esp32_sensor_firmware_pl.History.Window.{contents, InBounds, event_count-closes}
use esp32_sensor_firmware_pl.History.Queries.{unsynced}
use esp32_sensor_firmware_pl.History.Sync.{mark_counted}
use esp32_sensor_firmware_pl.History.Edit.{Edit, edit_events, Edited, walk-edit}
use esp32_sensor_firmware_pl.History.Marking.{SameFrame, SameFrame-refl, set-get_or, has_id}

set_synced-synced : (e : DetectionEvent) → is_synced e ≡ true → set_synced e ≡ e
unfolding is_synced set_synced
set_synced-synced e h = ground arith

unfoldable pub edit_counted : ℕ → Edit ℕ
edit_counted event_id e count =
    if e.id == event_id
    then (if is_synced e then (e, count, true) else (set_synced e, u8 (count + 1), true))
    else (e, count, false)

pub edit_counted-update :
    (event_id : ℕ) (es : List DetectionEvent) (c : ℕ)
    → (edit_events (edit_counted event_id) es c).0 ≡ update_first (has_id event_id) set_synced es
unfolding edit_counted
edit_counted-update event_id [] c = refl
edit_counted-update event_id (e ∷ es) c =
    ground (arith, edit_counted-update event_id es c, set_synced-synced e)

-- What is counted is what is no longer pending.
pub edit_counted-pending :
    (event_id : ℕ) (es : List DetectionEvent) (c : ℕ)
    → c < 255
    → let w = edit_events (edit_counted event_id) es c in
      (w.1 + length (select unsynced w.0) ≡ c + length (select unsynced es))
      × (w.1 ≤ c + 1)
      × (c ≤ w.1)
unfolding edit_counted
edit_counted-pending event_id [] c h = (refl, omega arith, omega arith)
edit_counted-pending event_id (e ∷ es) c h =
    ground (arith, edit_counted-pending event_id es c h, synced-set_synced e)

module _ (cfg : Config) (st : RtcState) (v : InBounds cfg st) (event_id c : ℕ) (h : c < 255) where
  unfoldable pub inner_result : RtcState × ℕ
  inner_result =
      walk cfg.buffer_size always (mark_counted event_id) st.head (event_count cfg st) st.tail
        (st, c)

  abbrev pub Before : ℕ → RtcState → ℕ → Type 0
  Before n st' a = (st' ≡ st) × (a ≡ c)

  abbrev pub After : RtcState → ℕ → Type 0
  After st' a = SameFrame st st' × (a ≡ c → st' ≡ st)

  inner_done : (st' : RtcState) (a : ℕ) → Before 0 st' a → After st' a
  inner_done st' a k = (subst (SameFrame st) (sym k.0) (SameFrame-refl st), λ e. k.0)

  inner_leaves :
      (n i : ℕ) (st' : RtcState) (a : ℕ)
      → Before (suc n) st' a
      → (mark_counted event_id i (st', a)).1 ≡ true
      → After (mark_counted event_id i (st', a)).0.0 (mark_counted event_id i (st', a)).0.1
  inner_leaves n i st' a k e = ground (arith, k)

  inner_keeps :
      (n i : ℕ) (st' : RtcState) (a : ℕ)
      → Before (suc n) st' a
      → (mark_counted event_id i (st', a)).1 ≡ false
      → Before n (mark_counted event_id i (st', a)).0.0 (mark_counted event_id i (st', a)).0.1
  inner_keeps n i st' a k e = ground (arith, k)

  inner_writes :
      (n i : ℕ) (st' : RtcState) (a : ℕ)
      → Before (suc n) st' a
      → ((mark_counted event_id i (st', a)).0.0.buffer
          ≡ set st'.buffer i (edit_counted event_id (event_at st'.buffer i) a).0)
        × ((mark_counted event_id i (st', a)).0.1
            ≡ (edit_counted event_id (event_at st'.buffer i) a).1)
        × ((mark_counted event_id i (st', a)).1
            ≡ (edit_counted event_id (event_at st'.buffer i) a).2)
  unfolding edit_counted
  inner_writes n i st' a k = ground (arith, set-get_or st'.buffer i)

  pub inner-Edited :
      Edited cfg.buffer_size
        (event_count cfg st)
        st.tail
        After
        st
        inner_result
        (edit_events (edit_counted event_id) (contents cfg st) c)
  unfolding inner_result
  inner-Edited =
      walk-edit cfg.buffer_size st.head (mark_counted event_id) (edit_counted event_id) Before After
        inner_done inner_leaves inner_keeps inner_writes (event_count cfg st) st.tail st c
        (refl, refl) v.cells v.tail_in (event_count-closes cfg st v).1
