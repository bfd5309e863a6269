-- ===== src/History/Readers.antt =====
-- The methods of `HistoryService` that read the ring and leave it alone. The outer `Option` is the
-- loop's: `none` where it does not end.
use esp32_sensor_firmware_pl.Prelude.{
  ℕ, ◌+◌, Bool, true, false, not, ◌&&◌, ◌++◌, List, [], ◌∷◌, Option, none, some, ltb, length, u16,
  if◌then◌else◌,
}
use esp32_sensor_firmware_pl.Platform.{Call}
use esp32_sensor_firmware_pl.Event.{DetectionEvent, is_synced, was_overflow}
use esp32_sensor_firmware_pl.History.State.{Config, RtcState, Service, event_at, event_count}
use esp32_sensor_firmware_pl.History.Scan.{scan}

abbrev pub always : {S : Type 0} → S → Bool
always s = true

-- A loop body that looks at the event in the current cell only.
abbrev pub reading :
    {S : Type 0} → (DetectionEvent → S → S × Bool) → List DetectionEvent → ℕ → S → S × Bool
reading g buf i s = g (event_at buf i) s

abbrev pub first_unsynced : DetectionEvent → Option DetectionEvent → Option DetectionEvent × Bool
first_unsynced e found = if is_synced e then (found, false) else (some e, true)

abbrev pub collect :
    (DetectionEvent → Bool) → DetectionEvent → List DetectionEvent → List DetectionEvent × Bool
collect p e out = (if p e then out ++ (e ∷ []) else out, false)

abbrev pub room : ℕ → List DetectionEvent → Bool
room max_count out = ltb (length out) max_count

abbrev pub any_with : (DetectionEvent → Bool) → DetectionEvent → Bool → Bool × Bool
any_with p e found = if p e then (true, true) else (found, false)

abbrev pub count_unsynced : DetectionEvent → ℕ → ℕ × Bool
count_unsynced e n = (if is_synced e then n else u16 (n + 1), false)

-- The method returns `true` once its loop has ended.
abbrev pub answer : Option (List DetectionEvent) → Option (Bool × List DetectionEvent)
answer none = none
answer (some out) = some (true, out)

module _ (cfg : Config) where
  -- One loop over `_state.buffer`, from the tail.
  abbrev pub over_ring :
      {S : Type 0} → (S → Bool) → (DetectionEvent → S → S × Bool) → RtcState → S → Option S
  over_ring guard g st s =
      scan cfg.buffer_size guard (reading g st.buffer) st.head cfg.buffer_size st.tail s

  -- `none` inside is the result `false`, with `*outEvent` not written.
  unfoldable pub get_next_unsynced : Service → Call → Option (Option DetectionEvent)
  get_next_unsynced s call =
      if s.initialized && s.has_mutex && call.mutex_taken
      then over_ring always first_unsynced s.state none
      else some none

  -- The result of the method and the events it wrote.
  unfoldable pub get_unsynced_events : Service → Call → ℕ → Option (Bool × List DetectionEvent)
  get_unsynced_events s call max_count =
      if s.initialized && s.has_mutex
      then (if call.mutex_taken
          then answer (over_ring (room max_count) (collect (λ e. not (is_synced e))) s.state [])
          else some (true, []))
      else some (false, [])

  unfoldable pub get_events_since : Service → Call → ℕ → ℕ → Option (Bool × List DetectionEvent)
  get_events_since s call since_id max_count =
      if s.initialized && s.has_mutex
      then (if call.mutex_taken
          then answer (over_ring (room max_count) (collect (λ e. ltb since_id e.id)) s.state [])
          else some (true, []))
      else some (false, [])

  unfoldable pub has_pending_data : Service → Call → Option Bool
  has_pending_data s call =
      if s.initialized && s.has_mutex && call.mutex_taken
      then over_ring always (any_with (λ e. not (is_synced e))) s.state false
      else some false

  unfoldable pub get_pending_count : Service → Call → Option ℕ
  get_pending_count s call =
      if s.initialized && s.has_mutex && call.mutex_taken
      then over_ring always count_unsynced s.state 0
      else some 0

  unfoldable pub has_overflowed : Service → Call → Option Bool
  has_overflowed s call =
      if s.has_mutex && call.mutex_taken
      then over_ring always (any_with was_overflow) s.state false
      else some false

  unfoldable pub get_stored_count : Service → ℕ
  get_stored_count s = event_count cfg s.state
