-- ===== src/History/Numbering.antt =====
-- The numbering of the events in the ring.
use esp32_sensor_firmware_pl.History.Log.{log_detection}
use esp32_sensor_firmware_pl.History.Nvs.{fast_forward_event_id, FlushCall}
use esp32_sensor_firmware_pl.History.Sync.{
  apply_time_sync, mark_multiple_as_synced, mark_as_synced, clear,
}
use esp32_sensor_firmware_pl.Prelude.{
  ◌-◌, ◌^◌, ℕ, ◌+◌, ◌≤◌, ◌<◌, ◌≡◌, inl, inr, refl, ap, ◌∙◌, Bool, true, ◌&&◌, List, [], ◌∷◌, Option,
  some, length, select, arith, Bool-cases,
}
use esp32_sensor_firmware_pl.Platform.{Call}
use esp32_sensor_firmware_pl.Event.{DetectionEvent}
use esp32_sensor_firmware_pl.History.State.{event_count, update_crc, Config, RtcState, Service}
use esp32_sensor_firmware_pl.History.Window.{contents}
use esp32_sensor_firmware_pl.History.Append.{is_full, push_bounded, detection}
use esp32_sensor_firmware_pl.History.Marking.{has_id, IsSound, mark_as_synced_lem}
use esp32_sensor_firmware_pl.History.MarkingMany.{mark_multiple_as_synced_lem}
use esp32_sensor_firmware_pl.History.Backfill.{apply_time_sync_lem}
use esp32_sensor_firmware_pl.History.Recording.{log_detection_lem, log_detection-refused}
use esp32_sensor_firmware_pl.History.Steps.{
  forward-state, Step, log, mark, mark_many, sync, forward, wipe, connect, command, IsReady-of,
  same_result, mark-refused, mark_many-refused, mark_many-none, sync-refused, sync-late,
  state-connect, state-command,
}
use esp32_sensor_firmware_pl.History.Climbs.{
  climbs, climbs-raise, climbs-push_bounded, climbs-update_first, climbs-mark_all, climbs-dated,
  at_most_one,
}

-- The events are numbered in the order of their recording, the last id being the highest.
abbrev pub IsNumbered : Config → Service → Type 0
IsNumbered cfg s = climbs 0 (contents cfg s.state) s.state.global_event_id ≡ true

numbered : Config → RtcState → Bool
numbered cfg st = climbs 0 (contents cfg st) st.global_event_id

numbered-same :
    (cfg : Config) {a b : RtcState} → b ≡ a → numbered cfg a ≡ true → numbered cfg b ≡ true
numbered-same cfg e h = ap (numbered cfg) e ∙ h

-- A list of events with the same ids, and the same last id.
numbered-edit :
    (cfg : Config) (a b : RtcState) {es : List DetectionEvent}
    → contents cfg b ≡ es
    → climbs 0 es b.global_event_id ≡ climbs 0 (contents cfg a) b.global_event_id
    → b.global_event_id ≡ a.global_event_id
    → numbered cfg a ≡ true
    → numbered cfg b ≡ true
unfolding numbered
numbered-edit cfg a b e same last h =
    ap (λ l. climbs 0 l b.global_event_id) e ∙ same ∙ ap (climbs 0 (contents cfg a)) last ∙ h

log-numbered :
    (cfg : Config) (s : Service) (call : Call) (d : ℕ)
    → IsSound cfg s
    → s.state.global_event_id + 1 < 2 ^ 32
    → numbered cfg s.state ≡ true
    → numbered cfg (log_detection cfg s call d).0.state ≡ true
unfolding numbered
log-numbered cfg s call d v fits h =
    elim (Bool-cases (s.initialized && s.has_mutex && call.mutex_taken)) [
      | inl ready ↦
          let now =
            log_detection_lem cfg s call d (IsReady-of cfg s call ready v.bounds) v.sealed in
          let full = is_full (cfg.buffer_size - 1) (contents cfg s.state) in
          let new = detection s.state call d full in
          ap (λ l. climbs 0 l (log_detection cfg s call d).0.state.global_event_id) now.0
          ∙ ap (climbs 0 (push_bounded (cfg.buffer_size - 1) (contents cfg s.state) new))
              (now.2 ∙ now.1)
          ∙ climbs-push_bounded (cfg.buffer_size - 1) s.state.global_event_id (contents cfg s.state)
              new (omega arith) h
      | inr no_call ↦ rw (log_detection-refused cfg s call d no_call) h
    ]

mark-numbered :
    (cfg : Config) (s s' : Service) (call : Call) (id : ℕ) (found : Bool)
    → IsSound cfg s
    → mark_as_synced cfg s call id ≡ some (s', found)
    → numbered cfg s.state ≡ true
    → numbered cfg s'.state ≡ true
mark-numbered cfg s s' call id found v e h =
    let P : Service → Type 0 = λ t. numbered cfg t.state ≡ true in
    elim (Bool-cases (s.initialized && s.has_mutex && call.mutex_taken)) [
      | inl ready ↦
          let (t, ends, list, frame, sound) =
            mark_as_synced_lem cfg s call id (IsReady-of cfg s call ready v.bounds) v.sealed in
          same_result P ends e (
            numbered-edit cfg s.state t.state list
              (climbs-update_first 0 t.state.global_event_id (has_id id) (contents cfg s.state))
              frame.last_id h)
      | inr no_call ↦ same_result P (mark-refused cfg s call id no_call) e h
    ]

mark_many-numbered :
    (cfg : Config) (s s' : Service) (call : Call) (ids : List ℕ) (n : ℕ)
    → IsSound cfg s
    → length ids < 256
    → mark_multiple_as_synced cfg s call ids ≡ some (s', n)
    → numbered cfg s.state ≡ true
    → numbered cfg s'.state ≡ true
mark_many-numbered cfg s s' call [] n v few e h =
    same_result (λ t. numbered cfg t.state ≡ true) (mark_many-none cfg s call) e h
mark_many-numbered cfg s s' call (id ∷ ids) n v few e h =
    let P : Service → Type 0 = λ t. numbered cfg t.state ≡ true in
    elim (Bool-cases (s.initialized && s.has_mutex && call.mutex_taken)) [
      | inl ready ↦
          let (t, count, ends, list, pending, frame, sound) =
            mark_multiple_as_synced_lem cfg s call id ids (IsReady-of cfg s call ready v.bounds)
              v.sealed (omega arith) in
          same_result P ends e (
            numbered-edit cfg s.state t.state list
              (climbs-mark_all t.state.global_event_id (id ∷ ids) (contents cfg s.state))
              frame.last_id h)
      | inr no_call ↦ same_result P (mark_many-refused cfg s call id ids no_call) e h
    ]

sync-numbered :
    (cfg : Config) (s s' : Service) (call : Call) (t : ℕ) (clock : Option ℕ)
    → cfg.buffer_size ≤ 65536
    → IsSound cfg s
    → apply_time_sync cfg s call t ≡ some (s', clock)
    → numbered cfg s.state ≡ true
    → numbered cfg s'.state ≡ true
sync-numbered cfg s s' call t clock small v e h =
    let P : Service → Type 0 = λ x. numbered cfg x.state ≡ true in
    elim (Bool-cases (s.initialized && s.has_mutex)) [
      | inl open_call ↦ elim (Bool-cases call.mutex_taken) [
        | inl taken ↦
            let (u, ends, list, frame, flag, sound) =
              apply_time_sync_lem cfg s call t (IsReady-of cfg s call (ground arith) v.bounds)
                v.sealed small in
            same_result P ends e (
              numbered-edit cfg s.state u.state list
                (climbs-dated 0 u.state.global_event_id s.state.boot_count t call.uptime
                  (contents cfg s.state))
                frame.last_id h)
        | inr late ↦ same_result P (sync-late cfg s call t open_call late) e h
      ]
      | inr no_call ↦ same_result P (sync-refused cfg s call t no_call) e h
    ]

raised :
    (cfg : Config) (st : RtcState) (id : ℕ)
    → st.global_event_id ≤ id
    → numbered cfg st ≡ true
    → numbered cfg (update_crc (record st { global_event_id = id })) ≡ true
unfolding numbered update_crc event_count
raised cfg st id le h = climbs-raise 0 st.global_event_id id (contents cfg st) le h

forward-numbered :
    (cfg : Config) (s : Service) (call : Call) (flush : FlushCall) (id : ℕ)
    → numbered cfg s.state ≡ true
    → numbered cfg (fast_forward_event_id cfg s call flush id).0.state ≡ true
forward-numbered cfg s call flush id h = elim (forward-state cfg s call flush id) [
  | inl same ↦ numbered-same cfg same h
  | inr moved ↦ numbered-same cfg moved.1 (raised cfg s.state id (omega (arith, moved.0)) h)
]

clear-numbered :
    (cfg : Config) (s : Service) (call : Call)
    → numbered cfg s.state ≡ true
    → numbered cfg (clear cfg s call).state ≡ true
unfolding clear numbered update_crc event_count
clear-numbered cfg s call h = elim (Bool-cases (s.has_mutex && call.mutex_taken)) [
  | inl taken ↦ rw taken refl
  | inr late ↦ rw late h
]

by-Step :
    (cfg : Config) {s t : Service}
    → cfg.buffer_size ≤ 65536
    → Step cfg s t
    → IsSound cfg s
    → s.state.global_event_id + 1 < 2 ^ 32
    → numbered cfg s.state ≡ true
    → numbered cfg t.state ≡ true
by-Step cfg small (log s call d) v fits h = log-numbered cfg s call d v fits h
by-Step cfg small (mark {s} {s'} call id {found} e) v fits h =
    mark-numbered cfg s s' call id found v e h
by-Step cfg small (mark_many {s} {s'} call ids {n} few e) v fits h =
    mark_many-numbered cfg s s' call ids n v few e h
by-Step cfg small (sync {s} {s'} call t {clock} e) v fits h =
    sync-numbered cfg s s' call t clock small v e h
by-Step cfg small (forward s call flush id) v fits h = forward-numbered cfg s call flush id h
by-Step cfg small (wipe s call) v fits h = clear-numbered cfg s call h
by-Step cfg small (connect s call b) v fits h = numbered-same cfg (state-connect cfg s call b) h
by-Step cfg small (command s msg flush view opens ne) v fits h =
    numbered-same cfg (state-command cfg msg s flush view opens ne) h

-- Through any call on a sound history whose events are numbered in the order of their recording, they
-- stay so, as long as the next id fits in 32 bits; and then an id belongs to at most one event.
pub Step-IsNumbered :
    (cfg : Config) {s t : Service}
    → cfg.buffer_size ≤ 65536
    → Step cfg s t
    → IsSound cfg s
    → s.state.global_event_id + 1 < 2 ^ 32
    → IsNumbered cfg s
    → IsNumbered cfg t × ((id : ℕ) → length (select (has_id id) (contents cfg t.state)) ≤ 1)
unfolding numbered
Step-IsNumbered cfg {s} {t} small step v fits h =
    let after : numbered cfg t.state ≡ true = by-Step cfg small step v fits h in
    (after, λ id. at_most_one 0 t.state.global_event_id id (contents cfg t.state) after)
