-- ===== src/History/Trace.antt =====
-- The history service over any sequence of calls.
use esp32_sensor_firmware_pl.History.Restart.{init-warm}
use esp32_sensor_firmware_pl.History.Backfill.{apply_time_sync_lem}
use esp32_sensor_firmware_pl.Prelude.{
  length-replicate, ◌≤◌, ℕ, ◌<◌, ◌≡◌, inl, inr, refl, sym, subst, Bool, true, false, ◌&&◌, List, [],
  ◌∷◌, Option, some, length, arith, Bool-cases,
}
use esp32_sensor_firmware_pl.Platform.{Call}
use esp32_sensor_firmware_pl.Event.{zero_event}
use esp32_sensor_firmware_pl.History.State.{calculate_buffer_crc, update_crc, Config, Service}
use esp32_sensor_firmware_pl.History.Window.{InBounds}
use esp32_sensor_firmware_pl.History.Append.{IsSealed}
use esp32_sensor_firmware_pl.History.Log.{log_detection}
use esp32_sensor_firmware_pl.History.Sync.{
  mark_as_synced, mark_multiple_as_synced, apply_time_sync, clear,
}
use esp32_sensor_firmware_pl.History.Nvs.{FlushCall, fast_forward_event_id}
use esp32_sensor_firmware_pl.History.Worker.{init, is_cold_reason, InitCall}
use esp32_sensor_firmware_pl.History.Marking.{IsSound, mark_as_synced_lem}
use esp32_sensor_firmware_pl.History.MarkingMany.{mark_multiple_as_synced_lem}
use esp32_sensor_firmware_pl.History.Recording.{log_detection_lem, log_detection-refused}
use esp32_sensor_firmware_pl.History.Steps.{
  Step, log, mark, mark_many, sync, forward, wipe, connect, command, Reach, here, next, IsReady-of,
  same_result, mark-refused, mark_many-refused, mark_many-none, sync-refused, sync-late,
  forward-state, state-connect, state-command,
}

-- Soundness is about the stored state alone.
IsSound-state : (cfg : Config) (s t : Service) → t.state ≡ s.state → IsSound cfg s → IsSound cfg t
IsSound-state cfg s t e v = record {
  bounds = subst (InBounds cfg) (sym e) v.bounds;
  sealed = subst (IsSealed cfg) (sym e) v.sealed;
}

log-IsSound :
    (cfg : Config) (s : Service) (call : Call) (d : ℕ)
    → IsSound cfg s
    → IsSound cfg (log_detection cfg s call d).0
log-IsSound cfg s call d v = elim (Bool-cases (s.initialized && s.has_mutex && call.mutex_taken)) [
  | inl ready ↦ (log_detection_lem cfg s call d (IsReady-of cfg s call ready v.bounds) v.sealed).3
  | inr no_call ↦ rw (log_detection-refused cfg s call d no_call) v
]

mark-IsSound :
    (cfg : Config) (s s' : Service) (call : Call) (id : ℕ) (found : Bool)
    → IsSound cfg s
    → mark_as_synced cfg s call id ≡ some (s', found)
    → IsSound cfg s'
mark-IsSound cfg s s' call id found v e =
    elim (Bool-cases (s.initialized && s.has_mutex && call.mutex_taken)) [
      | inl ready ↦
          let (t, ends, list, frame, sound) =
            mark_as_synced_lem cfg s call id (IsReady-of cfg s call ready v.bounds) v.sealed in
          same_result (IsSound cfg) ends e sound
      | inr no_call ↦ same_result (IsSound cfg) (mark-refused cfg s call id no_call) e v
    ]

mark_many-IsSound :
    (cfg : Config) (s s' : Service) (call : Call) (ids : List ℕ) (n : ℕ)
    → IsSound cfg s
    → length ids < 256
    → mark_multiple_as_synced cfg s call ids ≡ some (s', n)
    → IsSound cfg s'
mark_many-IsSound cfg s s' call [] n v few e =
    same_result (IsSound cfg) (mark_many-none cfg s call) e v
mark_many-IsSound cfg s s' call (id ∷ ids) n v few e =
    elim (Bool-cases (s.initialized && s.has_mutex && call.mutex_taken)) [
      | inl ready ↦
          let (t, count, ends, list, pending, frame, sound) =
            mark_multiple_as_synced_lem cfg s call id ids (IsReady-of cfg s call ready v.bounds)
              v.sealed (omega arith) in
          same_result (IsSound cfg) ends e sound
      | inr no_call ↦ same_result (IsSound cfg) (mark_many-refused cfg s call id ids no_call) e v
    ]

sync-IsSound :
    (cfg : Config) (s s' : Service) (call : Call) (t : ℕ) (clock : Option ℕ)
    → cfg.buffer_size ≤ 65536
    → IsSound cfg s
    → apply_time_sync cfg s call t ≡ some (s', clock)
    → IsSound cfg s'
sync-IsSound cfg s s' call t clock small v e = elim (Bool-cases (s.initialized && s.has_mutex)) [
  | inl open_call ↦ elim (Bool-cases call.mutex_taken) [
    | inl taken ↦
        let (u, ends, list, frame, flag, sound) =
          apply_time_sync_lem cfg s call t (IsReady-of cfg s call (ground arith) v.bounds) v.sealed
            small in
        same_result (IsSound cfg) ends e sound
    | inr late ↦
        same_result (IsSound cfg) (sync-late cfg s call t open_call late) e
          (IsSound-state cfg s (record s { time_sync_received = true }) refl v)
  ]
  | inr no_call ↦ same_result (IsSound cfg) (sync-refused cfg s call t no_call) e v
]

-- A state that differs by its last id and a fresh checksum.
moved-IsSound :
    (cfg : Config) (s t : Service) (id : ℕ)
    → t.state ≡ update_crc (record (s.state) { global_event_id = id })
    → IsSound cfg s
    → IsSound cfg t
unfolding update_crc calculate_buffer_crc
moved-IsSound cfg s t id e v =
    IsSound-state cfg (record s { state = update_crc (record (s.state) { global_event_id = id }) })
      t e
      (record {
        bounds = record {
          two_cells = v.bounds.two_cells;
          cells = v.bounds.cells;
          head_in = v.bounds.head_in;
          tail_in = v.bounds.tail_in;
        };
        sealed = record { magic = v.sealed.magic; checksum = refl };
      })

forward-IsSound :
    (cfg : Config) (s : Service) (call : Call) (flush : FlushCall) (id : ℕ)
    → IsSound cfg s
    → IsSound cfg (fast_forward_event_id cfg s call flush id).0
forward-IsSound cfg s call flush id v = elim (forward-state cfg s call flush id) [
  | inl same ↦ IsSound-state cfg s _ same v
  | inr moved ↦ moved-IsSound cfg s _ id moved.1 v
]

clear-IsSound :
    (cfg : Config) (s : Service) (call : Call) → IsSound cfg s → IsSound cfg (clear cfg s call)
unfolding clear update_crc calculate_buffer_crc
clear-IsSound cfg s call v = elim (Bool-cases (s.has_mutex && call.mutex_taken)) [
  | inl taken ↦ rw taken (record {
    bounds = record {
      two_cells = v.bounds.two_cells;
      cells = length-replicate cfg.buffer_size zero_event;
      head_in = omega (arith, v.bounds);
      tail_in = omega (arith, v.bounds);
    };
    sealed = record { magic = v.sealed.magic; checksum = refl };
  })
  | inr late ↦ rw late v
]

Step-IsSound :
    (cfg : Config) {s t : Service}
    → cfg.buffer_size ≤ 65536
    → Step cfg s t
    → IsSound cfg s
    → IsSound cfg t
Step-IsSound cfg small (log s call d) v = log-IsSound cfg s call d v
Step-IsSound cfg small (mark {s} {s'} call id {found} e) v = mark-IsSound cfg s s' call id found v e
Step-IsSound cfg small (mark_many {s} {s'} call ids {n} few e) v =
    mark_many-IsSound cfg s s' call ids n v few e
Step-IsSound cfg small (sync {s} {s'} call t {clock} e) v =
    sync-IsSound cfg s s' call t clock small v e
Step-IsSound cfg small (forward s call flush id) v = forward-IsSound cfg s call flush id v
Step-IsSound cfg small (wipe s call) v = clear-IsSound cfg s call v
Step-IsSound cfg small (connect s call b) v = IsSound-state cfg s _ (state-connect cfg s call b) v
Step-IsSound cfg small (command s msg flush view opens ne) v =
    IsSound-state cfg s _ (state-command cfg msg s flush view opens ne) v

-- However a sound history is used, it stays sound: its indices within the buffer, its checksum that
-- of the buffer.
pub Reach-IsSound :
    (cfg : Config) {s t : Service}
    → cfg.buffer_size ≤ 65536
    → IsSound cfg s
    → Reach cfg s t
    → IsSound cfg t
Reach-IsSound cfg small v here = v
Reach-IsSound cfg small v (next r step) = Step-IsSound cfg small step (Reach-IsSound cfg small v r)

-- Whatever calls a sound history has seen, a reset that is not cold loses nothing of its stored state.
pub Reach-survives :
    (cfg : Config) {s t : Service} (call : InitCall)
    → cfg.buffer_size ≤ 65536
    → IsSound cfg s
    → Reach cfg s t
    → is_cold_reason call.reason ≡ false
    → (init cfg t call).state ≡ t.state
Reach-survives cfg {s} {t} call small v r warm =
    (init-warm cfg t call (Reach-IsSound cfg small v r) warm).0
