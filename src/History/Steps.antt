-- ===== src/History/Steps.antt =====
-- The calls that the rest of the firmware makes on the history, as steps, each meeting any answers of
-- the platform; and the calls that are refused.
use esp32_sensor_firmware_pl.History.Backup.{flush_to_nvs_lem}
use esp32_sensor_firmware_pl.Prelude.{
  ltb, none, ◌⊎◌, ℕ, ◌<◌, ◌≡◌, ◌≢◌, inl, inr, refl, subst, Bool, true, false, ◌&&◌, List, [], ◌∷◌,
  Option, some, length, arith, Bool-cases,
}
use esp32_sensor_firmware_pl.Platform.{Call}
use esp32_sensor_firmware_pl.History.State.{
  restore, clear_nvs, save_hit, force_flush, StorageCmd, update_crc, Config, Service,
  StorageMessage,
}
use esp32_sensor_firmware_pl.History.Window.{InBounds}
use esp32_sensor_firmware_pl.History.Queries.{IsReady}
use esp32_sensor_firmware_pl.History.Log.{queue_flush, queue_storage_command, log_detection}
use esp32_sensor_firmware_pl.History.Sync.{
  mark_as_synced, mark_multiple_as_synced, apply_time_sync, clear, set_ble_connected,
}
use esp32_sensor_firmware_pl.History.Nvs.{
  flush_to_nvs, FlushCall, RestoreCall, fast_forward_event_id,
}
use esp32_sensor_firmware_pl.History.Worker.{process_cmd, process_storage_command}

-- One call of a public method, or one command that the storage worker processes. A restore is not
-- among them: it takes over whatever the store returns.
pub data Step (cfg : Config) : Service → Service → Type 0 where
  log : (s : Service) (call : Call) (d : ℕ) → Step cfg s (log_detection cfg s call d).0
  mark :
      {s s' : Service} (call : Call) (id : ℕ) {found : Bool}
      → mark_as_synced cfg s call id ≡ some (s', found)
      → Step cfg s s'
  mark_many :
      {s s' : Service} (call : Call) (ids : List ℕ) {n : ℕ}
      → length ids < 256
      → mark_multiple_as_synced cfg s call ids ≡ some (s', n)
      → Step cfg s s'
  sync :
      {s s' : Service} (call : Call) (t : ℕ) {clock : Option ℕ}
      → apply_time_sync cfg s call t ≡ some (s', clock)
      → Step cfg s s'
  forward :
      (s : Service) (call : Call) (flush : FlushCall) (id : ℕ)
      → Step cfg s (fast_forward_event_id cfg s call flush id).0
  wipe : (s : Service) (call : Call) → Step cfg s (clear cfg s call)
  connect : (s : Service) (call : Call) (b : Bool) → Step cfg s (set_ble_connected cfg s call b)
  command :
      (s : Service) (msg : StorageMessage) (flush : FlushCall) (view : RestoreCall) (opens : Bool)
      → msg.cmd ≢ restore
      → Step cfg s (process_storage_command cfg s msg flush view opens).0

pub data Reach (cfg : Config) (s : Service) : Service → Type 0 where
  here : Reach cfg s s
  next : {t u : Service} → Reach cfg s t → Step cfg t u → Reach cfg s u

pub IsReady-of :
    (cfg : Config) (s : Service) (call : Call)
    → (s.initialized && s.has_mutex && call.mutex_taken) ≡ true
    → InBounds cfg s.state
    → IsReady cfg s call
IsReady-of cfg s call h v = record {
  initialized = ground arith;
  has_mutex = ground arith;
  mutex_taken = ground arith;
  in_bounds = v;
}

-- A result of a call that is known is the one that it has.
pub same_result :
    (P : Service → Type 0) {A : Type 0} {o : Option (Service × A)} {s t : Service} {a b : A}
    → o ≡ some (s, a)
    → o ≡ some (t, b)
    → P s
    → P t
same_result P {s = s} {t = t} p q v = let e : s ≡ t = cc in subst P e v

pub mark-refused :
    (cfg : Config) (s : Service) (call : Call) (id : ℕ)
    → (s.initialized && s.has_mutex && call.mutex_taken) ≡ false
    → mark_as_synced cfg s call id ≡ some (s, false)
unfolding mark_as_synced
mark-refused cfg s call id h = rw h

pub mark_many-refused :
    (cfg : Config) (s : Service) (call : Call) (id : ℕ) (ids : List ℕ)
    → (s.initialized && s.has_mutex && call.mutex_taken) ≡ false
    → mark_multiple_as_synced cfg s call (id ∷ ids) ≡ some (s, 0)
unfolding mark_multiple_as_synced
mark_many-refused cfg s call id ids h = rw h

pub mark_many-none :
    (cfg : Config) (s : Service) (call : Call) → mark_multiple_as_synced cfg s call [] ≡ some (s, 0)
unfolding mark_multiple_as_synced
mark_many-none cfg s call = refl

pub sync-refused :
    (cfg : Config) (s : Service) (call : Call) (t : ℕ)
    → (s.initialized && s.has_mutex) ≡ false
    → apply_time_sync cfg s call t ≡ some (s, none)
unfolding apply_time_sync
sync-refused cfg s call t h = rw h

pub sync-late :
    (cfg : Config) (s : Service) (call : Call) (t : ℕ)
    → (s.initialized && s.has_mutex) ≡ true
    → call.mutex_taken ≡ false
    → apply_time_sync cfg s call t ≡ some (record s { time_sync_received = true }, some t)
unfolding apply_time_sync
sync-late cfg s call t h late = rw (h, late)

pub state-flush :
    (cfg : Config) (s : Service) (call : FlushCall) → (flush_to_nvs cfg s call).0.state ≡ s.state
state-flush cfg s call = (flush_to_nvs_lem cfg s call).1

pub state-queue :
    (s : Service) (call : Call) (msg : StorageMessage)
    → (queue_storage_command s call msg).0.state ≡ s.state
unfolding queue_storage_command
state-queue s call msg = ground arith

pub forward-state :
    (cfg : Config) (s : Service) (call : Call) (flush : FlushCall) (id : ℕ)
    → let t = (fast_forward_event_id cfg s call flush id).0 in
      (t.state ≡ s.state)
      ⊎ ((s.state.global_event_id < id)
          × (t.state ≡ update_crc (record (s.state) { global_event_id = id })))
unfolding fast_forward_event_id
forward-state cfg s call flush id =
    let moved = record s {
      state = update_crc (record (s.state) { global_event_id = id });
      events_since_flush = cfg.nvs_flush_threshold;
    } in
    let msg : StorageMessage = record { cmd = force_flush; event_id = id } in
    elim (Bool-cases
      (s.initialized && s.has_mutex && call.mutex_taken && ltb s.state.global_event_id id)) [
        | inl moves ↦ inr (
          ground arith,
          rw moves (
              ground (
                arith,
                state-flush cfg moved flush,
                state-flush cfg (queue_storage_command moved call msg).0 flush,
                state-queue moved call msg,
              )),
        )
        | inr stays ↦ inl (rw stays)
      ]

pub state-connect :
    (cfg : Config) (s : Service) (call : Call) (b : Bool)
    → (set_ble_connected cfg s call b).state ≡ s.state
unfolding set_ble_connected queue_flush queue_storage_command
state-connect cfg s call b = ground arith

pub state-process :
    (cfg : Config) (cmd : StorageCmd) (s : Service) (flush : FlushCall) (view : RestoreCall)
    (opens : Bool)
    → cmd ≢ restore
    → (process_cmd cfg cmd s flush view opens).0.state ≡ s.state
unfolding process_cmd
state-process cfg restore s flush view opens ne = absurd (ne refl)
state-process cfg clear_nvs s flush view opens ne = refl
state-process cfg save_hit s flush view opens ne = state-flush cfg s flush
state-process cfg force_flush s flush view opens ne = state-flush cfg s flush

pub state-command :
    (cfg : Config) (msg : StorageMessage) (s : Service) (flush : FlushCall) (view : RestoreCall)
    (opens : Bool)
    → msg.cmd ≢ restore
    → (process_storage_command cfg s msg flush view opens).0.state ≡ s.state
unfolding process_storage_command
state-command cfg msg s flush view opens ne = state-process cfg msg.cmd s flush view opens ne
