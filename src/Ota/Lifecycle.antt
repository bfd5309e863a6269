-- ===== src/Ota/Lifecycle.antt =====
-- The life of the update state: which changes an event can make, and what a failed update allows.
use native.Mathlib.Nat.{div-le_of_le-mul}
use native.Mathlib.Decide.{dec_lt}
use esp32_sensor_firmware_pl.Prelude.{
  ◌*◌, refl, inr, inl, ◌++◌, [], if◌then◌else◌, not, sub_u32, ◌∙◌, ltb, ◌∷◌, ◌⊎◌, ◌↔◌, false, ◌&&◌,
  ◌≤◌, ◌<◌, ◌≡◌, ◌≢◌, true, ℕ, Bool, List, arith,
}
use esp32_sensor_firmware_pl.Ota.State.{
  abort, timeout, version_number, committing, send_chunk_ack, new, validating, validate_version,
  init, send_status, get_progress, OtaState, idle, receiving, rebooting, failed, OtaConfig, Manager,
}
use esp32_sensor_firmware_pl.Ota.Handlers.{
  is_receiving, StartCall, Chunk, handle_start, handle_data, handle_commit, handle_abort, update,
}

-- What can happen to the manager.
pub data OtaEvent : Type 0 where
  start_event : StartCall → List ℕ → OtaEvent
  data_event : Chunk → OtaEvent
  commit_event : Bool → OtaEvent
  abort_event : OtaEvent
  tick_event : ℕ → OtaEvent

unfoldable pub dispatch : OtaConfig → Manager → OtaEvent → Manager
unfolding handle_start handle_data handle_commit handle_abort update
dispatch cfg m (start_event call payload) = (handle_start cfg m call payload).0
dispatch cfg m (data_event c) = (handle_data m c).0
dispatch cfg m (commit_event ends) = (handle_commit m ends).0
dispatch cfg m abort_event = handle_abort m
dispatch cfg m (tick_event millis) = update cfg m millis

infix 40 ◌⟶◌
pub data ◌⟶◌ : OtaState → OtaState → Type 0 where
  stay : {s : OtaState} → s ⟶ s
  open_update : idle ⟶ receiving
  reject_image : receiving ⟶ failed
  accept_image : receiving ⟶ rebooting
  give_up : {s : OtaState} → s ⟶ idle

-- Every event leaves the state as it is or changes it along the diagram: from `idle` to `receiving`,
-- from there to `failed` or `rebooting`, and from any state to `idle`.
pub dispatch-⟶ : (cfg : OtaConfig) (m : Manager) (e : OtaEvent) → m.state ⟶ (dispatch cfg m e).state
unfolding dispatch
dispatch-⟶ cfg m (start_event call payload) =
    grind (arith, stay, open_update, reject_image, accept_image, give_up)
dispatch-⟶ cfg m (data_event c) =
    grind (arith, stay, open_update, reject_image, accept_image, give_up)
dispatch-⟶ cfg m (commit_event ends) =
    grind (arith, stay, open_update, reject_image, accept_image, give_up)
dispatch-⟶ cfg m abort_event = grind (arith, stay, open_update, reject_image, accept_image, give_up)
dispatch-⟶ cfg m (tick_event millis) =
    grind (arith, stay, open_update, reject_image, accept_image, give_up)

unfoldable pub run : OtaConfig → Manager → List OtaEvent → Manager
run cfg m [] = m
run cfg m (e ∷ es) = run cfg (dispatch cfg m e) es

abbrev pub is_abort : OtaEvent → Bool
is_abort abort_event = true
is_abort _ = false

abbrev pub no_aborts : List OtaEvent → Bool
no_aborts [] = true
no_aborts (e ∷ es) = not (is_abort e) && no_aborts es

dispatch-failed :
    (cfg : OtaConfig) (m : Manager) (e : OtaEvent)
    → m.state ≡ failed
    → is_abort e ≡ false
    → ((dispatch cfg m e).state ≡ failed) × ((dispatch cfg m e).flash ≡ m.flash)
unfolding dispatch send_status send_chunk_ack
dispatch-failed cfg m (start_event call payload) f n = ground arith
dispatch-failed cfg m (data_event c) f n = ground arith
dispatch-failed cfg m (commit_event ends) f n = ground arith
dispatch-failed cfg m abort_event f n = cc
dispatch-failed cfg m (tick_event millis) f n = ground arith

-- A failed update stays failed, and the flash untouched, through any events but an abort: also a new
-- start is refused until then.
pub run-failed :
    (cfg : OtaConfig) (m : Manager) (es : List OtaEvent)
    → m.state ≡ failed
    → no_aborts es ≡ true
    → ((run cfg m es).state ≡ failed) × ((run cfg m es).flash ≡ m.flash)
unfolding run
run-failed cfg m [] f n = (f, refl)
run-failed cfg m (e ∷ es) f n =
    let one = dispatch-failed cfg m e f (ground arith) in
    let rest = run-failed cfg (dispatch cfg m e) es one.0 (ground arith) in (rest.0, rest.1 ∙ one.1)

abbrev IsVisible : OtaState → Type 0
IsVisible s = (s ≢ validating) × (s ≢ committing)

dispatch-IsVisible :
    (cfg : OtaConfig) (m : Manager) (e : OtaEvent)
    → IsVisible m.state
    → IsVisible (dispatch cfg m e).state
unfolding dispatch
dispatch-IsVisible cfg m (start_event call payload) v = ground arith
dispatch-IsVisible cfg m (data_event c) v = ground arith
dispatch-IsVisible cfg m (commit_event ends) v = ground arith
dispatch-IsVisible cfg m abort_event v = ground arith
dispatch-IsVisible cfg m (tick_event millis) v = ground arith

run-IsVisible :
    (cfg : OtaConfig) (m : Manager) (es : List OtaEvent)
    → IsVisible m.state
    → IsVisible (run cfg m es).state
unfolding run
run-IsVisible cfg m [] v = v
run-IsVisible cfg m (e ∷ es) v =
    run-IsVisible cfg (dispatch cfg m e) es (dispatch-IsVisible cfg m e v)

-- A commit validates and commits within one call: between events, a manager that started out new is
-- never in the states VALIDATING or COMMITTING.
pub run_visible :
    (cfg : OtaConfig) (handler : Bool) (es : List OtaEvent)
    → let s = (run cfg (init new handler).0 es).state in (s ≢ validating) × (s ≢ committing)
unfolding init new
run_visible cfg handler es = run-IsVisible cfg (init new handler).0 es (ground arith)

-- A tick aborts an update exactly when the manager is initialized, is receiving, and its last chunk
-- is longer ago than the timeout (on a clock that wraps); it is then idle with the error TIMEOUT, with
-- nothing received, and the flash writer is told. Otherwise all of this stays as it was.
pub update_times_out :
    (cfg : OtaConfig) (m : Manager) (millis : ℕ)
    → let late =
        m.initialized
        && is_receiving m.state
        && ltb cfg.chunk_timeout_ms (sub_u32 millis m.last_chunk_time) in
      let m' = update cfg m millis in
      (m'.state ≡ (if late then idle else m.state))
      × (m'.last_error ≡ (if late then timeout else m.last_error))
      × (m'.flash ≡ (if late then m.flash ++ abort ∷ [] else m.flash))
      × (m'.received_size ≡ (if late then 0 else m.received_size))
      × (m'.received_chunks ≡ (if late then 0 else m.received_chunks))
unfolding update send_status
update_times_out cfg m millis = ground arith

-- Versions compare by major, then minor, then patch: a release takes a version exactly when it is not
-- below its own.
pub validate_version_lem :
    (cfg : OtaConfig) (major minor patch : ℕ)
    → minor < 256
    → patch < 256
    → cfg.version_minor < 256
    → cfg.version_patch < 256
    → cfg.build_type ≢ 2
    → (validate_version cfg major minor patch ≡ true) ↔ (
        (cfg.version_major < major)
        ⊎ ((cfg.version_major ≡ major) × (cfg.version_minor < minor))
        ⊎ ((cfg.version_major ≡ major) × (cfg.version_minor ≡ minor) × (cfg.version_patch ≤ patch)))
unfolding validate_version
validate_version_lem cfg major minor patch a b c d release = (
  λ h.
      let le : version_number cfg.version_major cfg.version_minor cfg.version_patch
          ≤ version_number major minor patch =
        ground arith in
      elim (dec_lt cfg.version_major major) [
        | yes p ↦ inl p
        | no p ↦
            let same : cfg.version_major ≡ major = omega arith in
            elim (dec_lt cfg.version_minor minor) [
              | yes q ↦ inr (inl (same, q))
              | no q ↦ inr (inr (same, omega arith, omega arith))
            ]
      ],
  λ h. ground arith,
)

-- The progress is a percentage, as long as no more chunks came than were announced.
pub get_progress-le : (m : Manager) → m.received_chunks ≤ m.expected_chunks → get_progress m ≤ 100
unfolding get_progress
get_progress-le m h = ground (
  arith,
  div-le_of_le-mul m.expected_chunks {m = m.received_chunks * 100} {n = 100} (grind arith),
)
