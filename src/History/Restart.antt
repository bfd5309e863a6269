-- ===== src/History/Restart.antt =====
-- `HistoryService::init` after each kind of reset.
use esp32_sensor_firmware_pl.Prelude.{
  ℕ, ◌+◌, ◌≤◌, ◌<◌, ◌≡◌, ◌⊎◌, refl, sym, ap, subst, ◌∙◌, Bool, true, false, ◌||◌, [], lt→ltb,
  length, length-replicate, arith, u8, u32,
}
use esp32_sensor_firmware_pl.Event.{zero_event}
use esp32_sensor_firmware_pl.History.State.{
  Config, RtcState, Service, event_count, update_crc, calculate_buffer_crc, validate_state,
  reset_state,
}
use esp32_sensor_firmware_pl.History.Window.{contents, InBounds, event_count-closes, length-window}
use esp32_sensor_firmware_pl.History.Append.{IsSealed, validate_state-IsSealed}
use esp32_sensor_firmware_pl.History.Marking.{IsSound}
use esp32_sensor_firmware_pl.History.Nvs.{RestoreCall, image_of, restored_state, restore_from_nvs}
use esp32_sensor_firmware_pl.History.Backup.{restored_state_lem, restore_from_nvs-opened}
use esp32_sensor_firmware_pl.History.Worker.{
  InitCall, is_cold_reason, restore_or_reset, with_handles, boot, start_storage_worker, init,
}

-- Starting the worker leaves the stored state and the readiness alone.
start_storage_worker-keeps :
    (s : Service) (created : Bool)
    → ((start_storage_worker s created).0.state ≡ s.state)
      × ((start_storage_worker s created).0.initialized ≡ s.initialized)
unfolding start_storage_worker
start_storage_worker-keeps s created = ground arith

init-state :
    (cfg : Config) (s : Service) (call : InitCall)
    → ((init cfg s call).state ≡ update_crc (boot cfg s call).state)
      × ((init cfg s call).initialized ≡ true)
unfolding init
init-state cfg s call =
    start_storage_worker-keeps
      (record (boot cfg s call) {
        state = update_crc (boot cfg s call).state;
        last_nvs_flush_id = (boot cfg s call).state.global_event_id;
        events_since_flush = 0;
        initialized = true;
      })
      call.task_created

boot-warm :
    (cfg : Config) (s : Service) (call : InitCall)
    → IsSealed cfg s.state
    → is_cold_reason call.reason ≡ false
    → boot cfg s call ≡ with_handles cfg s call
unfolding boot
boot-warm cfg s call sealed warm =
    ground (arith, sealed, warm, validate_state-IsSealed cfg s.state sealed)

boot-cold :
    (cfg : Config) (s : Service) (call : InitCall)
    → (is_cold_reason call.reason ≡ true) ⊎ (validate_state cfg s.state ≡ false)
    → boot cfg s call ≡ restore_or_reset cfg (with_handles cfg s call) call.view
unfolding boot
boot-cold cfg s call cold = ground arith

-- The checksum of a sealed state is already right.
update_crc-sealed : (cfg : Config) (st : RtcState) → IsSealed cfg st → update_crc st ≡ st
unfolding update_crc
update_crc-sealed cfg st sealed = ground (arith, sealed)

-- After a reset that is not cold, with the state of a sound service still in RTC memory, the session
-- goes on: the stored state is the one before the reset, all of it, and the service is initialized.
pub init-warm :
    (cfg : Config) (s : Service) (call : InitCall)
    → IsSound cfg s
    → is_cold_reason call.reason ≡ false
    → let s' = init cfg s call in (s'.state ≡ s.state) × (s'.initialized ≡ true) × IsSound cfg s'
init-warm cfg s call sound warm =
    let same : (init cfg s call).state ≡ s.state =
      (init-state cfg s call).0
      ∙ ap (λ b. update_crc b.state) (boot-warm cfg s call sound.sealed warm)
      ∙ update_crc-sealed cfg s.state sound.sealed in
    (
      same,
      (init-state cfg s call).1,
      record {
        bounds = subst (InBounds cfg) (sym same) sound.bounds;
        sealed = subst (IsSealed cfg) (sym same) sound.sealed;
      },
    )

restore_or_reset-restored :
    (cfg : Config) (s : Service) (view : RestoreCall)
    → view.opens ≡ true
    → view.has_event_id ≡ true
    → s.has_mutex ≡ true
    → view.mutex_taken ≡ true
    → 0 < u8 (event_count cfg (restored_state cfg s.state view.image))
    → (restore_or_reset cfg s view).state ≡ record (restored_state cfg s.state view.image) {
      boot_count = u32 ((restored_state cfg s.state view.image).boot_count + 1);
    }
unfolding restore_or_reset
restore_or_reset-restored cfg s view o k m taken pos =
    rw (restore_from_nvs-opened cfg s view o k m taken) (rw (lt→ltb 0 _ pos))

restore_or_reset-reset :
    (cfg : Config) (s : Service) (view : RestoreCall)
    → view.opens ≡ false
    → (restore_or_reset cfg s view).state ≡ record (reset_state cfg s.state) { boot_count = 1 }
unfolding restore_or_reset restore_from_nvs
restore_or_reset-reset cfg s view shut = ground arith

-- The boot count is not under the checksum.
with_boot_count :
    (cfg : Config) (st : RtcState) (n : ℕ)
    → let st' = update_crc (record st { boot_count = n }) in
      (contents cfg st' ≡ contents cfg st)
      × (st'.boot_count ≡ n)
      × (st'.global_event_id ≡ st.global_event_id)
      × (InBounds cfg st → InBounds cfg st')
      × (st.magic_number ≡ cfg.rtc_magic_number → IsSealed cfg st')
unfolding update_crc calculate_buffer_crc event_count
with_boot_count cfg st n = (
  refl,
  refl,
  refl,
  λ v. record {
    two_cells = v.two_cells;
    cells = v.cells;
    head_in = v.head_in;
    tail_in = v.tail_in;
  },
  λ m. record { magic = m; checksum = refl },
)

-- After a cold reset, or with a stored state that fails its check, a backup of a ring that held an
-- event is brought back: the events and the last id of the backup, the boot counted, a sound ring.
pub init-restores :
    (cfg : Config) (s : Service) (call : InitCall) (old : RtcState)
    → (is_cold_reason call.reason ≡ true) ⊎ (validate_state cfg s.state ≡ false)
    → (s.has_mutex || call.mutex_created) ≡ true
    → call.view.opens ≡ true
    → call.view.has_event_id ≡ true
    → call.view.mutex_taken ≡ true
    → call.view.image ≡ image_of old
    → InBounds cfg old
    → cfg.buffer_size ≤ 256
    → 0 < length (contents cfg old)
    → let s' = init cfg s call in
      (contents cfg s'.state ≡ contents cfg old)
      × (s'.state.boot_count ≡ u32 (old.boot_count + 1))
      × (s'.state.global_event_id ≡ old.global_event_id)
      × IsSound cfg s'
init-restores cfg s call old cold m o k taken e v small some_events =
    let made = with_handles cfg s call in
    let st = restored_state cfg made.state call.view.image in
    let back = restored_state_lem cfg made.state old call.view.image e v in
    let counted = with_boot_count cfg st (u32 (st.boot_count + 1)) in
    let pos : 0 < u8 (event_count cfg st) = omega (
      arith,
      back.1,
      event_count-closes cfg old v,
      length-window old.buffer cfg.buffer_size old.tail (event_count cfg old),
    ) in
    let same : (init cfg s call).state
        ≡ update_crc (record st { boot_count = u32 (st.boot_count + 1) }) =
      (init-state cfg s call).0
      ∙ ap (λ b. update_crc b.state) (boot-cold cfg s call cold)
      ∙ ap update_crc (restore_or_reset-restored cfg made call.view o k m taken pos) in
    rw same (
      counted.0 ∙ back.0,
      counted.1 ∙ ap (λ n. u32 (n + 1)) back.2,
      counted.2 ∙ back.3,
      record { bounds = counted.3 back.4; sealed = counted.4 back.5.magic },
    )

reset_state-empty :
    (cfg : Config) (st : RtcState)
    → 2 ≤ cfg.buffer_size
    → let st' = reset_state cfg st in
      (contents cfg st' ≡ [])
      × (st'.global_event_id ≡ 0)
      × InBounds cfg st'
      × (st'.magic_number ≡ cfg.rtc_magic_number)
unfolding reset_state update_crc event_count
reset_state-empty cfg st two = (
  refl,
  refl,
  record {
    two_cells = two;
    cells = length-replicate cfg.buffer_size zero_event;
    head_in = omega arith;
    tail_in = omega arith;
  },
  refl,
)

-- After a cold reset, or with a stored state that fails its check, and no backup to open, the history
-- starts afresh: no event, boot count 1, last id 0, and a sound ring.
pub init-fresh :
    (cfg : Config) (s : Service) (call : InitCall)
    → (is_cold_reason call.reason ≡ true) ⊎ (validate_state cfg s.state ≡ false)
    → call.view.opens ≡ false
    → 2 ≤ cfg.buffer_size
    → let s' = init cfg s call in
      (contents cfg s'.state ≡ [])
      × (s'.state.boot_count ≡ 1)
      × (s'.state.global_event_id ≡ 0)
      × IsSound cfg s'
init-fresh cfg s call cold shut two =
    let made = with_handles cfg s call in
    let empty = reset_state-empty cfg made.state two in
    let counted = with_boot_count cfg (reset_state cfg made.state) 1 in
    let same : (init cfg s call).state
        ≡ update_crc (record (reset_state cfg made.state) { boot_count = 1 }) =
      (init-state cfg s call).0
      ∙ ap (λ b. update_crc b.state) (boot-cold cfg s call cold)
      ∙ ap update_crc (restore_or_reset-reset cfg made call.view shut) in
    rw same (
      counted.0 ∙ empty.0,
      counted.1,
      counted.2 ∙ empty.1,
      record { bounds = counted.3 empty.2; sealed = counted.4 empty.3 },
    )
