-- ===== src/History/Tests.antt =====
-- The theorems on the history at the sample ring.
use esp32_sensor_firmware_pl.History.Numbering.{Step-IsNumbered, IsNumbered}
use esp32_sensor_firmware_pl.Prelude.{
  ◌≤◌, ◌^◌, ℕ, ◌+◌, ◌<◌, ◌≡◌, refl, inl, true, false, ◌||◌, ◌++◌, List, [], ◌∷◌, some, map, select,
  take, length, ltb, update_first, u32, arith,
}
use esp32_sensor_firmware_pl.Event.{DetectionEvent, set_synced, is_time_estimated}
use esp32_sensor_firmware_pl.History.State.{update_crc, Service}
use esp32_sensor_firmware_pl.History.Readers.{get_unsynced_events, get_events_since}
use esp32_sensor_firmware_pl.History.Window.{contents}
use esp32_sensor_firmware_pl.History.Log.{log_detection}
use esp32_sensor_firmware_pl.History.Sync.{mark_as_synced, mark_multiple_as_synced, apply_time_sync}
use esp32_sensor_firmware_pl.History.Nvs.{flush_to_nvs, restore_from_nvs}
use esp32_sensor_firmware_pl.History.Worker.{init}
use esp32_sensor_firmware_pl.History.Queries.{unsynced, get_events_lem}
use esp32_sensor_firmware_pl.History.Append.{is_full, push_bounded, detection}
use esp32_sensor_firmware_pl.History.Marking.{has_id, SameFrame, IsSound, mark_as_synced_lem}
use esp32_sensor_firmware_pl.History.MarkingMany.{mark_all, mark_multiple_as_synced_lem}
use esp32_sensor_firmware_pl.History.Backfill.{dated, apply_time_sync_lem}
use esp32_sensor_firmware_pl.History.Recording.{log_detection_lem, log_detection-not_estimated}
use esp32_sensor_firmware_pl.History.Backup.{CountsBytes, flush_to_nvs-never_ok, restore-flush}
use esp32_sensor_firmware_pl.History.Steps.{Reach, here, next, log}
use esp32_sensor_firmware_pl.History.Trace.{Reach-IsSound, Reach-survives}
use esp32_sensor_firmware_pl.History.Samples.{
  service-IsNumbered, ring, small_cfg, service, call, late_call, flush, image, view, warm_boot,
  ring-InBounds, ring-IsSealed, service-IsSound, service-IsReady,
}

abbrev after_log : Service
after_log = (log_detection small_cfg service call 1200).0

abbrev after_logs : Service
after_logs = (log_detection small_cfg after_log late_call 800).0

two_logs : Reach small_cfg service after_logs
two_logs = next (next here (log service call 1200)) (log after_log late_call 800)

service-fits : service.state.global_event_id + 1 < 2 ^ 32
unfolding service ring update_crc
service-fits = omega arith

Step-IsNumbered_example :
    IsNumbered small_cfg after_log
    × ((id : ℕ) → length (select (has_id id) (contents small_cfg after_log.state)) ≤ 1)
Step-IsNumbered_example =
    Step-IsNumbered small_cfg (omega arith) (log service call 1200) service-IsSound service-fits
      service-IsNumbered

Reach-IsSound_example : IsSound small_cfg after_logs
Reach-IsSound_example = Reach-IsSound small_cfg (omega arith) service-IsSound two_logs

Reach-survives_example : (init small_cfg after_logs warm_boot).state ≡ after_logs.state
Reach-survives_example =
    Reach-survives small_cfg warm_boot (omega arith) service-IsSound two_logs refl

log_detection_lem_example :
    let (s', id, epoch) = log_detection small_cfg service call 1200 in
    (contents small_cfg s'.state
      ≡ push_bounded 2
          (contents small_cfg service.state)
          (detection service.state call 1200 (is_full 2 (contents small_cfg service.state))))
    × (id ≡ u32 (service.state.global_event_id + 1))
    × (s'.state.global_event_id ≡ id)
    × IsSound small_cfg s'
log_detection_lem_example =
    log_detection_lem small_cfg service call 1200 service-IsReady ring-IsSealed

unsynced_clock : service.time_sync_received ≡ false
unfolding service
unsynced_clock = refl

log_detection-not_estimated_example :
    (older : List DetectionEvent) × (e : DetectionEvent) × (contents small_cfg
        (log_detection small_cfg service call 1200).0.state
      ≡ older ++ (e ∷ []))
    × (e.timestamp ≡ 1700000000)
    × (is_time_estimated e ≡ false)
log_detection-not_estimated_example =
    log_detection-not_estimated small_cfg service call 1200 service-IsReady ring-IsSealed
      (omega arith) unsynced_clock

mark_as_synced_lem_example :
    (s' : Service) × (mark_as_synced small_cfg service call 5
      ≡ some (s', ltb 0 (length (select (has_id 5) (contents small_cfg service.state)))))
    × (contents small_cfg s'.state
        ≡ update_first (has_id 5) set_synced (contents small_cfg service.state))
    × SameFrame service.state s'.state
    × IsSound small_cfg s'
mark_as_synced_lem_example =
    mark_as_synced_lem small_cfg service call 5 service-IsReady ring-IsSealed

mark_multiple_as_synced_lem_example :
    (s' : Service) × (count : ℕ) × (mark_multiple_as_synced small_cfg service call (4 ∷ 5 ∷ [])
      ≡ some (s', count))
    × (contents small_cfg s'.state ≡ mark_all (4 ∷ 5 ∷ []) (contents small_cfg service.state))
    × (count + length (select unsynced (contents small_cfg s'.state))
        ≡ length (select unsynced (contents small_cfg service.state)))
    × SameFrame service.state s'.state
    × IsSound small_cfg s'
mark_multiple_as_synced_lem_example =
    mark_multiple_as_synced_lem small_cfg service call 4 (5 ∷ []) service-IsReady ring-IsSealed
      (omega arith)

apply_time_sync_lem_example :
    (s' : Service) × (apply_time_sync small_cfg service call 1700000000
      ≡ some (s', some 1700000000))
    × (contents small_cfg s'.state
        ≡ map (dated service.state.boot_count 1700000000 9000) (contents small_cfg service.state))
    × SameFrame service.state s'.state
    × (s'.time_sync_received ≡ true)
    × IsSound small_cfg s'
apply_time_sync_lem_example =
    apply_time_sync_lem small_cfg service call 1700000000 service-IsReady ring-IsSealed
      (omega arith)

get_events_lem_example :
    (get_unsynced_events small_cfg service call 1
      ≡ some (true, take 1 (select unsynced (contents small_cfg service.state))))
    × (get_events_since small_cfg service call 4 1
        ≡ some (true, take 1 (select (λ e. ltb 4 e.id) (contents small_cfg service.state))))
get_events_lem_example = get_events_lem small_cfg service call service-IsReady 1 4

counts : CountsBytes flush
counts = record {
  boot_count_bytes = inl refl;
  event_id_bytes = inl refl;
  head_bytes = inl refl;
  tail_bytes = inl refl;
}

flush_to_nvs-never_ok_example : (flush_to_nvs small_cfg service flush).1 ≡ false
flush_to_nvs-never_ok_example = flush_to_nvs-never_ok small_cfg service flush counts

flushed : (flush_to_nvs small_cfg service flush).2 ≡ some image
unfolding flush_to_nvs service ring update_crc
flushed = refl

has_mutex : service.has_mutex ≡ true
unfolding service
has_mutex = refl

restore-flush_example :
    let (t', count) = restore_from_nvs small_cfg service view in
    (contents small_cfg t'.state ≡ contents small_cfg service.state)
    × (count ≡ length (contents small_cfg service.state))
    × (t'.state.boot_count ≡ service.state.boot_count)
    × (t'.state.global_event_id ≡ service.state.global_event_id)
    × IsSound small_cfg t'
restore-flush_example =
    restore-flush small_cfg service service flush view ring-InBounds (omega arith) flushed refl refl
      has_mutex refl

made : (service.has_mutex || true) ≡ true
unfolding service
made = refl
