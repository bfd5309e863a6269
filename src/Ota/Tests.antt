-- ===== src/Ota/Tests.antt =====
-- The theorems on updates at a small image.
use esp32_sensor_firmware_pl.Prelude.{
  ℕ, ◌+◌, ◌≡◌, ◌↔◌, refl, true, false, ◌&&◌, List, [], ◌∷◌, ◌++◌, ◌==◌, some, map, length, u32,
}
use esp32_sensor_firmware_pl.Crc.{update_crc32, calculate_crc32}
use esp32_sensor_firmware_pl.Crc.Laws.{flatten_chunks}
use esp32_sensor_firmware_pl.Ota.State.{
  send_chunk_ack, receiving, failed, OtaConfig, begin, write, finish, restart, Manager, new, init,
  read_start,
}
use esp32_sensor_firmware_pl.Ota.Handlers.{
  handle_data, StartCall, Chunk, handle_start, handle_commit,
}
use esp32_sensor_firmware_pl.Ota.Session.{feed, commit-image}
use esp32_sensor_firmware_pl.Ota.Lifecycle.{
  OtaEvent, start_event, commit_event, tick_event, dispatch, ◌⟶◌, dispatch-⟶, run, run-failed,
}
use esp32_sensor_firmware_pl.Ota.SelfTest.{
  SelfTestCall, perform_self_test, has_driver, heap_ok, partitions_ok, nvs_ok, is_ready,
  pending_verify, validate_booted_firmware, rolls_back,
}
use esp32_sensor_firmware_pl.Ota.SelfTest.Verdict.{perform_self_test_lem, rolls_back_iff}

abbrev ota_cfg : OtaConfig
ota_cfg = record {
  min_battery_percent = 30;
  chunk_timeout_ms = 10000;
  version_major = 1;
  version_minor = 2;
  version_patch = 3;
  build_type = 0;
}

-- The text "123456789", whose CRC-32 is 0xCBF43926, in two chunks.
abbrev start_bytes : List ℕ
start_bytes = 9 ∷ 0 ∷ 0 ∷ 0 ∷ 0x26 ∷ 0x39 ∷ 0xF4 ∷ 0xCB ∷ 1 ∷ 2 ∷ 4 ∷ 2 ∷ 0 ∷ 0 ∷ []

abbrev start_call : StartCall
start_call = record { partition = some 0x100000; begins = true; millis = 5 }

abbrev chunk_of : ℕ → List ℕ → Chunk
chunk_of i bytes = record { index = i; payload = bytes; written = length bytes; millis = 6 }

-- The second chunk is sent twice; its repetition is refused.
abbrev chunks_sent : List Chunk
chunks_sent =
    chunk_of 0 (49 ∷ 50 ∷ 51 ∷ 52 ∷ 53 ∷ [])
    ∷ chunk_of 1 (54 ∷ 55 ∷ 56 ∷ 57 ∷ [])
    ∷ chunk_of 1 (54 ∷ 55 ∷ 56 ∷ 57 ∷ [])
    ∷ []

unfoldable ready_manager : Manager
unfolding init new
ready_manager = (init new true).0

starts : (handle_start ota_cfg ready_manager start_call start_bytes).1 ≡ true
unfolding handle_start ready_manager
starts = refl

commits :
    (handle_commit
      (feed (handle_start ota_cfg ready_manager start_call start_bytes).0 chunks_sent).0
      true).1
    ≡ true
unfolding handle_start ready_manager feed handle_commit handle_data update_crc32 send_chunk_ack
commits = refl

commit-image_example :
    let (m2, chunks) =
      feed (handle_start ota_cfg ready_manager start_call start_bytes).0 chunks_sent in
    let announced = read_start start_bytes in
    (calculate_crc32 (flatten_chunks chunks) ≡ announced.expected_crc)
    × (u32 (length (flatten_chunks chunks)) ≡ announced.total_size)
    × ((handle_commit m2 true).0.flash
        ≡ ready_manager.flash
          ++ begin announced.total_size ∷ map write chunks
          ++ finish ∷ restart ∷ [])
commit-image_example =
    commit-image ota_cfg ready_manager start_call start_bytes chunks_sent true starts commits

dispatch-⟶_example :
    ready_manager.state
    ⟶ (dispatch ota_cfg ready_manager (start_event start_call start_bytes)).state
dispatch-⟶_example = dispatch-⟶ ota_cfg ready_manager (start_event start_call start_bytes)

abbrev failed_manager : Manager
failed_manager = record ready_manager { state = failed }

abbrev retries : List OtaEvent
retries = start_event start_call start_bytes ∷ commit_event true ∷ tick_event 90000 ∷ []

run-failed_example :
    ((run ota_cfg failed_manager retries).state ≡ failed)
    × ((run ota_cfg failed_manager retries).flash ≡ failed_manager.flash)
run-failed_example = run-failed ota_cfg failed_manager retries refl refl

abbrev stalled : Manager
stalled = record ready_manager { state = receiving; last_chunk_time = 100; received_size = 9 }

abbrev halfway : Manager
halfway = record ready_manager { expected_chunks = 40; received_chunks = 20 }

-- The sensor does not answer, the LED is missing and the test is slow.
abbrev limping : SelfTestCall
limping = record {
  sensor = some (λ attempt. (false, 0));
  free_heap = 90000;
  largest_block = 30000;
  running = some 0x200000;
  next = some 0x200000;
  nvs_opens = true;
  nvs_written = 7;
  nvs_read = 7;
  has_led = false;
  storage_ready = some true;
  duration_ms = 99999;
}

perform_self_test_lem_example :
    let t = perform_self_test 3 5000 limping in
    (t.pass_count + t.warn_count + t.fail_count ≡ 7)
    × (t.firmware_ok ≡ (t.fail_count == 0))
    × (t.firmware_ok ≡ (
        has_driver limping.sensor
        && heap_ok limping
        && partitions_ok limping
        && nvs_ok limping
        && is_ready limping.storage_ready))
perform_self_test_lem_example = perform_self_test_lem 3 5000 limping

rolls_back_iff_example :
    (validate_booted_firmware 3 5000 true (some pending_verify) limping true ≡ rolls_back) ↔ (
      (true ≡ true)
      × (some pending_verify ≡ some pending_verify)
      × ((perform_self_test 3 5000 limping).firmware_ok ≡ false))
rolls_back_iff_example = rolls_back_iff 3 5000 true (some pending_verify) limping true
