-- ===== src/Ota/SelfTest.antt =====
-- `OTAManager::performSelfTest` and `validateBootedFirmware`: the first boot of a new firmware.
pub mod Verdict
use esp32_sensor_firmware_pl.Prelude.{
  ◌∙◌, ◌<◌, ℕ, zero, suc, ◌+◌, ◌≡◌, ◌↔◌, refl, ap, Bool, true, false, not, ◌&&◌, Option, none, some,
  leb, ltb, ◌==◌, u8, if◌then◌else◌, arith,
}

-- What the tests meet. The sensor, if its driver is there, answers each attempt with whether it is
-- present and with its id; a partition has a size; the value written to NVS is read back; the storage,
-- if its driver is there, is ready or not.
pub record SelfTestCall : Type 0 where
  pub sensor : Option (ℕ → Bool × ℕ)
  pub free_heap : ℕ
  pub largest_block : ℕ
  pub running : Option ℕ
  pub next : Option ℕ
  pub nvs_opens : Bool
  pub nvs_written : ℕ
  pub nvs_read : ℕ
  pub has_led : Bool
  pub storage_ready : Option Bool
  pub duration_ms : ℕ

-- `firmwareOk` and the three counters.
pub record Tally : Type 0 where
  pub firmware_ok : Bool
  pub pass_count : ℕ
  pub warn_count : ℕ
  pub fail_count : ℕ

abbrev pub pass : Tally → Tally
pass t = record t { pass_count = u8 (t.pass_count + 1) }

abbrev pub warn : Tally → Tally
warn t = record t { warn_count = u8 (t.warn_count + 1) }

abbrev pub fail : Tally → Tally
fail t = record t { firmware_ok = false; fail_count = u8 (t.fail_count + 1) }

-- The attempts that are left, from the given number on.
unfoldable pub find_sensor : (ℕ → Bool × ℕ) → ℕ → ℕ → Bool
find_sensor answer zero attempt = false
find_sensor answer (suc rounds) attempt =
    let (present, id) = answer attempt in
    let rest = find_sensor answer rounds (attempt + 1) in
    if present && not (id == 0) then true else rest

abbrev pub test_sensor : ℕ → Option (ℕ → Bool × ℕ) → Tally → Tally
test_sensor retries none t = fail t
test_sensor retries (some answer) t = if find_sensor answer retries 1 then pass t else warn t

abbrev pub min_free_heap : ℕ
min_free_heap = 50000

abbrev pub min_largest_block : ℕ
min_largest_block = 20000

abbrev pub heap_ok : SelfTestCall → Bool
heap_ok call = leb min_free_heap call.free_heap && leb min_largest_block call.largest_block

abbrev pub is_large : Option ℕ → Bool
is_large none = false
is_large (some size) = leb 0x100000 size

abbrev pub partitions_ok : SelfTestCall → Bool
partitions_ok call = is_large call.running && is_large call.next

abbrev pub nvs_ok : SelfTestCall → Bool
nvs_ok call = call.nvs_opens && call.nvs_read == call.nvs_written

abbrev pub is_ready : Option Bool → Bool
is_ready none = false
is_ready (some ready) = ready

abbrev pub must : Bool → Tally → Tally
must ok t = if ok then pass t else fail t

-- `retries` is `FlasherConfig::SENSOR_CHECK_RETRIES`, `limit_ms` `OTAConfig::SELF_TEST_TIMEOUT_MS`.
-- The seventh test passes on both of its branches.
unfoldable pub perform_self_test : (retries limit_ms : ℕ) → SelfTestCall → Tally
unfolding find_sensor
perform_self_test retries limit_ms call =
    let start : Tally = record {
      firmware_ok = true;
      pass_count = 0;
      warn_count = 0;
      fail_count = 0;
    } in
    let t1 = test_sensor retries call.sensor start in
    let t2 = must (heap_ok call) t1 in
    let t3 = must (partitions_ok call) t2 in
    let t4 = must (nvs_ok call) t3 in
    let t5 = if call.has_led then pass t4 else warn t4 in
    let t6 = must (is_ready call.storage_ready) t5 in
    if ltb call.duration_ms limit_ms then pass t6 else pass t6

pub data ImageState : Type 0 where
  pending_verify valid other_image : ImageState

-- How `validateBootedFirmware` ends: a result, or the rollback, after which the program does not go
-- on.
pub data Outcome : Type 0 where
  returns : Bool → Outcome
  rolls_back : Outcome

-- `has_running`: the running partition is known. `image`: its state, if it can be read. `confirms`:
-- the boot loader accepts the confirmation.
abbrev pub of_image : Option ImageState → Bool → Bool → Outcome
of_image none tested confirms = returns true
of_image (some pending_verify) tested confirms = if tested then returns confirms else rolls_back
of_image (some valid) tested confirms = returns true
of_image (some other_image) tested confirms = returns true

unfoldable pub validate_booted_firmware :
    (retries limit_ms : ℕ)
    → (has_running : Bool) → Option ImageState
    → SelfTestCall
    → (confirms : Bool) → Outcome
unfolding perform_self_test
validate_booted_firmware retries limit_ms has_running image call confirms =
    if has_running
    then of_image image (perform_self_test retries limit_ms call).firmware_ok confirms
    else returns false

abbrev pub has_driver : Option (ℕ → Bool × ℕ) → Bool
has_driver none = false
has_driver (some answer) = true
