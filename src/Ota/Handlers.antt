-- ===== src/Ota/Handlers.antt =====
-- The handlers of `OTAManager`. Each returns the new state, and the result where there is one.
use esp32_sensor_firmware_pl.Prelude.{
  ◌&&◌, ℕ, ◌+◌, ◌/◌, ◌%◌, ◌++◌, Bool, true, false, not, List, [], ◌∷◌, Option, none, some, ltb,
  ◌==◌, length, replicate, u16, u32, sub_u32, if◌then◌else◌,
}
use esp32_sensor_firmware_pl.Crc.{update_crc32, complement_u32}
use esp32_sensor_firmware_pl.Ota.State.{
  OtaState, idle, receiving, committing, rebooting, failed, OtaError, no_error, low_battery,
  no_partition, too_large, begin_failed, write_failed, size_mismatch, crc_mismatch, commit_failed,
  timeout, invalid_state, chunk_out_of_order, version_rejected, OtaConfig, FlashCall, begin, write,
  abort, finish, restart, info_resp, Manager, send_status, send_chunk_ack, start_payload_size,
  read_start, check_battery_level, validate_version,
}

abbrev pub is_idle : OtaState → Bool
is_idle idle = true
is_idle _ = false

abbrev pub is_receiving : OtaState → Bool
is_receiving receiving = true
is_receiving _ = false

-- What `handleStart` meets: the size of the next update partition, if there is one, whether
-- `Update.begin` succeeds, and `millis()`.
pub record StartCall : Type 0 where
  pub partition : Option ℕ
  pub begins : Bool
  pub millis : ℕ

-- A refusal: the error is kept and sent with the status 0x01.
abbrev pub refuse : Manager → OtaError → Manager × Bool
refuse m error = (send_status (record m { last_error = error }) 0x01 error, false)

-- `_lastError` is NONE and the counters start again before the first chunk.
unfoldable pub begin_receiving : Manager → ℕ → Manager
begin_receiving m millis = record m {
  state = receiving;
  received_size = 0;
  received_chunks = 0;
  running_crc = 0xFFFFFFFF;
  start_time = millis;
  last_chunk_time = millis;
  last_error = no_error;
}

-- `_expectedSize` and the other fields are taken over before the checks.
unfoldable pub take_over : Manager → List ℕ → Manager
unfolding read_start
take_over m payload =
    let start = read_start payload in
    record m {
      expected_size = start.total_size;
      expected_crc = start.expected_crc;
      new_major = start.new_major;
      new_minor = start.new_minor;
      new_patch = start.new_patch;
      expected_chunks = start.total_chunks;
    }

-- From `getNextPartition` on, for an update partition of that size.
unfoldable pub start_in : Manager → StartCall → ℕ → Manager × Bool
unfolding begin_receiving send_status
start_in m call size =
    if ltb size m.expected_size
    then refuse m too_large
    else if not call.begins
    then refuse m begin_failed
    else (
      send_status
          (begin_receiving (record m { flash = m.flash ++ (begin m.expected_size ∷ []) })
            call.millis)
          0x00 no_error,
      true,
    )

unfoldable pub start_partition : Manager → StartCall → Option ℕ → Manager × Bool
unfolding start_in send_status
start_partition m call none = refuse m no_partition
start_partition m call (some size) = start_in m call size

unfoldable pub handle_start : OtaConfig → Manager → StartCall → List ℕ → Manager × Bool
unfolding take_over start_partition send_status check_battery_level validate_version
handle_start cfg m call payload =
    let asked = take_over m payload in
    if not (is_idle m.state)
    then refuse m invalid_state
    else if ltb (length payload) start_payload_size
    then refuse m invalid_state
    else if not (check_battery_level cfg)
    then refuse asked low_battery
    else if not (validate_version cfg asked.new_major asked.new_minor asked.new_patch)
    then refuse asked version_rejected
    else start_partition asked call call.partition

-- One chunk: its index and bytes, the number of bytes that `Update.write` takes, and `millis()`.
pub record Chunk : Type 0 where
  pub index : ℕ
  pub payload : List ℕ
  pub written : ℕ
  pub millis : ℕ

unfoldable pub handle_data : Manager → Chunk → Manager × Bool
unfolding send_chunk_ack
handle_data m c =
    if not (is_receiving m.state)
    then (send_chunk_ack m c.index false, false)
    else if not (c.index == m.received_chunks)
    then (
      send_chunk_ack (record m { last_error = chunk_out_of_order }) m.received_chunks false,
      false,
    )
    else if not (c.written == length c.payload)
    then (send_chunk_ack (record m { last_error = write_failed }) c.index false, false)
    else (
      send_chunk_ack
          (record m {
            flash = m.flash ++ (write c.payload ∷ []);
            running_crc = update_crc32 m.running_crc c.payload;
            received_size = u32 (m.received_size + length c.payload);
            received_chunks = u16 (m.received_chunks + 1);
            last_chunk_time = c.millis;
          })
          c.index true,
      true,
    )

-- `_state = FAILED` after a check of `handleCommit`; `aborts` tells whether `Update.abort` is called.
abbrev pub fail_commit : Manager → OtaError → List FlashCall → Manager × Bool
fail_commit m error calls = (
  send_status (record m { state = failed; last_error = error; flash = m.flash ++ calls }) 0x01
      error,
  false,
)

-- `ends` is the result of `Update.end(true)`. After the restart nothing more of the program runs.
unfoldable pub handle_commit : Manager → (ends : Bool) → Manager × Bool
unfolding send_status
handle_commit m ends =
    if not (is_receiving m.state)
    then refuse m invalid_state
    else if not (m.received_size == m.expected_size)
    then fail_commit m size_mismatch (abort ∷ [])
    else if not (complement_u32 m.running_crc == m.expected_crc)
    then fail_commit m crc_mismatch (abort ∷ [])
    else if not ends
    then fail_commit m commit_failed (finish ∷ [])
    else (
      let told = send_status (record m { state = committing }) 0x00 no_error in
          record told { state = rebooting; flash = told.flash ++ finish ∷ restart ∷ [] },
      true,
    )

unfoldable pub handle_abort : Manager → Manager
unfolding send_status
handle_abort m =
    if is_idle m.state
    then m
    else send_status
        (record m {
          flash = m.flash ++ (abort ∷ []);
          state = idle;
          received_size = 0;
          received_chunks = 0;
          last_error = no_error;
        })
        0x00 no_error

unfoldable pub check_timeout : OtaConfig → Manager → ℕ → Bool
check_timeout cfg m millis =
    if is_receiving m.state
    then ltb cfg.chunk_timeout_ms (sub_u32 millis m.last_chunk_time)
    else false

unfoldable pub update : OtaConfig → Manager → ℕ → Manager
unfolding check_timeout handle_abort
update cfg m millis =
    if m.initialized && is_receiving m.state && check_timeout cfg m millis
    then record (handle_abort m) { last_error = timeout }
    else m

-- The size of the next update partition as it is reported, little-endian.
abbrev size_bytes : Option ℕ → List ℕ
size_bytes none = replicate 4 0
size_bytes (some n) = (n % 256) ∷ (n / 256 % 256) ∷ (n / 65536 % 256) ∷ (n / 16777216 % 256) ∷ []

-- The `FirmwareInfo` of the running build; the battery is reported as 100 %. The source calls
-- `sendMessage` here without a check of the handler, so one must be set.
unfoldable pub handle_info_request : OtaConfig → Manager → Option ℕ → Manager
handle_info_request cfg m partition = record m {
  sent =
      m.sent
      ++ info_resp (
          (cfg.version_major
            ∷ cfg.version_minor
            ∷ cfg.version_patch
            ∷ cfg.build_type
            ∷ replicate 4 0)
          ++ size_bytes partition
          ++ 100 ∷ replicate 3 0)
        ∷ [];
}
