-- ===== src/Recovery.antt =====
-- Recovery at boot: `BootRecoveryTracker` (src/Services/BootRecoveryTracker.cpp) keeps a count of boots in
-- NVS; src/main.cpp decides on the flasher mode from it, and counts crashes.
pub mod Boots
pub mod Crashes
mod Cycles
mod Tests
use esp32_sensor_firmware_pl.Prelude.{
  ℕ, ◌+◌, ◌++◌, Bool, true, false, not, List, [], ◌∷◌, ◌==◌, u32, if◌then◌else◌,
}
use esp32_sensor_firmware_pl.Platform.{ResetReason, power_on, software}

-- The calls that write: `nvs_set_u32` of the counter, and `nvs_commit`.
pub data NvsCall : Type 0 where
  set_counter : ℕ → NvsCall
  commit : NvsCall

-- `calls` records, oldest first, the writing calls made.
pub record Tracker : Type 0 where
  pub initialized : Bool
  pub available : Bool
  pub counter : ℕ
  pub calls : List NvsCall

unfoldable pub new : Tracker
new = record { initialized = false; available = false; counter = 0; calls = [] }

-- What `nvs_flash_init` and `nvs_get_u32` return, as far as the tracker tells it apart.
pub data FlashInit : Type 0 where
  flash_ok no_free_pages new_version_found flash_failed : FlashInit

pub data ReadResult : Type 0 where
  found : ℕ → ReadResult
  not_found read_failed : ReadResult

abbrev pub loaded : Tracker → ReadResult → Tracker × Bool
loaded t (found n) = (record t { counter = n; available = true }, true)
loaded t not_found = (record t { counter = 0; available = true }, true)
loaded t read_failed = (t, false)

abbrev pub opened : Tracker → FlashInit → Bool → ReadResult → Tracker × Bool
opened t flash_ok opens answer = if opens then loaded t answer else (t, false)
opened t _ opens answer = (t, false)

unfoldable pub init : Tracker → FlashInit → (opens : Bool) → ReadResult → Tracker × Bool
init t flash opens answer =
    if t.initialized
    then (t, t.available)
    else opened (record t { initialized = true }) flash opens answer

abbrev pub should_increment : ResetReason → Bool
should_increment power_on = true
should_increment software = true
should_increment _ = false

-- `set_ok`: whether `nvs_set_u32` succeeds. Without it there is no commit.
unfoldable pub persist_counter : Tracker → (set_ok : Bool) → Tracker
persist_counter t set_ok = if not t.available then t else record t {
  calls = t.calls ++ set_counter t.counter ∷ (if set_ok then commit ∷ [] else []);
}

-- The tracker, and the counter that is returned.
unfoldable pub increment_if_eligible : Tracker → ResetReason → (set_ok : Bool) → Tracker × ℕ
unfolding persist_counter
increment_if_eligible t reason set_ok =
    if not t.available
    then (t, t.counter)
    else if not (should_increment reason)
    then (t, t.counter)
    else (let t' = persist_counter (record t { counter = u32 (t.counter + 1) }) set_ok in
        (t', t'.counter))

unfoldable pub reset_counter : Tracker → (set_ok : Bool) → Tracker
unfolding persist_counter
reset_counter t set_ok =
    if not t.available
    then record t { counter = 0 }
    else if t.counter == 0
    then t
    else persist_counter (record t { counter = 0 }) set_ok
