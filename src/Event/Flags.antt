-- ===== src/Event/Flags.antt =====
-- The flag methods of an event against each other.
use esp32_sensor_firmware_pl.Prelude.{◌≡◌, true, false, arith}
use esp32_sensor_firmware_pl.Event.{
  DetectionEvent, is_synced, set_synced, clear_synced, was_overflow, set_overflow,
  is_time_estimated,
}

pub synced-set_synced : (e : DetectionEvent) → is_synced (set_synced e) ≡ true
unfolding is_synced set_synced
synced-set_synced e = ground arith

pub set_synced_keeps :
    (e : DetectionEvent)
    → (was_overflow (set_synced e) ≡ was_overflow e)
      × (is_time_estimated (set_synced e) ≡ is_time_estimated e)
unfolding was_overflow is_time_estimated set_synced
set_synced_keeps e = ground arith

pub clear_synced-set_synced :
    (e : DetectionEvent) → is_synced e ≡ false → clear_synced (set_synced e) ≡ e
unfolding is_synced set_synced clear_synced
clear_synced-set_synced e h = ground arith

pub overflow-set_overflow :
    (e : DetectionEvent)
    → (was_overflow (set_overflow e) ≡ true)
      × (is_synced (set_overflow e) ≡ is_synced e)
      × (is_time_estimated (set_overflow e) ≡ is_time_estimated e)
unfolding was_overflow is_synced is_time_estimated set_overflow
overflow-set_overflow e = ground arith
