-- ===== src/Power/Tests.antt =====
-- The theorems on the power manager at a device about to sleep. The floats of the examples are numbers.
use esp32_sensor_firmware_pl.Prelude.{
  ℕ, ◌+◌, ◌*◌, ◌/◌, ◌≤◌, ◌<◌, ◌≡◌, refl, true, false, not, ◌&&◌, List, [], ◌∷◌, ltb, if◌then◌else◌,
  arith,
}
use esp32_sensor_firmware_pl.Power.State.{
  wake_mode, sleep_prep, detection_active, OcvSocEntry, PowerConfig, Floats, Manager, PowerCall,
  new,
}
use esp32_sensor_firmware_pl.Power.Battery.{
  distance, read_battery_voltage, voltage_to_percent, update_battery_status,
}
use esp32_sensor_firmware_pl.Platform.{power_on}
use esp32_sensor_firmware_pl.Power.Control.{undefined_cause}
use esp32_sensor_firmware_pl.Power.Ocv.{voltage_to_percent_mono}
use esp32_sensor_firmware_pl.Power.Gauge.{smoothed_int, update_battery_status_lem}
use esp32_sensor_firmware_pl.Power.Guards.{sleep_calls}
use esp32_sensor_firmware_pl.Power.Calm.{IsSane, run-IsSane}
use esp32_sensor_firmware_pl.Power.Paired.{is_paired}
use esp32_sensor_firmware_pl.Power.Events.{PowerEvent, start, tick, enter, activity, ask_sleep, run}

abbrev number_floats : Floats ℕ
number_floats = record {
  hundred = 100;
  nought = 0;
  initial_blend = λ x count raw. (x * (count + 1) + raw) / (count + 2);
  steady_blend = λ x raw. (x * 17 + raw * 3) / 20;
  rounded = λ x. x;
  running_mean = λ x count proximity. (x * count + proximity) / (count + 1);
  moving_average = λ x proximity. (x * 9 + proximity) / 10;
  threshold_of = λ x. x * 2;
}

abbrev entry : ℕ → ℕ → OcvSocEntry
entry mv pc = record { voltage_mv = mv; percent = pc }

abbrev power_cfg : PowerConfig
power_cfg = record {
  connected_idle_timeout_ms = 60000;
  disconnected_sleep_timeout_ms = 30000;
  sensor_wake_bonded_timeout_ms = 20000;
  sensor_wake_quick_sleep_timeout_ms = 10000;
  sleep_prep_time_ms = 5000;
  force_sleep_timeout_ms = 120000;
  max_sleep_cancel_count = 5;
  battery_check_interval_ms = 30000;
  failsafe_wake_interval_us = 7200000000;
  emergency_wake_interval_us = 30000000;
  sleep_rerequest_debounce_ms = 2000;
  external_power_threshold_mv = 1000;
  min_samples_for_stable = 5;
  hysteresis_percent = 2;
  adc_samples = 2;
  low_battery_percent = 20;
  critical_battery_percent = 5;
  ocv_soc_table = entry 4200 100 ∷ entry 3700 50 ∷ entry 3300 0 ∷ [];
  floor_threshold = 200;
}

abbrev power_call : PowerCall
power_call = record {
  millis = 100000;
  has_led = true;
  led_pattern_matches = λ pattern color. false;
  connected = false;
  advertising = false;
  pairing_mode = false;
  bond_count = 1;
  pending_count = 0;
  ota_in_progress = false;
  has_pending_data = true;
  is_flushing = false;
  has_before_sleep = true;
  config_dirty = true;
  has_sensor = true;
  sensor_configured = true;
  proximity_below_threshold = true;
  proximity_pin_low = false;
  adc_reading = λ i. 1900;
  charging_pin_low = false;
}

abbrev fresh : Manager ℕ
fresh = record (new number_floats) {
  has_ble = true;
  has_history = true;
  has_protocol = true;
  initialized = true;
  battery_percent = 80;
}

abbrev awake : Manager ℕ
awake = record fresh { current = wake_mode; last_activity_time = 50000 }

abbrev preparing : Manager ℕ
preparing = record fresh { current = sleep_prep; sleep_prep_start_time = 90000 }

abbrev some_events : List PowerEvent
some_events =
    start true true true power_on undefined_cause power_call
    ∷ enter wake_mode power_call
    ∷ enter detection_active power_call
    ∷ ask_sleep power_call
    ∷ activity power_call
    ∷ tick power_call
    ∷ ask_sleep (record power_call { millis = 200000 })
    ∷ tick (record power_call { millis = 210000 })
    ∷ []

run-IsSane_example :
    let m = run number_floats power_cfg (new number_floats) some_events in
    IsSane m × (is_paired false (sleep_calls m.effects) ≡ true)
run-IsSane_example = run-IsSane number_floats power_cfg some_events

voltage_to_percent_mono_example :
    let table = entry 4200 100 ∷ entry 3700 50 ∷ entry 3300 0 ∷ [] in
    (voltage_to_percent table 3500 ≤ voltage_to_percent table 3800)
    × (voltage_to_percent table 3800 ≤ 100)
voltage_to_percent_mono_example =
    voltage_to_percent_mono (entry 4200 100) (entry 3700 50 ∷ entry 3300 0 ∷ []) 3500 3800 refl
      (omega arith)

fresh-percentage : fresh.battery_percent ≤ 100
fresh-percentage = omega arith

update_battery_status_lem_example :
    let m' = update_battery_status number_floats power_cfg fresh power_call in
    let external = ltb (read_battery_voltage power_cfg power_call.adc_reading) 1000 in
    (m'.battery_percent ≤ 100)
    × (m'.is_charging ≡ (false && not external))
    × ((if external then m'.battery_percent else 100) ≡ 100)
    × ((if external
          then 0
          else distance (smoothed_int number_floats power_cfg m') m'.battery_percent)
        < 2)
    × ((if m'.is_charging then smoothed_int number_floats power_cfg m' else 0) ≤ m'.battery_percent)
update_battery_status_lem_example =
    update_battery_status_lem number_floats power_cfg fresh power_call fresh-percentage
      (omega arith)
