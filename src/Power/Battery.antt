-- ===== src/Power/Battery.antt =====
-- The battery gauge: `readBatteryVoltage`, `voltageToPercent`, `updateBatteryStatus` and the tests on
-- its result.
use esp32_sensor_firmware_pl.Prelude.{
  ℕ, zero, suc, ◌+◌, ◌*◌, ◌/◌, ◌-◌, Bool, true, false, not, ◌&&◌, List, [], ◌∷◌, leb, ltb, ◌==◌,
  u32, sub_u32, if◌then◌else◌,
}
use esp32_sensor_firmware_pl.Power.State.{OcvSocEntry, PowerConfig, Floats, Manager, PowerCall}

-- The sum of the samples from index `i` on.
unfoldable pub sum_samples : (ℕ → ℕ) → ℕ → ℕ → ℕ → ℕ
sum_samples adc zero i sum = sum
sum_samples adc (suc n) i sum = sum_samples adc n (i + 1) (u32 (sum + adc i))

unfoldable pub read_battery_voltage : PowerConfig → (ℕ → ℕ) → ℕ
unfolding sum_samples
read_battery_voltage cfg adc = u32 (sum_samples adc cfg.adc_samples 0 0 / cfg.adc_samples * 2)

-- The interpolation between two entries of the table.
unfoldable pub interpolate : OcvSocEntry → OcvSocEntry → ℕ → ℕ
interpolate higher lower v =
    let voltage_range = sub_u32 higher.voltage_mv lower.voltage_mv in
    let percent_range = sub_u32 higher.percent lower.percent in
    let voltage_offset = sub_u32 v lower.voltage_mv in
    let percent = u32 (lower.percent + u32 (percent_range * voltage_offset) / voltage_range) in
    if voltage_range == 0 then lower.percent else if ltb 100 percent then 100 else percent

-- The loop over the table, with the entry before the ones left.
unfoldable pub find_segment : ℕ → OcvSocEntry → List OcvSocEntry → ℕ
unfolding interpolate
find_segment v higher [] = 0
find_segment v higher (lower ∷ rest) =
    let further = find_segment v lower rest in
    if ltb lower.voltage_mv v
    then (if leb higher.voltage_mv v then higher.percent else interpolate higher lower v)
    else further

abbrev last_entry : OcvSocEntry → List OcvSocEntry → OcvSocEntry
last_entry e [] = e
last_entry e (next ∷ rest) = last_entry next rest

-- A table without an entry is read out of bounds in the source; here it is 0.
unfoldable pub voltage_to_percent : List OcvSocEntry → ℕ → ℕ
unfolding find_segment
voltage_to_percent [] v = 0
voltage_to_percent (first ∷ rest) v =
    if leb first.voltage_mv v
    then 100
    else if leb v (last_entry first rest).voltage_mv
    then 0
    else find_segment v first rest

-- `|a - b|` on int8_t, for values up to 100.
abbrev pub distance : ℕ → ℕ → ℕ
distance a b = (a - b) + (b - a)

module _ {F : Type 0} (ops : Floats F) (cfg : PowerConfig) where
  -- The battery branch, without external power.
  unfoldable pub track_battery : Manager F → PowerCall → (voltage_mv : ℕ) → Manager F
  unfolding voltage_to_percent
  track_battery m call voltage_mv =
      let raw = voltage_to_percent cfg.ocv_soc_table voltage_mv in
      let count =
        if ltb m.battery_sample_count 255
        then m.battery_sample_count + 1
        else m.battery_sample_count in
      let smoothed =
        if leb count cfg.min_samples_for_stable
        then ops.initial_blend m.smoothed_percent count raw
        else ops.steady_blend m.smoothed_percent raw in
      let smoothed_int = if ltb 100 (ops.rounded smoothed) then 100 else ops.rounded smoothed in
      let shown =
        if leb cfg.hysteresis_percent (distance smoothed_int m.battery_percent)
        then smoothed_int
        else m.battery_percent in
      record m {
        battery_sample_count = count;
        smoothed_percent = smoothed;
        is_charging = call.charging_pin_low;
        battery_percent =
            if call.charging_pin_low && ltb shown smoothed_int then smoothed_int else shown;
        last_battery_log_time =
            if ltb 60000 (sub_u32 call.millis m.last_battery_log_time)
            then call.millis
            else m.last_battery_log_time;
      }

  unfoldable pub update_battery_status : Manager F → PowerCall → Manager F
  unfolding read_battery_voltage track_battery
  update_battery_status m call =
      let voltage_mv = read_battery_voltage cfg call.adc_reading in
      let read = record m {
        last_adc_reading = if ltb 65535 voltage_mv then 65535 else voltage_mv;
      } in
      let gauged =
        if ltb voltage_mv cfg.external_power_threshold_mv
        then record read {
          battery_percent = 100;
          smoothed_percent = ops.hundred;
          is_charging = false;
        }
        else track_battery read call voltage_mv in
      record gauged { last_battery_check_time = call.millis }

module _ {F : Type 0} (cfg : PowerConfig) where
  unfoldable pub is_battery_low : Manager F → Bool
  is_battery_low m = leb m.battery_percent cfg.low_battery_percent && not m.is_charging

  unfoldable pub is_battery_critical : Manager F → Bool
  is_battery_critical m =
      if m.battery_percent == 0
      then false
      else leb m.battery_percent cfg.critical_battery_percent && not m.is_charging

  unfoldable pub check_brownout : Manager F → Bool
  unfolding is_battery_critical
  check_brownout m = if m.brownout_detected then true else is_battery_critical m
