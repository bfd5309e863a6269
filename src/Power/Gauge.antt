-- ===== src/Power/Gauge.antt =====
-- The percentage shown: what `updateBatteryStatus` makes of the voltage.
use esp32_sensor_firmware_pl.Prelude.{
  ℕ, ◌≤◌, ◌<◌, ◌≡◌, refl, sym, subst, ◌∙◌, inl, inr, Bool-cases, not, ◌&&◌, ltb, if◌then◌else◌,
  arith,
}
use esp32_sensor_firmware_pl.Power.State.{PowerConfig, Floats, Manager, PowerCall}
use esp32_sensor_firmware_pl.Power.Battery.{
  distance, read_battery_voltage, track_battery, update_battery_status,
}

module _ {F : Type 0} (ops : Floats F) (cfg : PowerConfig) where
  abbrev pub smoothed_int : Manager F → ℕ
  smoothed_int m =
      if ltb 100 (ops.rounded m.smoothed_percent) then 100 else ops.rounded m.smoothed_percent

  track_battery-shown :
      (m : Manager F) (call : PowerCall) (v : ℕ)
      → m.battery_percent ≤ 100
      → 0 < cfg.hysteresis_percent
      → let m' = track_battery ops cfg m call v in
        (m'.battery_percent ≤ 100)
        × (distance (smoothed_int m') m'.battery_percent < cfg.hysteresis_percent)
        × (m'.is_charging ≡ call.charging_pin_low)
        × ((if call.charging_pin_low then smoothed_int m' else 0) ≤ m'.battery_percent)
  unfolding track_battery
  track_battery-shown m call v top h = ground arith

  -- The percentage shown never leaves 0 to 100. On external power it is 100 and not charging. On the
  -- battery it lies less than the hysteresis away from the smoothed percentage, and while charging not
  -- below it.
  pub update_battery_status_lem :
      (m : Manager F) (call : PowerCall)
      → m.battery_percent ≤ 100
      → 0 < cfg.hysteresis_percent
      → let m' = update_battery_status ops cfg m call in
        let external =
          ltb (read_battery_voltage cfg call.adc_reading) cfg.external_power_threshold_mv in
        (m'.battery_percent ≤ 100)
        × (m'.is_charging ≡ (call.charging_pin_low && not external))
        × ((if external then m'.battery_percent else 100) ≡ 100)
        × ((if external then 0 else distance (smoothed_int m') m'.battery_percent)
            < cfg.hysteresis_percent)
        × ((if m'.is_charging then smoothed_int m' else 0) ≤ m'.battery_percent)
  unfolding update_battery_status
  update_battery_status_lem m call top h =
      let v = read_battery_voltage cfg call.adc_reading in
      let read = record m { last_adc_reading = if ltb 65535 v then 65535 else v } in
      elim (Bool-cases (ltb v cfg.external_power_threshold_mv)) [
        | inl external ↦ rw external (omega arith, ground arith, refl, h, omega arith)
        | inr battery ↦
            let shown = track_battery-shown read call v top h in
            rw battery (
              shown.0,
              shown.2 ∙ ground arith,
              refl,
              shown.1,
              subst
                  (λ b.
                    (if b then smoothed_int (track_battery ops cfg read call v) else 0)
                    ≤ (track_battery ops cfg read call v).battery_percent)
                  (sym shown.2) shown.3,
            )
      ]
