-- ===== src/Power/State.antt =====
-- The state of `PowerManager`, its constants, and what its methods meet and do.
use esp32_sensor_firmware_pl.Prelude.{ℕ, ◌++◌, Bool, false, List, [], ◌∷◌}

pub data PowerState : Type 0 where
  booting wake_mode active detection_active sleep_prep deep_sleep : PowerState

pub data WakeReason : Type 0 where
  by_power_on by_button by_sensor by_timer by_brownout by_software unknown : WakeReason

-- `OcvSocEntry`.
pub record OcvSocEntry : Type 0 where
  pub voltage_mv : ℕ
  pub percent : ℕ

-- The constants of `Timing`, `BatteryConfig` and `ProximityConfig`, which are not in the repository.
pub record PowerConfig : Type 0 where
  pub connected_idle_timeout_ms : ℕ
  pub disconnected_sleep_timeout_ms : ℕ
  pub sensor_wake_bonded_timeout_ms : ℕ
  pub sensor_wake_quick_sleep_timeout_ms : ℕ
  pub sleep_prep_time_ms : ℕ
  pub force_sleep_timeout_ms : ℕ
  pub max_sleep_cancel_count : ℕ
  pub battery_check_interval_ms : ℕ
  pub failsafe_wake_interval_us : ℕ
  pub emergency_wake_interval_us : ℕ
  pub sleep_rerequest_debounce_ms : ℕ
  pub external_power_threshold_mv : ℕ
  pub min_samples_for_stable : ℕ
  pub hysteresis_percent : ℕ
  pub adc_samples : ℕ
  pub low_battery_percent : ℕ
  pub critical_battery_percent : ℕ
  pub ocv_soc_table : List OcvSocEntry
  pub floor_threshold : ℕ

-- The single-precision arithmetic of the source, on its type of floats: the two blends of the battery
-- percentage, `(uint8_t)(x + 0.5f)`, the two averages of the proximity, and its scaled threshold.
pub record Floats (F : Type 0) : Type 0 where
  pub hundred : F
  pub nought : F
  pub initial_blend : F → (count raw : ℕ) → F
  pub steady_blend : F → (raw : ℕ) → F
  pub rounded : F → ℕ
  pub running_mean : F → (count proximity : ℕ) → F
  pub moving_average : F → (proximity : ℕ) → F
  pub threshold_of : F → ℕ

pub data LedColor : Type 0 where
  color_pairing color_active color_hit color_sleep_prep color_error color_off : LedColor

pub data BlinkPattern : Type 0 where
  solid slow_blink fast_blink : BlinkPattern

-- The calls that change something outside the manager.
pub data Effect : Type 0 where
  set_color : LedColor → Effect
  set_pattern : LedColor → BlinkPattern → Effect
  led_update led_sleep : Effect
  increment_ghost_bond before_sleep send_sleep_notification : Effect
  flush_config stop_storage_worker force_nvs_sync : Effect
  disconnect stop_advertising : Effect
  configure_sensor configure_wake_sources : Effect
  enable_timer : ℕ → Effect
  disable_timer start_deep_sleep : Effect

-- A pointer is modelled by whether it is set. `effects` records, oldest first, the calls made.
pub record Manager (F : Type 0) : Type 0 where
  pub has_ble : Bool
  pub has_history : Bool
  pub has_protocol : Bool
  pub has_ota : Bool
  pub current : PowerState
  pub previous : PowerState
  pub wake_reason : WakeReason
  pub state_entry_time : ℕ
  pub sleep_prep_start_time : ℕ
  pub last_battery_check_time : ℕ
  pub battery_percent : ℕ
  pub is_charging : Bool
  pub last_adc_reading : ℕ
  pub smoothed_percent : F
  pub battery_sample_count : ℕ
  pub last_battery_log_time : ℕ
  pub initialized : Bool
  pub sleep_deferred : Bool
  pub brownout_detected : Bool
  pub consecutive_detections : ℕ
  pub last_hit_time : ℕ
  pub party_mode_active : Bool
  pub sleep_cancel_count : ℕ
  pub woke_from_sensor : Bool
  pub rolling_prox_average : F
  pub rolling_prox_sample_count : ℕ
  pub last_sleep_cancellation_time : ℕ
  pub last_activity_time : ℕ
  pub effects : List Effect

-- The answers that one call of a method gets. `millis()` is read once: a call is taken to be shorter
-- than a millisecond.
pub record PowerCall : Type 0 where
  pub millis : ℕ
  pub has_led : Bool
  pub led_pattern_matches : BlinkPattern → LedColor → Bool
  pub connected : Bool
  pub advertising : Bool
  pub pairing_mode : Bool
  pub bond_count : ℕ
  pub pending_count : ℕ
  pub ota_in_progress : Bool
  pub has_pending_data : Bool
  pub is_flushing : Bool
  pub has_before_sleep : Bool
  pub config_dirty : Bool
  pub has_sensor : Bool
  pub sensor_configured : Bool
  pub proximity_below_threshold : Bool
  pub proximity_pin_low : Bool
  pub adc_reading : ℕ → ℕ
  pub charging_pin_low : Bool

module _ {F : Type 0} where
  abbrev pub emit : Manager F → Effect → Manager F
  emit m e = record m { effects = m.effects ++ (e ∷ []) }

  unfoldable pub new : Floats F → Manager F
  new ops = record {
    has_ble = false;
    has_history = false;
    has_protocol = false;
    has_ota = false;
    current = booting;
    previous = booting;
    wake_reason = unknown;
    state_entry_time = 0;
    sleep_prep_start_time = 0;
    last_battery_check_time = 0;
    battery_percent = 100;
    is_charging = false;
    last_adc_reading = 0;
    smoothed_percent = ops.hundred;
    battery_sample_count = 0;
    last_battery_log_time = 0;
    initialized = false;
    sleep_deferred = false;
    brownout_detected = false;
    consecutive_detections = 0;
    last_hit_time = 0;
    party_mode_active = false;
    sleep_cancel_count = 0;
    woke_from_sensor = false;
    rolling_prox_average = ops.nought;
    rolling_prox_sample_count = 0;
    last_sleep_cancellation_time = 0;
    last_activity_time = 0;
    effects = [];
  }
