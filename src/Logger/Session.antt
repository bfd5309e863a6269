-- ===== src/Logger/Session.antt =====
-- The members of `DataLoggerService` and its methods.
use esp32_sensor_firmware_pl.Logger.Window.{
  WindowHeader, unlabeled, invalid, SampleRecord, label_code, calculate_crc, SampleWindow,
  GestureLabel, LoggerConfig,
}
use esp32_sensor_firmware_pl.Prelude.{
  ℕ, ◌+◌, ◌-◌, ◌*◌, ◌/◌, ◌++◌, Bool, true, false, not, ◌&&◌, List, [], ◌∷◌, Option, none, some, ltb,
  leb, ◌==◌, set, take, drop, u8, u16, u32, sub_u32, if◌then◌else◌,
}

pub data LoggerState : Type 0 where
  idle armed recording error : LoggerState

-- `queue` holds the windows that wait for the logger task, oldest first; `manifest` and `files` record
-- what is appended to the manifest and to the session files, `notified` counts the notifications of the
-- inference task.
pub record Logger : Type 0 where
  pub state : LoggerState
  pub initialized : Bool
  pub task_running : Bool
  pub current_session_id : ℕ
  pub current_window_id : ℕ
  pub windows_written : ℕ
  pub current_label : GestureLabel
  pub drop_count : ℕ
  pub total_windows_written : ℕ
  pub sample_buf : List SampleRecord
  pub sample_index : ℕ
  pub window_start_uptime : ℕ
  pub has_inference_mutex : Bool
  pub has_queue : Bool
  pub has_inference_task : Bool
  pub boot_count : ℕ
  pub flags : ℕ
  pub mounted : Bool
  pub next_session_id : ℕ
  pub inference_window : Option SampleWindow
  pub queue : List SampleWindow
  pub notified : ℕ
  pub manifest : List (ℕ × GestureLabel)
  pub files : List (ℕ × SampleWindow)

-- What `appendSample` meets: the uptime, the clock, the thresholds of the sensor driver and the
-- sensitivity of the settings where they are there, the mutex of the inference window, and the queue.
pub record SampleCall : Type 0 where
  pub uptime : ℕ
  pub time : ℕ
  pub thresholds : Option (ℕ × ℕ × ℕ)
  pub sensitivity : Option ℕ
  pub mutex_taken : Bool
  pub queue_accepts : Bool

abbrev pub is_recording : LoggerState → Bool
is_recording recording = true
is_recording _ = false

-- RECORDING or ARMED.
abbrev pub is_open : LoggerState → Bool
is_open recording = true
is_open armed = true
is_open _ = false

-- The epoch at the window's first sample, 0 where it is not known.
abbrev pub start_epoch : Logger → SampleCall → ℕ
start_epoch l call =
    if ltb 1577836800 call.time && leb l.window_start_uptime call.uptime
    then sub_u32 (u32 call.time) ((call.uptime - l.window_start_uptime) / 1000)
    else 0

abbrev pub thresholds_of : Option (ℕ × ℕ × ℕ) → ℕ × ℕ × ℕ
thresholds_of none = (0, 0, 0)
thresholds_of (some t) = t

abbrev pub sensitivity_of : Option ℕ → ℕ
sensitivity_of none = 50
sensitivity_of (some s) = s

-- `fillWindowHeader` with the label and the checksum that its callers set after it.
unfoldable pub make_window :
    LoggerConfig → Logger → SampleCall → (label : GestureLabel) → List SampleRecord → SampleWindow
unfolding calculate_crc label_code
make_window cfg l call label samples =
    let (wake, detection, critical) = thresholds_of call.thresholds in
    let header : WindowHeader = record {
      magic = cfg.window_magic;
      version = cfg.window_version;
      sample_count = cfg.window_size;
      session_id = l.current_session_id;
      window_id = l.current_window_id;
      label = label_code label;
      start_uptime_ms = l.window_start_uptime;
      start_epoch = start_epoch l call;
      wake_threshold = wake;
      detection_threshold = detection;
      critical_detection_threshold = critical;
      sensitivity = sensitivity_of call.sensitivity;
      flags = l.flags;
      boot_count = l.boot_count;
      crc32 = 0;
    } in
    let window : SampleWindow = record { header = header; samples = samples } in
    record window { header = record header { crc32 = calculate_crc window } }

-- A full buffer is copied to the inference window.
abbrev pub publish : LoggerConfig → Logger → SampleCall → Logger
publish cfg l call =
    if l.has_inference_mutex && call.mutex_taken
    then record l {
      inference_window = some (make_window cfg l call unlabeled l.sample_buf);
      notified = if l.has_inference_task then l.notified + 1 else l.notified;
    }
    else l

-- In a session it goes to the queue too.
abbrev pub offer : LoggerConfig → Logger → SampleCall → Logger
offer cfg l call =
    if not (is_recording l.state)
    then l
    else if call.queue_accepts
    then record l {
      queue = l.queue ++ (make_window cfg l call l.current_label l.sample_buf ∷ []);
      current_window_id = u16 (l.current_window_id + 1);
    }
    else record l { drop_count = u32 (l.drop_count + 1) }

-- `memmove` of the samples behind the stride to the start of the buffer.
abbrev pub slide : LoggerConfig → Logger → Logger
slide cfg l =
    let keep = u8 (cfg.window_size - cfg.window_stride) in
    if ltb cfg.window_stride cfg.window_size
    then record l {
      sample_buf = take keep (drop cfg.window_stride l.sample_buf) ++ drop keep l.sample_buf;
      sample_index = keep;
      window_start_uptime =
          u32 (l.window_start_uptime + cfg.window_stride * cfg.sampling_period_ms);
    }
    else record l { sample_index = 0 }

abbrev pub store_sample : Logger → SampleCall → SampleRecord → Logger
store_sample l call sample = record l {
  window_start_uptime = if l.sample_index == 0 then call.uptime else l.window_start_uptime;
  sample_buf = set l.sample_buf l.sample_index sample;
  sample_index = u8 (l.sample_index + 1);
}

unfoldable pub append_sample : LoggerConfig → Logger → SampleCall → SampleRecord → Logger
unfolding make_window
append_sample cfg l call sample =
    let stored = store_sample l call sample in
    if leb cfg.window_size stored.sample_index
    then slide cfg (offer cfg (publish cfg stored call) call)
    else stored

abbrev pub is_invalid : GestureLabel → Bool
is_invalid invalid = true
is_invalid _ = false

-- `opens`: whether the manifest opens.
unfoldable pub start_session : Logger → (opens : Bool) → GestureLabel → Logger × Bool
unfolding label_code
start_session l opens label =
    let same = is_recording l.state && label_code l.current_label == label_code label in
    let id = l.next_session_id in
    if is_open l.state
    then (l, same)
    else if not l.mounted
    then (record l { state = error }, false)
    else if is_invalid label
    then (l, false)
    else (
      record l {
        current_session_id = id;
        next_session_id = u16 (id + 1);
        current_window_id = 0;
        windows_written = 0;
        current_label = label;
        sample_index = 0;
        manifest = if opens then l.manifest ++ ((id, label) ∷ []) else l.manifest;
        state = recording;
      },
      true,
    )

unfoldable pub stop_session : Logger → Logger × Bool
stop_session l = if not (is_open l.state) then (l, true) else (record l { state = idle }, true)

-- What `processWrite` meets: whether the session's file opens, and whether the whole window is
-- written. What a write in part leaves in the file is not recorded.
unfoldable pub process_write : Logger → (opens whole : Bool) → SampleWindow → Logger
process_write l opens whole window =
    if not l.mounted
    then record l { state = error }
    else if not opens
    then record l { state = error }
    else if not whole
    then record l { state = error }
    else record l {
      files = l.files ++ ((window.header.session_id, window) ∷ []);
      windows_written = u16 (l.windows_written + 1);
      total_windows_written = u32 (l.total_windows_written + 1);
    }

-- A round of the logger task: the oldest window is taken and written.
abbrev pub written_first : Logger → (opens whole : Bool) → List SampleWindow → Logger
written_first l opens whole [] = l
written_first l opens whole (w ∷ ws) = process_write (record l { queue = ws }) opens whole w

unfoldable pub logger_round : Logger → (opens whole : Bool) → Logger
unfolding process_write
logger_round l opens whole = written_first l opens whole l.queue
