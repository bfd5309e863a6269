-- ===== src/Logger/Tests.antt =====
-- The theorem on sessions at windows of three samples that move by two.
use esp32_sensor_firmware_pl.Logger.BaseNames.{init_base_names, AreBaseNames}
use esp32_sensor_firmware_pl.Logger.Lifetime.{
  skip, delete_all, CString, read_digits, max_id, build_session_path, new, ml_prefix, init,
  InitCall, rebuild_next_session_id,
}
use esp32_sensor_firmware_pl.Logger.Recorded.{start_session-windows, contents_of, samples_of}
use esp32_sensor_firmware_pl.Logger.Sliding.{AreOf, append_samples}
use esp32_sensor_firmware_pl.Logger.Windows.{windows_of}
use esp32_sensor_firmware_pl.Prelude.{
  ℕ, ◌≡◌, ◌++◌, refl, true, false, none, some, List, [], ◌∷◌, arith, replicate,
}
use esp32_sensor_firmware_pl.Logger.Window.{
  LoggerConfig, SampleRecord, hover, unlabeled, SampleWindow,
}
use esp32_sensor_firmware_pl.Logger.Session.{SampleCall, Logger, idle, start_session}

abbrev cfg : LoggerConfig
cfg = record {
  window_size = 3;
  window_stride = 2;
  window_magic = 100;
  window_version = 1;
  sampling_period_ms = 20;
}

abbrev sample : ℕ → SampleRecord
sample n = record { proximity = n; dt_ms = 20 }

abbrev call : SampleCall
call = record {
  uptime = 500;
  time = 0;
  thresholds = some (100, 200, 300);
  sensitivity = none;
  mutex_taken = true;
  queue_accepts = true;
}

abbrev logger : Logger
logger = record {
  state = idle;
  initialized = true;
  task_running = true;
  current_session_id = 0;
  current_window_id = 0;
  windows_written = 0;
  current_label = unlabeled;
  drop_count = 0;
  total_windows_written = 0;
  sample_buf = replicate 3 (sample 0);
  sample_index = 1;
  window_start_uptime = 0;
  has_inference_mutex = true;
  has_queue = true;
  has_inference_task = false;
  boot_count = 1;
  flags = 0;
  mounted = true;
  next_session_id = 7;
  inference_window = none;
  queue = [];
  notified = 0;
  manifest = [];
  files = [];
}

abbrev calls : List (SampleCall × SampleRecord)
calls =
    (call, sample 1)
    ∷ (call, sample 2)
    ∷ (call, sample 3)
    ∷ (call, sample 4)
    ∷ (call, sample 5)
    ∷ []

-- The windows are 1, 2, 3 and 3, 4, 5.
sliding :
    windows_of cfg 5 (samples_of calls)
    ≡ (sample 1 ∷ sample 2 ∷ sample 3 ∷ []) ∷ (sample 3 ∷ sample 4 ∷ sample 5 ∷ []) ∷ []
unfolding windows_of
sliding = refl

starts : (start_session logger true hover).1 ≡ true
unfolding start_session
starts = refl

start_session-windows_example :
    (sent : List SampleWindow) × ((append_samples cfg
        (start_session logger true hover).0
        calls).queue
      ≡ [] ++ sent)
    × (contents_of sent ≡ windows_of cfg 5 (samples_of calls))
    × AreOf cfg 7 hover sent
start_session-windows_example =
    start_session-windows cfg logger true hover calls (omega arith) (omega arith) (omega arith) refl
      refl starts (refl, (refl, (refl, (refl, (refl, tt)))))

abbrev starting : InitCall
starting = record {
  mutex_ok = true;
  queue_ok = true;
  mount_ok = true;
  task_ok = true;
  root = some (ml_prefix ∷ build_session_path 12 ∷ build_session_path 3 ∷ []);
}

-- The base names of "/ml_s0012.bin" and "/ml_s0003.bin".
abbrev base_names : List CString
base_names = skip 1 (build_session_path 12) ∷ skip 1 (build_session_path 3) ∷ []

abbrev listing : InitCall
listing = record starting { root = some base_names }

base_names-AreBaseNames : AreBaseNames base_names
unfolding build_session_path
base_names-AreBaseNames = (refl, (refl, tt))

listed : (init (new cfg) listing).1 ≡ true
unfolding init
listed = refl

numbered : (start_session (init (new cfg) listing).0 true hover).1 ≡ true
unfolding start_session init rebuild_next_session_id
numbered = refl

init_base_names_example :
    let l' = (init (new cfg) listing).0 in
    ((start_session l' true hover).0.current_session_id ≡ 1)
    × ((delete_all l' (some base_names)).1 ≡ true)
    × ((delete_all l' (some base_names)).2 ≡ [])
init_base_names_example =
    init_base_names (new cfg) listing base_names base_names true hover base_names-AreBaseNames
      base_names-AreBaseNames refl refl refl listed refl numbered

-- It is 13.
next_number : rebuild_next_session_id true starting.root ≡ 13
unfolding rebuild_next_session_id build_session_path max_id read_digits
next_number = refl
