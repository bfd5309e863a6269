-- ===== src/Logger/Lifetime.antt =====
-- The start and the end of `DataLoggerService`, deleteAll, and the session files that it finds.
use esp32_sensor_firmware_pl.Logger.Session.{Logger, idle, is_open, stop_session}
use esp32_sensor_firmware_pl.Logger.Window.{LoggerConfig, unlabeled}
use esp32_sensor_firmware_pl.Prelude.{
  ℕ, zero, suc, ◌+◌, ◌*◌, ◌-◌, ◌/◌, ◌%◌, Bool, true, false, not, ◌&&◌, ◌||◌, List, [], ◌∷◌, ◌++◌,
  Option, none, some, ltb, leb, ◌==◌, u16, if◌then◌else◌, replicate,
}

-- A C string is the list of its characters' codes.
abbrev pub CString : Type 0
CString = List ℕ

-- `strncmp` with the length of the prefix, equal to 0.
abbrev pub starts_with : (prefix : CString) → CString → Bool
starts_with [] name = true
starts_with (p ∷ ps) [] = false
starts_with (p ∷ ps) (c ∷ cs) = c == p && starts_with ps cs

abbrev pub skip : (n : ℕ) → CString → CString
skip zero s = s
skip (suc n) [] = []
skip (suc n) (c ∷ cs) = skip n cs

abbrev pub is_digit : ℕ → Bool
is_digit c = leb 48 c && leb c 57

unfoldable pub read_digits : (sum : ℕ) → CString → ℕ
read_digits sum [] = sum
read_digits sum (c ∷ cs) =
    let rest = read_digits (sum * 10 + (c - 48)) cs in if is_digit c then rest else sum

-- `atoi` on what follows white space, with its sign, as a `uint16_t`.
abbrev pub signed : CString → ℕ
signed [] = 0
signed (c ∷ cs) =
    if c == 45
    then u16 (65536 - u16 (read_digits 0 cs))
    else if c == 43
    then u16 (read_digits 0 cs)
    else u16 (read_digits 0 (c ∷ cs))

abbrev pub atoi_u16 : CString → ℕ
atoi_u16 [] = 0
atoi_u16 (c ∷ cs) =
    let rest = atoi_u16 cs in if c == 32 || leb 9 c && leb c 13 then rest else signed (c ∷ cs)

-- "/ml_" and "/ml_s".
abbrev pub ml_prefix : CString
ml_prefix = 47 ∷ 109 ∷ 108 ∷ 95 ∷ []

abbrev pub session_prefix : CString
session_prefix = ml_prefix ++ (115 ∷ [])

-- `%04u` of a `uint16_t`.
abbrev pub four_digits : ℕ → CString
four_digits id =
    (48 + id / 1000 % 10) ∷ (48 + id / 100 % 10) ∷ (48 + id / 10 % 10) ∷ (48 + id % 10) ∷ []

unfoldable pub build_session_path : (session_id : ℕ) → CString
build_session_path id =
    session_prefix
    ++ (if ltb id 10000 then four_digits id else (48 + id / 10000) ∷ four_digits id)
    ++ (46 ∷ 98 ∷ 105 ∷ 110 ∷ [])

-- The largest session number of the names, with what was found so far.
unfoldable pub max_id : (so_far : ℕ) → (names : List CString) → ℕ
max_id so_far [] = so_far
max_id so_far (name ∷ names) =
    let id = atoi_u16 (skip 5 name) in
    max_id (if starts_with session_prefix name && ltb so_far id then id else so_far) names

-- `root` is what `name()` gives for each file of the directory, where it opens: whole paths in Arduino
-- cores before 2.0, base names in later ones.
unfoldable pub rebuild_next_session_id : (mounted : Bool) → (root : Option (List CString)) → ℕ
unfolding max_id
rebuild_next_session_id false root = 1
rebuild_next_session_id true none = 1
rebuild_next_session_id true (some names) = u16 (max_id 0 names + 1)

abbrev pub new : LoggerConfig → Logger
new cfg = record {
  state = idle;
  initialized = false;
  task_running = false;
  current_session_id = 0;
  current_window_id = 0;
  windows_written = 0;
  current_label = unlabeled;
  drop_count = 0;
  total_windows_written = 0;
  sample_buf = replicate cfg.window_size (record { proximity = 0; dt_ms = 0 });
  sample_index = 0;
  window_start_uptime = 0;
  has_inference_mutex = false;
  has_queue = false;
  has_inference_task = false;
  boot_count = 0;
  flags = 0;
  mounted = false;
  next_session_id = 1;
  inference_window = none;
  queue = [];
  notified = 0;
  manifest = [];
  files = [];
}

-- What `init` meets: whether the mutex, the queue and the task are created, whether SPIFFS mounts, and
-- what its root lists.
pub record InitCall : Type 0 where
  pub mutex_ok : Bool
  pub queue_ok : Bool
  pub mount_ok : Bool
  pub task_ok : Bool
  pub root : Option (List CString)

abbrev pub mount_spiffs : Logger → (mount_ok : Bool) → Logger
mount_spiffs l mount_ok = if l.mounted then l else record l { mounted = mount_ok }

abbrev pub find_sessions : Logger → Option (List CString) → Logger
find_sessions l root =
    if l.mounted then record l { next_session_id = rebuild_next_session_id true root } else l

unfoldable pub init : Logger → InitCall → Logger × Bool
init l call =
    if l.initialized
    then (l, true)
    else if not call.mutex_ok
    then (record l { has_inference_mutex = false }, false)
    else if not call.queue_ok
    then (record l { has_inference_mutex = true; has_queue = false }, false)
    else let l' =
        find_sessions
          (mount_spiffs (record l { has_inference_mutex = true; has_queue = true; queue = [] })
            call.mount_ok)
          call.root in
      if not call.task_ok
      then (record l' { task_running = false }, false)
      else (record l' { task_running = true; initialized = true }, true)

unfoldable pub shutdown : Logger → Logger
unfolding stop_session
shutdown l =
    let l' = if is_open l.state then (stop_session l).0 else l in
    if not l.initialized
    then l
    else record l' { task_running = false; mounted = false; initialized = false }

abbrev pub ml_names : List CString → List CString
ml_names [] = []
ml_names (name ∷ names) =
    if starts_with ml_prefix name then name ∷ ml_names names else ml_names names

-- `root` is what the directory lists, where it opens. The last component are the names whose removal it
-- asks for; what `files` and `manifest` have recorded stays.
abbrev pub delete_listed : Logger → (root : Option (List CString)) → Logger × Bool × List CString
delete_listed l none = (l, false, [])
delete_listed l (some names) = (
  record l { next_session_id = 1; total_windows_written = 0; drop_count = 0 },
  true,
  ml_names names,
)

unfoldable pub delete_all : Logger → (root : Option (List CString)) → Logger × Bool × List CString
unfolding stop_session
delete_all l root =
    let l' = if is_open l.state then (stop_session l).0 else l in
    if not l'.mounted then (l', false, []) else delete_listed l' root

abbrev pub set_boot_count : Logger → ℕ → Logger
set_boot_count l n = record l { boot_count = n }

abbrev pub set_runtime_flags : Logger → ℕ → Logger
set_runtime_flags l n = record l { flags = n }

abbrev pub set_inference_task_handle : Logger → (is_set : Bool) → Logger
set_inference_task_handle l is_set = record l { has_inference_task = is_set }
