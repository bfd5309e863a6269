-- ===== src/Logger/Fresh.antt =====
-- The session number after a start, against the session files that are there.
use esp32_sensor_firmware_pl.Logger.Session.{Logger}
use esp32_sensor_firmware_pl.Logger.Lifetime.{
  find_sessions, mount_spiffs, InitCall, signed, init, rebuild_next_session_id, skip,
  session_prefix, atoi_u16, is_digit, starts_with, four_digits, max_id, read_digits, CString,
  build_session_path,
}
use esp32_sensor_firmware_pl.Prelude.{
  subst, if_keeps, ◌⊎◌, ltb→lt, ◌||◌, ◌&&◌, ℕ, ◌+◌, ◌*◌, ◌/◌, ◌%◌, ◌<◌, ◌≤◌, ◌≡◌, refl, sym, ap,
  ◌∙◌, true, false, List, [], ◌∷◌, ◌++◌, some, ltb, leb, ◌==◌, u16, if◌then◌else◌, if_true,
  if_false, Bool-cases, inl, inr, arith,
}

read_digit :
    (sum d : ℕ) (cs : CString)
    → d < 10
    → read_digits sum ((48 + d) ∷ cs) ≡ read_digits (sum * 10 + d) cs
unfolding read_digits
read_digit sum d cs h =
    if_true (is_digit (48 + d)) _ sum (ground arith)
    ∙ ap (λ n. read_digits (sum * 10 + n) cs) (omega arith)

four_read :
    (sum id : ℕ) (cs : CString)
    → read_digits sum (four_digits id ++ cs)
      ≡ read_digits
          ((((sum * 10 + id / 1000 % 10) * 10 + id / 100 % 10) * 10 + id / 10 % 10) * 10 + id % 10)
          cs
four_read sum id cs =
    read_digit sum (id / 1000 % 10) _ (omega arith)
    ∙ read_digit _ (id / 100 % 10) _ (omega arith)
    ∙ read_digit _ (id / 10 % 10) _ (omega arith)
    ∙ read_digit _ (id % 10) _ (omega arith)

max_id_grows : (m : ℕ) (names : List CString) → m ≤ max_id m names
unfolding max_id
max_id_grows m [] = omega arith
max_id_grows m (n ∷ names) =
    let id = atoi_u16 (skip 5 n) in
    let m' = if starts_with session_prefix n && ltb m id then id else m in
    let rest = max_id_grows m' names in
    let more : m ≤ m' = ground arith in omega (arith, rest, more)

max_id_later :
    (before : List CString) (m : ℕ) (name : CString) (after : List CString)
    → starts_with session_prefix name ≡ true
    → atoi_u16 (skip 5 name) ≤ max_id m (before ++ (name ∷ after))
unfolding max_id
max_id_later [] m name after h =
    let id = atoi_u16 (skip 5 name) in
    let m' = if starts_with session_prefix name && ltb m id then id else m in
    let more : id ≤ m' = ground (arith, h) in omega (arith, max_id_grows m' after, more)
max_id_later (n ∷ before) m name after h = max_id_later before _ name after h

atoi_digit :
    (d : ℕ) (cs : CString) → d < 10 → atoi_u16 ((48 + d) ∷ cs) ≡ u16 (read_digits 0 ((48 + d) ∷ cs))
unfolding read_digits
atoi_digit d cs h =
    let c = 48 + d in
    if_false (c == 32 || leb 9 c && leb c 13) _ _ (ground arith)
    ∙ if_false (c == 45) _ _ (ground arith)
    ∙ if_false (c == 43) _ _ (ground arith)

path_starts : (id : ℕ) → starts_with session_prefix (build_session_path id) ≡ true
unfolding build_session_path
path_starts id = refl

extension_read : (sum : ℕ) → read_digits sum (46 ∷ 98 ∷ 105 ∷ 110 ∷ []) ≡ sum
unfolding read_digits
extension_read sum = refl

path_read : (id : ℕ) → id < 65536 → atoi_u16 (skip 5 (build_session_path id)) ≡ id
unfolding build_session_path
path_read id h = elim (Bool-cases (ltb id 10000)) [
  | inl less ↦
      let ext : CString = 46 ∷ 98 ∷ 105 ∷ 110 ∷ [] in
      ap (λ s. atoi_u16 (s ++ ext)) (if_true (ltb id 10000) _ _ less)
      ∙ atoi_digit (id / 1000 % 10) _ (omega arith)
      ∙ ap u16 (four_read 0 id ext ∙ extension_read _)
      ∙ omega (arith, h, ltb→lt _ _ less)
  | inr more ↦
      let ext : CString = 46 ∷ 98 ∷ 105 ∷ 110 ∷ [] in
      ap (λ s. atoi_u16 (s ++ ext)) (if_false (ltb id 10000) _ _ more)
      ∙ atoi_digit (id / 10000) _ (omega (arith, h))
      ∙ ap u16
          (read_digit 0 (id / 10000) _ (omega (arith, h)) ∙ four_read _ id ext ∙ extension_read _)
      ∙ omega (arith, h)
]

signed_word : (cs : CString) → signed cs < 65536
unfolding read_digits
signed_word [] = omega arith
signed_word (c ∷ cs) = ground arith

atoi_word : (cs : CString) → atoi_u16 cs < 65536
unfolding read_digits
atoi_word [] = omega arith
atoi_word (c ∷ cs) =
    let rest = atoi_word cs in
    let number = signed_word (c ∷ cs) in
    if_keeps (λ n. n < 65536) (c == 32 || leb 9 c && leb c 13) _ (signed (c ∷ cs)) rest number

max_id_word : (names : List CString) (m : ℕ) → m < 65536 → max_id m names < 65536
unfolding max_id
max_id_word [] m h = h
max_id_word (n ∷ names) m h =
    let id = atoi_u16 (skip 5 n) in
    max_id_word names _ (
      if_keeps (λ k. k < 65536) (starts_with session_prefix n && ltb m id) id m
        (atoi_word (skip 5 n)) h)

next_after :
    (before : List CString) (id : ℕ) (after : List CString)
    → id < 65536
    → let next = rebuild_next_session_id true (some (before ++ (build_session_path id ∷ after))) in
      (id < next) ⊎ (next ≡ 0)
unfolding rebuild_next_session_id
next_after before id after h =
    let path = build_session_path id in
    let names = before ++ (path ∷ after) in
    let found = max_id_later before 0 path after (path_starts id) in
    let read = path_read id h in
    let word = max_id_word names 0 (omega arith) in ground (arith, found, read, word)

-- A start that mounts the file system, or finds it mounted, scans it.
pub init-scanned :
    (l : Logger) (call : InitCall)
    → l.initialized ≡ false
    → (init l call).1 ≡ true
    → (l.mounted || call.mount_ok) ≡ true
    → let l' = (init l call).0 in
      (l'.next_session_id ≡ rebuild_next_session_id true call.root)
      × (l'.mounted ≡ true)
      × (l'.state ≡ l.state)
unfolding init
init-scanned l call off ok mounts =
    let l' = record l { has_inference_mutex = true; has_queue = true; queue = [] } in
    let m = mount_spiffs l' call.mount_ok in
    let mounted : m.mounted ≡ true = ground (arith, mounts) in
    let scanned : find_sessions m call.root
        ≡ record m { next_session_id = rebuild_next_session_id true call.root } =
      if_true m.mounted _ m mounted in
    let same : (init l call).0
        ≡ record (find_sessions m call.root) { task_running = true; initialized = true } =
      ground (arith, off, ok) in
    (
      ap (λ x. x.next_session_id) same ∙ ap (λ x. x.next_session_id) scanned,
      ap (λ x. x.mounted) same ∙ ap (λ x. x.mounted) scanned ∙ mounted,
      ap (λ x. x.state) same ∙ ap (λ x. x.state) scanned ∙ ground arith,
    )

-- Where `File::name()` gives whole paths, and a start that mounts the file system, or finds it mounted,
-- lists the file of a session among others, the number of the next session is larger than that session's, or the numbers have run over
-- and it is 0.
pub init-next_session :
    (l : Logger) (call : InitCall) (before : List CString) (id : ℕ) (after : List CString)
    → id < 65536
    → l.initialized ≡ false
    → (init l call).1 ≡ true
    → (l.mounted || call.mount_ok) ≡ true
    → call.root ≡ some (before ++ (build_session_path id ∷ after))
    → (id < (init l call).0.next_session_id) ⊎ ((init l call).0.next_session_id ≡ 0)
init-next_session l call before id after h off ok mounts root =
    subst (λ n. (id < n) ⊎ (n ≡ 0))
      (sym ((init-scanned l call off ok mounts).0 ∙ ap (rebuild_next_session_id true) root))
      (next_after before id after h)
