-- ===== src/Logger/BaseNames.antt =====
-- What the scan of the session files and `deleteAll` see where the file system lists base names.
use esp32_sensor_firmware_pl.Logger.Window.{GestureLabel}
use esp32_sensor_firmware_pl.Logger.Session.{Logger, is_open, start_session}
use esp32_sensor_firmware_pl.Logger.Lifetime.{
  CString, starts_with, ml_prefix, ml_names, max_id, rebuild_next_session_id, InitCall, init,
  delete_all,
}
use esp32_sensor_firmware_pl.Logger.Fresh.{init-scanned}
use esp32_sensor_firmware_pl.Prelude.{
  ℕ, ◌+◌, ◌≡◌, refl, ap, ◌∙◌, Bool, true, false, ◌||◌, List, [], ◌∷◌, some, u16, if_false, arith,
}

-- `File::name()` gives base names, which do not start with '/'.
abbrev pub AreBaseNames : List CString → Type 0
AreBaseNames [] = Unit {0}
AreBaseNames (name ∷ names) = (starts_with (47 ∷ []) name ≡ false) × AreBaseNames names

none_starts :
    (rest name : CString)
    → starts_with (47 ∷ []) name ≡ false
    → starts_with (47 ∷ rest) name ≡ false
none_starts rest [] h = refl
none_starts rest (c ∷ cs) h = ground arith

max_id_base : (m : ℕ) (names : List CString) → AreBaseNames names → max_id m names ≡ m
unfolding max_id
max_id_base m [] h = refl
max_id_base m (n ∷ names) h =
    let no = none_starts (109 ∷ 108 ∷ 95 ∷ 115 ∷ []) n h.0 in rw no (max_id_base m names h.1)

ml_names_base : (names : List CString) → AreBaseNames names → ml_names names ≡ []
ml_names_base [] h = refl
ml_names_base (n ∷ names) h =
    if_false (starts_with ml_prefix n) _ _ (none_starts (109 ∷ 108 ∷ 95 ∷ []) n h.0)
    ∙ ml_names_base names h.1

-- Where `File::name()` gives base names, as the library of the pinned platform does, a start that mounts
-- the file system, or finds it mounted, sees no session file, whatever is there: the first session
-- after it, where none is going on, has the number 1, and `deleteAll`, whatever the directory lists
-- then, asks for no removal and reports success.
pub init_base_names :
    (l : Logger) (call : InitCall) (names later : List CString) (opens : Bool)
    (label : GestureLabel)
    → AreBaseNames names
    → AreBaseNames later
    → call.root ≡ some names
    → l.initialized ≡ false
    → is_open l.state ≡ false
    → (init l call).1 ≡ true
    → (l.mounted || call.mount_ok) ≡ true
    → let l' = (init l call).0 in
      (start_session l' opens label).1 ≡ true
      → ((start_session l' opens label).0.current_session_id ≡ 1)
        × ((delete_all l' (some later)).1 ≡ true)
        × ((delete_all l' (some later)).2 ≡ [])
unfolding start_session delete_all rebuild_next_session_id
init_base_names l call names later opens label base base' root off closed ok mounts started =
    let l' = (init l call).0 in
    let s = init-scanned l call off ok mounts in
    let closed' : is_open l'.state ≡ false = ap is_open s.2 ∙ closed in
    let number : l'.next_session_id ≡ 1 =
      s.0
      ∙ ap (rebuild_next_session_id true) root
      ∙ ap (λ n. u16 (n + 1)) (max_id_base 0 names base) in
    let none = ml_names_base later base' in
    (
      ground (arith, closed', number, started),
      ground (arith, closed', s.1),
      ground (arith, closed', s.1, none),
    )
