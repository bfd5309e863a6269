-- ===== src/History/Edit.antt =====
-- Loops that write the cells they visit, as an edit of the list of events.
use native.Mathlib.Nat.{mod-lt, mod-eq_of_lt}
use esp32_sensor_firmware_pl.Prelude.{
  ℕ, zero, suc, ◌+◌, ◌%◌, ◌<◌, ◌≡◌, ◌≢◌, refl, sym, ap, ap₂, subst₂, ◌∙◌, Bool, true, false, List,
  [], ◌∷◌, inl, inr, length, set, if◌then◌else◌, arith, get_or-set_self, get_or-set_ne, length-set,
  Bool-cases,
}
use esp32_sensor_firmware_pl.Event.{DetectionEvent, zero_event}
use esp32_sensor_firmware_pl.History.State.{RtcState, event_at}
use esp32_sensor_firmware_pl.History.Scan.{walk}
use esp32_sensor_firmware_pl.History.Readers.{always}
use esp32_sensor_firmware_pl.History.Window.{window, add-mod-ne}
use esp32_sensor_firmware_pl.History.Append.{shift-mod}

-- What a loop body does to the event in front of it: the new event, the accumulator, and `break`.
abbrev pub Edit : Type 0 → Type 0
Edit A = DetectionEvent → A → DetectionEvent × A × Bool

abbrev pub edit_events : {A : Type 0} → Edit A → List DetectionEvent → A → List DetectionEvent × A
edit_events g [] a = ([], a)
edit_events g (e ∷ es) a =
    let (e', a', stop) = g e a in
    let (es', a'') = edit_events g es a' in if stop then (e' ∷ es, a') else (e' ∷ es', a'')

-- The cell `j` is none of the `n` cells from `start` on.
abbrev pub IsOutside : ℕ → ℕ → ℕ → ℕ → Type 0
IsOutside size start n j = (k : ℕ) → k < n → (start + k) % size ≢ j

pub IsOutside-behind :
    (size start n : ℕ) → start < size → n < size → IsOutside size ((start + 1) % size) n start
IsOutside-behind size start n hs hn k hk e =
    add-mod-ne hs (omega arith) (sym (shift-mod size start k) ∙ e)

IsOutside-next :
    (size start n j : ℕ) → IsOutside size start (suc n) j → IsOutside size ((start + 1) % size) n j
IsOutside-next size start n j out k hk e =
    out (suc k) (omega arith) (sym (shift-mod size start k) ∙ e)

outside_here : (size start n j : ℕ) → start < size → IsOutside size start (suc n) j → start ≢ j
outside_here size start n j hs out e =
    out 0 (omega arith) (ap (λ k. k % size) (omega arith) ∙ mod-eq_of_lt hs ∙ e)

window-set_outside :
    (buf : List DetectionEvent) (size start n i : ℕ) (x : DetectionEvent)
    → start < size
    → IsOutside size start n i
    → window (set buf i x) size start n ≡ window buf size start n
window-set_outside buf size start zero i x hs out = refl
window-set_outside buf size start (suc n) i x hs out =
    ap₂ ◌∷◌ (get_or-set_ne buf x zero_event (λ e. outside_here size start n i hs out (sym e))) (
      window-set_outside buf size ((start + 1) % size) n i x (mod-lt (start + 1) (omega arith))
        (IsOutside-next size start n i out))

edit_events-stop :
    {A : Type 0} (g : Edit A) (e : DetectionEvent) (es : List DetectionEvent) (a : A)
    → (g e a).2 ≡ true
    → edit_events g (e ∷ es) a ≡ ((g e a).0 ∷ es, (g e a).1)
edit_events-stop g e es a h = rw h

edit_events-go :
    {A : Type 0} (g : Edit A) (e : DetectionEvent) (es : List DetectionEvent) (a : A)
    → (g e a).2 ≡ false
    → edit_events g (e ∷ es) a
      ≡ ((g e a).0 ∷ (edit_events g es (g e a).1).0, (edit_events g es (g e a).1).1)
edit_events-go g e es a h = rw h

walk-stop :
    (size head : ℕ) {S : Type 0} (visit : ℕ → S → S × Bool) (n current : ℕ) (s : S)
    → (visit current s).1 ≡ true
    → walk size always visit head (suc n) current s ≡ (visit current s).0
unfolding walk
walk-stop size head visit n current s h = rw h

walk-go :
    (size head : ℕ) {S : Type 0} (visit : ℕ → S → S × Bool) (n current : ℕ) (s : S)
    → (visit current s).1 ≡ false
    → walk size always visit head (suc n) current s
      ≡ walk size always visit head n ((current + 1) % size) (visit current s).0
unfolding walk
walk-go size head visit n current s h = rw h

-- The loop's result `r` holds the edited events `w`, in the cells that it went over.
abbrev pub Edited :
    (size n current : ℕ) {A : Type 0}
    → (RtcState → A → Type 0)
    → RtcState
    → RtcState × A
    → List DetectionEvent × A
    → Type 0
Edited size n current L st r w =
    (window r.0.buffer size current n ≡ w.0)
    × (r.1 ≡ w.1)
    × L r.0 r.1
    × (length r.0.buffer ≡ size)
    × ((j : ℕ) → IsOutside size current n j → event_at r.0.buffer j ≡ event_at st.buffer j)

-- `K n` holds where `n` rounds may still come, and `L` of the result.
module _ (size head : ℕ) {A : Type 0} (visit : ℕ → RtcState × A → (RtcState × A) × Bool)
    (g : Edit A) (K : ℕ → RtcState → A → Type 0) (L : RtcState → A → Type 0)
    (done : (st : RtcState) (a : A) → K 0 st a → L st a)
    (leaves : (n i : ℕ) (st : RtcState) (a : A)
      → K (suc n) st a
      → (visit i (st, a)).1 ≡ true
      → L (visit i (st, a)).0.0 (visit i (st, a)).0.1)
    (keeps : (n i : ℕ) (st : RtcState) (a : A)
      → K (suc n) st a
      → (visit i (st, a)).1 ≡ false
      → K n (visit i (st, a)).0.0 (visit i (st, a)).0.1)
    (writes : (n i : ℕ) (st : RtcState) (a : A)
      → K (suc n) st a
      → ((visit i (st, a)).0.0.buffer ≡ set st.buffer i (g (event_at st.buffer i) a).0)
        × ((visit i (st, a)).0.1 ≡ (g (event_at st.buffer i) a).1)
        × ((visit i (st, a)).1 ≡ (g (event_at st.buffer i) a).2)) where
  pub walk-edit :
      (n current : ℕ) (st : RtcState) (a : A)
      → K n st a
      → length st.buffer ≡ size
      → current < size
      → n < size
      → Edited size n current L st
          (walk size always visit head n current (st, a))
          (edit_events g (window st.buffer size current n) a)
  unfolding walk
  walk-edit zero current st a k len hc hn = (refl, refl, done st a k, len, λ j out. refl)
  walk-edit (suc n) current st a k len hc hn =
      let later = λ (goes : (visit current (st, a)).1 ≡ false).
        walk-edit n ((current + 1) % size) (visit current (st, a)).0.0 (visit current (st, a)).0.1
          (keeps n current st a k goes) len1 (mod-lt (current + 1) (omega arith)) (omega arith) in
      elim (Bool-cases (visit current (st, a)).1) [
        | inl stops ↦
            subst₂ (Edited size (suc n) current L st)
              (sym (walk-stop size head visit n current (st, a) stops))
              (sym (
                edit_events-stop g (event_at st.buffer current) (window st.buffer size next n) a
                  (sym (writes n current st a k).2 ∙ stops)))
              (
                ap₂ ◌∷◌ cell same_rest,
                (writes n current st a k).1,
                leaves n current st a k stops,
                len1,
                same_outside,
              )
        | inr goes ↦
            subst₂ (Edited size (suc n) current L st)
              (sym (walk-go size head visit n current (st, a) goes))
              (sym (
                edit_events-go g (event_at st.buffer current) (window st.buffer size next n) a
                  (sym (writes n current st a k).2 ∙ goes)
                ∙ ap₂ (λ l b. (e1 ∷ (edit_events g l b).0, (edit_events g l b).1)) (sym same_rest)
                    (sym (writes n current st a k).1)))
              (
                ap₂ ◌∷◌
                    ((later goes).4 current (IsOutside-behind size current n hc (omega arith))
                      ∙ cell)
                    (later goes).0,
                (later goes).1,
                (later goes).2,
                (later goes).3,
                λ j out.
                    (later goes).4 j (IsOutside-next size current n j out) ∙ same_outside j out,
              )
      ]
    where
      next : ℕ
      next = (current + 1) % size

      st1 : RtcState
      st1 = (visit current (st, a)).0.0

      e1 : DetectionEvent
      e1 = (g (event_at st.buffer current) a).0

      b : st1.buffer ≡ set st.buffer current e1
      b = (writes n current st a k).0

      len1 : length st1.buffer ≡ size
      len1 = ap length b ∙ length-set st.buffer current e1 ∙ len

      same_rest : window st1.buffer size next n ≡ window st.buffer size next n
      same_rest =
          ap (λ buf. window buf size next n) b
          ∙ window-set_outside st.buffer size next n current e1 (mod-lt (current + 1) (omega arith))
              (IsOutside-behind size current n hc (omega arith))

      cell : event_at st1.buffer current ≡ e1
      cell =
          ap (λ buf. event_at buf current) b
          ∙ get_or-set_self st.buffer current e1 zero_event (omega (arith, len))

      same_outside :
          (j : ℕ) → IsOutside size current (suc n) j → event_at st1.buffer j ≡ event_at st.buffer j
      same_outside j out =
          ap (λ buf. event_at buf j) b
          ∙ get_or-set_ne st.buffer e1 zero_event (outside_here size current n j hc out)
