-- ===== src/History/Window.antt =====
-- The abstract view of the ring: the list of its events, oldest first, and the loop over it.
use native.Mathlib.Nat.{mod-add-mod, mod-eq_of_lt, mod-eq-sub-mod}
use native.Mathlib.Decide.{dec_lt}
use esp32_sensor_firmware_pl.Prelude.{
  ℕ, zero, suc, ◌+◌, ◌-◌, ◌%◌, ◌≤◌, ◌<◌, ◌≡◌, ◌≢◌, refl, sym, ap, ◌∙◌, Bool, List, [], ◌∷◌, some,
  leb, length, if◌then◌else◌, arith, Bool-cases, inl, inr,
}
use esp32_sensor_firmware_pl.Event.{DetectionEvent}
use esp32_sensor_firmware_pl.History.State.{Config, RtcState, event_at, event_count}
use esp32_sensor_firmware_pl.History.Scan.{scan, walk}
use esp32_sensor_firmware_pl.History.Readers.{reading, over_ring}

-- The `n` events from index `start` on, going round at `size`.
abbrev pub window : List DetectionEvent → ℕ → ℕ → ℕ → List DetectionEvent
window buf size start zero = []
window buf size start (suc n) = event_at buf start ∷ window buf size ((start + 1) % size) n

abbrev pub contents : Config → RtcState → List DetectionEvent
contents cfg st = window st.buffer cfg.buffer_size st.tail (event_count cfg st)

-- The indices of a ring lie within its buffer.
pub record InBounds (cfg : Config) (st : RtcState) : Type 0 where
  pub two_cells : 2 ≤ cfg.buffer_size
  pub cells : length st.buffer ≡ cfg.buffer_size
  pub head_in : st.head < cfg.buffer_size
  pub tail_in : st.tail < cfg.buffer_size

pub length-window :
    (buf : List DetectionEvent) (size start n : ℕ) → length (window buf size start n) ≡ n
length-window buf size start zero = refl
length-window buf size start (suc n) = ap suc (length-window buf size ((start + 1) % size) n)

pub mod-wrap : (x n : ℕ) → x < n → (x + n) % n ≡ x
mod-wrap x n h = grind arith

-- The ring's count leads from the tail to the head, and leaves one cell free.
pub event_count-closes :
    (cfg : Config) (st : RtcState)
    → InBounds cfg st
    → (st.head ≡ (st.tail + event_count cfg st) % cfg.buffer_size)
      × (event_count cfg st < cfg.buffer_size)
unfolding event_count
event_count-closes cfg st v = elim (Bool-cases (leb st.tail st.head)) [
  | inl le ↦ rw le (ground (arith, mod-eq_of_lt v.head_in))
  | inr gt ↦ rw gt (around (ground arith))
]
  where
    around :
        st.head < st.tail
        → (st.head ≡ (st.tail + (cfg.buffer_size - st.tail + st.head)) % cfg.buffer_size)
          × (cfg.buffer_size - st.tail + st.head < cfg.buffer_size)
    around lt = (
      sym (mod-wrap st.head cfg.buffer_size v.head_in)
          ∙ ap (λ k. k % cfg.buffer_size) (omega (arith, v)),
      omega (arith, v),
    )

-- Fewer than `size` steps round the ring do not come back to the start.
pub add-mod-ne : {size h k : ℕ} → h < size → suc k < size → (h + suc k) % size ≢ h
add-mod-ne {size} {h} {k} hh hk = elim (dec_lt (h + suc k) size) [
  | yes p ↦ omega (arith, mod-eq_of_lt p)
  | no p ↦ omega (
    arith,
    mod-eq-sub-mod {n = h + suc k} {m = size} (omega arith),
    mod-eq_of_lt {n = h + suc k - size} {m = size} (omega arith),
  )
]

shift : (size start n : ℕ) → (start + suc n) % size ≡ ((start + 1) % size + n) % size
shift size start n = rw mod-add-mod (ap (λ k. k % size) (omega arith))

module _ (size : ℕ) {S : Type 0} (guard : S → Bool) (visit : ℕ → S → S × Bool) (head : ℕ) where
  pub scan-walk :
      (n fuel current : ℕ) (s : S)
      → n < fuel
      → current < size
      → n < size
      → head ≡ (current + n) % size
      → scan size guard visit head fuel current s ≡ some (walk size guard visit head n current s)
  unfolding scan walk
  scan-walk n zero current s hf hc hn e = absurd (omega arith)
  scan-walk zero (suc fuel) current s hf hc hn e =
      let here : current ≡ head = sym (e ∙ ap (λ k. k % size) (omega arith) ∙ mod-eq_of_lt hc) in
      ground arith
  scan-walk (suc n) (suc fuel) current s hf hc hn e =
      let away : current ≢ head = λ eq. add-mod-ne hc hn (sym e ∙ sym eq) in
      ground (
        arith,
        away,
        scan-walk n fuel ((current + 1) % size) (visit current s).0 (omega arith) (omega arith)
            (omega arith) (e ∙ shift size current n),
      )

-- The loop as a recursion on the list of events that it meets.
abbrev pub each :
    {S : Type 0} → (S → Bool) → (DetectionEvent → S → S × Bool) → List DetectionEvent → S → S
each guard g [] s = s
each guard g (e ∷ es) s =
    let (s', stop) = g e s in
    let rest = each guard g es s' in if guard s then (if stop then s' else rest) else s

walk-each :
    (size head : ℕ) {S : Type 0} (guard : S → Bool) (g : DetectionEvent → S → S × Bool)
    (buf : List DetectionEvent) (n current : ℕ) (s : S)
    → walk size guard (reading g buf) head n current s ≡ each guard g (window buf size current n) s
unfolding walk
walk-each size head guard g buf zero current s = refl
walk-each size head guard g buf (suc n) current s =
    ground (
      arith,
      walk-each size head guard g buf n ((current + 1) % size) (g (event_at buf current) s).0,
    )

-- On a ring within its bounds a reader's loop ends, and visits the contents in order.
pub over_ring-each :
    (cfg : Config) (st : RtcState) {S : Type 0} (guard : S → Bool)
    (g : DetectionEvent → S → S × Bool) (s : S)
    → InBounds cfg st
    → over_ring cfg guard g st s ≡ some (each guard g (contents cfg st) s)
over_ring-each cfg st guard g s v =
    scan-walk cfg.buffer_size guard (reading g st.buffer) st.head (event_count cfg st)
      cfg.buffer_size st.tail s (event_count-closes cfg st v).1 v.tail_in
      (event_count-closes cfg st v).1 (event_count-closes cfg st v).0
    ∙ ap some (walk-each cfg.buffer_size st.head guard g st.buffer (event_count cfg st) st.tail s)
