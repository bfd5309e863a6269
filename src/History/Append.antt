-- ===== src/History/Append.antt =====
-- `logDetection` against a bounded queue of events.
use native.Mathlib.Nat.{mod-add-mod, mod-eq_of_lt, mod-eq-sub-mod, mod-lt}
use native.Mathlib.Decide.{dec_lt}
use esp32_sensor_firmware_pl.Prelude.{
  ℕ, zero, suc, ◌+◌, ◌-◌, ◌%◌, ◌<◌, ◌≡◌, ◌≢◌, refl, sym, ap, ap₂, ◌∙◌, Bool, true, ◌++◌, List, [],
  ◌∷◌, leb, ◌==◌, length, set, drop, length-set, replicate, if◌then◌else◌, arith, get_or-set_self,
  get_or-set_ne, u32,
}
use esp32_sensor_firmware_pl.Platform.{Call}
use esp32_sensor_firmware_pl.Event.{DetectionEvent, zero_event}
use esp32_sensor_firmware_pl.History.State.{
  Config, RtcState, event_at, event_count, next_index, update_crc, calculate_buffer_crc,
  validate_state,
}
use esp32_sensor_firmware_pl.History.Window.{
  window, contents, InBounds, length-window, event_count-closes, add-mod-ne, mod-wrap,
}
use esp32_sensor_firmware_pl.History.Log.{min_valid_epoch, logged_event, store_event}

-- The stored state carries its magic number and the checksum of its buffer.
pub record IsSealed (cfg : Config) (st : RtcState) : Type 0 where
  pub magic : st.magic_number ≡ cfg.rtc_magic_number
  pub checksum : st.crc32 ≡ calculate_buffer_crc st

pub validate_state-IsSealed :
    (cfg : Config) (st : RtcState) → IsSealed cfg st → validate_state cfg st ≡ true
unfolding validate_state
validate_state-IsSealed cfg st v = ground arith

-- The count of events is the only distance from the tail to the head.
pub event_count_unique :
    (cfg : Config) (st : RtcState) (c : ℕ)
    → InBounds cfg st
    → c < cfg.buffer_size
    → st.head ≡ (st.tail + c) % cfg.buffer_size
    → event_count cfg st ≡ c
unfolding event_count
event_count_unique cfg st c v hc e = elim (dec_lt (st.tail + c) cfg.buffer_size) [
  | yes p ↦ let e' : st.head ≡ st.tail + c = e ∙ mod-eq_of_lt p in ground arith
  | no p ↦
      let e' : st.head ≡ st.tail + c - cfg.buffer_size =
        e
        ∙ mod-eq-sub-mod {n = st.tail + c} {m = cfg.buffer_size} (omega arith)
        ∙ mod-eq_of_lt {n = st.tail + c - cfg.buffer_size} {m = cfg.buffer_size}
            (omega (arith, v)) in
      ground arith
]

pub step-mod : (size h n : ℕ) → ((h + n) % size + 1) % size ≡ (h + suc n) % size
step-mod size h n = rw mod-add-mod (ap (λ k. k % size) (omega arith))

pub shift-mod : (size h n : ℕ) → ((h + 1) % size + n) % size ≡ (h + suc n) % size
shift-mod size h n = rw mod-add-mod (ap (λ k. k % size) (omega arith))

-- A write just past a window extends it.
pub window-set :
    (buf : List DetectionEvent) (size : ℕ) (x : DetectionEvent) (n h i : ℕ)
    → length buf ≡ size
    → h < size
    → n < size
    → i ≡ (h + n) % size
    → window (set buf i x) size h (suc n) ≡ window buf size h n ++ (x ∷ [])
window-set buf size x zero h i hs hh hn e =
    let here : i ≡ h = e ∙ ap (λ k. k % size) (omega arith) ∙ mod-eq_of_lt hh in
    rw here (ap (λ y. y ∷ []) (get_or-set_self buf h x zero_event (omega arith)))
window-set buf size x (suc n) h i hs hh hn e =
    ap₂ ◌∷◌ (get_or-set_ne buf x zero_event (λ p. add-mod-ne hh hn (sym e ∙ p))) (
      window-set buf size x n ((h + 1) % size) i hs (mod-lt (h + 1) (omega arith)) (omega arith)
        (e ∙ sym (shift-mod size h n)))

-- A queue of at most `cap` events: a full one loses its oldest.
abbrev pub is_full : ℕ → List DetectionEvent → Bool
is_full cap q = length q == cap

abbrev pub push_bounded : ℕ → List DetectionEvent → DetectionEvent → List DetectionEvent
push_bounded cap q e = (if is_full cap q then drop 1 q else q) ++ (e ∷ [])

-- The event that a detection leaves behind. Only the overflow bit of its flags can be set.
abbrev pub detection : RtcState → Call → ℕ → Bool → DetectionEvent
detection st call duration_ms overflow = record {
  id = u32 (st.global_event_id + 1);
  timestamp_ms = call.uptime;
  boot_count = st.boot_count;
  duration_ms = duration_ms;
  timestamp = if leb min_valid_epoch call.epoch then call.epoch else 0;
  flags = if overflow then 2 else 0;
  reserved = replicate 5 0;
}

pub logged_event-detection :
    (old : DetectionEvent) (st : RtcState) (synced : Bool) (call : Call) (d : ℕ) (overflow : Bool)
    → logged_event old st synced call d overflow ≡ detection st call d overflow
unfolding logged_event
logged_event-detection old st synced call d overflow = ground arith

-- A ring whose head is `c` cells past its tail holds the window of those cells.
pub contents-window :
    (cfg : Config) (st : RtcState) (c : ℕ)
    → InBounds cfg st
    → c < cfg.buffer_size
    → st.head ≡ (st.tail + c) % cfg.buffer_size
    → contents cfg st ≡ window st.buffer cfg.buffer_size st.tail c
contents-window cfg st c v hc e =
    ap (window st.buffer cfg.buffer_size st.tail) (event_count_unique cfg st c v hc e)

module _ (cfg : Config) (st : RtcState) (v : InBounds cfg st) where
  -- The head's successor is `count + 1` cells past the tail.
  next-head : next_index cfg st.head ≡ (st.tail + suc (event_count cfg st)) % cfg.buffer_size
  next-head =
      ap (λ k. (k + 1) % cfg.buffer_size) (event_count-closes cfg st v).0
      ∙ step-mod cfg.buffer_size st.tail (event_count cfg st)

  -- The head's successor is the tail exactly when one cell is left free.
  overflow-full : next_index cfg st.head ≡ st.tail → suc (event_count cfg st) ≡ cfg.buffer_size
  overflow-full e = elim (dec_lt (suc (event_count cfg st)) cfg.buffer_size) [
    | yes p ↦ absurd (add-mod-ne v.tail_in p (sym next-head ∙ e))
    | no p ↦ omega (arith, event_count-closes cfg st v)
  ]

  full-overflow : suc (event_count cfg st) ≡ cfg.buffer_size → next_index cfg st.head ≡ st.tail
  full-overflow e =
      next-head
      ∙ ap (λ k. (st.tail + k) % cfg.buffer_size) e
      ∙ mod-wrap st.tail cfg.buffer_size v.tail_in

  fits-free : next_index cfg st.head ≢ st.tail → suc (event_count cfg st) < cfg.buffer_size
  fits-free ne = ground (arith, full-overflow, event_count-closes cfg st v)

  overflow_iff :
      (next_index cfg st.head == st.tail) ≡ is_full (cfg.buffer_size - 1) (contents cfg st)
  overflow_iff = ground (
    arith,
    v,
    length-window st.buffer cfg.buffer_size st.tail (event_count cfg st),
    overflow-full,
    full-overflow,
  )

module _ (cfg : Config) (st : RtcState) (synced : Bool) (call : Call) (d : ℕ)
    (v : InBounds cfg st) where
  pub store_event-InBounds : InBounds cfg (store_event cfg st synced call d)
  unfolding store_event update_crc
  store_event-InBounds = record {
    two_cells = v.two_cells;
    cells = length-set st.buffer st.head _ ∙ v.cells;
    head_in = mod-lt (st.head + 1) (omega (arith, v));
    tail_in = ground (arith, v, mod-lt (st.tail + 1) {m = cfg.buffer_size} (omega (arith, v)));
  }

  pub store_event-IsSealed : IsSealed cfg st → IsSealed cfg (store_event cfg st synced call d)
  unfolding store_event update_crc calculate_buffer_crc
  store_event-IsSealed sealed = record { magic = sealed.magic; checksum = refl }

  stored : DetectionEvent
  stored =
      logged_event (event_at st.buffer st.head) st synced call d (next_index cfg st.head == st.tail)

  new_tail-full :
      next_index cfg st.head ≡ st.tail
      → (store_event cfg st synced call d).tail ≡ next_index cfg st.tail
  unfolding store_event update_crc
  new_tail-full e = ground arith

  new_tail-free :
      next_index cfg st.head ≢ st.tail → (store_event cfg st synced call d).tail ≡ st.tail
  unfolding store_event update_crc
  new_tail-free ne = ground arith

  -- With one cell free, the oldest event goes.
  contents-full :
      next_index cfg st.head ≡ st.tail
      → contents cfg (store_event cfg st synced call d) ≡ drop 1 (contents cfg st) ++ (stored ∷ [])
  unfolding store_event update_crc stored
  contents-full e =
      let size = cfg.buffer_size in
      let m = size - 2 in
      let count : event_count cfg st ≡ suc m = omega (arith, v, overflow-full cfg st v e) in
      let at_head : st.head ≡ (next_index cfg st.tail + m) % size =
        (event_count-closes cfg st v).0
        ∙ ap (λ k. (st.tail + k) % size) count
        ∙ sym (shift-mod size st.tail m) in
      let closes : next_index cfg st.head ≡ (next_index cfg st.tail + suc m) % size =
        ap (λ k. (k + 1) % size) at_head ∙ step-mod size (next_index cfg st.tail) m in
      contents-window cfg (store_event cfg st synced call d) (suc m) store_event-InBounds
        (omega (arith, v)) (closes ∙ ap (λ t. (t + suc m) % size) (sym (new_tail-full e)))
      ∙ ap (λ t. window (set st.buffer st.head stored) size t (suc m)) (new_tail-full e)
      ∙ window-set st.buffer size stored m (next_index cfg st.tail) st.head v.cells
          (mod-lt (st.tail + 1) (omega (arith, v))) (omega (arith, v)) at_head
      ∙ ap (λ c. drop 1 (window st.buffer size st.tail c) ++ (stored ∷ [])) (sym count)

  contents-free :
      next_index cfg st.head ≢ st.tail
      → contents cfg (store_event cfg st synced call d) ≡ contents cfg st ++ (stored ∷ [])
  unfolding store_event update_crc stored
  contents-free ne =
      let size = cfg.buffer_size in
      let c = event_count cfg st in
      let fits : suc c < size = fits-free cfg st v ne in
      contents-window cfg (store_event cfg st synced call d) (suc c) store_event-InBounds fits
        (next-head cfg st v ∙ ap (λ t. (t + suc c) % size) (sym (new_tail-free ne)))
      ∙ ap (λ t. window (set st.buffer st.head stored) size t (suc c)) (new_tail-free ne)
      ∙ window-set st.buffer size stored c st.tail st.head v.cells v.tail_in
          (event_count-closes cfg st v).1 (event_count-closes cfg st v).0

  -- `logDetection` pushes its event onto a queue of `BUFFER_SIZE - 1` events, in a ring within its
  -- bounds: every older event stays, in order, but the oldest of a full ring.
  pub contents-store_event :
      contents cfg (store_event cfg st synced call d)
      ≡ push_bounded
          (cfg.buffer_size - 1)
          (contents cfg st)
          (detection st call d (is_full (cfg.buffer_size - 1) (contents cfg st)))
  unfolding stored
  contents-store_event = rw (← overflow_iff cfg st v) (
      ground (
        arith,
        contents-full,
        contents-free,
        logged_event-detection (event_at st.buffer st.head) st synced call d
            (next_index cfg st.head == st.tail),
      ))
