-- ===== src/Protocol/Table.antt =====
-- The table of pending messages, as the list of the messages that wait.
use esp32_sensor_firmware_pl.Prelude.{
  ℕ, zero, suc, ◌+◌, ◌≤◌, ◌<◌, ◌≡◌, ◌↔◌, refl, ap, ◌∙◌, ◌⊎◌, inl, inr, Bool, true, false, List, [],
  ◌∷◌, none, some, length, select, set, u8, Option-cases, Bool-cases, arith,
}
use esp32_sensor_firmware_pl.Protocol.Messages.{MessageType}
use esp32_sensor_firmware_pl.Protocol.State.{
  PendingMessage, Handler, max_pending_messages, find_slot, slot_at, is_free, fill_slot,
  track_pending_locked, count_active, get_pending_count, has_pending_space,
}

abbrev pub is_active : PendingMessage → Bool
is_active m = m.active

abbrev pub waiting : List PendingMessage → List PendingMessage
waiting ms = select is_active ms

module _ (p : PendingMessage → Bool) where
  pub find_slot-some :
      (ms : List PendingMessage) (i : ℕ)
      → find_slot p ms ≡ some i
      → (i < length ms) × (p (slot_at ms i) ≡ true)
  find_slot-some [] i e = absurd (cc)
  find_slot-some (m ∷ ms) zero e = elim (Bool-cases (p m)) [
    | inl h ↦ (omega arith, h)
    | inr h ↦ elim (Option-cases (find_slot p ms)) [
      | inl n ↦ absurd (ground arith)
      | inr (j, n) ↦ absurd (ground arith)
    ]
  ]
  find_slot-some (m ∷ ms) (suc i) e = elim (Option-cases (find_slot p ms)) [
    | inl n ↦ absurd (ground arith)
    | inr (j, n) ↦
        let same : j ≡ i = ground arith in
        let rest = find_slot-some ms i (n ∙ ap some same) in (omega (arith, rest.0), rest.1)
  ]

  pub find_slot_miss :
      (m : PendingMessage) (ms : List PendingMessage)
      → find_slot p (m ∷ ms) ≡ none
      → (p m ≡ false) × (find_slot p ms ≡ none)
  find_slot_miss m ms e = elim (Option-cases (find_slot p ms)) [
    | inl n ↦ (ground arith, n)
    | inr (j, n) ↦ absurd (ground arith)
  ]

  pub find_slot-cons :
      (m : PendingMessage) (ms : List PendingMessage) (i : ℕ)
      → p m ≡ false
      → find_slot p ms ≡ some i
      → find_slot p (m ∷ ms) ≡ some (suc i)
  find_slot-cons m ms i h e = ground arith

  -- Where nothing passes the test, a slot that does once it is written is the one that is found.
  pub find_slot-set :
      (ms : List PendingMessage) (i : ℕ) (m : PendingMessage)
      → find_slot p ms ≡ none
      → i < length ms
      → p m ≡ true
      → find_slot p (set ms i m) ≡ some i
  find_slot-set [] i m e h t = absurd (omega arith)
  find_slot-set (x ∷ ms) zero m e h t = rw t refl
  find_slot-set (x ∷ ms) (suc i) m e h t =
      let miss = find_slot_miss x ms e in
      find_slot-cons x (set ms i m) i miss.0 (find_slot-set ms i m miss.1 (omega arith) t)

pub slot_at-set :
    (ms : List PendingMessage) (i : ℕ) (m : PendingMessage)
    → i < length ms
    → slot_at (set ms i m) i ≡ m
slot_at-set [] i m h = absurd (omega arith)
slot_at-set (x ∷ ms) zero m h = refl
slot_at-set (x ∷ ms) (suc i) m h = slot_at-set ms i m (omega arith)

pub set-set :
    (ms : List PendingMessage) (i : ℕ) (a b : PendingMessage) → set (set ms i a) i b ≡ set ms i b
set-set [] i a b = refl
set-set (x ∷ ms) zero a b = refl
set-set (x ∷ ms) (suc i) a b = ap (λ l. x ∷ l) (set-set ms i a b)

-- A free slot that stays free.
pub waiting-set_free :
    (ms : List PendingMessage) (i : ℕ) (m : PendingMessage)
    → is_active (slot_at ms i) ≡ false
    → m.active ≡ false
    → waiting (set ms i m) ≡ waiting ms
waiting-set_free [] i m h f = refl
waiting-set_free (x ∷ ms) zero m h f = rw (h, f) refl
waiting-set_free (x ∷ ms) (suc i) m h f = ground (arith, waiting-set_free ms i m h f)

-- A free slot that is filled.
pub length-waiting_fill :
    (ms : List PendingMessage) (i : ℕ) (m : PendingMessage)
    → i < length ms
    → is_active (slot_at ms i) ≡ false
    → m.active ≡ true
    → length (waiting (set ms i m)) ≡ length (waiting ms) + 1
length-waiting_fill [] i m lt h t = absurd (omega arith)
length-waiting_fill (x ∷ ms) zero m lt h t = rw (h, t) (omega arith)
length-waiting_fill (x ∷ ms) (suc i) m lt h t =
    ground (arith, length-waiting_fill ms i m (omega arith) h t)

pub length-waiting-le : (ms : List PendingMessage) → length (waiting ms) ≤ length ms
length-waiting-le [] = omega arith
length-waiting-le (m ∷ ms) = ground (arith, length-waiting-le ms)

-- There is a free slot exactly when fewer messages wait than there are slots.
pub find_slot-is_free :
    (ms : List PendingMessage)
    → ((find_slot is_free ms ≡ none) × (length (waiting ms) ≡ length ms))
      ⊎ ((i : ℕ) × (find_slot is_free ms ≡ some i) × (length (waiting ms) < length ms))
find_slot-is_free [] = inl (refl, refl)
find_slot-is_free (m ∷ ms) = elim (Bool-cases m.active) [
  | inl a ↦ elim (find_slot-is_free ms) [
    | inl (n, full) ↦ inl (ground arith, ground arith)
    | inr (i, n, room) ↦ inr (i + 1, ground arith, ground arith)
  ]
  | inr f ↦ inr (0, ground arith, ground (arith, length-waiting-le ms))
]

pub count_active_lem :
    (ms : List PendingMessage) (count : ℕ)
    → count + length (waiting ms) < 256
    → count_active ms count ≡ count + length (waiting ms)
count_active_lem [] count h = omega arith
count_active_lem (m ∷ ms) count h = elim (Bool-cases m.active) [
  | inl a ↦
      let step : u8 (count + 1) ≡ count + 1 = ground arith in
      rw (a, step) (count_active_lem ms (count + 1) (ground arith) ∙ omega arith)
  | inr f ↦ rw f (count_active_lem ms count (ground arith))
]

-- In a table of 64 slots the pending count is the number of messages that wait, and there is pending
-- space exactly when a message that needs an acknowledgement finds a slot.
pub has_pending_space_iff :
    (h : Handler) (seq_num : ℕ) (type : MessageType) (frame : List ℕ) (millis : ℕ)
    → length h.pending ≡ max_pending_messages
    → (get_pending_count h ≡ length (waiting h.pending))
      × ((has_pending_space h ≡ true) ↔ (
          (pending : List PendingMessage) × (track_pending_locked h.pending seq_num type frame
              millis
            ≡ some pending)))
unfolding get_pending_count has_pending_space track_pending_locked
has_pending_space_iff h seq_num type frame millis size =
    let count = count_active_lem h.pending 0 (omega (arith, length-waiting-le h.pending)) in
    elim (find_slot-is_free h.pending) [
      | inl (n, full) ↦
          (count ∙ omega arith, (λ t. absurd (ground arith), λ (r, e). absurd (ground arith)))
      | inr (i, n, room) ↦ (
        count ∙ omega arith,
        (
          λ t. (
            (set h.pending i (fill_slot seq_num type frame millis (slot_at h.pending i))),
            ground arith,
          ),
          λ r. ground arith,
        ),
      )
    ]
