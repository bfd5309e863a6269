-- ===== src/Protocol/Retries.antt =====
-- Rounds of `processRetries` with nothing else between them: how often a message is sent again, and
-- that it is given up.
use esp32_sensor_firmware_pl.Prelude.{
  refl, sym, subst, ℕ, ◌+◌, ◌-◌, ◌*◌, ◌≤◌, ◌<◌, ◌≡◌, ◌⊎◌, inl, inr, true, false, List, [], ◌∷◌,
  length, length-append, take, sub_u32, if◌then◌else◌, Bool-cases, arith,
}
use esp32_sensor_firmware_pl.Protocol.State.{PendingMessage, Handler}
use esp32_sensor_firmware_pl.Protocol.Sending.{
  RetryConfig, RetryCall, RetryTotals, retry_slot, retry_slots, process_retries,
}
use esp32_sensor_firmware_pl.Protocol.Table.{waiting}

unfoldable pub run_retries : RetryConfig → List RetryCall → Handler → Handler
run_retries cfg [] h = h
run_retries cfg (call ∷ calls) h = run_retries cfg calls (process_retries cfg call h)

-- The retries that a message has left, and those of a table.
abbrev pub budget : RetryConfig → PendingMessage → ℕ
budget cfg m = if m.active then cfg.max_retry_count - m.retry_count else 0

abbrev pub total_budget : RetryConfig → List PendingMessage → ℕ
total_budget cfg [] = 0
total_budget cfg (m ∷ ms) = budget cfg m + total_budget cfg ms

total_budget-le :
    (cfg : RetryConfig) (ms : List PendingMessage)
    → total_budget cfg ms ≤ cfg.max_retry_count * length (waiting ms)
total_budget-le cfg [] = omega arith
total_budget-le cfg (m ∷ ms) = elim (Bool-cases m.active) [
  | inl a ↦ rw a (grind (arith, total_budget-le cfg ms))
  | inr f ↦ rw f (omega (arith, total_budget-le cfg ms))
]

module _ (cfg : RetryConfig) (small : cfg.max_retry_count < 256) where
  retry_slot-budget :
      (call : RetryCall) (i : ℕ) (m : PendingMessage) (t : RetryTotals)
      → let r = retry_slot cfg call i m t in
        length r.1.sent + budget cfg r.0 ≤ length t.sent + budget cfg m
  unfolding retry_slot
  retry_slot-budget call i m t = ground (arith, length-append t.sent (take m.data_len m.frame ∷ []))

  retry_slots-budget :
      (call : RetryCall) (i : ℕ) (ms : List PendingMessage) (t : RetryTotals)
      → let r = retry_slots cfg call i ms t in
        length r.1.sent + total_budget cfg r.0 ≤ length t.sent + total_budget cfg ms
  unfolding retry_slots
  retry_slots-budget call i [] t = omega arith
  retry_slots-budget call i (m ∷ ms) t = omega (
    arith,
    retry_slot-budget call i m t,
    retry_slots-budget call (i + 1) ms (retry_slot cfg call i m t).1,
  )

  process_retries-budget :
      (call : RetryCall) (h : Handler)
      → let h' = process_retries cfg call h in
        length h'.sent + total_budget cfg h'.pending ≤ length h.sent + total_budget cfg h.pending
  unfolding process_retries
  process_retries-budget call h =
      let start : RetryTotals = record {
        retry_count = h.retry_count;
        error_count = h.error_count;
        sent = h.sent;
      } in
      ground (arith, retry_slots-budget call 0 h.pending start)

  run_retries-budget :
      (calls : List RetryCall) (h : Handler)
      → let h' = run_retries cfg calls h in
        length h'.sent + total_budget cfg h'.pending ≤ length h.sent + total_budget cfg h.pending
  unfolding run_retries
  run_retries-budget [] h = omega arith
  run_retries-budget (call ∷ calls) h =
      omega (
        arith,
        process_retries-budget call h,
        run_retries-budget calls (process_retries cfg call h),
      )

-- However many rounds of `processRetries` there are, and whatever they meet, they send at most
-- MAX_RETRY_COUNT frames for each message that waits.
pub run_retries_bounded :
    (cfg : RetryConfig) (calls : List RetryCall) (h : Handler)
    → cfg.max_retry_count < 256
    → length (run_retries cfg calls h).sent
      ≤ length h.sent + cfg.max_retry_count * length (waiting h.pending)
run_retries_bounded cfg calls h small =
    omega (arith, run_retries-budget cfg small calls h, total_budget-le cfg h.pending)

-- A message is free, or it has been sent again at least `rounds` times, and was last sent at `t`.
abbrev IsRetried : RetryConfig → ℕ → ℕ → PendingMessage → Type 0
IsRetried cfg rounds t m =
    (m.active ≡ false)
    ⊎ ((rounds ≤ m.retry_count) × (m.retry_count ≤ cfg.max_retry_count) × (m.sent_time ≡ t))

abbrev AllRetried : RetryConfig → ℕ → ℕ → List PendingMessage → Type 0
AllRetried cfg rounds t [] = Unit {0}
AllRetried cfg rounds t (m ∷ ms) = IsRetried cfg rounds t m × AllRetried cfg rounds t ms

-- Every message that waits has waited too long at a time.
abbrev pub AllDue : RetryConfig → ℕ → List PendingMessage → Type 0
AllDue cfg now [] = Unit {0}
AllDue cfg now (m ∷ ms) =
    ((m.active ≡ false) ⊎ (cfg.ack_timeout_ms < sub_u32 now m.sent_time)) × AllDue cfg now ms

-- The app is connected, the mutex is taken for every slot, and each round comes later than the
-- acknowledgement timeout after the one before, which was at `t`.
abbrev pub IsOpen : RetryCall → Type 0
IsOpen call = (call.connected ≡ true) × ((i : ℕ) → call.mutex_taken i ≡ true)

abbrev pub AreSpaced : RetryConfig → ℕ → List RetryCall → Type 0
AreSpaced cfg t [] = Unit {0}
AreSpaced cfg t (call ∷ calls) =
    IsOpen call × (cfg.ack_timeout_ms < sub_u32 call.millis t) × AreSpaced cfg call.millis calls

module _ (cfg : RetryConfig) (small : cfg.max_retry_count < 255) (call : RetryCall)
    (open_call : IsOpen call) where
  retries_slot :
      (rounds i : ℕ) (m : PendingMessage) (t : RetryTotals)
      → (m.active ≡ false) ⊎ (cfg.ack_timeout_ms < sub_u32 call.millis m.sent_time)
      → (m.active ≡ false) ⊎ (rounds ≤ m.retry_count)
      → IsRetried cfg (rounds + 1) call.millis (retry_slot cfg call i m t).0
  unfolding retry_slot
  retries_slot rounds i m t due old = ground (arith, open_call.1 i)

  retries_all :
      (rounds i : ℕ) (prev : ℕ) (ms : List PendingMessage) (t : RetryTotals)
      → AllRetried cfg rounds prev ms
      → cfg.ack_timeout_ms < sub_u32 call.millis prev
      → AllRetried cfg (rounds + 1) call.millis (retry_slots cfg call i ms t).0
  unfolding retry_slots
  retries_all rounds i prev [] t v late = tt
  retries_all rounds i prev (m ∷ ms) t v late = (
    retries_slot rounds i m t (ground (arith, v.0)) (ground (arith, v.0)),
    retries_all rounds (i + 1) prev ms (retry_slot cfg call i m t).1 v.1 late,
  )

  retries_first :
      (i : ℕ) (ms : List PendingMessage) (t : RetryTotals)
      → AllDue cfg call.millis ms
      → AllRetried cfg 1 call.millis (retry_slots cfg call i ms t).0
  unfolding retry_slots
  retries_first i [] t v = tt
  retries_first i (m ∷ ms) t v = (
    retries_slot 0 i m t v.0 (inr (omega arith)),
    retries_first (i + 1) ms (retry_slot cfg call i m t).1 v.1,
  )

retried : RetryConfig → RetryCall → Handler → List PendingMessage
retried cfg call h =
    (retry_slots cfg call 0 h.pending
      (record { retry_count = h.retry_count; error_count = h.error_count; sent = h.sent })).0

process_retries-pending :
    (cfg : RetryConfig) (call : RetryCall) (h : Handler)
    → h.initialized ≡ true
    → h.has_ble ≡ true
    → call.connected ≡ true
    → let h' = process_retries cfg call h in
      (h'.pending ≡ retried cfg call h) × (h'.initialized ≡ true) × (h'.has_ble ≡ true)
unfolding process_retries retried
process_retries-pending cfg call h up ble linked = (ground arith, ground arith, ground arith)

module _ (cfg : RetryConfig) (small : cfg.max_retry_count < 255) where
  spent :
      (rounds t : ℕ) (ms : List PendingMessage)
      → cfg.max_retry_count < rounds
      → AllRetried cfg rounds t ms
      → waiting ms ≡ []
  spent rounds t [] over v = refl
  spent rounds t (m ∷ ms) over v = ground (arith, spent rounds t ms over v.1)

  later_rounds :
      (calls : List RetryCall) (rounds t : ℕ) (h : Handler)
      → h.initialized ≡ true
      → h.has_ble ≡ true
      → AllRetried cfg rounds t h.pending
      → AreSpaced cfg t calls
      → cfg.max_retry_count < rounds + length calls
      → waiting (run_retries cfg calls h).pending ≡ []
  unfolding run_retries retried
  later_rounds [] rounds t h up ble v s over = spent rounds t h.pending (omega (arith, over)) v
  later_rounds (call ∷ calls) rounds t h up ble v s over =
      let start : RetryTotals = record {
        retry_count = h.retry_count;
        error_count = h.error_count;
        sent = h.sent;
      } in
      let p = process_retries-pending cfg call h up ble s.0.0 in
      later_rounds calls (rounds + 1) call.millis (process_retries cfg call h) p.1 p.2
        (subst (AllRetried cfg (rounds + 1) call.millis) (sym p.0)
          (retries_all cfg small call s.0 rounds 0 t h.pending start v s.1))
        s.2 (omega (arith, over))

  -- With an initialized handler that has a BLE manager, and a MAX_RETRY_COUNT below 255, no message waits
  -- for ever while the app stays connected and the mutex is taken for every slot: once every message
  -- that waits has waited longer than the acknowledgement timeout, that round of `processRetries` and
  -- MAX_RETRY_COUNT or more further ones, each later than the timeout after the one before, leave none
  -- that waits.
  pub run_retries-gives_up :
      (first : RetryCall) (calls : List RetryCall) (h : Handler)
      → h.initialized ≡ true
      → h.has_ble ≡ true
      → IsOpen first
      → AllDue cfg first.millis h.pending
      → AreSpaced cfg first.millis calls
      → cfg.max_retry_count ≤ length calls
      → waiting (run_retries cfg (first ∷ calls) h).pending ≡ []
  unfolding run_retries retried
  run_retries-gives_up first calls h up ble open_first due s enough =
      let start : RetryTotals = record {
        retry_count = h.retry_count;
        error_count = h.error_count;
        sent = h.sent;
      } in
      let p = process_retries-pending cfg first h up ble open_first.0 in
      later_rounds calls 1 first.millis (process_retries cfg first h) p.1 p.2
        (subst (AllRetried cfg 1 first.millis) (sym p.0)
          (retries_first cfg small first open_first 0 h.pending start due))
        s (omega arith)
