-- ===== src/History/Queries.antt =====
-- What the readers of the ring return, in terms of the list of events that the ring holds.
use esp32_sensor_firmware_pl.Prelude.{
  ℕ, zero, suc, ◌+◌, ◌-◌, ◌≤◌, ◌<◌, ◌≡◌, refl, sym, ap, ◌∙◌, Bool, true, false, not, ◌++◌, List, [],
  ◌∷◌, none, some, ltb, length, take, select, find_first, arith, u16, Bool-cases, inl, inr, ltb→lt,
  append-nil, append_assoc, length-append,
}
use esp32_sensor_firmware_pl.Platform.{Call}
use esp32_sensor_firmware_pl.Event.{DetectionEvent, is_synced, was_overflow}
use esp32_sensor_firmware_pl.History.State.{Config, RtcState, Service, event_count}
use esp32_sensor_firmware_pl.History.Readers.{
  always, room, first_unsynced, collect, any_with, count_unsynced, over_ring, get_next_unsynced,
  get_unsynced_events, get_events_since, has_pending_data, get_pending_count, has_overflowed,
  answer, get_stored_count,
}
use esp32_sensor_firmware_pl.History.Window.{
  contents, InBounds, length-window, event_count-closes, each, over_ring-each,
}

abbrev pub unsynced : DetectionEvent → Bool
unsynced e = not (is_synced e)

-- A service that a method can work on: initialized, its mutex there and taken in time.
pub record IsReady (cfg : Config) (s : Service) (call : Call) : Type 0 where
  pub initialized : s.initialized ≡ true
  pub has_mutex : s.has_mutex ≡ true
  pub mutex_taken : call.mutex_taken ≡ true
  pub in_bounds : InBounds cfg s.state

each-first_unsynced :
    (es : List DetectionEvent) → each always first_unsynced es none ≡ find_first unsynced es
each-first_unsynced [] = refl
each-first_unsynced (e ∷ es) = ground (arith, each-first_unsynced es)

take-cons :
    (n : ℕ) (x : DetectionEvent) (xs : List DetectionEvent)
    → 0 < n
    → take n (x ∷ xs) ≡ x ∷ take (n - 1) xs
take-cons zero x xs h = absurd (omega arith)
take-cons (suc n) x xs h = ap (λ k. x ∷ take k xs) (omega arith)

each-collect-full :
    (p : DetectionEvent → Bool) (m : ℕ) (es out : List DetectionEvent)
    → m ≤ length out
    → each (room m) (collect p) es out ≡ out
each-collect-full p m [] out h = refl
each-collect-full p m (e ∷ es) out h = ground arith

take-nil : (n : ℕ) → take {A = DetectionEvent} n [] ≡ []
take-nil zero = refl
take-nil (suc n) = refl

snoc-fits :
    (e : DetectionEvent) (out : List DetectionEvent) (m : ℕ)
    → length out < m
    → length (out ++ (e ∷ [])) ≤ m
snoc-fits e out m h = omega (arith, length-append out (e ∷ []))

each-collect :
    (p : DetectionEvent → Bool) (m : ℕ) (es out : List DetectionEvent)
    → length out ≤ m
    → each (room m) (collect p) es out ≡ out ++ take (m - length out) (select p es)
each-collect p m [] out h = rw (take-nil (m - length out), append-nil)
each-collect p m (e ∷ es) out h = elim (Bool-cases (ltb (length out) m)) [
  | inl more ↦ elim (Bool-cases (p e)) [
    | inl keep ↦
        rw (more, keep)
          (each-collect p m es (out ++ (e ∷ [])) (snoc-fits e out m (ltb→lt _ _ more))
            ∙ append_assoc out (e ∷ []) _
            ∙ ap (λ l. out ++ l) (rest more))
    | inr pass ↦ rw (more, pass) (each-collect p m es out h)
  ]
  | inr full ↦ rw full (sym (rw (shut full) (append-nil out)))
]
  where
    rest :
        ltb (length out) m ≡ true
        → (e ∷ []) ++ take (m - length (out ++ (e ∷ []))) (select p es)
          ≡ take (m - length out) (e ∷ select p es)
    rest more =
        ap (λ k. e ∷ take k (select p es)) (omega (arith, length-append out (e ∷ [])))
        ∙ sym (take-cons (m - length out) e (select p es) (ground arith))

    shut : ltb (length out) m ≡ false → m - length out ≡ 0
    shut full = ground arith

each-collect_all :
    (p : DetectionEvent → Bool) (m : ℕ) (es : List DetectionEvent)
    → each (room m) (collect p) es [] ≡ take m (select p es)
each-collect_all p m es =
    each-collect p m es [] (omega arith) ∙ ap (λ k. take k (select p es)) (omega arith)

each-any_with :
    (p : DetectionEvent → Bool) (es : List DetectionEvent)
    → each always (any_with p) es false ≡ ltb 0 (length (select p es))
each-any_with p [] = refl
each-any_with p (e ∷ es) = ground (arith, each-any_with p es)

each-count_unsynced :
    (es : List DetectionEvent) (n : ℕ)
    → n + length es < 65536
    → each always count_unsynced es n ≡ n + length (select unsynced es)
each-count_unsynced [] n h = omega arith
each-count_unsynced (e ∷ es) n h = ground (
  arith,
  each-count_unsynced es n (omega arith),
  each-count_unsynced es (u16 (n + 1)) (omega arith),
)

length-contents : (cfg : Config) (st : RtcState) → length (contents cfg st) ≡ event_count cfg st
length-contents cfg st = length-window st.buffer cfg.buffer_size st.tail (event_count cfg st)

module _ (cfg : Config) (s : Service) (call : Call) (ready : IsReady cfg s call) where
  open ready use {in_bounds}

  -- `getNextUnsynced` ends, and writes the oldest event of the ring that is not synced; it returns
  -- false exactly when there is none.
  pub get_next_unsynced_lem :
      get_next_unsynced cfg s call ≡ some (find_first unsynced (contents cfg s.state))
  unfolding get_next_unsynced
  get_next_unsynced_lem = ground (
    arith,
    ready,
    over_ring-each cfg s.state always first_unsynced none in_bounds,
    each-first_unsynced (contents cfg s.state),
  )

  -- On a service that is initialized, whose indices are in bounds and whose mutex is taken,
  -- `getUnsyncedEvents` and `getEventsSince` end and return true, with the first `max_count` events
  -- that are not synced, or that are newer than `since_id`, oldest first.
  pub get_events_lem :
      (max_count since_id : ℕ)
      → (get_unsynced_events cfg s call max_count
          ≡ some (true, take max_count (select unsynced (contents cfg s.state))))
        × (get_events_since cfg s call since_id max_count
            ≡ some (true, take max_count (select (λ e. ltb since_id e.id) (contents cfg s.state))))
  unfolding get_unsynced_events get_events_since
  get_events_lem max_count since_id = (
    rw (ready.initialized, ready.has_mutex, ready.mutex_taken) (batch unsynced),
    rw (ready.initialized, ready.has_mutex, ready.mutex_taken) (batch (λ e. ltb since_id e.id)),
  )
    where
      batch :
          (p : DetectionEvent → Bool)
          → answer (over_ring cfg (room max_count) (collect p) s.state [])
            ≡ some (true, take max_count (select p (contents cfg s.state)))
      batch p =
          ap answer (over_ring-each cfg s.state (room max_count) (collect p) [] in_bounds)
          ∙ ap (λ out. some (true, out)) (each-collect_all p max_count (contents cfg s.state))

  -- `getPendingCount` ends with the number of events in the ring that are not synced, and
  -- `hasPendingData` tells whether that number is positive.
  pub pending_lem :
      cfg.buffer_size ≤ 65536
      → (get_pending_count cfg s call ≡ some (length (select unsynced (contents cfg s.state))))
        × (has_pending_data cfg s call
            ≡ some (ltb 0 (length (select unsynced (contents cfg s.state)))))
  unfolding get_pending_count has_pending_data
  pending_lem small = (
    rw (ready.initialized, ready.has_mutex, ready.mutex_taken)
        (over_ring-each cfg s.state always count_unsynced 0 in_bounds
          ∙ ap some (
              each-count_unsynced (contents cfg s.state) 0 (
                omega
                  (arith, length-contents cfg s.state, event_count-closes cfg s.state in_bounds))
              ∙ omega arith)),
    rw (ready.initialized, ready.has_mutex, ready.mutex_taken)
        (over_ring-each cfg s.state always (any_with unsynced) false in_bounds
          ∙ ap some (each-any_with unsynced (contents cfg s.state))),
  )

  -- `hasOverflowed` tells whether an event in the ring is marked as one that pushed another out, and
  -- `getStoredCount` is the number of events in the ring, below its size.
  pub stored_lem :
      (has_overflowed cfg s call
        ≡ some (ltb 0 (length (select was_overflow (contents cfg s.state)))))
      × (get_stored_count cfg s ≡ length (contents cfg s.state))
      × (get_stored_count cfg s < cfg.buffer_size)
  unfolding has_overflowed get_stored_count
  stored_lem = (
    rw (ready.has_mutex, ready.mutex_taken)
        (over_ring-each cfg s.state always (any_with was_overflow) false in_bounds
          ∙ ap some (each-any_with was_overflow (contents cfg s.state))),
    sym (length-contents cfg s.state),
    (event_count-closes cfg s.state in_bounds).1,
  )
