-- ===== src/Ota/Session.antt =====
-- A whole update: a start, any chunks, a commit.
use esp32_sensor_firmware_pl.Prelude.{
  ℕ, ◌+◌, ◌^◌, ◌<◌, ◌≡◌, refl, sym, ap, ◌∙◌, ◌++◌, Bool, true, false, List, [], ◌∷◌, map, length,
  length-append, append_assoc, append-nil, map-append, u16, u32, if◌then◌else◌, arith, Bool-cases,
  inl, inr,
}
use esp32_sensor_firmware_pl.Crc.{calculate_crc32, complement_u32}
use esp32_sensor_firmware_pl.Crc.Laws.{
  flatten_chunks-append, update_chunks-append, flatten_chunks, update_chunks, update_crc32-flatten,
}
use esp32_sensor_firmware_pl.Ota.State.{
  receiving, rebooting, OtaConfig, begin, write, finish, restart, Manager, send_status,
  send_chunk_ack, read_start,
}
use esp32_sensor_firmware_pl.Ota.Handlers.{
  StartCall, Chunk, begin_receiving, take_over, start_in, handle_start, handle_data, handle_commit,
}

-- The chunks in the order of their arrival; with the manager, the payloads of those that
-- `handleData` returns true for.
unfoldable pub feed : Manager → List Chunk → Manager × List (List ℕ)
feed m [] = (m, [])
feed m (c ∷ cs) =
    let (m', ok) = handle_data m c in
    let (m'', chunks) = feed m' cs in (m'', if ok then c.payload ∷ chunks else chunks)

-- The announced image does not change while chunks arrive.
record Receiving (m m' : Manager) (chunks : List (List ℕ)) : Type 0 where
  now : m'.state ≡ receiving
  crc : m'.running_crc ≡ update_chunks m.running_crc chunks
  size : m'.received_size ≡ u32 (m.received_size + length (flatten_chunks chunks))
  count : m'.received_chunks ≡ u16 (m.received_chunks + length chunks)
  flashed : m'.flash ≡ m.flash ++ map write chunks
  same_size : m'.expected_size ≡ m.expected_size
  same_crc : m'.expected_crc ≡ m.expected_crc

Receiving-refl :
    (m : Manager)
    → m.state ≡ receiving
    → m.received_size < 2 ^ 32
    → m.received_chunks < 2 ^ 16
    → Receiving m m []
unfolding flatten_chunks update_chunks
Receiving-refl m r h k = record {
  now = r;
  crc = refl;
  size = omega arith;
  count = omega arith;
  flashed = sym (append-nil m.flash);
  same_size = refl;
  same_crc = refl;
}

-- A refused chunk leaves what is received alone.
handle_data-refused :
    (m : Manager) (c : Chunk)
    → m.state ≡ receiving
    → (handle_data m c).1 ≡ false
    → m.received_size < 2 ^ 32
    → m.received_chunks < 2 ^ 16
    → Receiving m (handle_data m c).0 []
unfolding handle_data send_chunk_ack flatten_chunks update_chunks
handle_data-refused m c r no_take h k = ground (arith, append-nil m.flash)

handle_data-taken :
    (m : Manager) (c : Chunk)
    → m.state ≡ receiving
    → (handle_data m c).1 ≡ true
    → Receiving m (handle_data m c).0 (c.payload ∷ [])
unfolding handle_data send_chunk_ack flatten_chunks update_chunks
handle_data-taken m c r ok = ground (arith, append-nil c.payload)

Receiving-trans :
    (a b c : Manager) (xs ys : List (List ℕ))
    → Receiving a b xs
    → Receiving b c ys
    → Receiving a c (xs ++ ys)
Receiving-trans a b c xs ys f g = record {
  now = g.now;
  crc = g.crc ∙ ap (λ k. update_chunks k ys) f.crc ∙ sym (update_chunks-append a.running_crc xs ys);
  size = omega (
    arith,
    f.size,
    g.size,
    length-append (flatten_chunks xs) (flatten_chunks ys),
    ap length (flatten_chunks-append xs ys),
  );
  count = omega (arith, f.count, g.count, length-append xs ys);
  flashed =
      g.flashed
      ∙ ap (λ l. l ++ map write ys) f.flashed
      ∙ append_assoc a.flash (map write xs) (map write ys)
      ∙ ap (λ l. a.flash ++ l) (sym (map-append write xs ys));
  same_size = g.same_size ∙ f.same_size;
  same_crc = g.same_crc ∙ f.same_crc;
}

feed-Receiving :
    (m : Manager) (cs : List Chunk)
    → m.state ≡ receiving
    → m.received_size < 2 ^ 32
    → m.received_chunks < 2 ^ 16
    → Receiving m (feed m cs).0 (feed m cs).1
unfolding feed
feed-Receiving m [] r h k = Receiving-refl m r h k
feed-Receiving m (c ∷ cs) r h k =
    let m' = (handle_data m c).0 in
    elim (Bool-cases (handle_data m c).1) [
      | inl ok ↦
          let one = handle_data-taken m c r ok in
          rw ok (
            Receiving-trans m m' (feed m' cs).0 (c.payload ∷ []) (feed m' cs).1 one
              (feed-Receiving m' cs one.now (omega (arith, one.size)) (omega (arith, one.count))))
      | inr no_take ↦
          let one = handle_data-refused m c r no_take h k in
          rw no_take (
            Receiving-trans m m' (feed m' cs).0 [] (feed m' cs).1 one
              (feed-Receiving m' cs one.now (omega (arith, one.size)) (omega (arith, one.count))))
    ]

-- A start that succeeds has erased the counters and announced the payload's image.
record Started (m m1 : Manager) (payload : List ℕ) : Type 0 where
  now : m1.state ≡ receiving
  crc : m1.running_crc ≡ 0xFFFFFFFF
  size : m1.received_size ≡ 0
  count : m1.received_chunks ≡ 0
  flashed : m1.flash ≡ m.flash ++ begin (read_start payload).total_size ∷ []
  announced_size : m1.expected_size ≡ (read_start payload).total_size
  announced_crc : m1.expected_crc ≡ (read_start payload).expected_crc

start_in-Started :
    (m : Manager) (call : StartCall) (size : ℕ) (payload : List ℕ)
    → (start_in (take_over m payload) call size).1 ≡ true
    → Started m (start_in (take_over m payload) call size).0 payload
unfolding start_in take_over begin_receiving send_status
start_in-Started m call size payload ok = ground arith

handle_start-Started :
    (cfg : OtaConfig) (m : Manager) (call : StartCall) (payload : List ℕ)
    → (handle_start cfg m call payload).1 ≡ true
    → Started m (handle_start cfg m call payload).0 payload
unfolding handle_start
handle_start-Started cfg m call payload ok = ground arith

handle_commit-accepts :
    (m : Manager) (ends : Bool)
    → (handle_commit m ends).1 ≡ true
    → (complement_u32 m.running_crc ≡ m.expected_crc)
      × (m.received_size ≡ m.expected_size)
      × ((handle_commit m ends).0.state ≡ rebooting)
      × ((handle_commit m ends).0.flash ≡ m.flash ++ finish ∷ restart ∷ [])
unfolding handle_commit send_status
handle_commit-accepts m ends ok = ground arith

-- An update that is started, fed any chunks and committed with success has made these flash calls: a
-- begin with the announced size, a write of each chunk accepted, in order, and the end, after which the
-- device restarts. The size (modulo 2^32) and the CRC-32 of what was written are those announced.
pub commit-image :
    (cfg : OtaConfig) (m : Manager) (call : StartCall) (payload : List ℕ) (cs : List Chunk)
    (ends : Bool)
    → (handle_start cfg m call payload).1 ≡ true
    → (handle_commit (feed (handle_start cfg m call payload).0 cs).0 ends).1 ≡ true
    → let (m2, chunks) = feed (handle_start cfg m call payload).0 cs in
      let announced = read_start payload in
      (calculate_crc32 (flatten_chunks chunks) ≡ announced.expected_crc)
      × (u32 (length (flatten_chunks chunks)) ≡ announced.total_size)
      × ((handle_commit m2 ends).0.flash
          ≡ m.flash ++ begin announced.total_size ∷ map write chunks ++ finish ∷ restart ∷ [])
unfolding calculate_crc32
commit-image cfg m call payload cs ends started committed =
    let m1 = (handle_start cfg m call payload).0 in
    let m2 = (feed m1 cs).0 in
    let chunks = (feed m1 cs).1 in
    let s = handle_start-Started cfg m call payload started in
    let r = feed-Receiving m1 cs s.now (omega (arith, s.size)) (omega (arith, s.count)) in
    let c = handle_commit-accepts m2 ends committed in
    (
      ap complement_u32 (
            sym (
              r.crc
              ∙ ap (λ k. update_chunks k chunks) s.crc
              ∙ update_crc32-flatten 0xFFFFFFFF chunks))
          ∙ c.0
          ∙ r.same_crc
          ∙ s.announced_crc,
      omega (arith, r.size, s.size, c.1, r.same_size, s.announced_size),
      c.3
          ∙ ap (λ l. l ++ finish ∷ restart ∷ [])
              (r.flashed
                ∙ ap (λ l. l ++ map write chunks) s.flashed
                ∙ append_assoc m.flash (begin (read_start payload).total_size ∷ [])
                    (map write chunks)),
    )
