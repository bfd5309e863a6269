-- ===== src/Protocol/Frame/RoundTrip.antt =====
-- A frame that is built is parsed back, and only such frames are accepted.
use native.Mathlib.Nat.{suc-add}
use esp32_sensor_firmware_pl.Prelude.{
  zero, length-drop, length-take, suc, drop, sym, [], ◌∷◌, AreBytes, ℕ, ◌+◌, ◌-◌, ◌*◌, ◌≤◌, ◌<◌,
  ◌≡◌, ap, ap₂, ◌∙◌, List, ◌++◌, some, length, take, length-append, get_or-append_right,
  take-append, byte_at, be16, read_be16, arith,
}
use esp32_sensor_firmware_pl.Crc.{calculate_crc16}
use esp32_sensor_firmware_pl.Crc.Laws.{calculate_crc16-lt}
use esp32_sensor_firmware_pl.Protocol.Frame.{
  read_header, crc_size, header_size, MessageHeader, sof, protocol_version, max_payload_size,
  frame_body, build_frame, parse_frame,
}

pub read_be16-last :
    (body : List ℕ) (v : ℕ)
    → v < 65536
    → let bytes = body ++ be16 v in read_be16 bytes (length bytes - 2) ≡ v
read_be16-last body v h =
    let n : length (body ++ be16 v) - 2 ≡ length body + 0 =
      omega (arith, length-append body (be16 v)) in
    let m : length (body ++ be16 v) - 2 + 1 ≡ length body + 1 =
      omega (arith, length-append body (be16 v)) in
    ap₂ (λ a b. a * 256 + b)
      (ap (λ k. byte_at (body ++ be16 v) k) n ∙ get_or-append_right body (be16 v) 0 0)
      (ap (λ k. byte_at (body ++ be16 v) k) m ∙ get_or-append_right body (be16 v) 1 0)
    ∙ omega arith

pub take_body :
    (body : List ℕ) (v : ℕ) → let bytes = body ++ be16 v in take (length bytes - 2) bytes ≡ body
take_body body v =
    let n : length (body ++ be16 v) - 2 ≡ length body =
      omega (arith, length-append body (be16 v)) in
    ap (λ k. take k (body ++ be16 v)) n ∙ take-append body (be16 v)

-- A frame is built for a payload of at most 500 bytes, and parsing it gives back the type, the
-- sequence number and the payload.
pub parse-build :
    (type : ℕ) (payload : List ℕ) (seq_num : ℕ)
    → length payload ≤ max_payload_size
    → type < 256
    → seq_num < 65536
    → (frame : List ℕ) × (build_frame type payload seq_num ≡ some frame)
      × (parse_frame frame
          ≡ some (
            record {
              sof_byte = sof;
              msg_type = type;
              version = protocol_version;
              seq_num = seq_num;
              payload_length = length payload;
            },
            payload,
          ))
unfolding build_frame parse_frame
parse-build type payload seq_num h ht hs =
    let body = frame_body type payload seq_num in
    let crc = calculate_crc16 body in
    let read = read_be16-last body crc (calculate_crc16-lt body) in
    let under = take_body body crc in
    let all = take-append payload (be16 crc) in
    (
      body ++ be16 crc,
      ground arith,
      ground (arith, read, under, all, length-append payload (be16 crc)),
    )

be16-read : (a b : ℕ) → a < 256 → b < 256 → be16 (a * 256 + b) ≡ a ∷ b ∷ []
be16-read a b h k = ap₂ (λ x y. x ∷ y ∷ []) (omega arith) (omega arith)

-- A list that ends in two bytes.
last_two :
    (n : ℕ) (bytes : List ℕ)
    → AreBytes bytes
    → length bytes ≡ n + 2
    → bytes ≡ take n bytes ++ be16 (read_be16 bytes n)
last_two n [] v h = absurd (omega arith)
last_two n (a ∷ []) v h = absurd (omega arith)
last_two zero (a ∷ b ∷ []) v h = ground (arith, be16-read a b v.0 v.1.0)
last_two zero (a ∷ b ∷ c ∷ rest) v h = absurd (omega arith)
last_two (suc n) (a ∷ b ∷ rest) v h =
    rw (suc-add n 1) (ap (λ l. a ∷ l) (last_two n (b ∷ rest) v.1 (omega arith)))

-- What `parseFrame` has checked of the bytes that it accepts.
pub record IsAccepted (bytes : List ℕ) (h : MessageHeader) (payload : List ℕ) : Type 0 where
  pub starts : byte_at bytes 0 ≡ sof
  pub version : byte_at bytes 2 ≡ protocol_version
  pub in_range : h.payload_length ≤ max_payload_size
  pub size : length bytes ≡ header_size + h.payload_length + crc_size
  pub checks :
      read_be16 bytes (length bytes - 2) ≡ calculate_crc16 (take (length bytes - crc_size) bytes)
  pub header : h ≡ read_header bytes
  pub rest : payload ≡ take h.payload_length (drop header_size bytes)

pub parse_frame-IsAccepted :
    (bytes : List ℕ) (h : MessageHeader) (payload : List ℕ)
    → parse_frame bytes ≡ some (h, payload)
    → IsAccepted bytes h payload
unfolding parse_frame
parse_frame-IsAccepted bytes h payload e = ground arith

take_seven :
    (a b c d e f g m : ℕ) (rest : List ℕ)
    → take (7 + m) (a ∷ b ∷ c ∷ d ∷ e ∷ f ∷ g ∷ rest) ≡ a ∷ b ∷ c ∷ d ∷ e ∷ f ∷ g ∷ take m rest
take_seven a b c d e f g m rest =
    let n : 7 + m ≡ suc (suc (suc (suc (suc (suc (suc m)))))) = omega arith in rw n

-- The first seven bytes of a frame are its header.
header_first :
    (bytes : List ℕ)
    → AreBytes bytes
    → 9 ≤ length bytes
    → byte_at bytes 0 ≡ sof
    → byte_at bytes 2 ≡ protocol_version
    → take (header_size + read_be16 bytes 5) bytes
      ≡ (sof ∷ byte_at bytes 1 ∷ protocol_version ∷ be16 (read_be16 bytes 3))
        ++ be16 (read_be16 bytes 5)
        ++ take (read_be16 bytes 5) (drop header_size bytes)
header_first (a ∷ b ∷ c ∷ d ∷ e ∷ f ∷ g ∷ rest) v long p q =
    take_seven a b c d e f g (f * 256 + g) rest
    ∙ ground
        (arith, be16-read d e v.1.1.1.0 v.1.1.1.1.0, be16-read f g v.1.1.1.1.1.0 v.1.1.1.1.1.1.0)
header_first [] v long p q = absurd (omega arith)
header_first (a ∷ []) v long p q = absurd (omega arith)
header_first (a ∷ b ∷ []) v long p q = absurd (omega arith)
header_first (a ∷ b ∷ c ∷ []) v long p q = absurd (omega arith)
header_first (a ∷ b ∷ c ∷ d ∷ []) v long p q = absurd (omega arith)
header_first (a ∷ b ∷ c ∷ d ∷ e ∷ []) v long p q = absurd (omega arith)
header_first (a ∷ b ∷ c ∷ d ∷ e ∷ f ∷ []) v long p q = absurd (omega arith)

pub framed :
    (type : ℕ) (payload : List ℕ) (seq_num : ℕ)
    → length payload ≤ max_payload_size
    → build_frame type payload seq_num
      ≡ some (
          frame_body type payload seq_num
          ++ be16 (calculate_crc16 (frame_body type payload seq_num)))
unfolding build_frame
framed type payload seq_num h = ground arith

-- A frame that is accepted, of bytes, is the one that `buildFrame` makes of its type, sequence number
-- and payload, which has at most 500 bytes.
pub build-parse :
    (bytes : List ℕ) (h : MessageHeader) (payload : List ℕ)
    → AreBytes bytes
    → parse_frame bytes ≡ some (h, payload)
    → (length payload ≤ max_payload_size) × (build_frame h.msg_type payload h.seq_num ≡ some bytes)
build-parse bytes h payload v e =
    let acc = parse_frame-IsAccepted bytes h payload e in
    let n = read_be16 bytes 5 in
    let len : h.payload_length ≡ n = ap (λ (x : MessageHeader). x.payload_length) acc.header in
    let size : length payload ≡ n =
      ap length acc.rest
      ∙ ap (λ k. length (take k (drop header_size bytes))) len
      ∙ length-take n (drop header_size bytes)
          (omega (arith, length-drop header_size bytes, acc.size, len)) in
    let end : length bytes - 2 ≡ header_size + n = omega (arith, acc.size, len) in
    let body : take (header_size + n) bytes ≡ frame_body h.msg_type payload h.seq_num =
      header_first bytes v (omega (arith, acc.size)) acc.starts acc.version
      ∙ ground (arith, size, acc) in
    let crc : read_be16 bytes (header_size + n) ≡ calculate_crc16 (take (header_size + n) bytes) =
      ap (read_be16 bytes) (sym end) ∙ acc.checks ∙ ap (λ k. calculate_crc16 (take k bytes)) end in
    let whole : bytes ≡ take (header_size + n) bytes ++ be16 (read_be16 bytes (header_size + n)) =
      last_two (header_size + n) bytes v (omega (arith, acc.size, len)) in
    let small : length payload ≤ max_payload_size = omega (arith, size, acc.in_range, len) in
    (
      small,
      framed h.msg_type payload h.seq_num small
          ∙ ap some (
              ap (λ l. l ++ be16 (calculate_crc16 l)) (sym body)
              ∙ ap (λ k. take (header_size + n) bytes ++ be16 k) (sym crc)
              ∙ sym whole),
    )
