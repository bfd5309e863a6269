-- ===== src/Protocol/Frame/Corruption.antt =====
-- A frame with one byte changed.
use native.Mathlib.Nat.{zero-add, suc-add}
use esp32_sensor_firmware_pl.Prelude.{
  ltb→lt, ltb, take-append, Bool-cases, get_or-append_right, ℕ, zero, suc, ◌+◌, ◌-◌, ◌*◌, ◌≤◌, ◌<◌,
  ◌≡◌, ◌≢◌, refl, sym, ap, ap₂, ◌∙◌, inl, inr, List, [], ◌∷◌, ◌++◌, none, some, length, set, take,
  length-append, byte_at, be16, AreBytes, Option-cases, arith,
}
use esp32_sensor_firmware_pl.Crc.{calculate_crc16}
use esp32_sensor_firmware_pl.Crc.Laws.{calculate_crc16-lt}
use esp32_sensor_firmware_pl.Crc.Detection.{calculate_crc16-set}
use esp32_sensor_firmware_pl.Protocol.Frame.{max_payload_size, frame_body, build_frame, parse_frame}
use esp32_sensor_firmware_pl.Protocol.Frame.RoundTrip.{framed, parse_frame-IsAccepted}

set-append_left : (xs ys : List ℕ) (i y : ℕ) → i < length xs → set (xs ++ ys) i y ≡ set xs i y ++ ys
set-append_left [] ys i y h = absurd (omega arith)
set-append_left (x ∷ xs) ys zero y h = refl
set-append_left (x ∷ xs) ys (suc i) y h = ap (λ l. x ∷ l) (set-append_left xs ys i y (omega arith))

set-append_right : (xs ys : List ℕ) (j y : ℕ) → set (xs ++ ys) (length xs + j) y ≡ xs ++ set ys j y
set-append_right [] ys j y = rw zero-add refl
set-append_right (x ∷ xs) ys j y = rw suc-add (ap (λ l. x ∷ l) (set-append_right xs ys j y))

byte_at-append_left : (xs ys : List ℕ) (i : ℕ) → i < length xs → byte_at (xs ++ ys) i ≡ byte_at xs i
byte_at-append_left [] ys i h = absurd (omega arith)
byte_at-append_left (x ∷ xs) ys zero h = refl
byte_at-append_left (x ∷ xs) ys (suc i) h = byte_at-append_left xs ys i (omega arith)

AreBytes-append : (xs ys : List ℕ) → AreBytes xs → AreBytes ys → AreBytes (xs ++ ys)
AreBytes-append [] ys v w = w
AreBytes-append (x ∷ xs) ys v w = (v.0, AreBytes-append xs ys v.1 w)

-- Nothing that ends in a wrong checksum is accepted.
unchecked :
    (body tail : List ℕ)
    → length tail ≡ 2
    → byte_at tail 0 * 256 + byte_at tail 1 ≢ calculate_crc16 body
    → parse_frame (body ++ tail) ≡ none
unchecked body tail two wrong = elim (Option-cases (parse_frame (body ++ tail))) [
  | inl e ↦ e
  | inr (r, e) ↦
      let acc = parse_frame-IsAccepted (body ++ tail) r.0 r.1 e in
      let n : length (body ++ tail) - 2 ≡ length body + 0 =
        omega (arith, length-append body tail, two) in
      let n' : length (body ++ tail) - 2 + 1 ≡ length body + 1 =
        omega (arith, length-append body tail, two) in
      let m : length (body ++ tail) - 2 ≡ length body =
        omega (arith, length-append body tail, two) in
      absurd (
        wrong (
          ap₂ (λ a b. a * 256 + b)
            (sym (ap (λ k. byte_at (body ++ tail) k) n ∙ get_or-append_right body tail 0 0))
            (sym (ap (λ k. byte_at (body ++ tail) k) n' ∙ get_or-append_right body tail 1 0))
          ∙ acc.checks
          ∙ ap calculate_crc16 (ap (λ k. take k (body ++ tail)) m ∙ take-append body tail)))
]

module _ (body : List ℕ) (v : AreBytes body) (y : ℕ) (hy : y < 256) where
  abbrev crc : ℕ
  crc = calculate_crc16 body

  in_body :
      (i : ℕ)
      → i < length body
      → y ≢ byte_at body i
      → parse_frame (set (body ++ be16 crc) i y) ≡ none
  in_body i h other =
      ap parse_frame (set-append_left body (be16 crc) i y h)
      ∙ unchecked (set body i y) (be16 crc) refl (λ e.
        calculate_crc16-set body i y v h hy other (sym e ∙ omega (arith, calculate_crc16-lt body)))

  in_crc :
      (j : ℕ)
      → j < 2
      → y ≢ byte_at (be16 crc) j
      → parse_frame (set (body ++ be16 crc) (length body + j) y) ≡ none
  in_crc zero h other =
      ap parse_frame (set-append_right body (be16 crc) 0 y)
      ∙ unchecked body (set (be16 crc) 0 y) refl
          (λ e. other (omega (arith, e, calculate_crc16-lt body)))
  in_crc (suc zero) h other =
      ap parse_frame (set-append_right body (be16 crc) 1 y)
      ∙ unchecked body (set (be16 crc) 1 y) refl
          (λ e. other (omega (arith, e, calculate_crc16-lt body)))
  in_crc (suc (suc j)) h other = absurd (omega arith)

  changed :
      (i : ℕ)
      → i < length body + 2
      → y ≢ byte_at (body ++ be16 crc) i
      → parse_frame (set (body ++ be16 crc) i y) ≡ none
  changed i h other = elim (Bool-cases (ltb i (length body))) [
    | inl p ↦
        let q : i < length body = ltb→lt i (length body) p in
        in_body i q (λ e. other (e ∙ sym (byte_at-append_left body (be16 crc) i q)))
    | inr p ↦
        let k : i ≡ length body + (i - length body) = ground arith in
        ap (λ (t : ℕ). parse_frame (set (body ++ be16 crc) t y)) k
        ∙ in_crc (i - length body) (ground arith) (λ e. other (
            e
            ∙ sym (get_or-append_right body (be16 crc) (i - length body) 0)
            ∙ ap (λ (t : ℕ). byte_at (body ++ be16 crc) t) (sym k)))
  ]

be16-AreBytes : (n : ℕ) → AreBytes (be16 n)
be16-AreBytes n = (omega arith, (omega arith, tt))

-- Whatever byte of a frame arrives changed, in the header, the payload or the checksum: the frame is
-- not accepted.
pub parse-set :
    (type : ℕ) (payload : List ℕ) (seq_num : ℕ) (frame : List ℕ) (i y : ℕ)
    → type < 256
    → AreBytes payload
    → length payload ≤ max_payload_size
    → build_frame type payload seq_num ≡ some frame
    → i < length frame
    → y < 256
    → y ≢ byte_at frame i
    → parse_frame (set frame i y) ≡ none
parse-set type payload seq_num frame i y ht hp small built hi hy other =
    let body = frame_body type payload seq_num in
    let whole : frame ≡ body ++ be16 (calculate_crc16 body) =
      (let made = framed type payload seq_num small in cc) in
    let v : AreBytes body = (
      omega arith,
      (
        ht,
        (
          omega arith,
          AreBytes-append (be16 seq_num) (be16 (length payload) ++ payload) (be16-AreBytes seq_num)
              (AreBytes-append (be16 (length payload)) payload (be16-AreBytes (length payload)) hp),
        ),
      ),
    ) in
    ap (λ l. parse_frame (set l i y)) whole
    ∙ changed body v y hy i
        (omega (arith, hi, ap length whole, length-append body (be16 (calculate_crc16 body))))
        (λ e. other (e ∙ ap (λ l. byte_at l i) (sym whole)))
