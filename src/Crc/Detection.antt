-- ===== src/Crc/Detection.antt =====
-- The CRC-16 tells apart any two messages that differ in one byte.
use Prim.Native.Nat.{bit_xor}
use esp32_sensor_firmware_pl.Prelude.{
  AreBytes, ℕ, zero, suc, ◌*◌, ◌%◌, ◌<◌, ◌≡◌, ◌≢◌, refl, sym, ap, ◌∙◌, inl, inr, true, false, List,
  [], ◌∷◌, length, set, byte_at, has_bit, u16, Bool-cases, arith,
}
use esp32_sensor_firmware_pl.Prelude.Xor.{
  bit_xor_half, bit_xor_comm, bit_xor-cancel_right, bit_xor-lt,
}
use esp32_sensor_firmware_pl.Crc.{crc16_bit, crc16_bits, crc16_byte, crc16_from, calculate_crc16}
use esp32_sensor_firmware_pl.Crc.Laws.{crc16_bit-lt, crc16_byte-lt}

xor_right_injective : (a b c : ℕ) → bit_xor a c ≡ bit_xor b c → a ≡ b
xor_right_injective a b c e =
    sym (bit_xor-cancel_right a c) ∙ ap (λ t. bit_xor t c) e ∙ bit_xor-cancel_right b c

xor_left_injective : (c a b : ℕ) → bit_xor c a ≡ bit_xor c b → a ≡ b
xor_left_injective c a b e = xor_right_injective a b c (bit_xor_comm a c ∙ e ∙ bit_xor_comm c b)

-- The polynomial is odd, and what is shifted is even.
odd_after : (t : ℕ) → t % 2 ≡ 0 → bit_xor t 0x1021 % 2 ≡ 1
odd_after t h = (bit_xor_half t 0x1021).1 ∙ rw h refl

crc16_bit_high : (c : ℕ) → has_bit 15 c ≡ true → crc16_bit c ≡ bit_xor (u16 (c * 2)) 0x1021
unfolding crc16_bit
crc16_bit_high c h =
    let small : bit_xor (u16 (c * 2)) 0x1021 < 65536 =
      bit_xor-lt 16 (u16 (c * 2)) 0x1021 (omega arith) (omega arith) in
    rw h (omega (arith, small))

crc16_bit_low : (c : ℕ) → has_bit 15 c ≡ false → crc16_bit c ≡ u16 (c * 2)
unfolding crc16_bit
crc16_bit_low c h = rw h refl

crc16_bit_injective : (a b : ℕ) → a < 65536 → b < 65536 → crc16_bit a ≡ crc16_bit b → a ≡ b
crc16_bit_injective a b ha hb e = elim (Bool-cases (has_bit 15 a)) [
  | inl p ↦ elim (Bool-cases (has_bit 15 b)) [
    | inl q ↦
        let same =
          xor_right_injective (u16 (a * 2)) (u16 (b * 2)) 0x1021
            (sym (crc16_bit_high a p) ∙ e ∙ crc16_bit_high b q) in
        ground arith
    | inr q ↦ absurd (
        omega
          (arith, odd_after (u16 (a * 2)) (omega arith), e, crc16_bit_high a p, crc16_bit_low b q))
  ]
  | inr p ↦ elim (Bool-cases (has_bit 15 b)) [
    | inl q ↦ absurd (
        omega
          (arith, odd_after (u16 (b * 2)) (omega arith), e, crc16_bit_low a p, crc16_bit_high b q))
    | inr q ↦ ground (arith, e, crc16_bit_low a p, crc16_bit_low b q)
  ]
]

crc16_bits_injective : (j a b : ℕ) → a < 65536 → b < 65536 → crc16_bits j a ≡ crc16_bits j b → a ≡ b
unfolding crc16_bits
crc16_bits_injective zero a b ha hb e = e
crc16_bits_injective (suc j) a b ha hb e =
    crc16_bit_injective a b ha hb
      (crc16_bits_injective j (crc16_bit a) (crc16_bit b) (crc16_bit-lt a) (crc16_bit-lt b) e)

xor_word : (c b : ℕ) → c < 65536 → u16 (bit_xor c (u16 (b * 256))) ≡ bit_xor c (u16 (b * 256))
xor_word c b h = omega (arith, bit_xor-lt 16 c (u16 (b * 256)) (omega arith) (omega arith))

xored_injective :
    (a b x y : ℕ)
    → a < 65536
    → b < 65536
    → crc16_byte a x ≡ crc16_byte b y
    → bit_xor a (u16 (x * 256)) ≡ bit_xor b (u16 (y * 256))
unfolding crc16_byte
xored_injective a b x y ha hb e =
    sym (xor_word a x ha)
    ∙ crc16_bits_injective 8 (u16 (bit_xor a (u16 (x * 256)))) (u16 (bit_xor b (u16 (y * 256))))
        (omega arith) (omega arith) e
    ∙ xor_word b y hb

crc16_byte-crc_injective :
    (a b x : ℕ) → a < 65536 → b < 65536 → crc16_byte a x ≡ crc16_byte b x → a ≡ b
crc16_byte-crc_injective a b x ha hb e =
    xor_right_injective a b (u16 (x * 256)) (xored_injective a b x x ha hb e)

crc16_byte_injective :
    (c x y : ℕ) → c < 65536 → x < 256 → y < 256 → crc16_byte c x ≡ crc16_byte c y → x ≡ y
crc16_byte_injective c x y hc hx hy e =
    omega (
      arith,
      xor_left_injective c (u16 (x * 256)) (u16 (y * 256)) (xored_injective c c x y hc hc e),
    )

crc16_from_injective :
    (bytes : List ℕ) (a b : ℕ)
    → a < 65536
    → b < 65536
    → crc16_from a bytes ≡ crc16_from b bytes
    → a ≡ b
unfolding crc16_from
crc16_from_injective [] a b ha hb e = e
crc16_from_injective (x ∷ xs) a b ha hb e = crc16_byte-crc_injective a b x ha hb (
    crc16_from_injective xs (crc16_byte a x) (crc16_byte b x) (crc16_byte-lt a x)
      (crc16_byte-lt b x) e)

crc16_from-set :
    (bytes : List ℕ) (i y c : ℕ)
    → AreBytes bytes
    → c < 65536
    → i < length bytes
    → y < 256
    → crc16_from c (set bytes i y) ≡ crc16_from c bytes
    → y ≡ byte_at bytes i
unfolding crc16_from
crc16_from-set [] i y c v hc hi hy e = absurd (omega arith)
crc16_from-set (x ∷ xs) zero y c v hc hi hy e = crc16_byte_injective c y x hc hy v.0 (
    crc16_from_injective xs (crc16_byte c y) (crc16_byte c x) (crc16_byte-lt c y)
      (crc16_byte-lt c x) e)
crc16_from-set (x ∷ xs) (suc i) y c v hc hi hy e =
    crc16_from-set xs i y (crc16_byte c x) v.1 (crc16_byte-lt c x) (omega arith) hy e

-- Bytes with one of them changed have another CRC-16.
pub calculate_crc16-set :
    (bytes : List ℕ) (i y : ℕ)
    → AreBytes bytes
    → i < length bytes
    → y < 256
    → y ≢ byte_at bytes i
    → calculate_crc16 (set bytes i y) ≢ calculate_crc16 bytes
unfolding calculate_crc16
calculate_crc16-set bytes i y v hi hy other e =
    other (crc16_from-set bytes i y 0xFFFF v (omega arith) hi hy e)
