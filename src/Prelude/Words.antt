-- ===== src/Prelude/Words.antt =====
-- Machine words as native numbers: wrap-around written out, and single bits of a flag byte.
use Prim.Native.Nat.{ℕ, zero, suc, ◌+◌, ◌*◌, ◌<◌, ◌-◌, ◌/◌, ◌%◌, ◌^◌, bit_or}
use mathlib.Core.Path.{◌≡◌, refl}
use mathlib.Core.List.{List, [], ◌∷◌}
use mathlib.Core.Bool.{Bool}
use esp32_sensor_firmware_pl.Prelude.Lists.{get_or}
use esp32_sensor_firmware_pl.Prelude.Tests.{◌==◌, if◌then◌else◌}

abbrev pub u8 : ℕ → ℕ
u8 n = n % 256

abbrev pub u16 : ℕ → ℕ
u16 n = n % 65536

abbrev pub u32 : ℕ → ℕ
u32 n = n % 4294967296

-- `a - b` on uint32_t, with the borrow.
abbrev pub sub_u32 : ℕ → ℕ → ℕ
sub_u32 a b = (a + 4294967296 - b) % 4294967296

-- `x & (1 << k)` as a test, and `x |= 1 << k`, at a numeral k.
abbrev pub has_bit : ℕ → ℕ → Bool
has_bit k x = (x / 2 ^ k) % 2 == 1

abbrev pub set_bit : ℕ → ℕ → ℕ
set_bit k x = if has_bit k x then x else x + 2 ^ k

-- Words in memory are little-endian; the frames of the protocol are big-endian.
abbrev pub le16 : ℕ → List ℕ
le16 n = (n % 256) ∷ (n / 256 % 256) ∷ []

abbrev pub le32 : ℕ → List ℕ
le32 n = (n % 256) ∷ (n / 256 % 256) ∷ (n / 65536 % 256) ∷ (n / 16777216 % 256) ∷ []

abbrev pub be16 : ℕ → List ℕ
be16 n = (n / 256 % 256) ∷ (n % 256) ∷ []

abbrev pub byte_at : List ℕ → ℕ → ℕ
byte_at bytes i = get_or bytes i 0

abbrev pub read_le16 : List ℕ → ℕ → ℕ
read_le16 bytes i = byte_at bytes i + 256 * byte_at bytes (i + 1)

abbrev pub read_le32 : List ℕ → ℕ → ℕ
read_le32 bytes i = read_le16 bytes i + 65536 * read_le16 bytes (i + 2)

abbrev pub read_be16 : List ℕ → ℕ → ℕ
read_be16 bytes i = byte_at bytes i * 256 + byte_at bytes (i + 1)

abbrev pub read_be32 : List ℕ → ℕ → ℕ
read_be32 bytes i = read_be16 bytes i * 65536 + read_be16 bytes (i + 2)

-- Every element is a byte.
abbrev pub AreBytes : List ℕ → Type 0
AreBytes [] = Unit {0}
AreBytes (b ∷ bytes) = (b < 256) × AreBytes bytes

-- The values of a function on all bytes, the largest byte first.
values_below : (ℕ → ℕ) → ℕ → List ℕ
values_below f zero = []
values_below f (suc n) = f n ∷ values_below f n

-- On a byte the arithmetic forms are the C++ operators.
set_bit-table :
    (values_below (set_bit 0) 256 ≡ values_below (λ x. bit_or x 1) 256)
    × (values_below (set_bit 1) 256 ≡ values_below (λ x. bit_or x 2) 256)
    × (values_below (set_bit 2) 256 ≡ values_below (λ x. bit_or x 4) 256)
unfolding values_below
set_bit-table = (refl, refl, refl)
