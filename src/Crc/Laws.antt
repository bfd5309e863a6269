-- ===== src/Crc/Laws.antt =====
-- Checksums of data that comes in chunks, and their width.
use esp32_sensor_firmware_pl.Prelude.{
  ℕ, zero, suc, ◌<◌, ◌≡◌, refl, ap, append_assoc, sym, ◌∙◌, List, [], ◌∷◌, ◌++◌, arith,
}
use esp32_sensor_firmware_pl.Crc.{
  crc16_bit, crc16_bits, crc16_byte, crc32_byte, crc16_from, calculate_crc16, update_crc32,
}

unfoldable pub flatten_chunks : List (List ℕ) → List ℕ
flatten_chunks [] = []
flatten_chunks (c ∷ cs) = c ++ flatten_chunks cs

unfoldable pub update_chunks : ℕ → List (List ℕ) → ℕ
update_chunks crc [] = crc
update_chunks crc (c ∷ cs) = update_chunks (update_crc32 crc c) cs

pub update_crc32-append :
    (crc : ℕ) (xs ys : List ℕ) → update_crc32 crc (xs ++ ys) ≡ update_crc32 (update_crc32 crc xs) ys
unfolding update_crc32
update_crc32-append crc [] ys = refl
update_crc32-append crc (x ∷ xs) ys = update_crc32-append (crc32_byte crc x) xs ys

-- Updating a CRC-32 chunk by chunk gives the CRC-32 of the chunks put together.
pub update_crc32-flatten :
    (crc : ℕ) (cs : List (List ℕ)) → update_chunks crc cs ≡ update_crc32 crc (flatten_chunks cs)
unfolding update_chunks flatten_chunks
update_crc32-flatten crc [] = unfold update_crc32 in refl
update_crc32-flatten crc (c ∷ cs) =
    update_crc32-flatten (update_crc32 crc c) cs
    ∙ sym (update_crc32-append crc c (flatten_chunks cs))

pub flatten_chunks-append :
    (xs ys : List (List ℕ)) → flatten_chunks (xs ++ ys) ≡ flatten_chunks xs ++ flatten_chunks ys
unfolding flatten_chunks
flatten_chunks-append [] ys = refl
flatten_chunks-append (x ∷ xs) ys =
    ap (λ l. x ++ l) (flatten_chunks-append xs ys)
    ∙ sym (append_assoc x (flatten_chunks xs) (flatten_chunks ys))

pub update_chunks-append :
    (crc : ℕ) (xs ys : List (List ℕ))
    → update_chunks crc (xs ++ ys) ≡ update_chunks (update_chunks crc xs) ys
unfolding update_chunks
update_chunks-append crc [] ys = refl
update_chunks-append crc (x ∷ xs) ys = update_chunks-append (update_crc32 crc x) xs ys

pub crc16_bit-lt : (crc : ℕ) → crc16_bit crc < 65536
unfolding crc16_bit
crc16_bit-lt crc = ground arith

crc16_bits-lt : (j crc : ℕ) → crc16_bits (suc j) crc < 65536
unfolding crc16_bits
crc16_bits-lt zero crc = crc16_bit-lt crc
crc16_bits-lt (suc j) crc = crc16_bits-lt j (crc16_bit crc)

pub crc16_byte-lt : (crc b : ℕ) → crc16_byte crc b < 65536
unfolding crc16_byte
crc16_byte-lt crc b = crc16_bits-lt 7 _

crc16_from-lt : (crc : ℕ) (bytes : List ℕ) → crc < 65536 → crc16_from crc bytes < 65536
unfolding crc16_from
crc16_from-lt crc [] h = h
crc16_from-lt crc (b ∷ bytes) h = crc16_from-lt (crc16_byte crc b) bytes (crc16_byte-lt crc b)

pub calculate_crc16-lt : (bytes : List ℕ) → calculate_crc16 bytes < 65536
unfolding calculate_crc16
calculate_crc16-lt bytes = crc16_from-lt 0xFFFF bytes (omega arith)
