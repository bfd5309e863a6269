-- ===== src/Crc.antt =====
-- The checksums of src/Domain/ProtocolDefs.h: CRC-16 (frames) and CRC-32 (stored state, firmware).
pub mod Laws
pub mod Detection
mod Tests
use Prim.Native.Nat.{bit_and, bit_or, bit_xor}
use esp32_sensor_firmware_pl.Prelude.{
  ℕ, zero, suc, ◌+◌, ◌-◌, ◌*◌, ◌/◌, ◌%◌, List, [], ◌∷◌, ◌==◌, has_bit, if◌then◌else◌, u16, u32,
  sub_u32,
}

-- One round of the inner loop of `calculateCRC16`, and the loop of eight rounds.
pub crc16_bit : ℕ → ℕ
crc16_bit crc = if has_bit 15 crc then u16 (bit_xor (u16 (crc * 2)) 0x1021) else u16 (crc * 2)

crc16_bits : ℕ → ℕ → ℕ
crc16_bits zero crc = crc
crc16_bits (suc j) crc = crc16_bits j (crc16_bit crc)

pub crc16_byte : ℕ → ℕ → ℕ
unfolding crc16_bits crc16_bit
crc16_byte crc b = crc16_bits 8 (u16 (bit_xor crc (u16 (b * 256))))

crc16_from : ℕ → List ℕ → ℕ
unfolding crc16_byte
crc16_from crc [] = crc
crc16_from crc (b ∷ bytes) = crc16_from (crc16_byte crc b) bytes

pub calculate_crc16 : List ℕ → ℕ
unfolding crc16_from
calculate_crc16 bytes = crc16_from 0xFFFF bytes

pub calculate_crc16_with_timestamp : List ℕ → ℕ → ℕ
unfolding calculate_crc16
calculate_crc16_with_timestamp bytes timestamp =
    let crc = bit_xor (calculate_crc16 bytes) (timestamp % 65536) in
    let mixed = bit_xor crc (timestamp / 65536 % 65536) in
    let rotated = bit_or (u16 (mixed * 2)) (mixed / 32768) in
    u16 (bit_xor rotated (timestamp % 256))

-- `-(crc & 1)` on uint32_t is a mask of all ones or of all zeros.
crc32_bit : ℕ → ℕ
crc32_bit crc = bit_xor (crc / 2) (bit_and 0xEDB88320 (sub_u32 0 (crc % 2)))

crc32_bits : ℕ → ℕ → ℕ
crc32_bits zero crc = crc
crc32_bits (suc j) crc = crc32_bits j (crc32_bit crc)

crc32_byte : ℕ → ℕ → ℕ
unfolding crc32_bits crc32_bit
crc32_byte crc b = crc32_bits 8 (bit_xor crc b)

unfoldable pub update_crc32 : ℕ → List ℕ → ℕ
unfolding crc32_byte
update_crc32 crc [] = crc
update_crc32 crc (b ∷ bytes) = update_crc32 (crc32_byte crc b) bytes

-- `~crc` on uint32_t.
abbrev pub complement_u32 : ℕ → ℕ
complement_u32 crc = 0xFFFFFFFF - crc

unfoldable pub calculate_crc32 : List ℕ → ℕ
unfolding update_crc32
calculate_crc32 bytes = complement_u32 (update_crc32 0xFFFFFFFF bytes)
