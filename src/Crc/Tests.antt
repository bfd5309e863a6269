-- ===== src/Crc/Tests.antt =====
-- The published check values of CRC-16/CCITT-FALSE and CRC-32 on the text "123456789".
use esp32_sensor_firmware_pl.Prelude.{ℕ, List, [], ◌∷◌, ◌≡◌, refl}
use esp32_sensor_firmware_pl.Crc.{calculate_crc16, calculate_crc32}

abbrev check_text : List ℕ
check_text = 49 ∷ 50 ∷ 51 ∷ 52 ∷ 53 ∷ 54 ∷ 55 ∷ 56 ∷ 57 ∷ []

calculate_crc16_check : calculate_crc16 check_text ≡ 0x29B1
unfolding calculate_crc16
calculate_crc16_check = refl

calculate_crc32_check : calculate_crc32 check_text ≡ 0xCBF43926
unfolding calculate_crc32
calculate_crc32_check = refl
