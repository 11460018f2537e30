-- ===== src/S5Max/Crc.antt =====
-- packet.rs: the CRC of the MCU frames.
use vacuum_tiger.Prelude.{ℕ, zero, suc, ◌/◌, ◌%◌, List, [], ◌∷◌, ◌==◌, bit_xor, if◌then◌else◌}

-- One round of `for _ in 0..8`.
abbrev pub crc8_bit : ℕ → ℕ
crc8_bit crc = if crc % 2 == 0 then crc / 2 else bit_xor (crc / 2) 0x8c

abbrev pub crc8_bits : ℕ → ℕ → ℕ
crc8_bits zero crc = crc
crc8_bits (suc n) crc = crc8_bits n (crc8_bit crc)

unfoldable pub crc8 : List ℕ → ℕ → ℕ
crc8 [] initial = initial
crc8 (byte ∷ bytes) initial = crc8 bytes (crc8_bits 8 (bit_xor initial byte))
