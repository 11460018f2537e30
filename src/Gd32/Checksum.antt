-- ===== src/Gd32/Checksum.antt =====
-- The GD32 checksum (packet.rs, `checksum`) and the split of a word into bytes.
use vacuum_tiger.Prelude.{ℕ, ◌+◌, ◌*◌, ◌%◌, ◌<◌, List, [], ◌∷◌, All, arith, bit_xor}
use vacuum_tiger.Prelude.Bits.{bit_xor-lt}

abbrev pub IsByte : ℕ → Type 0
IsByte b = b < 256

-- The `while` loop over byte pairs. `(a << 8) | b` of two bytes is their sum `a * 256 + b`, and
-- `wrapping_add` on u16 is `% 65536`.
pub checksum_loop : ℕ → List ℕ → ℕ
checksum_loop sum [] = sum
checksum_loop sum (a ∷ []) = bit_xor sum a
checksum_loop sum (a ∷ b ∷ rest) = checksum_loop ((sum + (a * 256 + b)) % 65536) rest

unfoldable pub checksum : List ℕ → ℕ
unfolding checksum_loop
checksum bytes = checksum_loop 0 bytes

checksum_loop-lt :
    (sum : ℕ) (bytes : List ℕ) → sum < 65536 → All IsByte bytes → checksum_loop sum bytes < 65536
unfolding checksum_loop
checksum_loop-lt sum [] h k = h
checksum_loop-lt sum (a ∷ []) h k = bit_xor-lt 16 sum a (omega arith) (omega arith)
checksum_loop-lt sum (a ∷ b ∷ rest) h k =
    checksum_loop-lt ((sum + (a * 256 + b)) % 65536) rest (omega arith) k.1.1

-- The checksum of bytes fits the sixteen bits in which it is sent.
pub checksum-lt : (bytes : List ℕ) → All IsByte bytes → checksum bytes < 65536
unfolding checksum
checksum-lt bytes h = checksum_loop-lt 0 bytes (omega arith) h
