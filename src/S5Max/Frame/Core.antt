-- ===== src/S5Max/Frame/Core.antt =====
-- frame.rs: `encode_binary_frame`.
use vacuum_tiger.Prelude.{
  ℕ, ◌+◌, ◌≡◌, refl, List, [], ◌∷◌, ◌++◌, length, ltb, leb, ◌==◌, if◌then◌else◌,
}
use vacuum_tiger.S5Max.Crc.{crc8}

abbrev pub sync : ℕ
sync = 0xaa

-- The two messages of `Err(String)`.
pub data EncodeError : Type 0 where
  payload_too_large : ℕ → EncodeError
  overhead_overflow : EncodeError

pub data Result (A : Type 0) : Type 0 where
  ok : A → Result A
  err : EncodeError → Result A

-- The operator `?`.
infixl 5 ◌>>=◌
abbrev pub ◌>>=◌ : {A B : Type 0} → Result A → (A → Result B) → Result B
ok value >>= next = next value
err message >>= next = err message

-- Where a chain succeeds, its first step did, and so did what follows it.
pub steps-ok :
    {A B : Type 0} {sent : B} (next : A → Result B) (first : Result A)
    → (first >>= next) ≡ ok sent
    → (value : A) × (next value ≡ ok sent) × (first ≡ ok value)
steps-ok next (ok value) e = (value, e, refl)
steps-ok next (err message) e = cc

-- `u8::try_from(n)`.
abbrev pub u8_try_from : ℕ → Result ℕ
u8_try_from n = if leb n 255 then ok n else err (payload_too_large n)

-- `expansions.checked_add(1).ok_or_else(..)` on a u8.
abbrev pub checked_inc : ℕ → Result ℕ
checked_inc n = if ltb n 255 then ok (n + 1) else err overhead_overflow

-- The `for` loop over the payload and its CRC.
unfoldable pub escape_loop : List ℕ → List ℕ → ℕ → Result (List ℕ × ℕ)
escape_loop [] escaped expansions = ok (escaped, expansions)
escape_loop (byte ∷ bytes) escaped expansions =
    let as_a9 =
      checked_inc expansions >>= λ n. escape_loop bytes (escaped ++ (0xa9 ∷ 0x00 ∷ [])) n in
    let as_aa =
      checked_inc expansions >>= λ n. escape_loop bytes (escaped ++ (0xa9 ∷ 0x01 ∷ [])) n in
    let plain = escape_loop bytes (escaped ++ (byte ∷ [])) expansions in
    if byte == 0xa9 then as_a9 else if byte == 0xaa then as_aa else plain

unfoldable pub encode_binary_frame : List ℕ → Result (List ℕ)
encode_binary_frame payload = do
  payload_length ← u8_try_from (length payload)
  let crc = crc8 payload 0
  (escaped, expansions) ← escape_loop (payload ++ (crc ∷ [])) [] 0
  escape_overhead ← checked_inc expansions
  ok (sync ∷ payload_length ∷ escape_overhead ∷ escaped)
