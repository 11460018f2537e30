-- ===== src/S5Max/Decoder/Unescape.antt =====
-- packet.rs: the inner `while` against the escape codes, and on a longer buffer.
use vacuum_tiger.Prelude.{
  ℕ, zero, suc, ◌+◌, ◌≤◌, ◌≡◌, refl, ap, List, [], ◌∷◌, ◌++◌, length, append_assoc, append-nil,
  arith, ◌⊎◌, inl, inr, length-append,
}
use vacuum_tiger.S5Max.Frame.Laws.{escape}
use vacuum_tiger.S5Max.Decoder.Core.{complete, incomplete, unescape}

-- The escaped bytes decode to the bytes, and the cursor stops right behind them.
pub unescape-escape :
    (bytes rest : List ℕ) (cursor : ℕ) (decoded : List ℕ)
    → unescape (length bytes) (escape bytes ++ rest) cursor decoded
      ≡ complete (cursor + length (escape bytes)) (decoded ++ bytes)
unfolding unescape escape
unescape-escape [] rest cursor decoded =
    rw append-nil (ap (λ (k : ℕ). complete k decoded) (omega arith))
unescape-escape (b ∷ bytes) rest cursor decoded = ground (
  arith,
  unescape-escape bytes rest (cursor + 1) (decoded ++ (b ∷ [])),
  unescape-escape bytes rest (cursor + 2) (decoded ++ (b ∷ [])),
  append_assoc decoded (b ∷ []) bytes,
)

-- More input does not change what was decided.
pub unescape-append :
    (missing : ℕ) (bytes more : List ℕ) (cursor : ℕ) (decoded : List ℕ)
    → (unescape missing bytes cursor decoded ≡ incomplete)
      ⊎ (unescape missing (bytes ++ more) cursor decoded ≡ unescape missing bytes cursor decoded)
unfolding unescape
unescape-append zero bytes more cursor decoded = inr refl
unescape-append (suc missing) [] more cursor decoded = inl refl
unescape-append (suc missing) (b ∷ []) [] cursor decoded = inr refl
unescape-append (suc missing) (b ∷ []) (m ∷ more) cursor decoded =
    ground (arith, unescape-append missing [] (m ∷ more) (cursor + 1) (decoded ++ (b ∷ [])))
unescape-append (suc missing) (b ∷ e ∷ bytes) more cursor decoded = ground (
  arith,
  unescape-append missing (e ∷ bytes) more (cursor + 1) (decoded ++ (b ∷ [])),
  unescape-append missing bytes more (cursor + 2) (decoded ++ (0xa9 ∷ [])),
  unescape-append missing bytes more (cursor + 2) (decoded ++ (0xaa ∷ [])),
)

-- The cursor never runs past the bytes that are there, and a decoded list has the length asked for.
pub unescape_bounds :
    (missing : ℕ) (bytes : List ℕ) (cursor : ℕ) (decoded : List ℕ) (cursor' : ℕ) (decoded' : List ℕ)
    → unescape missing bytes cursor decoded ≡ complete cursor' decoded'
    → (cursor + missing ≤ cursor')
      × (cursor' ≤ cursor + length bytes)
      × (length decoded' ≡ length decoded + missing)
unfolding unescape
unescape_bounds zero bytes cursor decoded cursor' decoded' h = ground arith
unescape_bounds (suc missing) [] cursor decoded cursor' decoded' h = cc
unescape_bounds (suc missing) (b ∷ []) cursor decoded cursor' decoded' h = ground (
  arith,
  unescape_bounds missing [] (cursor + 1) (decoded ++ (b ∷ [])) cursor' decoded',
  length-append decoded (b ∷ []),
)
unescape_bounds (suc missing) (b ∷ e ∷ bytes) cursor decoded cursor' decoded' h = ground (
  arith,
  unescape_bounds missing (e ∷ bytes) (cursor + 1) (decoded ++ (b ∷ [])) cursor' decoded',
  unescape_bounds missing bytes (cursor + 2) (decoded ++ (0xa9 ∷ [])) cursor' decoded',
  unescape_bounds missing bytes (cursor + 2) (decoded ++ (0xaa ∷ [])) cursor' decoded',
  length-append decoded (b ∷ []),
  length-append decoded (0xa9 ∷ []),
  length-append decoded (0xaa ∷ []),
)
