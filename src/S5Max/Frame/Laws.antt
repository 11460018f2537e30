-- ===== src/S5Max/Frame/Laws.antt =====
-- frame.rs: what the encoder writes, and when it refuses.
use vacuum_tiger.Prelude.{
  ℕ, ◌+◌, ◌≤◌, ◌<◌, ◌≡◌, ◌≢◌, refl, ap, List, [], ◌∷◌, ◌++◌, length, append_assoc, append-nil,
  le→leb, leb→le, leb→lt, lt→leb, leb, Bool-cases, inl, inr, lt→ltb, le→ltb, ◌==◌, arith,
  if◌then◌else◌, All,
}
use native.Mathlib.Nat.{zero-add}
use native.Mathlib.Decide.{dec_le}
use vacuum_tiger.S5Max.Crc.{crc8}
use vacuum_tiger.S5Max.Frame.Core.{
  sync, ok, err, payload_too_large, overhead_overflow, escape_loop, encode_binary_frame,
}

-- The escape code of a byte, and how many bytes of a list have one.
abbrev pub escape_byte : ℕ → List ℕ → List ℕ
escape_byte b rest =
    if b == 0xa9 then 0xa9 ∷ 0x00 ∷ rest else if b == 0xaa then 0xa9 ∷ 0x01 ∷ rest else b ∷ rest

unfoldable pub escape : List ℕ → List ℕ
escape [] = []
escape (b ∷ bytes) = escape_byte b (escape bytes)

unfoldable pub expansions : List ℕ → ℕ
expansions [] = 0
expansions (b ∷ bytes) = (if b == 0xa9 then 1 else if b == 0xaa then 1 else 0) + expansions bytes

escape_loop_fits :
    (bytes out : List ℕ) (n : ℕ)
    → n + expansions bytes ≤ 255
    → escape_loop bytes out n ≡ ok (out ++ escape bytes, n + expansions bytes)
unfolding escape_loop escape expansions
escape_loop_fits [] out n h = rw append-nil (ap (λ (k : ℕ). ok (out, k)) (omega arith))
escape_loop_fits (b ∷ bytes) out n h = ground (
  arith,
  escape_loop_fits bytes (out ++ (b ∷ [])) n,
  escape_loop_fits bytes (out ++ (0xa9 ∷ 0x00 ∷ [])) (n + 1),
  escape_loop_fits bytes (out ++ (0xa9 ∷ 0x01 ∷ [])) (n + 1),
  append_assoc out (b ∷ []) (escape bytes),
  append_assoc out (0xa9 ∷ 0x00 ∷ []) (escape bytes),
  append_assoc out (0xa9 ∷ 0x01 ∷ []) (escape bytes),
)

escape_loop_overflows :
    (bytes out : List ℕ) (n : ℕ)
    → n ≤ 255
    → 255 < n + expansions bytes
    → escape_loop bytes out n ≡ err overhead_overflow
unfolding escape_loop expansions
escape_loop_overflows [] out n h k = absurd (omega arith)
escape_loop_overflows (b ∷ bytes) out n h k = ground (
  arith,
  escape_loop_overflows bytes (out ++ (b ∷ [])) n,
  escape_loop_overflows bytes (out ++ (0xa9 ∷ 0x00 ∷ [])) (n + 1),
  escape_loop_overflows bytes (out ++ (0xa9 ∷ 0x01 ∷ [])) (n + 1),
)

-- The bytes of a frame behind its header: the payload and its CRC, escaped.
abbrev pub body : List ℕ → List ℕ
body payload = payload ++ (crc8 payload 0 ∷ [])

-- A payload that fits the length byte, with at most 254 reserved bytes in it and its CRC, is encoded
-- as the sync byte, its length, one more than the count of reserved bytes, and the escaped bytes.
pub encode_binary_frame-eq_ok :
    (payload : List ℕ)
    → length payload ≤ 255
    → expansions (body payload) ≤ 254
    → encode_binary_frame payload
      ≡ ok (sync ∷ length payload ∷ (expansions (body payload) + 1) ∷ escape (body payload))
unfolding encode_binary_frame
encode_binary_frame-eq_ok payload h k = rw (
  le→leb (length payload) 255 h,
  escape_loop_fits (body payload) [] 0 (omega arith),
  zero-add (expansions (body payload)),
  lt→ltb (expansions (body payload)) 255 (omega arith),
)

pub encode_binary_frame_too_long :
    (payload : List ℕ)
    → 255 < length payload
    → encode_binary_frame payload ≡ err (payload_too_large (length payload))
unfolding encode_binary_frame
encode_binary_frame_too_long payload h = rw (lt→leb 255 (length payload) h)

pub encode_binary_frame_too_many :
    (payload : List ℕ)
    → length payload ≤ 255
    → 254 < expansions (body payload)
    → encode_binary_frame payload ≡ err overhead_overflow
unfolding encode_binary_frame
encode_binary_frame_too_many payload h k = elim (dec_le (expansions (body payload)) 255) [
  | yes fits ↦ rw (
    le→leb (length payload) 255 h,
    escape_loop_fits (body payload) [] 0 (omega arith),
    zero-add (expansions (body payload)),
    le→ltb (expansions (body payload)) 255 (omega arith),
  )
  | no over ↦ rw (
    le→leb (length payload) 255 h,
    escape_loop_overflows (body payload) [] 0 (omega arith) (omega arith),
  )
]

-- What the encoder promises for every payload: one that does not fit the length byte is refused; else
-- one with more reserved bytes, in it and its CRC, than the overhead byte can count is refused; any
-- other is encoded as the sync byte, its length, one more than that count, and the escaped bytes.
pub encode_binary_frame_lem :
    (payload : List ℕ)
    → encode_binary_frame payload ≡ (
        if leb (length payload) 255
        then if leb (expansions (body payload)) 254
          then ok (sync ∷ length payload ∷ (expansions (body payload) + 1) ∷ escape (body payload))
          else err overhead_overflow
        else err (payload_too_large (length payload)))
encode_binary_frame_lem payload = elim (Bool-cases (leb (length payload) 255)) [
  | inr long ↦ rw long (encode_binary_frame_too_long payload (leb→lt _ _ long))
  | inl short ↦ elim (Bool-cases (leb (expansions (body payload)) 254)) [
    | inl few ↦
        rw (short, few) (encode_binary_frame-eq_ok payload (leb→le _ _ short) (leb→le _ _ few))
    | inr many ↦
        rw (short, many) (encode_binary_frame_too_many payload (leb→le _ _ short) (leb→lt _ _ many))
  ]
]

-- No sync byte stands behind the header of a frame.
pub escape-no_sync : (bytes : List ℕ) → All (λ b. b ≢ sync) (escape bytes)
unfolding escape
escape-no_sync [] = tt
escape-no_sync (b ∷ bytes) = escape_byte-no_sync b (escape bytes) (escape-no_sync bytes)
  where
    escape_byte-no_sync :
        (b : ℕ) (rest : List ℕ)
        → All (λ b. b ≢ sync) rest
        → All (λ b. b ≢ sync) (escape_byte b rest)
    escape_byte-no_sync b rest h = ground arith

-- Escaping adds one byte for each reserved byte.
pub length-escape : (bytes : List ℕ) → length (escape bytes) ≡ length bytes + expansions bytes
unfolding escape expansions
length-escape [] = refl
length-escape (b ∷ bytes) = ground (arith, length-escape bytes)
