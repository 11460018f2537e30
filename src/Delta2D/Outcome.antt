-- ===== src/Delta2D/Outcome.antt =====
-- delta2d/protocol.rs: what a call of `parse_next` does to the buffer.
use vacuum_tiger.Prelude.{
  ℕ, ◌+◌, ◌%◌, ◌^◌, ◌≤◌, ◌<◌, ◌≡◌, sym, ap, ◌∙◌, true, ◌⊎◌, inl, inr, List, length, drop, drop-drop,
  length-drop, arith,
}
use mathlib.Core.Path.{subst}
use vacuum_tiger.Delta2D.Core.{
  Floats, Delta2DPacketReader, ParseResult, nothing, Round, result, continue, Parsed, parsed, stuck,
  byte, sync_byte, validate_header, payload_len, total_len, packet_result,
}

-- The reader `r'` is `r` with the first `k` bytes off its buffer, and counted as discarded.
abbrev pub Skipped : Delta2DPacketReader → ℕ → Delta2DPacketReader → Type 0
Skipped r k r' =
    (r'.buffer ≡ drop k r.buffer)
    × (r'.bytes_discarded ≡ (r.bytes_discarded + k) % 2 ^ 64)
    × (r'.crc_failures ≡ r.crc_failures)

-- The bytes start with a header that passes the tests.
abbrev pub StartsHeader : List ℕ → Type 0
StartsHeader bytes =
    (byte bytes 0 ≡ sync_byte) × (validate_header bytes ≡ true) × (payload_len bytes ≤ 1024)

-- The bytes are too few for a header, or for the packet that their header announces.
abbrev pub Waiting : List ℕ → Type 0
Waiting bytes = (length bytes < 8) ⊎ (StartsHeader bytes × (length bytes < total_len bytes))

module _ (fl : Floats) where
  -- The packet behind the first `k` bytes is whole, `p` was made of it, and it is off the buffer.
  abbrev pub Took : Delta2DPacketReader → ℕ → ParseResult fl → Delta2DPacketReader → Type 0
  Took r k p r' =
      StartsHeader (drop k r.buffer)
      × (k + total_len (drop k r.buffer) ≤ length r.buffer)
      × (packet_result fl (drop k r.buffer) ≡ p)
      × (r'.buffer ≡ drop (k + total_len (drop k r.buffer)) r.buffer)
      × (r'.bytes_discarded ≡ (r.bytes_discarded + k) % 2 ^ 64)
      × (r'.crc_failures ≡ r.crc_failures)

  -- Some bytes are skipped. Then what is left has to wait and there is no result, or a packet was
  -- taken.
  abbrev pub Outcome : Delta2DPacketReader → ParseResult fl → Delta2DPacketReader → Type 0
  Outcome r p r' =
      (k : ℕ) × (k ≤ length r.buffer)
      × (((p ≡ nothing) × Skipped r k r' × Waiting r'.buffer) ⊎ Took r k p r')

  abbrev pub Settles : Delta2DPacketReader → Parsed fl → Type 0
  Settles r stuck = ⊥
  Settles r (parsed p r') = Outcome r p r'

  abbrev pub RoundOutcome : Delta2DPacketReader → Round fl → Type 0
  RoundOutcome r (result p r') = Outcome r p r'
  RoundOutcome r (continue r') = (k : ℕ) × (0 < k) × (k ≤ length r.buffer) × Skipped r k r'

  pub Skipped-trans :
      (r s t : Delta2DPacketReader) (j k : ℕ) → Skipped r j s → Skipped s k t → Skipped r (j + k) t
  Skipped-trans r s t j k (b, d, f) (c, e, g) =
      (c ∙ ap (λ xs. drop k xs) b ∙ drop-drop k j r.buffer, omega arith, g ∙ f)

  Took-skip :
      (r s t : Delta2DPacketReader) (j k : ℕ) (p : ParseResult fl)
      → j ≤ length r.buffer
      → Skipped r j s
      → Took s k p t
      → Took r (j + k) p t
  Took-skip r s t j k p h (b, d, f) (starts, l, e, c, d', g) =
      let there : drop k s.buffer ≡ drop (j + k) r.buffer =
        ap (λ xs. drop k xs) b ∙ drop-drop k j r.buffer in
      let same : total_len (drop k s.buffer) ≡ total_len (drop (j + k) r.buffer) =
        ap (λ xs. total_len xs) there in
      let n = total_len (drop k s.buffer) in
      let long : length s.buffer ≡ length (drop j r.buffer) = ap (λ xs. length xs) b in
      let behind : drop (k + n) s.buffer ≡ drop (j + (k + n)) r.buffer =
        ap (λ xs. drop (k + n) xs) b ∙ drop-drop (k + n) j r.buffer in
      let sum : j + (k + n) ≡ j + k + total_len (drop (j + k) r.buffer) = omega arith in
      (
        subst (λ xs. StartsHeader xs) there starts,
        omega (arith, length-drop j r.buffer),
        sym (ap (λ xs. packet_result fl xs) there) ∙ e,
        c ∙ behind ∙ ap (λ m. drop m r.buffer) sum,
        omega arith,
        g ∙ f,
      )

  -- An outcome behind bytes that were skipped is one of the whole buffer.
  pub Outcome-skip :
      (r s t : Delta2DPacketReader) (j : ℕ) (p : ParseResult fl)
      → j ≤ length r.buffer
      → Skipped r j s
      → Outcome s p t
      → Outcome r p t
  Outcome-skip r s t j p h sk (k, l, out) =
      let e : length s.buffer ≡ length (drop j r.buffer) = ap (λ xs. length xs) (sk.0) in
      (
        j + k,
        omega (arith, length-drop j r.buffer),
        elim out [
          | inl (n, sk', w) ↦ inl (n, Skipped-trans r s t j k sk sk', w)
          | inr took ↦ inr (Took-skip r s t j k p h sk took)
        ],
      )
