-- ===== src/RevoLds/Outcome.antt =====
-- revo_lds/protocol.rs: what a call of `parse_next` does to the buffer.
use vacuum_tiger.Prelude.{
  ℕ, ◌+◌, ◌*◌, ◌%◌, ◌^◌, ◌≤◌, ◌<◌, ◌≡◌, ap, ◌∙◌, true, ◌&&◌, List, length, take, drop, drop-drop,
  length-drop, leb, arith,
}
use vacuum_tiger.RevoLds.Core.{
  Optics, RevoLdsPacketReader, ParseResult, nothing, points, Round, result, continue, Parsed,
  parsed, stuck, byte, sync_byte, index_min, index_max, packet_size, calculate_checksum,
  parse_measurement_packet,
}

-- The reader `r'` is `r` with the first `k` bytes off its buffer, and counted as discarded.
abbrev pub Skipped : RevoLdsPacketReader → ℕ → RevoLdsPacketReader → Type 0
Skipped r k r' =
    (r'.buffer ≡ drop k r.buffer) × (r'.bytes_discarded ≡ (r.bytes_discarded + k) % 2 ^ 64)

-- The bytes start with a whole packet whose checksum is right.
abbrev pub StartsPacket : List ℕ → Type 0
StartsPacket bytes =
    (packet_size ≤ length bytes)
    × (byte bytes 0 ≡ sync_byte)
    × ((leb index_min (byte bytes 1) && leb (byte bytes 1) index_max) ≡ true)
    × (calculate_checksum (take 20 bytes) ≡ byte bytes 20 + byte bytes 21 * 256)

module _ (o : Optics) where
  -- Without a result, the bytes skipped leave less than a packet. With one, it was read from the
  -- packet behind the bytes skipped, and the packet is off the buffer and not counted as discarded.
  abbrev pub Outcome : RevoLdsPacketReader → ParseResult o → RevoLdsPacketReader → Type 0
  Outcome r nothing r' =
      (k : ℕ) × (k ≤ length r.buffer) × Skipped r k r' × (length r'.buffer < packet_size)
  Outcome r (points ps speed) r' =
      (k : ℕ) × (k ≤ length r.buffer)
      × StartsPacket (drop k r.buffer)
      × (parse_measurement_packet o (drop k r.buffer) ≡ points ps speed)
      × (r'.buffer ≡ drop (k + packet_size) r.buffer)
      × (r'.bytes_discarded ≡ (r.bytes_discarded + k) % 2 ^ 64)

  abbrev pub Returns : RevoLdsPacketReader → Parsed o → Type 0
  Returns r stuck = ⊥
  Returns r (parsed p r') = Outcome r p r'

  abbrev pub RoundOutcome : RevoLdsPacketReader → Round o → Type 0
  RoundOutcome r (result p r') = Outcome r p r'
  RoundOutcome r (continue r') = (k : ℕ) × (0 < k) × (k ≤ length r.buffer) × Skipped r k r'

  pub Skipped-trans :
      (r s t : RevoLdsPacketReader) (j k : ℕ) → Skipped r j s → Skipped s k t → Skipped r (j + k) t
  Skipped-trans r s t j k (b, d) (c, e) =
      (c ∙ ap (λ xs. drop k xs) b ∙ drop-drop k j r.buffer, omega arith)

  -- An outcome behind bytes that were skipped is one of the whole buffer.
  pub Outcome-skip :
      (r s t : RevoLdsPacketReader) (j : ℕ) (p : ParseResult o)
      → j ≤ length r.buffer
      → Skipped r j s
      → Outcome s p t
      → Outcome r p t
  Outcome-skip r s t j nothing h sk (k, l, skip, few) = (
    j + k,
    (let e : length s.buffer ≡ length (drop j r.buffer) = ap (λ xs. length xs) (sk.0) in
        omega (arith, length-drop j r.buffer)),
    Skipped-trans r s t j k sk skip,
    few,
  )
  Outcome-skip r s t j (points ps speed) h sk (k, l, starts, e, b, d) =
      let e' : length s.buffer ≡ length (drop j r.buffer) = ap (λ xs. length xs) (sk.0) in
      let there : drop k s.buffer ≡ drop (j + k) r.buffer =
        ap (λ xs. drop k xs) (sk.0) ∙ drop-drop k j r.buffer in
      let behind : drop (k + packet_size) s.buffer ≡ drop (j + (k + packet_size)) r.buffer =
        ap (λ xs. drop (k + packet_size) xs) (sk.0) ∙ drop-drop (k + packet_size) j r.buffer in
      let same : j + (k + packet_size) ≡ j + k + packet_size = omega arith in
      (
        j + k,
        omega (arith, length-drop j r.buffer),
        rw (← there) starts,
        rw (← there) e,
        b ∙ behind ∙ ap (λ n. drop n r.buffer) same,
        omega (arith, sk.1),
      )
