-- ===== src/RevoLds/Returns.antt =====
-- revo_lds/protocol.rs: what a call of `parse_next` takes from the buffer, and what it returns.
use vacuum_tiger.Prelude.{
  ℕ, zero, suc, ◌+◌, ◌-◌, ◌*◌, ◌^◌, ◌≤◌, ◌<◌, ◌≡◌, refl, sym, ap, Bool, true, ◌&&◌, List, ◌∷◌,
  length, take, drop_all, drop, length-drop, position, position-FoundAt, Option-cases, Bool-cases,
  inl, inr, ltb, ltb→le, ltb→lt, leb, ◌==◌, ==→eq, arith,
}
use vacuum_tiger.RevoLds.Core.{
  Optics, RevoLdsPacketReader, Round, result, continue, Parsed, parsed, stuck, byte, sync_byte,
  index_min, index_max, packet_size, max_buffer_size, calculate_checksum, parse_measurement_packet,
  discard, at_sync, round, resync_loop, try_parse_packet_with_resync, parse_next,
}
use vacuum_tiger.RevoLds.Outcome.{
  Skipped, StartsPacket, Outcome, Returns, RoundOutcome, Skipped-trans, Outcome-skip,
}

module _ (o : Optics) where
  discard-Skipped : (k : ℕ) (r : RevoLdsPacketReader) → Skipped r k (discard o k r)
  discard-Skipped k r = (refl, refl)

  Skipped-zero : (r : RevoLdsPacketReader) → r.bytes_discarded < 2 ^ 64 → Skipped r 0 r
  Skipped-zero r h = (refl, omega arith)

  at_sync-RoundOutcome :
      (r : RevoLdsPacketReader)
      → r.bytes_discarded < 2 ^ 64
      → byte r.buffer 0 ≡ sync_byte
      → RoundOutcome o r (at_sync o r)
  unfolding at_sync
  at_sync-RoundOutcome r h start =
      let calculated = calculate_checksum (take 20 r.buffer) in
      let received = byte r.buffer 20 + byte r.buffer 21 * 256 in
      let in_range = leb index_min (byte r.buffer 1) && leb (byte r.buffer 1) index_max in
      elim (Bool-cases (ltb (length r.buffer) packet_size)) [
        | inl few ↦
            rw few (0, omega arith, Skipped-zero r h, ltb→lt (length r.buffer) packet_size few)
        | inr enough ↦
            let long = ltb→le (length r.buffer) packet_size enough in
            elim (Bool-cases in_range) [
              | inr n ↦ rw (enough, n) (1, omega arith, omega arith, discard-Skipped 1 r)
              | inl y ↦ elim (Bool-cases (calculated == received)) [
                | inr n ↦ rw (enough, y, n) (1, omega arith, omega arith, (refl, refl))
                | inl same ↦
                    rw (enough, y, same)
                      (whole r h (long, start, y, ==→eq calculated received same))
              ]
            ]
      ]
    where
      whole :
          (r : RevoLdsPacketReader)
          → r.bytes_discarded < 2 ^ 64
          → StartsPacket r.buffer
          → Outcome o r
              (parse_measurement_packet o r.buffer)
              (record r { buffer = drop packet_size r.buffer })
      whole r h starts =
          unfold parse_measurement_packet in (0, omega arith, starts, refl, refl, omega arith)

  RoundOutcome-discard :
      (r : RevoLdsPacketReader) (j : ℕ) (out : Round o)
      → j ≤ length r.buffer
      → RoundOutcome o (discard o j r) out
      → RoundOutcome o r out
  RoundOutcome-discard r j (result p t) h a =
      Outcome-skip o r (discard o j r) t j p h (discard-Skipped j r) a
  RoundOutcome-discard r j (continue t) h (k, pos, l, skip) = (
    j + k,
    omega arith,
    omega (arith, length-drop j r.buffer),
    Skipped-trans o r (discard o j r) t j k (discard-Skipped j r) skip,
  )

  abbrev is_sync : ℕ → Bool
  is_sync b = b == sync_byte

  starts_sync :
      (bytes : List ℕ) (x : ℕ) (rest : List ℕ)
      → bytes ≡ x ∷ rest
      → (x == sync_byte) ≡ true
      → byte bytes 0 ≡ sync_byte
  starts_sync bytes x rest e y = rw e (==→eq x sync_byte y)

  round-RoundOutcome :
      (r : RevoLdsPacketReader) → r.bytes_discarded < 2 ^ 64 → RoundOutcome o r (round o r)
  unfolding round
  round-RoundOutcome r h = elim (Bool-cases (ltb (length r.buffer) packet_size)) [
    | inl few ↦ rw few (0, omega arith, Skipped-zero r h, ltb→lt (length r.buffer) packet_size few)
    | inr enough ↦
        let long = ltb→le (length r.buffer) packet_size enough in
        elim (Option-cases (position is_sync r.buffer)) [
          | inl m ↦
              rw (enough, m)
                (
                  length r.buffer - 1,
                  omega arith,
                  discard-Skipped (length r.buffer - 1) r,
                  omega (arith, length-drop (length r.buffer - 1) r.buffer),
                )
          | inr (i, m) ↦
              let ((x, rest, e, y), l) = position-FoundAt is_sync r.buffer i m in
              rw (enough, m)
                (RoundOutcome-discard r i (at_sync o (discard o i r)) (omega arith) (
                  at_sync-RoundOutcome (discard o i r) (omega arith)
                    (starts_sync (drop i r.buffer) x rest e y)))
        ]
  ]

  Returns-skip :
      (r s : RevoLdsPacketReader) (j : ℕ) (out : Parsed o)
      → j ≤ length r.buffer
      → Skipped r j s
      → Returns o s out
      → Returns o r out
  Returns-skip r s j stuck h sk a = a
  Returns-skip r s j (parsed p t) h sk a = Outcome-skip o r s t j p h sk a

  resync_loop-Returns :
      (fuel : ℕ) (r : RevoLdsPacketReader)
      → length r.buffer < fuel
      → r.bytes_discarded < 2 ^ 64
      → Returns o r (resync_loop o fuel r)
  resync_loop-Returns zero r h b = absurd (omega arith)
  resync_loop-Returns (suc fuel) r h b =
      step (round o r) refl (round-RoundOutcome r b)
        (λ s l d. resync_loop-Returns fuel s (omega arith) d)
    where
      step :
          (out : Round o)
          → round o r ≡ out
          → RoundOutcome o r out
          → ((s : RevoLdsPacketReader)
              → length s.buffer < length r.buffer
              → s.bytes_discarded < 2 ^ 64
              → Returns o s (resync_loop o fuel s))
          → Returns o r (resync_loop o (suc fuel) r)
      step (result p t) e a rest = unfold resync_loop in rw (e, resync_loop) a
      step (continue s) e (k, pos, l, skip) rest =
          unfold resync_loop in
          let shorter : length s.buffer ≡ length (drop k r.buffer) =
            ap (λ xs. length xs) (skip.0) in
          rw (e, resync_loop)
            (Returns-skip r s k (resync_loop o fuel s) l skip
              (rest s (omega (arith, length-drop k r.buffer)) (omega (arith, skip.1))))

  -- Any call returns. Without a result, what is left of the buffer is shorter than a packet, and the
  -- bytes skipped are counted as discarded (a u64). With a result, it was read from a whole packet
  -- with the right checksum behind the bytes skipped, and just that packet is taken as well.
  pub parse_next-Returns :
      (r : RevoLdsPacketReader) → r.bytes_discarded < 2 ^ 64 → Returns o r (parse_next o r)
  unfolding parse_next try_parse_packet_with_resync
  parse_next-Returns r h = elim (Bool-cases (ltb max_buffer_size (length r.buffer))) [
    | inl y ↦ rw y (length r.buffer, omega arith, (sym (drop_all r.buffer), refl), omega arith)
    | inr n ↦ rw n (resync_loop-Returns (suc (length r.buffer)) r (omega arith) h)
  ]
