-- ===== src/Delta2D/Settles.antt =====
-- delta2d/protocol.rs: what a call of `parse_next` takes from the buffer, and what it returns.
use vacuum_tiger.Prelude.{
  ℕ, zero, suc, ◌+◌, ◌-◌, ◌^◌, ◌≤◌, ◌<◌, ◌≡◌, refl, sym, ap, Bool, true, List, ◌∷◌, length,
  drop_all, drop, length-drop, position, position-FoundAt, Option-cases, Bool-cases, inl, inr, ltb,
  ltb→le, ltb→lt, ◌==◌, ==→eq, arith,
}
use native.Mathlib.Nat.{zero-add}
use vacuum_tiger.Delta2D.Core.{
  Floats, Delta2DPacketReader, nothing, Round, result, continue, Parsed, parsed, stuck, byte,
  sync_byte, max_buffer_size, validate_header, payload_len, total_len, discard, at_sync, round,
  resync_loop, try_parse_scan_with_resync, parse_next,
}
use vacuum_tiger.Delta2D.Outcome.{
  Skipped, StartsHeader, Waiting, Outcome, Settles, RoundOutcome, Skipped-trans, Outcome-skip,
}

module _ (fl : Floats) where
  discard-Skipped : (k : ℕ) (r : Delta2DPacketReader) → Skipped r k (discard fl k r)
  discard-Skipped k r = (refl, refl, refl)

  -- Nothing is skipped, and what is there has to wait.
  waits :
      (r : Delta2DPacketReader)
      → r.bytes_discarded < 2 ^ 64
      → Waiting r.buffer
      → Outcome fl r nothing r
  waits r h w = (0, omega arith, inl (refl, (refl, omega arith, refl), w))

  at_sync-RoundOutcome :
      (r : Delta2DPacketReader)
      → r.bytes_discarded < 2 ^ 64
      → 0 < length r.buffer
      → byte r.buffer 0 ≡ sync_byte
      → RoundOutcome fl r (at_sync fl r)
  unfolding at_sync
  at_sync-RoundOutcome r h pos start = elim (Bool-cases (ltb (length r.buffer) 8)) [
    | inl few ↦ rw few (waits r h (inl (ltb→lt (length r.buffer) 8 few)))
    | inr enough ↦ elim (Bool-cases (validate_header r.buffer)) [
      | inr bad ↦ rw (enough, bad) (1, omega arith, omega arith, discard-Skipped 1 r)
      | inl good ↦ elim (Bool-cases (ltb 1024 (payload_len r.buffer))) [
        | inl big ↦ rw (enough, good, big) (1, omega arith, omega arith, discard-Skipped 1 r)
        | inr small ↦
            let starts : StartsHeader r.buffer =
              (start, good, ltb→le 1024 (payload_len r.buffer) small) in
            elim (Bool-cases (ltb (length r.buffer) (total_len r.buffer))) [
              | inl part ↦
                  rw (enough, good, small, part)
                    (waits r h (inr (starts, ltb→lt (length r.buffer) (total_len r.buffer) part)))
              | inr whole ↦
                  let fits = ltb→le (length r.buffer) (total_len r.buffer) whole in
                  rw (enough, good, small, whole)
                    (
                      0,
                      omega arith,
                      inr (
                        starts,
                        omega arith,
                        refl,
                        ap (λ n. drop n r.buffer) (sym (zero-add (total_len r.buffer))),
                        omega arith,
                        refl,
                      ),
                    )
            ]
      ]
    ]
  ]

  RoundOutcome-discard :
      (r : Delta2DPacketReader) (j : ℕ) (out : Round fl)
      → j ≤ length r.buffer
      → RoundOutcome fl (discard fl j r) out
      → RoundOutcome fl r out
  RoundOutcome-discard r j (result p t) h a =
      Outcome-skip fl r (discard fl j r) t j p h (discard-Skipped j r) a
  RoundOutcome-discard r j (continue t) h (k, pos, l, skip) = (
    j + k,
    omega arith,
    omega (arith, length-drop j r.buffer),
    Skipped-trans fl r (discard fl j r) t j k (discard-Skipped j r) skip,
  )

  abbrev is_sync : ℕ → Bool
  is_sync b = b == sync_byte

  starts_sync :
      (bytes : List ℕ) (x : ℕ) (rest : List ℕ)
      → bytes ≡ x ∷ rest
      → (x == sync_byte) ≡ true
      → byte bytes 0 ≡ sync_byte
  starts_sync bytes x rest e y = rw e (==→eq x sync_byte y)

  round-RoundOutcome :
      (r : Delta2DPacketReader) → r.bytes_discarded < 2 ^ 64 → RoundOutcome fl r (round fl r)
  unfolding round
  round-RoundOutcome r h = elim (Bool-cases (ltb (length r.buffer) 8)) [
    | inl few ↦ rw few (waits r h (inl (ltb→lt (length r.buffer) 8 few)))
    | inr enough ↦
        let long = ltb→le (length r.buffer) 8 enough in
        elim (Option-cases (position is_sync r.buffer)) [
          | inl m ↦
              let n = length r.buffer - 1 in
              rw (enough, m)
                (
                  n,
                  omega arith,
                  inl (refl, discard-Skipped n r, inl (omega (arith, length-drop n r.buffer))),
                )
          | inr (i, m) ↦
              let ((x, rest, e, y), l) = position-FoundAt is_sync r.buffer i m in
              rw (enough, m)
                (RoundOutcome-discard r i (at_sync fl (discard fl i r)) (omega arith) (
                  at_sync-RoundOutcome (discard fl i r) (omega arith)
                    (omega (arith, length-drop i r.buffer))
                    (starts_sync (drop i r.buffer) x rest e y)))
        ]
  ]

  Settles-skip :
      (r s : Delta2DPacketReader) (j : ℕ) (out : Parsed fl)
      → j ≤ length r.buffer
      → Skipped r j s
      → Settles fl s out
      → Settles fl r out
  Settles-skip r s j stuck h sk a = a
  Settles-skip r s j (parsed p t) h sk a = Outcome-skip fl r s t j p h sk a

  resync_loop-Settles :
      (fuel : ℕ) (r : Delta2DPacketReader)
      → length r.buffer < fuel
      → r.bytes_discarded < 2 ^ 64
      → Settles fl r (resync_loop fl fuel r)
  resync_loop-Settles zero r h b = absurd (omega arith)
  resync_loop-Settles (suc fuel) r h b =
      step (round fl r) refl (round-RoundOutcome r b)
        (λ s l d. resync_loop-Settles fuel s (omega arith) d)
    where
      step :
          (out : Round fl)
          → round fl r ≡ out
          → RoundOutcome fl r out
          → ((s : Delta2DPacketReader)
              → length s.buffer < length r.buffer
              → s.bytes_discarded < 2 ^ 64
              → Settles fl s (resync_loop fl fuel s))
          → Settles fl r (resync_loop fl (suc fuel) r)
      step (result p t) e a rest = unfold resync_loop in rw (e, resync_loop) a
      step (continue s) e (k, pos, l, skip) rest =
          unfold resync_loop in
          let shorter : length s.buffer ≡ length (drop k r.buffer) =
            ap (λ xs. length xs) (skip.0) in
          rw (e, resync_loop)
            (Settles-skip r s k (resync_loop fl fuel s) l skip
              (rest s (omega (arith, length-drop k r.buffer)) (omega (arith, skip.1))))

  -- Any call returns. It skips some bytes, which it counts as discarded (a u64). Then either there
  -- is no result, and what is left is too short for a header or for the packet that its header
  -- announces; or a whole packet with a valid header and a payload of at most 1024 bytes stands
  -- there, the result was made of it, and just that packet is taken as well. The count of CRC
  -- failures never changes.
  pub parse_next-Settles :
      (r : Delta2DPacketReader) → r.bytes_discarded < 2 ^ 64 → Settles fl r (parse_next fl r)
  unfolding parse_next try_parse_scan_with_resync
  parse_next-Settles r h = elim (Bool-cases (ltb max_buffer_size (length r.buffer))) [
    | inl y ↦ rw y (
      length r.buffer,
      omega arith,
      inl (refl, (sym (drop_all r.buffer), refl, refl), inl (omega arith)),
    )
    | inr n ↦ rw n (resync_loop-Settles (suc (length r.buffer)) r (omega arith) h)
  ]
