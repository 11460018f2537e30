-- ===== src/Delta2D/Whole.antt =====
-- delta2d/protocol.rs: a whole packet at the start of the buffer.
use mathlib.Core.Path.{ap₂}
use vacuum_tiger.Prelude.{
  ℕ, zero, suc, ◌+◌, ◌%◌, ◌^◌, ◌≤◌, ◌<◌, ◌≡◌, refl, ap, ◌∙◌, some, List, [], ◌∷◌, ◌++◌, length,
  length-append, take-append, drop, drop-append, drop-length_add, length-drop, position, le→ltb,
  eq→==, ◌==◌, arith,
}
use vacuum_tiger.Delta2D.Core.{
  Floats, Delta2DPacketReader, nothing, unknown, command_type, result, parsed, discard, byte,
  sync_byte, max_buffer_size, validate_header, payload_len, total_len, packet_result, at_sync,
  round, resync_loop, try_parse_scan_with_resync, parse_next,
}
use vacuum_tiger.Delta2D.Outcome.{StartsHeader}

byte-append : (i : ℕ) (xs ys : List ℕ) → i < length xs → byte (xs ++ ys) i ≡ byte xs i
byte-append i [] ys h = absurd (omega arith)
byte-append zero (x ∷ xs) ys h = refl
byte-append (suc i) (x ∷ xs) ys h = byte-append i xs ys (omega arith)

payload_len-append : (xs ys : List ℕ) → 8 ≤ length xs → payload_len (xs ++ ys) ≡ payload_len xs
payload_len-append xs ys h =
    rw (byte-append 6 xs ys (omega arith), byte-append 7 xs ys (omega arith)) refl

StartsHeader-append : (xs ys : List ℕ) → 8 ≤ length xs → StartsHeader xs → StartsHeader (xs ++ ys)
unfolding validate_header
StartsHeader-append xs ys h (start, good, small) = (
  byte-append 0 xs ys (omega arith) ∙ start,
  rw (byte-append 3 xs ys (omega arith)) good,
  omega (arith, payload_len-append xs ys h),
)

found :
    (bytes : List ℕ)
    → 0 < length bytes
    → byte bytes 0 ≡ sync_byte
    → position (λ b. b == sync_byte) bytes ≡ some 0
found [] h e = absurd (omega arith)
found (x ∷ bytes) h e = rw (eq→== x sync_byte e) refl

module _ (fl : Floats) where
  packet_result-append :
      (xs ys : List ℕ)
      → 8 + payload_len xs ≤ length xs
      → packet_result fl (xs ++ ys) ≡ packet_result fl xs
  unfolding packet_result
  packet_result-append xs ys h =
      rw
        (
          payload_len-append xs ys (omega arith),
          byte-append 5 xs ys (omega arith),
          drop-append 8 xs ys (omega arith),
          take-append (payload_len xs) (drop 8 xs) ys (omega (arith, length-drop 8 xs)),
        )
        refl

  -- The reader with the packet at the start of the buffer taken.
  abbrev without_packet : Delta2DPacketReader → Delta2DPacketReader
  without_packet r = record r { buffer = drop (total_len r.buffer) r.buffer }

  at_sync-whole :
      (r : Delta2DPacketReader)
      → StartsHeader r.buffer
      → total_len r.buffer ≤ length r.buffer
      → at_sync fl r ≡ result (packet_result fl r.buffer) (without_packet r)
  unfolding at_sync
  at_sync-whole r (start, good, small) fits =
      rw
        (
          le→ltb (length r.buffer) 8 (omega arith),
          good,
          le→ltb 1024 (payload_len r.buffer) small,
          le→ltb (length r.buffer) (total_len r.buffer) fits,
        )
        refl

  round-whole :
      (r : Delta2DPacketReader)
      → r.bytes_discarded < 2 ^ 64
      → StartsHeader r.buffer
      → total_len r.buffer ≤ length r.buffer
      → round fl r ≡ result (packet_result fl r.buffer) (without_packet r)
  unfolding round
  round-whole r d starts fits =
      let same : (r.bytes_discarded + 0) % 2 ^ 64 ≡ r.bytes_discarded = omega arith in
      let here : discard fl 0 r ≡ r = ap (λ n. record r { bytes_discarded = n }) same in
      rw (le→ltb (length r.buffer) 8 (omega arith), found r.buffer (omega arith) (starts.0))
        (ap (λ s. at_sync fl s) here ∙ at_sync-whole r starts fits)

  parse_next-whole :
      (r : Delta2DPacketReader)
      → r.bytes_discarded < 2 ^ 64
      → StartsHeader r.buffer
      → total_len r.buffer ≤ length r.buffer
      → length r.buffer ≤ max_buffer_size
      → parse_next fl r ≡ parsed (packet_result fl r.buffer) (without_packet r)
  unfolding parse_next try_parse_scan_with_resync resync_loop
  parse_next-whole r d starts fits short =
      rw (le→ltb max_buffer_size (length r.buffer) short, resync_loop, round-whole r d starts fits)
        refl

  -- A packet with a valid header and a payload of at most 1024 bytes is taken off the front of the
  -- buffer by one call, whatever the two bytes of its checksum are, and the result is what its
  -- header and payload say.
  pub parse_next-packet :
      (r : Delta2DPacketReader) (bytes : List ℕ) (high low : ℕ) (rest : List ℕ)
      → r.bytes_discarded < 2 ^ 64
      → StartsHeader bytes
      → length bytes ≡ 8 + payload_len bytes
      → length bytes + length rest + 2 ≤ max_buffer_size
      → parse_next fl (record r { buffer = bytes ++ (high ∷ low ∷ rest) })
        ≡ parsed (packet_result fl bytes) (record r { buffer = rest })
  parse_next-packet r bytes high low rest d starts whole short =
      let tail = high ∷ low ∷ rest in
      let s : Delta2DPacketReader = record r { buffer = bytes ++ tail } in
      let size : total_len (bytes ++ tail) ≡ length bytes + 2 =
        omega (arith, payload_len-append bytes tail (omega arith)) in
      let left : drop (total_len (bytes ++ tail)) (bytes ++ tail) ≡ rest =
        ap (λ n. drop n (bytes ++ tail)) size ∙ drop-length_add 2 bytes tail in
      parse_next-whole s d (StartsHeader-append bytes tail (omega arith) starts)
        (omega (arith, length-append bytes tail)) (omega (arith, length-append bytes tail))
      ∙ ap₂ (λ p b. parsed p (record r { buffer = b }))
          (packet_result-append bytes tail (omega arith)) left

  -- So a packet of another type than the two known ones gives no result, also with a whole packet
  -- behind it in the buffer.
  pub parse_next-unknown :
      (r : Delta2DPacketReader) (bytes : List ℕ) (high low : ℕ) (rest : List ℕ)
      → r.bytes_discarded < 2 ^ 64
      → StartsHeader bytes
      → length bytes ≡ 8 + payload_len bytes
      → length bytes + length rest + 2 ≤ max_buffer_size
      → command_type (byte bytes 5) ≡ unknown
      → parse_next fl (record r { buffer = bytes ++ (high ∷ low ∷ rest) })
        ≡ parsed nothing (record r { buffer = rest })
  parse_next-unknown r bytes high low rest d starts whole short other =
      parse_next-packet r bytes high low rest d starts whole short
      ∙ ap (λ p. parsed p (record r { buffer = rest })) (unfold packet_result in rw other refl)
