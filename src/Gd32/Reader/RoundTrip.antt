-- ===== src/Gd32/Reader/RoundTrip.antt =====
-- protocol.rs against packet.rs: what is sent is what is read.
use vacuum_tiger.Prelude.{
  ℕ, suc, ◌+◌, ◌*◌, ◌/◌, ◌%◌, ◌≤◌, ◌≡◌, refl, ap, ◌∙◌, inr, List, [], ◌∷◌, ◌++◌, length,
  length-append, append_assoc, arith, All, min, take_all, take-write, length-write, get_or, eq→==,
}
use vacuum_tiger.Gd32.Constants.{sync_byte_1, sync_byte_2}
use vacuum_tiger.Gd32.Checksum.{IsByte, checksum, checksum-lt}
use vacuum_tiger.Gd32.Packet.Frames.{frame}
use vacuum_tiger.Gd32.Reader.Core.{
  RxPacket, payload, max_payload_size, found, nothing, set_packet, try_parse_packet, round,
}
use vacuum_tiger.Gd32.Reader.Steps.{round-wait, round-valid, parse_loop-packet, parse_loop-wait}

frame-append :
    (cmd : ℕ) (payload rest : List ℕ)
    → let crc = checksum (cmd ∷ payload) in
      frame cmd payload ++ rest
      ≡ sync_byte_1
        ∷ sync_byte_2
        ∷ (length payload + 3)
        ∷ cmd
        ∷ (payload ++ (crc / 256 % 256 ∷ crc % 256 ∷ rest))
frame-append cmd payload rest =
    ap (λ t. sync_byte_1 ∷ sync_byte_2 ∷ (length payload + 3) ∷ cmd ∷ t)
      (append_assoc payload (_ ∷ _ ∷ []) rest)

-- A frame of bytes in front of the buffer is returned as the packet it stands for, and only its own
-- bytes are taken from the buffer. The payload is one that `RxPacket` can hold.
pub try_parse_packet-frame :
    (cmd : ℕ) (payload rest : List ℕ) (q : RxPacket)
    → All IsByte (cmd ∷ payload)
    → length payload ≤ 128
    → try_parse_packet (record { buffer = frame cmd payload ++ rest; packet = q })
      ≡ found (record { buffer = rest; packet = set_packet cmd payload q })
unfolding try_parse_packet
try_parse_packet-frame cmd payload rest q h fits =
    let crc = checksum (cmd ∷ payload) in
    let w = checksum-lt (cmd ∷ payload) h in
    ap (λ b. try_parse_packet (record { buffer = b; packet = q })) (frame-append cmd payload rest)
    ∙ parse_loop-packet _ _ _ (
        round-valid q cmd (crc / 256 % 256) (crc % 256) payload rest fits
          (inr (eq→== crc (crc / 256 % 256 * 256 + crc % 256) (omega arith))))

-- The packet that carries a payload gives it back.
pub payload-set_packet :
    (cmd : ℕ) (bytes : List ℕ) (q : RxPacket)
    → length q.buf ≡ 128
    → length bytes ≤ 128
    → (payload (set_packet cmd bytes q) ≡ bytes) × (length (set_packet cmd bytes q).buf ≡ 128)
unfolding payload set_packet
payload-set_packet cmd bytes q e h =
    let m : min (length bytes) max_payload_size ≡ length bytes = omega arith in
    rw (m, take_all bytes) (take-write bytes q.buf (omega arith), length-write 0 bytes q.buf ∙ e)

-- While a frame is still arriving, the bytes that are there stay in the buffer.
pub try_parse_packet-prefix :
    (cmd : ℕ) (sent front back : List ℕ) (b : ℕ) (q : RxPacket)
    → frame cmd sent ≡ front ++ (b ∷ back)
    → try_parse_packet (record { buffer = front; packet = q })
      ≡ nothing (record { buffer = front; packet = q })
unfolding try_parse_packet
try_parse_packet-prefix cmd sent [] back b q e = parse_loop-wait _ _ _ (unfold round in refl)
try_parse_packet-prefix cmd sent (x ∷ []) back b q e = parse_loop-wait _ _ _ (unfold round in refl)
try_parse_packet-prefix cmd sent (x ∷ y ∷ []) back b q e =
    parse_loop-wait _ _ _ (unfold round in refl)
try_parse_packet-prefix cmd sent (x ∷ y ∷ n ∷ front) back b q e =
    let ex : sync_byte_1 ≡ x = ap (λ (t : List ℕ). get_or t 0 0) e in
    let ey : sync_byte_2 ≡ y = ap (λ (t : List ℕ). get_or t 1 0) e in
    let en : length sent + 3 ≡ n = ap (λ (t : List ℕ). get_or t 2 0) e in
    let long : length sent + 3 ≡ length front + suc (length back) = omega (
      arith,
      ap (λ (t : List ℕ). length t) e,
      length-append sent (checksum (cmd ∷ sent) / 256 % 256 ∷ checksum (cmd ∷ sent) % 256 ∷ []),
      length-append front (b ∷ back),
    ) in
    rw (← ex, ← ey, ← en)
      (parse_loop-wait _ _ _ (round-wait q (length sent + 3) front (omega arith)))
