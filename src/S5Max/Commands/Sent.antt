-- ===== src/S5Max/Commands/Sent.antt =====
-- commands.rs with frame.rs and packet.rs: a command that is encoded is the payload that is decoded.
use vacuum_tiger.Prelude.{
  ℕ, ◌≤◌, ◌<◌, ◌≡◌, ◌≢◌, refl, sym, ap, ◌∙◌, Bool, true, List, [], ◌∷◌, ◌++◌, append-nil, length,
  length-append, le→ltb, eq→==, ne→==, ◌==◌, Bool-cases, inl, inr, arith,
}
use vacuum_tiger.S5Max.Crc.{crc8}
use vacuum_tiger.S5Max.Frame.{ok, encode_binary_frame}
use vacuum_tiger.S5Max.Frame.Laws.{body, expansions, encode_binary_frame-eq_ok}
use vacuum_tiger.S5Max.Decoder.{Frame, pushed}
use vacuum_tiger.S5Max.Decoder.Chunks.{push_all}
use vacuum_tiger.S5Max.Decoder.RoundTrip.{wire, frame_for, encode_all-one, push_all-frame_for}
use vacuum_tiger.S5Max.Commands.Core.{encoded, command_frame, envelope, next_tx_sequence}

expansions_le : (bytes : List ℕ) → expansions bytes ≤ length bytes
unfolding expansions
expansions_le [] = omega arith
expansions_le (b ∷ bytes) = elim (Bool-cases (b == 0xa9)) [
  | inl y ↦ rw y (omega (arith, expansions_le bytes))
  | inr n ↦ elim (Bool-cases (b == 0xaa)) [
    | inl z ↦ rw (n, z) (omega (arith, expansions_le bytes))
    | inr m ↦ rw (n, m) (omega (arith, expansions_le bytes))
  ]
]

pub envelope_encoded :
    (sequence command : ℕ) (request_ack : Bool) (bytes : List ℕ)
    → length bytes ≤ 247
    → encode_binary_frame (envelope sequence command request_ack bytes)
      ≡ ok (wire (envelope sequence command request_ack bytes))
envelope_encoded sequence command request_ack bytes l =
    let payload = envelope sequence command request_ack bytes in
    let few : expansions (body payload) ≤ 254 =
      omega (arith, expansions_le (body payload), length-append payload (crc8 payload 0 ∷ [])) in
    encode_binary_frame-eq_ok payload (omega arith) few

pub command_frame-eq_encoded :
    (sequence command : ℕ) (request_ack : Bool) (bytes : List ℕ)
    → sequence ≢ 0
    → length bytes ≤ 247
    → command_frame sequence command request_ack bytes
      ≡ encoded (wire (envelope sequence command request_ack bytes))
unfolding command_frame
command_frame-eq_encoded sequence command request_ack bytes h l =
    rw
      (
        ne→== sequence 0 h,
        le→ltb 255 (length bytes) (omega arith),
        envelope_encoded sequence command request_ack bytes l,
      )
      refl

-- A command with a sequence number other than zero and at most 247 bytes of data is never refused,
-- and an empty decoder that gets the bytes yields one frame: a valid one, whose payload is the
-- command's envelope.
pub command_frame-Sent :
    (sequence command : ℕ) (request_ack : Bool) (bytes : List ℕ)
    → sequence ≢ 0
    → length bytes ≤ 247
    → (w : List ℕ) × (f : Frame) × (command_frame sequence command request_ack bytes ≡ encoded w)
      × (push_all [] (w ∷ []) ≡ pushed (f ∷ []) [])
      × (f.payload ≡ envelope sequence command request_ack bytes)
      × (f.crc_valid ≡ true)
command_frame-Sent sequence command request_ack bytes h l =
    let payload = envelope sequence command request_ack bytes in
    (
      wire payload,
      frame_for payload,
      command_frame-eq_encoded sequence command request_ack bytes h l,
      push_all-frame_for (payload ∷ []) (wire payload) [] (omega arith, tt)
          (encode_all-one payload (wire payload ++ []) (
            envelope_encoded sequence command request_ack bytes l
            ∙ ap (λ w. ok w) (sym (append-nil (wire payload))))),
      refl,
      eq→== (crc8 payload 0) (crc8 payload 0) refl,
    )

-- No call of the counter gives the reserved zero, and none leaves the bytes.
pub next_tx_sequence-InRange :
    (previous : ℕ)
    → previous ≤ 255
    → (0 < next_tx_sequence previous) × (next_tx_sequence previous ≤ 255)
unfolding next_tx_sequence
next_tx_sequence-InRange previous h = ground arith
