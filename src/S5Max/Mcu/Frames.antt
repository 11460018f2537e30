-- ===== src/S5Max/Mcu/Frames.antt =====
-- mcu.rs: the frames of the stop set on the wire.
use mathlib.Core.Path.{ap₂}
use vacuum_tiger.Prelude.{
  ℕ, ◌≤◌, ◌<◌, ◌≡◌, ◌≢◌, ap, true, false, List, [], ◌∷◌, ◌++◌, map, length, length-append, All,
  arith,
}
use vacuum_tiger.S5Max.Frame.{ok, encode_binary_frame}
use vacuum_tiger.S5Max.Decoder.RoundTrip.{wire}
use vacuum_tiger.S5Max.Commands.{
  WireVelocity, encoded, envelope, next_tx_sequence, fan_command, side_brush_command,
  main_brush_command, water_pump_command, wheel_command, fan_command_frame,
  side_brush_command_frame, main_brush_command_frame, water_pump_command_frame, wheel_command_frame,
}
use vacuum_tiger.S5Max.Commands.Sent.{
  envelope_encoded, command_frame-eq_encoded, next_tx_sequence-InRange,
}
use vacuum_tiger.S5Max.Mcu.Core.{ordered_stop_frames}

module _ (w : WireVelocity) where
  open w use {velocity, to_le_bytes, is_finite, four_bytes, zero_finite}

  -- The five payloads: the wheels at zero and forced, and every motor at zero, with the sequence
  -- numbers from `n` on.
  abbrev pub stop_payloads : ℕ → List (List ℕ)
  stop_payloads n =
      let n1 = next_tx_sequence n in
      let n2 = next_tx_sequence n1 in
      let n3 = next_tx_sequence n2 in
      let n4 = next_tx_sequence n3 in
      let still = to_le_bytes (velocity.zero) in
      envelope n wheel_command false (still ++ still ++ (1 ∷ 0 ∷ 0 ∷ 0 ∷ []))
      ∷ envelope n1 fan_command true (0 ∷ 0 ∷ [])
      ∷ envelope n2 side_brush_command true (0 ∷ 0 ∷ [])
      ∷ envelope n3 main_brush_command true (0 ∷ 0 ∷ [])
      ∷ envelope n4 water_pump_command false (0 ∷ 0 ∷ [])
      ∷ []

  -- A sequence number that the MCU takes.
  abbrev pub InRange : ℕ → Type 0
  InRange n = (0 < n) × (n ≤ 255)

  pub next : (n : ℕ) → InRange n → InRange (next_tx_sequence n)
  next n (p, h) = next_tx_sequence-InRange n h

  positive : (n : ℕ) → InRange n → n ≢ 0
  positive n r e = omega arith

  abbrev still : List ℕ
  still = to_le_bytes (velocity.zero) ++ to_le_bytes (velocity.zero) ++ (1 ∷ 0 ∷ 0 ∷ 0 ∷ [])

  still_short : length still ≤ 247
  still_short =
      let z = to_le_bytes (velocity.zero) in
      omega (
        arith,
        four_bytes (velocity.zero),
        length-append (z ++ z) (1 ∷ 0 ∷ 0 ∷ 0 ∷ []),
        length-append z (z ++ (1 ∷ 0 ∷ 0 ∷ 0 ∷ [])),
        length-append z (1 ∷ 0 ∷ 0 ∷ 0 ∷ []),
        length-append z z,
      )

  wheel_stop :
      (n : ℕ)
      → InRange n
      → wheel_command_frame w n velocity.zero velocity.zero true
        ≡ encoded (wire (envelope n wheel_command false still))
  unfolding wheel_command_frame
  wheel_stop n r =
      rw zero_finite
        (command_frame-eq_encoded n wheel_command false still (positive n r) still_short)

  fan_stop :
      (n : ℕ)
      → InRange n
      → fan_command_frame n 0 ≡ encoded (wire (envelope n fan_command true (0 ∷ 0 ∷ [])))
  unfolding fan_command_frame
  fan_stop n r =
      command_frame-eq_encoded n fan_command true (0 ∷ 0 ∷ []) (positive n r) (omega arith)

  side_brush_stop :
      (n : ℕ)
      → InRange n
      → side_brush_command_frame n 0 false
        ≡ encoded (wire (envelope n side_brush_command true (0 ∷ 0 ∷ [])))
  unfolding side_brush_command_frame
  side_brush_stop n r =
      command_frame-eq_encoded n side_brush_command true (0 ∷ 0 ∷ []) (positive n r) (omega arith)

  main_brush_stop :
      (n : ℕ)
      → InRange n
      → main_brush_command_frame n 0 false
        ≡ encoded (wire (envelope n main_brush_command true (0 ∷ 0 ∷ [])))
  unfolding main_brush_command_frame
  main_brush_stop n r =
      command_frame-eq_encoded n main_brush_command true (0 ∷ 0 ∷ []) (positive n r) (omega arith)

  water_pump_stop :
      (n : ℕ)
      → InRange n
      → water_pump_command_frame n 0 0
        ≡ encoded (wire (envelope n water_pump_command false (0 ∷ 0 ∷ [])))
  unfolding water_pump_command_frame
  water_pump_stop n r =
      command_frame-eq_encoded n water_pump_command false (0 ∷ 0 ∷ []) (positive n r) (omega arith)

  pub ordered_stop_frames-wire :
      (n : ℕ)
      → InRange n
      → (ordered_stop_frames w n).0 ≡ map (λ p. encoded (wire p)) (stop_payloads n)
  unfolding ordered_stop_frames
  ordered_stop_frames-wire n r =
      let r1 = next n r in
      let r2 = next (next_tx_sequence n) r1 in
      let r3 = next (next_tx_sequence (next_tx_sequence n)) r2 in
      let r4 = next (next_tx_sequence (next_tx_sequence (next_tx_sequence n))) r3 in
      ap₂ (λ f fs. f ∷ fs) (wheel_stop n r)
        (ap₂ (λ f fs. f ∷ fs) (fan_stop (next_tx_sequence n) r1)
          (ap₂ (λ f fs. f ∷ fs) (side_brush_stop (next_tx_sequence (next_tx_sequence n)) r2)
            (ap₂ (λ f fs. f ∷ fs)
              (main_brush_stop (next_tx_sequence (next_tx_sequence (next_tx_sequence n))) r3)
              (ap (λ f. f ∷ [])
                (water_pump_stop
                  (next_tx_sequence (next_tx_sequence (next_tx_sequence (next_tx_sequence n))))
                  r4)))))

  -- What a decoder gets from the frames that were handed to the port.
  pub stop_payloads-encoded :
      (n : ℕ) → All (λ p. encode_binary_frame p ≡ ok (wire p)) (stop_payloads n)
  stop_payloads-encoded n =
      let n1 = next_tx_sequence n in
      let n2 = next_tx_sequence n1 in
      let n3 = next_tx_sequence n2 in
      let n4 = next_tx_sequence n3 in
      (
        envelope_encoded n wheel_command false still still_short,
        (
          envelope_encoded n1 fan_command true (0 ∷ 0 ∷ []) (omega arith),
          (
            envelope_encoded n2 side_brush_command true (0 ∷ 0 ∷ []) (omega arith),
            (
              envelope_encoded n3 main_brush_command true (0 ∷ 0 ∷ []) (omega arith),
              (envelope_encoded n4 water_pump_command false (0 ∷ 0 ∷ []) (omega arith), tt),
            ),
          ),
        ),
      )
