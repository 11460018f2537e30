-- ===== src/S5Max/Mcu/Sends.antt =====
-- mcu.rs: the sending of a frame on a sound guard.
use vacuum_tiger.Prelude.{
  ℕ, ◌≤◌, ◌<◌, ◌≡◌, refl, ap, ◌∙◌, Bool, true, false, List, [], ◌∷◌, ◌++◌, length, arith,
}
use vacuum_tiger.S5Max.Decoder.RoundTrip.{wire}
use vacuum_tiger.S5Max.Commands.{WireVelocity, Encoded, encoded, envelope, command_frame}
use vacuum_tiger.S5Max.Commands.Sent.{command_frame-eq_encoded, next_tx_sequence-InRange}
use vacuum_tiger.S5Max.Mcu.Asked.{Request, request, Puts}
use vacuum_tiger.S5Max.Mcu.Acks.{CommandAckTracker, expect}
use vacuum_tiger.S5Max.Mcu.Core.{
  ExclusiveTty, write_complete, McuSafetyGuard, Step, done, advanced, of_write, of_expected,
  of_awaited, send, send_next, send_next_awaited, send_requiring_ack,
}

-- Every sequence number in range gives the frame of the request.
abbrev pub Encodes : (ℕ → Encoded) → Request → Type 0
Encodes frame r =
    (n : ℕ) → 0 < n → frame n ≡ encoded (wire (envelope n r.command r.request_ack r.bytes))

pub Encodes-command :
    (command : ℕ) (ack : Bool) (bytes : List ℕ)
    → length bytes ≤ 247
    → Encodes (λ n. command_frame n command ack bytes) (request command ack bytes)
Encodes-command command ack bytes h n pos =
    command_frame-eq_encoded n command ack bytes (λ e. omega arith) h

pub write_complete_sound :
    (bytes : List ℕ) (t : ExclusiveTty)
    → t.fails ≡ []
    → (t' : ExclusiveTty) × (write_complete bytes t ≡ (t', true))
      × (t'.fails ≡ [])
      × (t'.written ≡ t.written ++ (bytes ∷ []))
unfolding write_complete
write_complete_sound bytes t e = (
  record t { written = t.written ++ (bytes ∷ []) },
  rw (write_complete, e)
      (ap (λ fails. (record { written = t.written ++ (bytes ∷ []); fails = fails }, true)) e),
  e,
  refl,
)

expect_sound :
    (n : ℕ) (bytes : List ℕ) (now : ℕ) (t : CommandAckTracker)
    → t.poisoned ≡ false
    → (t' : CommandAckTracker) × (expect n bytes now t ≡ (t', true)) × (t'.poisoned ≡ false)
unfolding expect
expect_sound n bytes now t e =
    (record (expect n bytes now t).0 { poisoned = false }, rw e refl, refl)

module _ (w : WireVelocity) where
  open w use {velocity, to_le_bytes, is_finite, four_bytes}
  open velocity use {Carrier, zero, is_zero}

  -- No write fails, no mutex is poisoned, and the sequence number is one that the MCU takes.
  abbrev pub Sound : McuSafetyGuard w → Type 0
  Sound g =
      (g.tty.fails ≡ [])
      × (g.command_acks.poisoned ≡ false)
      × (g.safety.poisoned ≡ false)
      × (0 < g.next_sequence)
      × (g.next_sequence ≤ 255)

  -- A call that sends the requests: the guard stays sound, the targets are as they were, and the
  -- drive is active or not as given.
  abbrev pub Sends : McuSafetyGuard w → List Request → Bool → Step w (List ℕ) → Type 0
  Sends g rs active step =
      (acks : List ℕ) × (g' : McuSafetyGuard w) × (step ≡ done acks g')
      × Sound g'
      × (g'.safety ≡ g.safety)
      × Puts w g rs g'
      × (g'.drive_active ≡ active)

  pub send_next-Sends :
      (frame : ℕ → Encoded) (r : Request) (g : McuSafetyGuard w)
      → Encodes frame r
      → Sound g
      → Sends g (r ∷ []) g.drive_active (send_next w frame g)
  unfolding send
  send_next-Sends frame r g enc (fails, acks, safety, pos, most) =
      let n = g.next_sequence in
      let bytes = wire (envelope n r.command r.request_ack r.bytes) in
      let (t, went, none_fails, written) = write_complete_sound bytes g.tty fails in
      let (pos', most') = next_tx_sequence-InRange n most in
      let g' : McuSafetyGuard w = record (advanced w g) { tty = t } in
      (
        [],
        g',
        ap (λ f. send w f (advanced w g)) (enc n pos) ∙ ap (λ q. of_write w q (advanced w g)) went,
        (none_fails, acks, safety, pos', most'),
        refl,
        (written, refl),
        refl,
      )

  pub send_next_awaited-Sends :
      (now : ℕ) (frame : ℕ → Encoded) (r : Request) (g : McuSafetyGuard w)
      → Encodes frame r
      → Sound g
      → Sends g (r ∷ []) g.drive_active (send_next_awaited w now frame g)
  unfolding send_requiring_ack
  send_next_awaited-Sends now frame r g enc (fails, acks, safety, pos, most) =
      let n = g.next_sequence in
      let bytes = wire (envelope n r.command r.request_ack r.bytes) in
      let (t, went, none_fails, written) = write_complete_sound bytes g.tty fails in
      let (a, expected, still_sound) = expect_sound n bytes now g.command_acks acks in
      let (pos', most') = next_tx_sequence-InRange n most in
      let g1 : McuSafetyGuard w = record (advanced w g) { command_acks = a } in
      let g' : McuSafetyGuard w = record g1 { tty = t } in
      (
        n ∷ [],
        g',
        ap (λ f. send_requiring_ack w now n f (advanced w g)) (enc n pos)
            ∙ ap (λ q. of_expected w n bytes q (advanced w g)) expected
            ∙ ap (λ q. of_awaited w n q g1) went,
        (none_fails, still_sound, safety, pos', most'),
        refl,
        (written, refl),
        refl,
      )
