-- ===== src/S5Max/Mcu/Stop.antt =====
-- mcu.rs, commands.rs and frame.rs: what the stop set puts on the wire, and the state behind it.
use mathlib.Core.Path.{subst}
use vacuum_tiger.Prelude.{
  ℕ, ◌≡◌, refl, sym, ap, ◌∙◌, Bool, true, false, List, [], ◌∷◌, ◌++◌, append-nil, append_assoc, map,
  ◌==◌, if◌then◌else◌, Bool-cases, inl, inr, arith,
}
use vacuum_tiger.S5Max.Decoder.{Frame, pushed}
use vacuum_tiger.S5Max.Decoder.Chunks.{push_all}
use vacuum_tiger.S5Max.Decoder.RoundTrip.{wire, frame_for, encode_all-wires, push_all-frame_for}
use vacuum_tiger.S5Max.Safety.{reset_targets}
use vacuum_tiger.S5Max.Commands.{WireVelocity, Encoded, encoded}
use vacuum_tiger.S5Max.Mcu.Core.{
  write_complete, McuSafetyGuard, Step, done, failed, stop_failed, send, count_failure, send_stops,
  ordered_stop_frames, emit_stop_set,
}
use vacuum_tiger.S5Max.Mcu.Frames.{
  stop_payloads, InRange, next, ordered_stop_frames-wire, stop_payloads-encoded,
}

module _ (w : WireVelocity) where
  open w use {velocity, to_le_bytes, is_finite, four_bytes, zero_finite}

  -- The port has been handed the frames, and nothing but the port has changed.
  abbrev Handed : McuSafetyGuard w → List (List ℕ) → McuSafetyGuard w → Type 0
  Handed g frames g' =
      (g'.tty.written ≡ g.tty.written ++ frames)
      × (g'.next_sequence ≡ g.next_sequence)
      × (g'.safety ≡ g.safety)
      × (g'.command_acks ≡ g.command_acks)
      × (g'.armed ≡ g.armed)

  send-Handed :
      (bytes : List ℕ) (g : McuSafetyGuard w)
      → Handed g (bytes ∷ []) ((count_failure w (send w (encoded bytes) g)).1)
  unfolding send write_complete
  send-Handed bytes g = by_fails g (g.tty.fails) refl
    where
      by_fails :
          (g : McuSafetyGuard w) (fails : List Bool)
          → g.tty.fails ≡ fails
          → Handed g (bytes ∷ []) ((count_failure w (send w (encoded bytes) g)).1)
      by_fails g [] e = rw (write_complete, e) (refl, refl, refl, refl, refl)
      by_fails g (true ∷ fails) e = rw (write_complete, e) (refl, refl, refl, refl, refl)
      by_fails g (false ∷ fails) e = rw (write_complete, e) (refl, refl, refl, refl, refl)

  send_stops-Handed :
      (ps : List (List ℕ)) (g : McuSafetyGuard w)
      → Handed g (map wire ps) ((send_stops w (map (λ p. encoded (wire p)) ps) g).1)
  unfolding send_stops
  send_stops-Handed [] g = (sym (append-nil g.tty.written), refl, refl, refl, refl)
  send_stops-Handed (p ∷ ps) g =
      let g' = (count_failure w (send w (encoded (wire p)) g)).1 in
      let (a, b, c, d, e) = send-Handed (wire p) g in
      let (a', b', c', d', e') = send_stops-Handed ps g' in
      (
        a' ∙ ap (λ t. t ++ map wire ps) a ∙ append_assoc g.tty.written (wire p ∷ []) (map wire ps),
        b' ∙ b,
        c' ∙ c,
        d' ∙ d,
        e' ∙ e,
      )

  -- The state behind a stop set, whichever writes failed: the targets reset and the drive inactive,
  -- and the port handed five frames, from which an empty decoder gets the stop payloads.
  abbrev pub Stopped : McuSafetyGuard w → McuSafetyGuard w → Type 0
  Stopped g g' =
      (frames : List (List ℕ)) × (decoded : List Frame) × (g'.tty.written ≡ g.tty.written ++ frames)
      × (push_all [] ([] ∷ frames) ≡ pushed decoded [])
      × (map (λ f. f.payload) decoded ≡ stop_payloads w g.next_sequence)
      × (g'.safety ≡ reset_targets velocity g.safety)
      × (g'.drive_active ≡ false)
      × InRange w g'.next_sequence

  abbrev pub EndsStopped : McuSafetyGuard w → Step w (List ℕ) → Type 0
  EndsStopped g (done acks g') = Stopped g g'
  EndsStopped g (failed e g') = Stopped g g'

  -- The end of the stop set, behind its frames.
  abbrev pub stopped : List Encoded → ℕ → McuSafetyGuard w → McuSafetyGuard w
  stopped records n g =
      let g' = (send_stops w records (record g { next_sequence = n })).1 in
      record g' { drive_active = false; safety = reset_targets velocity g'.safety }

  abbrev pub ended : List Encoded → ℕ → McuSafetyGuard w → Step w (List ℕ)
  ended records n g =
      let failures = (send_stops w records (record g { next_sequence = n })).0 in
      if failures == 0
      then done [] (stopped records n g)
      else failed (stop_failed failures) (stopped records n g)

  stopped-Stopped :
      (n : ℕ) (g : McuSafetyGuard w)
      → InRange w n
      → Stopped g (stopped (map (λ p. encoded (wire p)) (stop_payloads w g.next_sequence)) n g)
  stopped-Stopped n g r =
      let ps = stop_payloads w g.next_sequence in
      let (a, b, c, d, e) = send_stops-Handed ps (record g { next_sequence = n }) in
      (
        map wire ps,
        map frame_for ps,
        a,
        push_all-frame_for ps [] (map wire ps)
            (omega arith, (omega arith, (omega arith, (omega arith, (omega arith, tt)))))
            (encode_all-wires ps (stop_payloads-encoded w g.next_sequence)),
        refl,
        ap (λ s. reset_targets velocity s) c,
        refl,
        subst (λ m. InRange w m) (sym b) r,
      )

  ended-EndsStopped :
      (records : List Encoded) (n : ℕ) (g : McuSafetyGuard w)
      → Stopped g (stopped records n g)
      → EndsStopped g (ended records n g)
  ended-EndsStopped records n g h =
      elim (Bool-cases ((send_stops w records (record g { next_sequence = n })).0 == 0)) [
        | inl y ↦ rw y h
        | inr m ↦ rw m h
      ]

  -- The stop set, from any guard whose next sequence number is one of 1 to 255, and however the port
  -- fails: all five frames are handed to the port, in order, and a decoder reads from them the
  -- wheels at a forced zero and the fan, both brushes and the water pump at zero. The targets are
  -- reset, the drive is inactive, and the next sequence number is one of 1 to 255 again.
  pub emit_stop_set-Stopped :
      (g : McuSafetyGuard w) → InRange w g.next_sequence → EndsStopped g (emit_stop_set w g)
  unfolding emit_stop_set ordered_stop_frames
  emit_stop_set-Stopped g r =
      let n = (ordered_stop_frames w g.next_sequence).1 in
      let r' = next w _ (next w _ (next w _ (next w _ (next w g.next_sequence r)))) in
      subst (λ records. EndsStopped g (ended records n g))
        (sym (ordered_stop_frames-wire w g.next_sequence r))
        (ended-EndsStopped (map (λ p. encoded (wire p)) (stop_payloads w g.next_sequence)) n g
          (stopped-Stopped n g r'))
