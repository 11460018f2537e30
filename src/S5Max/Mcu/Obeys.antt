-- ===== src/S5Max/Mcu/Obeys.antt =====
-- mcu.rs and safety.rs: every command of the actuators on a sound guard.
use vacuum_tiger.Prelude.{
  sym, append-nil, append_assoc, ℕ, ◌≡◌, refl, ap, ◌∙◌, true, false, none, List, [], ◌∷◌, ◌++◌, map,
  ◌==◌, if◌then◌else◌, arith,
}
use vacuum_tiger.S5Max.Decoder.RoundTrip.{wire}
use vacuum_tiger.S5Max.Safety.{
  ActuatorTargets, default_targets, SafetyController, reset_targets, clear_drive_target, set_fan,
  set_main_brush, set_side_brush, set_water_pump,
}
use vacuum_tiger.S5Max.Commands.{
  WireVelocity, encoded, power_of_two, fan_command_frame, main_brush_command_frame,
  side_brush_command_frame, water_pump_command_frame, wheel_command_frame, fan_command,
  main_brush_command, side_brush_command, water_pump_command, fan_subsystem, main_brush_subsystem,
  side_brush_subsystem,
}
use vacuum_tiger.S5Max.Mcu.Core.{
  ExclusiveTty, ActuatorCommand, wake_mcu, enable_subsystem, drive, stop_drive, fan, main_brush,
  side_brush, water_pump, charger, emergency_stop, McuSafetyGuard, Step, done, failed, stop_failed,
  forced_wheel_stop, send, of_write, count_failure, send_stops, ordered_stop_frames, emit_stop_set,
  execute,
}
use vacuum_tiger.S5Max.Mcu.Frames.{next, stop_payloads, ordered_stop_frames-wire}
use vacuum_tiger.S5Max.Mcu.Asked.{
  Request, request, wheels, requests, active_after, Puts-nil, Hears, Hears-Puts,
}
use vacuum_tiger.S5Max.Mcu.Sends.{Encodes-command, write_complete_sound, Sound, send_next-Sends}
use vacuum_tiger.S5Max.Mcu.Sound.{
  bind-Meets, bind-Sends, stored-Meets, set_target-Meets, run_motor-Meets, targets_after,
  wheel-Encodes, HasFrame, Asks, wake_mcu-Asks, enable_subsystem-Asks, charger-Asks,
}
use vacuum_tiger.S5Max.Mcu.Drive.{drive-Meets}

module _ (w : WireVelocity) where
  open w use {velocity, is_finite, zero_finite}
  open velocity use {Carrier, zero, is_zero}

  fan-Meets :
      (now target : ℕ) (g : McuSafetyGuard w)
      → Sound w g
      → Asks w (fan target) g (execute w now (fan target) g)
  unfolding execute set_fan fan_command_frame power_of_two
  fan-Meets now target g sound =
      run_motor-Meets w now fan_command fan_subsystem target (λ n. fan_command_frame n target)
        (λ t. record t { fan = target }) g (refl, refl, refl)
        (Encodes-command fan_command true (target ∷ 0 ∷ []) (omega arith)) sound

  main_brush-Meets :
      (now target : ℕ) (g : McuSafetyGuard w)
      → Sound w g
      → Asks w (main_brush target) g (execute w now (main_brush target) g)
  unfolding execute set_main_brush main_brush_command_frame power_of_two
  main_brush-Meets now target g sound =
      run_motor-Meets w now main_brush_command main_brush_subsystem target
        (λ n. main_brush_command_frame n target false) (λ t. record t { main_brush = target }) g
        (refl, refl, refl) (Encodes-command main_brush_command true (target ∷ 0 ∷ []) (omega arith))
        sound

  side_brush-Meets :
      (now target : ℕ) (g : McuSafetyGuard w)
      → Sound w g
      → Asks w (side_brush target) g (execute w now (side_brush target) g)
  unfolding execute set_side_brush side_brush_command_frame power_of_two
  side_brush-Meets now target g sound =
      run_motor-Meets w now side_brush_command side_brush_subsystem target
        (λ n. side_brush_command_frame n target false) (λ t. record t { side_brush = target }) g
        (refl, refl, refl) (Encodes-command side_brush_command true (target ∷ 0 ∷ []) (omega arith))
        sound

  water_pump-Meets :
      (now on off : ℕ) (g : McuSafetyGuard w)
      → Sound w g
      → Asks w (water_pump on off) g (execute w now (water_pump on off) g)
  unfolding execute set_water_pump water_pump_command_frame
  water_pump-Meets now on off g sound =
      let set : ActuatorTargets velocity → ActuatorTargets velocity =
        λ t. record t { water_pump = on } in
      bind-Meets w (set g.safety.targets) g (request water_pump_command false (on ∷ off ∷ []) ∷ [])
        [] g.drive_active g.drive_active _ _
        (send_next-Sends w (λ n. water_pump_command_frame n on off)
          (request water_pump_command false (on ∷ off ∷ [])) g
          (Encodes-command water_pump_command false (on ∷ off ∷ []) (omega arith)) sound)
        (λ acks g1 sound1 kept same. set_target-Meets w set acks g g1 sound1 kept same)

  stop_drive-Meets :
      (now : ℕ) (g : McuSafetyGuard w)
      → Sound w g
      → Asks w stop_drive g (execute w now stop_drive g)
  unfolding execute forced_wheel_stop clear_drive_target
  stop_drive-Meets now g sound =
      let t = record g.safety.targets { linear = zero; angular = zero } in
      let still : List Request = wheels w zero zero 1 ∷ [] in
      bind-Meets w t g still [] false false _ _
        (bind-Sends w g still [] g.drive_active false _ _
          (send_next-Sends w (λ n. wheel_command_frame w n zero zero true) (wheels w zero zero 1) g
            (wheel-Encodes w zero zero true zero_finite zero_finite) sound)
          (λ acks g1 sound1 same.
            (acks, record g1 { drive_active = false }, refl, sound1, refl, Puts-nil w g1, refl)))
        (λ acks g1 sound1 kept same.
          let safe = sound1.2 in
          let c : SafetyController velocity = record g1.safety {
            targets = record g1.safety.targets { linear = zero; angular = zero };
            drive_lease_deadline = none;
          } in
          stored-Meets w t false acks g1 (clear_drive_target velocity g1.safety) c (simp safe refl)
            safe (ap (λ s. record s.targets { linear = zero; angular = zero }) kept) sound1 same)

  send_stops_sound :
      (ps : List (List ℕ)) (g : McuSafetyGuard w)
      → g.tty.fails ≡ []
      → (t : ExclusiveTty) × (t.fails ≡ [])
        × (t.written ≡ g.tty.written ++ map wire ps)
        × (send_stops w (map (λ p. encoded (wire p)) ps) g ≡ (0, record g { tty = t }))
  unfolding send_stops send
  send_stops_sound [] g fails = (g.tty, fails, sym (append-nil g.tty.written), refl)
  send_stops_sound (p ∷ ps) g fails =
      let (t, went, none_fails, written) = write_complete_sound (wire p) g.tty fails in
      let sent : count_failure w (send w (encoded (wire p)) g) ≡ (0, record g { tty = t }) =
        ap (λ q. count_failure w (of_write w q g)) went in
      let (t', none_fails', written', e) = send_stops_sound ps (record g { tty = t }) none_fails in
      (
        t',
        none_fails',
        written'
            ∙ ap (λ q. q ++ map wire ps) written
            ∙ append_assoc g.tty.written (wire p ∷ []) (map wire ps),
        rw (sent, e) refl,
      )

  -- The end of the stop set, behind the loop.
  abbrev finish : ℕ × McuSafetyGuard w → Step w (List ℕ)
  finish (failures, g') =
      let stopped : McuSafetyGuard w = record g' {
        drive_active = false;
        safety = reset_targets velocity g'.safety;
      } in
      if failures == 0 then done [] stopped else failed (stop_failed failures) stopped

  reset_targets_sound :
      (c : SafetyController velocity)
      → c.poisoned ≡ false
      → ((reset_targets velocity c).poisoned ≡ false)
        × ((reset_targets velocity c).targets ≡ default_targets velocity)
  unfolding reset_targets
  reset_targets_sound c safe = (simp safe refl, simp safe refl)

  emergency_stop-Meets :
      (now : ℕ) (g : McuSafetyGuard w)
      → Sound w g
      → Asks w emergency_stop g (execute w now emergency_stop g)
  unfolding execute emit_stop_set ordered_stop_frames
  emergency_stop-Meets now g (fails, tracker, safe, pos, most) =
      let n = (ordered_stop_frames w g.next_sequence).1 in
      let (pos', most') =
        next w _ (next w _ (next w _ (next w _ (next w g.next_sequence (pos, most))))) in
      let (t, none_fails, written, e) =
        send_stops_sound (stop_payloads w g.next_sequence) (record g { next_sequence = n }) fails in
      let (safe', reset) = reset_targets_sound g.safety safe in
      let g0 : McuSafetyGuard w = record g { next_sequence = n } in
      let g' : McuSafetyGuard w = record g0 {
        tty = t;
        drive_active = false;
        safety = reset_targets velocity g.safety;
      } in
      (
        [],
        g',
        ap (λ records. finish (send_stops w records g0))
              (ordered_stop_frames-wire w g.next_sequence (pos, most))
            ∙ ap finish e,
        (none_fails, tracker, safe', pos', most'),
        reset,
        (written, refl),
        refl,
      )

  execute-Asks :
      (now : ℕ) (c : ActuatorCommand w) (g : McuSafetyGuard w)
      → HasFrame w c
      → Sound w g
      → Asks w c g (execute w now c g)
  execute-Asks now wake_mcu g h sound = wake_mcu-Asks w now g sound
  execute-Asks now (enable_subsystem n) g h sound = enable_subsystem-Asks w now n g h sound
  execute-Asks now (drive linear angular) g h sound = drive-Meets w now linear angular g h sound
  execute-Asks now stop_drive g h sound = stop_drive-Meets now g sound
  execute-Asks now (fan target) g h sound = fan-Meets now target g sound
  execute-Asks now (main_brush target) g h sound = main_brush-Meets now target g sound
  execute-Asks now (side_brush target) g h sound = side_brush-Meets now target g sound
  execute-Asks now (water_pump on off) g h sound = water_pump-Meets now on off g sound
  execute-Asks now (charger enabled) g h sound = charger-Asks w now enabled g sound
  execute-Asks now emergency_stop g h sound = emergency_stop-Meets now g sound

  -- A command that is carried out: what the port hears, the targets, and whether the drive is active.
  abbrev pub Obeys : ActuatorCommand w → McuSafetyGuard w → Step w (List ℕ) → Type 0
  Obeys c g step =
      (acks : List ℕ) × (g' : McuSafetyGuard w) × (step ≡ done acks g')
      × Sound w g'
      × Hears w g (requests w c g.drive_active) g'
      × (g'.safety.targets ≡ targets_after w c g.safety.targets)
      × (g'.drive_active ≡ active_after w c g.drive_active)

  -- A sound guard obeys every command that has a frame: no write fails, the mutexes are not poisoned
  -- and the next sequence number is one of 1 to 255; a drive command has finite velocities, and a
  -- subsystem is given by one bit other than the lowest. The call ends well and the guard is sound
  -- again. The port has been handed frames from which a decoder gets just the requests of the
  -- command, in order and with the sequence numbers from the next one on: a motor is enabled before
  -- it is given a target other than zero, and a drive at rest is woken and enabled before it gets
  -- velocities other than zero. The targets are the old ones with what the command asks for (all at
  -- rest after an emergency stop), and the drive is active as the velocities say.
  pub execute-Obeys :
      (now : ℕ) (c : ActuatorCommand w) (g : McuSafetyGuard w)
      → HasFrame w c
      → Sound w g
      → Obeys c g (execute w now c g)
  execute-Obeys now c g h sound =
      let (acks, g', e, sound', set, puts, active) = execute-Asks now c g h sound in
      (acks, g', e, sound', Hears-Puts w c g g' puts, set, active)
