-- ===== src/S5Max/Mcu/Drive.antt =====
-- mcu.rs: a drive command on a sound guard, step by step.
use mathlib.Core.Path.{subst}
use vacuum_tiger.Prelude.{
  not, ◌||◌, Bool, ℕ, ◌+◌, ◌≡◌, refl, ap, ◌∙◌, true, false, ◌&&◌, none, some, List, [], ◌∷◌, ◌++◌,
  map, if◌then◌else◌, arith,
}
use vacuum_tiger.S5Max.Safety.{
  ActuatorTargets, SafetyController, arm_drive_lease, drive_lease_duration,
}
use vacuum_tiger.S5Max.Commands.{
  WireVelocity, power_of_two, system_mode_command_frame, subsystem_state_frame, wheel_command_frame,
  wheel_odometry_subsystem, system_mode_command,
}
use vacuum_tiger.S5Max.Mcu.Core.{
  drive, ◌>>=◌, McuSafetyGuard, Step, done, DriveStep, wake_mcu_step, enable_wheels, velocity_step,
  drive_steps, drive_step, run_drive_steps, execute,
}
use vacuum_tiger.S5Max.Mcu.Asked.{Request, wake, enable, wheels, requests}
use vacuum_tiger.S5Max.Mcu.Sends.{
  Encodes-command, Sound, Sends, send_next-Sends, send_next_awaited-Sends,
}
use vacuum_tiger.S5Max.Mcu.Sound.{
  bind-Meets, Sends-done, bind-Sends, stored-Meets, Meets, wheel-Encodes, subsystem-Encodes,
  HasFrame, Asks,
}

module _ (w : WireVelocity) where
  open w use {velocity, is_finite, zero_finite}
  open velocity use {Carrier, zero, is_zero}

  -- What a step of a drive asks for.
  abbrev asked_by : Carrier → Carrier → DriveStep → Request
  asked_by linear angular wake_mcu_step = wake
  asked_by linear angular enable_wheels = enable 0x400
  asked_by linear angular velocity_step = wheels w linear angular 0

  drive_step-Sends :
      (now : ℕ) (linear angular : Carrier) (step : DriveStep) (g : McuSafetyGuard w)
      → HasFrame w (drive linear angular)
      → Sound w g
      → Sends w g
          (asked_by linear angular step ∷ [])
          g.drive_active
          (drive_step w now linear angular step g)
  unfolding system_mode_command_frame power_of_two
  drive_step-Sends now linear angular wake_mcu_step g h sound =
      send_next-Sends w (λ n. system_mode_command_frame n 0) wake g
        (Encodes-command system_mode_command false
          (0x73 ∷ 0x79 ∷ 0x73 ∷ 0x5f ∷ 0x6d ∷ 0x64 ∷ 0 ∷ 0 ∷ []) (omega arith))
        sound
  drive_step-Sends now linear angular enable_wheels g h sound =
      send_next_awaited-Sends w now (λ n. subsystem_state_frame n wheel_odometry_subsystem true)
        (enable 0x400) g (subsystem-Encodes w wheel_odometry_subsystem (refl, refl, refl)) sound
  drive_step-Sends now linear angular velocity_step g (h, k) sound =
      send_next-Sends w (λ n. wheel_command_frame w n linear angular false)
        (wheels w linear angular 0) g (wheel-Encodes w linear angular false h k) sound

  -- A call whose acknowledgements are put behind others.
  Sends-then_done :
      (g : McuSafetyGuard w) (rs : List Request) (step : Step w (List ℕ)) (active : Bool)
      → Sends w g rs g.drive_active step
      → (acks : List ℕ) → g.drive_active ≡ active
      → Sends w g rs active (◌>>=◌ w step (λ more g. done (acks ++ more) g))
  Sends-then_done g rs step active (more, g', e, sound, kept, puts, same) acks same' = (
    acks ++ more,
    g',
    ap (λ q. ◌>>=◌ w q (λ more g. done (acks ++ more) g)) e,
    sound,
    kept,
    puts,
    same ∙ same',
  )

  -- The flag that a drive leaves behind.
  Meets-set_active :
      (t : ActuatorTargets velocity) (g : McuSafetyGuard w) (step : Step w (List ℕ))
      (flag active : Bool) {between : Bool}
      → flag ≡ active
      → Meets w t g [] between step
      → Meets w t g [] active
          (◌>>=◌ w step (λ acks g. done acks (record g { drive_active = flag })))
  Meets-set_active t g step flag active e (acks, g', e', sound, set, puts, same) = (
    acks,
    record g' { drive_active = flag },
    ap (λ q. ◌>>=◌ w q (λ acks g. done acks (record g { drive_active = flag }))) e',
    sound,
    set,
    puts,
    e,
  )

  run_drive_steps-Sends :
      (now : ℕ) (linear angular : Carrier) (steps : List DriveStep) (g : McuSafetyGuard w)
      → HasFrame w (drive linear angular)
      → Sound w g
      → Sends w g
          (map (λ step. asked_by linear angular step) steps)
          g.drive_active
          (run_drive_steps w now linear angular steps g)
  unfolding run_drive_steps
  run_drive_steps-Sends now linear angular [] g h sound = Sends-done w [] g sound
  run_drive_steps-Sends now linear angular (step ∷ steps) g h sound =
      let front = asked_by linear angular step ∷ [] in
      let later = map (λ step. asked_by linear angular step) steps in
      bind-Sends w g front later g.drive_active g.drive_active _ _
        (drive_step-Sends now linear angular step g h sound)
        (λ acks g1 sound1 same.
          Sends-then_done g1 later _ _ (run_drive_steps-Sends now linear angular steps g1 h sound1)
            acks same)

  -- The requests of a drive are those of its steps.
  drive_steps-requests :
      (active : Bool) (linear angular : Carrier)
      → map (λ step. asked_by linear angular step) (drive_steps w active linear angular) ++ []
        ≡ requests w (drive linear angular) active
  unfolding drive_steps
  drive_steps-requests active linear angular =
      by_tests active (is_zero linear) (is_zero angular) refl refl
    where
      by_tests :
          (active a b : Bool)
          → is_zero linear ≡ a
          → is_zero angular ≡ b
          → map (λ step. asked_by linear angular step) (drive_steps w active linear angular) ++ []
            ≡ requests w (drive linear angular) active
      by_tests true true true e f = rw (e, f) refl
      by_tests true true false e f = rw (e, f) refl
      by_tests true false b e f = rw e refl
      by_tests false true true e f = rw (e, f) refl
      by_tests false true false e f = rw (e, f) refl
      by_tests false false b e f = rw e refl

  moving : (a b : Bool) → (not a || not b) ≡ not (a && b)
  moving true b = refl
  moving false b = refl

  pub drive-Meets :
      (now : ℕ) (linear angular : Carrier) (g : McuSafetyGuard w)
      → HasFrame w (drive linear angular)
      → Sound w g
      → Asks w (drive linear angular) g (execute w now (drive linear angular) g)
  unfolding execute arm_drive_lease
  drive-Meets now linear angular g h sound =
      let t : ActuatorTargets velocity = record g.safety.targets {
        linear = linear;
        angular = angular;
      } in
      let steps = drive_steps w g.drive_active linear angular in
      let behind = not (is_zero linear && is_zero angular) in
      subst (λ rs. Meets w t g rs behind (execute w now (drive linear angular) g))
        (drive_steps-requests g.drive_active linear angular)
        (bind-Meets w t g (map (λ step. asked_by linear angular step) steps) [] g.drive_active
          behind _ _ (run_drive_steps-Sends now linear angular steps g h sound)
          (λ acks g1 sound1 kept same.
            let safe = sound1.2 in
            let c : SafetyController velocity = record g1.safety {
              targets = record g1.safety.targets { linear = linear; angular = angular };
              drive_lease_deadline =
                  if is_zero linear && is_zero angular
                  then none
                  else some (now + drive_lease_duration);
            } in
            Meets-set_active t g1 _ _ behind (moving (is_zero linear) (is_zero angular)) (
              stored-Meets w t g1.drive_active acks g1
                (arm_drive_lease velocity linear angular now g1.safety) c (simp safe refl) safe
                (ap (λ s. record s.targets { linear = linear; angular = angular }) kept) sound1
                refl)))
