-- ===== src/S5Max/Mcu/Sound.antt =====
-- mcu.rs and safety.rs: the targets behind a command on a sound guard.
use mathlib.Core.Path.{subst}
use vacuum_tiger.Prelude.{
  ℕ, ◌+◌, ◌≡◌, refl, sym, ap, ◌∙◌, Bool, true, false, Option, none, List, [], ◌∷◌, ◌++◌,
  length-append, ◌==◌, if◌then◌else◌, Bool-cases, inl, inr, ◌%◌, arith,
}
use vacuum_tiger.S5Max.Decoder.RoundTrip.{wire}
use vacuum_tiger.S5Max.Safety.{
  Error, ActuatorTargets, default_targets, SafetyController, set_target,
}
use vacuum_tiger.S5Max.Commands.{
  WireVelocity, Encoded, encoded, envelope, command_frame, u8_from, u32_le_bytes, power_of_two,
  system_mode_command_frame, subsystem_state_frame, charger_command_frame, wheel_command_frame,
  wheel_command, charger_command, system_mode_command, subsystem_state_command,
}
use vacuum_tiger.S5Max.Mcu.Core.{
  ActuatorCommand, wake_mcu, enable_subsystem, drive, stop_drive, fan, main_brush, side_brush,
  water_pump, charger, emergency_stop, McuSafetyGuard, Step, done, ◌>>=◌, with_safety, send_next,
  send_next_awaited, run_motor, execute,
}
use vacuum_tiger.S5Max.Mcu.Asked.{
  Request, request, wake, enable, motor, wheels, requests, active_after, Puts, Puts-nil,
  Puts-append,
}
use vacuum_tiger.S5Max.Mcu.Sends.{
  Encodes, Encodes-command, Sound, Sends, send_next-Sends, send_next_awaited-Sends,
}

forced_bytes : (forced : Bool) → u32_le_bytes (u8_from forced) ≡ u8_from forced ∷ 0 ∷ 0 ∷ 0 ∷ []
forced_bytes true = refl
forced_bytes false = refl

module _ (w : WireVelocity) where
  open w use {velocity, to_le_bytes, is_finite, four_bytes}
  open velocity use {Carrier, zero, is_zero}

  -- What the commands ask of the targets.
  abbrev pub targets_after : ActuatorCommand w → ActuatorTargets velocity → ActuatorTargets velocity
  targets_after wake_mcu t = t
  targets_after (enable_subsystem subsystem) t = t
  targets_after (drive linear angular) t = record t { linear = linear; angular = angular }
  targets_after stop_drive t = record t { linear = zero; angular = zero }
  targets_after (fan target) t = record t { fan = target }
  targets_after (main_brush target) t = record t { main_brush = target }
  targets_after (side_brush target) t = record t { side_brush = target }
  targets_after (water_pump on_interval off_interval) t = record t { water_pump = on_interval }
  targets_after (charger enabled) t = t
  targets_after emergency_stop t = default_targets velocity

  -- The commands that have a frame: finite velocities, and the subsystem of one bit other than the
  -- lowest.
  abbrev pub HasFrame : ActuatorCommand w → Type 0
  HasFrame (drive linear angular) = (is_finite linear ≡ true) × (is_finite angular ≡ true)
  HasFrame (enable_subsystem n) =
      ((n == 0) ≡ false) × (power_of_two 32 n ≡ true) × ((n % 2 == 0) ≡ true)
  HasFrame c = Unit {0}

  -- What a call comes to on the way to a command's end: the targets, what is handed to the port, and
  -- whether the drive is active.
  abbrev pub Meets :
      ActuatorTargets velocity → McuSafetyGuard w → List Request → Bool → Step w (List ℕ) → Type 0
  Meets t g rs active step =
      (acks : List ℕ) × (g' : McuSafetyGuard w) × (step ≡ done acks g')
      × Sound w g'
      × (g'.safety.targets ≡ t)
      × Puts w g rs g'
      × (g'.drive_active ≡ active)

  -- The same of a whole command.
  abbrev pub Asks : ActuatorCommand w → McuSafetyGuard w → Step w (List ℕ) → Type 0
  Asks c g step =
      Meets (targets_after c g.safety.targets) g (requests w c g.drive_active)
        (active_after w c g.drive_active) step

  pub wheel-Encodes :
      (linear angular : Carrier) (forced : Bool)
      → is_finite linear ≡ true
      → is_finite angular ≡ true
      → Encodes
          (λ n. wheel_command_frame w n linear angular forced)
          (wheels w linear angular (u8_from forced))
  unfolding wheel_command_frame
  wheel-Encodes linear angular forced h k n pos =
      let a = to_le_bytes linear in
      let b = to_le_bytes angular in
      let c = u32_le_bytes (u8_from forced) in
      rw (h, k)
        (subst
          (λ d.
            command_frame n wheel_command false (a ++ b ++ c)
            ≡ encoded (wire (envelope n wheel_command false (a ++ b ++ d))))
          (forced_bytes forced)
          (Encodes-command wheel_command false (a ++ b ++ c)
            (omega (
              arith,
              four_bytes linear,
              four_bytes angular,
              length-append (a ++ b) c,
              length-append a (b ++ c),
              length-append a b,
              length-append b c,
            ))
            n pos))

  pub subsystem-Encodes :
      (selector : ℕ)
      → HasFrame (enable_subsystem selector)
      → Encodes (λ n. subsystem_state_frame n selector true) (enable selector)
  unfolding subsystem_state_frame
  subsystem-Encodes selector (a, b, c) n pos =
      rw (a, b, c)
        (Encodes-command subsystem_state_command true (u32_le_bytes (selector + 1)) (omega arith) n
          pos)

  -- A command that only sends leaves the targets.
  Asks-Sends :
      (c : ActuatorCommand w) (g : McuSafetyGuard w) (step : Step w (List ℕ))
      → targets_after c g.safety.targets ≡ g.safety.targets
      → Sends w g (requests w c g.drive_active) (active_after w c g.drive_active) step
      → Asks c g step
  Asks-Sends c g step same (acks, g', e, sound, kept, puts, active) =
      (acks, g', e, sound, ap (λ s. s.targets) kept ∙ sym same, puts, active)

  pub wake_mcu-Asks :
      (now : ℕ) (g : McuSafetyGuard w) → Sound w g → Asks wake_mcu g (execute w now wake_mcu g)
  unfolding execute
  wake_mcu-Asks now g sound =
      Asks-Sends wake_mcu g (send_next w (λ n. system_mode_command_frame n 0) g) refl (
        send_next-Sends w (λ n. system_mode_command_frame n 0) wake g
          (unfold system_mode_command_frame in
            Encodes-command system_mode_command false
              (0x73 ∷ 0x79 ∷ 0x73 ∷ 0x5f ∷ 0x6d ∷ 0x64 ∷ 0 ∷ 0 ∷ []) (omega arith))
          sound)

  pub enable_subsystem-Asks :
      (now n : ℕ) (g : McuSafetyGuard w)
      → HasFrame (enable_subsystem n)
      → Sound w g
      → Asks (enable_subsystem n) g (execute w now (enable_subsystem n) g)
  unfolding execute
  enable_subsystem-Asks now n g h sound =
      Asks-Sends (enable_subsystem n) g
        (send_next_awaited w now (λ k. subsystem_state_frame k n true) g) refl
        (send_next_awaited-Sends w now (λ k. subsystem_state_frame k n true) (enable n) g
          (subsystem-Encodes n h) sound)

  charger-Encodes :
      (enabled : Bool)
      → Encodes
          (λ k. charger_command_frame k enabled)
          (request charger_command true ((if enabled then 1 else 0) ∷ []))
  unfolding charger_command_frame
  charger-Encodes true = Encodes-command charger_command true (1 ∷ []) (omega arith)
  charger-Encodes false = Encodes-command charger_command true (0 ∷ []) (omega arith)

  pub charger-Asks :
      (now : ℕ) (enabled : Bool) (g : McuSafetyGuard w)
      → Sound w g
      → Asks (charger enabled) g (execute w now (charger enabled) g)
  unfolding execute
  charger-Asks now enabled g sound =
      Asks-Sends (charger enabled) g
        (send_next_awaited w now (λ k. charger_command_frame k enabled) g) refl
        (send_next_awaited-Sends w now (λ k. charger_command_frame k enabled)
          (request charger_command true ((if enabled then 1 else 0) ∷ [])) g
          (charger-Encodes enabled) sound)

  -- What follows a call that sends.
  pub bind-Meets :
      (t : ActuatorTargets velocity) (g : McuSafetyGuard w) (rs ss : List Request)
      (between behind : Bool) (step : Step w (List ℕ))
      (k : List ℕ → McuSafetyGuard w → Step w (List ℕ))
      → Sends w g rs between step
      → ((acks : List ℕ) (g' : McuSafetyGuard w)
          → Sound w g'
          → g'.safety ≡ g.safety
          → g'.drive_active ≡ between
          → Meets t g' ss behind (k acks g'))
      → Meets t g (rs ++ ss) behind (◌>>=◌ w step k)
  bind-Meets t g rs ss between behind step k (acks, g', e, sound, kept, puts, active) f =
      let (acks', g'', e', sound', set, puts', active') = f acks g' sound kept active in
      (
        acks',
        g'',
        ap (λ q. ◌>>=◌ w q k) e ∙ e',
        sound',
        set,
        Puts-append w g g' g'' rs ss puts puts',
        active',
      )

  pub Sends-done :
      (acks : List ℕ) (g : McuSafetyGuard w) → Sound w g → Sends w g [] g.drive_active (done acks g)
  Sends-done acks g sound = (acks, g, refl, sound, refl, Puts-nil w g, refl)

  pub bind-Sends :
      (g : McuSafetyGuard w) (rs ss : List Request) (between behind : Bool) (step : Step w (List ℕ))
      (k : List ℕ → McuSafetyGuard w → Step w (List ℕ))
      → Sends w g rs between step
      → ((acks : List ℕ) (g' : McuSafetyGuard w)
          → Sound w g'
          → g'.drive_active ≡ between
          → Sends w g' ss behind (k acks g'))
      → Sends w g (rs ++ ss) behind (◌>>=◌ w step k)
  bind-Sends g rs ss between behind step k (acks, g', e, sound, kept, puts, active) f =
      let (acks', g'', e', sound', kept', puts', active') = f acks g' sound active in
      (
        acks',
        g'',
        ap (λ q. ◌>>=◌ w q k) e ∙ e',
        sound',
        kept' ∙ kept,
        Puts-append w g g' g'' rs ss puts puts',
        active',
      )

  -- A call of the safety controller that goes through.
  pub stored-Meets :
      (t : ActuatorTargets velocity) (active : Bool) (acks : List ℕ) (g : McuSafetyGuard w)
      (q : SafetyController velocity × Option Error) (c : SafetyController velocity)
      → q ≡ (c, none)
      → c.poisoned ≡ false
      → c.targets ≡ t
      → Sound w g
      → g.drive_active ≡ active
      → Meets t g [] active (with_safety w acks q g)
  stored-Meets t active acks g q c e safe set (fails, tracker, was_safe, pos, most) same = (
    acks,
    record g { safety = c },
    ap (λ q. with_safety w acks q g) e,
    (fails, tracker, safe, pos, most),
    set,
    Puts-nil w g,
    same,
  )

  -- The update of the targets at the end of a command.
  pub set_target-Meets :
      (set : ActuatorTargets velocity → ActuatorTargets velocity) (acks : List ℕ)
      (g g' : McuSafetyGuard w)
      → Sound w g'
      → g'.safety ≡ g.safety
      → g'.drive_active ≡ g.drive_active
      → Meets
          (set g.safety.targets)
          g'
          []
          g.drive_active
          (with_safety w acks (set_target velocity set g'.safety) g')
  unfolding set_target
  set_target-Meets set acks g g' (fails, tracker, safe, pos, most) kept same =
      let c : SafetyController velocity = record g'.safety { targets = set g'.safety.targets } in
      stored-Meets (set g.safety.targets) g.drive_active acks g' (set_target velocity set g'.safety)
        c (simp safe refl) safe (ap (λ s. set s.targets) kept) (fails, tracker, safe, pos, most)
        same

  -- The request of the subsystem, which a target of zero does without.
  abbrev enabling : ℕ → ℕ → List Request
  enabling subsystem target = if target == 0 then [] else enable subsystem ∷ []

  motor-append :
      (command subsystem target : ℕ)
      → enabling subsystem target ++ (request command true (target ∷ 0 ∷ []) ∷ [])
        ≡ motor command subsystem target
  motor-append command subsystem target = elim (Bool-cases (target == 0)) [
    | inl y ↦ rw y refl
    | inr n ↦ rw n refl
  ]

  enabling-Sends :
      (now subsystem target : ℕ) (g : McuSafetyGuard w)
      → HasFrame (enable_subsystem subsystem)
      → Sound w g
      → Sends w g (enabling subsystem target) g.drive_active (
          if target == 0
          then done [] g
          else send_next_awaited w now (λ n. subsystem_state_frame n subsystem true) g)
  enabling-Sends now subsystem target g h sound = elim (Bool-cases (target == 0)) [
    | inl y ↦ rw y (Sends-done [] g sound)
    | inr n ↦ rw n (
        send_next_awaited-Sends w now (λ k. subsystem_state_frame k subsystem true)
          (enable subsystem) g (subsystem-Encodes subsystem h) sound)
  ]

  pub run_motor-Meets :
      (now command subsystem target : ℕ) (frame : ℕ → Encoded)
      (set : ActuatorTargets velocity → ActuatorTargets velocity) (g : McuSafetyGuard w)
      → HasFrame (enable_subsystem subsystem)
      → Encodes frame (request command true (target ∷ 0 ∷ []))
      → Sound w g
      → Meets
          (set g.safety.targets)
          g
          (motor command subsystem target)
          g.drive_active
          (run_motor w now subsystem target frame (set_target velocity set) g)
  unfolding run_motor
  run_motor-Meets now command subsystem target frame set g h enc sound =
      let asked = request command true (target ∷ 0 ∷ []) in
      let t = set g.safety.targets in
      subst
        (λ rs.
          Meets t g rs g.drive_active
            (run_motor w now subsystem target frame (set_target velocity set) g))
        (motor-append command subsystem target)
        (bind-Meets t g (enabling subsystem target) (asked ∷ []) g.drive_active g.drive_active _ _
          (enabling-Sends now subsystem target g h sound)
          (λ acks g1 sound1 kept1 same1.
            bind-Meets t g1 (asked ∷ []) [] g1.drive_active g.drive_active _ _
              (send_next_awaited-Sends w now frame asked g1 enc sound1)
              (λ more g2 sound2 kept2 same2.
                set_target-Meets set (acks ++ more) g g2 sound2 (kept2 ∙ kept1) (same2 ∙ same1))))
