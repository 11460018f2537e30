-- ===== src/S5Max/Mcu/Core.antt =====
-- mcu.rs: the commands of the actuators, as the owner of the port sends them, and the stop set. The
-- clock is read once per command.
use vacuum_tiger.Prelude.{
  ℕ, ◌+◌, Bool, true, false, not, ◌&&◌, ◌||◌, Option, none, some, List, [], ◌∷◌, ◌++◌, length, ◌==◌,
  if◌then◌else◌,
}
use vacuum_tiger.S5Max.Decoder.{Frame}
use vacuum_tiger.S5Max.Safety
use vacuum_tiger.S5Max.Safety.{Velocity, SafetyController, reset_targets}
use vacuum_tiger.S5Max.Commands.{
  WireVelocity, CommandError, Encoded, encoded, refused, next_tx_sequence,
  system_mode_command_frame, subsystem_state_frame, charger_command_frame, fan_command_frame,
  main_brush_command_frame, side_brush_command_frame, water_pump_command_frame, wheel_command_frame,
  fan_subsystem, main_brush_subsystem, side_brush_subsystem, wheel_odometry_subsystem,
}
use vacuum_tiger.S5Max.Reports.{EmbeddedReport, ReportFooter, reports}
use vacuum_tiger.S5Max.Mcu.Acks.{CommandAckTracker, expect, cancel}

-- The port: the frames handed to it, and which of the coming writes fail; none does behind the end.
pub record ExclusiveTty : Type 0 where
  pub written : List (List ℕ)
  pub fails : List Bool

-- `write_complete`: the port, and whether the write went through.
unfoldable pub write_complete : List ℕ → ExclusiveTty → ExclusiveTty × Bool
write_complete bytes t = elim (t.fails) [
  | [] ↦ (record t { written = t.written ++ (bytes ∷ []) }, true)
  | fail ∷ fails ↦ (record { written = t.written ++ (bytes ∷ []); fails = fails }, not fail)
]

pub data DriveStep : Type 0 where
  wake_mcu_step : DriveStep
  enable_wheels : DriveStep
  velocity_step : DriveStep

abbrev pub start_drive_steps : List DriveStep
start_drive_steps = wake_mcu_step ∷ enable_wheels ∷ velocity_step ∷ []

abbrev pub refresh_drive_steps : List DriveStep
refresh_drive_steps = velocity_step ∷ []

pub data McuError : Type 0 where
  not_encoded : CommandError → McuError
  io : McuError
  tracker_poisoned : McuError
  safety_error : Safety.Error → McuError
  stop_failed : ℕ → McuError

module _ (w : WireVelocity) where
  open w use {velocity}
  open velocity use {Carrier, zero, is_zero}

  unfoldable pub drive_steps : Bool → Carrier → Carrier → List DriveStep
  drive_steps drive_active linear angular =
      if (not (is_zero linear) || not (is_zero angular)) && not drive_active
      then start_drive_steps
      else refresh_drive_steps

  pub data ActuatorCommand : Type 0 where
    wake_mcu : ActuatorCommand
    enable_subsystem : ℕ → ActuatorCommand
    drive : Carrier → Carrier → ActuatorCommand
    stop_drive : ActuatorCommand
    fan : ℕ → ActuatorCommand
    main_brush : ℕ → ActuatorCommand
    side_brush : ℕ → ActuatorCommand
    water_pump : ℕ → ℕ → ActuatorCommand
    charger : Bool → ActuatorCommand
    emergency_stop : ActuatorCommand

  pub record McuSafetyGuard : Type 0 where
    pub tty : ExclusiveTty
    pub next_sequence : ℕ
    pub drive_active : Bool
    pub safety : SafetyController velocity
    pub command_acks : CommandAckTracker
    pub armed : Bool

  -- A call's result, and the guard behind it.
  pub data Step (A : Type 0) : Type 0 where
    done : A → McuSafetyGuard → Step A
    failed : McuError → McuSafetyGuard → Step A

  infixl 20 ◌>>=◌
  abbrev pub ◌>>=◌ : {A B : Type 0} → Step A → (A → McuSafetyGuard → Step B) → Step B
  done a g >>= k = k a g
  failed e g >>= k = failed e g

  unfoldable pub new :
      ExclusiveTty → ℕ → SafetyController velocity → CommandAckTracker → McuSafetyGuard
  new tty first_sequence safety command_acks = record {
    tty = tty;
    next_sequence = first_sequence;
    drive_active = false;
    safety = safety;
    command_acks = command_acks;
    armed = true;
  }

  -- `take_sequence` stands in front of each frame: the frame of the sequence number, and the guard
  -- with the next one.
  abbrev pub advanced : McuSafetyGuard → McuSafetyGuard
  advanced g = record g { next_sequence = next_tx_sequence g.next_sequence }

  abbrev pub of_write : ExclusiveTty × Bool → McuSafetyGuard → Step (List ℕ)
  of_write (t, went) g =
      if went then done [] (record g { tty = t }) else failed io (record g { tty = t })

  -- No sequence numbers await an acknowledgement.
  unfoldable pub send : Encoded → McuSafetyGuard → Step (List ℕ)
  unfolding write_complete
  send (refused e) g = failed (not_encoded e) g
  send (encoded bytes) g = of_write (write_complete bytes g.tty) g

  abbrev pub of_awaited : ℕ → ExclusiveTty × Bool → McuSafetyGuard → Step (List ℕ)
  of_awaited sequence (t, went) g =
      if went
      then done (sequence ∷ []) (record g { tty = t })
      else failed io (record g { tty = t; command_acks = cancel sequence g.command_acks })

  abbrev pub of_expected : ℕ → List ℕ → CommandAckTracker × Bool → McuSafetyGuard → Step (List ℕ)
  of_expected sequence bytes (acks, went) g =
      if went
      then of_awaited sequence (write_complete bytes g.tty) (record g { command_acks = acks })
      else failed tracker_poisoned g

  unfoldable pub send_requiring_ack : ℕ → ℕ → Encoded → McuSafetyGuard → Step (List ℕ)
  unfolding write_complete expect cancel
  send_requiring_ack now sequence (refused e) g = failed (not_encoded e) g
  send_requiring_ack now sequence (encoded bytes) g =
      of_expected sequence bytes (expect sequence bytes now g.command_acks) g

  -- The frame of the next sequence number, sent without and with an acknowledgement awaited.
  abbrev pub send_next : (ℕ → Encoded) → McuSafetyGuard → Step (List ℕ)
  send_next frame g = send (frame g.next_sequence) (advanced g)

  abbrev pub send_next_awaited : ℕ → (ℕ → Encoded) → McuSafetyGuard → Step (List ℕ)
  send_next_awaited now frame g =
      send_requiring_ack now g.next_sequence (frame g.next_sequence) (advanced g)

  abbrev pub with_safety :
      List ℕ → (SafetyController velocity × Option Safety.Error) → McuSafetyGuard → Step (List ℕ)
  with_safety acknowledgements (c, none) g = done acknowledgements (record g { safety = c })
  with_safety acknowledgements (c, some e) g = failed (safety_error e) (record g { safety = c })

  unfoldable pub forced_wheel_stop : McuSafetyGuard → Step (List ℕ)
  unfolding send
  forced_wheel_stop g = send_next (λ n. wheel_command_frame w n zero zero true) g >>= λ acks g.
      done acks (record g { drive_active = false })

  abbrev pub drive_step : ℕ → Carrier → Carrier → DriveStep → McuSafetyGuard → Step (List ℕ)
  drive_step now linear angular wake_mcu_step g = send_next (λ n. system_mode_command_frame n 0) g
  drive_step now linear angular enable_wheels g =
      send_next_awaited now (λ n. subsystem_state_frame n wheel_odometry_subsystem true) g
  drive_step now linear angular velocity_step g =
      send_next (λ n. wheel_command_frame w n linear angular false) g

  unfoldable pub run_drive_steps :
      ℕ → Carrier → Carrier → List DriveStep → McuSafetyGuard → Step (List ℕ)
  unfolding send send_requiring_ack
  run_drive_steps now linear angular [] g = done [] g
  run_drive_steps now linear angular (step ∷ steps) g =
      drive_step now linear angular step g >>= λ acks g.
      run_drive_steps now linear angular steps g >>= λ more g. done (acks ++ more) g

  -- A motor behind a subsystem: a nonzero target enables the subsystem first.
  unfoldable pub run_motor :
      ℕ
      → ℕ
      → ℕ
      → (ℕ → Encoded)
      → (SafetyController velocity → SafetyController velocity × Option Safety.Error)
      → McuSafetyGuard
      → Step (List ℕ)
  unfolding send_requiring_ack
  run_motor now subsystem target frame store g =
      (if target == 0
        then done [] g
        else send_next_awaited now (λ n. subsystem_state_frame n subsystem true) g)
      >>= λ acks g.
          send_next_awaited now frame g >>= λ more g. with_safety (acks ++ more) (store g.safety) g

  -- The frames of `ordered_stop_frames`, and the next sequence number.
  unfoldable pub ordered_stop_frames : ℕ → List Encoded × ℕ
  ordered_stop_frames wheel_sequence =
      let fan_sequence = next_tx_sequence wheel_sequence in
      let side_brush_sequence = next_tx_sequence fan_sequence in
      let main_brush_sequence = next_tx_sequence side_brush_sequence in
      let water_pump_sequence = next_tx_sequence main_brush_sequence in
      (
        wheel_command_frame w wheel_sequence zero zero true
            ∷ fan_command_frame fan_sequence 0
            ∷ side_brush_command_frame side_brush_sequence 0 false
            ∷ main_brush_command_frame main_brush_sequence 0 false
            ∷ water_pump_command_frame water_pump_sequence 0 0
            ∷ [],
        next_tx_sequence water_pump_sequence,
      )

  -- The `for` loop: every frame is sent, and the failures are counted.
  abbrev pub count_failure : Step (List ℕ) → ℕ × McuSafetyGuard
  count_failure (done acks g) = (0, g)
  count_failure (failed e g) = (1, g)

  unfoldable pub send_stops : List Encoded → McuSafetyGuard → ℕ × McuSafetyGuard
  unfolding send
  send_stops [] g = (0, g)
  send_stops (frame ∷ frames) g =
      let (m, g') = count_failure (send frame g) in
      let (n, g'') = send_stops frames g' in (m + n, g'')

  unfoldable pub emit_stop_set : McuSafetyGuard → Step (List ℕ)
  unfolding send_stops ordered_stop_frames
  emit_stop_set g =
      let (records, next_sequence) = ordered_stop_frames g.next_sequence in
      let (failures, g') = send_stops records (record g { next_sequence = next_sequence }) in
      let stopped = record g' { drive_active = false; safety = reset_targets velocity g'.safety } in
      if failures == 0 then done [] stopped else failed (stop_failed failures) stopped

  unfoldable pub execute : ℕ → ActuatorCommand → McuSafetyGuard → Step (List ℕ)
  unfolding send send_requiring_ack forced_wheel_stop run_drive_steps run_motor emit_stop_set
  execute now wake_mcu g = send_next (λ n. system_mode_command_frame n 0) g
  execute now (enable_subsystem subsystem) g =
      send_next_awaited now (λ n. subsystem_state_frame n subsystem true) g
  execute now (drive linear angular) g =
      run_drive_steps now linear angular (drive_steps g.drive_active linear angular) g >>= λ acks g.
      with_safety acks (Safety.arm_drive_lease velocity linear angular now g.safety) g >>= λ acks g.
      done acks (record g { drive_active = not (is_zero linear) || not (is_zero angular) })
  execute now stop_drive g = forced_wheel_stop g >>= λ acks g.
      with_safety acks (Safety.clear_drive_target velocity g.safety) g
  execute now (fan target) g =
      run_motor now fan_subsystem target (λ n. fan_command_frame n target)
        (Safety.set_fan velocity target) g
  execute now (main_brush target) g =
      run_motor now main_brush_subsystem target (λ n. main_brush_command_frame n target false)
        (Safety.set_main_brush velocity target) g
  execute now (side_brush target) g =
      run_motor now side_brush_subsystem target (λ n. side_brush_command_frame n target false)
        (Safety.set_side_brush velocity target) g
  execute now (water_pump on_interval off_interval) g =
      send_next (λ n. water_pump_command_frame n on_interval off_interval) g >>= λ acks g.
      with_safety acks (Safety.set_water_pump velocity on_interval g.safety) g
  execute now (charger enabled) g = send_next_awaited now (λ n. charger_command_frame n enabled) g
  execute now emergency_stop g = emit_stop_set g

  unfoldable pub stop_and_disarm : McuSafetyGuard → Step (List ℕ)
  unfolding emit_stop_set
  stop_and_disarm g = emit_stop_set g >>= λ acks g. done acks (record g { armed = false })

-- The shapes of the reports that a sensor snapshot has.
abbrev pub has_shape : ℕ → ℕ → List EmbeddedReport → Bool
has_shape message size [] = false
has_shape message size (r ∷ rs) =
    r.message == message && length r.bytes == size || has_shape message size rs

unfoldable pub contains_sensor_snapshot : Frame → Bool
contains_sensor_snapshot f =
    has_shape 0x20 2 (reports f)
    && has_shape 0x08 10 (reports f)
    && has_shape 0x24 2 (reports f)
    && has_shape 0x0f 2 (reports f)

abbrev pub report_requests_ack : Option ReportFooter → Bool
report_requests_ack none = false
report_requests_ack (some footer) = footer.reports_pending
