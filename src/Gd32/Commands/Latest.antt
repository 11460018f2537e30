-- ===== src/Gd32/Commands/Latest.antt =====
-- commands.rs: over any calls, the speed of each motor is the one asked last.
use Prim.Native.String.{String}
use text.Mathlib.Text.{◌==◌}
use text.Mathlib.TextEquality.{eq_iff}
use vacuum_tiger.Prelude.{
  ℕ, ◌≡◌, refl, ap, ◌∙◌, Bool, false, Option, none, some, Bool-cases, inl, inr, List, [], ◌∷◌,
  if◌then◌else◌,
}
use vacuum_tiger.Types.{
  Floats, ComponentAction, Command, component_control, protocol_sync, shutdown,
}
use vacuum_tiger.Gd32.Packet.{TxPacket}
use vacuum_tiger.Gd32.State.{ComponentState}
use vacuum_tiger.Gd32.Commands.Link.{Port, Link, Result, err, not_implemented, link}
use vacuum_tiger.Gd32.Commands.Handlers.{
  handle_speed_component, handle_led, handle_lidar, handle_imu, handle_compass, handle_cliff_ir,
  handle_main_board, handle_charger, handle_mcu,
}
use vacuum_tiger.Gd32.Commands.Dispatch.{handle_component_control, send_command}
use vacuum_tiger.Gd32.Commands.State.{
  requested, handle_speed_component-state, handle_drive-state, handle_led-state, handle_imu-state,
  handle_compass-state, handle_cliff_ir-state, handle_main_board-state, handle_charger-state,
  handle_mcu-state,
}
use vacuum_tiger.Gd32.Commands.Demand.{
  Motor, vacuum, main_brush, side_brush, water_pump, id_of, or_kept, speed_of, asked, Has, if-Has,
  send-Has, handle_lidar-Has, driven_speed, store_of, stored_speed,
}

module _ (fl : Floats) where
  open fl use {F32}

  -- A motor whose speed field and setter the dispatch passes to `handle_speed_component`.
  motor-Has :
      (m n : Motor) (set_fn : ℕ → TxPacket → TxPacket) (action : ComponentAction fl) (l : Link F32)
      → Has fl m
          (or_kept
            (if id_of n == id_of m then requested fl action else none)
            (speed_of fl m l.state))
          (handle_speed_component fl (store_of fl n) set_fn action l)
  motor-Has m n set_fn action l =
      ap (speed_of fl m) (handle_speed_component-state fl (store_of fl n) set_fn action l)
      ∙ stored_speed fl m n (requested fl action) l.state

  -- The components without a speed.
  others : String → ComponentAction fl → Link F32 → Result F32
  others id action l =
      if id == "led"
      then handle_led fl action l
      else if id == "lidar"
      then handle_lidar fl action l
      else if id == "imu"
      then handle_imu fl action l
      else if id == "compass"
      then handle_compass fl action l
      else if id == "cliff_ir"
      then handle_cliff_ir fl action l
      else if id == "main_board"
      then handle_main_board fl action l
      else if id == "charger"
      then handle_charger fl action l
      else if id == "mcu"
      then handle_mcu fl action l
      else err not_implemented l

  others-Has :
      (m : Motor) (id : String) (action : ComponentAction fl) (l : Link F32)
      → Has fl m (speed_of fl m l.state) (others id action l)
  unfolding others
  others-Has m id action l =
      let keep = λ (s : ComponentState F32) (e : s ≡ l.state). ap (speed_of fl m) e in
      let pick = if-Has fl m (speed_of fl m l.state) in
      pick (id == "led") _ _ (keep _ (handle_led-state fl action l)) (
        pick (id == "lidar") _ _ (handle_lidar-Has fl m action l) (
          pick (id == "imu") _ _ (keep _ (handle_imu-state fl action l)) (
            pick (id == "compass") _ _ (keep _ (handle_compass-state fl action l)) (
              pick (id == "cliff_ir") _ _ (keep _ (handle_cliff_ir-state fl action l)) (
                pick (id == "main_board") _ _ (keep _ (handle_main_board-state fl action l)) (
                  pick (id == "charger") _ _ (keep _ (handle_charger-state fl action l))
                    (pick (id == "mcu") _ _ (keep _ (handle_mcu-state fl action l)) refl)))))))

  -- An id that is no motor's.
  no_motor :
      (m : Motor) (id : String)
      → (id == "vacuum") ≡ false
      → (id == "main_brush") ≡ false
      → (id == "side_brush") ≡ false
      → (id == "water_pump") ≡ false
      → (id == id_of m) ≡ false
  no_motor vacuum id a b c d = a
  no_motor main_brush id a b c d = b
  no_motor side_brush id a b c d = c
  no_motor water_pump id a b c d = d

  handle_component_control-Has :
      (m : Motor) (id : String) (action : ComponentAction fl) (l : Link F32)
      → Has fl m
          (or_kept (asked fl m (component_control id action)) (speed_of fl m l.state))
          (handle_component_control fl id action l)
  unfolding handle_component_control
  handle_component_control-Has m id action l = elim (Bool-cases (id == "drive")) [
    | inl y ↦
        rw y
          (ap (speed_of fl m) (handle_drive-state fl action l) ∙ driven_speed fl m action l.state)
    | inr nd ↦ elim (Bool-cases (id == "vacuum")) [
      | inl y ↦ let e = (eq_iff id "vacuum").0 y in rw e (motor-Has m vacuum _ action l)
      | inr nv ↦ elim (Bool-cases (id == "main_brush")) [
        | inl y ↦ let e = (eq_iff id "main_brush").0 y in rw e (motor-Has m main_brush _ action l)
        | inr nm ↦ elim (Bool-cases (id == "side_brush")) [
          | inl y ↦ let e = (eq_iff id "side_brush").0 y in rw e (motor-Has m side_brush _ action l)
          | inr ns ↦ elim (Bool-cases (id == "water_pump")) [
            | inl y ↦
                let e = (eq_iff id "water_pump").0 y in rw e (motor-Has m water_pump _ action l)
            | inr nw ↦
                let none_asked = no_motor m id nv nm ns nw in
                rw (nd, nv, nm, ns, nw, none_asked) (unfold others in others-Has m id action l)
          ]
        ]
      ]
    ]
  ]

  -- A call, on a port that later calls find as it left it, and so on.
  unfoldable pub run_commands : List (Command fl) → Port → ComponentState F32 → ComponentState F32
  run_commands [] p s = s
  run_commands (c ∷ cs) p s =
      let l = link F32 (send_command fl c p s false) in run_commands cs l.port l.state

  -- The speed asked last, if any was.
  unfoldable pub last_asked : Motor → List (Command fl) → Option ℕ
  last_asked m [] = none
  last_asked m (c ∷ cs) = elim (last_asked m cs) [ none ↦ asked fl m c | some v ↦ some v ]

  send_command-asked :
      (m : Motor) (c : Command fl) (p : Port) (s : ComponentState F32) (flag : Bool)
      → Has fl m (or_kept (asked fl m c) (speed_of fl m s)) (send_command fl c p s flag)
  unfolding send_command
  send_command-asked m (component_control id action) p s flag =
      handle_component_control-Has m id action _
  send_command-asked m protocol_sync p s flag = send-Has fl m _
  send_command-asked m shutdown p s flag = refl

  -- After any calls, whatever each write to the port does and whether or not its mutex is poisoned, the
  -- speed of every motor is the one asked of it last, or the initial one. Asking is by the rules of
  -- `asked`: 100 to enable, 0 to disable, the configured speed as a byte, and 0 for all by a reset of
  -- the drive.
  pub run_commands-last_asked :
      (m : Motor) (cs : List (Command fl)) (p : Port) (s : ComponentState F32)
      → speed_of fl m (run_commands cs p s) ≡ or_kept (last_asked m cs) (speed_of fl m s)
  unfolding run_commands last_asked
  run_commands-last_asked m [] p s = refl
  run_commands-last_asked m (c ∷ cs) p s =
      let l = link F32 (send_command fl c p s false) in
      run_commands-last_asked m cs l.port l.state
      ∙ ap (or_kept (last_asked m cs)) (send_command-asked m c p s false)
      ∙ join (last_asked m cs) (asked fl m c) (speed_of fl m s)
    where
      join :
          (v w : Option ℕ) (k : ℕ)
          → or_kept v (or_kept w k) ≡ or_kept (elim v [ none ↦ w | some x ↦ some x ]) k
      join none w k = refl
      join (some x) w k = refl
