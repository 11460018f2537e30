-- ===== src/Gd32/Commands/Demand.antt =====
-- commands.rs: the speed of each motor is what was last asked of it, whatever the port does.
use Prim.Native.String.{String}
use text.Mathlib.Text.{◌==◌}
use vacuum_tiger.Prelude.{
  ℕ, ◌≡◌, refl, ap, ◌∙◌, Bool, true, false, Option, none, some, if◌then◌else◌, arith,
}
use vacuum_tiger.Types.{
  Floats, ComponentAction, enable, disable, reset, configure, Command, component_control,
}
use vacuum_tiger.Gd32.Packet
use vacuum_tiger.Gd32.State
use vacuum_tiger.Gd32.State.{ComponentState}
use vacuum_tiger.Gd32.Commands.Link.{
  Link, Result, ok, err, ◌>>◌, link, send_packet, with_pkt, with_state,
}
use vacuum_tiger.Gd32.Commands.Handlers.{handle_lidar, f32_pair}
use vacuum_tiger.Gd32.Commands.Dispatch.{
  store_vacuum, store_main_brush, store_side_brush, store_water_pump,
}
use vacuum_tiger.Gd32.Commands.State.{requested, store_requested, driven, moved, send_packet-state}

-- The motors that have a speed.
pub data Motor : Type 0 where
  vacuum : Motor
  main_brush : Motor
  side_brush : Motor
  water_pump : Motor

abbrev pub id_of : Motor → String
id_of vacuum = "vacuum"
id_of main_brush = "main_brush"
id_of side_brush = "side_brush"
id_of water_pump = "water_pump"

abbrev pub or_kept {ℓ} : {A : Type ℓ} → Option A → A → A
or_kept none v = v
or_kept (some w) v = w

module _ (fl : Floats) where
  open fl use {F32}

  abbrev pub speed_of : Motor → ComponentState F32 → ℕ
  speed_of vacuum s = s.vacuum
  speed_of main_brush s = s.main_brush
  speed_of side_brush s = s.side_brush
  speed_of water_pump s = s.water_pump

  -- Resetting the drive is the emergency stop, which asks every motor to stop.
  abbrev pub stops : ComponentAction fl → Option ℕ
  stops (reset config) = some 0
  stops _ = none

  -- The speed that a command asks of a motor, if it asks for one.
  abbrev pub asked : Motor → Command fl → Option ℕ
  asked m (component_control id action) =
      if id == "drive" then stops action else if id == id_of m then requested fl action else none
  asked m _ = none

  -- A result whose state has the speed `v`.
  abbrev pub Has : Motor → ℕ → Result F32 → Type 0
  Has m v r = speed_of m (link F32 r).state ≡ v

  pub if-Has :
      (m : Motor) (v : ℕ) (b : Bool) (x y : Result F32)
      → Has m v x
      → Has m v y
      → Has m v (if b then x else y)
  if-Has m v true x y h k = h
  if-Has m v false x y h k = k

  then-Has :
      (m : Motor) (v : ℕ) (r : Result F32) (next : Link F32 → Result F32)
      → Has m v r
      → ((l : Link F32) → Has m (speed_of m l.state) (next l))
      → Has m v (r >> next)
  then-Has m v (ok l) next h k = k l ∙ h
  then-Has m v (err e l) next h k = h

  pub send-Has : (m : Motor) (l : Link F32) → Has m (speed_of m l.state) (send_packet F32 l)
  send-Has m l = ap (speed_of m) (send_packet-state F32 l)

  lidar_speed :
      (m : Motor) (s : ComponentState F32) (on : Bool)
      → speed_of m (record s { lidar_enabled = on }) ≡ speed_of m s
  lidar_speed m s on = ground arith

  pub handle_lidar-Has :
      (m : Motor) (action : ComponentAction fl) (l : Link F32)
      → Has m (speed_of m l.state) (handle_lidar fl action l)
  unfolding handle_lidar
  handle_lidar-Has m (enable c) l =
      let pwm = State.get_lidar_pwm F32 l.state in
      let powered = with_pkt F32 (Packet.set_lidar_power true) l in
      let spun = λ (n : Link F32).
        with_pkt F32 (Packet.set_lidar_pwm pwm)
          (with_state F32 (λ s. record s { lidar_enabled = true }) n) in
      then-Has m (speed_of m l.state) (send_packet F32 powered) (λ n. send_packet F32 (spun n))
        (send-Has m powered) (λ n. send-Has m (spun n) ∙ lidar_speed m n.state true)
  handle_lidar-Has m (disable c) l =
      let halted =
        with_pkt F32 (Packet.set_lidar_pwm 0)
          (with_state F32 (λ s. record s { lidar_enabled = false }) l) in
      let off = λ (n : Link F32). with_pkt F32 (Packet.set_lidar_power false) n in
      then-Has m (speed_of m l.state) (send_packet F32 halted) (λ n. send_packet F32 (off n))
        (send-Has m halted ∙ lidar_speed m l.state false) (λ n. send-Has m (off n))
  handle_lidar-Has m (configure c) l = refl
  handle_lidar-Has m (reset c) l = refl

  moved_speed :
      (m : Motor) (v : Option (F32 × F32)) (s : ComponentState F32)
      → speed_of m (moved fl v s) ≡ speed_of m s
  moved_speed m v s = ground arith

  pub driven_speed :
      (m : Motor) (action : ComponentAction fl) (s : ComponentState F32)
      → speed_of m (driven fl action s) ≡ or_kept (stops action) (speed_of m s)
  unfolding State.clear_all
  driven_speed m (configure c) s = moved_speed m (f32_pair fl (c "linear") (c "angular")) s
  driven_speed m (enable c) s = ground arith
  driven_speed m (disable c) s = ground arith
  driven_speed m (reset c) s = ground arith

  abbrev pub store_of : Motor → ℕ → ComponentState F32 → ComponentState F32
  store_of vacuum = store_vacuum fl
  store_of main_brush = store_main_brush fl
  store_of side_brush = store_side_brush fl
  store_of water_pump = store_water_pump fl

  pub stored_speed :
      (m n : Motor) (v : Option ℕ) (s : ComponentState F32)
      → speed_of m (store_requested fl (store_of n) v s)
        ≡ or_kept (if id_of n == id_of m then v else none) (speed_of m s)
  stored_speed vacuum vacuum v s = ground arith
  stored_speed vacuum main_brush v s = ground arith
  stored_speed vacuum side_brush v s = ground arith
  stored_speed vacuum water_pump v s = ground arith
  stored_speed main_brush vacuum v s = ground arith
  stored_speed main_brush main_brush v s = ground arith
  stored_speed main_brush side_brush v s = ground arith
  stored_speed main_brush water_pump v s = ground arith
  stored_speed side_brush vacuum v s = ground arith
  stored_speed side_brush main_brush v s = ground arith
  stored_speed side_brush side_brush v s = ground arith
  stored_speed side_brush water_pump v s = ground arith
  stored_speed water_pump vacuum v s = ground arith
  stored_speed water_pump main_brush v s = ground arith
  stored_speed water_pump side_brush v s = ground arith
  stored_speed water_pump water_pump v s = ground arith
