-- ===== src/Gd32/Commands/State.antt =====
-- commands.rs: what each handler leaves of the component state, whatever the port does.
use vacuum_tiger.Prelude.{
  ℕ, ◌≡◌, refl, ◌∙◌, true, false, Option, none, some, Bool-cases, inl, inr, arith,
}
use vacuum_tiger.Types.{Floats, ComponentAction, enable, disable, reset, configure}
use vacuum_tiger.Gd32.Packet
use vacuum_tiger.Gd32.Packet.{TxPacket}
use vacuum_tiger.Gd32.State.{ComponentState}
use vacuum_tiger.Gd32.State
use vacuum_tiger.Gd32.Commands.Link.{
  Link, Result, ok, err, ◌>>◌, link, with_state, with_pkt, send_packet, send_anyway,
}
use vacuum_tiger.Gd32.Commands.Handlers.{
  as_u8, if_some, apply_speed, configure_with, handle_speed_component, send_stops, emergency_stop,
  handle_drive, handle_led, handle_imu, handle_compass, handle_cliff_ir, handle_main_board,
  handle_charger, handle_mcu, configure_drive, f32_pair,
}

module _ (F32 : Type 0) where
  pub send_packet-state : (l : Link F32) → (link F32 (send_packet F32 l)).state ≡ l.state
  unfolding send_packet
  send_packet-state l = ground arith

  -- A second step behind `?` that keeps the state.
  pub then-state :
      (r : Result F32) (next : Link F32 → Result F32)
      → ((l : Link F32) → (link F32 (next l)).state ≡ l.state)
      → (link F32 (r >> next)).state ≡ (link F32 r).state
  then-state (ok l) next h = h l
  then-state (err e l) next h = refl

module _ (fl : Floats) where
  open fl use {F32}

  if_some-state :
      (v : Option ℕ) (body : ℕ → Link F32 → Result F32)
      → ((v : ℕ) (l : Link F32) → (link F32 (body v l)).state ≡ l.state)
      → (l : Link F32) → (link F32 (if_some fl v body l)).state ≡ l.state
  if_some-state none body h l = refl
  if_some-state (some v) body h l = h v l

  abbrev Keeps : (ComponentAction fl → Link F32 → Result F32) → Type 0
  Keeps handle =
      (action : ComponentAction fl) (l : Link F32) → (link F32 (handle action l)).state ≡ l.state

  pub handle_led-state : Keeps (handle_led fl)
  unfolding handle_led
  handle_led-state (enable c) l = refl
  handle_led-state (disable c) l = refl
  handle_led-state (reset c) l = refl
  handle_led-state (configure c) l =
      if_some-state (as_u8 fl (c "state")) _ (λ v m. send_packet-state F32 _) l

  pub handle_imu-state : Keeps (handle_imu fl)
  unfolding handle_imu
  handle_imu-state (enable c) l = send_packet-state F32 _
  handle_imu-state (reset c) l = send_packet-state F32 _
  handle_imu-state (disable c) l = refl
  handle_imu-state (configure c) l = refl

  pub handle_compass-state : Keeps (handle_compass fl)
  unfolding handle_compass
  handle_compass-state (enable c) l = send_packet-state F32 _
  handle_compass-state (reset c) l = send_packet-state F32 _
  handle_compass-state (disable c) l = refl
  handle_compass-state (configure c) l = refl

  pub handle_cliff_ir-state : Keeps (handle_cliff_ir fl)
  unfolding handle_cliff_ir
  handle_cliff_ir-state (enable c) l = send_packet-state F32 _
  handle_cliff_ir-state (disable c) l = send_packet-state F32 _
  handle_cliff_ir-state (reset c) l = refl
  handle_cliff_ir-state (configure c) l =
      if_some-state (as_u8 fl (c "direction")) _ (λ v m. send_packet-state F32 _) l

  pub handle_main_board-state : Keeps (handle_main_board fl)
  unfolding handle_main_board
  handle_main_board-state (enable c) l = send_packet-state F32 _
  handle_main_board-state (disable c) l = send_packet-state F32 _
  handle_main_board-state (reset c) l = send_packet-state F32 _
  handle_main_board-state (configure c) l = refl

  pub handle_charger-state : Keeps (handle_charger fl)
  unfolding handle_charger
  handle_charger-state (enable c) l = send_packet-state F32 _
  handle_charger-state (disable c) l = send_packet-state F32 _
  handle_charger-state (reset c) l = refl
  handle_charger-state (configure c) l = refl

  pub handle_mcu-state : Keeps (handle_mcu fl)
  unfolding handle_mcu
  handle_mcu-state (enable c) l = send_packet-state F32 _
  handle_mcu-state (disable c) l = send_packet-state F32 _
  handle_mcu-state (reset c) l = send_packet-state F32 _
  handle_mcu-state (configure c) l = refl

  -- The speed that an action asks of a component, if it asks for one.
  abbrev pub requested : ComponentAction fl → Option ℕ
  requested (enable c) = some 100
  requested (disable c) = some 0
  requested (reset c) = none
  requested (configure c) = as_u8 fl (c "speed")

  abbrev pub store_requested :
      (ℕ → ComponentState F32 → ComponentState F32)
      → Option ℕ
      → ComponentState F32
      → ComponentState F32
  store_requested store none s = s
  store_requested store (some v) s = store v s

  pub handle_speed_component-state :
      (store : ℕ → ComponentState F32 → ComponentState F32) (set_fn : ℕ → TxPacket → TxPacket)
      (action : ComponentAction fl) (l : Link F32)
      → (link F32 (handle_speed_component fl store set_fn action l)).state
        ≡ store_requested store (requested action) l.state
  unfolding handle_speed_component
  handle_speed_component-state store set_fn (enable c) l = send_packet-state F32 _
  handle_speed_component-state store set_fn (disable c) l = send_packet-state F32 _
  handle_speed_component-state store set_fn (reset c) l = refl
  handle_speed_component-state store set_fn (configure c) l = stored (as_u8 fl (c "speed"))
    where
      stored :
          (v : Option ℕ)
          → (link F32 (if_some fl v (apply_speed fl store set_fn) l)).state
            ≡ store_requested store v l.state
      stored none = refl
      stored (some v) = send_packet-state F32 _

  -- The emergency stop clears the state also when the mutex of the port is poisoned.
  pub emergency_stop-state :
      (l : Link F32) → (link F32 (emergency_stop fl l)).state ≡ State.clear_all F32 l.state
  unfolding emergency_stop send_stops send_anyway
  emergency_stop-state l = elim (Bool-cases l.port.poisoned) [
    | inl y ↦ simp y refl
    | inr n ↦ simp n refl
  ]

  -- The velocities that a configuration asks for, if it does.
  abbrev pub moved : Option (F32 × F32) → ComponentState F32 → ComponentState F32
  moved none s = s
  moved (some (linear, angular)) s = record s {
    linear_velocity = fl.mul_as_i16 linear s.linear_velocity_scale;
    angular_velocity = fl.mul_as_i16 angular s.angular_velocity_scale;
  }

  configure_with-state :
      (v w : Option (F32 × F32)) (l : Link F32)
      → (link F32 (configure_with fl v w l)).state ≡ moved v l.state
  configure_with-state (some (linear, angular)) w l = send_packet-state F32 _
  configure_with-state none (some (left, right)) l = send_packet-state F32 _
  configure_with-state none none l = refl

  -- What the drive leaves of the state.
  abbrev pub driven : ComponentAction fl → ComponentState F32 → ComponentState F32
  driven (enable c) s = record s { wheel_motor_enabled = true }
  driven (disable c) s = record s {
    wheel_motor_enabled = false;
    linear_velocity = 0;
    angular_velocity = 0;
  }
  driven (reset c) s = State.clear_all F32 s
  driven (configure c) s = moved (f32_pair fl (c "linear") (c "angular")) s

  pub handle_drive-state :
      (action : ComponentAction fl) (l : Link F32)
      → (link F32 (handle_drive fl action l)).state ≡ driven action l.state
  unfolding handle_drive configure_drive
  handle_drive-state (enable c) l = send_packet-state F32 _
  handle_drive-state (disable c) l =
      let stopped = with_state F32 (driven (disable c)) l in
      then-state F32 (send_packet F32 (with_pkt F32 (Packet.set_velocity 0 0) stopped))
        (λ m. send_packet F32 (with_pkt F32 (Packet.set_motor_mode 0) m))
        (λ m. send_packet-state F32 (with_pkt F32 (Packet.set_motor_mode 0) m))
      ∙ send_packet-state F32 (with_pkt F32 (Packet.set_velocity 0 0) stopped)
  handle_drive-state (reset c) l = emergency_stop-state l
  handle_drive-state (configure c) l =
      configure_with-state (f32_pair fl (c "linear") (c "angular"))
        (f32_pair fl (c "left") (c "right")) l
