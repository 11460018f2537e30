-- ===== src/Gd32/Commands/Handlers.antt =====
-- commands.rs: the handlers of the components, and `send_command`.
use vacuum_tiger.Prelude.{ℕ, ◌%◌, true, false, Option, none, some, List, [], ◌∷◌, if◌then◌else◌}
use vacuum_tiger.Types
use vacuum_tiger.Types.{
  Floats, SensorValue, Config, ComponentAction, enable, disable, reset, configure, Command,
  component_control, protocol_sync, shutdown, f32,
}
use vacuum_tiger.Gd32.Packet
use vacuum_tiger.Gd32.Packet.{TxPacket}
use vacuum_tiger.Gd32.State
use vacuum_tiger.Gd32.State.{ComponentState}
use vacuum_tiger.Gd32.Commands.Link.{
  not_implemented, invalid_parameter, mutex_poisoned, Link, Result, ok, err, ◌>>◌, with_state,
  with_pkt, send_packet, send_anyway,
}

abbrev pub imu_default_payload : List ℕ
imu_default_payload = 0x10 ∷ 0x0e ∷ 0x00 ∷ 0x00 ∷ []

module _ (fl : Floats) where
  open fl use {F32, mul_as_i16}

  -- A U8 or a U32 value, `as u8`.
  abbrev pub as_u8 : Option (SensorValue fl) → Option ℕ
  as_u8 (some (Types.u8 s)) = some s
  as_u8 (some (Types.u32 s)) = some (s % 256)
  as_u8 _ = none

  -- `if let Some(v) = value { body(v)? } Ok(())`.
  abbrev pub if_some : Option ℕ → (ℕ → Link F32 → Result F32) → Link F32 → Result F32
  if_some (some v) body l = body v l
  if_some none body l = ok l

  -- `state_field.store(speed); set_fn(pkt, speed); send_packet(port, pkt)`.
  abbrev pub apply_speed :
      (ℕ → ComponentState F32 → ComponentState F32)
      → (ℕ → TxPacket → TxPacket)
      → ℕ
      → Link F32
      → Result F32
  apply_speed store set_fn speed l =
      send_packet F32 (with_pkt F32 (set_fn speed) (with_state F32 (store speed) l))

  unfoldable pub handle_speed_component :
      (ℕ → ComponentState F32 → ComponentState F32)
      → (ℕ → TxPacket → TxPacket)
      → ComponentAction fl
      → Link F32
      → Result F32
  handle_speed_component store set_fn (enable config) l = apply_speed store set_fn 100 l
  handle_speed_component store set_fn (disable config) l = apply_speed store set_fn 0 l
  handle_speed_component store set_fn (configure config) l =
      if_some (as_u8 (config "speed")) (apply_speed store set_fn) l
  handle_speed_component store set_fn (reset config) l = err not_implemented l

  -- The eight stop commands, each sent whether or not the ones before went through.
  unfoldable pub send_stops : Link F32 → Link F32
  send_stops l =
      let stop =
        λ (set : TxPacket → TxPacket) (m : Link F32). send_anyway F32 (with_pkt F32 set m) in
      stop (Packet.set_motor_mode 0) (
        stop (Packet.set_velocity 0 0) (
          stop (Packet.set_lidar_power false) (
            stop (Packet.set_lidar_pwm 0) (
              stop (Packet.set_water_pump 0) (
                stop (Packet.set_side_brush 0)
                  (stop (Packet.set_main_brush 0) (stop (Packet.set_air_pump 0) l)))))))

  unfoldable pub emergency_stop : Link F32 → Result F32
  emergency_stop l =
      let cleared = with_state F32 (State.clear_all F32) l in
      if l.port.poisoned then err mutex_poisoned cleared else ok (send_stops cleared)

  -- The mode in the configuration, or 0x02.
  abbrev pub drive_mode : Option (Config fl) → ℕ
  drive_mode none = 2
  drive_mode (some config) = elim (as_u8 (config "mode")) [ some mode ↦ mode | none ↦ 2 ]

  abbrev pub configure_velocity : F32 → F32 → Link F32 → Result F32
  configure_velocity linear angular l =
      let linear_units = mul_as_i16 linear l.state.linear_velocity_scale in
      let angular_units = mul_as_i16 angular l.state.angular_velocity_scale in
      send_packet F32 (
        with_pkt F32 (Packet.set_velocity linear_units angular_units) (
          with_state F32
            (λ s. record s { linear_velocity = linear_units; angular_velocity = angular_units }) l))

  abbrev pub configure_tank : F32 → F32 → Link F32 → Result F32
  configure_tank left right l = send_packet F32 (
      with_pkt F32
        (Packet.set_motor_speed (mul_as_i16 left l.state.linear_velocity_scale)
          (mul_as_i16 right l.state.linear_velocity_scale))
        l)

  -- Two values that are both F32.
  abbrev pub f32_pair : Option (SensorValue fl) → Option (SensorValue fl) → Option (F32 × F32)
  f32_pair (some (f32 a)) (some (f32 b)) = some (a, b)
  f32_pair _ _ = none

  -- The velocity, or else the speeds of the wheels.
  abbrev pub configure_with : Option (F32 × F32) → Option (F32 × F32) → Link F32 → Result F32
  configure_with (some (linear, angular)) wheels l = configure_velocity linear angular l
  configure_with none (some (left, right)) l = configure_tank left right l
  configure_with none none l = err invalid_parameter l

  unfoldable pub configure_drive : Config fl → Link F32 → Result F32
  configure_drive config l =
      configure_with (f32_pair (config "linear") (config "angular"))
        (f32_pair (config "left") (config "right")) l

  unfoldable pub handle_drive : ComponentAction fl → Link F32 → Result F32
  unfolding configure_drive emergency_stop
  handle_drive (enable config) l = send_packet F32 (
      with_pkt F32 (Packet.set_motor_mode (drive_mode config))
        (with_state F32 (λ s. record s { wheel_motor_enabled = true }) l))
  handle_drive (disable config) l =
      let stopped =
        with_state F32
          (λ s. record s { wheel_motor_enabled = false; linear_velocity = 0; angular_velocity = 0 })
          l in
      send_packet F32 (with_pkt F32 (Packet.set_velocity 0 0) stopped) >> λ m.
      send_packet F32 (with_pkt F32 (Packet.set_motor_mode 0) m)
  handle_drive (reset config) l = emergency_stop l
  handle_drive (configure config) l = configure_drive config l

  unfoldable pub handle_led : ComponentAction fl → Link F32 → Result F32
  handle_led (configure config) l =
      if_some (as_u8 (config "state"))
        (λ state m. send_packet F32 (with_pkt F32 (Packet.set_led state) m)) l
  handle_led _ l = err not_implemented l

  unfoldable pub handle_lidar : ComponentAction fl → Link F32 → Result F32
  handle_lidar (enable config) l =
      let pwm = State.get_lidar_pwm F32 l.state in
      send_packet F32 (with_pkt F32 (Packet.set_lidar_power true) l) >> λ m. send_packet F32 (
        with_pkt F32 (Packet.set_lidar_pwm pwm)
          (with_state F32 (λ s. record s { lidar_enabled = true }) m))
  handle_lidar (disable config) l =
      send_packet F32 (
        with_pkt F32 (Packet.set_lidar_pwm 0)
          (with_state F32 (λ s. record s { lidar_enabled = false }) l))
      >> λ m. send_packet F32 (with_pkt F32 (Packet.set_lidar_power false) m)
  handle_lidar (configure config) l = ok l
  handle_lidar (reset config) l = err not_implemented l

  unfoldable pub handle_imu : ComponentAction fl → Link F32 → Result F32
  handle_imu (enable config) l =
      send_packet F32 (with_pkt F32 (Packet.set_imu_calibrate_state imu_default_payload) l)
  handle_imu (reset config) l = send_packet F32 (with_pkt F32 Packet.set_imu_factory_calibrate l)
  handle_imu _ l = err not_implemented l

  unfoldable pub handle_compass : ComponentAction fl → Link F32 → Result F32
  handle_compass (enable config) l =
      send_packet F32 (with_pkt F32 Packet.set_compass_calibration_state l)
  handle_compass (reset config) l = send_packet F32 (with_pkt F32 Packet.set_compass_calibrate l)
  handle_compass _ l = err not_implemented l

  unfoldable pub handle_cliff_ir : ComponentAction fl → Link F32 → Result F32
  handle_cliff_ir (enable config) l = send_packet F32 (with_pkt F32 (Packet.set_cliff_ir true) l)
  handle_cliff_ir (disable config) l = send_packet F32 (with_pkt F32 (Packet.set_cliff_ir false) l)
  handle_cliff_ir (configure config) l =
      if_some (as_u8 (config "direction"))
        (λ dir m. send_packet F32 (with_pkt F32 (Packet.set_cliff_ir_direction dir) m)) l
  handle_cliff_ir (reset config) l = err not_implemented l

  unfoldable pub handle_main_board : ComponentAction fl → Link F32 → Result F32
  handle_main_board (enable config) l =
      send_packet F32 (with_pkt F32 (Packet.set_main_board_power true) l)
  handle_main_board (disable config) l =
      send_packet F32 (with_pkt F32 (Packet.set_main_board_power false) l)
  handle_main_board (reset config) l =
      send_packet F32 (with_pkt F32 Packet.set_main_board_restart l)
  handle_main_board (configure config) l = err not_implemented l

  unfoldable pub handle_charger : ComponentAction fl → Link F32 → Result F32
  handle_charger (enable config) l =
      send_packet F32 (with_pkt F32 (Packet.set_charger_power true) l)
  handle_charger (disable config) l =
      send_packet F32 (with_pkt F32 (Packet.set_charger_power false) l)
  handle_charger _ l = err not_implemented l

  unfoldable pub handle_mcu : ComponentAction fl → Link F32 → Result F32
  handle_mcu (disable config) l = send_packet F32 (with_pkt F32 Packet.set_mcu_sleep l)
  handle_mcu (enable config) l = send_packet F32 (with_pkt F32 Packet.set_wakeup_ack l)
  handle_mcu (reset config) l = send_packet F32 (with_pkt F32 Packet.set_reset_error_code l)
  handle_mcu (configure config) l = err not_implemented l
