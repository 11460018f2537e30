-- ===== src/Gd32/Packet/Wire.antt =====
-- packet.rs: every checksummed command of `TxPacket` against the wire format.
use mathlib.Core.Path.{ap₂, subst}
use vacuum_tiger.Prelude.{
  ℕ, zero, suc, ◌+◌, ◌*◌, ◌/◌, ◌%◌, ◌≡◌, refl, ap, ◌∙◌, min, Bool, true, false, List, [], ◌∷◌, ◌++◌,
  ltb, leb, if◌then◌else◌, arith,
}
use vacuum_tiger.Gd32.Constants.{
  cmd_motor_velocity, cmd_motor_mode, cmd_air_pump, cmd_main_brush, cmd_side_brush, cmd_water_pump,
  cmd_lidar_pwm, cmd_button_led, cmd_heartbeat, cmd_version, cmd_request_stm32_data,
  cmd_protocol_sync, cmd_lidar_power, cmd_cliff_ir_control, cmd_cliff_ir_direction, cmd_motor_speed,
  cmd_imu_factory_calibrate, cmd_imu_calibrate_state, cmd_compass_calibrate,
  cmd_compass_calibration_state, cmd_main_board_power, cmd_main_board_restart, cmd_charger_power,
  cmd_mcu_sleep, cmd_wakeup_ack, cmd_reset_error_code,
}
use vacuum_tiger.Gd32.Packet.Core.{TxPacket}
use vacuum_tiger.Gd32.Packet.Commands.{
  i32_le_bytes, u16_le_bytes, u32_le_bytes, scaled, flag, set_velocity, set_motor_mode,
  set_air_pump, set_main_brush, set_side_brush, set_water_pump, set_lidar_pwm, set_led,
  set_heartbeat, set_version_request, set_request_stm32, set_protocol_sync, set_lidar_power,
  set_cliff_ir, set_cliff_ir_direction, set_motor_speed, set_imu_factory_calibrate,
  set_imu_calibrate_state, set_compass_calibrate, set_compass_calibration_state,
  set_main_board_power, set_main_board_restart, set_charger_power, set_mcu_sleep, set_wakeup_ack,
  set_reset_error_code,
}
use vacuum_tiger.Gd32.Packet.Frames.{IsReady, Sends, finalize-Sends, finalize-Sends_bare}

-- The calls of a setter, with their arguments.
pub data Command : Type 0 where
  velocity : ℕ → ℕ → Command
  motor_mode : ℕ → Command
  air_pump : ℕ → Command
  main_brush : ℕ → Command
  side_brush : ℕ → Command
  water_pump : ℕ → Command
  lidar_pwm : ℕ → Command
  led : ℕ → Command
  heartbeat : Command
  version_request : Command
  request_stm32 : Command
  protocol_sync : Command
  lidar_power : Bool → Command
  cliff_ir : Bool → Command
  cliff_ir_direction : ℕ → Command
  motor_speed : ℕ → ℕ → Command
  imu_factory_calibrate : Command
  imu_calibrate_state : ℕ → ℕ → ℕ → ℕ → Command
  compass_calibrate : Command
  compass_calibration_state : Command
  main_board_power : Bool → Command
  main_board_restart : Command
  charger_power : Bool → Command
  mcu_sleep : Command
  wakeup_ack : Command
  reset_error_code : Command

-- The setter that a call runs.
unfoldable pub run : Command → TxPacket → TxPacket
run (velocity linear angular) p = set_velocity linear angular p
run (motor_mode mode) p = set_motor_mode mode p
run (air_pump speed) p = set_air_pump speed p
run (main_brush speed) p = set_main_brush speed p
run (side_brush speed) p = set_side_brush speed p
run (water_pump speed) p = set_water_pump speed p
run (lidar_pwm speed) p = set_lidar_pwm speed p
run (led state) p = set_led state p
run heartbeat p = set_heartbeat p
run version_request p = set_version_request p
run request_stm32 p = set_request_stm32 p
run protocol_sync p = set_protocol_sync p
run (lidar_power on) p = set_lidar_power on p
run (cliff_ir enable) p = set_cliff_ir enable p
run (cliff_ir_direction direction) p = set_cliff_ir_direction direction p
run (motor_speed left right) p = set_motor_speed left right p
run imu_factory_calibrate p = set_imu_factory_calibrate p
run (imu_calibrate_state a b c d) p = set_imu_calibrate_state (a ∷ b ∷ c ∷ d ∷ []) p
run compass_calibrate p = set_compass_calibrate p
run compass_calibration_state p = set_compass_calibration_state p
run (main_board_power on) p = set_main_board_power on p
run main_board_restart p = set_main_board_restart p
run (charger_power on) p = set_charger_power on p
run mcu_sleep p = set_mcu_sleep p
run wakeup_ack p = set_wakeup_ack p
run reset_error_code p = set_reset_error_code p

-- The command byte that constants.rs assigns to it.
abbrev pub id : Command → ℕ
id (velocity linear angular) = cmd_motor_velocity
id (motor_mode mode) = cmd_motor_mode
id (air_pump speed) = cmd_air_pump
id (main_brush speed) = cmd_main_brush
id (side_brush speed) = cmd_side_brush
id (water_pump speed) = cmd_water_pump
id (lidar_pwm speed) = cmd_lidar_pwm
id (led state) = cmd_button_led
id heartbeat = cmd_heartbeat
id version_request = cmd_version
id request_stm32 = cmd_request_stm32_data
id protocol_sync = cmd_protocol_sync
id (lidar_power on) = cmd_lidar_power
id (cliff_ir enable) = cmd_cliff_ir_control
id (cliff_ir_direction direction) = cmd_cliff_ir_direction
id (motor_speed left right) = cmd_motor_speed
id imu_factory_calibrate = cmd_imu_factory_calibrate
id (imu_calibrate_state a b c d) = cmd_imu_calibrate_state
id compass_calibrate = cmd_compass_calibrate
id compass_calibration_state = cmd_compass_calibration_state
id (main_board_power on) = cmd_main_board_power
id main_board_restart = cmd_main_board_restart
id (charger_power on) = cmd_charger_power
id mcu_sleep = cmd_mcu_sleep
id wakeup_ack = cmd_wakeup_ack
id reset_error_code = cmd_reset_error_code

-- As many bytes of a number as the count says, the lowest first.
abbrev pub little_endian : ℕ → ℕ → List ℕ
little_endian zero n = []
little_endian (suc k) n = n % 256 ∷ little_endian k (n / 256)

-- The i32 of the same value as an i16, as bit patterns.
abbrev pub sign_extended : ℕ → ℕ
sign_extended v = if leb 0x8000 v then 0xffff0000 + v else v

abbrev pub switch : Bool → List ℕ
switch true = 1 ∷ []
switch false = 0 ∷ []

-- Its arguments as the protocol has them: numbers in little-endian order, velocities on 32 bits, the
-- air pump's speed times 16 and a half, the lidar's speed limited to 100, and 1 for on.
abbrev pub args : Command → List ℕ
args (velocity linear angular) =
    little_endian 4 (sign_extended linear) ++ little_endian 4 (sign_extended angular)
args (motor_mode mode) = mode ∷ []
args (air_pump speed) = little_endian 2 (16 * speed + speed / 2)
args (main_brush speed) = speed ∷ []
args (side_brush speed) = speed ∷ []
args (water_pump speed) = speed ∷ []
args (lidar_pwm speed) = little_endian 4 (if leb 100 speed then 100 else speed)
args (led state) = state ∷ []
args heartbeat = []
args version_request = []
args request_stm32 = []
args protocol_sync = 1 ∷ []
args (lidar_power on) = switch on
args (cliff_ir enable) = switch enable
args (cliff_ir_direction direction) = direction ∷ []
args (motor_speed left right) = little_endian 2 left ++ little_endian 2 right
args imu_factory_calibrate = []
args (imu_calibrate_state a b c d) = a ∷ b ∷ c ∷ d ∷ []
args compass_calibrate = []
args compass_calibration_state = []
args (main_board_power on) = switch on
args main_board_restart = []
args (charger_power on) = switch on
args mcu_sleep = []
args wakeup_ack = []
args reset_error_code = []

u32_le_bytes-little_endian : (n : ℕ) → u32_le_bytes n ≡ little_endian 4 n
u32_le_bytes-little_endian n =
    ap₂ (λ c d. n % 256 ∷ n / 256 % 256 ∷ c ∷ d ∷ []) (omega arith) (omega arith)

i32_le_bytes-little_endian : (v : ℕ) → i32_le_bytes v ≡ little_endian 4 (sign_extended v)
i32_le_bytes-little_endian v =
    u32_le_bytes-little_endian (if ltb v 32768 then v else v + 0xffff0000)
    ∙ ap (λ n. little_endian 4 n) (ground arith)

scaled_half : (speed : ℕ) → scaled speed ≡ 16 * speed + speed / 2
scaled_half speed = omega arith

limited : (speed : ℕ) → min speed 100 ≡ (if leb 100 speed then 100 else speed)
limited speed = ground arith

flag-switch : (on : Bool) → flag on ∷ [] ≡ switch on
flag-switch true = refl
flag-switch false = refl

-- The payload may be written in another way.
relabel_payload :
    (p : TxPacket) (cmd : ℕ) {payload payload' : List ℕ}
    → payload ≡ payload'
    → Sends p cmd payload
    → Sends p cmd payload'
relabel_payload p cmd e h = subst (λ b. Sends p cmd b) e h

-- Every setter with a checksum, which is all of them but `set_initialize`: whatever command a packet
-- was used for before, the setter leaves exactly the frame of its command, with the arguments as the
-- protocol has them, in the packet's bytes, and the packet is ready to be used again.
pub run-Sends : (c : Command) (p : TxPacket) → IsReady p → Sends (run c p) (id c) (args c)
unfolding run set_velocity set_motor_mode set_air_pump set_main_brush set_side_brush set_water_pump
    set_lidar_pwm set_led set_heartbeat set_version_request set_request_stm32 set_protocol_sync
    set_lidar_power set_cliff_ir set_cliff_ir_direction set_motor_speed set_imu_factory_calibrate
    set_imu_calibrate_state set_compass_calibrate set_compass_calibration_state set_main_board_power
    set_main_board_restart set_charger_power set_mcu_sleep set_wakeup_ack set_reset_error_code
run-Sends (velocity linear angular) p h =
    relabel_payload (set_velocity linear angular p) _
      (ap₂ (λ a b. a ++ b) (i32_le_bytes-little_endian linear) (i32_le_bytes-little_endian angular))
      (finalize-Sends _ (i32_le_bytes linear ++ i32_le_bytes angular) p (omega arith) h)
run-Sends (motor_mode mode) p h = finalize-Sends _ (mode ∷ []) p (omega arith) h
run-Sends (air_pump speed) p h =
    relabel_payload (set_air_pump speed p) _ (ap (λ n. u16_le_bytes n) (scaled_half speed))
      (finalize-Sends _ (u16_le_bytes (scaled speed)) p (omega arith) h)
run-Sends (main_brush speed) p h = finalize-Sends _ (speed ∷ []) p (omega arith) h
run-Sends (side_brush speed) p h = finalize-Sends _ (speed ∷ []) p (omega arith) h
run-Sends (water_pump speed) p h = finalize-Sends _ (speed ∷ []) p (omega arith) h
run-Sends (lidar_pwm speed) p h =
    relabel_payload (set_lidar_pwm speed p) _
      (u32_le_bytes-little_endian (min speed 100) ∙ ap (λ n. little_endian 4 n) (limited speed))
      (finalize-Sends _ (u32_le_bytes (min speed 100)) p (omega arith) h)
run-Sends (led state) p h = finalize-Sends _ (state ∷ []) p (omega arith) h
run-Sends heartbeat p h = finalize-Sends_bare _ p h
run-Sends version_request p h = finalize-Sends_bare _ p h
run-Sends request_stm32 p h = finalize-Sends_bare _ p h
run-Sends protocol_sync p h = finalize-Sends _ (1 ∷ []) p (omega arith) h
run-Sends (lidar_power on) p h =
    relabel_payload (set_lidar_power on p) _ (flag-switch on)
      (finalize-Sends _ (flag on ∷ []) p (omega arith) h)
run-Sends (cliff_ir enable) p h =
    relabel_payload (set_cliff_ir enable p) _ (flag-switch enable)
      (finalize-Sends _ (flag enable ∷ []) p (omega arith) h)
run-Sends (cliff_ir_direction direction) p h = finalize-Sends _ (direction ∷ []) p (omega arith) h
run-Sends (motor_speed left right) p h =
    finalize-Sends _ (u16_le_bytes left ++ u16_le_bytes right) p (omega arith) h
run-Sends imu_factory_calibrate p h = finalize-Sends_bare _ p h
run-Sends (imu_calibrate_state a b c d) p h =
    finalize-Sends _ (a ∷ b ∷ c ∷ d ∷ []) p (omega arith) h
run-Sends compass_calibrate p h = finalize-Sends_bare _ p h
run-Sends compass_calibration_state p h = finalize-Sends_bare _ p h
run-Sends (main_board_power on) p h =
    relabel_payload (set_main_board_power on p) _ (flag-switch on)
      (finalize-Sends _ (flag on ∷ []) p (omega arith) h)
run-Sends main_board_restart p h = finalize-Sends_bare _ p h
run-Sends (charger_power on) p h =
    relabel_payload (set_charger_power on p) _ (flag-switch on)
      (finalize-Sends _ (flag on ∷ []) p (omega arith) h)
run-Sends mcu_sleep p h = finalize-Sends_bare _ p h
run-Sends wakeup_ack p h = finalize-Sends_bare _ p h
run-Sends reset_error_code p h = finalize-Sends_bare _ p h
