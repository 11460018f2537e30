-- ===== src/Gd32/Packet/Commands.antt =====
-- packet.rs: the command setters of `TxPacket`. An integer argument is its bit pattern.
use vacuum_tiger.Prelude.{
  ℕ, ◌+◌, ◌*◌, ◌/◌, ◌%◌, ◌^◌, min, Bool, List, [], ◌∷◌, ◌++◌, ltb, if◌then◌else◌,
}
use vacuum_tiger.Gd32.Constants.{
  cmd_air_pump, cmd_button_led, cmd_charger_power, cmd_cliff_ir_control, cmd_cliff_ir_direction,
  cmd_compass_calibrate, cmd_compass_calibration_state, cmd_heartbeat, cmd_imu_calibrate_state,
  cmd_imu_factory_calibrate, cmd_initialize, cmd_lidar_power, cmd_lidar_pwm, cmd_main_board_power,
  cmd_main_board_restart, cmd_main_brush, cmd_mcu_sleep, cmd_motor_mode, cmd_motor_speed,
  cmd_motor_velocity, cmd_protocol_sync, cmd_request_stm32_data, cmd_reset_error_code,
  cmd_side_brush, cmd_version, cmd_wakeup_ack, cmd_water_pump,
}
use vacuum_tiger.Gd32.Packet.Core.{TxPacket, header, fill, finalize}

-- `u16::to_le_bytes`.
abbrev pub u16_le_bytes : ℕ → List ℕ
u16_le_bytes v = v % 256 ∷ v / 256 % 256 ∷ []

-- `u32::to_le_bytes`, of a bit pattern.
abbrev pub u32_le_bytes : ℕ → List ℕ
u32_le_bytes v = v % 256 ∷ v / 256 % 256 ∷ v / 65536 % 256 ∷ v / 2 ^ 24 % 256 ∷ []

-- `(v as i32).to_le_bytes()` for the bit pattern `v` of an i16: the cast extends the sign.
abbrev pub i32_le_bytes : ℕ → List ℕ
i32_le_bytes v = u32_le_bytes (if ltb v 32768 then v else v + 0xffff0000)

-- `((speed as f32) * 16.5) as u16`. For a byte the product is exact in f32, and the cast truncates.
abbrev pub scaled : ℕ → ℕ
scaled speed = speed * 33 / 2

abbrev pub flag : Bool → ℕ
flag on = if on then 1 else 0

-- CMD 0x66; `linear` and `angular` are the bit patterns of two i16.
unfoldable pub set_velocity : ℕ → ℕ → TxPacket → TxPacket
unfolding header fill finalize
set_velocity linear angular p =
    finalize 8 (fill (i32_le_bytes linear ++ i32_le_bytes angular) (header 11 cmd_motor_velocity p))

-- CMD 0x65.
unfoldable pub set_motor_mode : ℕ → TxPacket → TxPacket
unfolding header fill finalize
set_motor_mode mode p = finalize 1 (fill (mode ∷ []) (header 4 cmd_motor_mode p))

unfoldable pub set_motor_mode_nav : TxPacket → TxPacket
unfolding set_motor_mode
set_motor_mode_nav p = set_motor_mode 2 p

-- CMD 0x68.
unfoldable pub set_air_pump : ℕ → TxPacket → TxPacket
unfolding header fill finalize
set_air_pump speed p = finalize 2 (fill (u16_le_bytes (scaled speed)) (header 5 cmd_air_pump p))

-- CMD 0x6A.
unfoldable pub set_main_brush : ℕ → TxPacket → TxPacket
unfolding header fill finalize
set_main_brush speed p = finalize 1 (fill (speed ∷ []) (header 4 cmd_main_brush p))

-- CMD 0x69.
unfoldable pub set_side_brush : ℕ → TxPacket → TxPacket
unfolding header fill finalize
set_side_brush speed p = finalize 1 (fill (speed ∷ []) (header 4 cmd_side_brush p))

-- CMD 0x6B.
unfoldable pub set_water_pump : ℕ → TxPacket → TxPacket
unfolding header fill finalize
set_water_pump speed p = finalize 1 (fill (speed ∷ []) (header 4 cmd_water_pump p))

-- CMD 0x71; the value lies between 0 and 100, where an i32 is its own bit pattern.
unfoldable pub set_lidar_pwm : ℕ → TxPacket → TxPacket
unfolding header fill finalize
set_lidar_pwm speed p = finalize 4 (fill (u32_le_bytes (min speed 100)) (header 7 cmd_lidar_pwm p))

-- CMD 0x8D.
unfoldable pub set_led : ℕ → TxPacket → TxPacket
unfolding header fill finalize
set_led state p = finalize 1 (fill (state ∷ []) (header 4 cmd_button_led p))

-- CMD 0x06.
unfoldable pub set_heartbeat : TxPacket → TxPacket
unfolding header fill finalize
set_heartbeat p = finalize 0 (header 3 cmd_heartbeat p)

-- CMD 0x08 has no checksum.
unfoldable pub set_initialize : TxPacket → TxPacket
unfolding header
set_initialize p = record (header 1 cmd_initialize p) { len = 4 }

-- CMD 0x07.
unfoldable pub set_version_request : TxPacket → TxPacket
unfolding header fill finalize
set_version_request p = finalize 0 (header 3 cmd_version p)

-- CMD 0x0D.
unfoldable pub set_request_stm32 : TxPacket → TxPacket
unfolding header fill finalize
set_request_stm32 p = finalize 0 (header 3 cmd_request_stm32_data p)

-- CMD 0x0C.
unfoldable pub set_protocol_sync : TxPacket → TxPacket
unfolding header fill finalize
set_protocol_sync p = finalize 1 (fill (1 ∷ []) (header 4 cmd_protocol_sync p))

-- CMD 0x97.
unfoldable pub set_lidar_power : Bool → TxPacket → TxPacket
unfolding header fill finalize
set_lidar_power on p = finalize 1 (fill (flag on ∷ []) (header 4 cmd_lidar_power p))

-- CMD 0x78.
unfoldable pub set_cliff_ir : Bool → TxPacket → TxPacket
unfolding header fill finalize
set_cliff_ir enable p = finalize 1 (fill (flag enable ∷ []) (header 4 cmd_cliff_ir_control p))

-- CMD 0x79.
unfoldable pub set_cliff_ir_direction : ℕ → TxPacket → TxPacket
unfolding header fill finalize
set_cliff_ir_direction direction p =
    finalize 1 (fill (direction ∷ []) (header 4 cmd_cliff_ir_direction p))

-- the bytes of two i16 bit patterns.
unfoldable pub set_motor_speed : ℕ → ℕ → TxPacket → TxPacket
unfolding header fill finalize
set_motor_speed left right p =
    finalize 4 (fill (u16_le_bytes left ++ u16_le_bytes right) (header 7 cmd_motor_speed p))

-- CMD 0xA1.
unfoldable pub set_imu_factory_calibrate : TxPacket → TxPacket
unfolding header fill finalize
set_imu_factory_calibrate p = finalize 0 (header 3 cmd_imu_factory_calibrate p)

-- CMD 0xA2; `payload` is an array of four bytes.
unfoldable pub set_imu_calibrate_state : List ℕ → TxPacket → TxPacket
unfolding header fill finalize
set_imu_calibrate_state payload p = finalize 4 (fill payload (header 7 cmd_imu_calibrate_state p))

-- CMD 0xA3.
unfoldable pub set_compass_calibrate : TxPacket → TxPacket
unfolding header fill finalize
set_compass_calibrate p = finalize 0 (header 3 cmd_compass_calibrate p)

-- CMD 0xA4.
unfoldable pub set_compass_calibration_state : TxPacket → TxPacket
unfolding header fill finalize
set_compass_calibration_state p = finalize 0 (header 3 cmd_compass_calibration_state p)

-- CMD 0x99.
unfoldable pub set_main_board_power : Bool → TxPacket → TxPacket
unfolding header fill finalize
set_main_board_power on p = finalize 1 (fill (flag on ∷ []) (header 4 cmd_main_board_power p))

-- CMD 0x9A.
unfoldable pub set_main_board_restart : TxPacket → TxPacket
unfolding header fill finalize
set_main_board_restart p = finalize 0 (header 3 cmd_main_board_restart p)

-- CMD 0x9B.
unfoldable pub set_charger_power : Bool → TxPacket → TxPacket
unfolding header fill finalize
set_charger_power on p = finalize 1 (fill (flag on ∷ []) (header 4 cmd_charger_power p))

-- CMD 0x04.
unfoldable pub set_mcu_sleep : TxPacket → TxPacket
unfolding header fill finalize
set_mcu_sleep p = finalize 0 (header 3 cmd_mcu_sleep p)

-- CMD 0x05.
unfoldable pub set_wakeup_ack : TxPacket → TxPacket
unfolding header fill finalize
set_wakeup_ack p = finalize 0 (header 3 cmd_wakeup_ack p)

-- CMD 0x0A.
unfoldable pub set_reset_error_code : TxPacket → TxPacket
unfolding header fill finalize
set_reset_error_code p = finalize 0 (header 3 cmd_reset_error_code p)
