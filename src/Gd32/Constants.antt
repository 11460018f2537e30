-- ===== src/Gd32/Constants.antt =====
-- sangamio/src/devices/crl200s/constants.rs: sync bytes and command identifiers.
use vacuum_tiger.Prelude.{ℕ}

abbrev pub sync_byte_1 : ℕ
sync_byte_1 = 0xfa

abbrev pub sync_byte_2 : ℕ
sync_byte_2 = 0xfb

abbrev pub cmd_initialize : ℕ
cmd_initialize = 0x08

abbrev pub cmd_heartbeat : ℕ
cmd_heartbeat = 0x06

abbrev pub cmd_version : ℕ
cmd_version = 0x07

abbrev pub cmd_status : ℕ
cmd_status = 0x15

abbrev pub cmd_motor_velocity : ℕ
cmd_motor_velocity = 0x66

abbrev pub cmd_motor_speed : ℕ
cmd_motor_speed = 0x67

abbrev pub cmd_air_pump : ℕ
cmd_air_pump = 0x68

abbrev pub cmd_side_brush : ℕ
cmd_side_brush = 0x69

abbrev pub cmd_main_brush : ℕ
cmd_main_brush = 0x6a

abbrev pub cmd_water_pump : ℕ
cmd_water_pump = 0x6b

abbrev pub cmd_button_led : ℕ
cmd_button_led = 0x8d

abbrev pub cmd_motor_mode : ℕ
cmd_motor_mode = 0x65

abbrev pub cmd_lidar_power : ℕ
cmd_lidar_power = 0x97

abbrev pub cmd_lidar_pwm : ℕ
cmd_lidar_pwm = 0x71

abbrev pub cmd_cliff_ir_control : ℕ
cmd_cliff_ir_control = 0x78

abbrev pub cmd_cliff_ir_direction : ℕ
cmd_cliff_ir_direction = 0x79

abbrev pub cmd_imu_factory_calibrate : ℕ
cmd_imu_factory_calibrate = 0xa1

abbrev pub cmd_imu_calibrate_state : ℕ
cmd_imu_calibrate_state = 0xa2

abbrev pub cmd_compass_calibrate : ℕ
cmd_compass_calibrate = 0xa3

abbrev pub cmd_compass_calibration_state : ℕ
cmd_compass_calibration_state = 0xa4

abbrev pub cmd_request_stm32_data : ℕ
cmd_request_stm32_data = 0x0d

abbrev pub cmd_mcu_sleep : ℕ
cmd_mcu_sleep = 0x04

abbrev pub cmd_wakeup_ack : ℕ
cmd_wakeup_ack = 0x05

abbrev pub cmd_reset_error_code : ℕ
cmd_reset_error_code = 0x0a

abbrev pub cmd_protocol_sync : ℕ
cmd_protocol_sync = 0x0c

abbrev pub cmd_main_board_power : ℕ
cmd_main_board_power = 0x99

abbrev pub cmd_main_board_restart : ℕ
cmd_main_board_restart = 0x9a

abbrev pub cmd_charger_power : ℕ
cmd_charger_power = 0x9b
