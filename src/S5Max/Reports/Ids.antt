-- ===== src/S5Max/Reports/Ids.antt =====
-- packet.rs: the identifiers and lengths of the reports.
use vacuum_tiger.Prelude.{ℕ}

abbrev pub report_state_message : ℕ
report_state_message = 0x07

abbrev pub report_state_command : ℕ
report_state_command = 0x40

abbrev pub report_event_message : ℕ
report_event_message = 0x0b

abbrev pub report_event_command : ℕ
report_event_command = 0x08

abbrev pub system_mode_report_message : ℕ
system_mode_report_message = 0x02

abbrev pub system_mode_report_length : ℕ
system_mode_report_length = 0x08

abbrev pub internal_error_report_message : ℕ
internal_error_report_message = 0x04

abbrev pub internal_error_report_length : ℕ
internal_error_report_length = 0x04

abbrev pub black_box_report_message : ℕ
black_box_report_message = 0x0b

abbrev pub black_box_report_length : ℕ
black_box_report_length = 0x08

abbrev pub device_info_report_message : ℕ
device_info_report_message = 0x0d

abbrev pub device_info_report_length : ℕ
device_info_report_length = 0x10

abbrev pub dock_voltage_report_message : ℕ
dock_voltage_report_message = 0x0f

abbrev pub dock_voltage_report_length : ℕ
dock_voltage_report_length = 0x02

abbrev pub battery_capacity_report_message : ℕ
battery_capacity_report_message = 0x16

abbrev pub battery_capacity_report_length : ℕ
battery_capacity_report_length = 0x02

abbrev pub battery_report_message : ℕ
battery_report_message = 0x08

abbrev pub battery_report_length : ℕ
battery_report_length = 0x0a

abbrev pub wheel_report_message : ℕ
wheel_report_message = 0x51

abbrev pub wheel_report_length : ℕ
wheel_report_length = 0x08

abbrev pub fan_report_message : ℕ
fan_report_message = 0x50

abbrev pub fan_report_length : ℕ
fan_report_length = 0x06

abbrev pub brush_report_message : ℕ
brush_report_message = 0x52

abbrev pub brush_report_length : ℕ
brush_report_length = 0x06

abbrev pub sweep_report_message : ℕ
sweep_report_message = 0x53

abbrev pub sweep_report_length : ℕ
sweep_report_length = 0x06

abbrev pub wall_sensor_report_message : ℕ
wall_sensor_report_message = 0x42

abbrev pub wall_sensor_report_length : ℕ
wall_sensor_report_length = 0x02

abbrev pub gyro_echo_report_message : ℕ
gyro_echo_report_message = 0xd1

abbrev pub gyro_echo_report_length : ℕ
gyro_echo_report_length = 0x01

abbrev pub mcu_time_report_message : ℕ
mcu_time_report_message = 0xd2

abbrev pub mcu_time_report_length : ℕ
mcu_time_report_length = 0x08

abbrev pub calibration_report_message : ℕ
calibration_report_message = 0xd5

abbrev pub calibration_report_length : ℕ
calibration_report_length = 0x1c

abbrev pub mcu_identity_report_message : ℕ
mcu_identity_report_message = 0xf1

abbrev pub mcu_identity_report_length : ℕ
mcu_identity_report_length = 0x10

abbrev pub status_string_report_message : ℕ
status_string_report_message = 0xf6

abbrev pub dock_ir_report_message : ℕ
dock_ir_report_message = 0x13

abbrev pub dock_ir_report_length : ℕ
dock_ir_report_length = 0x04

abbrev pub report_footer_message : ℕ
report_footer_message = 0xd0

abbrev pub report_footer_length : ℕ
report_footer_length = 0x02

abbrev pub log_subtype_notice : ℕ
log_subtype_notice = 0x81

abbrev pub state_base_length : ℕ
state_base_length = 66
