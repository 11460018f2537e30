-- ===== src/S5Max/Reports/Decode.antt =====
-- packet.rs: the decoders of the reports. A signed integer and an f32 are their bit patterns.
use vacuum_tiger.Prelude.{
  ℕ, ◌+◌, ◌/◌, ◌%◌, Bool, not, ◌&&◌, ◌||◌, Option, none, some, List, [], ◌∷◌, length, take, ltb,
  leb, ◌==◌, if◌then◌else◌,
}
use mathlib.Core.Option
use vacuum_tiger.Prelude.Text.{bytes_eq}
use vacuum_tiger.S5Max.Decoder.{Frame}
use vacuum_tiger.S5Max.Reports.Ids.{
  system_mode_report_message, system_mode_report_length, internal_error_report_message,
  internal_error_report_length, battery_report_message, battery_report_length, wheel_report_message,
  wheel_report_length, fan_report_message, fan_report_length, brush_report_message,
  brush_report_length, sweep_report_message, sweep_report_length, wall_sensor_report_message,
  wall_sensor_report_length, gyro_echo_report_message, gyro_echo_report_length,
}
use vacuum_tiger.S5Max.Reports.Wire.{embedded_report, cut, number, at}

pub record WheelReport : Type 0 where
  pub bytes : List ℕ

unfoldable pub left_current_ma : WheelReport → ℕ
left_current_ma r = number 0 2 r.bytes

unfoldable pub right_current_ma : WheelReport → ℕ
right_current_ma r = number 2 4 r.bytes

unfoldable pub left_drive_level : WheelReport → ℕ
left_drive_level r = at 4 r.bytes

unfoldable pub right_drive_level : WheelReport → ℕ
right_drive_level r = at 5 r.bytes

unfoldable pub left_fault : WheelReport → ℕ
left_fault r = at 6 r.bytes

unfoldable pub right_fault : WheelReport → ℕ
right_fault r = at 7 r.bytes

unfoldable pub is_wheel_report : Frame → Bool
is_wheel_report f = f.message == wheel_report_message && f.command == wheel_report_length

unfoldable pub wheel_report : Frame → Option WheelReport
unfolding is_wheel_report
wheel_report f =
    if not (is_wheel_report f) || ltb (length f.payload) (2 + wheel_report_length)
    then none
    else some (record { bytes = cut 2 10 f.payload })

unfoldable pub embedded_wheel_report : Frame → Option WheelReport
embedded_wheel_report f =
    Option.map (λ bytes. record { bytes = bytes })
      (embedded_report wheel_report_message wheel_report_length f)

pub record MotorReport : Type 0 where
  pub sentinel : ℕ
  pub current_ma : ℕ
  pub fault : ℕ
  pub speed : ℕ

-- `MotorReport::parse`.
unfoldable pub parse_motor : List ℕ → Option MotorReport
parse_motor bytes =
    if leb 6 (length bytes)
    then some (record {
      sentinel = number 0 2 bytes;
      current_ma = number 2 4 bytes;
      fault = at 4 bytes;
      speed = at 5 bytes;
    })
    else none

abbrev pub parse_motor_of : Option (List ℕ) → Option MotorReport
parse_motor_of none = none
parse_motor_of (some bytes) = parse_motor bytes

unfoldable pub embedded_motor_report : ℕ → Frame → Option MotorReport
embedded_motor_report message f =
    if message == fan_report_message
    then parse_motor_of (embedded_report message fan_report_length f)
    else if message == brush_report_message
    then parse_motor_of (embedded_report message brush_report_length f)
    else if message == sweep_report_message
    then parse_motor_of (embedded_report message sweep_report_length f)
    else none

pub record BatteryReport : Type 0 where
  pub voltage_mv : ℕ
  pub current_ma : ℕ
  pub state_of_charge_percent : ℕ
  pub reserved : List ℕ

unfoldable pub battery_report : Frame → Option BatteryReport
battery_report f =
    Option.map
      (λ bytes. record {
        voltage_mv = number 0 2 bytes;
        current_ma = number 2 4 bytes;
        state_of_charge_percent = at 4 bytes;
        reserved = cut 5 10 bytes;
      })
      (embedded_report battery_report_message battery_report_length f)

-- `WallSensorReport`, as its field `raw_adc`.
unfoldable pub wall_sensor_report : Frame → Option ℕ
wall_sensor_report f =
    Option.map (number 0 2) (embedded_report wall_sensor_report_message wall_sensor_report_length f)

-- `GyroEchoReport`, as its field `token`.
unfoldable pub gyro_echo_report : Frame → Option ℕ
gyro_echo_report f =
    Option.map (at 0) (embedded_report gyro_echo_report_message gyro_echo_report_length f)

pub data SystemMode : Type 0 where
  normal : SystemMode
  idle : SystemMode
  factory : SystemMode
  manual_built_in_test : SystemMode
  automatic_built_in_test : SystemMode
  mobility_test : SystemMode
  shutdown : SystemMode
  reserved_rejected : SystemMode
  energy_efficiency : SystemMode
  retreading_factory : SystemMode
  start_key_only_boot : SystemMode
  watchdog_reset_no_dock : SystemMode
  pin_reset_no_dock : SystemMode
  software_reset_no_dock : SystemMode
  dock_only_boot : SystemMode
  watchdog_reset_docked : SystemMode
  pin_reset_docked : SystemMode
  software_reset_docked : SystemMode
  ap_power_on_after_communication_failure : SystemMode
  unknown : ℕ → SystemMode

-- `SystemMode::from_wire`.
unfoldable pub from_wire : ℕ → SystemMode
from_wire value =
    if value == 0x00
    then normal
    else if value == 0x01
    then idle
    else if value == 0x02
    then factory
    else if value == 0x03
    then manual_built_in_test
    else if value == 0x04
    then automatic_built_in_test
    else if value == 0x05
    then mobility_test
    else if value == 0x06
    then shutdown
    else if value == 0x07
    then reserved_rejected
    else if value == 0x08
    then energy_efficiency
    else if value == 0x09
    then retreading_factory
    else if value == 0x20
    then start_key_only_boot
    else if value == 0x21
    then watchdog_reset_no_dock
    else if value == 0x22
    then pin_reset_no_dock
    else if value == 0x23
    then software_reset_no_dock
    else if value == 0x40
    then dock_only_boot
    else if value == 0x41
    then watchdog_reset_docked
    else if value == 0x42
    then pin_reset_docked
    else if value == 0x43
    then software_reset_docked
    else if value == 0x44
    then ap_power_on_after_communication_failure
    else unknown value

-- `SystemModeReport`, as its field `mode`. The bytes start with the text `sys_md` and a NUL.
unfoldable pub system_mode_of : Option (List ℕ) → Option SystemMode
unfolding from_wire
system_mode_of none = none
system_mode_of (some bytes) =
    if bytes_eq (take 7 bytes) (0x73 ∷ 0x79 ∷ 0x73 ∷ 0x5f ∷ 0x6d ∷ 0x64 ∷ 0 ∷ [])
    then some (from_wire (at 7 bytes))
    else none

unfoldable pub system_mode_report : Frame → Option SystemMode
unfolding system_mode_of
system_mode_report f =
    system_mode_of (embedded_report system_mode_report_message system_mode_report_length f)

-- `InternalErrorReport`, as its field `raw`.
unfoldable pub internal_error_report : Frame → Option ℕ
internal_error_report f =
    Option.map (number 0 4)
      (embedded_report internal_error_report_message internal_error_report_length f)

unfoldable pub test_info_invalid : ℕ → Bool
test_info_invalid raw = not (raw % 2 == 0)

unfoldable pub gyro_probe_failed : ℕ → Bool
gyro_probe_failed raw = not (raw / 2 % 2 == 0)

unfoldable pub bms_communication_failed : ℕ → Bool
bms_communication_failed raw = not (raw / 4 % 2 == 0)

unfoldable pub compatibility_bits : ℕ → ℕ
compatibility_bits raw = raw / 8 % 8
