-- ===== src/S5Max/Commands/Core.antt =====
-- commands.rs: the encoders of the commands. An f32 is of any type with its bytes and the test for
-- finite numbers.
use vacuum_tiger.Prelude.{
  ℕ, zero, suc, ◌+◌, ◌/◌, ◌%◌, ◌^◌, ◌≡◌, Bool, true, false, not, ◌||◌, List, [], ◌∷◌, ◌++◌, length,
  ltb, ◌==◌, if◌then◌else◌,
}
use vacuum_tiger.S5Max.Frame.{EncodeError, Result, ok, err, encode_binary_frame}
use vacuum_tiger.S5Max.Safety.{Velocity}

abbrev pub sync_sensor_status : ℕ
sync_sensor_status = 0x82

abbrev pub query_mcu_version : ℕ
query_mcu_version = 0x80

abbrev pub query_device_info : ℕ
query_device_info = 0x88

abbrev pub query_current_errors : ℕ
query_current_errors = 0x8c

abbrev pub query_battery_capacity : ℕ
query_battery_capacity = 0x8f

abbrev pub system_mode_command : ℕ
system_mode_command = 0xb0

abbrev pub subsystem_state_command : ℕ
subsystem_state_command = 0xb1

abbrev pub charger_command : ℕ
charger_command = 0xb7

abbrev pub water_pump_command : ℕ
water_pump_command = 0xbf

abbrev pub wheel_command : ℕ
wheel_command = 0xc0

abbrev pub fan_command : ℕ
fan_command = 0xc1

abbrev pub main_brush_command : ℕ
main_brush_command = 0xc3

abbrev pub side_brush_command : ℕ
side_brush_command = 0xc4

abbrev pub ack_report : ℕ
ack_report = 0xd1

abbrev pub heartbeat : ℕ
heartbeat = 0xd3

abbrev pub main_brush_subsystem : ℕ
main_brush_subsystem = 0x00080

abbrev pub side_brush_subsystem : ℕ
side_brush_subsystem = 0x00100

abbrev pub fan_subsystem : ℕ
fan_subsystem = 0x00200

abbrev pub wheel_odometry_subsystem : ℕ
wheel_odometry_subsystem = 0x00400

abbrev pub ap_envelope_message : ℕ
ap_envelope_message = 0xd0

abbrev pub ap_envelope_command : ℕ
ap_envelope_command = 0x02

-- The targets on the wire: f32 with `to_le_bytes`, four bytes, and `is_finite`, true of zero.
pub record WireVelocity : Type 1 where
  pub velocity : Velocity
  pub to_le_bytes : velocity.Carrier → List ℕ
  pub is_finite : velocity.Carrier → Bool
  pub four_bytes : (a : velocity.Carrier) → length (to_le_bytes a) ≡ 4
  pub zero_finite : is_finite velocity.zero ≡ true

pub data CommandError : Type 0 where
  zero_sequence : CommandError
  data_too_long : CommandError
  invalid_selector : CommandError
  not_finite : CommandError
  encoding : EncodeError → CommandError

-- The result of an encoder.
pub data Encoded : Type 0 where
  encoded : List ℕ → Encoded
  refused : CommandError → Encoded

unfoldable pub next_tx_sequence : ℕ → ℕ
next_tx_sequence previous = if previous == 255 then 1 else previous + 1

abbrev pub u8_from : Bool → ℕ
u8_from true = 1
u8_from false = 0

abbrev pub from_result : Result (List ℕ) → Encoded
from_result (ok bytes) = encoded bytes
from_result (err e) = refused (encoding e)

-- The payload of a command.
abbrev pub envelope : ℕ → ℕ → Bool → List ℕ → List ℕ
envelope sequence command request_ack body =
    ap_envelope_message
    ∷ ap_envelope_command
    ∷ u8_from request_ack
    ∷ sequence
    ∷ command
    ∷ length body
    ∷ body

unfoldable pub command_frame : ℕ → ℕ → Bool → List ℕ → Encoded
command_frame sequence command request_ack body =
    if sequence == 0
    then refused zero_sequence
    else if ltb 255 (length body)
    then refused data_too_long
    else from_result (encode_binary_frame (envelope sequence command request_ack body))

unfoldable pub query_frame : ℕ → ℕ → Bool → Encoded
unfolding command_frame
query_frame sequence command request_ack = command_frame sequence command request_ack []

unfoldable pub mcu_version_query_frame : ℕ → Encoded
unfolding query_frame
mcu_version_query_frame sequence = query_frame sequence query_mcu_version false

unfoldable pub device_info_query_frame : ℕ → Encoded
unfolding query_frame
device_info_query_frame sequence = query_frame sequence query_device_info false

unfoldable pub battery_capacity_query_frame : ℕ → Encoded
unfolding query_frame
battery_capacity_query_frame sequence = query_frame sequence query_battery_capacity false

unfoldable pub current_errors_query_frame : ℕ → Encoded
unfolding query_frame
current_errors_query_frame sequence = query_frame sequence query_current_errors true

unfoldable pub sensor_sync_query_frame : ℕ → Encoded
unfolding query_frame
sensor_sync_query_frame sequence = query_frame sequence sync_sensor_status true

unfoldable pub water_pump_command_frame : ℕ → ℕ → ℕ → Encoded
unfolding command_frame
water_pump_command_frame sequence on_interval off_interval =
    command_frame sequence water_pump_command false (on_interval ∷ off_interval ∷ [])

-- The text `sys_md`, a NUL and the mode.
unfoldable pub system_mode_command_frame : ℕ → ℕ → Encoded
unfolding command_frame
system_mode_command_frame sequence mode =
    command_frame sequence system_mode_command false
      (0x73 ∷ 0x79 ∷ 0x73 ∷ 0x5f ∷ 0x6d ∷ 0x64 ∷ 0 ∷ mode ∷ [])

abbrev pub u32_le_bytes : ℕ → List ℕ
u32_le_bytes n = n % 256 ∷ n / 256 % 256 ∷ n / 2 ^ 16 % 256 ∷ n / 2 ^ 24 % 256 ∷ []

-- `is_power_of_two` of numbers below 2 ^ fuel.
unfoldable pub power_of_two : ℕ → ℕ → Bool
power_of_two zero n = false
power_of_two (suc fuel) n =
    let half = power_of_two fuel (n / 2) in
    if n == 1 then true else if n % 2 == 0 then half else false

-- The state is in bit 0, which the selector leaves clear.
unfoldable pub subsystem_state_frame : ℕ → ℕ → Bool → Encoded
unfolding command_frame power_of_two
subsystem_state_frame sequence selector enabled =
    if selector == 0 || not (power_of_two 32 selector) || not (selector % 2 == 0)
    then refused invalid_selector
    else command_frame sequence subsystem_state_command true
        (u32_le_bytes (selector + u8_from enabled))

unfoldable pub charger_command_frame : ℕ → Bool → Encoded
unfolding command_frame
charger_command_frame sequence enabled =
    command_frame sequence charger_command true (u8_from enabled ∷ [])

unfoldable pub fan_command_frame : ℕ → ℕ → Encoded
unfolding command_frame
fan_command_frame sequence target = command_frame sequence fan_command true (target ∷ 0 ∷ [])

unfoldable pub main_brush_command_frame : ℕ → ℕ → Bool → Encoded
unfolding command_frame
main_brush_command_frame sequence target force_start =
    command_frame sequence main_brush_command true (target ∷ u8_from force_start ∷ [])

unfoldable pub side_brush_command_frame : ℕ → ℕ → Bool → Encoded
unfolding command_frame
side_brush_command_frame sequence target compatibility_flag =
    command_frame sequence side_brush_command true (target ∷ u8_from compatibility_flag ∷ [])

unfoldable pub acknowledgement_frame : ℕ → ℕ → Encoded
unfolding command_frame
acknowledgement_frame sequence received_sequence =
    command_frame sequence ack_report false (received_sequence ∷ [])

unfoldable pub heartbeat_frame : ℕ → Encoded
unfolding command_frame
heartbeat_frame sequence = command_frame sequence heartbeat false (0 ∷ 0 ∷ 0 ∷ 0 ∷ [])

module _ (w : WireVelocity) where
  open w use {velocity, to_le_bytes, is_finite}
  open velocity use {Carrier}

  unfoldable pub wheel_command_frame : ℕ → Carrier → Carrier → Bool → Encoded
  unfolding command_frame
  wheel_command_frame sequence linear_target angular_target forced =
      if not (is_finite linear_target) || not (is_finite angular_target)
      then refused not_finite
      else command_frame sequence wheel_command false
          (to_le_bytes linear_target ++ to_le_bytes angular_target ++ u32_le_bytes (u8_from forced))
