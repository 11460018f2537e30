-- ===== src/S5Max/Reports/Fields.antt =====
-- packet.rs: the other decoders of reports, and the periodic state. An f32 and a signed integer are
-- their bit patterns.
use vacuum_tiger.Prelude.{
  ℕ, zero, suc, ◌+◌, ◌*◌, ◌/◌, ◌%◌, ◌^◌, Bool, not, ◌||◌, Option, none, some, List, [], ◌∷◌, length,
  take, position, ltb, ◌==◌, if◌then◌else◌,
}
use mathlib.Core.Option
use vacuum_tiger.S5Max.Decoder.{Frame}
use vacuum_tiger.S5Max.Reports.Ids.{
  black_box_report_message, black_box_report_length, device_info_report_message,
  device_info_report_length, dock_voltage_report_message, dock_voltage_report_length,
  battery_capacity_report_message, battery_capacity_report_length, mcu_time_report_message,
  mcu_time_report_length, calibration_report_message, calibration_report_length,
  mcu_identity_report_message, mcu_identity_report_length, status_string_report_message,
  dock_ir_report_message, dock_ir_report_length, report_footer_message, report_footer_length,
  state_base_length,
}
use vacuum_tiger.S5Max.Reports.Wire.{
  EmbeddedReport, embedded_report, report, is_state_report, cut, number, at,
}

pub record BlackBoxReport : Type 0 where
  pub selector : ℕ
  pub reserved : List ℕ
  pub value : ℕ

unfoldable pub black_box_report : Frame → Option BlackBoxReport
black_box_report f =
    Option.map
      (λ bytes. record {
        selector = at 0 bytes;
        reserved = cut 1 4 bytes;
        value = number 4 8 bytes;
      })
      (embedded_report black_box_report_message black_box_report_length f)

-- `DeviceInfoReport`, as its bytes.
unfoldable pub device_info_report : Frame → Option (List ℕ)
device_info_report f = embedded_report device_info_report_message device_info_report_length f

unfoldable pub record_type : List ℕ → ℕ
record_type bytes = at 0 bytes

unfoldable pub separately_published_value : List ℕ → ℕ
separately_published_value bytes = at 4 bytes

unfoldable pub subtype_event_value : List ℕ → ℕ
subtype_event_value bytes = at 5 bytes

-- `DockVoltageReport`, as its field `millivolts`.
unfoldable pub dock_voltage_report : Frame → Option ℕ
dock_voltage_report f =
    Option.map (number 0 2)
      (embedded_report dock_voltage_report_message dock_voltage_report_length f)

pub record BatteryCapacityReport : Type 0 where
  pub raw_units_of_100 : ℕ
  pub ignored_by_stock_linux : ℕ

unfoldable pub battery_capacity_report : Frame → Option BatteryCapacityReport
battery_capacity_report f =
    Option.map
      (λ bytes. record { raw_units_of_100 = at 0 bytes; ignored_by_stock_linux = at 1 bytes })
      (embedded_report battery_capacity_report_message battery_capacity_report_length f)

-- A byte times 100 fits the u16.
unfoldable pub stock_scaled_value : BatteryCapacityReport → ℕ
stock_scaled_value r = r.raw_units_of_100 * 100 % 2 ^ 16

-- `McuTimeReport`, as its field `timestamp`.
unfoldable pub mcu_time_report : Frame → Option ℕ
mcu_time_report f =
    Option.map (number 0 8) (embedded_report mcu_time_report_message mcu_time_report_length f)

pub record CalibrationReport : Type 0 where
  pub cliff_thresholds : List ℕ
  pub wall_sensor_one_point : List ℕ
  pub bmi160_sensitivity : ℕ
  pub bmi160_accel_offsets : List ℕ

unfoldable pub calibration_report : Frame → Option CalibrationReport
calibration_report f =
    Option.map
      (λ bytes. record {
        cliff_thresholds =
            number 0 2 bytes ∷ number 2 4 bytes ∷ number 4 6 bytes ∷ number 6 8 bytes ∷ [];
        wall_sensor_one_point = cut 8 12 bytes;
        bmi160_sensitivity = number 12 16 bytes;
        bmi160_accel_offsets = number 16 20 bytes ∷ number 20 24 bytes ∷ number 24 28 bytes ∷ [];
      })
      (embedded_report calibration_report_message calibration_report_length f)

pub record McuIdentityReport : Type 0 where
  pub jtag_device_id : ℕ
  pub flash_size_register : ℕ
  pub chip_signature : ℕ
  pub reserved : ℕ

unfoldable pub mcu_identity_report : Frame → Option McuIdentityReport
mcu_identity_report f =
    Option.map
      (λ bytes. record {
        jtag_device_id = number 0 4 bytes;
        flash_size_register = number 4 8 bytes;
        chip_signature = number 8 12 bytes;
        reserved = number 12 16 bytes;
      })
      (embedded_report mcu_identity_report_message mcu_identity_report_length f)

-- The bytes before the first NUL.
abbrev pub up_to_nul : Option EmbeddedReport → Option (List ℕ)
up_to_nul none = none
up_to_nul (some r) = Option.map (λ nul. take nul r.bytes) (position (λ b. b == 0) r.bytes)

unfoldable pub status_string_report : Frame → Option (List ℕ)
status_string_report f = up_to_nul (report status_string_report_message f)

-- A `DockIrCodeMask` is its byte.
pub record DockIrReport : Type 0 where
  pub left_receiver : ℕ
  pub right_receiver : ℕ
  pub reserved_byte_1 : ℕ
  pub reserved_byte_3 : ℕ

unfoldable pub dock_ir_report : Frame → Option DockIrReport
dock_ir_report f =
    Option.map
      (λ bytes. record {
        left_receiver = at 0 bytes;
        right_receiver = at 2 bytes;
        reserved_byte_1 = at 1 bytes;
        reserved_byte_3 = at 3 bytes;
      })
      (embedded_report dock_ir_report_message dock_ir_report_length f)

unfoldable pub beacon_left : ℕ → Bool
beacon_left mask = not (mask % 2 == 0)

unfoldable pub beacon_right : ℕ → Bool
beacon_right mask = not (mask / 2 % 2 == 0)

unfoldable pub code_84 : ℕ → Bool
code_84 mask = not (mask / 4 % 2 == 0)

unfoldable pub code_88 : ℕ → Bool
code_88 mask = not (mask / 8 % 2 == 0)

unfoldable pub majority_pattern : ℕ → Bool
majority_pattern mask = not (mask / 16 % 2 == 0)

pub record ReportFooter : Type 0 where
  pub reports_pending : Bool
  pub sequence : ℕ

unfoldable pub report_footer : Frame → Option ReportFooter
report_footer f =
    Option.map (λ bytes. record { reports_pending = not (at 0 bytes == 0); sequence = at 1 bytes })
      (embedded_report report_footer_message report_footer_length f)

pub record ImuState : Type 0 where
  pub acceleration : List ℕ
  pub angular_rate : List ℕ
  pub quaternion : List ℕ

-- The numbers of four bytes from the offset on.
abbrev pub words : ℕ → ℕ → List ℕ → List ℕ
words zero offset payload = []
words (suc count) offset payload =
    number offset (offset + 4) payload ∷ words count (offset + 4) payload

unfoldable pub imu_state : Frame → Option ImuState
imu_state f =
    if not (is_state_report f) || ltb (length f.payload) 42
    then none
    else some (record {
      acceleration = words 3 2 f.payload;
      angular_rate = words 3 14 f.payload;
      quaternion = words 4 26 f.payload;
    })

pub record StateReport : Type 0 where
  pub imu : ImuState
  pub left_odometry_ticks : ℕ
  pub right_odometry_ticks : ℕ
  pub forward_motion : ℕ
  pub reserved : ℕ
  pub mcu_timestamp_ms : ℕ

unfoldable pub state_report : Frame → Option StateReport
unfolding imu_state
state_report f =
    if not (is_state_report f) || ltb (length f.payload) state_base_length
    then none
    else Option.map
        (λ imu. record {
          imu = imu;
          left_odometry_ticks = number 42 46 f.payload;
          right_odometry_ticks = number 46 50 f.payload;
          forward_motion = number 50 54 f.payload;
          reserved = number 54 58 f.payload;
          mcu_timestamp_ms = number 58 66 f.payload;
        })
        (imu_state f)
