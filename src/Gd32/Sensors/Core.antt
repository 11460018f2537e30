-- ===== src/Gd32/Sensors/Core.antt =====
-- reader.rs, `handle_status_packet`, with `SensorGroupData` of core/types.rs and `AxisTransform3D` of
-- config.rs. An index out of range is `none`. A signed number is its bit pattern. The conversions of
-- the battery's byte to f32 volts, and through f32 to a percentage, are parameters.
use mathlib.Core.Option
use text.Mathlib.Text
use Prim.Native.String.{String}
use vacuum_tiger.Prelude.{
  ℕ, ◌+◌, ◌*◌, ◌/◌, ◌%◌, ◌^◌, Bool, not, Option, none, some, List, [], ◌∷◌, get_elem?, ltb, ◌==◌,
  if◌then◌else◌,
}
use vacuum_tiger.Types.{Floats, SensorValue, bool, u8, u16, i16, f32}

abbrev pub status_payload_min_size : ℕ
status_payload_min_size = 80

-- An output axis: the index of its source, and its sign, which are i8.
pub record AxisTransform3D : Type 0 where
  pub x : ℕ × ℕ
  pub y : ℕ × ℕ
  pub z : ℕ × ℕ

-- An i8 as an i16.
abbrev pub i8_to_i16 : ℕ → ℕ
i8_to_i16 v = if ltb v 128 then v else v + 65280

-- The product on i16 wraps, as without overflow checks.
unfoldable pub apply_axis : ℕ × ℕ → List ℕ → Option ℕ
apply_axis (index, sign) input =
    Option.map (λ v. v * i8_to_i16 sign % 2 ^ 16) (get_elem? input index)

abbrev pub and_then : {A B : Type 0} → Option A → (A → Option B) → Option B
and_then none k = none
and_then (some a) k = k a

-- `from_le_bytes` of the two bytes from the offset on.
unfoldable pub word_at : List ℕ → ℕ → Option ℕ
word_at payload offset =
    and_then (get_elem? payload offset)
      (λ low. Option.map (λ high. low + high * 256) (get_elem? payload (offset + 1)))

-- `(payload[offset] & flag) != 0`, of a flag of one bit.
unfoldable pub flag_at : List ℕ → ℕ → ℕ → Option Bool
flag_at payload offset flag = Option.map (λ b. not (b / flag % 2 == 0)) (get_elem? payload offset)

-- The three words of an axis sensor, and an output of the transform.
unfoldable pub axis_at : List ℕ → ℕ → ℕ → ℕ → ℕ × ℕ → Option ℕ
unfolding word_at apply_axis
axis_at payload offset_x offset_y offset_z axis = and_then (word_at payload offset_x) (λ a.
    and_then (word_at payload offset_y)
      (λ b. and_then (word_at payload offset_z) (λ c. apply_axis axis (a ∷ b ∷ c ∷ []))))

module _ (fl : Floats) (volts : ℕ → fl.F32) (level : ℕ → ℕ) where
  abbrev pub Values : Type 0
  Values = List (String × SensorValue fl)

  pub record SensorGroupData : Type 0 where
    pub group_id : String
    pub timestamp_us : ℕ
    pub sequence_number : ℕ
    pub values : Values

  unfoldable pub new : String → SensorGroupData
  new group_id = record { group_id = group_id; timestamp_us = 0; sequence_number = 0; values = [] }

  abbrev pub set_value : String → SensorValue fl → Values → Values
  set_value key value [] = (key, value) ∷ []
  set_value key value (e ∷ es) =
      let later = set_value key value es in
      if Text.◌==◌ (e.0) key then (key, value) ∷ es else e ∷ later

  unfoldable pub set : String → SensorValue fl → SensorGroupData → SensorGroupData
  set key value g = record g { values = set_value key value g.values }

  unfoldable pub touch : ℕ → SensorGroupData → SensorGroupData
  touch now g = record g { timestamp_us = now; sequence_number = (g.sequence_number + 1) % 2 ^ 64 }

  -- What is set, in order: the key, and the value if its bytes are there.
  abbrev pub Reading : Type 0
  Reading = String × Option (SensorValue fl)

  abbrev pub flag : String → ℕ → ℕ → List ℕ → Reading
  flag key offset mask payload = (key, Option.map bool (flag_at payload offset mask))

  abbrev pub word : String → ℕ → List ℕ → Reading
  word key offset payload = (key, Option.map u16 (word_at payload offset))

  abbrev pub signed : String → ℕ → List ℕ → Reading
  signed key offset payload = (key, Option.map i16 (word_at payload offset))

  abbrev pub gyro : String → ℕ × ℕ → List ℕ → Reading
  gyro key axis payload = (key, Option.map i16 (axis_at payload 0x28 0x2c 0x30 axis))

  abbrev pub accel : String → ℕ × ℕ → List ℕ → Reading
  accel key axis payload = (key, Option.map i16 (axis_at payload 0x2a 0x2e 0x32 axis))

  unfoldable pub readings : AxisTransform3D → AxisTransform3D → List ℕ → List Reading
  unfolding flag_at word_at axis_at
  readings g a payload =
      flag "is_charging" 0x07 0x02 payload
      ∷ flag "is_dock_connected" 0x07 0x01 payload
      ∷ ("battery_voltage", Option.map (λ b. f32 (volts b)) (get_elem? payload 0x08))
      ∷ ("battery_level", Option.map (λ b. u8 (level b)) (get_elem? payload 0x08))
      ∷ word "start_button" 0x3a payload
      ∷ word "dock_button" 0x3e payload
      ∷ flag "bumper_left" 0x01 0x04 payload
      ∷ flag "bumper_right" 0x01 0x02 payload
      ∷ word "wheel_left" 0x10 payload
      ∷ word "wheel_right" 0x18 payload
      ∷ flag "cliff_left_side" 0x03 0x01 payload
      ∷ flag "cliff_left_front" 0x03 0x02 payload
      ∷ flag "cliff_right_front" 0x03 0x04 payload
      ∷ flag "cliff_right_side" 0x03 0x08 payload
      ∷ flag "dustbox_attached" 0x04 0x04 payload
      ∷ gyro "gyro_x" g.x payload
      ∷ gyro "gyro_y" g.y payload
      ∷ gyro "gyro_z" g.z payload
      ∷ accel "accel_x" a.x payload
      ∷ accel "accel_y" a.y payload
      ∷ accel "accel_z" a.z payload
      ∷ signed "tilt_x" 0x34 payload
      ∷ signed "tilt_y" 0x36 payload
      ∷ signed "tilt_z" 0x38 payload
      ∷ []

  unfoldable pub set_all : List Reading → SensorGroupData → Option SensorGroupData
  unfolding set
  set_all [] g = some g
  set_all (r ∷ rs) g = and_then (r.1) (λ value. set_all rs (set (r.0) value g))

  -- `none` is a panic; the lock is taken to be held. The result is what is streamed as well.
  unfoldable pub handle_status_packet :
      ℕ → AxisTransform3D → AxisTransform3D → List ℕ → SensorGroupData → Option SensorGroupData
  unfolding readings set_all touch
  handle_status_packet now gyro_transform accel_transform payload g =
      set_all (readings gyro_transform accel_transform payload) (touch now g)
