-- ===== src/Gd32/Sensors/Tests.antt =====
-- Tests of the status packet of crl200s/gd32/reader.rs.
use vacuum_tiger.Prelude.{ℕ, ◌+◌, ◌%◌, ◌^◌, ◌≡◌, refl, some, [], ◌∷◌, replicate, arith}
use vacuum_tiger.Types.{Floats}
use vacuum_tiger.Gd32.Sensors.{
  AxisTransform3D, apply_axis, SensorGroupData, new, handle_status_packet,
}
use vacuum_tiger.Gd32.Sensors.Reads.{handle_status_packet-Present}

abbrev floats : Floats
floats = record { F32 = ℕ; F64 = ℕ; mul_as_i16 = λ v s. v }

abbrev identity : AxisTransform3D
identity = record { x = (0, 1); y = (1, 1); z = (2, 1) }

abbrev fresh : SensorGroupData floats (λ b. b) (λ b. b)
fresh = new floats (λ b. b) (λ b. b) "sensor_status"

turned : apply_axis (1, 255) (3 ∷ 5 ∷ 7 ∷ []) ≡ some 65531
unfolding apply_axis
turned = refl

handle_status_packet-Present_example :
    (d' : SensorGroupData floats (λ b. b) (λ b. b)) × (handle_status_packet floats
        (λ b. b)
        (λ b. b)
        12
        identity
        identity
        (replicate 96 7)
        fresh
      ≡ some d')
    × (d'.timestamp_us ≡ 12)
    × (d'.sequence_number ≡ (fresh.sequence_number + 1) % 2 ^ 64)
handle_status_packet-Present_example =
    handle_status_packet-Present floats (λ b. b) (λ b. b) 12 identity identity (replicate 96 7)
      fresh (omega arith) (omega arith, omega arith, omega arith)
      (omega arith, omega arith, omega arith)
