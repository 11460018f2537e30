-- ===== src/RevoLds/Tests.antt =====
-- A packet, and the theorems at concrete inputs.
use vacuum_tiger.Prelude.{
  ℕ, ◌≡◌, refl, List, [], ◌∷◌, ◌+◌, ◌*◌, ◌<◌, ◌&&◌, Bool, true, false, All, Bool-cases, inl, inr,
  ltb, ltb→lt, arith,
}
use vacuum_tiger.RevoLds.Core.{
  Optics, RevoLdsPacketReader, points, calculate_checksum, sample_points, parse_measurement_packet,
  parse_next,
}
use vacuum_tiger.RevoLds.Agreement.{
  readings, calculate_checksum-packet_checksum, parse_measurement_packet-parse,
}
use vacuum_tiger.RevoLds.Outcome.{Returns}
use vacuum_tiger.RevoLds.Returns.{parse_next-Returns}
use vacuum_tiger.S5Max.Lds.Packet.{
  LdsPacket, packet_checksum, parse, sample_at, start_angle_degrees,
}

-- The raw readings, without a conversion to f32.
abbrev raw : Optics
raw = record {
  Point = ℕ × ℕ × ℕ;
  Rpm = ℕ;
  rpm = λ speed. speed;
  point = λ angle distance strength. (angle, distance, strength);
}

-- The second sample is flagged invalid, the third is at distance 0.
abbrev packet : List ℕ
packet =
    250 ∷ 161 ∷ 64 ∷ 75 ∷ 16 ∷ 2 ∷ 32 ∷ 1 ∷ 0 ∷ 128 ∷ 0 ∷ 0 ∷ 0 ∷ 0 ∷ 5 ∷ 0 ∷ 52 ∷ 65 ∷ 7 ∷ 0 ∷ 197
    ∷ 9 ∷ []

abbrev parsed_packet : LdsPacket
parsed_packet = record {
  index = 161;
  speed_raw = 0x4b40;
  samples =
      sample_at packet 4 ∷ sample_at packet 8 ∷ sample_at packet 12 ∷ sample_at packet 16 ∷ [];
  checksum = 197 + 9 * 256;
}

abbrev all_small : List ℕ → Bool
all_small [] = true
all_small (b ∷ bytes) = ltb b 256 && all_small bytes

all_small-All : (bytes : List ℕ) → all_small bytes ≡ true → All (λ b. b < 256) bytes
all_small-All [] e = tt
all_small-All (b ∷ bytes) e = elim (Bool-cases (ltb b 256)) [
  | inl y ↦ (ltb→lt b 256 y, all_small-All bytes (let z = rw y at e in z))
  | inr n ↦ let z : false ≡ true = rw n at e in cc
]

packet_points :
    parse_measurement_packet raw packet ≡ points ((4, 528, 288) ∷ (7, 308, 7) ∷ []) 0x4b40
unfolding parse_measurement_packet sample_points
packet_points = refl

calculate_checksum-packet_checksum_example : calculate_checksum packet ≡ packet_checksum packet
calculate_checksum-packet_checksum_example = calculate_checksum-packet_checksum packet (omega arith)

parse_measurement_packet-parse_example :
    parse_measurement_packet raw packet
    ≡ points (readings raw (start_angle_degrees parsed_packet) 0 parsed_packet.samples) 0x4b40
unfolding parse
parse_measurement_packet-parse_example =
    parse_measurement_packet-parse raw packet parsed_packet (all_small-All packet refl) refl

-- A stray sync byte stands before the packet.
abbrev stray : RevoLdsPacketReader
stray = record { buffer = 7 ∷ 250 ∷ packet; bytes_discarded = 3; checksum_failures = 0 }

parse_next-Returns_example : Returns raw stray (parse_next raw stray)
parse_next-Returns_example = parse_next-Returns raw stray (omega arith)
