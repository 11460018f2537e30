-- ===== src/Delta2D/Tests.antt =====
-- Concrete packets, and the theorems at concrete inputs. The numbers stand for f32 in steps of 1/100.
use vacuum_tiger.Prelude.{
  zero, suc, ℕ, ◌+◌, ◌-◌, ◌*◌, ◌/◌, ◌≡◌, refl, Bool, List, [], ◌∷◌, ◌++◌, ltb, leb, arith,
}
use vacuum_tiger.Delta2D.Core.{
  Floats, Delta2DPacketReader, ReadOutcome, bytes_read, failed, read_bytes, scan, nothing, parsed,
  parse_next, packet_result, parse_measurement, validate_header, command_type, clear,
}
use vacuum_tiger.Delta2D.Outcome.{Settles}
use vacuum_tiger.Delta2D.Settles.{parse_next-Settles}
use vacuum_tiger.Delta2D.Whole.{parse_next-packet, parse_next-unknown}
use vacuum_tiger.Delta2D.Driver.{started, iteration}
use vacuum_tiger.Delta2D.Drain.{IterationOf, iteration-IterationOf}

abbrev fl : Floats
fl = record {
  F32 = ℕ;
  from_unsigned = λ n. n * 100;
  add = λ a b. a + b;
  mul = λ a b. a * b / 100;
  div = λ a b. a * 100 / b;
  less = ltb;
  at_most = leb;
  hundredth = 1;
  metres_per_unit = 1;
  to_radians = λ a. a;
  apply = λ a. a;
  normalized = λ a. a;
  sub = λ a b. a - b;
  zero_angle = 0;
  pi = 180;
  angle_offset = 0;
  mounted = λ a. a;
}

-- A measurement with two samples, the second without a return.
abbrev measured : List ℕ
measured =
    0xaa ∷ 0 ∷ 21 ∷ 1 ∷ 0x61 ∷ 0xad ∷ 0 ∷ 11 ∷ 9 ∷ 0 ∷ 100 ∷ 0 ∷ 200 ∷ 5 ∷ 1 ∷ 0 ∷ 7 ∷ 0 ∷ 0 ∷ []

-- A packet of a type that the reader does not know.
abbrev other : List ℕ
other = 0xaa ∷ 0 ∷ 10 ∷ 1 ∷ 0x61 ∷ 0x10 ∷ 0 ∷ 0 ∷ []

abbrev fresh : Delta2DPacketReader
fresh = record { buffer = []; bytes_discarded = 0; crc_failures = 0 }

abbrev with_noise : Delta2DPacketReader
with_noise = record fresh { buffer = 1 ∷ 0xaa ∷ 2 ∷ 3 ∷ 99 ∷ (measured ++ (0 ∷ 0 ∷ [])) }

parse_next-Settles_example : Settles fl with_noise (parse_next fl with_noise)
parse_next-Settles_example = parse_next-Settles fl with_noise (omega arith)

parse_next-packet_example :
    parse_next fl (record fresh { buffer = measured ++ (1 ∷ 2 ∷ other) })
    ≡ parsed (packet_result fl measured) (record fresh { buffer = other })
unfolding validate_header
parse_next-packet_example =
    parse_next-packet fl fresh measured 1 2 other (omega arith) (refl, refl, omega arith) refl
      (omega arith)

parse_next-unknown_example :
    parse_next fl (record fresh { buffer = other ++ (1 ∷ 2 ∷ (measured ++ (1 ∷ 2 ∷ []))) })
    ≡ parsed nothing (record fresh { buffer = measured ++ (1 ∷ 2 ∷ []) })
unfolding validate_header command_type
parse_next-unknown_example =
    parse_next-unknown fl fresh other 1 2 (measured ++ (1 ∷ 2 ∷ [])) (omega arith)
      (refl, refl, omega arith) refl (omega arith) refl

measured_points :
    packet_result fl measured ≡ scan (record { angle = 200; distance = 256; quality = 5 } ∷ [])
unfolding packet_result parse_measurement
measured_points = refl

abbrev late : ℕ → ℕ → Bool
late last now = ltb 2000 (now - last)

-- A port that gives a packet, and then fails.
abbrev port : ℕ → ReadOutcome
port zero = bytes_read (measured ++ (1 ∷ 2 ∷ []))
port (suc k) = failed

iteration-IterationOf_example :
    IterationOf fl late
      (started fl late 0)
      (read_bytes 3 port fresh)
      (iteration fl late 3 port (λ k. k) 9 (started fl late 0))
unfolding clear
iteration-IterationOf_example =
    iteration-IterationOf fl late 3 port 0 (λ k. k) 9 (started fl late 0) (omega arith)
      (omega arith) (omega arith)
