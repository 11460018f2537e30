-- ===== src/S5Max/Tests.antt =====
-- Concrete frames and calls, and the theorems at concrete inputs.
use vacuum_tiger.Prelude.{
  Option, ℕ, ◌≡◌, ◌↔◌, ◌+◌, ◌-◌, ◌≤◌, refl, true, false, none, some, List, [], ◌∷◌, arith, map, All,
  ◌==◌, leb, if◌then◌else◌,
}
use vacuum_tiger.S5Max.Crc.{crc8}
use vacuum_tiger.S5Max.Frame.{
  ok, err, overhead_overflow, payload_too_large, encode_binary_frame, escape_loop, sync,
}
use vacuum_tiger.S5Max.Frame.Laws.{body, escape, expansions, encode_binary_frame_lem}
use vacuum_tiger.S5Max.Decoder.{Frame, pushed, push}
use vacuum_tiger.S5Max.Decoder.Chunks.{Returns, push-Returns, push_all, push_all-concat}
use vacuum_tiger.S5Max.Decoder.RoundTrip.{encode_all, push_all-encode_all}
use vacuum_tiger.S5Max.Lifecycle
use vacuum_tiger.S5Max.Lifecycle.{
  Lifecycle, fault, operational, read_only_ready, synchronizing, transition_between, enter_fault,
  mark_safety_report,
}
use vacuum_tiger.S5Max.Lifecycle.Laws
use vacuum_tiger.S5Max.Lifecycle.Laws.{
  begin, ready, operate, stop, fail, report, ◌⟶◌, apply-⟶, run-fault, Inv, run-Inv, transition_race,
}
use vacuum_tiger.S5Max.Lds.Packet.{LdsPacket, LdsSample}
use vacuum_tiger.S5Max.Lds.Revolution.{LdsRevolution, RevolutionBuilder, finish_current}
use vacuum_tiger.S5Max.Lds.Seen.{IsRevolution, Completes, assemble, assemble-IsRevolution}
use vacuum_tiger.S5Max.Lds.Stream
use vacuum_tiger.S5Max.Lds.Stream.{LdsDecoder}
use vacuum_tiger.S5Max.Lds.Account.{Accounted, push-Accounted}
use vacuum_tiger.S5Max.Safety
use vacuum_tiger.S5Max.Safety.{Velocity, SafetyController}
use vacuum_tiger.S5Max.Safety.Laws as Laws'
use vacuum_tiger.S5Max.Safety.Laws.{
  arm, fan, poll, Stands, deadman, nonzero_allowed_iff, take_expired_drive_lease_early,
}

-- frame.rs, `escapes_reserved_payload_bytes`.
reserved_bytes :
    encode_binary_frame (0xa9 ∷ 0xaa ∷ [])
    ≡ ok (0xaa ∷ 0x02 ∷ 0x03 ∷ 0xa9 ∷ 0x00 ∷ 0xa9 ∷ 0x01 ∷ 0x8d ∷ [])
unfolding encode_binary_frame escape_loop crc8
reserved_bytes = refl

encode_binary_frame_lem_example : encode_binary_frame (7 ∷ []) ≡ (
    if leb 1 255
    then if leb (expansions (body (7 ∷ []))) 254
      then ok (sync ∷ 1 ∷ (expansions (body (7 ∷ [])) + 1) ∷ escape (body (7 ∷ [])))
      else err overhead_overflow
    else err (payload_too_large 1))
encode_binary_frame_lem_example = encode_binary_frame_lem (7 ∷ [])

push-Returns_example : Returns (1 + 4) (push (0xaa ∷ []) (3 ∷ 1 ∷ 0xa9 ∷ 7 ∷ []))
push-Returns_example = push-Returns (0xaa ∷ []) (3 ∷ 1 ∷ 0xa9 ∷ 7 ∷ [])

push_all-concat_example :
    push_all [] ((0xaa ∷ 3 ∷ []) ∷ (1 ∷ 0xa9 ∷ []) ∷ (0 ∷ []) ∷ [])
    ≡ push [] (0xaa ∷ 3 ∷ 1 ∷ 0xa9 ∷ 0 ∷ [])
push_all-concat_example = push_all-concat [] (0xaa ∷ 3 ∷ []) ((1 ∷ 0xa9 ∷ []) ∷ (0 ∷ []) ∷ [])

-- A payload with a reserved byte, in two chunks that cut its escape code.
push_all-encode_all_example :
    (frames : List Frame) × (push_all []
        ((0xaa ∷ 3 ∷ 2 ∷ 0xa9 ∷ []) ∷ (1 ∷ 2 ∷ 3 ∷ crc8 (0xaa ∷ 2 ∷ 3 ∷ []) 0 ∷ []) ∷ [])
      ≡ pushed frames [])
    × (map (λ f. f.payload) frames ≡ (0xaa ∷ 2 ∷ 3 ∷ []) ∷ [])
    × All (λ f. f.crc_valid ≡ true) frames
unfolding encode_all encode_binary_frame escape_loop crc8
push_all-encode_all_example =
    push_all-encode_all ((0xaa ∷ 2 ∷ 3 ∷ []) ∷ []) (0xaa ∷ 3 ∷ 2 ∷ 0xa9 ∷ [])
      ((1 ∷ 2 ∷ 3 ∷ crc8 (0xaa ∷ 2 ∷ 3 ∷ []) 0 ∷ []) ∷ []) (omega arith) refl

abbrev ready_lifecycle : Lifecycle
ready_lifecycle = Laws.run (begin ∷ ready ∷ []) Lifecycle.new

apply-⟶_example : read_only_ready ⟶ operational
unfolding Lifecycle.new Laws.run Laws.apply Lifecycle.begin_synchronizing
    Lifecycle.mark_read_only_ready Lifecycle.mark_operational
apply-⟶_example = apply-⟶ operate ready_lifecycle

run-fault_example :
    (Laws.run (begin ∷ ready ∷ operate ∷ []) (enter_fault "uart" Lifecycle.new)).state ≡ fault
unfolding Lifecycle.new enter_fault
run-fault_example = run-fault (begin ∷ ready ∷ operate ∷ []) (enter_fault "uart" Lifecycle.new) refl

run-Inv_example : Inv (Laws.run (begin ∷ ready ∷ fail "uart" ∷ stop ∷ []) Lifecycle.new)
run-Inv_example = run-Inv (begin ∷ ready ∷ fail "uart" ∷ stop ∷ [])

transition_race_example :
    ((transition_between
        (λ l. Laws.run (fail "uart" ∷ []) l)
        read_only_ready
        operational
        ready_lifecycle).0.state
      ≡ operational)
    × ((transition_between
          (λ l. Laws.run (fail "uart" ∷ []) l)
          read_only_ready
          operational
          ready_lifecycle).1
        ≡ none)
unfolding Lifecycle.new Laws.run Laws.apply Lifecycle.begin_synchronizing
    Lifecycle.mark_read_only_ready Lifecycle.current
transition_race_example =
    transition_race (fail "uart" ∷ []) read_only_ready operational ready_lifecycle refl refl

-- Whole numbers of millimetres a second serve as velocities.
abbrev millimetres : Velocity
millimetres = record { Carrier = ℕ; zero = 0; is_zero = λ n. n == 0; is_zero_zero = refl }

deadman_example :
    let c =
      (Safety.take_expired_drive_lease millimetres 251_000_000 (
        Laws'.run millimetres
          (arm 100 5 1_000_000 ∷ fan 80 ∷ poll 2_000_000 ∷ [])
          (Safety.new millimetres Lifecycle.new))).0 in
    Stands millimetres c × (c.drive_lease_deadline ≡ none)
deadman_example =
    deadman millimetres 1_000_000 251_000_000 (arm 100 5 1_000_000 ∷ fan 80 ∷ poll 2_000_000 ∷ [])
      Lifecycle.new (omega arith) (omega arith)

take_expired_drive_lease_early_example :
    let c' =
      (Safety.arm_drive_lease millimetres 100 5 0 (Safety.new millimetres Lifecycle.new)).0 in
    Safety.take_expired_drive_lease millimetres 1_000 c' ≡ (c', false)
unfolding Safety.new
take_expired_drive_lease_early_example =
    take_expired_drive_lease_early millimetres 100 5 0 1_000 (Safety.new millimetres Lifecycle.new)
      refl (omega arith)

abbrev reporting : SafetyController millimetres
reporting =
    Safety.new millimetres (Laws.run (begin ∷ ready ∷ operate ∷ report 5_000 ∷ []) Lifecycle.new)

nonzero_allowed_iff_example : (Safety.nonzero_allowed millimetres true 6_000 reporting ≡ none) ↔ (
    (true ≡ true)
    × (reporting.lifecycle.poisoned ≡ false)
    × (reporting.lifecycle.state ≡ operational)
    × ((last : ℕ) × (reporting.lifecycle.last_safety_report ≡ some last)
        × (6_000 - last ≤ Lifecycle.safety_report_timeout)))
nonzero_allowed_iff_example = nonzero_allowed_iff millimetres true 6_000 reporting

-- A packet of the sensor behind two stray bytes, in one call.
abbrev lds_bytes : List ℕ
lds_bytes =
    9 ∷ 250 ∷ 250 ∷ 161 ∷ 64 ∷ 75 ∷ 16 ∷ 2 ∷ 32 ∷ 1 ∷ 0 ∷ 128 ∷ 0 ∷ 0 ∷ 0 ∷ 0 ∷ 5 ∷ 0 ∷ 52 ∷ 65 ∷ 7
    ∷ 0 ∷ 197 ∷ 9 ∷ []

abbrev lds_decoder : LdsDecoder
lds_decoder = record { buffer = []; discarded = 5 }

push-Accounted_example :
    Accounted (record { buffer = lds_bytes; discarded = 5 }) (Stream.push lds_decoder lds_bytes)
push-Accounted_example = push-Accounted lds_decoder lds_bytes

-- Two packets, the second with the lower index: it completes the revolution that the first began.
abbrev sample : LdsSample
sample = record { distance_raw = 528; signal_strength = 9 }

abbrev packet_at : ℕ → LdsPacket
packet_at index = record {
  index = index;
  speed_raw = 0x4b00;
  samples = sample ∷ sample ∷ sample ∷ sample ∷ [];
  checksum = 0;
}

assemble-IsRevolution_example :
    (rs : List LdsRevolution) × (c : Option RevolutionBuilder) × (assemble
        (packet_at 0xa1 ∷ packet_at 0xa0 ∷ [])
        none
      ≡ some (rs, c))
    × All IsRevolution rs
    × Completes (finish_current c)
assemble-IsRevolution_example =
    assemble-IsRevolution (packet_at 0xa1 ∷ packet_at 0xa0 ∷ [])
      ((omega arith, omega arith, refl), ((omega arith, omega arith, refl), tt))
