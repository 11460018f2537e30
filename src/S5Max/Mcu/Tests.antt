-- ===== src/S5Max/Mcu/Tests.antt =====
-- Concrete commands, and the theorems at concrete inputs. The numbers stand for f32.
use vacuum_tiger.Prelude.{ℕ, ◌≤◌, ◌≡◌, refl, true, false, List, [], ◌∷◌, ◌==◌, arith}
use vacuum_tiger.S5Max.Lifecycle
use vacuum_tiger.S5Max.Safety
use vacuum_tiger.S5Max.Safety.{Velocity}
use vacuum_tiger.S5Max.Decoder.{Frame, pushed}
use vacuum_tiger.S5Max.Decoder.Chunks.{push_all}
use vacuum_tiger.S5Max.Commands.{WireVelocity, encoded, command_frame, envelope, fan_command}
use vacuum_tiger.S5Max.Commands.Sent.{command_frame-Sent}
use vacuum_tiger.S5Max.Mcu.Acks.{CommandAckTracker, expect}
use vacuum_tiger.S5Max.Mcu.Core.{McuSafetyGuard, fan, emit_stop_set, execute}
use vacuum_tiger.S5Max.Mcu.Retries.{tick, acked, run, count, expect-two_retries}
use vacuum_tiger.S5Max.Mcu.Stop.{EndsStopped, emit_stop_set-Stopped}
use vacuum_tiger.S5Max.Mcu.Obeys.{Obeys, execute-Obeys}

abbrev whole : Velocity
whole = record { Carrier = ℕ; zero = 0; is_zero = λ n. n == 0; is_zero_zero = refl }

abbrev wired : WireVelocity
wired = record {
  velocity = whole;
  to_le_bytes = λ n. n ∷ 0 ∷ 0 ∷ 0 ∷ [];
  is_finite = λ n. true;
  four_bytes = λ n. refl;
  zero_finite = refl;
}

abbrev no_acks : CommandAckTracker
no_acks = record { states = []; poisoned = false }

-- The guard at sequence number 254, with a port whose second write fails.
abbrev shaky : McuSafetyGuard wired
shaky = record {
  tty = record { written = []; fails = false ∷ true ∷ [] };
  next_sequence = 254;
  drive_active = true;
  safety = Safety.new whole Lifecycle.new;
  command_acks = no_acks;
  armed = true;
}

abbrev steady : McuSafetyGuard wired
steady = record shaky { tty = record { written = []; fails = [] } }

emit_stop_set-Stopped_example : EndsStopped wired shaky (emit_stop_set wired shaky)
emit_stop_set-Stopped_example = emit_stop_set-Stopped wired shaky (omega arith, omega arith)

execute-Obeys_example : Obeys wired (fan 60) steady (execute wired 7 (fan 60) steady)
execute-Obeys_example =
    execute-Obeys wired 7 (fan 60) steady tt
      (refl, refl, unfold Safety.new in refl, omega arith, omega arith)

command_frame-Sent_example :
    (w : List ℕ) × (f : Frame) × (command_frame 0xa9 fan_command true (60 ∷ 0 ∷ []) ≡ encoded w)
    × (push_all [] (w ∷ []) ≡ pushed (f ∷ []) [])
    × (f.payload ≡ envelope 0xa9 fan_command true (60 ∷ 0 ∷ []))
    × (f.crc_valid ≡ true)
command_frame-Sent_example =
    command_frame-Sent 0xa9 fan_command true (60 ∷ 0 ∷ []) (λ e. omega arith) (omega arith)

expect-two_retries_example :
    count 9 (
      run
        (tick 23000000 ∷ tick 99000000 ∷ acked 9 ∷ tick 999000000 ∷ [])
        ((expect 9 (1 ∷ 2 ∷ []) 0 no_acks).0))
    ≤ 2
expect-two_retries_example =
    expect-two_retries 9 (1 ∷ 2 ∷ []) 0 no_acks
      (tick 23000000 ∷ tick 99000000 ∷ acked 9 ∷ tick 999000000 ∷ []) refl refl
