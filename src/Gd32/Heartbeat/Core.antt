-- ===== src/Gd32/Heartbeat/Core.antt =====
-- heartbeat.rs: one round of `heartbeat_loop`, between two checks of the shutdown flag.
use vacuum_tiger.Prelude.{
  ℕ, ◌+◌, ◌/◌, Bool, true, false, not, ◌&&◌, List, [], ◌∷◌, ◌++◌, ltb, leb, if◌then◌else◌,
}
use vacuum_tiger.Gd32.Packet
use vacuum_tiger.Gd32.Packet.{TxPacket, as_bytes}
use vacuum_tiger.Gd32.State
use vacuum_tiger.Gd32.State.{ComponentState}

abbrev pub mode_switch_delay_ms : ℕ
mode_switch_delay_ms = 100

abbrev pub stm32_request_interval_ms : ℕ
stm32_request_interval_ms = 1500

-- What the thread keeps from round to round: the packet that it uses again, and the counter.
pub record Thread : Type 0 where
  pub pkt : TxPacket
  pub stm32_request_counter : ℕ

abbrev pub start : Thread
start = record { pkt = Packet.new; stm32_request_counter = 0 }

-- `if on { set(pkt); pkt.send_to(port) }`, behind what the round has written: the log of the packets
-- handed to the port, and the packet in use. An error of the port changes neither.
unfoldable pub send_if :
    Bool → (TxPacket → TxPacket) → List (List ℕ) × TxPacket → List (List ℕ) × TxPacket
send_if on set (written, pkt) =
    if on then (written ++ (as_bytes (set pkt) ∷ []), set pkt) else (written, pkt)

module _ (F32 : Type 0) where
  -- The packets that a round hands to the port, in order; how long it sleeps; and what it leaves.
  pub record Round : Type 0 where
    pub written : List (List ℕ)
    pub sleep_ms : ℕ
    pub state : ComponentState F32
    pub thread : Thread

  -- The commands of navigation mode.
  unfoldable pub send_components : ComponentState F32 → TxPacket → List (List ℕ) × TxPacket
  send_components s pkt =
      send_if s.lidar_enabled (Packet.set_lidar_pwm (State.get_lidar_pwm F32 s)) (
        send_if (ltb 0 s.water_pump) (Packet.set_water_pump s.water_pump) (
          send_if (ltb 0 s.side_brush) (Packet.set_side_brush s.side_brush) (
            send_if (ltb 0 s.main_brush) (Packet.set_main_brush s.main_brush) (
              send_if (ltb 0 s.vacuum) (Packet.set_air_pump s.vacuum) (
                send_if true (Packet.set_velocity s.linear_velocity s.angular_velocity)
                  (as_bytes Packet.motor_mode_nav_packet ∷ [], pkt))))))

  -- The part of a round behind the mode switch.
  unfoldable pub send_commands : ComponentState F32 → TxPacket → List (List ℕ) × TxPacket
  send_commands s pkt =
      if s.motor_mode_set
      then send_components s pkt
      else (as_bytes Packet.heartbeat_packet ∷ [], pkt)

  -- The request to the STM32, and the end of the round.
  unfoldable pub finish_round : ℕ → ComponentState F32 → ℕ → List (List ℕ) × TxPacket → Round
  finish_round interval_ms s stm32_request_counter (written, pkt) =
      let counter = stm32_request_counter + 1 in
      if leb (stm32_request_interval_ms / interval_ms) counter
      then record {
        written = written ++ (as_bytes Packet.request_stm32_packet ∷ []);
        sleep_ms = interval_ms;
        state = s;
        thread = record { pkt = pkt; stm32_request_counter = 0 };
      }
      else record {
        written = written;
        sleep_ms = interval_ms;
        state = s;
        thread = record { pkt = pkt; stm32_request_counter = counter };
      }

  -- A round in which no other thread writes the state. `accepted` says whether the port accepts the
  -- packet of a mode switch.
  unfoldable pub heartbeat_round : Bool → ℕ → ComponentState F32 → Thread → Round
  heartbeat_round accepted interval_ms s t =
      let any_component_active = State.any_active F32 s in
      let idle = record s { motor_mode_set = false } in
      if any_component_active && not s.motor_mode_set
      then (if accepted
          then record {
            written = as_bytes Packet.motor_mode_nav_packet ∷ [];
            sleep_ms = mode_switch_delay_ms;
            state = record s { motor_mode_set = true };
            thread = t;
          }
          else (let r =
                finish_round interval_ms s t.stm32_request_counter (send_commands s t.pkt) in
              record r { written = as_bytes Packet.motor_mode_nav_packet ∷ r.written }))
      else (if not any_component_active && s.motor_mode_set
          then finish_round interval_ms idle t.stm32_request_counter (send_commands idle t.pkt)
          else finish_round interval_ms s t.stm32_request_counter (send_commands s t.pkt))

  -- What the loop writes in as many rounds as `accepted` has entries, before the shutdown flag or a
  -- poisoned mutex ends it, while no other thread writes the state.
  unfoldable pub heartbeat_loop : List Bool → ℕ → ComponentState F32 → Thread → List (List (List ℕ))
  heartbeat_loop [] interval_ms s t = []
  heartbeat_loop (ok ∷ accepted) interval_ms s t =
      let r = heartbeat_round ok interval_ms s t in
      r.written ∷ heartbeat_loop accepted interval_ms r.state r.thread
