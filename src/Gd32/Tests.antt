-- ===== src/Gd32/Tests.antt =====
-- Concrete packets, and the theorems at concrete inputs.
use vacuum_tiger.Prelude.{◌≡◌, refl, [], ◌∷◌, ◌++◌, arith, true, false, All}
use vacuum_tiger.Gd32.Checksum.{checksum}
use vacuum_tiger.Gd32.Packet
use vacuum_tiger.Gd32.Packet.Frames.{frame, Sends, new-IsReady, IsReady}
use vacuum_tiger.Gd32.Packet.Wire.{run, id, args, velocity, main_brush, motor_mode, run-Sends}
use vacuum_tiger.Gd32.State
use vacuum_tiger.Gd32.State.{ComponentState}
use vacuum_tiger.Gd32.Heartbeat.{Thread, heartbeat_round, heartbeat_loop}
use vacuum_tiger.Gd32.Heartbeat.Cycles.{frames, Sent}
use vacuum_tiger.Gd32.Heartbeat.Watchdog.{
  heartbeat_round-Sent, mode_switch-Sent, Quiet, heartbeat_loop-clear_all,
}
use vacuum_tiger.Gd32.Reader
use vacuum_tiger.Gd32.Reader.{empty_packet, found, nothing, panic, set_packet, try_parse_packet}
use vacuum_tiger.Gd32.Reader.RoundTrip.{try_parse_packet-frame, try_parse_packet-prefix}
use vacuum_tiger.Gd32.Reader.Safety.{Returns, try_parse_packet-Returns, try_parse_packet-short}
use vacuum_tiger.Gd32.Reader.Steps.{synced}

-- The bytes that the source's comments and tests give.
heartbeat_bytes : Packet.as_bytes Packet.heartbeat_packet ≡ 0xfa ∷ 0xfb ∷ 3 ∷ 6 ∷ 0 ∷ 6 ∷ []
unfolding Packet.as_bytes Packet.heartbeat_packet checksum
heartbeat_bytes = refl

initialize_bytes : Packet.as_bytes Packet.initialize_packet ≡ 0xfa ∷ 0xfb ∷ 1 ∷ 8 ∷ []
unfolding Packet.as_bytes Packet.initialize_packet
initialize_bytes = refl

air_pump_bytes :
    Packet.as_bytes (Packet.set_air_pump 100 Packet.new)
    ≡ 0xfa ∷ 0xfb ∷ 5 ∷ 0x68 ∷ 0x72 ∷ 0x06 ∷ 0x68 ∷ 0x74 ∷ []
unfolding Packet.as_bytes Packet.set_air_pump checksum
air_pump_bytes = refl

run-Sends_example :
    Sends
      (run (main_brush 50) (run (velocity 100 0xfff0) Packet.new))
      (id (main_brush 50))
      (args (main_brush 50))
run-Sends_example =
    run-Sends (main_brush 50) (run (velocity 100 0xfff0) Packet.new)
      (run-Sends (velocity 100 0xfff0) Packet.new new-IsReady).0

try_parse_packet-frame_example :
    try_parse_packet
      (record { buffer = frame 0x15 (1 ∷ 2 ∷ 3 ∷ []) ++ (0xfa ∷ []); packet = empty_packet })
    ≡ found (record { buffer = 0xfa ∷ []; packet = set_packet 0x15 (1 ∷ 2 ∷ 3 ∷ []) empty_packet })
try_parse_packet-frame_example =
    try_parse_packet-frame 0x15 (1 ∷ 2 ∷ 3 ∷ []) (0xfa ∷ []) empty_packet (omega arith)
      (omega arith)

try_parse_packet-prefix_example :
    try_parse_packet (record { buffer = 0xfa ∷ 0xfb ∷ 3 ∷ 6 ∷ 0 ∷ []; packet = empty_packet })
    ≡ nothing (record { buffer = 0xfa ∷ 0xfb ∷ 3 ∷ 6 ∷ 0 ∷ []; packet = empty_packet })
unfolding checksum
try_parse_packet-prefix_example =
    try_parse_packet-prefix 6 [] (0xfa ∷ 0xfb ∷ 3 ∷ 6 ∷ 0 ∷ []) [] 6 empty_packet refl

abbrev noisy : Reader.PacketReader
noisy = record { buffer = 1 ∷ 0xfa ∷ 0xfb ∷ 3 ∷ 6 ∷ 0 ∷ 7 ∷ 0xfa ∷ []; packet = empty_packet }

try_parse_packet-Returns_example : Returns noisy.buffer (try_parse_packet noisy)
try_parse_packet-Returns_example = try_parse_packet-Returns noisy (omega arith)

try_parse_packet-short_example : try_parse_packet (synced empty_packet 1 (6 ∷ 0 ∷ 0 ∷ [])) ≡ panic
try_parse_packet-short_example =
    try_parse_packet-short empty_packet 1 6 (0 ∷ 0 ∷ []) (omega arith) (λ e. cc)

-- The vacuum at 80, the lidar on, and a thread whose packet held another command before.
abbrev cleaning : ComponentState Unit
cleaning = record {
  vacuum = 80;
  main_brush = 0;
  side_brush = 0;
  water_pump = 0;
  motor_mode_set = false;
  lidar_enabled = true;
  lidar_pwm = 60;
  linear_velocity = 100;
  angular_velocity = 0;
  wheel_motor_enabled = false;
  linear_velocity_scale = tt;
  angular_velocity_scale = tt;
}

abbrev thread : Thread
thread = record { pkt = run (velocity 1 2) Packet.new; stm32_request_counter = 74 }

thread-IsReady : IsReady thread.pkt
thread-IsReady = (run-Sends (velocity 1 2) Packet.new new-IsReady).0

heartbeat_round-Sent_example :
    Sent Unit 20
      (record cleaning { motor_mode_set = true })
      thread
      (heartbeat_round Unit true 20 (record cleaning { motor_mode_set = true }) thread)
heartbeat_round-Sent_example =
    heartbeat_round-Sent Unit true 20 (record cleaning { motor_mode_set = true }) thread
      thread-IsReady (unfold State.any_active in refl)

mode_switch-Sent_example :
    let r = heartbeat_round Unit true 20 cleaning thread in
    (r.written ≡ frames (motor_mode 2 ∷ []))
    × (r.sleep_ms ≡ 100)
    × Sent Unit 20 cleaning thread (heartbeat_round Unit false 20 r.state r.thread)
mode_switch-Sent_example =
    mode_switch-Sent Unit false 20 cleaning thread thread-IsReady (unfold State.any_active in refl)
      refl

heartbeat_loop-clear_all_example :
    All Quiet
      (heartbeat_loop Unit (true ∷ false ∷ true ∷ []) 20 (State.clear_all Unit cleaning) thread)
heartbeat_loop-clear_all_example =
    heartbeat_loop-clear_all Unit (true ∷ false ∷ true ∷ []) 20 cleaning thread thread-IsReady
