-- ===== src/Gd32/Commands/Tests.antt =====
-- The theorems about commands at concrete inputs.
use vacuum_tiger.Prelude.{ℕ, ◌≡◌, refl, ◌*◌, ◌%◌, true, false, none, some, List, [], ◌∷◌, ◌++◌, All}
use vacuum_tiger.Types
use vacuum_tiger.Types.{
  Floats, SensorValue, Config, enable, reset, configure, Command, component_control,
}
use vacuum_tiger.Gd32.Packet.Frames.{new-IsReady}
use vacuum_tiger.Gd32.Packet.Wire.{lidar_power, lidar_pwm}
use vacuum_tiger.Gd32.State.{ComponentState, clear_all}
use vacuum_tiger.Gd32.Heartbeat.{start, heartbeat_loop}
use vacuum_tiger.Gd32.Heartbeat.Cycles.{frames}
use vacuum_tiger.Gd32.Heartbeat.Watchdog.{Quiet}
use vacuum_tiger.Gd32.Commands.Link.{Port, Link, ok, link}
use vacuum_tiger.Gd32.Commands.Dispatch.{send_command}
use vacuum_tiger.Gd32.Commands.Demand.{vacuum, speed_of, or_kept}
use vacuum_tiger.Gd32.Commands.Latest.{run_commands, last_asked, run_commands-last_asked}
use vacuum_tiger.Gd32.Commands.Stop.{stop_commands, send_command-stop, send_command-lidar_default}

-- Whole numbers in the place of floats.
abbrev whole : Floats
whole = record { F32 = ℕ; F64 = ℕ; mul_as_i16 = λ a b. a * b % 65536 }

-- The lidar at 75 per cent, and the vacuum running.
abbrev running : ComponentState ℕ
running = record {
  vacuum = 40;
  main_brush = 0;
  side_brush = 0;
  water_pump = 0;
  motor_mode_set = true;
  lidar_enabled = true;
  lidar_pwm = 75;
  linear_velocity = 0;
  angular_velocity = 0;
  wheel_motor_enabled = false;
  linear_velocity_scale = 523;
  angular_velocity_scale = 523;
}

abbrev good_port : Port
good_port = record { poisoned = false; fails = []; written = [] }

abbrev bad_port : Port
bad_port = record { poisoned = false; fails = true ∷ true ∷ []; written = [] }

-- A speed of 256 is truncated to 0.
abbrev too_fast : Config whole
too_fast key = some (Types.u32 256)

abbrev calls : List (Command whole)
calls =
    component_control "vacuum" (enable none)
    ∷ component_control "led" (configure too_fast)
    ∷ component_control "vacuum" (configure too_fast)
    ∷ component_control "main_brush" (enable none)
    ∷ []

run_commands-last_asked_example :
    speed_of whole vacuum (run_commands whole calls bad_port running)
    ≡ or_kept (last_asked whole vacuum calls) 40
run_commands-last_asked_example = run_commands-last_asked whole vacuum calls bad_port running

last_asked_speed : last_asked whole vacuum calls ≡ some 0
unfolding last_asked
last_asked_speed = refl

send_command-stop_example :
    (l : Link ℕ) × (send_command whole
        (component_control "drive" (reset none))
        bad_port
        running
        false
      ≡ ok l)
    × (l.state ≡ clear_all ℕ running)
    × (l.port.written ≡ [] ++ frames stop_commands)
    × All Quiet (heartbeat_loop ℕ (true ∷ false ∷ []) 20 l.state start)
send_command-stop_example =
    send_command-stop whole none bad_port running false (true ∷ false ∷ []) 20 start refl
      new-IsReady

send_command-lidar_default_example :
    let stopped =
      link ℕ (send_command whole (component_control "drive" (reset none)) bad_port running false) in
    (l : Link ℕ) × (send_command whole
        (component_control "lidar" (enable none))
        good_port
        stopped.state
        false
      ≡ ok l)
    × (l.state.lidar_enabled ≡ true)
    × (l.port.written ≡ [] ++ frames (lidar_power true ∷ lidar_pwm 60 ∷ []))
send_command-lidar_default_example =
    send_command-lidar_default whole none none good_port bad_port running false refl refl
