-- ===== src/Gd32/Heartbeat/Cycles.antt =====
-- heartbeat.rs: the commands that a round puts on the wire, whatever the packet in use held before.
use vacuum_tiger.Prelude.{
  ℕ, ◌+◌, ◌/◌, ◌≡◌, refl, sym, ap, ◌∙◌, Bool, true, false, List, [], ◌∷◌, ◌++◌, map, append-nil,
  append_assoc, Bool-cases, inl, inr, ltb, leb, if◌then◌else◌,
}
use vacuum_tiger.Gd32.Packet
use vacuum_tiger.Gd32.Packet.{TxPacket, as_bytes}
use vacuum_tiger.Gd32.Packet.Frames.{frame, IsReady, new-IsReady}
use vacuum_tiger.Gd32.Packet.Wire.{
  Command, run, id, args, run-Sends, velocity, motor_mode, air_pump, main_brush, side_brush,
  water_pump, lidar_pwm, heartbeat, request_stm32,
}
use vacuum_tiger.Gd32.State
use vacuum_tiger.Gd32.State.{ComponentState, any_active, clear_all}
use vacuum_tiger.Gd32.Heartbeat.Core.{
  stm32_request_interval_ms, Thread, send_if, Round, send_components, finish_round,
}

-- The frames of a list of commands.
abbrev pub frames : List Command → List (List ℕ)
frames cs = map (λ c. frame (id c) (args c)) cs

abbrev pub when : Bool → Command → List Command
when on c = if on then c ∷ [] else []

pub frames-append : (cs ds : List Command) → frames (cs ++ ds) ≡ frames cs ++ frames ds
frames-append [] ds = refl
frames-append (c ∷ cs) ds = ap (λ t. frame (id c) (args c) ∷ t) (frames-append cs ds)

-- The log holds the frames of the commands, and the packet can be used again.
abbrev pub Wrote : List Command → List (List ℕ) × TxPacket → Type 0
Wrote cs (written, pkt) = (written ≡ frames cs) × IsReady pkt

send_if-Wrote :
    (on : Bool) (c : Command) (cs : List Command) (x : List (List ℕ) × TxPacket)
    → Wrote cs x
    → Wrote (cs ++ when on c) (send_if on (run c) x)
unfolding send_if
send_if-Wrote true c cs (written, pkt) (e, ready) =
    let (ready', bytes) = run-Sends c pkt ready in
    (rw (e, bytes) (sym (frames-append cs (c ∷ []))), ready')
send_if-Wrote false c cs (written, pkt) (e, ready) =
    (e ∙ ap (λ ds. frames ds) (sym (append-nil cs)), ready)

pub heartbeat_frame : as_bytes Packet.heartbeat_packet ≡ frame (id heartbeat) (args heartbeat)
unfolding Packet.heartbeat_packet run
heartbeat_frame = (run-Sends heartbeat Packet.new new-IsReady).1

pub nav_frame :
    as_bytes Packet.motor_mode_nav_packet ≡ frame (id (motor_mode 2)) (args (motor_mode 2))
unfolding Packet.motor_mode_nav_packet run
nav_frame = (run-Sends (motor_mode 2) Packet.new new-IsReady).1

stm32_frame : as_bytes Packet.request_stm32_packet ≡ frame (id request_stm32) (args request_stm32)
unfolding Packet.request_stm32_packet run
stm32_frame = (run-Sends request_stm32 Packet.new new-IsReady).1

-- Commands under conditions: those whose condition holds, in order; and their calls of the setters.
abbrev pub enabled : List (Bool × Command) → List Command
enabled [] = []
enabled ((on, c) ∷ rest) = when on c ++ enabled rest

abbrev send_all : List (Bool × Command) → List (List ℕ) × TxPacket → List (List ℕ) × TxPacket
send_all [] x = x
send_all ((on, c) ∷ rest) x = send_all rest (send_if on (run c) x)

send_all-Wrote :
    (steps : List (Bool × Command)) (cs : List Command) (x : List (List ℕ) × TxPacket)
    → Wrote cs x
    → Wrote (cs ++ enabled steps) (send_all steps x)
send_all-Wrote [] cs x w = rw append-nil w
send_all-Wrote ((on, c) ∷ rest) cs x w =
    rw (← append_assoc)
      (send_all-Wrote rest (cs ++ when on c) (send_if on (run c) x) (send_if-Wrote on c cs x w))

module _ (F32 : Type 0) where
  -- The commands of navigation mode: the velocity, and what each component that is on asks for.
  abbrev pub steps : ComponentState F32 → List (Bool × Command)
  steps s =
      (true, velocity s.linear_velocity s.angular_velocity)
      ∷ (ltb 0 s.vacuum, air_pump s.vacuum)
      ∷ (ltb 0 s.main_brush, main_brush s.main_brush)
      ∷ (ltb 0 s.side_brush, side_brush s.side_brush)
      ∷ (ltb 0 s.water_pump, water_pump s.water_pump)
      ∷ (s.lidar_enabled, lidar_pwm s.lidar_pwm)
      ∷ []

  -- What a round sends, apart from a mode switch and the request to the STM32.
  abbrev pub planned : ComponentState F32 → List Command
  planned s = if any_active F32 s then motor_mode 2 ∷ enabled (steps s) else heartbeat ∷ []

  pub send_components-Wrote :
      (s : ComponentState F32) (pkt : TxPacket)
      → IsReady pkt
      → Wrote (motor_mode 2 ∷ enabled (steps s)) (send_components F32 s pkt)
  unfolding send_components run State.get_lidar_pwm
  send_components-Wrote s pkt ready =
      send_all-Wrote (steps s) (motor_mode 2 ∷ []) (as_bytes Packet.motor_mode_nav_packet ∷ [], pkt)
        (ap (λ f. f ∷ []) nav_frame, ready)

  -- What a round that is not a mode switch leaves.
  abbrev pub Sent : ℕ → ComponentState F32 → Thread → Round F32 → Type 0
  Sent interval_ms s t r =
      (r.written
        ≡ frames (
            planned s
            ++ when (leb (stm32_request_interval_ms / interval_ms) (t.stm32_request_counter + 1))
                request_stm32))
      × (r.sleep_ms ≡ interval_ms)
      × IsReady r.thread.pkt
      × (r.state ≡ record s { motor_mode_set = any_active F32 s })

  pub finish_round-Sent :
      (interval_ms : ℕ) (s u : ComponentState F32) (t : Thread) (x : List (List ℕ) × TxPacket)
      → u ≡ record s { motor_mode_set = any_active F32 s }
      → Wrote (planned s) x
      → Sent interval_ms s t (finish_round F32 interval_ms u t.stm32_request_counter x)
  unfolding finish_round
  finish_round-Sent interval_ms s u t (written, pkt) e (w, ready) =
      elim (Bool-cases
        (leb (stm32_request_interval_ms / interval_ms) (t.stm32_request_counter + 1))) [
          | inl y ↦ rw y (
            rw (w, stm32_frame) (sym (frames-append (planned s) (request_stm32 ∷ []))),
            refl,
            ready,
            e,
          )
          | inr n ↦ rw n (rw append-nil w, refl, ready, e)
        ]
