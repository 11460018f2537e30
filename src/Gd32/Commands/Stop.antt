-- ===== src/Gd32/Commands/Stop.antt =====
-- commands.rs: the emergency stop, with the heartbeat behind it, and the power of the lidar.
use vacuum_tiger.Prelude.{
  ℕ, ◌≡◌, refl, ap, sym, ◌∙◌, Bool, true, false, Option, List, [], ◌∷◌, ◌++◌, append_assoc,
  append-nil, arith, All,
}
use mathlib.Core.Path.{subst}
use vacuum_tiger.Types.{Floats, Config, enable, reset, component_control}
use vacuum_tiger.Gd32.Packet
use vacuum_tiger.Gd32.Packet.{TxPacket, as_bytes}
use vacuum_tiger.Gd32.Packet.Frames.{IsReady, new-IsReady}
use vacuum_tiger.Gd32.Packet.Wire.{
  Command, run, run-Sends, velocity, motor_mode, air_pump, main_brush, side_brush, water_pump,
  lidar_power, lidar_pwm,
}
use vacuum_tiger.Gd32.State
use vacuum_tiger.Gd32.State.{ComponentState, clear_all}
use vacuum_tiger.Gd32.Heartbeat.{Thread, heartbeat_loop}
use vacuum_tiger.Gd32.Heartbeat.Cycles.{frames, frames-append}
use vacuum_tiger.Gd32.Heartbeat.Watchdog.{Quiet, heartbeat_loop-clear_all}
use vacuum_tiger.Gd32.Commands.Link.{
  Port, send_to, Link, ok, link, with_pkt, with_state, send_packet, send_anyway,
}
use vacuum_tiger.Gd32.Commands.Handlers.{send_stops, emergency_stop, handle_drive, handle_lidar}
use vacuum_tiger.Gd32.Commands.Dispatch.{handle_component_control, send_command}
use vacuum_tiger.Gd32.Commands.State.{emergency_stop-state}

send_to-written :
    (pkt : TxPacket) (p : Port) → (send_to pkt p).1.written ≡ p.written ++ (as_bytes pkt ∷ [])
unfolding send_to
send_to-written pkt p = ground arith

send_to-sent :
    (pkt : TxPacket) (p : Port)
    → p.fails ≡ []
    → ((send_to pkt p).0 ≡ true) × ((send_to pkt p).1.fails ≡ [])
unfolding send_to
send_to-sent pkt p e = ground arith

send_to-poisoned : (pkt : TxPacket) (p : Port) → (send_to pkt p).1.poisoned ≡ p.poisoned
unfolding send_to
send_to-poisoned pkt p = ground arith

-- The stop commands.
abbrev pub stop_commands : List Command
stop_commands =
    air_pump 0
    ∷ main_brush 0
    ∷ side_brush 0
    ∷ water_pump 0
    ∷ lidar_pwm 0
    ∷ lidar_power false
    ∷ velocity 0 0
    ∷ motor_mode 0
    ∷ []

module _ (F32 : Type 0) (before : List (List ℕ)) where
  -- The port was handed the frames of the commands behind those before, and the packet can be used.
  abbrev Handed : List Command → Link F32 → Type 0
  Handed cs l = (l.port.written ≡ before ++ frames cs) × IsReady l.pkt

  stop-Handed :
      (c : Command) (cs : List Command) (l : Link F32)
      → Handed cs l
      → Handed (cs ++ (c ∷ [])) (send_anyway F32 (with_pkt F32 (run c) l))
  unfolding send_anyway
  stop-Handed c cs l (e, ready) =
      let (ready', bytes) = run-Sends c l.pkt ready in
      (
        send_to-written (run c l.pkt) l.port
            ∙ rw (e, bytes)
                (append_assoc before (frames cs) (_ ∷ [])
                  ∙ ap (λ fs. before ++ fs) (sym (frames-append cs (c ∷ [])))),
        ready',
      )

  abbrev stop_all : List Command → Link F32 → Link F32
  stop_all [] l = l
  stop_all (c ∷ cs) l = stop_all cs (send_anyway F32 (with_pkt F32 (run c) l))

  stop_all-Handed :
      (ds cs : List Command) (l : Link F32) → Handed cs l → Handed (cs ++ ds) (stop_all ds l)
  stop_all-Handed [] cs l h = rw append-nil h
  stop_all-Handed (d ∷ ds) cs l h =
      subst (λ es. Handed es (stop_all (d ∷ ds) l)) (append_assoc cs (d ∷ []) ds)
        (stop_all-Handed ds (cs ++ (d ∷ [])) (send_anyway F32 (with_pkt F32 (run d) l))
          (stop-Handed d cs l h))

module _ (F32 : Type 0) where
  -- The next write goes through: what `send_packet` does then, and what it does when the write fails.
  send_packet_ok :
      (l : Link F32) (c : Command) (cs : List Command) (before : List (List ℕ))
      → l.port.poisoned ≡ false
      → l.port.fails ≡ []
      → Handed F32 before cs l
      → (m : Link F32) × (send_packet F32 (with_pkt F32 (run c) l) ≡ ok m)
        × (m.state ≡ l.state)
        × (m.port.poisoned ≡ false)
        × (m.port.fails ≡ [])
        × Handed F32 before (cs ++ (c ∷ [])) m
  unfolding send_packet send_anyway
  send_packet_ok l c cs before sound works h =
      let sent = send_to-sent (run c l.pkt) l.port works in
      (
        send_anyway F32 (with_pkt F32 (run c) l),
        simp (sound, sent.0) refl,
        refl,
        send_to-poisoned (run c l.pkt) l.port ∙ sound,
        sent.1,
        stop-Handed F32 before c cs l h,
      )

module _ (fl : Floats) where
  open fl use {F32}

  -- The emergency stop, on a port whose mutex is sound: the state is cleared, and the port is handed
  -- the eight stop commands in order, whichever of the writes fail. As long as no other thread writes
  -- the state, the rounds of the heartbeat that follow send the heartbeat and at most the request to
  -- the STM32.
  pub send_command-stop :
      (config : Option (Config fl)) (p : Port) (s : ComponentState F32) (flag : Bool)
      (accepted : List Bool) (interval_ms : ℕ) (t : Thread)
      → p.poisoned ≡ false
      → IsReady t.pkt
      → (l : Link F32) × (send_command fl (component_control "drive" (reset config)) p s flag
          ≡ ok l)
        × (l.state ≡ clear_all F32 s)
        × (l.port.written ≡ p.written ++ frames stop_commands)
        × All Quiet (heartbeat_loop F32 accepted interval_ms l.state t)
  unfolding send_command handle_component_control handle_drive emergency_stop send_stops run
  send_command-stop config p s flag accepted interval_ms t sound ready =
      let cleared : Link F32 = record {
        port = p;
        state = clear_all F32 s;
        pkt = Packet.new;
        shutdown = flag;
      } in
      let h0 : Handed F32 p.written [] cleared = (sym (append-nil p.written), new-IsReady) in
      let h = stop_all-Handed F32 p.written stop_commands [] cleared h0 in
      (
        send_stops fl cleared,
        simp sound refl,
        unfold send_anyway in refl,
        h.0,
        unfold send_anyway in heartbeat_loop-clear_all F32 accepted interval_ms s t ready,
      )

  -- Enabling the lidar: its power, then the speed of the state.
  lidar_enabled_at :
      (d : Option (Config fl)) (p : Port) (u : ComponentState F32) (flag : Bool)
      → p.poisoned ≡ false
      → p.fails ≡ []
      → (l : Link F32) × (send_command fl (component_control "lidar" (enable d)) p u flag ≡ ok l)
        × (l.state.lidar_enabled ≡ true)
        × (l.port.written ≡ p.written ++ frames (lidar_power true ∷ lidar_pwm u.lidar_pwm ∷ []))
  unfolding send_command handle_component_control handle_lidar run State.get_lidar_pwm
  lidar_enabled_at d p u flag sound works =
      let start : Link F32 = record { port = p; state = u; pkt = Packet.new; shutdown = flag } in
      let (m, e, st, pois, more, h) =
        send_packet_ok F32 start (lidar_power true) [] p.written sound works
          (sym (append-nil p.written), new-IsReady) in
      let on = with_state F32 (λ s. record s { lidar_enabled = true }) m in
      let (n, f, st', pois', more', h') =
        send_packet_ok F32 on (lidar_pwm u.lidar_pwm) (lidar_power true ∷ []) p.written pois more
          h in
      (n, rw e f, ap (λ (s : ComponentState F32). s.lidar_enabled) st', h'.0)

  -- A lidar that is enabled behind an emergency stop runs at 60 per cent, whatever the configuration
  -- had set: the stop resets the speed, and nothing sets it again. The port is sound and no write fails.
  pub send_command-lidar_default :
      (c d : Option (Config fl)) (p q : Port) (s : ComponentState F32) (flag : Bool)
      → p.poisoned ≡ false
      → p.fails ≡ []
      → let stopped = link F32 (send_command fl (component_control "drive" (reset c)) q s flag) in
        (l : Link F32) × (send_command fl
            (component_control "lidar" (enable d))
            p
            stopped.state
            flag
          ≡ ok l)
        × (l.state.lidar_enabled ≡ true)
        × (l.port.written ≡ p.written ++ frames (lidar_power true ∷ lidar_pwm 60 ∷ []))
  send_command-lidar_default c d p q s flag sound works =
      let stopped = link F32 (send_command fl (component_control "drive" (reset c)) q s flag) in
      let cleared : stopped.state ≡ clear_all F32 s =
        unfold send_command in
        unfold handle_component_control in
        unfold handle_drive in
        emergency_stop-state fl
          (record { port = q; state = s; pkt = Packet.new; shutdown = flag }) in
      let sixty : stopped.state.lidar_pwm ≡ 60 =
        unfold clear_all in ap (λ (u : ComponentState F32). u.lidar_pwm) cleared in
      let (l, e, on, w) = lidar_enabled_at d p stopped.state flag sound works in
      (l, e, on, w ∙ ap (λ pwm. p.written ++ frames (lidar_power true ∷ lidar_pwm pwm ∷ [])) sixty)
