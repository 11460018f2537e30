-- ===== src/Gd32/Heartbeat/Watchdog.antt =====
-- heartbeat.rs: what every round sends, the mode switch, and the emergency stop.
use vacuum_tiger.Prelude.{
  ℕ, ◌≡◌, refl, sym, ap, ◌∙◌, Bool, true, false, not, ◌&&◌, List, [], ◌∷◌, Bool-cases, inl, inr,
  All,
}
use mathlib.Core.Path.{subst}
use vacuum_tiger.Gd32.Packet
use vacuum_tiger.Gd32.Packet.{TxPacket, as_bytes}
use vacuum_tiger.Gd32.Packet.Frames.{IsReady}
use vacuum_tiger.Gd32.Packet.Wire.{motor_mode, heartbeat, request_stm32}
use vacuum_tiger.Gd32.State.{ComponentState, any_active, clear_all}
use vacuum_tiger.Gd32.Heartbeat.Core.{
  mode_switch_delay_ms, Thread, send_commands, finish_round, heartbeat_round, heartbeat_loop,
}
use vacuum_tiger.Gd32.Heartbeat.Cycles.{
  frames, when, planned, Wrote, Sent, heartbeat_frame, nav_frame, send_components-Wrote,
  finish_round-Sent,
}

-- What a round sends while all components are off.
abbrev pub Quiet : List (List ℕ) → Type 0
Quiet written = (due : Bool) × (written ≡ frames (heartbeat ∷ when due request_stm32))

module _ (F32 : Type 0) where
  -- The flag of the motor mode, written over with what it holds.
  same_flag :
      (s : ComponentState F32) (on : Bool)
      → s.motor_mode_set ≡ on
      → s ≡ record s { motor_mode_set = on }
  same_flag s on e = λ i. record s { motor_mode_set = e i }

  active_commands :
      (s : ComponentState F32) (pkt : TxPacket)
      → IsReady pkt
      → any_active F32 s ≡ true
      → s.motor_mode_set ≡ true
      → Wrote (planned F32 s) (send_commands F32 s pkt)
  unfolding send_commands
  active_commands s pkt ready a m = simp (a, m) (send_components-Wrote F32 s pkt ready)

  idle_commands :
      (s u : ComponentState F32) (pkt : TxPacket)
      → IsReady pkt
      → any_active F32 s ≡ false
      → u.motor_mode_set ≡ false
      → Wrote (planned F32 s) (send_commands F32 u pkt)
  unfolding send_commands
  idle_commands s u pkt ready a m = simp (a, m) (ap (λ f. f ∷ []) heartbeat_frame, ready)

  -- The three ways through a round that does not switch the mode.
  round_active :
      (accepted : Bool) (interval_ms : ℕ) (s : ComponentState F32) (t : Thread)
      → any_active F32 s ≡ true
      → s.motor_mode_set ≡ true
      → heartbeat_round F32 accepted interval_ms s t
        ≡ finish_round F32 interval_ms s t.stm32_request_counter (send_commands F32 s t.pkt)
  unfolding heartbeat_round
  round_active accepted interval_ms s t a m = simp (a, m)

  round_stopped :
      (accepted : Bool) (interval_ms : ℕ) (s : ComponentState F32) (t : Thread)
      → any_active F32 s ≡ false
      → s.motor_mode_set ≡ true
      → heartbeat_round F32 accepted interval_ms s t
        ≡ finish_round F32 interval_ms
            (record s { motor_mode_set = false })
            t.stm32_request_counter
            (send_commands F32 (record s { motor_mode_set = false }) t.pkt)
  unfolding heartbeat_round
  round_stopped accepted interval_ms s t a m = simp (a, m)

  round_idle :
      (accepted : Bool) (interval_ms : ℕ) (s : ComponentState F32) (t : Thread)
      → any_active F32 s ≡ false
      → s.motor_mode_set ≡ false
      → heartbeat_round F32 accepted interval_ms s t
        ≡ finish_round F32 interval_ms s t.stm32_request_counter (send_commands F32 s t.pkt)
  unfolding heartbeat_round
  round_idle accepted interval_ms s t a m = simp (a, m)

  -- A round that does not switch the mode sends exactly the planned commands, as frames and in order,
  -- then the request to the STM32 when it is due, whatever the packet in use held before. It leaves the
  -- flag of the motor mode as the activity of the components asks, and sleeps for the interval.
  pub heartbeat_round-Sent :
      (accepted : Bool) (interval_ms : ℕ) (s : ComponentState F32) (t : Thread)
      → IsReady t.pkt
      → (any_active F32 s && not s.motor_mode_set) ≡ false
      → Sent F32 interval_ms s t (heartbeat_round F32 accepted interval_ms s t)
  heartbeat_round-Sent accepted interval_ms s t ready no_switch =
      let idle = record s { motor_mode_set = false } in
      elim (Bool-cases (any_active F32 s)) [
        | inl a ↦ elim (Bool-cases s.motor_mode_set) [
          | inl m ↦ rw (round_active accepted interval_ms s t a m) (
              finish_round-Sent F32 interval_ms s s t (send_commands F32 s t.pkt)
                (same_flag s (any_active F32 s) (m ∙ sym a)) (active_commands s t.pkt ready a m))
          | inr m ↦ let z : true ≡ false = rw (a, m) at no_switch in cc
        ]
        | inr a ↦ elim (Bool-cases s.motor_mode_set) [
          | inl m ↦ rw (round_stopped accepted interval_ms s t a m) (
              finish_round-Sent F32 interval_ms s idle t (send_commands F32 idle t.pkt)
                (ap (λ on. record s { motor_mode_set = on }) (sym a))
                (idle_commands s idle t.pkt ready a refl))
          | inr m ↦ rw (round_idle accepted interval_ms s t a m) (
              finish_round-Sent F32 interval_ms s s t (send_commands F32 s t.pkt)
                (same_flag s (any_active F32 s) (m ∙ sym a)) (idle_commands s s t.pkt ready a m))
        ]
      ]

  -- The round in which the first component is on, on a port that accepts it, sends the mode switch
  -- alone and sleeps for 100 ms; the next round, on that state, sends the planned commands.
  pub mode_switch-Sent :
      (accepted : Bool) (interval_ms : ℕ) (s : ComponentState F32) (t : Thread)
      → IsReady t.pkt
      → any_active F32 s ≡ true
      → s.motor_mode_set ≡ false
      → let r = heartbeat_round F32 true interval_ms s t in
        (r.written ≡ frames (motor_mode 2 ∷ []))
        × (r.sleep_ms ≡ mode_switch_delay_ms)
        × Sent F32 interval_ms s t (heartbeat_round F32 accepted interval_ms r.state r.thread)
  mode_switch-Sent accepted interval_ms s t ready a m =
      let on = record s { motor_mode_set = true } in
      let switched : heartbeat_round F32 true interval_ms s t ≡ record {
        written = as_bytes Packet.motor_mode_nav_packet ∷ [];
        sleep_ms = mode_switch_delay_ms;
        state = on;
        thread = t;
      } =
        unfold heartbeat_round in simp (a, m) in
      rw switched (
        ap (λ f. f ∷ []) nav_frame,
        refl,
        unfold any_active in
            heartbeat_round-Sent accepted interval_ms on t ready (ap (λ b. b && false) a),
      )

  -- After an emergency stop, as long as no other thread writes the state, every round sends the
  -- heartbeat, then at most the request to the STM32, and no other command.
  pub heartbeat_loop-clear_all :
      (accepted : List Bool) (interval_ms : ℕ) (s : ComponentState F32) (t : Thread)
      → IsReady t.pkt
      → All Quiet (heartbeat_loop F32 accepted interval_ms (clear_all F32 s) t)
  unfolding heartbeat_loop any_active clear_all
  heartbeat_loop-clear_all [] interval_ms s t ready = tt
  heartbeat_loop-clear_all (ok ∷ accepted) interval_ms s t ready =
      let (w, sleeps, ready', stays) =
        heartbeat_round-Sent ok interval_ms (clear_all F32 s) t ready refl in
      let r = heartbeat_round F32 ok interval_ms (clear_all F32 s) t in
      (
        (_, w),
        subst (λ u. All Quiet (heartbeat_loop F32 accepted interval_ms u r.thread)) (sym stays)
            (heartbeat_loop-clear_all accepted interval_ms s r.thread ready'),
      )
