-- ===== src/S5Max/Safety/Laws.antt =====
-- safety.rs: the deadman lease and the gate.
use vacuum_tiger.Prelude.{
  ℕ, ◌+◌, ◌-◌, ◌≤◌, ◌<◌, ◌≡◌, ◌↔◌, refl, List, [], ◌∷◌, Bool, true, false, Option, none, some,
  arith, All, Option-cases, inl, inr,
}
use vacuum_tiger.S5Max.Lifecycle.{
  Lifecycle, operational, safety_report_timeout, current, safety_reports_fresh,
}
use vacuum_tiger.S5Max.Safety.Core.{
  Velocity, SafetyController, new, reset_targets, nonzero_allowed, arm_drive_lease,
  clear_drive_target, set_fan, set_main_brush, set_side_brush, set_water_pump, set_lds_running,
  take_expired_drive_lease, drive_lease_duration,
}

module _ (v : Velocity) where
  open v use {Carrier, zero, is_zero, is_zero_zero}

  -- A call of a method that changes the controller.
  pub data Call : Type 0 where
    reset : Call
    arm : Carrier → Carrier → ℕ → Call
    clear : Call
    fan : ℕ → Call
    main_brush : ℕ → Call
    side_brush : ℕ → Call
    water_pump : ℕ → Call
    lds : Bool → Call
    poll : ℕ → Call

  unfoldable pub apply : Call → SafetyController v → SafetyController v
  apply reset c = reset_targets v c
  apply (arm linear angular now) c = (arm_drive_lease v linear angular now c).0
  apply clear c = (clear_drive_target v c).0
  apply (fan n) c = (set_fan v n c).0
  apply (main_brush n) c = (set_main_brush v n c).0
  apply (side_brush n) c = (set_side_brush v n c).0
  apply (water_pump n) c = (set_water_pump v n c).0
  apply (lds b) c = (set_lds_running v b c).0
  apply (poll now) c = (take_expired_drive_lease v now c).0

  unfoldable pub run : List Call → SafetyController v → SafetyController v
  run [] c = c
  run (x ∷ calls) c = run calls (apply x c)

  abbrev pub Stands : SafetyController v → Type 0
  Stands c = (is_zero c.targets.linear ≡ true) × (is_zero c.targets.angular ≡ true)

  -- A moving drive has a lease, and it runs out by `deadline`.
  pub record Leased (deadline : ℕ) (c : SafetyController v) : Type 0 where
    pub sound : c.poisoned ≡ false
    pub stands : c.drive_lease_deadline ≡ none → Stands c
    pub bounded : (d : ℕ) → c.drive_lease_deadline ≡ some d → d ≤ deadline

  -- The drive is armed no later than `latest`.
  abbrev pub ArmedBy : ℕ → Call → Type 0
  ArmedBy latest (arm linear angular now) = now ≤ latest
  ArmedBy latest _ = Unit {0}

  apply-Leased :
      (latest : ℕ) (x : Call) (c : SafetyController v)
      → ArmedBy latest x
      → Leased (latest + drive_lease_duration) c
      → Leased (latest + drive_lease_duration) (apply x c)
  unfolding apply reset_targets arm_drive_lease clear_drive_target set_fan set_main_brush
      set_side_brush set_water_pump set_lds_running take_expired_drive_lease
  apply-Leased latest reset c a h = grind (arith, is_zero_zero)
  apply-Leased latest (arm linear angular now) c a h = grind arith
  apply-Leased latest clear c a h = grind (arith, is_zero_zero)
  apply-Leased latest (fan n) c a h = grind arith
  apply-Leased latest (main_brush n) c a h = grind arith
  apply-Leased latest (side_brush n) c a h = grind arith
  apply-Leased latest (water_pump n) c a h = grind arith
  apply-Leased latest (lds b) c a h = grind arith
  apply-Leased latest (poll now) c a h = grind (arith, is_zero_zero)

  run-Leased :
      (latest : ℕ) (calls : List Call) (c : SafetyController v)
      → All (ArmedBy latest) calls
      → Leased (latest + drive_lease_duration) c
      → Leased (latest + drive_lease_duration) (run calls c)
  unfolding run
  run-Leased latest [] c a h = h
  run-Leased latest (x ∷ calls) c a h =
      run-Leased latest calls (apply x c) a.1 (apply-Leased latest x c a.0 h)

  new-Leased : (deadline : ℕ) (l : Lifecycle) → Leased deadline (new v l)
  unfolding new
  new-Leased deadline l = grind (arith, is_zero_zero)

  -- After any calls on a new controller in which the drive was armed at `latest` at the latest, a poll
  -- 250 ms later or more finds or leaves the drive with zero velocities and no lease.
  pub deadman :
      (latest now : ℕ) (calls : List Call) (l : Lifecycle)
      → All (ArmedBy latest) calls
      → latest + drive_lease_duration ≤ now
      → let c = (take_expired_drive_lease v now (run calls (new v l))).0 in
        Stands c × (c.drive_lease_deadline ≡ none)
  unfolding take_expired_drive_lease
  deadman latest now calls l a h =
      stops (run calls (new v l)) (run-Leased latest calls (new v l) a (new-Leased _ l))
    where
      due :
          (c : SafetyController v) (o : Option ℕ)
          → c.drive_lease_deadline ≡ o
          → Leased (latest + drive_lease_duration) c
          → Stands (take_expired_drive_lease v now c).0
            × ((take_expired_drive_lease v now c).0.drive_lease_deadline ≡ none)
      due c none e k = let s = k.stands e in ground (arith, k.sound)
      due c (some d) e k = let s = k.bounded d e in ground (arith, k.sound, is_zero_zero)

      stops :
          (c : SafetyController v)
          → Leased (latest + drive_lease_duration) c
          → Stands (take_expired_drive_lease v now c).0
            × ((take_expired_drive_lease v now c).0.drive_lease_deadline ≡ none)
      stops c k = due c c.drive_lease_deadline refl k

  -- A poll before the deadline changes nothing, so a lease that was just renewed is not cut short.
  pub take_expired_drive_lease_early :
      (linear angular : Carrier) (armed now : ℕ) (c : SafetyController v)
      → c.poisoned ≡ false
      → now < armed + drive_lease_duration
      → let c' = (arm_drive_lease v linear angular armed c).0 in
        take_expired_drive_lease v now c' ≡ (c', false)
  unfolding arm_drive_lease take_expired_drive_lease
  take_expired_drive_lease_early linear angular armed now c p h = ground arith

  -- A nonzero target is let through exactly when actuation is configured, the driver is operational
  -- and its last safety report is at most 500 ms old.
  pub nonzero_allowed_iff :
      (allow : Bool) (now : ℕ) (c : SafetyController v)
      → (nonzero_allowed v allow now c ≡ none) ↔ (
          (allow ≡ true)
          × (c.lifecycle.poisoned ≡ false)
          × (c.lifecycle.state ≡ operational)
          × ((last : ℕ) × (c.lifecycle.last_safety_report ≡ some last)
              × (now - last ≤ safety_report_timeout)))
  unfolding nonzero_allowed current safety_reports_fresh
  nonzero_allowed_iff allow now c =
      (λ e. (ground arith, ground arith, ground arith, recent e), λ h. ground arith)
    where
      recent :
          nonzero_allowed v allow now c ≡ none
          → (last : ℕ) × (c.lifecycle.last_safety_report ≡ some last)
            × (now - last ≤ safety_report_timeout)
      recent e = elim (Option-cases c.lifecycle.last_safety_report) [
        | inl m ↦ absurd (ground arith)
        | inr (last, m) ↦ (last, m, ground arith)
      ]
