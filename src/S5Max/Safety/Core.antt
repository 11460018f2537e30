-- ===== src/S5Max/Safety/Core.antt =====
-- safety.rs: `ActuatorTargets` and `SafetyController`. Velocities are f32 in the source: here they are
-- any type with a zero and the test `== 0.0`. A method returns the new controller.
use vacuum_tiger.Prelude.{
  ℕ, ◌+◌, ◌*◌, ◌≡◌, Bool, true, false, not, ◌&&◌, Option, none, some, leb, if◌then◌else◌,
}
use vacuum_tiger.S5Max.Lifecycle.{
  Lifecycle, operational, same, current, enter_fault, safety_reports_fresh,
}

abbrev pub drive_lease_duration : ℕ
drive_lease_duration = 250 * 1_000_000

-- What is used of f32: IEEE equality makes `0.0 == 0.0` true.
pub record Velocity : Type 1 where
  pub Carrier : Type 0
  pub zero : Carrier
  pub is_zero : Carrier → Bool
  pub is_zero_zero : is_zero zero ≡ true

pub data Error : Type 0 where
  actuation_disabled : Error
  not_operational : Error
  stale_telemetry : Error
  mutex_poisoned : Error

module _ (v : Velocity) where
  open v use {Carrier, zero, is_zero}

  pub record ActuatorTargets : Type 0 where
    pub linear : Carrier
    pub angular : Carrier
    pub fan : ℕ
    pub main_brush : ℕ
    pub side_brush : ℕ
    pub water_pump : ℕ
    pub lds_running : Bool

  abbrev pub default_targets : ActuatorTargets
  default_targets = record {
    linear = zero;
    angular = zero;
    fan = 0;
    main_brush = 0;
    side_brush = 0;
    water_pump = 0;
    lds_running = false;
  }

  pub record SafetyController : Type 0 where
    pub lifecycle : Lifecycle
    pub targets : ActuatorTargets
    pub drive_lease_deadline : Option ℕ
    pub poisoned : Bool

  unfoldable pub new : Lifecycle → SafetyController
  new lifecycle = record {
    lifecycle = lifecycle;
    targets = default_targets;
    drive_lease_deadline = none;
    poisoned = false;
  }

  unfoldable pub reset_targets : SafetyController → SafetyController
  reset_targets c =
      if c.poisoned
      then record c {
        lifecycle =
            enter_fault "safety mutex poisoned while resetting actuator targets" c.lifecycle;
      }
      else record c { targets = default_targets; drive_lease_deadline = none }

  -- `none` is `Ok(())`.
  unfoldable pub nonzero_allowed : Bool → ℕ → SafetyController → Option Error
  nonzero_allowed allow_actuation now c =
      if not allow_actuation
      then some actuation_disabled
      else if not (same (current c.lifecycle) operational)
      then some not_operational
      else if not (safety_reports_fresh now c.lifecycle)
      then some stale_telemetry
      else none

  unfoldable pub arm_drive_lease :
      Carrier → Carrier → ℕ → SafetyController → SafetyController × Option Error
  arm_drive_lease linear angular now c = if c.poisoned then (c, some mutex_poisoned) else (
    record c {
      targets = record c.targets { linear = linear; angular = angular };
      drive_lease_deadline =
          if is_zero linear && is_zero angular then none else some (now + drive_lease_duration);
    },
    none,
  )

  unfoldable pub clear_drive_target : SafetyController → SafetyController × Option Error
  clear_drive_target c = if c.poisoned then (c, some mutex_poisoned) else (
    record c {
      targets = record c.targets { linear = zero; angular = zero };
      drive_lease_deadline = none;
    },
    none,
  )

  unfoldable pub set_target :
      (ActuatorTargets → ActuatorTargets) → SafetyController → SafetyController × Option Error
  set_target update c =
      if c.poisoned
      then (c, some mutex_poisoned)
      else (record c { targets = update c.targets }, none)

  unfoldable pub set_fan : ℕ → SafetyController → SafetyController × Option Error
  unfolding set_target
  set_fan target = set_target (λ t. record t { fan = target })

  unfoldable pub set_main_brush : ℕ → SafetyController → SafetyController × Option Error
  unfolding set_target
  set_main_brush target = set_target (λ t. record t { main_brush = target })

  unfoldable pub set_side_brush : ℕ → SafetyController → SafetyController × Option Error
  unfolding set_target
  set_side_brush target = set_target (λ t. record t { side_brush = target })

  unfoldable pub set_water_pump : ℕ → SafetyController → SafetyController × Option Error
  unfolding set_target
  set_water_pump target = set_target (λ t. record t { water_pump = target })

  unfoldable pub set_lds_running : Bool → SafetyController → SafetyController × Option Error
  unfolding set_target
  set_lds_running running = set_target (λ t. record t { lds_running = running })

  abbrev pub is_due : Option ℕ → ℕ → Bool
  is_due none now = false
  is_due (some deadline) now = leb deadline now

  unfoldable pub take_expired_drive_lease : ℕ → SafetyController → SafetyController × Bool
  take_expired_drive_lease now c =
      if c.poisoned
      then (
        record c {
          lifecycle = enter_fault "safety mutex poisoned while checking drive lease" c.lifecycle;
        },
        true,
      )
      else if is_due c.drive_lease_deadline now
      then (
        record c {
          targets = record c.targets { linear = zero; angular = zero };
          drive_lease_deadline = none;
        },
        true,
      )
      else (c, false)
