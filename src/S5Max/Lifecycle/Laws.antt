-- ===== src/S5Max/Lifecycle/Laws.antt =====
-- lifecycle.rs: which states can follow which, over any calls at all.
use Prim.Native.String.{String}
use mathlib.Core.Path.{subst}
use vacuum_tiger.Prelude.{ℕ, ◌≡◌, refl, List, [], ◌∷◌, Bool, true, false, Option, none, some, arith}
use vacuum_tiger.S5Max.Lifecycle.Core.{
  same, is_fault, DriverState, created, synchronizing, read_only_ready, operational, stopping,
  stopped, fault, Lifecycle, new, current, set_state, begin_synchronizing, mark_read_only_ready,
  mark_operational, begin_stopping, mark_stopped, enter_fault, mark_safety_report,
  transition_between,
}

-- A call of one of the methods that change the lifecycle.
pub data Call : Type 0 where
  begin : Call
  ready : Call
  operate : Call
  stop : Call
  finish : Call
  fail : String → Call
  report : ℕ → Call

unfoldable pub apply : Call → Lifecycle → Lifecycle
apply begin l = (begin_synchronizing l).0
apply ready l = (mark_read_only_ready l).0
apply operate l = (mark_operational l).0
apply stop l = (begin_stopping l).0
apply finish l = (mark_stopped l).0
apply (fail reason) l = enter_fault reason l
apply (report now) l = mark_safety_report now l

-- The diagram of the lifecycle.
infix 40 ◌⟶◌
pub data ◌⟶◌ : DriverState → DriverState → Type 0 where
  stays : {s : DriverState} → s ⟶ s
  starts : created ⟶ synchronizing
  restarts : stopped ⟶ synchronizing
  synchronized : synchronizing ⟶ read_only_ready
  operates : read_only_ready ⟶ operational
  stops_synchronizing : synchronizing ⟶ stopping
  stops_ready : read_only_ready ⟶ stopping
  stops_operational : operational ⟶ stopping
  never_started : created ⟶ stopped
  stopped_now : stopping ⟶ stopped
  faults : {s : DriverState} → s ⟶ fault

ruleset edges = (
  stays, starts, restarts, synchronized, operates, stops_synchronizing, stops_ready,
  stops_operational, never_started, stopped_now, faults,
)

-- Every call moves the state along an edge of the diagram.
pub apply-⟶ : (c : Call) (l : Lifecycle) → l.state ⟶ (apply c l).state
unfolding apply begin_synchronizing mark_read_only_ready mark_operational begin_stopping
    mark_stopped mark_safety_report
apply-⟶ begin l = grind (arith, edges)
apply-⟶ ready l = grind (arith, edges)
apply-⟶ operate l = grind (arith, edges)
apply-⟶ stop l = grind (arith, edges)
apply-⟶ finish l = grind (arith, edges)
apply-⟶ (fail r) l = grind (arith, edges)
apply-⟶ (report n) l = grind (arith, edges)

unfoldable pub run : List Call → Lifecycle → Lifecycle
run [] l = l
run (c ∷ calls) l = run calls (apply c l)

fault-edge : {s t : DriverState} → s ⟶ t → s ≡ fault → t ≡ fault
fault-edge stays e = e
fault-edge starts e = cc
fault-edge restarts e = cc
fault-edge synchronized e = cc
fault-edge operates e = cc
fault-edge stops_synchronizing e = cc
fault-edge stops_ready e = cc
fault-edge stops_operational e = cc
fault-edge never_started e = cc
fault-edge stopped_now e = cc
fault-edge faults e = refl

-- A fault is final: no calls whatever lead out of it.
pub run-fault : (calls : List Call) (l : Lifecycle) → l.state ≡ fault → (run calls l).state ≡ fault
unfolding run
run-fault [] l e = e
run-fault (c ∷ calls) l e = run-fault calls (apply c l) (fault-edge (apply-⟶ c l) e)

abbrev pub is_some {ℓ} : {A : Type ℓ} → Option A → Bool
is_some none = false
is_some (some _) = true

same_refl : (s : DriverState) → same s s ≡ true
same_refl s = ground arith

-- What the stored and the published state say of faults.
pub record Inv (l : Lifecycle) : Type 0 where
  pub sound : l.poisoned ≡ false
  pub shown : l.sensor_poisoned ≡ false
  pub same_state : l.sensor_data.state ≡ l.state
  pub same_flag : l.sensor_data.faulted ≡ is_fault l.state
  pub recorded : is_some l.last_fault ≡ is_fault l.state
  pub reason_shown : l.sensor_data.last_fault ≡ l.last_fault

new-Inv : Inv new
unfolding new
new-Inv = ground arith

apply-Inv : (c : Call) (l : Lifecycle) → Inv l → Inv (apply c l)
unfolding apply begin_synchronizing mark_read_only_ready mark_operational begin_stopping
    mark_stopped mark_safety_report
apply-Inv begin l h = ground arith
apply-Inv ready l h = ground arith
apply-Inv operate l h = ground arith
apply-Inv stop l h = ground arith
apply-Inv finish l h = ground arith
apply-Inv (fail r) l h = ground arith
apply-Inv (report n) l h = ground arith

run_from-Inv : (calls : List Call) (l : Lifecycle) → Inv l → Inv (run calls l)
unfolding run
run_from-Inv [] l h = h
run_from-Inv (c ∷ calls) l h = run_from-Inv calls (apply c l) (apply-Inv c l h)

-- After any calls on a new lifecycle no mutex is poisoned, the published state and flag are those of
-- the state, a reason is recorded exactly in the fault state, and the published reason is the recorded one.
pub run-Inv : (calls : List Call) → Inv (run calls new)
run-Inv calls = run_from-Inv calls new new-Inv

apply-poisoned : (c : Call) (l : Lifecycle) → l.poisoned ≡ false → (apply c l).poisoned ≡ false
unfolding apply begin_synchronizing mark_read_only_ready mark_operational begin_stopping
    mark_stopped mark_safety_report
apply-poisoned begin l h = ground arith
apply-poisoned ready l h = ground arith
apply-poisoned operate l h = ground arith
apply-poisoned stop l h = ground arith
apply-poisoned finish l h = ground arith
apply-poisoned (fail r) l h = ground arith
apply-poisoned (report n) l h = ground arith

run-poisoned :
    (calls : List Call) (l : Lifecycle) → l.poisoned ≡ false → (run calls l).poisoned ≡ false
unfolding run
run-poisoned [] l h = h
run-poisoned (c ∷ calls) l h = run-poisoned calls (apply c l) (apply-poisoned c l h)

set_state-state :
    (to : DriverState) (l : Lifecycle)
    → l.poisoned ≡ false
    → ((set_state to l).0.state ≡ to) × ((set_state to l).1 ≡ none)
unfolding set_state
set_state-state to l h = ground arith

-- Finding: `transition` reads the state and stores the new one under two separate locks. Whatever
-- calls other threads make in between, the transition from the state that was read succeeds and
-- leaves the new state, also when those calls have recorded a fault.
pub transition_race :
    (calls : List Call) (from to : DriverState) (l : Lifecycle)
    → l.poisoned ≡ false
    → l.state ≡ from
    → ((transition_between (λ l. run calls l) from to l).0.state ≡ to)
      × ((transition_between (λ l. run calls l) from to l).1 ≡ none)
unfolding transition_between current
transition_race calls from to l p e =
    let seen : same (current l) from ≡ true =
      rw p (subst (λ s. same l.state s ≡ true) e (same_refl l.state)) in
    rw seen (set_state-state to (run calls l) (run-poisoned calls l p))
