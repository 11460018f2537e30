-- ===== src/S5Max/Lifecycle/Core.antt =====
-- lifecycle.rs: `Lifecycle` and its methods. A method on the shared value returns the new value; a
-- poisoned mutex is a flag, set by a panic elsewhere. Instants count nanoseconds.
use Prim.Native.String.{String}
use vacuum_tiger.Prelude.{
  ℕ, ◌+◌, ◌-◌, ◌*◌, ◌%◌, ◌^◌, Bool, true, false, Option, none, some, leb, if◌then◌else◌,
}

abbrev pub safety_report_timeout : ℕ
safety_report_timeout = 500 * 1_000_000

pub data DriverState : Type 0 where
  created synchronizing read_only_ready operational stopping stopped fault : DriverState

-- The cases of `Err(..)`, with the states that their messages name.
pub data Error : Type 0 where
  cannot_initialize : DriverState → Error
  cannot_enter_stopped : DriverState → Error
  invalid_transition : DriverState → DriverState → DriverState → Error
  mutex_poisoned : Error

-- The sensor group "driver_status": the keys that `publish` sets, and the sequence number (a u64) that
-- `touch` counts up. The time stamp that `touch` takes from the system clock is left out.
pub record DriverStatus : Type 0 where
  pub state : DriverState
  pub faulted : Bool
  pub last_fault : Option String
  pub sequence_number : ℕ

pub record Lifecycle : Type 0 where
  pub state : DriverState
  pub last_fault : Option String
  pub last_safety_report : Option ℕ
  pub poisoned : Bool
  pub sensor_data : DriverStatus
  pub sensor_poisoned : Bool

abbrev pub is_fault : DriverState → Bool
is_fault fault = true
is_fault _ = false

abbrev pub or_else : Option String → Option String → Option String
or_else (some a) b = some a
or_else none b = b

-- Without a fault to report, the key `last_fault` keeps its value.
unfoldable pub publish : DriverState → Option String → Lifecycle → Lifecycle
publish state reason l = if l.sensor_poisoned then l else record l {
  sensor_data = record {
    state = state;
    faulted = is_fault state;
    last_fault = or_else reason l.sensor_data.last_fault;
    sequence_number = (l.sensor_data.sequence_number + 1) % 2 ^ 64;
  };
}

unfoldable pub new : Lifecycle
unfolding publish
new = publish created none (record {
  state = created;
  last_fault = none;
  last_safety_report = none;
  poisoned = false;
  sensor_data = record { state = created; faulted = false; last_fault = none; sequence_number = 0 };
  sensor_poisoned = false;
})

unfoldable pub current : Lifecycle → DriverState
current l = if l.poisoned then fault else l.state

abbrev pub is_synchronizing : DriverState → Bool
is_synchronizing synchronizing = true
is_synchronizing _ = false

unfoldable pub set_state : DriverState → Lifecycle → Lifecycle × Option Error
unfolding publish
set_state state l =
    if l.poisoned
    then (l, some mutex_poisoned)
    else (let fresh = is_synchronizing state in
        let reason = (if fresh then none else l.last_fault) in
        let report = (if fresh then none else l.last_safety_report) in
        (
          publish state reason
              (record l { state = state; last_fault = reason; last_safety_report = report }),
          none,
        ))

-- `begin_synchronizing`, by the state that it reads.
begin_from : DriverState → Lifecycle → Lifecycle × Option Error
unfolding set_state
begin_from created l = set_state synchronizing l
begin_from stopped l = set_state synchronizing l
begin_from state l = (l, some (cannot_initialize state))

unfoldable pub begin_synchronizing : Lifecycle → Lifecycle × Option Error
unfolding current begin_from
begin_synchronizing l = begin_from (current l) l

pub DriverState-discrete : Discrete DriverState
DriverState-discrete = hlevel

abbrev pub same : DriverState → DriverState → Bool
same created created = true
same synchronizing synchronizing = true
same read_only_ready read_only_ready = true
same operational operational = true
same stopping stopping = true
same stopped stopped = true
same fault fault = true
same _ _ = false

-- `transition` takes the lock twice: it reads the state, and stores the new one. `between` is what the
-- calls of other threads make of the lifecycle in between.
unfoldable pub transition_between :
    (Lifecycle → Lifecycle) → DriverState → DriverState → Lifecycle → Lifecycle × Option Error
unfolding current set_state
transition_between between from to l =
    let seen = current l in
    let l' = between l in
    if same seen from then set_state to l' else (l', some (invalid_transition seen to from))

unfoldable pub transition : DriverState → DriverState → Lifecycle → Lifecycle × Option Error
unfolding transition_between
transition from to l = transition_between (λ l. l) from to l

unfoldable pub mark_read_only_ready : Lifecycle → Lifecycle × Option Error
unfolding transition
mark_read_only_ready l = transition synchronizing read_only_ready l

unfoldable pub mark_operational : Lifecycle → Lifecycle × Option Error
unfolding transition
mark_operational l = transition read_only_ready operational l

stopping_from : DriverState → Lifecycle → Lifecycle × Option Error
unfolding set_state
stopping_from synchronizing l = set_state stopping l
stopping_from read_only_ready l = set_state stopping l
stopping_from operational l = set_state stopping l
stopping_from _ l = (l, none)

unfoldable pub begin_stopping : Lifecycle → Lifecycle × Option Error
unfolding current stopping_from
begin_stopping l = stopping_from (current l) l

stopped_from : DriverState → Lifecycle → Lifecycle × Option Error
unfolding set_state
stopped_from created l = set_state stopped l
stopped_from stopped l = set_state stopped l
stopped_from stopping l = set_state stopped l
stopped_from fault l = (l, none)
stopped_from state l = (l, some (cannot_enter_stopped state))

unfoldable pub mark_stopped : Lifecycle → Lifecycle × Option Error
unfolding current stopped_from
mark_stopped l = stopped_from (current l) l

-- `fault`: with a poisoned mutex only the published status changes.
unfoldable pub enter_fault : String → Lifecycle → Lifecycle
unfolding publish
enter_fault reason l =
    publish fault (some reason)
      (if l.poisoned then l else record l { state = fault; last_fault = some reason })

unfoldable pub mark_safety_report : ℕ → Lifecycle → Lifecycle
unfolding enter_fault
mark_safety_report now l =
    if l.poisoned
    then enter_fault "lifecycle mutex poisoned while recording safety telemetry" l
    else record l { last_safety_report = some now }

abbrev pub fresh_since : Option ℕ → ℕ → Bool
fresh_since none now = false
fresh_since (some last) now = leb (now - last) safety_report_timeout

-- `saturating_duration_since` stops at 0, as `-` does.
unfoldable pub safety_reports_fresh : ℕ → Lifecycle → Bool
safety_reports_fresh now l = if l.poisoned then false else fresh_since l.last_safety_report now
