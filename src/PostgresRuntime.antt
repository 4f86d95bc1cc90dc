-- ===== src/PostgresRuntime.antt =====
-- internal/adapter/postgres/runtime/runtime.go and write.go: the life of the connection that holds the
-- advisory lock, the admission of writes, and the gate that makes them serial. Here is what each
-- critical section does to the Runtime; `Schedule` has the goroutines that run them. What PostgreSQL
-- answers, and when it closes the connection, is left open.
pub mod Schedule
pub mod Exclusive
pub mod Sealed
pub mod Failure
mod Examples
use agentops_go.Prelude.{
  ℕ, zero, suc, ◌+◌, ◌-◌, Bool, true, false, not, ◌&&◌, ◌||◌, Option, none, some, ◌==◌,
  if◌then◌else◌,
}

pub data LifecycleState : Type 0 where
  is_open monitoring startup_failed lost closing closed : LifecycleState

-- `gate` counts the tokens in the channel of the gate, which holds one; `failure` is whether the
-- buffer of the channel of failures is taken, `failures` how many were sent to it and `dropped` how
-- many were not, since it was taken.
pub record Runtime : Type 0 where
  pub state : LifecycleState
  pub accepting_writes : Bool
  pub connection_closed : Bool
  pub gate : ℕ
  pub gate_waiters : ℕ
  pub failure : Bool
  pub failures : ℕ
  pub dropped : ℕ
  pub migration_connection : Bool

-- `Open`, where it succeeds.
abbrev pub opened : Runtime
opened = record {
  state = LifecycleState.is_open;
  accepting_writes = true;
  connection_closed = false;
  gate = 1;
  gate_waiters = 0;
  failure = false;
  failures = 0;
  dropped = 0;
  migration_connection = true;
}

abbrev pub state_eq : LifecycleState → LifecycleState → Bool
state_eq LifecycleState.is_open LifecycleState.is_open = true
state_eq LifecycleState.monitoring LifecycleState.monitoring = true
state_eq LifecycleState.startup_failed LifecycleState.startup_failed = true
state_eq LifecycleState.lost LifecycleState.lost = true
state_eq LifecycleState.closing LifecycleState.closing = true
state_eq LifecycleState.closed LifecycleState.closed = true
state_eq _ _ = false

unfoldable pub mark_startup_failed : Runtime → Runtime
mark_startup_failed r = record r {
  state =
      if state_eq r.state LifecycleState.is_open then LifecycleState.startup_failed else r.state;
  accepting_writes = false;
}

-- The channel keeps one failure until it is received.
unfoldable pub report_failure : Runtime → Runtime
report_failure r =
    if r.failure
    then record r { dropped = suc r.dropped }
    else record r { failure = true; failures = suc r.failures }

-- How a test of the state and the connection ends: refused by the state, with a connection that is
-- closed, or well.
pub data Outcome : Type 0 where
  refused disconnected succeeded : Outcome

-- The section of `StartMonitoring`. Where the connection is closed, `reportFailure` follows behind it.
unfoldable pub start_monitoring : Runtime → Runtime × Outcome
start_monitoring r =
    if not (state_eq r.state LifecycleState.is_open) || not r.accepting_writes
    then (r, Outcome.refused)
    else if r.connection_closed
    then (record r { state = LifecycleState.lost }, Outcome.disconnected)
    else (record r { state = LifecycleState.monitoring }, Outcome.succeeded)

unfoldable pub stop_accepting_writes : Runtime → Runtime
stop_accepting_writes r = record r { accepting_writes = false }

-- The previous state decides whether the monitor is awaited.
unfoldable pub begin_closing : Runtime → Runtime × LifecycleState
begin_closing r = (record r { accepting_writes = false; state = LifecycleState.closing }, r.state)

-- `closeMigrationConnection`, with whether there was one to close.
unfoldable pub close_migration_connection : Runtime → Runtime × Bool
close_migration_connection r = (record r { migration_connection = false }, r.migration_connection)

-- The end of `close`.
unfoldable pub finish_closing : Runtime → Runtime
finish_closing r = record r { state = LifecycleState.closed }

-- The section of `markLost`, with whether `reportFailure` follows behind it.
unfoldable pub mark_lost : Runtime → Runtime × Bool
mark_lost r =
    if state_eq r.state LifecycleState.closing
      || state_eq r.state LifecycleState.closed
      || state_eq r.state LifecycleState.lost
    then (r, false)
    else (record r { state = LifecycleState.lost; accepting_writes = false }, true)

-- `observeConnectionFailure`, of an error: whether `markLost` follows.
unfoldable pub observe_connection_failure : Runtime → Bool
observe_connection_failure r = r.connection_closed

unfoldable pub require_accepting_writes : Runtime → Bool
require_accepting_writes r =
    r.accepting_writes
    && (state_eq r.state LifecycleState.is_open || state_eq r.state LifecycleState.monitoring)

-- The tests of `admitWrite`; where the connection is closed, `markLost` follows. They are taken together
-- where the state is read, since a connection that is open behind that point was open there.
unfoldable pub admit_write : Runtime → Outcome
unfolding require_accepting_writes
admit_write r =
    if not (require_accepting_writes r)
    then Outcome.refused
    else if r.connection_closed
    then Outcome.disconnected
    else Outcome.succeeded

-- The tests of `requireState`; where the connection is closed, `markLost` follows.
unfoldable pub require_state : LifecycleState → Runtime → Outcome
require_state expected r =
    if not (state_eq r.state expected)
    then Outcome.refused
    else if r.connection_closed
    then Outcome.disconnected
    else Outcome.succeeded

-- The three sections of `acquireGate`: the waiter is counted, takes the token, and is not counted any
-- more. The second waits for a token.
unfoldable pub begin_waiting : Runtime → Runtime
begin_waiting r = record r { gate_waiters = suc r.gate_waiters }

unfoldable pub take_token : Runtime → Option Runtime
take_token r = if r.gate == 0 then none else some (record r { gate = r.gate - 1 })

unfoldable pub end_waiting : Runtime → Runtime
end_waiting r = record r { gate_waiters = r.gate_waiters - 1 }

unfoldable pub try_acquire_gate : Runtime → Runtime × Bool
try_acquire_gate r =
    if not (r.gate_waiters == 0)
    then (r, false)
    else if r.gate == 0
    then (r, false)
    else (record r { gate = r.gate - 1 }, true)

-- A send to the channel of the gate waits while it is full.
unfoldable pub release_gate : Runtime → Option Runtime
release_gate r = if r.gate == 0 then some (record r { gate = 1 }) else none
