-- ===== src/PostgresRuntime/Schedule.antt =====
-- internal/adapter/postgres/runtime/runtime.go and write.go: the goroutines of a Runtime as steps in
-- any order, each step one critical section, with the test of the connection that follows a test of the
-- state taken together with it. Goroutines at the same place are alike, so that a count for each place
-- stands for them.
use agentops_go.Prelude.{ℕ, suc, Bool, true, false, some, ◌≡◌}
use agentops_go.PostgresRuntime.{
  LifecycleState, Runtime, Outcome, opened, mark_startup_failed, start_monitoring,
  stop_accepting_writes, begin_closing, close_migration_connection, finish_closing,
  observe_connection_failure, mark_lost, report_failure, require_accepting_writes, admit_write,
  require_state, begin_waiting, take_token, end_waiting, try_acquire_gate, release_gate,
}

-- Where the goroutines stand. A writer is a call of Execute or TryExecute: it has passed the first
-- test (`checked`), waits for the gate, has taken the token but is still counted as a waiter, holds the
-- gate, or has been admitted. Another user of the gate is Migrate, the monitor or Close. `leaving` are
-- those whose context was done while they waited. `losing` are about to run the section of `markLost` and
-- `reporting` have left it, or that of `StartMonitoring`, with a failure that is still to be sent; whether
-- these hold the gate as well is left open.
pub record World : Type 0 where
  pub runtime : Runtime
  pub checked : ℕ
  pub waiting_writers : ℕ
  pub waiting_others : ℕ
  pub taken_writers : ℕ
  pub taken_others : ℕ
  pub leaving : ℕ
  pub holding_writers : ℕ
  pub holding_others : ℕ
  pub admitted : ℕ
  pub losing : ℕ
  pub reporting : ℕ
  pub close_begun : Bool

abbrev pub initial : World
initial = record {
  runtime = opened;
  checked = 0;
  waiting_writers = 0;
  waiting_others = 0;
  taken_writers = 0;
  taken_others = 0;
  leaving = 0;
  holding_writers = 0;
  holding_others = 0;
  admitted = 0;
  losing = 0;
  reporting = 0;
  close_begun = false;
}

-- A critical section that touches no goroutine's place.
abbrev pub with_runtime : World → Runtime → World
with_runtime w r = record w { runtime = r }

pub data Step : World → World → Type 0 where
  -- the first test of Execute and TryExecute
  check :
      (w : World)
      → require_accepting_writes w.runtime ≡ true
      → Step w (record w { checked = suc w.checked })
  -- Execute waits, TryExecute does not
  writer_waits :
      (w : World) (n : ℕ)
      → w.checked ≡ suc n
      → Step w (record w {
        runtime = begin_waiting w.runtime;
        checked = n;
        waiting_writers = suc w.waiting_writers;
      })
  writer_tries :
      (w : World) (n : ℕ) (r : Runtime)
      → w.checked ≡ suc n
      → try_acquire_gate w.runtime ≡ (r, true)
      → Step w (record w { runtime = r; checked = n; holding_writers = suc w.holding_writers })
  writer_fails :
      (w : World) (n : ℕ) (r : Runtime)
      → w.checked ≡ suc n
      → try_acquire_gate w.runtime ≡ (r, false)
      → Step w (record w { runtime = r; checked = n })
  other_waits :
      (w : World)
      → Step w
          (record w { runtime = begin_waiting w.runtime; waiting_others = suc w.waiting_others })
  writer_takes :
      (w : World) (n : ℕ) (r : Runtime)
      → w.waiting_writers ≡ suc n
      → take_token w.runtime ≡ some r
      → Step w (record w { runtime = r; waiting_writers = n; taken_writers = suc w.taken_writers })
  other_takes :
      (w : World) (n : ℕ) (r : Runtime)
      → w.waiting_others ≡ suc n
      → take_token w.runtime ≡ some r
      → Step w (record w { runtime = r; waiting_others = n; taken_others = suc w.taken_others })
  -- the context is done
  writer_gives_up :
      (w : World) (n : ℕ)
      → w.waiting_writers ≡ suc n
      → Step w (record w { waiting_writers = n; leaving = suc w.leaving })
  other_gives_up :
      (w : World) (n : ℕ)
      → w.waiting_others ≡ suc n
      → Step w (record w { waiting_others = n; leaving = suc w.leaving })
  writer_holds :
      (w : World) (n : ℕ)
      → w.taken_writers ≡ suc n
      → Step w (record w {
        runtime = end_waiting w.runtime;
        taken_writers = n;
        holding_writers = suc w.holding_writers;
      })
  other_holds :
      (w : World) (n : ℕ)
      → w.taken_others ≡ suc n
      → Step w (record w {
        runtime = end_waiting w.runtime;
        taken_others = n;
        holding_others = suc w.holding_others;
      })
  leaves :
      (w : World) (n : ℕ)
      → w.leaving ≡ suc n
      → Step w (record w { runtime = end_waiting w.runtime; leaving = n })
  -- the final test, under the gate
  admit :
      (w : World) (n : ℕ)
      → w.holding_writers ≡ suc n
      → admit_write w.runtime ≡ Outcome.succeeded
      → Step w (record w { holding_writers = n; admitted = suc w.admitted })
  -- a refused writer only has the gate to release
  refuse :
      (w : World) (n : ℕ)
      → w.holding_writers ≡ suc n
      → admit_write w.runtime ≡ Outcome.refused
      → Step w (record w { holding_writers = n; holding_others = suc w.holding_others })
  refuse_disconnected :
      (w : World) (n : ℕ)
      → w.holding_writers ≡ suc n
      → admit_write w.runtime ≡ Outcome.disconnected
      → Step w (record w {
        holding_writers = n;
        holding_others = suc w.holding_others;
        losing = suc w.losing;
      })
  -- the end of a transaction, and of another use of the gate
  finish :
      (w : World) (n : ℕ) (r : Runtime)
      → w.admitted ≡ suc n
      → release_gate w.runtime ≡ some r
      → Step w (record w { runtime = r; admitted = n })
  other_finishes :
      (w : World) (n : ℕ) (r : Runtime)
      → w.holding_others ≡ suc n
      → release_gate w.runtime ≡ some r
      → Step w (record w { runtime = r; holding_others = n })
  -- sections that any of them, or the Host, runs
  require :
      (w : World) (s : LifecycleState)
      → require_state s w.runtime ≡ Outcome.disconnected
      → Step w (record w { losing = suc w.losing })
  observe :
      (w : World)
      → observe_connection_failure w.runtime ≡ true
      → Step w (record w { losing = suc w.losing })
  -- the monitor has found the lock lost
  miss : (w : World) → Step w (record w { losing = suc w.losing })
  -- the section of `markLost`, which is the first or is not
  lose :
      (w : World) (n : ℕ) (r : Runtime)
      → w.losing ≡ suc n
      → mark_lost w.runtime ≡ (r, true)
      → Step w (record w { runtime = r; losing = n; reporting = suc w.reporting })
  lose_again :
      (w : World) (n : ℕ) (r : Runtime)
      → w.losing ≡ suc n
      → mark_lost w.runtime ≡ (r, false)
      → Step w (record w { runtime = r; losing = n })
  report :
      (w : World) (n : ℕ)
      → w.reporting ≡ suc n
      → Step w (record w { runtime = report_failure w.runtime; reporting = n })
  fail_startup : (w : World) → Step w (with_runtime w (mark_startup_failed w.runtime))
  monitor :
      (w : World) (r : Runtime)
      → start_monitoring w.runtime ≡ (r, Outcome.succeeded)
      → Step w (with_runtime w r)
  monitor_refused :
      (w : World) (r : Runtime)
      → start_monitoring w.runtime ≡ (r, Outcome.refused)
      → Step w (with_runtime w r)
  monitor_disconnected :
      (w : World) (r : Runtime)
      → start_monitoring w.runtime ≡ (r, Outcome.disconnected)
      → Step w (record w { runtime = r; reporting = suc w.reporting })
  stop : (w : World) → Step w (with_runtime w (stop_accepting_writes w.runtime))
  -- once, by `closeOnce`
  begin_close :
      (w : World)
      → w.close_begun ≡ false
      → Step w (record w { runtime = (begin_closing w.runtime).0; close_begun = true })
  close_migration : (w : World) → Step w (with_runtime w ((close_migration_connection w.runtime).0))
  -- `close` ends after it has begun
  end_close :
      (w : World)
      → w.runtime.state ≡ LifecycleState.closing
      → Step w (with_runtime w (finish_closing w.runtime))
  -- the server or a forced close breaks the connection
  disconnect : (w : World) → Step w (with_runtime w (record w.runtime { connection_closed = true }))
  -- the Host receives a failure
  receive : (w : World) → Step w (with_runtime w (record w.runtime { failure = false }))

-- Every sequence of steps.
pub data Steps : World → World → Type 0 where
  done : (w : World) → Steps w w
  then : (u v w : World) → Steps u v → Step v w → Steps u w
