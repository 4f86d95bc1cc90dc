-- ===== src/PostgresRuntime/Sealed.antt =====
-- internal/adapter/postgres/runtime/runtime.go: what happens once writes are not accepted any more.
use agentops_go.Prelude.{ℕ, ◌≤◌, Bool, true, false, some, ◌≡◌, ◌≢◌, refl, ap, subst, arith}
use agentops_go.PostgresRuntime.{
  Runtime, Outcome, mark_startup_failed, start_monitoring, stop_accepting_writes, begin_closing,
  close_migration_connection, finish_closing, mark_lost, report_failure, require_accepting_writes,
  admit_write, begin_waiting, take_token, end_waiting, try_acquire_gate, release_gate,
}
use agentops_go.PostgresRuntime.Schedule.{World, Step, Steps}

abbrev Refusing : Runtime → Type 0
Refusing r = require_accepting_writes r ≡ false

mark_lost-Refusing : (r s : Runtime) (b : Bool) → mark_lost r ≡ (s, b) → Refusing r → Refusing s
unfolding mark_lost require_accepting_writes
mark_lost-Refusing r s b h k = ground arith

report_failure-Refusing : (r : Runtime) → Refusing r → Refusing (report_failure r)
unfolding report_failure require_accepting_writes
report_failure-Refusing r h = ground arith

start_monitoring-Refusing :
    (r s : Runtime) (o : Outcome) → start_monitoring r ≡ (s, o) → Refusing r → Refusing s
unfolding start_monitoring require_accepting_writes
start_monitoring-Refusing r s o h k = ground arith

mark_startup_failed-Refusing : (r : Runtime) → Refusing (mark_startup_failed r)
unfolding mark_startup_failed require_accepting_writes
mark_startup_failed-Refusing r = ground arith

admit_write-refused : (r : Runtime) → Refusing r → admit_write r ≢ Outcome.succeeded
unfolding admit_write
admit_write-refused r h k = ground arith

-- The sections of the gate change neither the state nor the admission.
abbrev SameState : Runtime → Runtime → Type 0
SameState r s = (s.state ≡ r.state) × (s.accepting_writes ≡ r.accepting_writes)

SameState-Refusing : (r s : Runtime) → SameState r s → Refusing r → Refusing s
unfolding require_accepting_writes
SameState-Refusing r s h k = ground arith

try_acquire_gate-SameState : (r : Runtime) → SameState r ((try_acquire_gate r).0)
unfolding try_acquire_gate
try_acquire_gate-SameState r = ground arith

tried : (r s : Runtime) (b : Bool) → try_acquire_gate r ≡ (s, b) → Refusing r → Refusing s
tried r s b h =
    SameState-Refusing r s (subst (SameState r) (ap (λ x. x.0) h) (try_acquire_gate-SameState r))

take_token-SameState : (r s : Runtime) → take_token r ≡ some s → SameState r s
unfolding take_token
take_token-SameState r s h = ground arith

release_gate-SameState : (r s : Runtime) → release_gate r ≡ some s → SameState r s
unfolding release_gate
release_gate-SameState r s h = ground arith

-- Writes are refused, and no more transactions run than `n`.
pub record Sealed (n : ℕ) (w : World) : Type 0 where
  pub refusing : require_accepting_writes w.runtime ≡ false
  pub no_more : w.admitted ≤ n

Step-Sealed : (n : ℕ) (u v : World) → Step u v → Sealed n u → Sealed n v
unfolding begin_waiting end_waiting stop_accepting_writes begin_closing close_migration_connection
    finish_closing require_accepting_writes
Step-Sealed n _ _ (Step.check w h) e = record { refusing = e.refusing; no_more = e.no_more }
Step-Sealed n _ _ (Step.writer_waits w m h) e = record {
  refusing = e.refusing;
  no_more = e.no_more;
}
Step-Sealed n _ _ (Step.writer_tries w m r h k) e = record {
  refusing = tried w.runtime r true k e.refusing;
  no_more = e.no_more;
}
Step-Sealed n _ _ (Step.writer_fails w m r h k) e = record {
  refusing = tried w.runtime r false k e.refusing;
  no_more = e.no_more;
}
Step-Sealed n _ _ (Step.other_waits w) e = record { refusing = e.refusing; no_more = e.no_more }
Step-Sealed n _ _ (Step.writer_takes w m r h k) e = record {
  refusing = SameState-Refusing w.runtime r (take_token-SameState w.runtime r k) e.refusing;
  no_more = e.no_more;
}
Step-Sealed n _ _ (Step.other_takes w m r h k) e = record {
  refusing = SameState-Refusing w.runtime r (take_token-SameState w.runtime r k) e.refusing;
  no_more = e.no_more;
}
Step-Sealed n _ _ (Step.writer_gives_up w m h) e = record {
  refusing = e.refusing;
  no_more = e.no_more;
}
Step-Sealed n _ _ (Step.other_gives_up w m h) e = record {
  refusing = e.refusing;
  no_more = e.no_more;
}
Step-Sealed n _ _ (Step.writer_holds w m h) e = record {
  refusing = e.refusing;
  no_more = e.no_more;
}
Step-Sealed n _ _ (Step.other_holds w m h) e = record { refusing = e.refusing; no_more = e.no_more }
Step-Sealed n _ _ (Step.leaves w m h) e = record { refusing = e.refusing; no_more = e.no_more }
Step-Sealed n _ _ (Step.admit w m h k) e = absurd (admit_write-refused w.runtime e.refusing k)
Step-Sealed n _ _ (Step.refuse w m h k) e = record { refusing = e.refusing; no_more = e.no_more }
Step-Sealed n _ _ (Step.refuse_disconnected w m h k) e = record {
  refusing = e.refusing;
  no_more = e.no_more;
}
Step-Sealed n _ _ (Step.finish w m r h k) e = record {
  refusing = SameState-Refusing w.runtime r (release_gate-SameState w.runtime r k) e.refusing;
  no_more = omega (arith, e.no_more, h);
}
Step-Sealed n _ _ (Step.other_finishes w m r h k) e = record {
  refusing = SameState-Refusing w.runtime r (release_gate-SameState w.runtime r k) e.refusing;
  no_more = e.no_more;
}
Step-Sealed n _ _ (Step.require w s h) e = record { refusing = e.refusing; no_more = e.no_more }
Step-Sealed n _ _ (Step.observe w h) e = record { refusing = e.refusing; no_more = e.no_more }
Step-Sealed n _ _ (Step.miss w) e = record { refusing = e.refusing; no_more = e.no_more }
Step-Sealed n _ _ (Step.lose w m r h k) e = record {
  refusing = mark_lost-Refusing w.runtime r true k e.refusing;
  no_more = e.no_more;
}
Step-Sealed n _ _ (Step.lose_again w m r h k) e = record {
  refusing = mark_lost-Refusing w.runtime r false k e.refusing;
  no_more = e.no_more;
}
Step-Sealed n _ _ (Step.report w m h) e = record {
  refusing = report_failure-Refusing w.runtime e.refusing;
  no_more = e.no_more;
}
Step-Sealed n _ _ (Step.fail_startup w) e = record {
  refusing = mark_startup_failed-Refusing w.runtime;
  no_more = e.no_more;
}
Step-Sealed n _ _ (Step.monitor w r h) e = record {
  refusing = start_monitoring-Refusing w.runtime r Outcome.succeeded h e.refusing;
  no_more = e.no_more;
}
Step-Sealed n _ _ (Step.monitor_refused w r h) e = record {
  refusing = start_monitoring-Refusing w.runtime r Outcome.refused h e.refusing;
  no_more = e.no_more;
}
Step-Sealed n _ _ (Step.monitor_disconnected w r h) e = record {
  refusing = start_monitoring-Refusing w.runtime r Outcome.disconnected h e.refusing;
  no_more = e.no_more;
}
Step-Sealed n _ _ (Step.stop w) e = record { refusing = refl; no_more = e.no_more }
Step-Sealed n _ _ (Step.begin_close w h) e = record { refusing = refl; no_more = e.no_more }
Step-Sealed n _ _ (Step.close_migration w) e = record { refusing = e.refusing; no_more = e.no_more }
Step-Sealed n _ _ (Step.end_close w h) e = record { refusing = ground arith; no_more = e.no_more }
Step-Sealed n _ _ (Step.disconnect w) e = record { refusing = e.refusing; no_more = e.no_more }
Step-Sealed n _ _ (Step.receive w) e = record { refusing = e.refusing; no_more = e.no_more }

-- Once writes are refused, because they were stopped, the startup failed, the lock was lost or the
-- Runtime closes, they stay refused through every interleaving, and no further transaction is admitted:
-- those that run can only become fewer.
pub Steps-Sealed :
    (u v : World) → Steps u v → require_accepting_writes u.runtime ≡ false → Sealed u.admitted v
Steps-Sealed _ _ (Steps.done w) h = record { refusing = h; no_more = omega arith }
Steps-Sealed _ _ (Steps.then u v w h s) k = Step-Sealed u.admitted v w s (Steps-Sealed u v h k)
