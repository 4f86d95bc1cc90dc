-- ===== src/PostgresRuntime/Failure.antt =====
-- internal/adapter/postgres/runtime/runtime.go: the channel of failures.
use agentops_go.Prelude.{
  ℕ, suc, ◌+◌, ◌-◌, ◌≤◌, ◌<◌, Bool, true, false, not, some, ◌==◌, if◌then◌else◌, ◌≡◌, refl, ap,
  subst, inl, inr, Bool-cases, arith,
}
use agentops_go.PostgresRuntime.{
  LifecycleState, Runtime, Outcome, mark_startup_failed, start_monitoring, stop_accepting_writes,
  begin_closing, close_migration_connection, finish_closing, mark_lost, report_failure,
  begin_waiting, take_token, end_waiting, try_acquire_gate, release_gate,
}
use agentops_go.PostgresRuntime.Schedule.{World, initial, Step, Steps}

-- How many failures are sent, or on their way, in a state: none while it lives, one when it is lost.
abbrev pub Sent : LifecycleState → ℕ → Type 0
Sent LifecycleState.lost n = n ≡ 1
Sent LifecycleState.closing n = n ≤ 1
Sent LifecycleState.closed n = n ≤ 1
Sent _ n = n ≡ 0

-- The failures that were sent, with those that are still to be sent.
pub record Reported (w : World) : Type 0 where
  pub none_dropped : w.runtime.dropped ≡ 0
  pub sent : Sent w.runtime.state (w.runtime.failures + w.reporting)

-- The buffer is taken by a failure that was sent.
abbrev Buffered : Runtime → Type 0
Buffered r = r.failure ≡ true → 0 < r.failures

abbrev Sound : Runtime → ℕ → Type 0
Sound r n = (r.dropped ≡ 0) × Sent r.state (r.failures + n) × Buffered r

mark_lost-Sound :
    (r : Runtime) (n : ℕ)
    → Sound r n
    → Sound ((mark_lost r).0) (if (mark_lost r).1 then suc n else n)
unfolding mark_lost
mark_lost-Sound r n h = ground arith

report_failure-Sound : (r : Runtime) (n : ℕ) → Sound r (suc n) → Sound (report_failure r) n
unfolding report_failure
report_failure-Sound r n h = ground arith

-- The failures that are to be sent behind `StartMonitoring`.
abbrev after_monitoring : ℕ → Outcome → ℕ
after_monitoring n Outcome.disconnected = suc n
after_monitoring n _ = n

start_monitoring-Sound :
    (r : Runtime) (n : ℕ)
    → Sound r n
    → Sound ((start_monitoring r).0) (after_monitoring n ((start_monitoring r).1))
unfolding start_monitoring
start_monitoring-Sound r n h = ground arith

lost-Sound :
    (r s : Runtime) (b : Bool) (n : ℕ)
    → mark_lost r ≡ (s, b)
    → Sound r n
    → Sound s (if b then suc n else n)
lost-Sound r s b n k h = subst (λ x. Sound x.0 (if x.1 then suc n else n)) k (mark_lost-Sound r n h)

monitoring-Sound :
    (r s : Runtime) (o : Outcome) (n : ℕ)
    → start_monitoring r ≡ (s, o)
    → Sound r n
    → Sound s (after_monitoring n o)
monitoring-Sound r s o n k h =
    subst (λ x. Sound x.0 (after_monitoring n x.1)) k (start_monitoring-Sound r n h)

mark_startup_failed-Sound : (r : Runtime) (n : ℕ) → Sound r n → Sound (mark_startup_failed r) n
unfolding mark_startup_failed
mark_startup_failed-Sound r n h = ground arith

begin_closing-Sound : (r : Runtime) (n : ℕ) → Sound r n → Sound ((begin_closing r).0) n
unfolding begin_closing
begin_closing-Sound r n h = ground arith

finish_closing-Sound :
    (r : Runtime) (n : ℕ)
    → r.state ≡ LifecycleState.closing
    → Sound r n
    → Sound (finish_closing r) n
unfolding finish_closing
finish_closing-Sound r n e h = ground arith

Sound-if :
    (n : ℕ) (b : Bool) (x y : Runtime × Bool)
    → Sound x.0 n
    → Sound y.0 n
    → Sound ((if b then x else y).0) n
Sound-if n true x y h k = h
Sound-if n false x y h k = k

try_acquire_gate-Sound : (r : Runtime) (n : ℕ) → Sound r n → Sound ((try_acquire_gate r).0) n
unfolding try_acquire_gate
try_acquire_gate-Sound r n h =
    Sound-if n (not (r.gate_waiters == 0)) (r, false)
      (if r.gate == 0 then (r, false) else (record r { gate = r.gate - 1 }, true)) h
      (Sound-if n (r.gate == 0) (r, false) (record r { gate = r.gate - 1 }, true) h h)

take_token-Sound : (r s : Runtime) (n : ℕ) → take_token r ≡ some s → Sound r n → Sound s n
unfolding take_token
take_token-Sound r s n h k = elim (Bool-cases (r.gate == 0)) [
  | inl e ↦ ground (arith, e, h)
  | inr e ↦
      subst (λ x. Sound x n) {x = record r { gate = r.gate - 1 }} {y = s} (ground (arith, e, h)) k
]

release_gate-Sound : (r s : Runtime) (n : ℕ) → release_gate r ≡ some s → Sound r n → Sound s n
unfolding release_gate
release_gate-Sound r s n h k = elim (Bool-cases (r.gate == 0)) [
  | inl e ↦ subst (λ x. Sound x n) {x = record r { gate = 1 }} {y = s} (ground (arith, e, h)) k
  | inr e ↦ ground (arith, e, h)
]

Step-Sound : (u v : World) → Step u v → Sound u.runtime u.reporting → Sound v.runtime v.reporting
unfolding begin_waiting end_waiting stop_accepting_writes close_migration_connection
Step-Sound _ _ (Step.check w h) e = e
Step-Sound _ _ (Step.writer_waits w m h) e = e
Step-Sound _ _ (Step.writer_tries w m r h k) e =
    subst (λ x. Sound x w.reporting) (ap (λ x. x.0) k)
      (try_acquire_gate-Sound w.runtime w.reporting e)
Step-Sound _ _ (Step.writer_fails w m r h k) e =
    subst (λ x. Sound x w.reporting) (ap (λ x. x.0) k)
      (try_acquire_gate-Sound w.runtime w.reporting e)
Step-Sound _ _ (Step.other_waits w) e = e
Step-Sound _ _ (Step.writer_takes w m r h k) e = take_token-Sound w.runtime r w.reporting k e
Step-Sound _ _ (Step.other_takes w m r h k) e = take_token-Sound w.runtime r w.reporting k e
Step-Sound _ _ (Step.writer_gives_up w m h) e = e
Step-Sound _ _ (Step.other_gives_up w m h) e = e
Step-Sound _ _ (Step.writer_holds w m h) e = e
Step-Sound _ _ (Step.other_holds w m h) e = e
Step-Sound _ _ (Step.leaves w m h) e = e
Step-Sound _ _ (Step.admit w m h k) e = e
Step-Sound _ _ (Step.refuse w m h k) e = e
Step-Sound _ _ (Step.refuse_disconnected w m h k) e = e
Step-Sound _ _ (Step.finish w m r h k) e = release_gate-Sound w.runtime r w.reporting k e
Step-Sound _ _ (Step.other_finishes w m r h k) e = release_gate-Sound w.runtime r w.reporting k e
Step-Sound _ _ (Step.require w s h) e = e
Step-Sound _ _ (Step.observe w h) e = e
Step-Sound _ _ (Step.miss w) e = e
Step-Sound _ _ (Step.lose w m r h k) e = lost-Sound w.runtime r true w.reporting k e
Step-Sound _ _ (Step.lose_again w m r h k) e = lost-Sound w.runtime r false w.reporting k e
Step-Sound _ _ (Step.report w m h) e =
    report_failure-Sound w.runtime m (subst (Sound w.runtime) h e)
Step-Sound _ _ (Step.fail_startup w) e = mark_startup_failed-Sound w.runtime w.reporting e
Step-Sound _ _ (Step.monitor w r h) e =
    monitoring-Sound w.runtime r Outcome.succeeded w.reporting h e
Step-Sound _ _ (Step.monitor_refused w r h) e =
    monitoring-Sound w.runtime r Outcome.refused w.reporting h e
Step-Sound _ _ (Step.monitor_disconnected w r h) e =
    monitoring-Sound w.runtime r Outcome.disconnected w.reporting h e
Step-Sound _ _ (Step.stop w) e = e
Step-Sound _ _ (Step.begin_close w h) e = begin_closing-Sound w.runtime w.reporting e
Step-Sound _ _ (Step.close_migration w) e = e
Step-Sound _ _ (Step.end_close w h) e = finish_closing-Sound w.runtime w.reporting h e
Step-Sound _ _ (Step.disconnect w) e = e
Step-Sound _ _ (Step.receive w) (a, b, c) = (a, b, λ h. absurd (ground arith))

Steps-Sound : (u v : World) → Steps u v → Sound u.runtime u.reporting → Sound v.runtime v.reporting
Steps-Sound _ _ (Steps.done w) e = e
Steps-Sound _ _ (Steps.then u v w h s) e = Step-Sound v w s (Steps-Sound u v h e)

-- In every state that any interleaving reaches, no failure was dropped for want of room. Those that were
-- sent, with those that a goroutine has still to send, are none while the Runtime is open, monitored or has
-- failed to start, exactly one once the lock is lost, and at most one when it closes.
pub reachable-Reported : (w : World) → Steps initial w → Reported w
reachable-Reported w h =
    let (dropped, sent, _) = Steps-Sound initial w h (refl, refl, λ e. absurd (ground arith)) in
    record { none_dropped = dropped; sent = sent }
