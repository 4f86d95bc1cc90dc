-- ===== src/PostgresRuntime/Exclusive.antt =====
-- internal/adapter/postgres/runtime/runtime.go: the gate and its waiters.
use agentops_go.Prelude.{ℕ, suc, ◌+◌, ◌<◌, Bool, true, false, some, ◌≡◌, refl, arith}
use agentops_go.PostgresRuntime.{
  Runtime, Outcome, mark_startup_failed, start_monitoring, stop_accepting_writes, begin_closing,
  close_migration_connection, finish_closing, mark_lost, report_failure, begin_waiting, take_token,
  end_waiting, try_acquire_gate, release_gate,
}
use agentops_go.PostgresRuntime.Schedule.{World, initial, Step, Steps}

-- A section that leaves the gate alone.
abbrev SameGate : Runtime → Runtime → Type 0
SameGate r s = (s.gate ≡ r.gate) × (s.gate_waiters ≡ r.gate_waiters)

report_failure-SameGate : (r : Runtime) → SameGate r (report_failure r)
unfolding report_failure
report_failure-SameGate r = ground arith

mark_lost-SameGate : (r s : Runtime) (b : Bool) → mark_lost r ≡ (s, b) → SameGate r s
unfolding mark_lost
mark_lost-SameGate r s b h = ground arith

start_monitoring-SameGate :
    (r s : Runtime) (o : Outcome) → start_monitoring r ≡ (s, o) → SameGate r s
unfolding start_monitoring
start_monitoring-SameGate r s o h = ground arith

-- One token: in the gate, taken, or with who holds the gate. The waiters are counted.
pub record Exclusive (w : World) : Type 0 where
  pub token :
      w.runtime.gate + w.taken_writers + w.taken_others + w.holding_writers + w.holding_others
        + w.admitted
      ≡ 1
  pub waiters :
      w.runtime.gate_waiters
      ≡ w.waiting_writers + w.waiting_others + w.taken_writers + w.taken_others + w.leaving

-- The same goroutines around the same gate.
same_gate :
    (w : World) (r : Runtime) (l p : ℕ)
    → SameGate w.runtime r
    → Exclusive w
    → Exclusive (record w { runtime = r; losing = l; reporting = p })
same_gate w r l p h e = record {
  token = omega (arith, e.token, h);
  waiters = omega (arith, e.waiters, h);
}

take_token_lem :
    (r s : Runtime)
    → take_token r ≡ some s
    → (r.gate ≡ suc s.gate) × (s.gate_waiters ≡ r.gate_waiters)
unfolding take_token
take_token_lem r s h = ground arith

try_acquire_gate_lem :
    (r s : Runtime)
    → try_acquire_gate r ≡ (s, true)
    → (r.gate ≡ suc s.gate) × (s.gate_waiters ≡ 0) × (r.gate_waiters ≡ 0)
unfolding try_acquire_gate
try_acquire_gate_lem r s h = ground arith

try_acquire_gate_none : (r s : Runtime) → try_acquire_gate r ≡ (s, false) → SameGate r s
unfolding try_acquire_gate
try_acquire_gate_none r s h = ground arith

release_gate_lem :
    (r s : Runtime)
    → release_gate r ≡ some s
    → (r.gate ≡ 0) × (s.gate ≡ 1) × (s.gate_waiters ≡ r.gate_waiters)
unfolding release_gate
release_gate_lem r s h = ground arith

Step-Exclusive : (u v : World) → Step u v → Exclusive u → Exclusive v
unfolding begin_waiting end_waiting mark_startup_failed stop_accepting_writes begin_closing
    close_migration_connection finish_closing
Step-Exclusive _ _ (Step.check w h) e = record { token = e.token; waiters = e.waiters }
Step-Exclusive _ _ (Step.writer_waits w n h) e = record {
  token = e.token;
  waiters = omega (arith, e.waiters);
}
Step-Exclusive _ _ (Step.writer_tries w n r h k) e =
    let f = try_acquire_gate_lem w.runtime r k in
    record { token = omega (arith, e.token, f); waiters = omega (arith, e.waiters, f) }
Step-Exclusive _ _ (Step.writer_fails w n r h k) e =
    let f = try_acquire_gate_none w.runtime r k in
    record { token = omega (arith, e.token, f); waiters = omega (arith, e.waiters, f) }
Step-Exclusive _ _ (Step.other_waits w) e = record {
  token = e.token;
  waiters = omega (arith, e.waiters);
}
Step-Exclusive _ _ (Step.writer_takes w n r h k) e =
    let f = take_token_lem w.runtime r k in
    record { token = omega (arith, e.token, f); waiters = omega (arith, e.waiters, f, h) }
Step-Exclusive _ _ (Step.other_takes w n r h k) e =
    let f = take_token_lem w.runtime r k in
    record { token = omega (arith, e.token, f); waiters = omega (arith, e.waiters, f, h) }
Step-Exclusive _ _ (Step.writer_gives_up w n h) e = record {
  token = e.token;
  waiters = omega (arith, e.waiters, h);
}
Step-Exclusive _ _ (Step.other_gives_up w n h) e = record {
  token = e.token;
  waiters = omega (arith, e.waiters, h);
}
Step-Exclusive _ _ (Step.writer_holds w n h) e = record {
  token = omega (arith, e.token, h);
  waiters = omega (arith, e.waiters, h);
}
Step-Exclusive _ _ (Step.other_holds w n h) e = record {
  token = omega (arith, e.token, h);
  waiters = omega (arith, e.waiters, h);
}
Step-Exclusive _ _ (Step.leaves w n h) e = record {
  token = e.token;
  waiters = omega (arith, e.waiters, h);
}
Step-Exclusive _ _ (Step.admit w n h k) e = record {
  token = omega (arith, e.token, h);
  waiters = e.waiters;
}
Step-Exclusive _ _ (Step.refuse w n h k) e = record {
  token = omega (arith, e.token, h);
  waiters = e.waiters;
}
Step-Exclusive _ _ (Step.refuse_disconnected w n h k) e = record {
  token = omega (arith, e.token, h);
  waiters = e.waiters;
}
Step-Exclusive _ _ (Step.finish w n r h k) e =
    let f = release_gate_lem w.runtime r k in
    record { token = omega (arith, e.token, f, h); waiters = omega (arith, e.waiters, f) }
Step-Exclusive _ _ (Step.other_finishes w n r h k) e =
    let f = release_gate_lem w.runtime r k in
    record { token = omega (arith, e.token, f, h); waiters = omega (arith, e.waiters, f) }
Step-Exclusive _ _ (Step.require w s h) e = record { token = e.token; waiters = e.waiters }
Step-Exclusive _ _ (Step.observe w h) e = record { token = e.token; waiters = e.waiters }
Step-Exclusive _ _ (Step.miss w) e = record { token = e.token; waiters = e.waiters }
Step-Exclusive _ _ (Step.lose w n r h k) e =
    same_gate w r n (suc w.reporting) (mark_lost-SameGate w.runtime r true k) e
Step-Exclusive _ _ (Step.lose_again w n r h k) e =
    same_gate w r n w.reporting (mark_lost-SameGate w.runtime r false k) e
Step-Exclusive _ _ (Step.report w n h) e =
    same_gate w (report_failure w.runtime) w.losing n (report_failure-SameGate w.runtime) e
Step-Exclusive _ _ (Step.fail_startup w) e = record { token = e.token; waiters = e.waiters }
Step-Exclusive _ _ (Step.monitor w r h) e =
    same_gate w r w.losing w.reporting (start_monitoring-SameGate w.runtime r Outcome.succeeded h) e
Step-Exclusive _ _ (Step.monitor_refused w r h) e =
    same_gate w r w.losing w.reporting (start_monitoring-SameGate w.runtime r Outcome.refused h) e
Step-Exclusive _ _ (Step.monitor_disconnected w r h) e =
    same_gate w r w.losing (suc w.reporting)
      (start_monitoring-SameGate w.runtime r Outcome.disconnected h) e
Step-Exclusive _ _ (Step.stop w) e = record { token = e.token; waiters = e.waiters }
Step-Exclusive _ _ (Step.begin_close w h) e = record { token = e.token; waiters = e.waiters }
Step-Exclusive _ _ (Step.close_migration w) e = record { token = e.token; waiters = e.waiters }
Step-Exclusive _ _ (Step.end_close w h) e = record { token = e.token; waiters = e.waiters }
Step-Exclusive _ _ (Step.disconnect w) e = record { token = e.token; waiters = e.waiters }
Step-Exclusive _ _ (Step.receive w) e = record { token = e.token; waiters = e.waiters }

Steps-Exclusive : (u v : World) → Steps u v → Exclusive u → Exclusive v
Steps-Exclusive _ _ (Steps.done w) e = e
Steps-Exclusive _ _ (Steps.then u v w h s) e = Step-Exclusive v w s (Steps-Exclusive u v h e)

-- What the gate is to give: one transaction at most, with nobody else at the gate; a holder that can
-- release it at once; and a TryExecute that leaves the gate to who waits for it or holds it.
pub record Serial (w : World) : Type 0 where
  pub alone :
      0 < w.admitted
      → (w.admitted ≡ 1)
        × (w.holding_writers + w.holding_others + w.taken_writers + w.taken_others ≡ 0)
  pub releases :
      0 < w.holding_others + w.admitted → (r : Runtime) × (release_gate w.runtime ≡ some r)
  pub yields :
      (r : Runtime)
      → try_acquire_gate w.runtime ≡ (r, true)
      → w.waiting_writers + w.waiting_others + w.holding_writers + w.holding_others + w.admitted ≡ 0

release_gate_free : (r : Runtime) → r.gate ≡ 0 → (s : Runtime) × (release_gate r ≡ some s)
unfolding release_gate
release_gate_free r h = (record r { gate = 1 }, ground arith)

-- In every state that any interleaving reaches, at most one transaction is admitted, and then nobody
-- else holds the gate or has taken its token; who holds the gate can release it without waiting; and
-- TryExecute succeeds only if nobody waits for the gate or holds it.
pub reachable-Serial : (w : World) → Steps initial w → Serial w
reachable-Serial w h =
    let e = Steps-Exclusive initial w h (record { token = refl; waiters = refl }) in
    record {
      alone = λ p. (omega (arith, e.token, p), omega (arith, e.token, p));
      releases = λ p. release_gate_free w.runtime (omega (arith, e.token, p));
      yields =
          λ r k. let f = try_acquire_gate_lem w.runtime r k in omega (arith, e.token, e.waiters, f);
    }
