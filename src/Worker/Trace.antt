-- ===== src/Worker/Trace.antt =====
-- The order of the calls that the Worker loop makes on the Task Runtime port.
use mathlib.Core.List.{append-nil}
use agentops_go.Prelude.{
  ◌≡◌, ◌≢◌, ◌<◌, subst, true, Option, none, some, List, [], ◌∷◌, ◌++◌, arith, text_eq_iff,
  Bool-cases, Option-cases, inl, inr,
}
use agentops_go.Contracts.Execution.{ExecutionClaim, ClaimResult}
use agentops_go.Worker.{
  Worker, Round, Call, ContextView, Returned, claim_accepted, claimed_turn, answered, turn, loop,
  run,
}

-- A complete claim that was issued to this Worker.
pub record OwnClaim (w : Worker) (c : ExecutionClaim) : Type 0 where
  pub task : c.task_id ≢ ""
  pub run : c.run_id ≢ ""
  pub version : 0 < c.execution_version
  pub named : c.worker_id ≢ ""
  pub own : c.worker_id ≡ w.worker_id

-- One slot: every execution and every wait follows a claim of its own, under the Worker's name, and
-- only a claim that is the Worker's own is executed.
pub data Serial (w : Worker) : List Call → Type 0 where
  nothing : Serial w []
  claiming : {cs : List Call} → Serial w cs → Serial w (Call.claims w.worker_id ∷ cs)
  waiting :
      {cs : List Call}
      → Serial w cs
      → Serial w (Call.claims w.worker_id ∷ Call.waits w.poll_interval ∷ cs)
  executing :
      {c : ExecutionClaim} {cs : List Call}
      → OwnClaim w c
      → Serial w cs
      → Serial w (Call.claims w.worker_id ∷ Call.executes c ∷ cs)

OwnClaim-of_accepted : (w : Worker) (c : ExecutionClaim) → claim_accepted w c ≡ true → OwnClaim w c
unfolding claim_accepted
OwnClaim-of_accepted w c h = record {
  task = λ e. ground (arith, text_eq_iff c.task_id "");
  run = λ e. ground (arith, text_eq_iff c.run_id "");
  version = ground arith;
  named = λ e. ground (arith, text_eq_iff c.worker_id "");
  own = ground (arith, text_eq_iff c.worker_id w.worker_id);
}

claimed_turn-Serial :
    (w : Worker) (t : Round) (c : ExecutionClaim) (cs : List Call)
    → Serial w cs
    → Serial w ((claimed_turn w t c).0 ++ cs)
unfolding claimed_turn
claimed_turn-Serial w t c cs s = elim (Bool-cases (claim_accepted w c)) [
  | inl own ↦ rw own (Serial.executing (OwnClaim-of_accepted w c own) s)
  | inr other ↦ rw other (Serial.claiming s)
]

answered-Serial :
    (w : Worker) (t : Round) (a : Returned ClaimResult) (cs : List Call)
    → Serial w cs
    → Serial w ((answered w t a).0 ++ cs)
unfolding answered
answered-Serial w t Returned.nil cs s = Serial.claiming s
answered-Serial w t Returned.foreign cs s = Serial.claiming s
answered-Serial w t (Returned.result (ClaimResult.claimed c)) cs s = claimed_turn-Serial w t c cs s
answered-Serial w t (Returned.result ClaimResult.no_work) cs s = Serial.waiting s
answered-Serial w t (Returned.result _) cs s = Serial.claiming s

turn-Serial :
    (w : Worker) (t : Round) (cs : List Call) → Serial w cs → Serial w ((turn w t).0 ++ cs)
unfolding turn
turn-Serial w t cs s = elim (Option-cases t.claim_error) [
  | inl e ↦ rw (e, turn) (answered-Serial w t t.claim_result cs s)
  | inr (x, e) ↦ rw (e, turn) (Serial.claiming s)
]

-- However the port, the context and the timer behave, the calls of the loop are serial.
pub loop-Serial : (w : Worker) (ts : List Round) → Serial w (loop w ts).0
unfolding loop
loop-Serial w [] = Serial.nothing
loop-Serial w (t ∷ ts) = elim (Option-cases (turn w t).1) [
  | inl e ↦ rw (e, loop) (turn-Serial w t (loop w ts).0 (loop-Serial w ts))
  | inr (x, e) ↦ rw (e, loop) (subst (Serial w) (append-nil _) (turn-Serial w t [] Serial.nothing))
]

-- `Run` makes no other calls than its loop.
pub run-Serial :
    (w : Worker) (ctx : Option ContextView) (ts : List Round) → Serial w (run w ctx ts).1.0
unfolding run
run-Serial w none ts = Serial.nothing
run-Serial w (some (ContextView.done c)) ts = elim (Bool-cases w.started) [
  | inl old ↦ simp old Serial.nothing
  | inr new ↦ simp new Serial.nothing
]
run-Serial w (some ContextView.live) ts = elim (Bool-cases w.started) [
  | inl old ↦ simp old Serial.nothing
  | inr new ↦ simp new (loop-Serial w ts)
]
