-- ===== src/TaskRuntime/Claim/Granted.antt =====
-- What a claim that `ClaimNextExecution` returns says of the candidate and of the tables.
use agentops_go.Prelude.{
  ℕ, String, List, Bool, true, false, none, some, ◌≡◌, refl, sym, subst, ap, ◌∙◌, arith, not, ◌||◌,
  text_eq, Bool-cases, inl, inr,
}
use agentops_go.Contracts.Status.{TaskStatus, RunStatus, ExecutionStatus, task_status_eq}
use agentops_go.Contracts.Execution.{ClaimResult, ExecutionClaim}
use agentops_go.TaskRuntime.Entity.{Task, Run, TaskExecution, QueueCandidate}
use agentops_go.TaskRuntime.Store.Transaction.{TxError, Result, ok, err, Tables, PortWrite, execute}
use agentops_go.TaskRuntime.Ports.{
  Ports, RuntimeCheckpoint, ClaimCheckpointSource, ask, save_generate_plan_checkpoint,
}
use agentops_go.TaskRuntime.Claim.{ClaimFacts, lock_claim_facts}
use agentops_go.TaskRuntime.Claim.Writes.{commit_claim}
use agentops_go.TaskRuntime.Claim.Service.{claimed, claim_candidate, save_first_checkpoint}
use agentops_go.TaskRuntime.Claim.Reconcile.{claim_next_execution, claim_head, after_first}
use agentops_go.TaskRuntime.Store.Queue.{lock_next_queue_candidate}
use agentops_go.TaskRuntime.Claim.Settlements.{Agree, claimed_tables, commit_claim_lem}
use agentops_go.TaskRuntime.Claim.Progress.{Keyed, lock_claim_facts_lem}
use agentops_go.TaskRuntime.Claim.Commit.{Due, Agree-valid, ValidFacts-valid, Locked-rows}
use agentops_go.TaskRuntime.Claim.Claimed.{
  ClaimedBy, claimed_task_row, claimed_run_row, claimed_execution_row, saved-ClaimedBy, claim,
}
use agentops_go.TaskRuntime.Claim.Grant.{
  GrantsOnly, GrantsOnly-read, Agreed, settle-GrantsOnly, ask-same, ask_answer,
}
use agentops_go.TaskRuntime.Claim.Ungranted.{reconcile_miss-Never}
use agentops_go.TaskRuntime.Claim.Progress.{lock_next-same}
use agentops_go.TaskRuntime.Store.Blocks.{after-eq_ok}

-- The execution runs under the worker, and its task and run are running and off the queue.
pub record Running (worker : String) (f : ClaimFacts) (s' : Tables) : Type 0 where
  pub task : Task
  pub task_at : s'.task f.task.task_id ≡ some task
  pub task_runs : task.status ≡ TaskStatus.running
  pub unqueued : task.queued_at ≡ none
  pub run : Run
  pub run_at : s'.run f.task.task_id ≡ some run
  pub run_runs : run.status ≡ RunStatus.running
  pub execution : TaskExecution
  pub execution_at : s'.execution f.task.task_id f.execution.execution_version ≡ some execution
  pub execution_runs : execution.status ≡ ExecutionStatus.running
  pub owner : execution.worker_id ≡ some worker

rows-Running :
    (worker : String) (s : Tables) (f : ClaimFacts) (now : ℕ) (pending : Bool) (s' : Tables)
    → Agree f pending
    → ClaimedBy worker s f now pending s'
    → Running worker f s'
rows-Running worker s f now true s' a c = record {
  task = claimed_task_row worker s f now true;
  task_at = c.rows.task_row;
  task_runs = refl;
  unqueued = refl;
  run = claimed_run_row worker s f now true;
  run_at = c.rows.run_row;
  run_runs = refl;
  execution = claimed_execution_row worker s f now;
  execution_at = c.rows.execution_row;
  execution_runs = refl;
  owner = refl;
}
rows-Running worker s f now false s' a c = record {
  task = claimed_task_row worker s f now false;
  task_at = c.rows.task_row;
  task_runs = a.0;
  unqueued = refl;
  run = claimed_run_row worker s f now false;
  run_at = c.rows.run_row;
  run_runs = a.1;
  execution = claimed_execution_row worker s f now;
  execution_at = c.rows.execution_row;
  execution_runs = refl;
  owner = refl;
}

-- The grant of a claim: what was locked and found, and what the tables hold then.
pub record Granted (p : Ports) (worker : String) (s : Tables) (c : QueueCandidate)
    (k : ExecutionClaim) (s' : Tables) : Type 0 where
  pub facts : ClaimFacts
  pub now : ℕ
  pub due : Due p s c facts now
  pub src : ClaimCheckpointSource
  pub checkpoint : RuntimeCheckpoint
  pub agreed : Agreed p s facts src checkpoint
  pub same_claim : ClaimResult.claimed k ≡ claim worker s facts now
  pub tables : ClaimedBy worker s facts now (task_status_eq facts.task.status TaskStatus.pending) s'
  pub running : Running worker facts s'

lock_claim_facts-same :
    (s : Tables) (c : QueueCandidate) (f : ClaimFacts) (s1 : Tables)
    → lock_claim_facts c s ≡ ok (f, s1)
    → s1 ≡ s
lock_claim_facts-same s c f s1 h = (lock_claim_facts_lem s s1 c f h).3

state_inj :
    {A : Type 0} {a b : A} {s s' : Tables}
    → ◌≡◌ {A = Result (A × Tables)} (ok (a, s)) (ok (b, s'))
    → s ≡ s'
state_inj h = ground arith

value_inj :
    {A : Type 0} {a b : A} {s s' : Tables}
    → ◌≡◌ {A = Result (A × Tables)} (ok (a, s)) (ok (b, s'))
    → a ≡ b
value_inj h = ground arith

module _ (p : Ports) (worker : String) (s : Tables) (c : QueueCandidate) (keyed : Keyed s)
    (f : ClaimFacts) (now : ℕ) (due : Due p s c f now) where
  saved_any :
      (src : ClaimCheckpointSource) (k : RuntimeCheckpoint) (s1 s' : Tables) (u : Unit {0})
      → save_first_checkpoint p f src k s1 ≡ ok (u, s')
      → (cs : List PortWrite) × (s' ≡ record s1 { checkpoints = cs })
  unfolding save_first_checkpoint save_generate_plan_checkpoint
  saved_any src k s1 s' u h = (s'.checkpoints, ground arith)

  claimed-Granted :
      (src : ClaimCheckpointSource) (k : RuntimeCheckpoint)
      → Agreed p s f src k
      → GrantsOnly s (Granted p worker s c) (claimed p worker f now src k)
  unfolding claimed
  claimed-Granted src k agreed = record {
    at = λ e s' h.
        let v = ValidFacts-valid c f due.valid in
        let pending = task_status_eq f.task.status TaskStatus.pending in
        let agree = Agree-valid c f pending refl due.valid in
        let l = Locked-rows s c f keyed due.locked v in
        let s1 = claimed_tables s f now worker pending in
        let committed = commit_claim_lem s f now worker pending l v.execution_queued agree in
        let (_, s2, h2, k2) = after-eq_ok (commit_claim f now worker s) _ h in
        let (_, s3, h3, k3) = after-eq_ok (save_first_checkpoint p f src k s2) _ k2 in
        let (cs, only) = saved_any src k s2 s3 _ h3 in
        let path =
          sym (state_inj k3)
          ∙ only
          ∙ ap {A = Tables} (λ x. record x { checkpoints = cs }) (state_inj (sym h2 ∙ committed)) in
        let rows =
          subst (ClaimedBy worker s f now pending) (sym path)
            (saved-ClaimedBy worker s f now pending cs l) in
        record {
          facts = f;
          now = now;
          due = due;
          src = src;
          checkpoint = k;
          agreed = agreed;
          same_claim = sym (value_inj k3);
          tables = rows;
          running = rows-Running worker s f now pending s' agree rows;
        };
  }

module _ (p : Ports) (worker : String) (s : Tables) (c : QueueCandidate) (keyed : Keyed s) where
  claim_candidate-Granted : GrantsOnly s (Granted p worker s c) (claim_candidate p worker c)
  unfolding claim_candidate
  claim_candidate-Granted =
      GrantsOnly-read (lock_claim_facts c) _ (lock_claim_facts-same s c) λ f locked.
        GrantsOnly-read (ask p.now) _ (ask-same p.now s) λ now clock.
          settle-GrantsOnly p f now c (claimed p worker f now) λ src k valid in_time agreed.
            claimed-Granted p worker s c keyed f now
              (record {
                locked = locked;
                clock = ask_answer p.now s now clock;
                valid = valid;
                in_time = in_time;
              })
              src k agreed

module _ (p again : Ports) (between : Tables → Tables) (worker : String) (s s' : Tables)
    (k : ExecutionClaim) (keyed : Keyed s) where
  after_first-Granted :
      (c : QueueCandidate) (x : Result (ClaimResult × Tables))
      → claim_candidate p worker c s ≡ x
      → after_first again between c (execute (claim_candidate p worker c) s)
        ≡ (ok (ClaimResult.claimed k), s')
      → Granted p worker s c k s'
  unfolding after_first execute
  after_first-Granted c (ok (r1, s1)) e h =
      (claim_candidate-Granted p worker s c keyed).at k s' (ground arith)
  after_first-Granted c (err TxError.condition_miss) e h =
      absurd (reconcile_miss-Never again c (between s) k s' (ground arith))
  after_first-Granted c (err _) e h = absurd (ground arith)

  head-Granted :
      (x : Result (QueueCandidate × Tables))
      → lock_next_queue_candidate p.id_before s ≡ x
      → claim_head p again between worker s x ≡ (ok (ClaimResult.claimed k), s')
      → (c : QueueCandidate) × (lock_next_queue_candidate p.id_before s ≡ ok (c, s))
        × Granted p worker s c k s'
  unfolding claim_head
  head-Granted (err TxError.not_found) e h = absurd (ground arith)
  head-Granted (err _) e h = absurd (ground arith)
  head-Granted (ok (c, s1)) e h = (
    c,
    e ∙ ap (λ x. ok (c, x)) (lock_next-same p.id_before s s1 c e),
    after_first-Granted c _ refl h,
  )

  -- When ClaimNextExecution returns a claim, over rows that stand under their keys, it is a claim of
  -- the head of the queue, whose facts were in order and whose deadline was not reached, with a valid
  -- checkpoint and with equal hashes of the execution, the checkpoint and the current configuration.
  -- That checkpoint is the one that was loaded for the source of the claim. Then its execution runs
  -- under this worker, its task and run are running, the task has left the queue, and the rows of all other tasks are unchanged. The second transaction never grants a claim.
  pub claim_next_execution-Granted :
      (runtime_worker : String)
      → claim_next_execution p again between runtime_worker worker s
        ≡ (ok (ClaimResult.claimed k), s')
      → (c : QueueCandidate) × (lock_next_queue_candidate p.id_before s ≡ ok (c, s))
        × Granted p worker s c k s'
  unfolding claim_next_execution
  claim_next_execution-Granted runtime_worker h =
      elim (Bool-cases (text_eq worker "" || not (text_eq worker runtime_worker))) [
        | inl refused ↦ absurd (ground arith)
        | inr own ↦ head-Granted _ refl (ground arith)
      ]
