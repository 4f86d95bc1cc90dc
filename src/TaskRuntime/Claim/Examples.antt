-- ===== src/TaskRuntime/Claim/Examples.antt =====
-- Instances of the theorems on the queue and on a claim.
use agentops_go.Prelude.{
  ℕ, String, [], ◌∷◌, true, false, none, some, ◌≡◌, refl, sym, ap, ◌∙◌, arith, if◌then◌else◌, ◌&&◌,
  text_eq, text_eq_iff, ◌⊎◌, ◌==◌,
}
use agentops_go.Contracts.Status.{TaskStatus, RunStatus, ExecutionStatus, task_status_eq}
use agentops_go.Contracts.Execution.{ClaimResult, ExecutionClaim}
use agentops_go.Contracts.Hash.{hash_valid}
use agentops_go.TaskRuntime.Entity.{Task, Run, TaskExecution, QueueCandidate}
use agentops_go.TaskRuntime.Store.Transaction.{TxError, Result, ok, err, Tables}
use agentops_go.TaskRuntime.Ports.{
  Ports, AgentRuntimeConfig, RuntimeCheckpoint, ClaimCheckpointSource, ClaimCheckpointResult,
  EnsurePendingReportResult,
}
use agentops_go.TaskRuntime.Claim.{
  ClaimFacts, lock_claim_facts, validate_claim_facts, classify_claim_source, checkpoint_matches,
}
use agentops_go.TaskRuntime.Claim.Service.{same_hashes}
use agentops_go.TaskRuntime.Claim.Reconcile.{claim_next_execution}
use agentops_go.TaskRuntime.Store.Queue.{lock_next_queue_candidate}
use agentops_go.TaskRuntime.Claim.Progress.{Keyed}
use agentops_go.TaskRuntime.Claim.Commit.{Due, Checked}
use agentops_go.TaskRuntime.Claim.Claimed.{ClaimedBy, claim}
use agentops_go.TaskRuntime.Claim.Outcome.{Head}
use agentops_go.TaskRuntime.Claim.Ended.{Late, claim_next_execution-expires, TimedOut}
use agentops_go.TaskRuntime.Claim.Mismatch.{claim_next_execution-interrupts, InterruptedRows}
use agentops_go.TaskRuntime.Claim.Outcome.{claim_next_execution-claims}
use agentops_go.TaskRuntime.Claim.Progress.{claim_next_execution-Unqueued}
use agentops_go.TaskRuntime.Claim.Dequeue.{Unqueued}
use agentops_go.TaskRuntime.Store.Queue.{earliest, candidate, StrictWeak, candidates}
use agentops_go.TaskRuntime.Store.Queue.Fifo.{Foremost, lock_next_queue_candidate_fifo}
use agentops_go.Contracts.Execution.{CheckpointNextAction}
use agentops_go.TaskRuntime.Claim.Granted.{Granted, claim_next_execution-Granted}

abbrev the_hash : String
the_hash = "aaaaaaaaaaaaaaaaaaaaaaaaaaaaaaaaaaaaaaaaaaaaaaaaaaaaaaaaaaaaaaaa"

abbrev other_hash : String
other_hash = "bbbbbbbbbbbbbbbbbbbbbbbbbbbbbbbbbbbbbbbbbbbbbbbbbbbbbbbbbbbbbbbb"

-- A pending task in its first execution, queued at 10 with the deadline 100.
abbrev the_task : Task
the_task = record {
  task_id = "t1";
  agent_id = "a1";
  created_by = "u1";
  input = "hello";
  status = TaskStatus.pending;
  current_run_id = "r1";
  current_execution_version = 1;
  result_summary = none;
  error_code = none;
  deadline_at = 100;
  queued_at = some 10;
  created_at = 9;
  started_at = none;
  ended_at = none;
}

abbrev the_run : Run
the_run = record {
  run_id = "r1";
  task_id = "t1";
  status = RunStatus.pending;
  plan_id = none;
  current_step_id = none;
  context = "{}";
  error_code = none;
  started_at = none;
  ended_at = none;
}

abbrev the_execution : TaskExecution
the_execution = record {
  task_execution_id = "e1";
  task_id = "t1";
  execution_version = 1;
  worker_id = none;
  status = ExecutionStatus.queued;
  execution_config_hash = the_hash;
  observed_config_hash = none;
  error_code = none;
  invariant_code = none;
  termination_reason = none;
  created_at = 9;
  started_at = none;
  ended_at = none;
}

abbrev one_task : Tables
one_task = record {
  task = λ id. if text_eq "t1" id then some the_task else none;
  run = λ id. if text_eq "t1" id then some the_run else none;
  execution = λ id v. if text_eq "t1" id && 1 == v then some the_execution else none;
  task_ids = "t1" ∷ [];
  checkpoints = [];
  reports = [];
}

abbrev the_facts : ClaimFacts
the_facts = record { task = the_task; run = the_run; execution = the_execution }

abbrev the_candidate : QueueCandidate
the_candidate = record {
  task_id = "t1";
  run_id = "r1";
  execution_version = 1;
  task_status = TaskStatus.pending;
  execution_status = ExecutionStatus.queued;
  queued_at = 10;
  created_at = 9;
}

abbrev the_checkpoint : RuntimeCheckpoint
the_checkpoint = record {
  checkpoint_id = "k1";
  task_id = "t1";
  run_id = "r1";
  execution_version = 1;
  execution_config_hash = the_hash;
  next_action = CheckpointNextAction.generate_plan;
  checkpoint_sequence = 1;
  approval_context = none;
  source_execution_version = none;
  source_checkpoint_id = none;
}

abbrev the_agent : AgentRuntimeConfig
the_agent = record { agent_id = "a1"; enabled = true; config = "c" }

-- Ports at the time 50 with the configuration of this hash.
abbrev ports_with : ℕ → String → Ports
ports_with now current = record {
  id_before = λ _ _. false;
  now = ok now;
  lookup_agent = λ _. some the_agent;
  hash_execution_config = λ _. ok current;
  load_latest_for_claim = λ _ _ _ _. ok (ClaimCheckpointResult.valid the_checkpoint);
  save_generate_plan = λ _. ok tt;
  ensure_pending = λ _. ok EnsurePendingReportResult.created;
}

one_task-Keyed : Keyed one_task
one_task-Keyed = record {
  task_key = λ id t h. ground (arith, text_eq_iff "t1" id);
  run_key = λ id r h. ground (arith, text_eq_iff "t1" id);
  execution_key = λ id v e h. (ground (arith, text_eq_iff "t1" id), ground arith);
}

-- Every two texts are level.
level : StrictWeak (λ _ _. false)
level = record { asym = λ a b h. refl; cotrans = λ a b c h k. refl }

one_task-Head :
    (now : ℕ) (current : String) → Head (ports_with now current) "w1" one_task the_candidate
unfolding lock_next_queue_candidate earliest candidates candidate
one_task-Head now current = record { keyed = one_task-Keyed; named = refl; first = refl }

one_task-Due : (current : String) → Due (ports_with 50 current) one_task the_candidate the_facts 50
unfolding lock_claim_facts validate_claim_facts
one_task-Due current = record { locked = refl; clock = refl; valid = refl; in_time = ground arith }

one_task-Late : Late (ports_with 100 the_hash) one_task the_candidate the_facts 100
unfolding lock_claim_facts validate_claim_facts
one_task-Late = record { locked = refl; clock = refl; valid = refl; late = ground arith }

one_task-Checked :
    (current : String)
    → Checked (ports_with 50 current) the_facts ClaimCheckpointSource.initial the_checkpoint current
unfolding classify_claim_source checkpoint_matches hash_valid
one_task-Checked current = record {
  classified = refl;
  loaded = refl;
  matches = refl;
  agent = the_agent;
  configured = refl;
  enabled = refl;
  same_agent = refl;
  hashed = refl;
  hash_ok = refl;
}

lock_next_queue_candidate_fifo_example :
    Foremost (λ _ _. false) one_task the_candidate × (one_task ≡ one_task)
lock_next_queue_candidate_fifo_example =
    lock_next_queue_candidate_fifo (λ _ _. false) level one_task one_task the_candidate
      (one_task-Head 50 the_hash).first

claim_next_execution-claims_example :
    (s' : Tables) × (claim_next_execution
        (ports_with 50 the_hash)
        (ports_with 50 the_hash)
        (λ s. s)
        "w1"
        "w1"
        one_task
      ≡ (ok (claim "w1" one_task the_facts 50), s'))
    × ClaimedBy "w1" one_task the_facts 50 true s'
unfolding same_hashes task_status_eq
claim_next_execution-claims_example =
    claim_next_execution-claims (ports_with 50 the_hash) (ports_with 50 the_hash) (λ s. s) "w1"
      one_task the_candidate the_facts 50 (one_task-Head 50 the_hash) ClaimCheckpointSource.initial
      the_checkpoint the_hash true (one_task-Due the_hash) (one_task-Checked the_hash) refl
      (λ _. refl) refl

claim_next_execution-expires_example :
    (s' : Tables) × (claim_next_execution
        (ports_with 100 the_hash)
        (ports_with 100 the_hash)
        (λ s. s)
        "w1"
        "w1"
        one_task
      ≡ (ok ClaimResult.expired_terminalized, s'))
    × TimedOut one_task the_facts 100 s'
claim_next_execution-expires_example =
    claim_next_execution-expires (ports_with 100 the_hash) (ports_with 100 the_hash) (λ s. s) "w1"
      one_task the_candidate the_facts 100 (one_task-Head 100 the_hash) (λ _. refl) one_task-Late

claim_next_execution-interrupts_example :
    (s' : Tables) × (claim_next_execution
        (ports_with 50 other_hash)
        (ports_with 50 other_hash)
        (λ s. s)
        "w1"
        "w1"
        one_task
      ≡ (ok ClaimResult.config_mismatch_interrupted, s'))
    × InterruptedRows one_task the_facts 50 other_hash s'
unfolding same_hashes
claim_next_execution-interrupts_example =
    claim_next_execution-interrupts (ports_with 50 other_hash) (ports_with 50 other_hash) (λ s. s)
      "w1" one_task the_candidate the_facts 50 (one_task-Head 50 other_hash) (λ _. refl)
      ClaimCheckpointSource.initial the_checkpoint other_hash (one_task-Due other_hash)
      (one_task-Checked other_hash) refl refl

abbrev the_outcome : Result ClaimResult × Tables
the_outcome =
    claim_next_execution (ports_with 50 the_hash) (ports_with 50 the_hash) (λ s. s) "w1" "w1"
      one_task

result_of :
    (x : Result ClaimResult × Tables) (r : ClaimResult) (s' : Tables)
    → x ≡ (ok r, s')
    → x ≡ (ok r, x.1)
result_of x r s' e = e ∙ ap (λ s. (ok r, s)) (sym (ap (λ y. y.1) e))

the_outcome-claim : the_outcome ≡ (ok (claim "w1" one_task the_facts 50), the_outcome.1)
unfolding same_hashes task_status_eq
the_outcome-claim =
    let won =
      claim_next_execution-claims (ports_with 50 the_hash) (ports_with 50 the_hash) (λ s. s) "w1"
        one_task the_candidate the_facts 50 (one_task-Head 50 the_hash)
        ClaimCheckpointSource.initial the_checkpoint the_hash true (one_task-Due the_hash)
        (one_task-Checked the_hash) refl (λ _. refl) refl in
    result_of the_outcome (claim "w1" one_task the_facts 50) won.0 won.1

claim_next_execution-Unqueued_example :
    (claim "w1" one_task the_facts 50 ≡ ClaimResult.no_work)
    ⊎ ((c : QueueCandidate) × (lock_next_queue_candidate (λ _ _. false) one_task ≡ ok (c, one_task))
        × Unqueued c.task_id the_outcome.1)
claim_next_execution-Unqueued_example =
    claim_next_execution-Unqueued (ports_with 50 the_hash) (ports_with 50 the_hash) (λ s. s) "w1"
      one_task the_outcome.1 (claim "w1" one_task the_facts 50) one_task-Keyed one_task-Keyed "w1"
      the_outcome-claim

abbrev won : ExecutionClaim
won = record {
  task_id = "t1";
  run_id = "r1";
  execution_version = 1;
  worker_id = "w1";
  claimed_at = 50;
}

claim_next_execution-Granted_example :
    (c : QueueCandidate) × (lock_next_queue_candidate (λ _ _. false) one_task ≡ ok (c, one_task))
    × Granted (ports_with 50 the_hash) "w1" one_task c won the_outcome.1
claim_next_execution-Granted_example =
    claim_next_execution-Granted (ports_with 50 the_hash) (ports_with 50 the_hash) (λ s. s) "w1"
      one_task the_outcome.1 won one_task-Keyed "w1" the_outcome-claim

-- The worker of another Runtime is refused.
refused :
    claim_next_execution
      (ports_with 50 the_hash)
      (ports_with 50 the_hash)
      (λ s. s)
      "w1"
      "w2"
      one_task
    ≡ (err TxError.invalid_argument, one_task)
unfolding claim_next_execution
refused = refl
