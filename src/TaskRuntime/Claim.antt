-- ===== src/TaskRuntime/Claim.antt =====
-- internal/taskruntime/claim.go: ClaimNextExecution, which takes the head of the FIFO queue for a
-- Worker or settles it. Here are the facts that a claim locks and what it concludes from them;
-- `Writes` has the three ways to settle a claim, `Service` the two transactions.
pub mod Writes
pub mod Service
pub mod Reconcile
pub mod Effects
pub mod Settlements
pub mod Dequeue
pub mod Progress
pub mod Commit
pub mod Rows
pub mod Claimed
pub mod Outcome
pub mod Ended
pub mod Mismatch
pub mod Grant
pub mod Granted
pub mod Ungranted
mod Examples
use agentops_go.Prelude.{
  ℕ, String, Bool, true, false, not, ◌&&◌, ◌||◌, Option, none, some, ◌==◌, ltb, if◌then◌else◌,
  text_eq, is_none,
}
use agentops_go.Contracts.Status.{
  TaskStatus, RunStatus, ExecutionStatus, task_status_eq, run_status_eq, execution_status_eq,
}
use agentops_go.Contracts.Codes.{
  ErrorCode, InvariantCode, TerminationReason, ReasonCode, valid_for_checkpoint_invalid,
}
use agentops_go.Contracts.Execution.{
  ClaimResult, ExecutionClaim, execution_version_valid, next_action_valid,
}
use agentops_go.Contracts.Hash.{hash_valid}
use agentops_go.Lifecycle.{
  Decision, can_task_transition, can_run_transition, can_execution_transition,
}
use agentops_go.TaskRuntime.Entity.{
  Task, Run, TaskExecution, TaskUpdate, RunUpdate, TaskExecutionUpdate, QueueCandidate,
}
use agentops_go.TaskRuntime.Store.{
  lock_task, lock_run_by_task, lock_execution, update_task, update_run, update_execution,
}
use agentops_go.TaskRuntime.Store.Transaction.{
  Tx, TxError, Result, ok, err, pure, fail, ◌>>=◌, ◌>>◌, Tables, PortWrite, execute,
}
use agentops_go.TaskRuntime.Store.Queue.{lock_next_queue_candidate}
use agentops_go.TaskRuntime.Ports.{
  Ports, AgentRuntimeConfig, RuntimeCheckpoint, ClaimCheckpointSource, ClaimCheckpointResult, ask,
  save_generate_plan_checkpoint, ensure_pending_report,
}

pub record ClaimFacts : Type 0 where
  pub task : Task
  pub run : Run
  pub execution : TaskExecution

unfoldable pub persistence_target_error : TxError → TxError
persistence_target_error TxError.not_found = TxError.persistence_invariant_violation
persistence_target_error e = e

unfoldable pub target : {A : Type 0} → Tx Tables A → Tx Tables A
unfolding persistence_target_error
target m s = elim (m s) [ ok x ↦ ok x | err e ↦ err (persistence_target_error e) ]

unfoldable pub lock_claim_facts : QueueCandidate → Tx Tables ClaimFacts
unfolding target lock_task lock_run_by_task lock_execution
lock_claim_facts c = do
  task ← target (lock_task c.task_id)
  run ← target (lock_run_by_task c.task_id)
  execution ← target (lock_execution c.task_id task.current_execution_version)
  pure (record { task = task; run = run; execution = execution })

-- Whether the locked rows belong to the candidate and to one another.
unfoldable pub attributed : QueueCandidate → ClaimFacts → Bool
attributed c f =
    text_eq f.task.task_id c.task_id
    && text_eq f.task.current_run_id c.run_id
    && text_eq f.run.task_id f.task.task_id
    && text_eq f.run.run_id f.task.current_run_id
    && text_eq f.execution.task_id f.task.task_id
    && f.execution.execution_version == f.task.current_execution_version
    && c.execution_version == f.task.current_execution_version

-- Whether the execution waits in the queue, owned by nobody, as the candidate says.
unfoldable pub queued : QueueCandidate → ClaimFacts → Bool
unfolding execution_status_eq
queued c f =
    not (is_none f.task.queued_at)
    && not (c.queued_at == 0)
    && execution_status_eq f.execution.status ExecutionStatus.queued
    && is_none f.execution.worker_id
    && execution_status_eq c.execution_status ExecutionStatus.queued

-- The `switch` on the status of the task.
run_agrees : TaskStatus → RunStatus → Option InvariantCode
unfolding run_status_eq
run_agrees TaskStatus.pending r =
    if run_status_eq r RunStatus.pending
    then none
    else some InvariantCode.cross_object_state_invalid
run_agrees TaskStatus.running r =
    if run_status_eq r RunStatus.running
    then none
    else some InvariantCode.cross_object_state_invalid
run_agrees _ r = some InvariantCode.queue_state_invalid

-- The violated invariant, if there is one.
unfoldable pub validate_claim_facts : QueueCandidate → ClaimFacts → Option InvariantCode
unfolding attributed queued run_agrees task_status_eq
validate_claim_facts c f =
    if not (attributed c f)
    then some InvariantCode.current_execution_invalid
    else if not (queued c f)
    then some InvariantCode.queue_state_invalid
    else if not (task_status_eq c.task_status f.task.status)
    then some InvariantCode.queue_state_invalid
    else run_agrees f.task.status f.run.status

pub data Classified : Type 0 where
  source : ClaimCheckpointSource → Classified
  violated : InvariantCode → Classified

-- Whether nothing was ever started for this task.
unfoldable pub never_started : ClaimFacts → Bool
never_started f =
    f.execution.execution_version == 1
    && is_none f.execution.started_at
    && is_none f.task.started_at
    && is_none f.run.started_at
    && is_none f.run.plan_id
    && is_none f.run.current_step_id

unfoldable pub classify_claim_source : ClaimFacts → Classified
unfolding never_started
classify_claim_source f =
    if not (is_none f.run.current_step_id) && is_none f.run.plan_id
    then Classified.violated InvariantCode.cross_object_state_invalid
    else if never_started f
    then Classified.source ClaimCheckpointSource.initial
    else if not (is_none f.run.plan_id) && is_none f.run.current_step_id
    then Classified.violated InvariantCode.claim_source_ambiguous
    else Classified.source ClaimCheckpointSource.continuation

unfoldable pub checkpoint_matches : RuntimeCheckpoint → ClaimFacts → Bool
unfolding next_action_valid hash_valid
checkpoint_matches k f = not (
    text_eq k.checkpoint_id ""
    || k.checkpoint_sequence == 0
    || not (text_eq k.task_id f.task.task_id)
    || not (text_eq k.run_id f.run.run_id)
    || not (k.execution_version == f.execution.execution_version)
    || not (hash_valid k.execution_config_hash)
    || not (next_action_valid k.next_action))

-- `none` is an invalid checkpoint.
unfoldable pub validated_claim_checkpoint :
    ClaimCheckpointResult → ClaimFacts → Result (Option RuntimeCheckpoint)
unfolding checkpoint_matches valid_for_checkpoint_invalid
validated_claim_checkpoint (ClaimCheckpointResult.valid k) f =
    if checkpoint_matches k f then ok (some k) else ok none
validated_claim_checkpoint (ClaimCheckpointResult.invalid reason) f =
    if valid_for_checkpoint_invalid reason
    then ok none
    else err TxError.persistence_invariant_violation
validated_claim_checkpoint ClaimCheckpointResult.foreign f =
    err TxError.persistence_invariant_violation

-- A rejected transition is an error with the reason.
unfoldable pub lifecycle_check : Decision → Tx Tables (Unit {0})
lifecycle_check d = if d.allowed then pure tt else fail (TxError.lifecycle d.reason)

-- An update that meets no row.
unfoldable pub must_match : Bool → Tx Tables (Unit {0})
must_match b = if b then pure tt else fail TxError.condition_miss

abbrev pub or_now : Option ℕ → ℕ → Option ℕ
or_now none now = some now
or_now (some t) now = some t
