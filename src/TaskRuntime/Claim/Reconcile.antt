-- ===== src/TaskRuntime/Claim/Reconcile.antt =====
-- internal/taskruntime/claim.go: `reconcileClaimConditionMiss`, the second transaction after an update
-- that met no row, and `ClaimNextExecution` as a whole. The best-effort task log, which is written
-- after the commit and read by nobody, is not modelled.
use agentops_go.Prelude.{
  ℕ, String, Bool, true, false, not, ◌&&◌, ◌||◌, Option, none, some, ◌==◌, leb, if◌then◌else◌,
  text_eq, is_none,
}
use agentops_go.Contracts.Status.{
  TaskStatus, RunStatus, ExecutionStatus, task_status_eq, run_status_eq, execution_status_eq,
}
use agentops_go.Contracts.Execution.{ClaimResult, execution_version_valid}
use agentops_go.TaskRuntime.Entity.{Task, TaskExecution, QueueCandidate}
use agentops_go.TaskRuntime.Store.{lock_task, lock_run_by_task, lock_execution}
use agentops_go.TaskRuntime.Store.Transaction.{
  Tx, TxError, Result, ok, err, pure, fail, ◌>>=◌, Tables, execute,
}
use agentops_go.TaskRuntime.Store.Queue.{lock_next_queue_candidate}
use agentops_go.TaskRuntime.Ports.{Ports, ask}
use agentops_go.TaskRuntime.Claim.{ClaimFacts, target}
use agentops_go.TaskRuntime.Claim.Service.{settle, claim_candidate}

unfoldable pub status_agrees : TaskStatus → RunStatus → Bool
unfolding run_status_eq
status_agrees TaskStatus.pending r = run_status_eq r RunStatus.pending
status_agrees TaskStatus.running r = run_status_eq r RunStatus.running
status_agrees _ r = false

-- The old execution was interrupted and the new one waits in the queue, owned by nobody.
unfoldable pub replacement_queued : TaskExecution → TaskExecution → Bool
unfolding execution_status_eq
replacement_queued previous current =
    execution_status_eq previous.status ExecutionStatus.interrupted
    && is_none previous.worker_id
    && execution_status_eq current.status ExecutionStatus.queued
    && is_none current.worker_id

unfoldable pub replaced : Task → QueueCandidate → Tx Tables Bool
unfolding status_agrees replacement_queued
replaced t c = do
  run ← target (lock_run_by_task t.task_id)
  previous ← target (lock_execution t.task_id c.execution_version)
  current ← target (lock_execution t.task_id t.current_execution_version)
  pure (replacement_queued previous current && status_agrees t.status run.status)

-- `confirmSupersededClaimCandidate`.
unfoldable pub confirm_superseded : Task → QueueCandidate → Tx Tables Bool
confirm_superseded t c =
    if leb t.current_execution_version c.execution_version || is_none t.queued_at
    then pure false
    else replaced t c

unfoldable pub removed_as : ExecutionStatus → ClaimFacts → Bool
unfolding task_status_eq run_status_eq
removed_as ExecutionStatus.running f =
    not (is_none f.execution.worker_id)
    && task_status_eq f.task.status TaskStatus.running
    && run_status_eq f.run.status RunStatus.running
removed_as ExecutionStatus.waiting_approval f =
    is_none f.execution.worker_id
    && task_status_eq f.task.status TaskStatus.waiting_approval
    && run_status_eq f.run.status RunStatus.waiting_approval
removed_as ExecutionStatus.interrupted f =
    is_none f.execution.worker_id
    && (task_status_eq f.task.status TaskStatus.interrupted
        || task_status_eq f.task.status TaskStatus.running)
    && (run_status_eq f.run.status RunStatus.pending
        || run_status_eq f.run.status RunStatus.running)
removed_as ExecutionStatus.completed f =
    task_status_eq f.task.status TaskStatus.completed
    && run_status_eq f.run.status RunStatus.completed
removed_as ExecutionStatus.failed f =
    (task_status_eq f.task.status TaskStatus.failed
      || task_status_eq f.task.status TaskStatus.cancelled)
    && run_status_eq f.run.status RunStatus.failed
removed_as _ f = false

-- `claimCandidateLegallyRemoved`: another command has taken the candidate from the queue.
unfoldable pub legally_removed : ClaimFacts → Bool
unfolding removed_as
legally_removed f = removed_as f.execution.status f

unfoldable pub reconcile_claim_write_error : TxError → TxError
reconcile_claim_write_error TxError.condition_miss = TxError.persistence_invariant_violation
reconcile_claim_write_error e = e

-- Only a write of the settlement can miss its condition.
unfoldable pub reconciled : Tx Tables ClaimResult → Tx Tables ClaimResult
unfolding reconcile_claim_write_error
reconciled m s = elim (m s) [ ok x ↦ ok x | err e ↦ err (reconcile_claim_write_error e) ]

abbrev pub queued_or_zero : Option ℕ → ℕ
queued_or_zero none = 0
queued_or_zero (some t) = t

-- The candidate as the second transaction finds it.
abbrev pub current_candidate : ClaimFacts → QueueCandidate
current_candidate f = record {
  task_id = f.task.task_id;
  run_id = f.task.current_run_id;
  execution_version = f.task.current_execution_version;
  task_status = f.task.status;
  execution_status = f.execution.status;
  queued_at = queued_or_zero f.task.queued_at;
  created_at = f.task.created_at;
}

unfoldable pub settle_again : Ports → ClaimFacts → Tx Tables ClaimResult
settle_again p f = do
  now ← ask p.now
  reconciled
      (settle p (current_candidate f) f now (λ _ _. fail TxError.persistence_invariant_violation))

unfoldable pub reconcile_facts : Ports → ClaimFacts → Tx Tables ClaimResult
reconcile_facts p f =
    if is_none f.task.queued_at && legally_removed f
    then pure ClaimResult.no_work
    else settle_again p f

unfoldable pub no_work_if : Bool → Tx Tables ClaimResult
no_work_if true = pure ClaimResult.no_work
no_work_if false = fail TxError.persistence_invariant_violation

unfoldable pub replaced_or_fail : Task → QueueCandidate → Tx Tables ClaimResult
replaced_or_fail t c = do removed ← confirm_superseded t c; no_work_if removed

unfoldable pub same_version : Ports → Task → Tx Tables ClaimResult
same_version p t = do
  run ← target (lock_run_by_task t.task_id)
  execution ← target (lock_execution t.task_id t.current_execution_version)
  reconcile_facts p (record { task = t; run = run; execution = execution })

unfoldable pub reconcile_task : Ports → QueueCandidate → Task → Tx Tables ClaimResult
reconcile_task p c t =
    if not (text_eq t.current_run_id c.run_id)
    then fail TxError.persistence_invariant_violation
    else if not (t.current_execution_version == c.execution_version)
    then replaced_or_fail t c
    else same_version p t

unfoldable pub reconcile : Ports → QueueCandidate → Tx Tables ClaimResult
reconcile p c = do t ← target (lock_task c.task_id); reconcile_task p c t

unfoldable pub reconcile_miss : Ports → QueueCandidate → Tables → Result ClaimResult × Tables
reconcile_miss p c s =
    if text_eq c.task_id "" || not (execution_version_valid c.execution_version)
    then (err TxError.persistence_invariant_violation, s)
    else execute (reconcile p c) s

-- What the first transaction led to; `between` is what other writers commit before the second one.
unfoldable pub after_first :
    Ports
    → (Tables → Tables)
    → QueueCandidate
    → Result ClaimResult × Tables
    → Result ClaimResult × Tables
after_first again between c (err TxError.condition_miss, s) = reconcile_miss again c (between s)
after_first again between c (r, s) = (r, s)

unfoldable pub claim_head :
    Ports
    → Ports
    → (Tables → Tables)
    → String
    → Tables
    → Result (QueueCandidate × Tables)
    → Result ClaimResult × Tables
claim_head first again between worker s (err TxError.not_found) = (ok ClaimResult.no_work, s)
claim_head first again between worker s (err e) = (err e, s)
claim_head first again between worker s (ok (c, s')) =
    after_first again between c (execute (claim_candidate first worker c) s)

-- `ClaimNextExecution` of the Runtime that runs as `runtime_worker`, called by `worker`. `first` and
-- `again` are what the ports answer in the first and the second transaction.
unfoldable pub claim_next_execution :
    Ports → Ports → (Tables → Tables) → String → String → Tables → Result ClaimResult × Tables
claim_next_execution first again between runtime_worker worker s =
    if text_eq worker "" || not (text_eq worker runtime_worker)
    then (err TxError.invalid_argument, s)
    else claim_head first again between worker s (lock_next_queue_candidate first.id_before s)
