-- ===== src/TaskRuntime/Claim/Writes.antt =====
-- internal/taskruntime/claim.go: what a claim writes, `commitClaim`, `interruptConfigMismatch` and
-- `terminalizeClaim`, each in the order of its updates.
use agentops_go.Prelude.{
  ℕ, String, Bool, true, false, not, Option, none, some, if◌then◌else◌, text_eq,
}
use agentops_go.Contracts.Status.{
  TaskStatus, RunStatus, ExecutionStatus, task_status_eq, run_status_eq,
}
use agentops_go.Contracts.Codes.{ErrorCode, InvariantCode, TerminationReason}
use agentops_go.Lifecycle.{can_task_transition, can_run_transition, can_execution_transition}
use agentops_go.TaskRuntime.Entity.{TaskUpdate, RunUpdate, TaskExecutionUpdate}
use agentops_go.TaskRuntime.Store.{update_task, update_run, update_execution}
use agentops_go.TaskRuntime.Store.Transaction.{Tx, pure, ◌>>=◌, ◌>>◌, Tables}
use agentops_go.TaskRuntime.Ports.{Ports, ensure_pending_report}
use agentops_go.TaskRuntime.Claim.{ClaimFacts, lifecycle_check, must_match, or_now}

-- `nonNilJSONObject`.
abbrev pub non_nil_json_object : String → String
non_nil_json_object c = if text_eq c "" then "{}" else c

-- The update of the execution that each of the three begins with: from the locked status and owner.
abbrev pub execution_update :
    ClaimFacts
    → ExecutionStatus
    → Option String
    → Option String
    → Option ErrorCode
    → Option InvariantCode
    → Option TerminationReason
    → Option ℕ
    → Option ℕ
    → TaskExecutionUpdate
execution_update f status worker observed code invariant reason started ended = record {
  task_id = f.task.task_id;
  execution_version = f.execution.execution_version;
  expected_status = f.execution.status;
  expected_worker_id = f.execution.worker_id;
  status = status;
  worker_id = worker;
  observed_config_hash = observed;
  error_code = code;
  invariant_code = invariant;
  termination_reason = reason;
  started_at = started;
  ended_at = ended;
}

abbrev pub run_update :
    ClaimFacts → RunStatus → String → Option ErrorCode → Option ℕ → Option ℕ → RunUpdate
run_update f status context code started ended = record {
  task_id = f.task.task_id;
  run_id = f.run.run_id;
  execution_version = f.execution.execution_version;
  expected_status = f.run.status;
  status = status;
  plan_id = f.run.plan_id;
  current_step_id = f.run.current_step_id;
  context = context;
  error_code = code;
  started_at = started;
  ended_at = ended;
}

-- `QueuedAt` is never set: the task leaves the queue.
abbrev pub task_update :
    ClaimFacts → TaskStatus → Option ErrorCode → Option ℕ → Option ℕ → TaskUpdate
task_update f status code started ended = record {
  task_id = f.task.task_id;
  expected_status = f.task.status;
  expected_current_execution_version = f.task.current_execution_version;
  status = status;
  current_execution_version = f.task.current_execution_version;
  result_summary = f.task.result_summary;
  error_code = code;
  queued_at = none;
  started_at = started;
  ended_at = ended;
}

unfoldable pub start_execution : ClaimFacts → ℕ → String → Tx Tables (Unit {0})
start_execution f now worker = do
  lifecycle_check (can_execution_transition f.execution.status ExecutionStatus.running)
  updated ← update_execution (
      execution_update f ExecutionStatus.running (some worker) none none none none
        (or_now f.execution.started_at now) none)
  must_match updated

unfoldable pub start_run : ClaimFacts → ℕ → Tx Tables (Unit {0})
unfolding run_status_eq
start_run f now = if not (run_status_eq f.run.status RunStatus.pending) then pure tt else do
  lifecycle_check (can_run_transition f.run.status RunStatus.running)
  updated ← update_run (
      run_update f RunStatus.running f.run.context f.run.error_code (or_now f.run.started_at now)
        f.run.ended_at)
  must_match updated

-- The task that starts with this claim; one that runs already keeps its status and start.
abbrev pub started_task : ClaimFacts → ℕ → Bool → TaskUpdate
started_task f now true =
    task_update f TaskStatus.running f.task.error_code (or_now f.task.started_at now)
      f.task.ended_at
started_task f now false =
    task_update f f.task.status f.task.error_code f.task.started_at f.task.ended_at

unfoldable pub check_start : ClaimFacts → Bool → Tx Tables (Unit {0})
check_start f true = lifecycle_check (can_task_transition f.task.status TaskStatus.running)
check_start f false = pure tt

unfoldable pub start_task : ClaimFacts → ℕ → Tx Tables (Unit {0})
unfolding task_status_eq check_start
start_task f now = do
  let pending = task_status_eq f.task.status TaskStatus.pending
  check_start f pending
  updated ← update_task (started_task f now pending)
  must_match updated

unfoldable pub commit_claim : ClaimFacts → ℕ → String → Tx Tables (Unit {0})
commit_claim f now worker = do start_execution f now worker; start_run f now; start_task f now

unfoldable pub interrupt_execution : ClaimFacts → ℕ → String → Tx Tables (Unit {0})
interrupt_execution f now observed = do
  lifecycle_check (can_execution_transition f.execution.status ExecutionStatus.interrupted)
  updated ← update_execution (
      execution_update f ExecutionStatus.interrupted none (some observed)
        (some ErrorCode.config_version_mismatch) none none f.execution.started_at (some now))
  must_match updated

unfoldable pub interrupt_task : ClaimFacts → Tx Tables (Unit {0})
interrupt_task f = do
  lifecycle_check (can_task_transition f.task.status TaskStatus.interrupted)
  updated ← update_task (
      task_update f TaskStatus.interrupted (some ErrorCode.config_version_mismatch)
        f.task.started_at f.task.ended_at)
  must_match updated

unfoldable pub interrupt_config_mismatch : Ports → ClaimFacts → ℕ → String → Tx Tables (Unit {0})
interrupt_config_mismatch p f now observed = do
  interrupt_execution f now observed
  interrupt_task f
  ensure_pending_report p f.task.task_id f.run.run_id now

unfoldable pub fail_execution :
    ClaimFacts
    → ℕ
    → ErrorCode
    → Option InvariantCode
    → Option TerminationReason
    → Tx Tables (Unit {0})
fail_execution f now code invariant reason = do
  lifecycle_check (can_execution_transition f.execution.status ExecutionStatus.failed)
  updated ← update_execution (
      execution_update f ExecutionStatus.failed none none (some code) invariant reason
        f.execution.started_at (some now))
  must_match updated

unfoldable pub fail_run : ClaimFacts → ℕ → ErrorCode → Tx Tables (Unit {0})
fail_run f now code = do
  lifecycle_check (can_run_transition f.run.status RunStatus.failed)
  updated ← update_run (
      run_update f RunStatus.failed (non_nil_json_object f.run.context) (some code) f.run.started_at
        (some now))
  must_match updated

unfoldable pub fail_task : ClaimFacts → ℕ → ErrorCode → Tx Tables (Unit {0})
fail_task f now code = do
  lifecycle_check (can_task_transition f.task.status TaskStatus.failed)
  updated ← update_task (task_update f TaskStatus.failed (some code) f.task.started_at (some now))
  must_match updated

unfoldable pub terminalize_claim :
    Ports
    → ClaimFacts
    → ℕ
    → ErrorCode
    → Option InvariantCode
    → Option TerminationReason
    → Tx Tables (Unit {0})
terminalize_claim p f now code invariant reason = do
  fail_execution f now code invariant reason
  fail_run f now code
  fail_task f now code
  ensure_pending_report p f.task.task_id f.run.run_id now
