-- ===== src/Lifecycle.antt =====
-- internal/lifecycle/policy.go: the pure lifecycle rules that the Task Runtime and the approval
-- entries share. A time is a number of nanoseconds, 0 is Go's zero time; a pointer is an option.
pub mod Diagram
pub mod Guards
mod Examples
use agentops_go.Prelude.{
  ℕ, String, Bool, true, false, not, ◌||◌, Option, none, some, ltb, ◌==◌, if◌then◌else◌, text_eq,
  is_none,
}
use agentops_go.Contracts.Status.{
  TaskStatus, RunStatus, StepStatus, ExecutionStatus, ApprovalStatus, task_status_eq, run_status_eq,
  step_status_eq, execution_status_eq, approval_status_eq, task_status_valid, run_status_valid,
  step_status_valid, execution_status_valid,
}

pub data RejectionReason : Type 0 where
  rejection_none invalid_state version_mismatch worker_mismatch deadline_reached : RejectionReason
  approval_not_pending invalid_source : RejectionReason

pub record Decision : Type 0 where
  pub allowed : Bool
  pub reason : RejectionReason

abbrev pub allow : Decision
allow = record { allowed = true; reason = RejectionReason.rejection_none }

abbrev pub reject : RejectionReason → Decision
reject r = record { allowed = false; reason = r }

-- The early return of a rejecting decision.
abbrev pub unless_rejected : Decision → Decision → Decision
unless_rejected d rest = if d.allowed then rest else d

unfoldable pub can_create_task : TaskStatus → RunStatus → ExecutionStatus → Decision
unfolding task_status_eq run_status_eq execution_status_eq
can_create_task t r e =
    if not (task_status_eq t TaskStatus.pending)
      || not (run_status_eq r RunStatus.pending)
      || not (execution_status_eq e ExecutionStatus.queued)
    then reject RejectionReason.invalid_state
    else allow

pub record GuardFacts : Type 0 where
  pub current_execution_version : ℕ
  pub request_execution_version : ℕ
  pub execution_worker_id : Option String
  pub request_worker_id : Option String
  pub deadline_at : ℕ
  pub database_now : ℕ

-- `true` when the request names a worker that does not own the execution.
worker_mismatched : Option String → Option String → Bool
worker_mismatched none _ = false
worker_mismatched (some w) none = true
worker_mismatched (some w) (some owner) = not (text_eq owner w) || text_eq w ""

unfoldable pub check_guard : GuardFacts → Decision
unfolding worker_mismatched
check_guard f =
    if not (ltb 0 f.current_execution_version)
      || not (f.current_execution_version == f.request_execution_version)
    then reject RejectionReason.version_mismatch
    else if worker_mismatched f.request_worker_id f.execution_worker_id
    then reject RejectionReason.worker_mismatch
    else if f.deadline_at == 0 || not (ltb f.database_now f.deadline_at)
    then reject RejectionReason.deadline_reached
    else allow

task_edge : TaskStatus → TaskStatus → Bool
unfolding task_status_eq
task_edge TaskStatus.pending to =
    task_status_eq to TaskStatus.running
    || task_status_eq to TaskStatus.interrupted
    || task_status_eq to TaskStatus.cancelled
    || task_status_eq to TaskStatus.failed
task_edge TaskStatus.running to =
    task_status_eq to TaskStatus.waiting_approval
    || task_status_eq to TaskStatus.interrupted
    || task_status_eq to TaskStatus.completed
    || task_status_eq to TaskStatus.failed
    || task_status_eq to TaskStatus.cancelled
task_edge TaskStatus.waiting_approval to =
    task_status_eq to TaskStatus.running
    || task_status_eq to TaskStatus.cancelled
    || task_status_eq to TaskStatus.failed
task_edge TaskStatus.interrupted to =
    task_status_eq to TaskStatus.pending
    || task_status_eq to TaskStatus.running
    || task_status_eq to TaskStatus.cancelled
    || task_status_eq to TaskStatus.failed
task_edge _ to = false

unfoldable pub can_task_transition : TaskStatus → TaskStatus → Decision
unfolding task_status_eq task_status_valid task_edge
can_task_transition from to =
    if not (task_status_valid from) || not (task_status_valid to) || task_status_eq from to
    then reject RejectionReason.invalid_state
    else if not (task_edge from to)
    then reject RejectionReason.invalid_state
    else allow

run_edge : RunStatus → RunStatus → Bool
unfolding run_status_eq
run_edge RunStatus.pending to =
    run_status_eq to RunStatus.running || run_status_eq to RunStatus.failed
run_edge RunStatus.running to =
    run_status_eq to RunStatus.waiting_approval
    || run_status_eq to RunStatus.completed
    || run_status_eq to RunStatus.failed
run_edge RunStatus.waiting_approval to =
    run_status_eq to RunStatus.running || run_status_eq to RunStatus.failed
run_edge _ to = false

unfoldable pub can_run_transition : RunStatus → RunStatus → Decision
unfolding run_status_eq run_status_valid run_edge
can_run_transition from to =
    if not (run_status_valid from) || not (run_status_valid to) || run_status_eq from to
    then reject RejectionReason.invalid_state
    else if not (run_edge from to)
    then reject RejectionReason.invalid_state
    else allow

step_edge : StepStatus → StepStatus → Bool
unfolding step_status_eq
step_edge StepStatus.pending to =
    step_status_eq to StepStatus.running || step_status_eq to StepStatus.failed
step_edge StepStatus.running to =
    step_status_eq to StepStatus.waiting_approval
    || step_status_eq to StepStatus.completed
    || step_status_eq to StepStatus.failed
step_edge StepStatus.waiting_approval to =
    step_status_eq to StepStatus.running || step_status_eq to StepStatus.failed
step_edge _ to = false

unfoldable pub can_step_transition : StepStatus → StepStatus → Decision
unfolding step_status_eq step_status_valid step_edge
can_step_transition from to =
    if not (step_status_valid from) || not (step_status_valid to) || step_status_eq from to
    then reject RejectionReason.invalid_state
    else if not (step_edge from to)
    then reject RejectionReason.invalid_state
    else allow

execution_edge : ExecutionStatus → ExecutionStatus → Bool
unfolding execution_status_eq
execution_edge ExecutionStatus.queued to =
    execution_status_eq to ExecutionStatus.running
    || execution_status_eq to ExecutionStatus.interrupted
    || execution_status_eq to ExecutionStatus.failed
execution_edge ExecutionStatus.running to =
    execution_status_eq to ExecutionStatus.waiting_approval
    || execution_status_eq to ExecutionStatus.completed
    || execution_status_eq to ExecutionStatus.failed
    || execution_status_eq to ExecutionStatus.interrupted
execution_edge ExecutionStatus.waiting_approval to =
    execution_status_eq to ExecutionStatus.queued || execution_status_eq to ExecutionStatus.failed
execution_edge ExecutionStatus.interrupted to = execution_status_eq to ExecutionStatus.failed
execution_edge _ to = false

unfoldable pub can_execution_transition : ExecutionStatus → ExecutionStatus → Decision
unfolding execution_status_eq execution_status_valid execution_edge
can_execution_transition from to =
    if not (execution_status_valid from)
      || not (execution_status_valid to)
      || execution_status_eq from to
    then reject RejectionReason.invalid_state
    else if not (execution_edge from to)
    then reject RejectionReason.invalid_state
    else allow

pub record ApprovalFacts : Type 0 where
  pub task_status : TaskStatus
  pub run_status : RunStatus
  pub step_status : StepStatus
  pub execution_status : ExecutionStatus
  pub approval_status : ApprovalStatus
  pub current_execution_version : ℕ
  pub request_execution_version : ℕ
  pub execution_worker_id : Option String
  pub request_worker_id : Option String
  pub deadline_at : ℕ
  pub database_now : ℕ

abbrev pub guard_facts : ApprovalFacts → GuardFacts
guard_facts f = record {
  current_execution_version = f.current_execution_version;
  request_execution_version = f.request_execution_version;
  execution_worker_id = f.execution_worker_id;
  request_worker_id = f.request_worker_id;
  deadline_at = f.deadline_at;
  database_now = f.database_now;
}

unfoldable pub can_enter_waiting_approval : ApprovalFacts → Decision
unfolding task_status_eq run_status_eq step_status_eq execution_status_eq
can_enter_waiting_approval f =
    if is_none f.request_worker_id
    then reject RejectionReason.worker_mismatch
    else unless_rejected (check_guard (guard_facts f)) (
        if not (task_status_eq f.task_status TaskStatus.running)
          || not (run_status_eq f.run_status RunStatus.running)
          || not (step_status_eq f.step_status StepStatus.running)
          || not (execution_status_eq f.execution_status ExecutionStatus.running)
        then reject RejectionReason.invalid_state
        else allow)

check_waiting_approval : ApprovalFacts → Decision
unfolding task_status_eq run_status_eq step_status_eq execution_status_eq approval_status_eq
check_waiting_approval f =
    if not (is_none f.request_worker_id)
    then reject RejectionReason.worker_mismatch
    else unless_rejected (check_guard (guard_facts (record f { request_worker_id = none }))) (
        if not (is_none f.execution_worker_id)
        then reject RejectionReason.worker_mismatch
        else if not (approval_status_eq f.approval_status ApprovalStatus.pending)
        then reject RejectionReason.approval_not_pending
        else if not (task_status_eq f.task_status TaskStatus.waiting_approval)
            || not (run_status_eq f.run_status RunStatus.waiting_approval)
            || not (step_status_eq f.step_status StepStatus.waiting_approval)
            || not (execution_status_eq f.execution_status ExecutionStatus.waiting_approval)
        then reject RejectionReason.invalid_state
        else allow)

unfoldable pub can_approve : ApprovalFacts → Decision
unfolding check_waiting_approval
can_approve f = unless_rejected (check_waiting_approval f) allow

unfoldable pub can_reject : ApprovalFacts → Decision
unfolding check_waiting_approval
can_reject f = unless_rejected (check_waiting_approval f) allow

pub data CheckpointInvalidSource : Type 0 where
  request_approval approve reject_entry : CheckpointInvalidSource
  unknown : String → CheckpointInvalidSource

unfoldable pub can_terminalize_checkpoint_invalid :
    CheckpointInvalidSource → ApprovalFacts → Decision
unfolding check_waiting_approval
can_terminalize_checkpoint_invalid CheckpointInvalidSource.request_approval f =
    can_enter_waiting_approval f
can_terminalize_checkpoint_invalid CheckpointInvalidSource.approve f = check_waiting_approval f
can_terminalize_checkpoint_invalid CheckpointInvalidSource.reject_entry f = check_waiting_approval f
can_terminalize_checkpoint_invalid (CheckpointInvalidSource.unknown _) f =
    reject RejectionReason.invalid_source
