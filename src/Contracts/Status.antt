-- ===== src/Contracts/Status.antt =====
-- internal/contracts/status.go. A status is a Go string: `unknown s` is a string s that is none of
-- the declared constants.
use agentops_go.Prelude.{String, Bool, true, false, ◌||◌, text_eq}

pub data TaskStatus : Type 0 where
  pending running waiting_approval interrupted completed failed cancelled : TaskStatus
  unknown : String → TaskStatus

pub data RunStatus : Type 0 where
  pending running waiting_approval completed failed : RunStatus
  unknown : String → RunStatus

pub data StepStatus : Type 0 where
  pending running waiting_approval completed failed : StepStatus
  unknown : String → StepStatus

pub data ExecutionStatus : Type 0 where
  queued running waiting_approval completed failed interrupted : ExecutionStatus
  unknown : String → ExecutionStatus

pub data ToolExecutionStatus : Type 0 where
  running completed failed unknown_outcome : ToolExecutionStatus
  unknown : String → ToolExecutionStatus

pub data ApprovalStatus : Type 0 where
  pending approved rejected : ApprovalStatus
  unknown : String → ApprovalStatus

-- Equality of the underlying strings.
unfoldable pub task_status_eq : TaskStatus → TaskStatus → Bool
task_status_eq TaskStatus.pending TaskStatus.pending = true
task_status_eq TaskStatus.running TaskStatus.running = true
task_status_eq TaskStatus.waiting_approval TaskStatus.waiting_approval = true
task_status_eq TaskStatus.interrupted TaskStatus.interrupted = true
task_status_eq TaskStatus.completed TaskStatus.completed = true
task_status_eq TaskStatus.failed TaskStatus.failed = true
task_status_eq TaskStatus.cancelled TaskStatus.cancelled = true
task_status_eq (TaskStatus.unknown s) (TaskStatus.unknown t) = text_eq s t
task_status_eq _ _ = false

unfoldable pub run_status_eq : RunStatus → RunStatus → Bool
run_status_eq RunStatus.pending RunStatus.pending = true
run_status_eq RunStatus.running RunStatus.running = true
run_status_eq RunStatus.waiting_approval RunStatus.waiting_approval = true
run_status_eq RunStatus.completed RunStatus.completed = true
run_status_eq RunStatus.failed RunStatus.failed = true
run_status_eq (RunStatus.unknown s) (RunStatus.unknown t) = text_eq s t
run_status_eq _ _ = false

unfoldable pub step_status_eq : StepStatus → StepStatus → Bool
step_status_eq StepStatus.pending StepStatus.pending = true
step_status_eq StepStatus.running StepStatus.running = true
step_status_eq StepStatus.waiting_approval StepStatus.waiting_approval = true
step_status_eq StepStatus.completed StepStatus.completed = true
step_status_eq StepStatus.failed StepStatus.failed = true
step_status_eq (StepStatus.unknown s) (StepStatus.unknown t) = text_eq s t
step_status_eq _ _ = false

unfoldable pub execution_status_eq : ExecutionStatus → ExecutionStatus → Bool
execution_status_eq ExecutionStatus.queued ExecutionStatus.queued = true
execution_status_eq ExecutionStatus.running ExecutionStatus.running = true
execution_status_eq ExecutionStatus.waiting_approval ExecutionStatus.waiting_approval = true
execution_status_eq ExecutionStatus.completed ExecutionStatus.completed = true
execution_status_eq ExecutionStatus.failed ExecutionStatus.failed = true
execution_status_eq ExecutionStatus.interrupted ExecutionStatus.interrupted = true
execution_status_eq (ExecutionStatus.unknown s) (ExecutionStatus.unknown t) = text_eq s t
execution_status_eq _ _ = false

unfoldable pub approval_status_eq : ApprovalStatus → ApprovalStatus → Bool
approval_status_eq ApprovalStatus.pending ApprovalStatus.pending = true
approval_status_eq ApprovalStatus.approved ApprovalStatus.approved = true
approval_status_eq ApprovalStatus.rejected ApprovalStatus.rejected = true
approval_status_eq (ApprovalStatus.unknown s) (ApprovalStatus.unknown t) = text_eq s t
approval_status_eq _ _ = false

unfoldable pub task_status_valid : TaskStatus → Bool
task_status_valid (TaskStatus.unknown _) = false
task_status_valid _ = true

unfoldable pub task_status_terminal : TaskStatus → Bool
unfolding task_status_eq
task_status_terminal s =
    task_status_eq s TaskStatus.completed
    || task_status_eq s TaskStatus.failed
    || task_status_eq s TaskStatus.cancelled

unfoldable pub run_status_valid : RunStatus → Bool
run_status_valid (RunStatus.unknown _) = false
run_status_valid _ = true

unfoldable pub run_status_terminal : RunStatus → Bool
unfolding run_status_eq
run_status_terminal s = run_status_eq s RunStatus.completed || run_status_eq s RunStatus.failed

unfoldable pub step_status_valid : StepStatus → Bool
step_status_valid (StepStatus.unknown _) = false
step_status_valid _ = true

unfoldable pub step_status_terminal : StepStatus → Bool
unfolding step_status_eq
step_status_terminal s = step_status_eq s StepStatus.completed || step_status_eq s StepStatus.failed

unfoldable pub execution_status_valid : ExecutionStatus → Bool
execution_status_valid (ExecutionStatus.unknown _) = false
execution_status_valid _ = true

unfoldable pub execution_status_ended : ExecutionStatus → Bool
unfolding execution_status_eq
execution_status_ended s =
    execution_status_eq s ExecutionStatus.completed
    || execution_status_eq s ExecutionStatus.failed
    || execution_status_eq s ExecutionStatus.interrupted
