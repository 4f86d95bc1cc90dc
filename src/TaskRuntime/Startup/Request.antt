-- ===== src/TaskRuntime/Startup/Request.antt =====
-- internal/taskruntime/startup_cleanup.go: the requests of a cleanup, its summary and its ports.
use agentops_go.Prelude.{ℕ, String, Bool, true, false, Option, none, some, List}
use agentops_go.Contracts.Status.{
  TaskStatus, RunStatus, ExecutionStatus, StepStatus, ToolExecutionStatus,
}
use agentops_go.Contracts.Codes.{ErrorCode, TerminationReason, ReasonCode}
use agentops_go.TaskRuntime.Store.Transaction.{Tx, Result}
use agentops_go.TaskRuntime.Ports.{RuntimeCheckpoint, EnsurePendingReportResult}
use agentops_go.TaskRuntime.Termination.{AgentTools}
use agentops_go.TaskRuntime.Startup.{
  StartupCleanupStep, StartupCleanupToolExecution, StartupCleanupFacts, StartupTool, worker_of,
}

pub data StartupCleanupDisposition : Type 0 where
  interrupt terminal : StartupCleanupDisposition
  unknown : String → StartupCleanupDisposition

pub record ApplyStartupCleanupRequest : Type 0 where
  pub task_id : String
  pub execution_version : ℕ
  pub expected_worker_id : String
  pub expected_task_status : TaskStatus
  pub expected_run_status : RunStatus
  pub expected_execution_status : ExecutionStatus
  pub expected_step_status : Option StepStatus
  pub expected_tool_status : Option ToolExecutionStatus
  pub disposition : StartupCleanupDisposition
  pub task_error_code : Option ErrorCode
  pub execution_error_code : ErrorCode
  pub termination_reason : Option TerminationReason
  pub step_error_code : Option ErrorCode
  pub tool_status : Option ToolExecutionStatus
  pub tool_error_code : Option ErrorCode
  pub tool_side_effect_unknown : Bool
  pub ended_at : ℕ
  pub checkpoint_reason_code : Option ReasonCode

-- `foreign` is a value of no declared variant.
pub data StartupCleanupCheckpointResult : Type 0 where
  valid : RuntimeCheckpoint → StartupCleanupCheckpointResult
  invalid : ReasonCode → StartupCleanupCheckpointResult
  foreign : StartupCleanupCheckpointResult

pub record StartupCleanupSummary : Type 0 where
  pub inspected : ℕ
  pub interrupted : ℕ
  pub terminalized : ℕ

-- The configuration of an agent as it is looked up; `config` stands for all that is hashed.
pub record StartupConfig : Type 0 where
  pub agent_id : String
  pub tools : AgentTools
  pub config : String

pub record StartupPorts (D : Type 0) : Type 0 where
  pub now : Tx D ℕ
  pub lock_legacy_running_executions : String → Tx D (List StartupCleanupFacts)
  pub load_latest : String → String → ℕ → Tx D StartupCleanupCheckpointResult
  pub apply : ApplyStartupCleanupRequest → Tx D Bool
  pub ensure_pending : String × String × ℕ → Tx D EnsurePendingReportResult
  pub lookup_agent : String → Option StartupConfig
  pub hash_execution_config : StartupConfig → Result String
  pub json_valid : String → Bool

abbrev pub step_status_of : Option StartupCleanupStep → Option StepStatus
step_status_of none = none
step_status_of (some s) = some s.status

abbrev pub tool_status_of : Option StartupCleanupToolExecution → Option ToolExecutionStatus
tool_status_of none = none
tool_status_of (some t) = some t.status

-- Go's zero values stand where the request says nothing.
unfoldable pub base_cleanup : StartupCleanupFacts → ℕ → ApplyStartupCleanupRequest
base_cleanup f now = record {
  task_id = f.task.task_id;
  execution_version = f.execution.execution_version;
  expected_worker_id = worker_of f.execution.worker_id;
  expected_task_status = f.task.status;
  expected_run_status = f.run.status;
  expected_execution_status = f.execution.status;
  expected_step_status = step_status_of f.step;
  expected_tool_status = tool_status_of f.tool_execution;
  disposition = StartupCleanupDisposition.unknown "";
  task_error_code = none;
  execution_error_code = ErrorCode.unknown "";
  termination_reason = none;
  step_error_code = none;
  tool_status = none;
  tool_error_code = none;
  tool_side_effect_unknown = false;
  ended_at = now;
  checkpoint_reason_code = none;
}

unfoldable pub interrupt_startup_request :
    ApplyStartupCleanupRequest → StartupTool → ApplyStartupCleanupRequest
interrupt_startup_request r StartupTool.read_running = record r {
  disposition = StartupCleanupDisposition.interrupt;
  execution_error_code = ErrorCode.worker_interrupted;
  tool_status = some ToolExecutionStatus.failed;
  tool_error_code = some ErrorCode.worker_interrupted;
}
interrupt_startup_request r _ = record r {
  disposition = StartupCleanupDisposition.interrupt;
  execution_error_code = ErrorCode.worker_interrupted;
}

unfoldable pub write_tool_startup_request : ApplyStartupCleanupRequest → ApplyStartupCleanupRequest
write_tool_startup_request r = record r {
  disposition = StartupCleanupDisposition.terminal;
  task_error_code = some ErrorCode.write_tool_interrupted;
  step_error_code = some ErrorCode.write_tool_interrupted;
  execution_error_code = ErrorCode.write_tool_interrupted;
  tool_status = some ToolExecutionStatus.unknown_outcome;
  tool_side_effect_unknown = true;
}

abbrev pub timed_out_request : ApplyStartupCleanupRequest → ApplyStartupCleanupRequest
timed_out_request r = record r {
  disposition = StartupCleanupDisposition.terminal;
  task_error_code = some ErrorCode.task_timeout;
  step_error_code = some ErrorCode.task_timeout;
  termination_reason = some TerminationReason.timed_out;
}

unfoldable pub timeout_startup_request :
    ApplyStartupCleanupRequest
    → Option StartupCleanupToolExecution
    → StartupTool
    → ApplyStartupCleanupRequest
timeout_startup_request r t StartupTool.write_running = record (timed_out_request r) {
  execution_error_code = ErrorCode.write_tool_interrupted;
  tool_status = some ToolExecutionStatus.unknown_outcome;
  tool_side_effect_unknown = true;
}
timeout_startup_request r (some t) StartupTool.read_running = record (timed_out_request r) {
  tool_status = some ToolExecutionStatus.failed;
  tool_error_code = some ErrorCode.task_timeout;
}
timeout_startup_request r t _ = timed_out_request r

unfoldable pub checkpoint_invalid_startup_request :
    ApplyStartupCleanupRequest → ReasonCode → ApplyStartupCleanupRequest
checkpoint_invalid_startup_request r reason = record r {
  disposition = StartupCleanupDisposition.terminal;
  task_error_code = some ErrorCode.checkpoint_invalid;
  step_error_code = some ErrorCode.checkpoint_invalid;
  execution_error_code = ErrorCode.checkpoint_invalid;
  checkpoint_reason_code = some reason;
}
