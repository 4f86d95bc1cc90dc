-- ===== src/TaskRuntime/Startup/Matrix.antt =====
-- docs/design/004-task-runtime-detailed-design.md, 6.11: the matrix by which the design classifies an
-- execution that was left running, and the write that a row of it asks for.
use agentops_go.Prelude.{ℕ, Bool, true, false, Option, none, some, if◌then◌else◌}
use agentops_go.Contracts.Status.{ToolExecutionStatus}
use agentops_go.Contracts.Codes.{ErrorCode, TerminationReason, ReasonCode}
use agentops_go.TaskRuntime.Startup.{StartupCleanupFacts, StartupTool, worker_of}
use agentops_go.TaskRuntime.Startup.Request.{
  StartupCleanupDisposition, ApplyStartupCleanupRequest, step_status_of, tool_status_of,
}

-- What is to become of the task, the execution and the tool. An execution error that is not named is
-- not written.
pub record Row : Type 0 where
  pub ends : Bool
  pub task_error : Option ErrorCode
  pub execution_error : ErrorCode
  pub reason : Option TerminationReason
  pub tool_status : Option ToolExecutionStatus
  pub tool_error : Option ErrorCode
  pub side_effect_unknown : Bool

-- A task that is ended, one that is interrupted.
abbrev ended_with : ErrorCode → ErrorCode → Option TerminationReason → Row
ended_with task execution reason = record {
  ends = true;
  task_error = some task;
  execution_error = execution;
  reason = reason;
  tool_status = none;
  tool_error = none;
  side_effect_unknown = false;
}

abbrev interrupted_row : Row
interrupted_row = record {
  ends = false;
  task_error = none;
  execution_error = ErrorCode.worker_interrupted;
  reason = none;
  tool_status = none;
  tool_error = none;
  side_effect_unknown = false;
}

abbrev tool_failed : ErrorCode → Row → Row
tool_failed e r = record r { tool_status = some ToolExecutionStatus.failed; tool_error = some e }

abbrev outcome_unknown : Row → Row
outcome_unknown r = record r {
  tool_status = some ToolExecutionStatus.unknown_outcome;
  side_effect_unknown = true;
}

-- Behind the deadline, before it with a checkpoint that is invalid, and before it.
abbrev pub late_row : StartupTool → Row
late_row StartupTool.write_running = outcome_unknown (
    ended_with ErrorCode.task_timeout ErrorCode.write_tool_interrupted
      (some TerminationReason.timed_out))
late_row StartupTool.read_running =
    tool_failed ErrorCode.task_timeout
      (ended_with ErrorCode.task_timeout (ErrorCode.unknown "") (some TerminationReason.timed_out))
late_row _ =
    ended_with ErrorCode.task_timeout (ErrorCode.unknown "") (some TerminationReason.timed_out)

abbrev pub invalid_row : Row
invalid_row = ended_with ErrorCode.checkpoint_invalid ErrorCode.checkpoint_invalid none

abbrev pub timely_row : StartupTool → Row
timely_row StartupTool.write_running =
    outcome_unknown
      (ended_with ErrorCode.write_tool_interrupted ErrorCode.write_tool_interrupted none)
timely_row StartupTool.read_running = tool_failed ErrorCode.worker_interrupted interrupted_row
timely_row _ = interrupted_row

abbrev pub matrix : Bool → Option ReasonCode → StartupTool → Row
matrix true reason kind = late_row kind
matrix false (some _) kind = invalid_row
matrix false none kind = timely_row kind

-- The write of a row on the objects as they were locked, at the time of the transaction.
abbrev pub row_request :
    StartupCleanupFacts → ℕ → Row → Option ReasonCode → ApplyStartupCleanupRequest
row_request f now row checkpoint_reason = record {
  task_id = f.task.task_id;
  execution_version = f.execution.execution_version;
  expected_worker_id = worker_of f.execution.worker_id;
  expected_task_status = f.task.status;
  expected_run_status = f.run.status;
  expected_execution_status = f.execution.status;
  expected_step_status = step_status_of f.step;
  expected_tool_status = tool_status_of f.tool_execution;
  disposition =
      if row.ends then StartupCleanupDisposition.terminal else StartupCleanupDisposition.interrupt;
  task_error_code = row.task_error;
  execution_error_code = row.execution_error;
  termination_reason = row.reason;
  step_error_code = row.task_error;
  tool_status = row.tool_status;
  tool_error_code = row.tool_error;
  tool_side_effect_unknown = row.side_effect_unknown;
  ended_at = now;
  checkpoint_reason_code = checkpoint_reason;
}

-- The request of a scene, and whether it ends the task.
abbrev pub prescribed :
    StartupCleanupFacts
    → ℕ
    → Bool
    → Option ReasonCode
    → StartupTool
    → ApplyStartupCleanupRequest × Bool
prescribed f now late reason kind =
    let row = matrix late reason kind in (row_request f now row reason, row.ends)
