-- ===== src/TaskRuntime/Termination.antt =====
-- internal/taskruntime/termination_port.go, cancel.go and timeout.go: how a task is cancelled or
-- expired. Here are the facts that both commands lock and the atomic update that they ask for
-- (`terminationRequest`); `Cancel` and `Expire` have the commands. No implementation of the repository
-- of terminations stands beside them, so it is a parameter, over a state of its own.
pub mod Receipt
pub mod Cancel
pub mod Kept
pub mod Expire
pub mod Tools
pub mod Replay
pub mod Signal
pub mod Deadline
mod Examples
use agentops_go.Prelude.{
  ℕ, String, Bool, true, false, not, ◌&&◌, ◌||◌, Option, none, some, List, [], ◌∷◌, ◌==◌,
  if◌then◌else◌, text_eq, is_none,
}
use agentops_go.Contracts.Status.{
  TaskStatus, RunStatus, ExecutionStatus, StepStatus, ToolExecutionStatus, execution_status_eq,
  step_status_terminal,
}
use agentops_go.Contracts.Codes.{ErrorCode, TerminationReason}
use agentops_go.Lifecycle.{
  Decision, can_task_transition, can_run_transition, can_step_transition, can_execution_transition,
}
use agentops_go.TaskRuntime.Entity.{Task, Run, TaskExecution}
use agentops_go.TaskRuntime.Store.Transaction.{TxError, Result, ok, err}

pub record TerminationStep : Type 0 where
  pub step_id : String
  pub status : StepStatus
  pub error_code : Option ErrorCode
  pub ended_at : Option ℕ

pub record TerminationToolExecution : Type 0 where
  pub tool_execution_id : String
  pub tool_name : String
  pub status : ToolExecutionStatus
  pub error_code : Option ErrorCode
  pub side_effect_unknown : Bool
  pub ended_at : Option ℕ

pub record TerminationFacts : Type 0 where
  pub task : Task
  pub run : Run
  pub execution : TaskExecution
  pub step : Option TerminationStep
  pub tool_execution : Option TerminationToolExecution

pub record ApplyTerminationRequest : Type 0 where
  pub task_id : String
  pub expected_execution_version : ℕ
  pub expected_task_status : TaskStatus
  pub expected_run_status : RunStatus
  pub expected_execution_status : ExecutionStatus
  pub expected_step_status : Option StepStatus
  pub expected_tool_status : Option ToolExecutionStatus
  pub task_status : TaskStatus
  pub task_error_code : ErrorCode
  pub run_error_code : ErrorCode
  pub step_error_code : ErrorCode
  pub execution_error_code : Option ErrorCode
  pub termination_reason : TerminationReason
  pub tool_status : Option ToolExecutionStatus
  pub tool_error_code : Option ErrorCode
  pub tool_side_effect_unknown : Bool
  pub ended_at : ℕ
  pub preserve_execution_ended_at : Bool

pub data RiskLevel : Type 0 where
  low high : RiskLevel
  unknown : String → RiskLevel

-- What a termination reads of a configured tool and of an agent.
pub record ToolDefinition : Type 0 where
  pub name : String
  pub enabled : Bool
  pub risk_level : RiskLevel
  pub read_only : Bool

pub record AgentTools : Type 0 where
  pub enabled : Bool
  pub tools : List ToolDefinition

-- The risk and the flag must agree.
unfoldable pub capability : ToolDefinition → Result Bool
capability d = elim d.risk_level [
  | RiskLevel.low ↦ if d.read_only then ok true else err TxError.persistence_invariant_violation
  | RiskLevel.high ↦ if d.read_only then err TxError.persistence_invariant_violation else ok false
  | RiskLevel.unknown _ ↦ err TxError.persistence_invariant_violation
]

unfoldable pub find_tool : String → List ToolDefinition → Result Bool
find_tool name [] = err TxError.persistence_invariant_violation
find_tool name (d ∷ ds) =
    let rest = find_tool name ds in if d.enabled && text_eq d.name name then capability d else rest

-- `toolReadOnly`, with the configuration of the agent.
unfoldable pub tool_read_only : Option AgentTools → String → Result Bool
tool_read_only none name = err TxError.config_unavailable
tool_read_only (some a) name =
    if a.enabled then find_tool name a.tools else err TxError.config_unavailable

unfoldable pub attributed : TerminationFacts → Bool
attributed f =
    f.task.current_execution_version == f.execution.execution_version
    && text_eq f.run.task_id f.task.task_id
    && text_eq f.run.run_id f.task.current_run_id
    && text_eq f.execution.task_id f.task.task_id

-- A rejected transition, if there is one.
unfoldable pub rejected : TerminationFacts → TaskStatus → Option TxError
rejected f to =
    let task = can_task_transition f.task.status to in
    let run = can_run_transition f.run.status RunStatus.failed in
    let execution = can_execution_transition f.execution.status ExecutionStatus.failed in
    if not task.allowed
    then some (TxError.lifecycle task.reason)
    else if not run.allowed
    then some (TxError.lifecycle run.reason)
    else if not execution.allowed
    then some (TxError.lifecycle execution.reason)
    else none

is_mismatch : Option ErrorCode → Bool
is_mismatch (some ErrorCode.config_version_mismatch) = true
is_mismatch _ = false

-- The request before the step and the tool are looked at.
unfoldable pub base_request :
    TerminationFacts → ℕ → TaskStatus → ErrorCode → TerminationReason → ApplyTerminationRequest
unfolding execution_status_eq is_mismatch
base_request f now to code reason = record {
  task_id = f.task.task_id;
  expected_execution_version = f.execution.execution_version;
  expected_task_status = f.task.status;
  expected_run_status = f.run.status;
  expected_execution_status = f.execution.status;
  expected_step_status = none;
  expected_tool_status = none;
  task_status = to;
  task_error_code = code;
  run_error_code = code;
  step_error_code = code;
  execution_error_code =
      if is_mismatch f.execution.error_code then f.execution.error_code else none;
  termination_reason = reason;
  tool_status = none;
  tool_error_code = none;
  tool_side_effect_unknown = false;
  ended_at = now;
  preserve_execution_ended_at = execution_status_eq f.execution.status ExecutionStatus.interrupted;
}

-- A step that has not ended fails with the task.
unfoldable pub with_step :
    Option TerminationStep → ApplyTerminationRequest → Result ApplyTerminationRequest
with_step none r = ok r
with_step (some s) r =
    let d = can_step_transition s.status StepStatus.failed in
    if step_status_terminal s.status
    then ok r
    else if not d.allowed
    then err (TxError.lifecycle d.reason)
    else ok (record r { expected_step_status = some s.status })

-- A running tool that only reads has failed; what one that writes has done is unknown.
unfoldable pub stopped_tool : ErrorCode → ApplyTerminationRequest → Bool → ApplyTerminationRequest
stopped_tool code r true = record r {
  expected_tool_status = some ToolExecutionStatus.running;
  tool_status = some ToolExecutionStatus.failed;
  tool_error_code = some code;
}
stopped_tool code r false = record r {
  expected_tool_status = some ToolExecutionStatus.running;
  tool_status = some ToolExecutionStatus.unknown_outcome;
  tool_side_effect_unknown = true;
  execution_error_code =
      if is_none r.execution_error_code
      then some ErrorCode.write_tool_interrupted
      else r.execution_error_code;
}

unfoldable pub tool_running : ToolExecutionStatus → Bool
tool_running ToolExecutionStatus.running = true
tool_running _ = false

unfoldable pub classified_tool :
    ErrorCode → ApplyTerminationRequest → Result Bool → Result ApplyTerminationRequest
unfolding stopped_tool
classified_tool code r (err e) = err e
classified_tool code r (ok read_only) = ok (stopped_tool code r read_only)

unfoldable pub with_tool :
    Option AgentTools
    → Option TerminationToolExecution
    → ErrorCode
    → ApplyTerminationRequest
    → Result ApplyTerminationRequest
with_tool agent none code r = ok r
with_tool agent (some t) code r =
    if tool_running t.status
    then classified_tool code r (tool_read_only agent t.tool_name)
    else ok r

unfoldable pub then_tool :
    Option AgentTools
    → TerminationFacts
    → ErrorCode
    → Result ApplyTerminationRequest
    → Result ApplyTerminationRequest
then_tool agent f code (err e) = err e
then_tool agent f code (ok r) = with_tool agent f.tool_execution code r

-- `terminationRequest`, with the configuration of the task's agent.
unfoldable pub termination_request :
    Option AgentTools
    → TerminationFacts
    → ℕ
    → TaskStatus
    → ErrorCode
    → TerminationReason
    → Result ApplyTerminationRequest
termination_request agent f now to code reason =
    if not (attributed f)
    then err TxError.persistence_invariant_violation
    else elim (rejected f to) [
      | some e ↦ err e
      | none ↦ then_tool agent f code (with_step f.step (base_request f now to code reason))
    ]
