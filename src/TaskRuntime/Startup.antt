-- ===== src/TaskRuntime/Startup.antt =====
-- internal/taskruntime/startup_cleanup.go: how a starting process classifies the executions that an
-- earlier worker left running. Here are the facts of one, their validation and the static capability
-- of its tool; `Scene` has the checkpoint, `Service` the classification and the transaction. The
-- repository has no implementation beside it, so it is a parameter over a state of its own, as are the
-- checkpoints, the reports, the configuration and its hash.
pub mod Scene
pub mod Request
pub mod Service
pub mod Matrix
pub mod Tool
pub mod Classified
pub mod Kept
pub mod Counted
pub mod WriteTool
mod Examples
use agentops_go.Prelude.{
  ℕ, String, Bool, true, false, not, ◌&&◌, ◌||◌, Option, none, some, List, [], ◌∷◌, ◌==◌, ltb,
  if◌then◌else◌, text_eq, option_text_eq, is_none,
}
use agentops_go.Contracts.Status.{
  TaskStatus, RunStatus, ExecutionStatus, StepStatus, ToolExecutionStatus, ApprovalStatus,
  task_status_eq, run_status_eq, execution_status_eq, step_status_eq,
}
use agentops_go.Contracts.Codes.{ErrorCode}
use agentops_go.TaskRuntime.Entity.{Task, Run, TaskExecution}
use agentops_go.TaskRuntime.Store.Transaction.{TxError, Result, ok, err}
use agentops_go.TaskRuntime.Termination.{RiskLevel, ToolDefinition, AgentTools, tool_running}

-- `StepType` of internal/contracts/execution_config.go.
pub data StepType : Type 0 where
  analysis model_call tool_call verification : StepType
  unknown : String → StepType

pub record StartupCleanupStep : Type 0 where
  pub step_id : String
  pub step_type : StepType
  pub status : StepStatus
  pub tool_name : String
  pub error_code : Option ErrorCode
  pub ended_at : Option ℕ

pub record StartupCleanupToolExecution : Type 0 where
  pub tool_execution_id : String
  pub task_id : String
  pub step_id : String
  pub execution_version : ℕ
  pub tool_name : String
  pub status : ToolExecutionStatus
  pub error_code : Option ErrorCode
  pub side_effect_unknown : Bool
  pub ended_at : Option ℕ

pub record StartupCleanupApprovedRecovery : Type 0 where
  pub approval_id : String
  pub task_id : String
  pub status : ApprovalStatus
  pub approval_execution_version : ℕ
  pub approval_config_hash : String
  pub source_execution_config_hash : String
  pub tool_name : String
  pub frozen_tool_input : String
  pub observed_values : String
  pub resource_version : String
  pub frozen_input_hash : String

pub record StartupCleanupFacts : Type 0 where
  pub task : Task
  pub run : Run
  pub execution : TaskExecution
  pub step : Option StartupCleanupStep
  pub tool_execution : Option StartupCleanupToolExecution
  pub approved_recovery : Option StartupCleanupApprovedRecovery

unfoldable pub is_tool_call : StepType → Bool
is_tool_call StepType.tool_call = true
is_tool_call _ = false

-- The worker of an execution, a pointer in the source.
abbrev pub worker_of : Option String → String
worker_of none = ""
worker_of (some w) = w

-- The owner is another worker, and the task, the run and the execution belong together and run.
unfoldable pub objects_valid : StartupCleanupFacts → String → Bool
unfolding task_status_eq run_status_eq execution_status_eq
objects_valid f w =
    execution_status_eq f.execution.status ExecutionStatus.running
    && not (is_none f.execution.worker_id)
    && not (text_eq (worker_of f.execution.worker_id) "")
    && not (text_eq (worker_of f.execution.worker_id) w)
    && not (text_eq f.task.task_id "")
    && f.task.current_execution_version == f.execution.execution_version
    && text_eq f.execution.task_id f.task.task_id
    && text_eq f.run.task_id f.task.task_id
    && text_eq f.run.run_id f.task.current_run_id
    && task_status_eq f.task.status TaskStatus.running
    && is_none f.task.queued_at
    && run_status_eq f.run.status RunStatus.running
    && not (f.task.deadline_at == 0)

-- The current step runs and is the run's.
unfoldable pub step_valid : Option StartupCleanupStep → Option String → Bool
unfolding step_status_eq
step_valid none current = is_none current
step_valid (some s) current =
    not (text_eq s.step_id "")
    && step_status_eq s.status StepStatus.running
    && option_text_eq current (some s.step_id)

-- `validateStartupFacts`.
unfoldable pub startup_facts_valid : StartupCleanupFacts → String → Bool
unfolding objects_valid step_valid
startup_facts_valid f w = objects_valid f w && step_valid f.step f.run.current_step_id

-- `startupToolClassification`.
pub data StartupTool : Type 0 where
  no_tool read_boundary write_boundary read_running write_running : StartupTool

-- The only enabled tool of the name; two of them are refused.
unfoldable pub startup_tool_from :
    String → Option ToolDefinition → List ToolDefinition → Result ToolDefinition
startup_tool_from name none [] = err TxError.persistence_invariant_violation
startup_tool_from name (some d) [] = ok d
startup_tool_from name match (d ∷ ds) =
    let taken = startup_tool_from name (some d) ds in
    let passed = startup_tool_from name match ds in
    if d.enabled && text_eq d.name name
    then if is_none match then taken else err TxError.persistence_invariant_violation
    else passed

unfoldable pub startup_tool_definition : AgentTools → String → Result ToolDefinition
startup_tool_definition a name = startup_tool_from name none a.tools

abbrev pub is_low : RiskLevel → Bool
is_low RiskLevel.low = true
is_low _ = false

abbrev pub is_high : RiskLevel → Bool
is_high RiskLevel.high = true
is_high _ = false

abbrev pub read_tool : ToolDefinition → Bool
read_tool d = is_low d.risk_level && d.read_only

abbrev pub write_tool : ToolDefinition → Bool
write_tool d = is_high d.risk_level && not d.read_only

-- The tool execution is the current action of the step, and runs.
unfoldable pub tool_execution_valid :
    StartupCleanupFacts → StartupCleanupStep → StartupCleanupToolExecution → Bool
unfolding tool_running
tool_execution_valid f s t =
    text_eq t.task_id f.task.task_id
    && text_eq t.step_id s.step_id
    && t.execution_version == f.execution.execution_version
    && text_eq t.tool_name s.tool_name
    && tool_running t.status
    && not t.side_effect_unknown
    && is_none t.ended_at

unfoldable pub kind_of_tool :
    StartupCleanupFacts
    → StartupCleanupStep
    → Option StartupCleanupToolExecution
    → ToolDefinition
    → Result StartupTool
unfolding tool_execution_valid
kind_of_tool f s t d =
    if not (read_tool d) && not (write_tool d)
    then err TxError.persistence_invariant_violation
    else elim t [
      | none ↦ ok (if read_tool d then StartupTool.read_boundary else StartupTool.write_boundary)
      | some e ↦
          if not (tool_execution_valid f s e)
          then err TxError.persistence_invariant_violation
          else if read_tool d
          then ok StartupTool.read_running
          else if write_tool d
          then ok StartupTool.write_running
          else err TxError.persistence_invariant_violation
    ]

abbrev pub with_definition :
    StartupCleanupFacts → StartupCleanupStep → Result ToolDefinition → Result StartupTool
with_definition f s (err e) = err e
with_definition f s (ok d) = kind_of_tool f s f.tool_execution d

unfoldable pub no_tool_kind : Option StartupCleanupToolExecution → Result StartupTool
no_tool_kind none = ok StartupTool.no_tool
no_tool_kind (some _) = err TxError.persistence_invariant_violation

unfoldable pub kind_of_step :
    StartupCleanupFacts → AgentTools → Option StartupCleanupStep → Result StartupTool
unfolding is_tool_call no_tool_kind
kind_of_step f a none = no_tool_kind f.tool_execution
kind_of_step f a (some s) =
    if not (is_tool_call s.step_type)
    then no_tool_kind f.tool_execution
    else if text_eq s.tool_name ""
    then err TxError.persistence_invariant_violation
    else with_definition f s (startup_tool_definition a s.tool_name)

-- `startupToolKind`.
unfoldable pub startup_tool_kind : StartupCleanupFacts → AgentTools → Result StartupTool
unfolding kind_of_step
startup_tool_kind f a = kind_of_step f a f.step
