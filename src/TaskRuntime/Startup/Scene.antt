-- ===== src/TaskRuntime/Startup/Scene.antt =====
-- internal/taskruntime/startup_cleanup.go and execute.go: whether the latest checkpoint fits the scene
-- that an execution was left in, with the approval contexts that both files validate. `json_valid` is
-- `json.Valid`; versions are below 2 ^ 63 - 1.
use agentops_go.Prelude.{
  ℕ, String, Bool, true, false, not, ◌+◌, ◌&&◌, ◌||◌, Option, none, some, ◌==◌, leb, if◌then◌else◌,
  text_eq, is_none,
}
use agentops_go.Contracts.Status.{ApprovalStatus, approval_status_eq}
use agentops_go.Contracts.Codes.{ReasonCode}
use agentops_go.Contracts.Execution.{
  CheckpointNextAction, execution_version_valid, next_action_valid,
}
use agentops_go.Contracts.Hash.{hash_valid}
use agentops_go.TaskRuntime.Store.Transaction.{TxError, Result, ok, err}
use agentops_go.TaskRuntime.Ports.{ApprovalContext, RuntimeCheckpoint}
use agentops_go.TaskRuntime.Startup.{
  StartupCleanupStep, StartupCleanupFacts, StartupCleanupApprovedRecovery, StartupTool,
  is_tool_call,
}

unfoldable pub valid_approval_context : (String → Bool) → ApprovalContext → String → ℕ → Bool
valid_approval_context json_valid a name version =
    not (text_eq a.approval_id "")
    && execution_version_valid a.approval_execution_version
    && leb a.approval_execution_version version
    && text_eq a.tool_name name
    && not (text_eq a.resource_version "")
    && hash_valid a.frozen_input_hash
    && json_valid a.frozen_tool_input
    && json_valid a.observed_values

-- Where the approval of a checkpoint comes from: this version, or one that the source version still
-- had.
unfoldable pub approval_source_valid : RuntimeCheckpoint → ApprovalContext → Bool
approval_source_valid k a = elim k.source_execution_version [
  | none ↦ is_none k.source_checkpoint_id && a.approval_execution_version == k.execution_version
  | some v ↦ elim k.source_checkpoint_id [
    | none ↦ false
    | some id ↦
        execution_version_valid v
        && not (text_eq id "")
        && v + 1 == k.execution_version
        && leb a.approval_execution_version v
  ]
]

-- `validCheckpointApprovalContext`, on a checkpoint that has one.
unfoldable pub valid_checkpoint_approval_context :
    (String → Bool) → RuntimeCheckpoint → ApprovalContext → String → Bool
unfolding valid_approval_context approval_source_valid
valid_checkpoint_approval_context json_valid k a name =
    valid_approval_context json_valid a name k.execution_version && approval_source_valid k a

-- `validateStartupCheckpoint`.
unfoldable pub startup_checkpoint_valid : StartupCleanupFacts → RuntimeCheckpoint → Bool
startup_checkpoint_valid f k =
    not (text_eq k.checkpoint_id "")
    && text_eq k.task_id f.task.task_id
    && text_eq k.run_id f.run.run_id
    && k.execution_version == f.execution.execution_version
    && not (k.checkpoint_sequence == 0)
    && text_eq k.execution_config_hash f.execution.execution_config_hash
    && next_action_valid k.next_action

-- The context that an approval stands for.
abbrev pub context_of : StartupCleanupApprovedRecovery → ApprovalContext
context_of r = record {
  approval_id = r.approval_id;
  approval_execution_version = r.approval_execution_version;
  tool_name = r.tool_name;
  frozen_tool_input = r.frozen_tool_input;
  observed_values = r.observed_values;
  resource_version = r.resource_version;
  frozen_input_hash = r.frozen_input_hash;
}

-- A scene is in order, or shows the checkpoint to be invalid, or is inconsistent.
abbrev pub fits : Result (Option ReasonCode)
fits = ok none

abbrev pub unfit : ReasonCode → Result (Option ReasonCode)
unfit r = ok (some r)

abbrev pub inconsistent : Result (Option ReasonCode)
inconsistent = err TxError.persistence_invariant_violation

abbrev pub same_owner : ApprovalContext → StartupCleanupApprovedRecovery → String → Bool
same_owner c r name =
    text_eq c.approval_id r.approval_id
    && c.approval_execution_version == r.approval_execution_version
    && text_eq c.tool_name r.tool_name
    && text_eq name r.tool_name

abbrev pub same_content : ApprovalContext → StartupCleanupApprovedRecovery → Bool
same_content c r =
    text_eq c.resource_version r.resource_version
    && text_eq c.frozen_tool_input r.frozen_tool_input
    && text_eq c.observed_values r.observed_values

-- The approved tool: its checkpoint and its approval agree.
unfoldable pub approved_scene :
    (String → Bool)
    → StartupCleanupFacts
    → StartupCleanupStep
    → RuntimeCheckpoint
    → ApprovalContext
    → StartupCleanupApprovedRecovery
    → Result (Option ReasonCode)
unfolding valid_approval_context valid_checkpoint_approval_context approval_status_eq
approved_scene json_valid f s k c r =
    if not (text_eq r.task_id f.task.task_id)
    then inconsistent
    else if not
        (valid_approval_context json_valid (context_of r) s.tool_name f.execution.execution_version)
    then inconsistent
    else if not (approval_status_eq r.status ApprovalStatus.approved)
    then unfit ReasonCode.checkpoint_approval_reference_invalid
    else if not (valid_checkpoint_approval_context json_valid k c s.tool_name)
    then unfit ReasonCode.checkpoint_approval_reference_invalid
    else if not (same_owner c r s.tool_name)
    then unfit ReasonCode.checkpoint_approval_reference_invalid
    else if not (text_eq c.frozen_input_hash r.frozen_input_hash)
    then unfit ReasonCode.checkpoint_frozen_input_hash_mismatch
    else if not (same_content c r)
    then unfit ReasonCode.checkpoint_approval_reference_invalid
    else if not (text_eq r.approval_config_hash r.source_execution_config_hash)
        || not (text_eq r.source_execution_config_hash f.execution.execution_config_hash)
    then inconsistent
    else fits

abbrev pub is_read : StartupTool → Bool
is_read StartupTool.read_boundary = true
is_read StartupTool.read_running = true
is_read _ = false

abbrev pub is_write : StartupTool → Bool
is_write StartupTool.write_boundary = true
is_write StartupTool.write_running = true
is_write _ = false

abbrev pub is_write_boundary : StartupTool → Bool
is_write_boundary StartupTool.write_boundary = true
is_write_boundary _ = false

abbrev pub is_no_tool : StartupTool → Bool
is_no_tool StartupTool.no_tool = true
is_no_tool _ = false

unfoldable pub with_approval :
    (String → Bool)
    → StartupCleanupFacts
    → StartupCleanupStep
    → RuntimeCheckpoint
    → Option ApprovalContext
    → Option StartupCleanupApprovedRecovery
    → Result (Option ReasonCode)
with_approval json_valid f s k (some c) (some r) = approved_scene json_valid f s k c r
with_approval json_valid f s k _ _ = unfit ReasonCode.checkpoint_approval_reference_invalid

-- The scene of the next action, where a step is current.
unfoldable pub step_scene :
    (String → Bool)
    → StartupCleanupFacts
    → StartupCleanupStep
    → RuntimeCheckpoint
    → StartupTool
    → Result (Option ReasonCode)
unfolding with_approval is_tool_call
step_scene json_valid f s k kind = elim k.next_action [
  | CheckpointNextAction.generate_plan ↦ unfit ReasonCode.checkpoint_frozen_action_mismatch
  | CheckpointNextAction.execute_step ↦
      if not (is_none k.approval_context)
        || not (is_none f.approved_recovery)
        || (is_tool_call s.step_type && not (is_read kind))
      then unfit ReasonCode.checkpoint_frozen_action_mismatch
      else fits
  | CheckpointNextAction.request_approval ↦
      if not (is_tool_call s.step_type)
        || not (is_write_boundary kind)
        || not (is_none f.tool_execution)
        || not (is_none k.approval_context)
        || not (is_none f.approved_recovery)
      then unfit ReasonCode.checkpoint_frozen_action_mismatch
      else fits
  | CheckpointNextAction.execute_approved_tool ↦
      if not (is_tool_call s.step_type) || not (is_write kind)
      then unfit ReasonCode.checkpoint_frozen_action_mismatch
      else with_approval json_valid f s k k.approval_context f.approved_recovery
  | CheckpointNextAction.finalize_run ↦ unfit ReasonCode.checkpoint_frozen_action_mismatch
  | CheckpointNextAction.unknown _ ↦ inconsistent
]

-- The same, where none is.
unfoldable pub planning_scene : StartupCleanupFacts → RuntimeCheckpoint → Result (Option ReasonCode)
planning_scene f k = elim k.next_action [
  | CheckpointNextAction.generate_plan ↦
      if not (is_none f.tool_execution) || not (is_none f.approved_recovery)
      then unfit ReasonCode.checkpoint_frozen_action_mismatch
      else fits
  | CheckpointNextAction.finalize_run ↦ unfit ReasonCode.checkpoint_frozen_action_mismatch
  | _ ↦ inconsistent
]

-- Only a tool step has a tool.
abbrev pub tool_of_step :
    Bool → StartupTool → Result (Option ReasonCode) → Result (Option ReasonCode)
tool_of_step tool_step kind (ok none) =
    if not tool_step && not (is_no_tool kind) then inconsistent else fits
tool_of_step tool_step kind r = r

-- `validateStartupScene`.
unfoldable pub startup_scene :
    (String → Bool)
    → StartupCleanupFacts
    → RuntimeCheckpoint
    → StartupTool
    → Result (Option ReasonCode)
unfolding step_scene planning_scene is_tool_call
startup_scene json_valid f k kind = elim f.step [
  | none ↦ planning_scene f k
  | some s ↦ tool_of_step (is_tool_call s.step_type) kind (step_scene json_valid f s k kind)
]
