-- ===== src/Contracts/Codes.antt =====
-- internal/contracts/codes.go: the closed sets of codes. A code is a Go string: `unknown s` is a
-- string s that is none of the declared constants.
use agentops_go.Prelude.{String, Bool, true, false}

pub data ErrorCode : Type 0 where
  task_cancelled task_timeout config_version_mismatch data_inconsistent : ErrorCode
  checkpoint_invalid plan_generation_failed plan_validation_failed : ErrorCode
  input_resolution_failed model_input_too_large model_call_failed : ErrorCode
  model_output_invalid result_sanitization_failed step_output_invalid : ErrorCode
  step_output_too_large tool_not_found tool_disabled tool_not_authorized : ErrorCode
  tool_input_invalid tool_access_denied tool_timeout tool_connection_lost : ErrorCode
  tool_call_failed approval_context_changed approval_rejected write_tool_interrupted : ErrorCode
  worker_interrupted result_persistence_failed report_generation_failed : ErrorCode
  step_executor_contract_broken runtime_static_tool_snapshot_inconsistent : ErrorCode
  persistence_invariant_violation : ErrorCode
  unknown : String → ErrorCode

unfoldable pub error_code_valid : ErrorCode → Bool
error_code_valid (ErrorCode.unknown _) = false
error_code_valid _ = true

pub data TerminationReason : Type 0 where
  cancelled timed_out : TerminationReason
  unknown : String → TerminationReason

unfoldable pub termination_reason_valid : TerminationReason → Bool
termination_reason_valid (TerminationReason.unknown _) = false
termination_reason_valid _ = true

pub data ReasonCode : Type 0 where
  checkpoint_not_found runtime_context_malformed : ReasonCode
  runtime_context_version_unsupported checkpoint_attribution_mismatch : ReasonCode
  checkpoint_execution_hash_mismatch checkpoint_type_ambiguous : ReasonCode
  checkpoint_source_invalid checkpoint_plan_reference_invalid : ReasonCode
  checkpoint_step_reference_invalid checkpoint_step_output_reference_invalid : ReasonCode
  checkpoint_reference_syntax_invalid checkpoint_reference_path_invalid : ReasonCode
  checkpoint_reference_path_too_deep checkpoint_reference_limit_exceeded : ReasonCode
  checkpoint_reference_duplicate_target checkpoint_reference_order_invalid : ReasonCode
  checkpoint_reference_missing checkpoint_reference_extra : ReasonCode
  checkpoint_reference_source_invalid checkpoint_approval_reference_invalid : ReasonCode
  checkpoint_frozen_action_mismatch checkpoint_frozen_input_hash_mismatch : ReasonCode
  checkpoint_next_action_invalid : ReasonCode
  unknown : String → ReasonCode

unfoldable pub valid_for_checkpoint_invalid : ReasonCode → Bool
valid_for_checkpoint_invalid (ReasonCode.unknown _) = false
valid_for_checkpoint_invalid _ = true

pub data InvariantCode : Type 0 where
  current_execution_invalid queue_state_invalid claim_source_ambiguous : InvariantCode
  cross_object_state_invalid : InvariantCode
  unknown : String → InvariantCode

unfoldable pub invariant_code_valid : InvariantCode → Bool
invariant_code_valid (InvariantCode.unknown _) = false
invariant_code_valid _ = true
