-- ===== src/Contracts/Execution.antt =====
-- internal/contracts/execution.go and cancellation.go: claims, the closed results of the Worker port
-- and the causes of cancellation. An `ExecutionVersion` is an int64, here ℕ: a version that is not
-- positive is 0. `unknown s` is a string s that is none of the declared constants.
use agentops_go.Prelude.{ℕ, String, Bool, true, false, ltb}

abbrev pub execution_version_valid : ℕ → Bool
execution_version_valid v = ltb 0 v

pub data CheckpointNextAction : Type 0 where
  generate_plan execute_step request_approval execute_approved_tool : CheckpointNextAction
  finalize_run : CheckpointNextAction
  unknown : String → CheckpointNextAction

unfoldable pub next_action_valid : CheckpointNextAction → Bool
next_action_valid (CheckpointNextAction.unknown _) = false
next_action_valid _ = true

pub record ExecutionClaim : Type 0 where
  pub task_id : String
  pub run_id : String
  pub execution_version : ℕ
  pub worker_id : String
  pub claimed_at : ℕ

pub data ClaimResult : Type 0 where
  claimed : ExecutionClaim → ClaimResult
  no_work config_mismatch_interrupted checkpoint_invalid_terminalized : ClaimResult
  data_inconsistent_terminalized expired_terminalized : ClaimResult

pub data ExecuteResult : Type 0 where
  waiting_approval terminal stale : ExecuteResult

pub data ExecutionCancellationCause : Type 0 where
  task_cancelled task_timed_out action_timeout runtime_shutdown : ExecutionCancellationCause
  lock_lost : ExecutionCancellationCause
  unknown : String → ExecutionCancellationCause

unfoldable pub cancellation_cause_valid : ExecutionCancellationCause → Bool
cancellation_cause_valid (ExecutionCancellationCause.unknown _) = false
cancellation_cause_valid _ = true
