-- ===== src/TaskRuntime/Recover.antt =====
-- internal/taskruntime/recover.go: `RecoverTask`, which makes the next version of an interrupted
-- execution, or answers from the receipt of the same command. Here are its requests, receipts and ports,
-- and the phase that the locked objects are in; `Failure` has the statements and the failures,
-- `Version` and `Service` the transaction.
pub mod Failure
pub mod Version
pub mod Service
pub mod Rejected
pub mod Course
pub mod Answered
pub mod Stuck
pub mod Writes
pub mod Kept
pub mod Requeued
mod Examples
use agentops_go.Prelude.{
  ℕ, String, Bool, true, false, not, ◌+◌, ◌&&◌, ◌||◌, Option, none, some, ◌==◌, if◌then◌else◌,
  text_eq, is_none,
}
use agentops_go.Contracts.Status.{
  TaskStatus, RunStatus, ExecutionStatus, task_status_eq, run_status_eq, execution_status_eq,
  task_status_terminal,
}
use agentops_go.Contracts.Codes.{
  ErrorCode, ReasonCode, TerminationReason, valid_for_checkpoint_invalid,
}
use agentops_go.Contracts.Execution.{CheckpointNextAction, execution_version_valid}
use agentops_go.Contracts.Hash.{hash_valid}
use agentops_go.TaskRuntime.Store.Transaction.{Tx, TxError, Result, ok, err}
use agentops_go.TaskRuntime.Ports.{AgentRuntimeConfig, EnsurePendingReportResult}
use agentops_go.TaskRuntime.Termination.{TerminationFacts}

pub record RecoverTaskRequest : Type 0 where
  pub command_id : String
  pub task_id : String
  pub operator_id : String

pub record TaskRecovered : Type 0 where
  pub task_id : String
  pub run_id : String
  pub source_execution_version : ℕ
  pub new_execution_version : ℕ
  pub task_status : TaskStatus
  pub run_status : RunStatus
  pub execution_status : ExecutionStatus
  pub queued_at : ℕ
  pub recovery_checkpoint_id : String

pub data RecoverOutcome : Type 0 where
  recovered rejected : RecoverOutcome
  unknown : String → RecoverOutcome

-- The empty code is `unknown ""`.
pub data RecoverError : Type 0 where
  state_conflict config_mismatch checkpoint_invalid timed_out : RecoverError
  unknown : String → RecoverError

pub record RecoverReceiptResponse : Type 0 where
  pub outcome : RecoverOutcome
  pub task_id : String
  pub run_id : String
  pub source_execution_version : ℕ
  pub new_execution_version : ℕ
  pub task_status : TaskStatus
  pub run_status : RunStatus
  pub execution_status : ExecutionStatus
  pub queued_at : ℕ
  pub recovery_checkpoint_id : String
  pub error_code : RecoverError
  pub reason_code : ReasonCode
  pub current_config_hash : String
  pub task_execution_config_hash : String
  pub checkpoint_config_hash : String
  pub source_checkpoint_id : String

pub data RecoverySourcePhase : Type 0 where
  before_first_execution started_execution : RecoverySourcePhase

-- `source` is the capability that the checkpoint module issues, `none` where it is nil.
pub record RecoveryCheckpointValid : Type 0 where
  pub checkpoint_id : String
  pub execution_config_hash : String
  pub next_action : CheckpointNextAction
  pub source : Option String

-- `foreign` is a value of no declared variant.
pub data RecoveryCheckpointResult : Type 0 where
  valid : RecoveryCheckpointValid → RecoveryCheckpointResult
  invalid : ReasonCode → RecoveryCheckpointResult
  invariant_violation foreign : RecoveryCheckpointResult

pub record ApplyRecoveryFailureRequest : Type 0 where
  pub task_id : String
  pub expected_execution_version : ℕ
  pub expected_task_status : TaskStatus
  pub expected_run_status : RunStatus
  pub expected_execution_status : ExecutionStatus
  pub error_code : ErrorCode
  pub termination_reason : Option TerminationReason
  pub ended_at : ℕ

-- What the command uses of other code. `given` is whether the request has all its parts in valid text;
-- `create_recovery_start` answers for the source, the new version and the hash.
pub record RecoverPorts : Type 0 where
  pub now : Result ℕ
  pub given : RecoverTaskRequest → Bool
  pub fingerprint : String → String → String
  pub lookup_agent : String → Option AgentRuntimeConfig
  pub hash_execution_config : AgentRuntimeConfig → Result String
  pub validate_recovery_source :
      String → String → ℕ → RecoverySourcePhase → Result RecoveryCheckpointResult
  pub create_recovery_start : String → ℕ → String → Result String
  pub ensure_pending : String × String × ℕ → Result EnsurePendingReportResult
  pub new_id : Result String
  pub encode : RecoverReceiptResponse → String
  pub decode : String → Option RecoverReceiptResponse
  pub stored : String → String

abbrev pub is_version_mismatch : Option ErrorCode → Bool
is_version_mismatch (some ErrorCode.config_version_mismatch) = true
is_version_mismatch _ = false

-- The interruptions of a started execution that a recovery accepts.
abbrev pub is_recoverable : Option ErrorCode → Bool
is_recoverable (some ErrorCode.worker_interrupted) = true
is_recoverable (some ErrorCode.result_persistence_failed) = true
is_recoverable (some ErrorCode.config_version_mismatch) = true
is_recoverable _ = false

abbrev pub before_first : TerminationFacts → Bool
before_first f =
    task_status_eq f.task.status TaskStatus.interrupted
    && run_status_eq f.run.status RunStatus.pending
    && is_version_mismatch f.execution.error_code
    && is_none f.execution.started_at
    && is_none f.run.plan_id
    && is_none f.run.current_step_id
    && is_none f.step
    && is_none f.tool_execution

abbrev pub started : TerminationFacts → Bool
started f =
    run_status_eq f.run.status RunStatus.running
    && (task_status_eq f.task.status TaskStatus.running
        || task_status_eq f.task.status TaskStatus.interrupted)
    && is_recoverable f.execution.error_code

abbrev pub interrupted_facts : TerminationFacts → Bool
interrupted_facts f =
    f.task.current_execution_version == f.execution.execution_version
    && text_eq f.task.current_run_id f.run.run_id
    && text_eq f.run.task_id f.task.task_id
    && text_eq f.execution.task_id f.task.task_id
    && is_none f.task.queued_at
    && execution_status_eq f.execution.status ExecutionStatus.interrupted
    && not (task_status_terminal f.task.status)

-- `recoveryPhase`; `none` is a state conflict.
unfoldable pub recovery_phase : TerminationFacts → Option RecoverySourcePhase
unfolding task_status_eq run_status_eq execution_status_eq task_status_terminal
recovery_phase f =
    if not (interrupted_facts f)
    then none
    else if before_first f
    then some RecoverySourcePhase.before_first_execution
    else if started f
    then some RecoverySourcePhase.started_execution
    else none

-- `recoverRejected`; Go's zero values stand where the response says nothing.
abbrev pub recover_rejected : TerminationFacts → RecoverError → ReasonCode → RecoverReceiptResponse
recover_rejected f code reason = record {
  outcome = RecoverOutcome.rejected;
  task_id = f.task.task_id;
  run_id = f.run.run_id;
  source_execution_version = f.execution.execution_version;
  new_execution_version = 0;
  task_status = f.task.status;
  run_status = f.run.status;
  execution_status = f.execution.status;
  queued_at = 0;
  recovery_checkpoint_id = "";
  error_code = code;
  reason_code = reason;
  current_config_hash = "";
  task_execution_config_hash = "";
  checkpoint_config_hash = "";
  source_checkpoint_id = "";
}

abbrev pub recover_config_mismatch :
    TerminationFacts → RecoveryCheckpointValid → String → RecoverReceiptResponse
recover_config_mismatch f k current =
    record (recover_rejected f RecoverError.config_mismatch (ReasonCode.unknown "")) {
      current_config_hash = current;
      task_execution_config_hash = f.execution.execution_config_hash;
      checkpoint_config_hash = k.execution_config_hash;
      source_checkpoint_id = k.checkpoint_id;
    }

abbrev pub recover_succeeded :
    TerminationFacts → ℕ → TaskStatus → RunStatus → ℕ → String → RecoverReceiptResponse
recover_succeeded f version task run now checkpoint =
    record (recover_rejected f (RecoverError.unknown "") (ReasonCode.unknown "")) {
      outcome = RecoverOutcome.recovered;
      new_execution_version = version;
      task_status = task;
      run_status = run;
      execution_status = ExecutionStatus.queued;
      queued_at = now;
      recovery_checkpoint_id = checkpoint;
    }

-- `validateRecoverReceipt`.
unfoldable pub recover_receipt_valid : RecoverReceiptResponse → Bool
unfolding execution_status_eq valid_for_checkpoint_invalid hash_valid
recover_receipt_valid r =
    not (text_eq r.task_id "")
    && not (text_eq r.run_id "")
    && execution_version_valid r.source_execution_version
    && elim r.outcome [
      | RecoverOutcome.recovered ↦
          r.new_execution_version == r.source_execution_version + 1
          && execution_status_eq r.execution_status ExecutionStatus.queued
          && not (r.queued_at == 0)
          && not (text_eq r.recovery_checkpoint_id "")
      | RecoverOutcome.rejected ↦ elim r.error_code [
        | RecoverError.state_conflict ↦ true
        | RecoverError.timed_out ↦ true
        | RecoverError.checkpoint_invalid ↦ valid_for_checkpoint_invalid r.reason_code
        | RecoverError.config_mismatch ↦
            hash_valid r.current_config_hash
            && hash_valid r.task_execution_config_hash
            && hash_valid r.checkpoint_config_hash
            && not (text_eq r.source_checkpoint_id "")
        | RecoverError.unknown _ ↦ false
      ]
      | RecoverOutcome.unknown _ ↦ false
    ]

abbrev pub recover_error : RecoverError → TxError
recover_error RecoverError.state_conflict = TxError.recover_state_conflict
recover_error RecoverError.config_mismatch = TxError.recover_config_mismatch
recover_error RecoverError.checkpoint_invalid = TxError.recover_checkpoint_invalid
recover_error RecoverError.timed_out = TxError.task_timed_out
recover_error (RecoverError.unknown _) = TxError.persistence_invariant_violation

abbrev pub recover_result_of : RecoverReceiptResponse → RecoverOutcome → Result TaskRecovered
recover_result_of r RecoverOutcome.recovered = ok (record {
  task_id = r.task_id;
  run_id = r.run_id;
  source_execution_version = r.source_execution_version;
  new_execution_version = r.new_execution_version;
  task_status = r.task_status;
  run_status = r.run_status;
  execution_status = r.execution_status;
  queued_at = r.queued_at;
  recovery_checkpoint_id = r.recovery_checkpoint_id;
})
recover_result_of r _ = err (recover_error r.error_code)

-- `recoverReceiptResponse.result`.
unfoldable pub recover_result : RecoverReceiptResponse → Result TaskRecovered
unfolding recover_receipt_valid
recover_result r =
    if recover_receipt_valid r
    then recover_result_of r r.outcome
    else err TxError.persistence_invariant_violation
