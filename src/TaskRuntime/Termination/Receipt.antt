-- ===== src/TaskRuntime/Termination/Receipt.antt =====
-- internal/taskruntime/cancel.go: the requests, receipts and answers of `CancelTask`, what the command
-- uses of other code, and what it leaves to do after its commit.
use agentops_go.Prelude.{
  ℕ, String, Bool, true, false, not, ◌&&◌, Option, none, some, if◌then◌else◌, text_eq,
}
use agentops_go.Contracts.Status.{
  TaskStatus, RunStatus, ExecutionStatus, task_status_eq, run_status_eq, execution_status_eq,
}
use agentops_go.Contracts.Codes.{TerminationReason}
use agentops_go.Contracts.Execution.{execution_version_valid}
use agentops_go.ActiveCall.{Key}
use agentops_go.TaskRuntime.Store.Transaction.{Tx, TxError, Result, ok, err}
use agentops_go.TaskRuntime.Ports.{EnsurePendingReportResult}
use agentops_go.TaskRuntime.Termination.{TerminationFacts, ApplyTerminationRequest, AgentTools}

pub record CancelTaskRequest : Type 0 where
  pub command_id : String
  pub task_id : String
  pub operator_id : String

pub record TaskCancelled : Type 0 where
  pub task_id : String
  pub task_status : TaskStatus
  pub run_status : RunStatus
  pub execution_status : ExecutionStatus
  pub execution_version : ℕ
  pub termination_reason : TerminationReason

pub data CommandType : Type 0 where
  create approve reject cancel recover : CommandType
  unknown : String → CommandType

pub record CommandReceipt : Type 0 where
  pub command_id : String
  pub command_type : CommandType
  pub target_id : String
  pub request_fingerprint : String
  pub response : String
  pub created_at : ℕ

pub data ReceiptOutcome : Type 0 where
  cancelled rejected : ReceiptOutcome
  unknown : String → ReceiptOutcome

-- The empty code is `unknown ""`.
pub data ReceiptError : Type 0 where
  already_terminal timed_out : ReceiptError
  unknown : String → ReceiptError

pub record CancelReceiptResponse : Type 0 where
  pub outcome : ReceiptOutcome
  pub task_id : String
  pub task_status : TaskStatus
  pub run_status : RunStatus
  pub execution_status : ExecutionStatus
  pub execution_version : ℕ
  pub termination_reason : TerminationReason
  pub error_code : ReceiptError

-- The receipts, and the state `D` behind the repository of terminations and the reports.
pub record Database (D : Type 0) : Type 0 where
  pub receipts : String → Option CommandReceipt
  pub rest : D

-- What the command uses of other code. `blank` is whether trimming leaves nothing, `encode` and
-- `decode` are the JSON of a response, `stored` is what `jsonb` makes of a text.
pub record TerminationPorts (D : Type 0) : Type 0 where
  pub now : Result ℕ
  pub lock_facts : String → Tx D TerminationFacts
  pub apply : ApplyTerminationRequest → Tx D Bool
  pub ensure_pending : String × String × ℕ → Tx D EnsurePendingReportResult
  pub lookup_tools : String → Option AgentTools
  pub blank : String → Bool
  pub fingerprint : String → String → String
  pub encode : CancelReceiptResponse → String
  pub decode : String → Option CancelReceiptResponse
  pub stored : String → String

-- What a committed command leaves to do.
pub record Committed : Type 0 where
  pub response : CancelReceiptResponse
  pub wrote_terminal : Bool
  pub cancel_key : Option Key

unfoldable pub is_cancel : CommandType → Bool
is_cancel CommandType.cancel = true
is_cancel _ = false

unfoldable pub is_cancelled : TerminationReason → Bool
is_cancelled TerminationReason.cancelled = true
is_cancelled _ = false

-- `validateCancelReceipt`.
unfoldable pub receipt_valid : CancelReceiptResponse → Bool
unfolding task_status_eq run_status_eq execution_status_eq is_cancelled
receipt_valid r =
    not (text_eq r.task_id "") && execution_version_valid r.execution_version && elim r.outcome [
      | ReceiptOutcome.cancelled ↦
          task_status_eq r.task_status TaskStatus.cancelled
          && run_status_eq r.run_status RunStatus.failed
          && execution_status_eq r.execution_status ExecutionStatus.failed
          && is_cancelled r.termination_reason
      | ReceiptOutcome.rejected ↦ elim r.error_code [
        | ReceiptError.already_terminal ↦ true
        | ReceiptError.timed_out ↦ true
        | ReceiptError.unknown _ ↦ false
      ]
      | ReceiptOutcome.unknown _ ↦ false
    ]

unfoldable pub answer_of :
    CancelReceiptResponse → ReceiptOutcome → ReceiptError → Result TaskCancelled
answer_of r ReceiptOutcome.cancelled e = ok (record {
  task_id = r.task_id;
  task_status = r.task_status;
  run_status = r.run_status;
  execution_status = r.execution_status;
  execution_version = r.execution_version;
  termination_reason = r.termination_reason;
})
answer_of r _ ReceiptError.timed_out = err TxError.task_timed_out
answer_of r _ _ = err TxError.task_already_terminal

-- `cancelReceiptResponse.result`.
unfoldable pub answer : CancelReceiptResponse → Result TaskCancelled
unfolding receipt_valid answer_of
answer r =
    if receipt_valid r
    then answer_of r r.outcome r.error_code
    else err TxError.persistence_invariant_violation

abbrev pub cancelled_receipt : TerminationFacts → TerminationReason → CancelReceiptResponse
cancelled_receipt f reason = record {
  outcome = ReceiptOutcome.cancelled;
  task_id = f.task.task_id;
  task_status = TaskStatus.cancelled;
  run_status = RunStatus.failed;
  execution_status = ExecutionStatus.failed;
  execution_version = f.execution.execution_version;
  termination_reason = reason;
  error_code = ReceiptError.unknown "";
}

abbrev pub rejected_receipt : TerminationFacts → ReceiptError → CancelReceiptResponse
rejected_receipt f code = record {
  outcome = ReceiptOutcome.rejected;
  task_id = f.task.task_id;
  task_status = f.task.status;
  run_status = f.run.status;
  execution_status = f.execution.status;
  execution_version = f.execution.execution_version;
  termination_reason = TerminationReason.unknown "";
  error_code = code;
}

-- The receipt of a cancellation that came behind the deadline.
abbrev pub timed_out_receipt : TerminationFacts → CancelReceiptResponse
timed_out_receipt f = record (rejected_receipt f ReceiptError.timed_out) {
  task_status = TaskStatus.failed;
  run_status = RunStatus.failed;
  execution_status = ExecutionStatus.failed;
  termination_reason = TerminationReason.timed_out;
}

-- The key of the active call of an owned execution.
abbrev pub owner_key : TerminationFacts → Option String → Option Key
owner_key f none = none
owner_key f (some w) = some (record {
  task_id = f.task.task_id;
  execution_version = f.execution.execution_version;
  worker_id = w;
})
