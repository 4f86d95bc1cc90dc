-- ===== src/TaskRuntime/Recover/Failure.antt =====
-- internal/adapter/postgres/taskruntime/repository.go: `RecoveryRepository` and the insert of an
-- execution; internal/taskruntime/recover.go: `insertRecoverReceipt` and `terminalizeFailure`.
use agentops_go.Prelude.{
  ℕ, String, Bool, true, false, not, ◌&&◌, ◌||◌, Option, none, some, ◌==◌, if◌then◌else◌, text_eq,
  is_none,
}
use agentops_go.Contracts.Status.{
  TaskStatus, RunStatus, ExecutionStatus, task_status_eq, run_status_eq, execution_status_eq,
  task_status_terminal, task_status_valid, run_status_terminal, run_status_valid,
  execution_status_valid,
}
use agentops_go.Contracts.Codes.{ErrorCode, ReasonCode, TerminationReason}
use agentops_go.Lifecycle.{
  Decision, can_task_transition, can_run_transition, can_execution_transition,
}
use agentops_go.TaskRuntime.Entity.{Task, Run, TaskExecution}
use agentops_go.TaskRuntime.Store.{
  set_task, set_run, set_execution, lock_task, lock_run_by_task, lock_execution,
}
use agentops_go.TaskRuntime.Store.Transaction.{Tx, TxError, pure, fail, ◌>>=◌, ◌>>◌, Tables}
use agentops_go.TaskRuntime.Ports.{reported}
use agentops_go.TaskRuntime.Termination.{TerminationFacts}
use agentops_go.TaskRuntime.Termination.Receipt.{CommandReceipt, CommandType, Database}
use agentops_go.TaskRuntime.Termination.Cancel.{answered, on_rest, insert_receipt, must_apply}
use agentops_go.TaskRuntime.Recover.{
  RecoverTaskRequest, RecoverReceiptResponse, RecoverError, ApplyRecoveryFailureRequest,
  RecoverPorts, recover_rejected,
}

-- `LockRecoveryFacts`: no step and no tool are read.
unfoldable pub lock_recovery_facts : String → Tx Tables TerminationFacts
lock_recovery_facts id = do
  t ← lock_task id
  r ← lock_run_by_task id
  e ← lock_execution id t.current_execution_version
  pure (record { task = t; run = r; execution = e; step = none; tool_execution = none })

-- `INSERT INTO task_execution`, with the unique key of a task and a version.
unfoldable pub insert_execution : TaskExecution → Tx Tables (Unit {0})
insert_execution e s = elim (s.execution e.task_id e.execution_version) [
  | some _ ↦ fail TxError.unique_violation s
  | none ↦
      pure tt (record s { execution = set_execution s.execution e.task_id e.execution_version e })
]

abbrev pub recovery_failed_task : Task → ApplyRecoveryFailureRequest → Task
recovery_failed_task t q = record t {
  status = TaskStatus.failed;
  error_code = some q.error_code;
  queued_at = none;
  ended_at = some q.ended_at;
}

abbrev pub recovery_failed_run : Run → ApplyRecoveryFailureRequest → Run
recovery_failed_run r q = record r {
  status = RunStatus.failed;
  error_code = some q.error_code;
  ended_at = some q.ended_at;
}

abbrev pub failure_code : Option ErrorCode → ErrorCode → Option ErrorCode
failure_code (some ErrorCode.config_version_mismatch) code = some ErrorCode.config_version_mismatch
failure_code _ code = some code

abbrev pub ended_once : Option ℕ → ℕ → Option ℕ
ended_once none now = some now
ended_once (some t) now = some t

abbrev pub recovery_failed_execution : TaskExecution → ApplyRecoveryFailureRequest → TaskExecution
recovery_failed_execution e q = record e {
  status = ExecutionStatus.failed;
  error_code = failure_code e.error_code q.error_code;
  termination_reason = q.termination_reason;
  ended_at = ended_once e.ended_at q.ended_at;
}

-- The guard of the statement: three rows of one task in the expected states, which are live.
unfoldable pub failure_guarded : ApplyRecoveryFailureRequest → Task → Run → TaskExecution → Bool
failure_guarded q t r e =
    text_eq r.run_id t.current_run_id
    && t.current_execution_version == q.expected_execution_version
    && task_status_eq t.status q.expected_task_status
    && run_status_eq r.status q.expected_run_status
    && execution_status_eq e.status q.expected_execution_status
    && task_status_valid t.status
    && not (task_status_terminal t.status)
    && run_status_valid r.status
    && not (run_status_terminal r.status)
    && execution_status_valid e.status
    && not (execution_status_eq e.status ExecutionStatus.completed)
    && not (execution_status_eq e.status ExecutionStatus.failed)

unfoldable pub fail_rows : ApplyRecoveryFailureRequest → Task → Run → TaskExecution → Tx Tables Bool
fail_rows q t r e s = pure true (record s {
  task = set_task s.task q.task_id (recovery_failed_task t q);
  run = set_run s.run q.task_id (recovery_failed_run r q);
  execution =
      set_execution s.execution q.task_id t.current_execution_version
        (recovery_failed_execution e q);
})

-- `ApplyRecoveryFailure`.
unfoldable pub apply_recovery_failure : ApplyRecoveryFailureRequest → Tx Tables Bool
unfolding failure_guarded fail_rows
apply_recovery_failure q s = elim (s.task q.task_id) [
  | none ↦ pure false s
  | some t ↦ elim (s.run q.task_id) [
    | none ↦ pure false s
    | some r ↦ elim (s.execution q.task_id t.current_execution_version) [
      | none ↦ pure false s
      | some e ↦ if failure_guarded q t r e then fail_rows q t r e s else pure false s
    ]
  ]
]

abbrev pub Commands : Type 0
Commands = Database Tables

abbrev pub recover_receipt :
    RecoverPorts → RecoverTaskRequest → ℕ → RecoverReceiptResponse → CommandReceipt
recover_receipt p q now r = record {
  command_id = q.command_id;
  command_type = CommandType.recover;
  target_id = q.task_id;
  request_fingerprint = p.fingerprint q.task_id q.operator_id;
  response = p.encode r;
  created_at = now;
}

-- `insertRecoverReceipt`, with the response that is returned.
unfoldable pub keep_recover_receipt :
    RecoverPorts
    → RecoverTaskRequest
    → ℕ
    → RecoverReceiptResponse
    → Tx Commands RecoverReceiptResponse
keep_recover_receipt p q now r = do insert_receipt p.stored (recover_receipt p q now r); pure r

unfoldable pub allowed : Decision → Tx Commands (Unit {0})
allowed d = if d.allowed then pure tt else fail (TxError.lifecycle d.reason)

-- `ensureTerminationReport`.
unfoldable pub recover_report : RecoverPorts → TerminationFacts → ℕ → Tx Commands (Unit {0})
recover_report p f now = do
  a ← answered (p.ensure_pending (f.task.task_id, f.run.run_id, now))
  on_rest (reported a (f.task.task_id, f.run.run_id, now))

abbrev pub is_timeout : ErrorCode → Bool
is_timeout ErrorCode.task_timeout = true
is_timeout _ = false

abbrev pub recovery_failure : TerminationFacts → ℕ → ErrorCode → ApplyRecoveryFailureRequest
recovery_failure f now code = record {
  task_id = f.task.task_id;
  expected_execution_version = f.execution.execution_version;
  expected_task_status = f.task.status;
  expected_run_status = f.run.status;
  expected_execution_status = f.execution.status;
  error_code = code;
  termination_reason = if is_timeout code then some TerminationReason.timed_out else none;
  ended_at = now;
}

-- The writes of `terminalizeFailure`.
unfoldable pub fail_recovery :
    RecoverPorts
    → RecoverTaskRequest
    → TerminationFacts
    → ℕ
    → ErrorCode
    → ReasonCode
    → RecoverError
    → Tx Commands RecoverReceiptResponse
fail_recovery p q f now code reason response = do
  allowed (can_task_transition f.task.status TaskStatus.failed)
  allowed (can_run_transition f.run.status RunStatus.failed)
  allowed (can_execution_transition f.execution.status ExecutionStatus.failed)
  applied ← on_rest (apply_recovery_failure (recovery_failure f now code))
  must_apply applied
  recover_report p f now
  keep_recover_receipt p q now (record (recover_rejected f response reason) {
    task_status = TaskStatus.failed;
    run_status = RunStatus.failed;
    execution_status = ExecutionStatus.failed;
  })

-- `terminalizeFailure`: a step or a tool is beyond it.
unfoldable pub terminalize_failure :
    RecoverPorts
    → RecoverTaskRequest
    → TerminationFacts
    → ℕ
    → ErrorCode
    → ReasonCode
    → RecoverError
    → Tx Commands RecoverReceiptResponse
terminalize_failure p q f now code reason response =
    if not (is_none f.step) || not (is_none f.tool_execution)
    then fail TxError.persistence_invariant_violation
    else fail_recovery p q f now code reason response
