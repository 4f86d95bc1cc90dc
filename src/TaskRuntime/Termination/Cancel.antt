-- ===== src/TaskRuntime/Termination/Cancel.antt =====
-- internal/taskruntime/cancel.go: `CancelTask`, with its command receipts, which are the table
-- `command_receipt` of internal/adapter/postgres/taskruntime/repository.go.
use agentops_go.Prelude.{
  ℕ, String, Bool, true, false, ◌&&◌, ◌||◌, Option, none, some, ltb, if◌then◌else◌, text_eq,
}
use agentops_go.Contracts.Status.{TaskStatus, task_status_terminal}
use agentops_go.Contracts.Codes.{ErrorCode, TerminationReason}
use agentops_go.Contracts.Execution.{ExecutionCancellationCause}
use agentops_go.ActiveCall.{Registry, cancel as cancel_call}
use agentops_go.TaskRuntime.Store.Transaction.{
  Tx, TxError, Result, ok, err, pure, fail, ◌>>=◌, ◌>>◌, execute,
}
use agentops_go.TaskRuntime.Ports.{EnsurePendingReportResult}
use agentops_go.TaskRuntime.Termination.{TerminationFacts, termination_request}
use agentops_go.TaskRuntime.Termination.Receipt.{
  CancelTaskRequest, TaskCancelled, CommandType, CommandReceipt, ReceiptError,
  CancelReceiptResponse, Database, TerminationPorts, Committed, is_cancel, receipt_valid, answer,
  cancelled_receipt, rejected_receipt, timed_out_receipt, owner_key,
}

unfoldable pub cause_of : TerminationReason → ExecutionCancellationCause
cause_of TerminationReason.timed_out = ExecutionCancellationCause.task_timed_out
cause_of _ = ExecutionCancellationCause.task_cancelled

-- The call that still runs is cancelled after the commit.
unfoldable pub signal : Committed → Registry → Registry
unfolding cause_of
signal c r = elim c.cancel_key [
  | none ↦ r
  | some key ↦
      if c.wrote_terminal then (cancel_call r key (cause_of c.response.termination_reason)).0 else r
]

module _ {D : Type 0} where
  abbrev pub on_rest : {A : Type 0} → Tx D A → Tx (Database D) A
  on_rest m s = elim (m s.rest) [
    | err e ↦ err e
    | ok (a, d) ↦ ok (a, record { receipts = s.receipts; rest = d })
  ]

  abbrev pub answered : {A : Type 0} → Result A → Tx (Database D) A
  answered (ok a) s = ok (a, s)
  answered (err e) s = err e

  -- A receipt is inserted once; a second one with the identifier is a unique violation.
  unfoldable pub insert_receipt : (String → String) → CommandReceipt → Tx (Database D) (Unit {0})
  insert_receipt stored k s = elim (s.receipts k.command_id) [
    | some _ ↦ err TxError.unique_violation
    | none ↦ ok (
      tt,
      record {
        receipts = λ id.
            if text_eq k.command_id id
            then some (record k { response = stored k.response })
            else s.receipts id;
        rest = s.rest;
      },
    )
  ]

  -- `ensureTerminationReport`.
  unfoldable pub report_known : EnsurePendingReportResult → Tx (Database D) (Unit {0})
  report_known EnsurePendingReportResult.created = pure tt
  report_known EnsurePendingReportResult.existing = pure tt
  report_known EnsurePendingReportResult.foreign = fail TxError.persistence_invariant_violation

  unfoldable pub must_apply : Bool → Tx (Database D) (Unit {0})
  must_apply b = if b then pure tt else fail TxError.persistence_invariant_violation

  -- The update of a termination with its report, which a timeout does as well.
  unfoldable pub terminate :
      TerminationPorts D
      → TerminationFacts
      → ℕ
      → TaskStatus
      → ErrorCode
      → TerminationReason
      → Tx (Database D) (Unit {0})
  terminate p f now to code reason = do
    request ← answered (termination_request (p.lookup_tools f.task.agent_id) f now to code reason)
    applied ← on_rest (p.apply request)
    must_apply applied
    report ← on_rest (p.ensure_pending (f.task.task_id, f.run.run_id, now))
    report_known report

  unfoldable pub keep_receipt :
      TerminationPorts D → CancelTaskRequest → ℕ → Committed → Tx (Database D) Committed
  keep_receipt p q now c = do
    insert_receipt p.stored (record {
      command_id = q.command_id;
      command_type = CommandType.cancel;
      target_id = q.task_id;
      request_fingerprint = p.fingerprint q.task_id q.operator_id;
      response = p.encode c.response;
      created_at = now;
    })
    pure c

  -- A task that has ended, one before its deadline, and one behind it.
  unfoldable pub cancel_ended :
      TerminationPorts D → CancelTaskRequest → TerminationFacts → ℕ → Tx (Database D) Committed
  cancel_ended p q f now = keep_receipt p q now (record {
    response = rejected_receipt f ReceiptError.already_terminal;
    wrote_terminal = false;
    cancel_key = none;
  })

  unfoldable pub cancel_in_time :
      TerminationPorts D → CancelTaskRequest → TerminationFacts → ℕ → Tx (Database D) Committed
  cancel_in_time p q f now = do
    terminate p f now TaskStatus.cancelled ErrorCode.task_cancelled TerminationReason.cancelled
    keep_receipt p q now (record {
      response = cancelled_receipt f TerminationReason.cancelled;
      wrote_terminal = true;
      cancel_key = owner_key f f.execution.worker_id;
    })

  unfoldable pub cancel_late :
      TerminationPorts D → CancelTaskRequest → TerminationFacts → ℕ → Tx (Database D) Committed
  cancel_late p q f now = do
    terminate p f now TaskStatus.failed ErrorCode.task_timeout TerminationReason.timed_out
    keep_receipt p q now (record {
      response = timed_out_receipt f;
      wrote_terminal = true;
      cancel_key = owner_key f f.execution.worker_id;
    })

  unfoldable pub cancel_facts :
      TerminationPorts D → CancelTaskRequest → TerminationFacts → ℕ → Tx (Database D) Committed
  cancel_facts p q f now =
      if task_status_terminal f.task.status
      then cancel_ended p q f now
      else if ltb now f.task.deadline_at
      then cancel_in_time p q f now
      else cancel_late p q f now

  unfoldable pub cancel_anew : TerminationPorts D → CancelTaskRequest → Tx (Database D) Committed
  cancel_anew p q = do
    f ← on_rest (p.lock_facts q.task_id)
    now ← answered p.now
    cancel_facts p q f now

  unfoldable pub same_command : TerminationPorts D → CancelTaskRequest → CommandReceipt → Bool
  unfolding is_cancel
  same_command p q k =
      is_cancel k.command_type
      && text_eq k.target_id q.task_id
      && text_eq k.request_fingerprint (p.fingerprint q.task_id q.operator_id)

  unfoldable pub decoded : Option CancelReceiptResponse → Tx (Database D) Committed
  decoded none = fail TxError.persistence_invariant_violation
  decoded (some r) =
      if receipt_valid r
      then pure (record { response = r; wrote_terminal = false; cancel_key = none })
      else fail TxError.persistence_invariant_violation

  unfoldable pub replay :
      TerminationPorts D → CancelTaskRequest → CommandReceipt → Tx (Database D) Committed
  unfolding decoded
  replay p q k =
      if same_command p q k then decoded (p.decode k.response) else fail TxError.command_conflict

  -- The transaction of `CancelTask`.
  unfoldable pub cancel_work : TerminationPorts D → CancelTaskRequest → Tx (Database D) Committed
  cancel_work p q s = elim (s.receipts q.command_id) [
    | some k ↦ replay p q k s
    | none ↦ cancel_anew p q s
  ]

  unfoldable pub finished :
      Result Committed × Database D → Registry → Result TaskCancelled × (Database D × Registry)
  finished (err e, s) r = (err e, (s, r))
  finished (ok c, s) r = (answer c.response, (s, signal c r))

  unfoldable pub cancel_task :
      TerminationPorts D
      → CancelTaskRequest
      → Database D
      → Registry
      → Result TaskCancelled × (Database D × Registry)
  unfolding finished
  cancel_task p q s r =
      if text_eq q.command_id "" || text_eq q.task_id "" || p.blank q.operator_id
      then (err TxError.invalid_argument, (s, r))
      else finished (execute (cancel_work p q) s) r
