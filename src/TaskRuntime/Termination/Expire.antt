-- ===== src/TaskRuntime/Termination/Expire.antt =====
-- internal/taskruntime/timeout.go: `ExpireTask`, which a scanner calls with the version that it has
-- seen.
use agentops_go.Prelude.{
  ℕ, String, Bool, not, ◌&&◌, ◌||◌, Option, some, ◌==◌, ltb, if◌then◌else◌, text_eq,
}
use agentops_go.Contracts.Status.{TaskStatus, task_status_terminal}
use agentops_go.Contracts.Codes.{ErrorCode, TerminationReason}
use agentops_go.Contracts.Execution.{ExecutionCancellationCause, execution_version_valid}
use agentops_go.ActiveCall.{Registry, Key, cancel as cancel_call}
use agentops_go.TaskRuntime.Store.Transaction.{
  Tx, TxError, Result, ok, err, pure, ◌>>=◌, ◌>>◌, execute,
}
use agentops_go.TaskRuntime.Termination.{TerminationFacts}
use agentops_go.TaskRuntime.Termination.Receipt.{Database, TerminationPorts, owner_key}
use agentops_go.TaskRuntime.Termination.Cancel.{terminate, on_rest, answered}

pub record ExpireTaskRequest : Type 0 where
  pub task_id : String
  pub observed_execution_version : ℕ

-- `expired` with the call that is still to be cancelled.
pub data ExpireTaskResult : Type 0 where
  expired : Option Key → ExpireTaskResult
  skipped already_terminal : ExpireTaskResult

unfoldable pub observed : TerminationFacts → ExpireTaskRequest → Bool
observed f q =
    f.task.current_execution_version == q.observed_execution_version
    && f.execution.execution_version == q.observed_execution_version

unfoldable pub signal_expired : ExpireTaskResult → Registry → Registry
signal_expired (ExpireTaskResult.expired (some key)) r =
    (cancel_call r key ExecutionCancellationCause.task_timed_out).0
signal_expired _ r = r

module _ {D : Type 0} where
  unfoldable pub expire_due :
      TerminationPorts D → TerminationFacts → ℕ → Tx (Database D) ExpireTaskResult
  expire_due p f now = do
    terminate p f now TaskStatus.failed ErrorCode.task_timeout TerminationReason.timed_out
    pure (ExpireTaskResult.expired (owner_key f f.execution.worker_id))

  unfoldable pub expire_observed :
      TerminationPorts D → TerminationFacts → Tx (Database D) ExpireTaskResult
  expire_observed p f = do
    now ← answered p.now
    if ltb now f.task.deadline_at then pure ExpireTaskResult.skipped else expire_due p f now

  unfoldable pub expire_facts :
      TerminationPorts D → ExpireTaskRequest → TerminationFacts → Tx (Database D) ExpireTaskResult
  expire_facts p q f =
      if task_status_terminal f.task.status
      then pure ExpireTaskResult.already_terminal
      else if not (observed f q)
      then pure ExpireTaskResult.skipped
      else expire_observed p f

  -- The transaction of `ExpireTask`.
  unfoldable pub expire_work :
      TerminationPorts D → ExpireTaskRequest → Tx (Database D) ExpireTaskResult
  expire_work p q = do f ← on_rest (p.lock_facts q.task_id); expire_facts p q f

  unfoldable pub after_expire :
      Result ExpireTaskResult × Database D
      → Registry
      → Result ExpireTaskResult × (Database D × Registry)
  after_expire (err e, s) r = (err e, (s, r))
  after_expire (ok x, s) r = (ok x, (s, signal_expired x r))

  unfoldable pub expire_task :
      TerminationPorts D
      → ExpireTaskRequest
      → Database D
      → Registry
      → Result ExpireTaskResult × (Database D × Registry)
  unfolding after_expire
  expire_task p q s r =
      if text_eq q.task_id "" || not (execution_version_valid q.observed_execution_version)
      then (err TxError.invalid_argument, (s, r))
      else after_expire (execute (expire_work p q) s) r
