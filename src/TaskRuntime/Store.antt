-- ===== src/TaskRuntime/Store.antt =====
-- internal/adapter/postgres/taskruntime/repository.go: the tables of the Task Runtime and the
-- statements on them.
--
-- A table is a function of its key: `task_id` for a task, the unique `task_id` for a run,
-- `(task_id, execution_version)` for an execution; the keys make these the rows that a statement can
-- meet. `task_ids` lists the tasks for the scan of the queue. A write transaction is a state passing
-- function: an error carries no state, since the executor rolls back. The statements run one after
-- the other, as under the Runtime's write gate, and the driver itself does not fail.
pub mod Transaction
pub mod Updates
pub mod Queue
pub mod Blocks
use agentops_go.Prelude.{
  ℕ, String, Bool, true, false, not, ◌&&◌, ◌||◌, Option, none, some, List, [], ◌∷◌, ◌==◌, ltb,
  if◌then◌else◌, text_eq, option_text_eq, is_none,
}
use agentops_go.Contracts.Status.{
  ExecutionStatus, task_status_eq, run_status_eq, execution_status_eq,
}
use agentops_go.Contracts.Codes.{ErrorCode}
use agentops_go.Contracts.Execution.{execution_version_valid}
use agentops_go.TaskRuntime.Entity.{
  Task, Run, TaskExecution, TaskUpdate, RunUpdate, TaskExecutionUpdate, QueueCandidate,
}
use Transaction.{Tx, TxError, pure, fail, Tables}

abbrev pub set_task : (String → Option Task) → String → Task → String → Option Task
set_task f k v j = if text_eq k j then some v else f j

abbrev pub set_run : (String → Option Run) → String → Run → String → Option Run
set_run f k v j = if text_eq k j then some v else f j

abbrev pub set_execution :
    (String → ℕ → Option TaskExecution)
    → String
    → ℕ
    → TaskExecution
    → String
    → ℕ
    → Option TaskExecution
set_execution f k n v j m = if text_eq k j && n == m then some v else f j m

-- A row that is read with a version that is not positive violates the persistence invariants.
unfoldable pub lock_task : String → Tx Tables Task
lock_task id s = elim (s.task id) [
  | none ↦ fail TxError.not_found s
  | some t ↦
      if execution_version_valid t.current_execution_version
      then pure t s
      else fail TxError.persistence_invariant_violation s
]

unfoldable pub lock_run_by_task : String → Tx Tables Run
lock_run_by_task id s = elim (s.run id) [ none ↦ fail TxError.not_found s | some r ↦ pure r s ]

unfoldable pub lock_execution : String → ℕ → Tx Tables TaskExecution
lock_execution id version s = elim (s.execution id version) [
  | none ↦ fail TxError.not_found s
  | some e ↦
      if execution_version_valid e.execution_version
      then pure e s
      else fail TxError.persistence_invariant_violation s
]

-- The row after `UPDATE task`.
abbrev pub updated_task : Task → TaskUpdate → Task
updated_task t u = record t {
  status = u.status;
  current_execution_version = u.current_execution_version;
  result_summary = u.result_summary;
  error_code = u.error_code;
  queued_at = u.queued_at;
  started_at = u.started_at;
  ended_at = u.ended_at;
}

unfoldable pub update_task : TaskUpdate → Tx Tables Bool
unfolding task_status_eq
update_task u s = elim (s.task u.task_id) [
  | none ↦ pure false s
  | some t ↦
      if task_status_eq t.status u.expected_status
        && t.current_execution_version == u.expected_current_execution_version
      then pure true (record s { task = set_task s.task u.task_id (updated_task t u) })
      else pure false s
]

-- The CTE `guarded_task` of the other two updates: the task that still has this current version (and
-- run).
guarded_by_version : Option Task → ℕ → Bool
guarded_by_version none version = false
guarded_by_version (some t) version = t.current_execution_version == version

guarded_by_run : Option Task → String → ℕ → Bool
guarded_by_run none run version = false
guarded_by_run (some t) run version =
    text_eq t.current_run_id run && t.current_execution_version == version

abbrev pub updated_run : Run → RunUpdate → Run
updated_run r u = record r {
  status = u.status;
  plan_id = u.plan_id;
  current_step_id = u.current_step_id;
  context = u.context;
  error_code = u.error_code;
  started_at = u.started_at;
  ended_at = u.ended_at;
}

unfoldable pub update_run : RunUpdate → Tx Tables Bool
unfolding run_status_eq guarded_by_run
update_run u s = elim (s.run u.task_id) [
  | none ↦ pure false s
  | some r ↦
      if guarded_by_run (s.task u.task_id) u.run_id u.execution_version
        && text_eq r.run_id u.run_id
        && run_status_eq r.status u.expected_status
      then pure true (record s { run = set_run s.run u.task_id (updated_run r u) })
      else pure false s
]

is_config_mismatch : Option ErrorCode → Bool
is_config_mismatch (some ErrorCode.config_version_mismatch) = true
is_config_mismatch _ = false

-- `observed_config_hash` may be written once, by the interruption of a configuration mismatch.
unfoldable pub observation_allowed : TaskExecution → TaskExecutionUpdate → Bool
unfolding execution_status_eq is_config_mismatch
observation_allowed e u =
    is_none u.observed_config_hash
    || (is_none e.observed_config_hash
        && execution_status_eq u.status ExecutionStatus.interrupted
        && is_config_mismatch u.error_code)

abbrev pub coalesce : Option String → Option String → Option String
coalesce none b = b
coalesce (some a) b = some a

abbrev pub updated_execution : TaskExecution → TaskExecutionUpdate → TaskExecution
updated_execution e u = record e {
  status = u.status;
  worker_id = u.worker_id;
  observed_config_hash = coalesce e.observed_config_hash u.observed_config_hash;
  error_code = u.error_code;
  invariant_code = u.invariant_code;
  termination_reason = u.termination_reason;
  started_at = u.started_at;
  ended_at = u.ended_at;
}

unfoldable pub update_execution : TaskExecutionUpdate → Tx Tables Bool
unfolding execution_status_eq guarded_by_version observation_allowed
update_execution u s = elim (s.execution u.task_id u.execution_version) [
  | none ↦ pure false s
  | some e ↦
      if guarded_by_version (s.task u.task_id) u.execution_version
        && execution_status_eq e.status u.expected_status
        && option_text_eq e.worker_id u.expected_worker_id
        && observation_allowed e u
      then pure true (record s {
        execution = set_execution s.execution u.task_id u.execution_version (updated_execution e u);
      })
      else pure false s
]
