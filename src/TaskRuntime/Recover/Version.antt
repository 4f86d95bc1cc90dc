-- ===== src/TaskRuntime/Recover/Version.antt =====
-- internal/taskruntime/recover.go: the writes of the next version. Versions are below 2 ^ 63 - 1, so
-- that the next one is valid.
use agentops_go.Prelude.{ℕ, suc, String, Bool, true, false, none, some, ◌∷◌, if◌then◌else◌}
use agentops_go.Contracts.Status.{TaskStatus, RunStatus, ExecutionStatus, task_status_eq}
use agentops_go.Contracts.Execution.{CheckpointNextAction}
use agentops_go.Lifecycle.{can_task_transition}
use agentops_go.TaskRuntime.Entity.{TaskExecution, TaskUpdate, RunUpdate}
use agentops_go.TaskRuntime.Store.{update_task, update_run}
use agentops_go.TaskRuntime.Store.Transaction.{Tx, ok, pure, ◌>>=◌, ◌>>◌, Tables, PortWrite}
use agentops_go.TaskRuntime.Termination.{TerminationFacts}
use agentops_go.TaskRuntime.Termination.Cancel.{answered, on_rest, must_apply}
use agentops_go.TaskRuntime.Recover.{RecoverPorts}
use agentops_go.TaskRuntime.Recover.Failure.{Commands, insert_execution, allowed}

abbrev pub is_generate_plan : CheckpointNextAction → Bool
is_generate_plan CheckpointNextAction.generate_plan = true
is_generate_plan _ = false

-- `recoveryTargetStates`.
abbrev pub target_task : CheckpointNextAction → TaskStatus
target_task a = if is_generate_plan a then TaskStatus.pending else TaskStatus.running

abbrev pub target_run : CheckpointNextAction → RunStatus
target_run a = if is_generate_plan a then RunStatus.pending else RunStatus.running

-- The execution of the next version.
abbrev pub next_execution : TerminationFacts → String → String → ℕ → TaskExecution
next_execution f id hash now = record {
  task_execution_id = id;
  task_id = f.task.task_id;
  execution_version = suc f.execution.execution_version;
  worker_id = none;
  status = ExecutionStatus.queued;
  execution_config_hash = hash;
  observed_config_hash = none;
  error_code = none;
  invariant_code = none;
  termination_reason = none;
  created_at = now;
  started_at = none;
  ended_at = none;
}

abbrev pub requeued_task : TerminationFacts → TaskStatus → ℕ → TaskUpdate
requeued_task f to now = record {
  task_id = f.task.task_id;
  expected_status = f.task.status;
  expected_current_execution_version = f.execution.execution_version;
  status = to;
  current_execution_version = suc f.execution.execution_version;
  result_summary = f.task.result_summary;
  error_code = none;
  queued_at = some now;
  started_at = f.task.started_at;
  ended_at = none;
}

abbrev pub requeued_run : TerminationFacts → RunStatus → RunUpdate
requeued_run f to = record {
  task_id = f.task.task_id;
  run_id = f.run.run_id;
  execution_version = suc f.execution.execution_version;
  expected_status = f.run.status;
  status = to;
  plan_id = f.run.plan_id;
  current_step_id = f.run.current_step_id;
  context = f.run.context;
  error_code = none;
  started_at = f.run.started_at;
  ended_at = none;
}

unfoldable pub task_may_move : TaskStatus → TaskStatus → Tx Commands (Unit {0})
unfolding allowed
task_may_move from to =
    if task_status_eq from to then pure tt else allowed (can_task_transition from to)

-- A start that the checkpoint module accepted is recorded with the tables.
abbrev pub record_start : PortWrite → Tx Tables (Unit {0})
record_start w s = ok (tt, record s { checkpoints = w ∷ s.checkpoints })

unfoldable pub start_recovery :
    RecoverPorts → TerminationFacts → String → String → Tx Commands String
start_recovery p f source hash = do
  id ← answered (p.create_recovery_start source (suc f.execution.execution_version) hash)
  on_rest (
      record_start (record {
        task_id = f.task.task_id;
        run_id = f.run.run_id;
        execution_version = suc f.execution.execution_version;
        execution_config_hash = hash;
      }))
  pure id

-- The writes of the three objects.
unfoldable pub requeue :
    TerminationFacts → CheckpointNextAction → String → String → ℕ → Tx Commands (Unit {0})
unfolding task_may_move
requeue f action id hash now = do
  on_rest (insert_execution (next_execution f id hash now))
  task_may_move f.task.status (target_task action)
  moved ← on_rest (update_task (requeued_task f (target_task action) now))
  must_apply moved
  reset ← on_rest (update_run (requeued_run f (target_run action)))
  must_apply reset
