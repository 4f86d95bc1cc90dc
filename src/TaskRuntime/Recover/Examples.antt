-- ===== src/TaskRuntime/Recover/Examples.antt =====
-- Instances of the theorems on a recovery.
use agentops_go.Prelude.{
  String, [], true, none, some, ◌≡◌, ◌≢◌, refl, if◌then◌else◌, text_eq, ◌==◌, ◌&&◌,
}
use agentops_go.Contracts.Status.{
  TaskStatus, RunStatus, ExecutionStatus, task_status_eq, run_status_eq, execution_status_eq,
  task_status_terminal,
}
use agentops_go.Contracts.Codes.{ErrorCode}
use agentops_go.Contracts.Execution.{CheckpointNextAction, next_action_valid}
use agentops_go.Contracts.Hash.{hash_valid}
use agentops_go.Lifecycle.{can_task_transition}
use agentops_go.TaskRuntime.Entity.{Task, Run, TaskExecution}
use agentops_go.TaskRuntime.Ports.{EnsurePendingReportResult}
use agentops_go.TaskRuntime.Store.{
  lock_task, lock_run_by_task, lock_execution, update_task, update_run,
}
use agentops_go.TaskRuntime.Store.Transaction.{ok, execute}
use agentops_go.TaskRuntime.Termination.{TerminationFacts}
use agentops_go.TaskRuntime.Termination.Cancel.{on_rest, must_apply, insert_receipt}
use agentops_go.TaskRuntime.Recover.{
  RecoverTaskRequest, TaskRecovered, RecoverPorts, RecoveryCheckpointResult, recovery_phase,
  recover_receipt_valid, recover_result,
}
use agentops_go.TaskRuntime.Recover.Failure.{
  Commands, lock_recovery_facts, insert_execution, keep_recover_receipt, allowed,
}
use agentops_go.TaskRuntime.Recover.Service.{
  recover_version, recovery_hash, recover_hashes, recover_source, recover_valid, recover_checked,
  recover_in_time, recover_facts, recover_anew, recover_work, recover_task,
}
use agentops_go.TaskRuntime.Recover.Version.{task_may_move, start_recovery, requeue}
use agentops_go.TaskRuntime.Recover.Stuck.{recover_task-stuck}
use agentops_go.TaskRuntime.Recover.Requeued.{Requeued, recover_task-Requeued}

abbrev the_hash : String
the_hash = "cccccccccccccccccccccccccccccccccccccccccccccccccccccccccccccccc"

-- A task in the given state, whose first execution was interrupted at 50.
abbrev task_in : TaskStatus → Task
task_in status = record {
  task_id = "t1";
  agent_id = "a1";
  created_by = "u1";
  input = "hello";
  status = status;
  current_run_id = "r1";
  current_execution_version = 1;
  result_summary = none;
  error_code = none;
  deadline_at = 100;
  queued_at = none;
  created_at = 9;
  started_at = some 10;
  ended_at = none;
}

abbrev the_run : Run
the_run = record {
  run_id = "r1";
  task_id = "t1";
  status = RunStatus.running;
  plan_id = none;
  current_step_id = none;
  context = "{}";
  error_code = none;
  started_at = some 10;
  ended_at = none;
}

abbrev interrupted_execution : TaskExecution
interrupted_execution = record {
  task_execution_id = "e1";
  task_id = "t1";
  execution_version = 1;
  worker_id = some "w1";
  status = ExecutionStatus.interrupted;
  execution_config_hash = the_hash;
  observed_config_hash = none;
  error_code = some ErrorCode.worker_interrupted;
  invariant_code = none;
  termination_reason = none;
  created_at = 9;
  started_at = some 10;
  ended_at = some 50;
}

abbrev facts_in : TaskStatus → TerminationFacts
facts_in status = record {
  task = task_in status;
  run = the_run;
  execution = interrupted_execution;
  step = none;
  tool_execution = none;
}

abbrev stores_in : TaskStatus → Commands
stores_in status = record {
  receipts = λ _. none;
  rest = record {
    task = λ id. if text_eq "t1" id then some (task_in status) else none;
    run = λ id. if text_eq "t1" id then some the_run else none;
    execution = λ id n. if text_eq "t1" id && 1 == n then some interrupted_execution else none;
    task_ids = [];
    checkpoints = [];
    reports = [];
  };
}

abbrev the_ports : RecoverPorts
the_ports = record {
  now = ok 60;
  given = λ _. true;
  fingerprint = λ task operator. task;
  lookup_agent = λ _. some (record { agent_id = "a1"; enabled = true; config = "{}" });
  hash_execution_config = λ _. ok the_hash;
  validate_recovery_source = λ _ _ _ _. ok (
      RecoveryCheckpointResult.valid (record {
        checkpoint_id = "c1";
        execution_config_hash = the_hash;
        next_action = CheckpointNextAction.generate_plan;
        source = some "s1";
      }));
  create_recovery_start = λ _ _ _. ok "c2";
  ensure_pending = λ _. ok EnsurePendingReportResult.created;
  new_id = ok "e2";
  encode = λ _. "x";
  decode = λ _. none;
  stored = λ s. s;
}

abbrev the_request : RecoverTaskRequest
the_request = record { command_id = "k1"; task_id = "t1"; operator_id = "u1" }

abbrev the_answer : TaskRecovered
the_answer = record {
  task_id = "t1";
  run_id = "r1";
  source_execution_version = 1;
  new_execution_version = 2;
  task_status = TaskStatus.pending;
  run_status = RunStatus.pending;
  execution_status = ExecutionStatus.queued;
  queued_at = 60;
  recovery_checkpoint_id = "c2";
}

stores_in-found :
    (status : TaskStatus)
    → on_rest (lock_recovery_facts "t1") (stores_in status) ≡ ok (facts_in status, stores_in status)
unfolding lock_recovery_facts lock_task lock_run_by_task lock_execution
stores_in-found status = refl

recover_task-stuck_example :
    (recover_task the_ports the_request (stores_in TaskStatus.running))
    ≢ (ok the_answer, stores_in TaskStatus.pending)
recover_task-stuck_example =
    recover_task-stuck the_ports the_request (stores_in TaskStatus.running)
      (stores_in TaskStatus.running) (facts_in TaskStatus.running) refl
      (stores_in-found TaskStatus.running) refl the_answer (stores_in TaskStatus.pending)

abbrev recovered_stores : Commands
recovered_stores = (recover_task the_ports the_request (stores_in TaskStatus.interrupted)).1

recovered_answer :
    recover_task the_ports the_request (stores_in TaskStatus.interrupted)
    ≡ (ok the_answer, recovered_stores)
unfolding recover_task recover_work recover_anew recover_facts recover_in_time recover_checked
    recover_valid recover_source recovery_hash recover_hashes recover_version requeue start_recovery
    task_may_move allowed keep_recover_receipt insert_execution lock_recovery_facts lock_task
    lock_run_by_task lock_execution update_task update_run must_apply insert_receipt execute
    can_task_transition recovery_phase recover_receipt_valid recover_result task_status_eq
    run_status_eq execution_status_eq task_status_terminal hash_valid next_action_valid
recovered_answer = refl

recover_task-Requeued_example :
    Requeued the_request (stores_in TaskStatus.interrupted).rest recovered_stores.rest the_answer
recover_task-Requeued_example =
    recover_task-Requeued the_ports the_request (stores_in TaskStatus.interrupted) the_answer
      recovered_stores refl recovered_answer
