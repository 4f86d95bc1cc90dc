-- ===== src/TimeoutScanner/Examples.antt =====
-- An instance of the theorem on a scanner that gives up.
use agentops_go.Prelude.{true, none, some, [], ◌∷◌, ◌≡◌, refl, if◌then◌else◌, text_eq}
use agentops_go.Contracts.Status.{TaskStatus, RunStatus, ExecutionStatus, task_status_terminal}
use agentops_go.ActiveCall.{new_registry}
use agentops_go.TaskRuntime.Entity.{Task, Run, TaskExecution}
use agentops_go.TaskRuntime.Ports.{EnsurePendingReportResult}
use agentops_go.TaskRuntime.Store.Transaction.{TxError, ok, err, execute}
use agentops_go.TaskRuntime.Termination.{TerminationFacts}
use agentops_go.TaskRuntime.Termination.Receipt.{TerminationPorts}
use agentops_go.TaskRuntime.Termination.Expire.{
  expire_task, expire_work, expire_facts, after_expire, signal_expired,
}
use agentops_go.TimeoutScanner.{
  ScanError, Turn, ScannerExit, ScannerPorts, Store, candidate_valid, scan_all, scan, scan_loop,
  run_scanner,
}
use agentops_go.TimeoutScanner.Stopped.{Stopped, run_scanner-Stopped}

abbrev ended_task : Task
ended_task = record {
  task_id = "t1";
  agent_id = "a1";
  created_by = "u1";
  input = "hello";
  status = TaskStatus.completed;
  current_run_id = "r1";
  current_execution_version = 1;
  result_summary = none;
  error_code = none;
  deadline_at = 100;
  queued_at = none;
  created_at = 9;
  started_at = some 10;
  ended_at = none;
}

abbrev ended_run : Run
ended_run = record {
  run_id = "r1";
  task_id = "t1";
  status = RunStatus.completed;
  plan_id = none;
  current_step_id = none;
  context = "{}";
  error_code = none;
  started_at = some 10;
  ended_at = none;
}

abbrev ended_execution : TaskExecution
ended_execution = record {
  task_execution_id = "e1";
  task_id = "t1";
  execution_version = 1;
  worker_id = some "w1";
  status = ExecutionStatus.completed;
  execution_config_hash = "";
  observed_config_hash = none;
  error_code = none;
  invariant_code = none;
  termination_reason = none;
  created_at = 9;
  started_at = some 10;
  ended_at = some 50;
}

abbrev ended_facts : TerminationFacts
ended_facts = record {
  task = ended_task;
  run = ended_run;
  execution = ended_execution;
  step = none;
  tool_execution = none;
}

-- The task "t1" has ended, any other is not found.
abbrev the_ports : TerminationPorts (Unit {0})
the_ports = record {
  now = ok 100;
  lock_facts = λ id d. if text_eq id "t1" then ok (ended_facts, d) else err TxError.not_found;
  apply = λ _ d. ok (true, d);
  ensure_pending = λ _ d. ok (EnsurePendingReportResult.created, d);
  lookup_tools = λ _. none;
  blank = λ s. text_eq s "";
  fingerprint = λ task operator. task;
  encode = λ _. "x";
  decode = λ _. none;
  stored = λ s. s;
}

abbrev the_scanner : ScannerPorts (Unit {0})
the_scanner = record {
  list_timeout_candidates = λ _. ok (
      record { task_id = "t1"; observed_execution_version = 1 }
      ∷ record { task_id = "t2"; observed_execution_version = 1 }
      ∷ []);
  ports = λ _ _. the_ports;
}

abbrev the_store : Store (Unit {0})
the_store = (record { receipts = λ _. none; rest = tt }, new_registry)

abbrev not_found : ScanError
not_found = ScanError.expire_failed TxError.not_found

gives_up :
    run_scanner the_scanner (Turn.done 1 ∷ []) the_store ≡ (ScannerExit.failed not_found, the_store)
unfolding run_scanner scan scan_all candidate_valid expire_task expire_work expire_facts execute
    after_expire signal_expired task_status_terminal scan_loop
gives_up = refl

run_scanner-Stopped_example : Stopped the_scanner not_found the_store
run_scanner-Stopped_example =
    run_scanner-Stopped the_scanner (Turn.done 1 ∷ []) the_store not_found the_store gives_up
