-- ===== src/TaskRuntime/Termination/Examples.antt =====
-- Instances of the theorems on the end of a task by a cancellation or a timeout.
use agentops_go.Prelude.{
  ℕ, true, false, none, some, [], ◌∷◌, ◌≡◌, refl, ltb, if◌then◌else◌, text_eq, ◌==◌,
}
use agentops_go.Contracts.Status.{
  TaskStatus, RunStatus, ExecutionStatus, ToolExecutionStatus, task_status_terminal,
}
use agentops_go.Contracts.Codes.{ErrorCode, TerminationReason}
use agentops_go.Contracts.Execution.{CheckpointNextAction}
use agentops_go.Lifecycle.{can_task_transition, can_run_transition, can_execution_transition}
use agentops_go.ActiveCall.{Registry, Key, Entry, CallState, lookup, key_eq}
use agentops_go.TaskRuntime.Entity.{Task, Run, TaskExecution}
use agentops_go.TaskRuntime.Ports.{EnsurePendingReportResult}
use agentops_go.TaskRuntime.Store.Transaction.{TxError, ok, err, execute}
use agentops_go.TaskRuntime.Termination.{
  TerminationFacts, TerminationToolExecution, ApplyTerminationRequest, AgentTools, RiskLevel,
  termination_request, attributed, rejected, base_request, with_step, with_tool, then_tool,
  tool_read_only, find_tool, capability, classified_tool, stopped_tool, tool_running,
}
use agentops_go.TaskRuntime.Termination.Receipt.{
  CancelTaskRequest, CancelReceiptResponse, Committed, Database, TerminationPorts, answer,
  cancelled_receipt,
}
use agentops_go.TaskRuntime.Termination.Cancel.{
  cancel_task, cancel_work, signal, cancel_anew, cancel_facts, cancel_in_time, terminate,
  must_apply, report_known, keep_receipt, insert_receipt,
}
use agentops_go.TaskRuntime.Termination.Expire.{
  ExpireTaskRequest, ExpireTaskResult, expire_task, expire_work, expire_facts, expire_observed,
  expire_due, observed, after_expire,
}
use agentops_go.TaskRuntime.Termination.Tools.{
  Legal, ToolStopped, termination_request-tool, termination_request-Legal,
}
use agentops_go.TaskRuntime.Termination.Replay.{Given, cancel_task-replay, cancel_task-conflict}
use agentops_go.TaskRuntime.Termination.Signal.{
  Fresh, Reached, cancellation_cause, cancel_task-Reached,
}
use agentops_go.TaskRuntime.Termination.Deadline.{Overdue, Signalled, expire_task-Overdue}

abbrev running_task : Task
running_task = record {
  task_id = "t1";
  agent_id = "a1";
  created_by = "u1";
  input = "hello";
  status = TaskStatus.running;
  current_run_id = "r1";
  current_execution_version = 1;
  result_summary = none;
  error_code = none;
  deadline_at = 100;
  queued_at = none;
  created_at = 9;
  started_at = some 10;
  ended_at = none;
}

abbrev running_run : Run
running_run = record {
  run_id = "r1";
  task_id = "t1";
  status = RunStatus.running;
  plan_id = none;
  current_step_id = none;
  context = "{}";
  error_code = none;
  started_at = some 10;
  ended_at = none;
}

abbrev running_execution : TaskExecution
running_execution = record {
  task_execution_id = "e1";
  task_id = "t1";
  execution_version = 1;
  worker_id = some "w1";
  status = ExecutionStatus.running;
  execution_config_hash = "";
  observed_config_hash = none;
  error_code = none;
  invariant_code = none;
  termination_reason = none;
  created_at = 9;
  started_at = some 10;
  ended_at = none;
}

-- A tool that writes is running.
abbrev writing_tool : TerminationToolExecution
writing_tool = record {
  tool_execution_id = "x1";
  tool_name = "restart";
  status = ToolExecutionStatus.running;
  error_code = none;
  side_effect_unknown = false;
  ended_at = none;
}

abbrev live_facts : TerminationFacts
live_facts = record {
  task = running_task;
  run = running_run;
  execution = running_execution;
  step = none;
  tool_execution = some writing_tool;
}

abbrev the_tools : AgentTools
the_tools = record {
  enabled = true;
  tools =
      record { name = "restart"; enabled = true; risk_level = RiskLevel.high; read_only = false }
      ∷ [];
}

abbrev write_request : ApplyTerminationRequest
write_request = record {
  task_id = "t1";
  expected_execution_version = 1;
  expected_task_status = TaskStatus.running;
  expected_run_status = RunStatus.running;
  expected_execution_status = ExecutionStatus.running;
  expected_step_status = none;
  expected_tool_status = some ToolExecutionStatus.running;
  task_status = TaskStatus.cancelled;
  task_error_code = ErrorCode.task_cancelled;
  run_error_code = ErrorCode.task_cancelled;
  step_error_code = ErrorCode.task_cancelled;
  execution_error_code = some ErrorCode.write_tool_interrupted;
  termination_reason = TerminationReason.cancelled;
  tool_status = some ToolExecutionStatus.unknown_outcome;
  tool_error_code = none;
  tool_side_effect_unknown = true;
  ended_at = 50;
  preserve_execution_ended_at = false;
}

write_request_lem :
    termination_request
      (some the_tools)
      live_facts
      50
      TaskStatus.cancelled
      ErrorCode.task_cancelled
      TerminationReason.cancelled
    ≡ ok write_request
unfolding termination_request attributed rejected base_request with_step with_tool then_tool
    tool_read_only find_tool capability classified_tool stopped_tool tool_running
    can_task_transition can_run_transition can_execution_transition
write_request_lem = refl

termination_request-tool_example :
    ToolStopped
      (some the_tools)
      live_facts
      50
      TaskStatus.cancelled
      ErrorCode.task_cancelled
      TerminationReason.cancelled
      write_request
      write_request_lem
      writing_tool
termination_request-tool_example =
    termination_request-tool (some the_tools) live_facts 50 TaskStatus.cancelled
      ErrorCode.task_cancelled TerminationReason.cancelled write_request write_request_lem
      writing_tool refl refl

termination_request-Legal_example : Legal live_facts TaskStatus.cancelled write_request
termination_request-Legal_example =
    termination_request-Legal (some the_tools) live_facts 50 TaskStatus.cancelled
      ErrorCode.task_cancelled TerminationReason.cancelled write_request write_request_lem

abbrev the_request : CancelTaskRequest
the_request = record { command_id = "k1"; task_id = "t1"; operator_id = "u1" }

abbrev other_request : CancelTaskRequest
other_request = record { command_id = "k1"; task_id = "t2"; operator_id = "u1" }

abbrev the_response : CancelReceiptResponse
the_response = cancelled_receipt live_facts TerminationReason.cancelled

abbrev ports_at : ℕ → TerminationPorts (Unit {0})
ports_at now = record {
  now = ok now;
  lock_facts = λ _ d. ok (live_facts, d);
  apply = λ _ d. ok (true, d);
  ensure_pending = λ _ d. ok (EnsurePendingReportResult.created, d);
  lookup_tools = λ _. some the_tools;
  blank = λ s. text_eq s "";
  fingerprint = λ task operator. task;
  encode = λ _. "x";
  decode = λ _. some the_response;
  stored = λ s. s;
}

abbrev no_receipts : Database (Unit {0})
no_receipts = record { receipts = λ _. none; rest = tt }

abbrev the_key : Key
the_key = record { task_id = "t1"; execution_version = 1; worker_id = "w1" }

abbrev the_call : Entry
the_call = record {
  key = the_key;
  metadata = record {
    action_kind = CheckpointNextAction.generate_plan;
    step_id = "";
    tool_execution_id = "";
  };
  state = CallState.active;
  ctx = none;
  released = false;
}

abbrev one_call : Registry
one_call = record {
  entries = (the_key, 0) ∷ [];
  heap = λ p. if p == 0 then some the_call else none;
  next = 1;
}

abbrev the_commit : Committed
the_commit = record { response = the_response; wrote_terminal = true; cancel_key = some the_key }

abbrev one_receipt : Database (Unit {0})
one_receipt = (execute (cancel_work (ports_at 50) the_request) no_receipts).1

committed :
    execute (cancel_work (ports_at 50) the_request) no_receipts ≡ (ok the_commit, one_receipt)
unfolding execute cancel_work cancel_anew cancel_facts cancel_in_time terminate must_apply
    report_known keep_receipt insert_receipt task_status_terminal termination_request attributed
    rejected base_request with_step with_tool then_tool tool_read_only find_tool capability
    classified_tool stopped_tool tool_running can_task_transition can_run_transition
    can_execution_transition
committed = refl

the_request-Given : Given (ports_at 50) the_request
the_request-Given = record { command = refl; task = refl; operator = refl }

other_request-Given : Given (ports_at 50) other_request
other_request-Given = record { command = refl; task = refl; operator = refl }

cancel_task-replay_example :
    (cancel_task (ports_at 50) the_request no_receipts one_call
      ≡ (answer the_response, (one_receipt, signal the_commit one_call)))
    × (cancel_task (ports_at 50) the_request one_receipt one_call
        ≡ (answer the_response, (one_receipt, one_call)))
cancel_task-replay_example =
    cancel_task-replay (ports_at 50) the_request no_receipts one_receipt the_commit one_call
      one_call the_request-Given committed refl

cancel_task-conflict_example :
    cancel_task (ports_at 50) other_request one_receipt one_call
    ≡ (err TxError.command_conflict, (one_receipt, one_call))
cancel_task-conflict_example =
    cancel_task-conflict (ports_at 50) the_request no_receipts one_receipt the_commit one_call
      other_request committed refl other_request-Given refl refl

the_request-Fresh : Fresh (ports_at 50) the_request no_receipts live_facts 50
unfolding task_status_terminal
the_request-Fresh = record { new = refl; locked = tt; lock = refl; clock = refl; live = refl }

cancel_task-Reached_example :
    Reached (signal the_commit one_call) 0 the_call (cancellation_cause (ltb 50 100))
unfolding lookup key_eq
cancel_task-Reached_example =
    cancel_task-Reached (ports_at 50) the_request no_receipts one_receipt live_facts 50 the_commit
      one_call the_key 0 the_call the_request-Fresh committed refl refl refl

abbrev the_candidate : ExpireTaskRequest
the_candidate = record { task_id = "t1"; observed_execution_version = 1 }

abbrev after_timeout : Database (Unit {0}) × Registry
after_timeout = (expire_task (ports_at 100) the_candidate no_receipts one_call).1

timed_out :
    expire_task (ports_at 100) the_candidate no_receipts one_call
    ≡ (ok (ExpireTaskResult.expired (some the_key)), (after_timeout.0, after_timeout.1))
unfolding expire_task execute expire_work expire_facts expire_observed expire_due observed terminate
    must_apply report_known task_status_terminal after_expire termination_request attributed
    rejected base_request with_step with_tool then_tool tool_read_only find_tool capability
    classified_tool stopped_tool tool_running can_task_transition can_run_transition
    can_execution_transition
timed_out = refl

expire_task-Overdue_example :
    Overdue (ports_at 100) the_candidate no_receipts (some the_key)
    × Signalled one_call (some the_key) after_timeout.1
expire_task-Overdue_example =
    expire_task-Overdue (ports_at 100) the_candidate no_receipts one_call after_timeout.1
      after_timeout.0 (some the_key) timed_out
