-- ===== src/TaskRuntime/Startup/Examples.antt =====
-- internal/taskruntime/startup_cleanup.go: executions of the worker w1 that a process of the worker w2
-- finds. The database of these examples is the list of the writes that were applied.
use agentops_go.Prelude.{
  ℕ, Bool, true, false, Option, none, some, List, [], ◌∷◌, ◌≡◌, refl, sym, ap, subst, arith,
}
use agentops_go.Contracts.Status.{
  TaskStatus, RunStatus, ExecutionStatus, StepStatus, ToolExecutionStatus, step_status_eq,
  step_status_terminal, task_status_eq, run_status_eq, execution_status_eq,
}
use agentops_go.Contracts.Codes.{ReasonCode, valid_for_checkpoint_invalid}
use agentops_go.Lifecycle.{
  can_task_transition, can_run_transition, can_step_transition, can_execution_transition,
}
use agentops_go.TaskRuntime.Entity.{Task, Run, TaskExecution}
use agentops_go.TaskRuntime.Store.Transaction.{ok, execute}
use agentops_go.TaskRuntime.Ports.{EnsurePendingReportResult}
use agentops_go.TaskRuntime.Termination.{AgentTools, ToolDefinition, RiskLevel, tool_running}
use agentops_go.TaskRuntime.Startup.{
  StepType, StartupCleanupStep, StartupCleanupToolExecution, StartupCleanupFacts, StartupTool,
  is_tool_call, objects_valid, step_valid, startup_facts_valid, startup_tool_from,
  startup_tool_definition, tool_execution_valid, kind_of_tool, kind_of_step, startup_tool_kind,
}
use agentops_go.TaskRuntime.Startup.Request.{
  ApplyStartupCleanupRequest, StartupCleanupDisposition, StartupCleanupCheckpointResult,
  StartupCleanupSummary, StartupPorts, base_cleanup, timeout_startup_request,
  checkpoint_invalid_startup_request,
}
use agentops_go.TaskRuntime.Startup.Service.{
  classify, classify_kind, classify_in_time, classify_checkpoint, startup_tools, startup_cleanup,
  cleanup_work, clean_all, clean_one, write_cleanup, transitions_valid, rejected_task,
  rejected_step, reported, report_known,
}
use agentops_go.TaskRuntime.Startup.Matrix.{prescribed}
use agentops_go.TaskRuntime.Startup.Classified.{Scene, classify-Scene}
use agentops_go.TaskRuntime.Startup.Kept.{CleanupWrite, PortsKeep, startup_cleanup-Kept}
use agentops_go.TaskRuntime.Startup.Counted.{Done, startup_cleanup-Done}
use agentops_go.TaskRuntime.Startup.WriteTool.{Conservative, classify-Conservative}

abbrev left_task : Task
left_task = record {
  task_id = "t1";
  agent_id = "a1";
  created_by = "u1";
  input = "hello";
  status = TaskStatus.running;
  current_run_id = "r1";
  current_execution_version = 1;
  result_summary = none;
  error_code = none;
  deadline_at = 100;
  queued_at = none;
  created_at = 9;
  started_at = some 10;
  ended_at = none;
}

abbrev left_run : Run
left_run = record {
  run_id = "r1";
  task_id = "t1";
  status = RunStatus.running;
  plan_id = some "p1";
  current_step_id = some "s1";
  context = "";
  error_code = none;
  started_at = some 10;
  ended_at = none;
}

abbrev left_execution : TaskExecution
left_execution = record {
  task_execution_id = "e1";
  task_id = "t1";
  execution_version = 1;
  worker_id = some "w1";
  status = ExecutionStatus.running;
  execution_config_hash = "h";
  observed_config_hash = none;
  error_code = none;
  invariant_code = none;
  termination_reason = none;
  created_at = 9;
  started_at = some 10;
  ended_at = none;
}

abbrev left_step : StartupCleanupStep
left_step = record {
  step_id = "s1";
  step_type = StepType.tool_call;
  status = StepStatus.running;
  tool_name = "patch";
  error_code = none;
  ended_at = none;
}

abbrev left_tool : StartupCleanupToolExecution
left_tool = record {
  tool_execution_id = "x1";
  task_id = "t1";
  step_id = "s1";
  execution_version = 1;
  tool_name = "patch";
  status = ToolExecutionStatus.running;
  error_code = none;
  side_effect_unknown = false;
  ended_at = none;
}

abbrev left_facts : StartupCleanupFacts
left_facts = record {
  task = left_task;
  run = left_run;
  execution = left_execution;
  step = some left_step;
  tool_execution = some left_tool;
  approved_recovery = none;
}

abbrev patch : ToolDefinition
patch = record { name = "patch"; enabled = true; risk_level = RiskLevel.high; read_only = false }

abbrev the_tools : AgentTools
the_tools = record { enabled = true; tools = patch ∷ [] }

abbrev Log : Type 0
Log = List ApplyStartupCleanupRequest

-- The database clock shows `now`.
abbrev ports_at : ℕ → StartupPorts Log
ports_at now = record {
  now = λ s. ok (now, s);
  lock_legacy_running_executions = λ w s. ok (left_facts ∷ [], s);
  load_latest = λ task run version s.
      ok (StartupCleanupCheckpointResult.invalid ReasonCode.checkpoint_not_found, s);
  apply = λ r s. ok (true, r ∷ s);
  ensure_pending = λ w s. ok (EnsurePendingReportResult.created, s);
  lookup_agent = λ id. some (record { agent_id = "a1"; tools = the_tools; config = "c" });
  hash_execution_config = λ c. ok "h";
  json_valid = λ s. true;
}

-- Behind the deadline.
late_writes :
    classify (ports_at 150) left_facts "w2" 150 []
    ≡ ok (prescribed left_facts 150 true none StartupTool.write_running, [])
unfolding classify classify_kind startup_facts_valid objects_valid step_valid startup_tools
    startup_tool_kind kind_of_step kind_of_tool startup_tool_definition startup_tool_from
    tool_execution_valid base_cleanup timeout_startup_request is_tool_call tool_running
    task_status_eq run_status_eq execution_status_eq step_status_eq
late_writes = refl

-- Before the deadline, with no checkpoint.
lost_checkpoint :
    classify (ports_at 50) left_facts "w2" 50 []
    ≡ ok (
      prescribed left_facts 50 false
          (some ReasonCode.checkpoint_not_found)
          StartupTool.write_running,
      [],
    )
unfolding classify classify_kind classify_in_time classify_checkpoint valid_for_checkpoint_invalid
    checkpoint_invalid_startup_request startup_facts_valid objects_valid step_valid startup_tools
    startup_tool_kind kind_of_step kind_of_tool startup_tool_definition startup_tool_from
    tool_execution_valid base_cleanup is_tool_call tool_running task_status_eq run_status_eq
    execution_status_eq step_status_eq
lost_checkpoint = refl

classify-Scene_example : Scene (ports_at 50) left_facts "w2" 50 [] (
    prescribed left_facts 50 false (some ReasonCode.checkpoint_not_found) StartupTool.write_running)
classify-Scene_example =
    classify-Scene (ports_at 50) left_facts "w2" 50 []
      (prescribed left_facts 50 false (some ReasonCode.checkpoint_not_found)
        StartupTool.write_running)
      [] lost_checkpoint

the_definition : startup_tool_definition the_tools "patch" ≡ ok patch
unfolding startup_tool_definition startup_tool_from
the_definition = refl

the_config :
    startup_tools ((ports_at 150).lookup_agent "a1") (ports_at 150).hash_execution_config left_facts
    ≡ ok the_tools
unfolding startup_tools
the_config = refl

classify-Conservative_example :
    Conservative (prescribed left_facts 150 true none StartupTool.write_running)
classify-Conservative_example =
    classify-Conservative (ports_at 150) left_facts "w2" 150 the_tools left_step left_tool patch []
      (prescribed left_facts 150 true none StartupTool.write_running) [] the_config refl refl
      the_definition refl late_writes

-- No write of the log marks a side effect of an execution that is interrupted.
abbrev Known : ApplyStartupCleanupRequest → Type 0
Known r = r.disposition ≡ StartupCleanupDisposition.interrupt → r.tool_side_effect_unknown ≡ false

abbrev AllKnown : Log → Type 0
AllKnown [] = Unit
AllKnown (r ∷ s) = Known r × AllKnown s

prescribed-Known :
    (f : StartupCleanupFacts) (now : ℕ) (late : Bool) (reason : Option ReasonCode)
    (kind : StartupTool)
    → Known ((prescribed f now late reason kind).0)
prescribed-Known f now true reason StartupTool.no_tool e = refl
prescribed-Known f now true reason StartupTool.read_boundary e = refl
prescribed-Known f now true reason StartupTool.write_boundary e = refl
prescribed-Known f now true reason StartupTool.read_running e = refl
prescribed-Known f now true reason StartupTool.write_running e = absurd (cc)
prescribed-Known f now false (some r) kind e = refl
prescribed-Known f now false none StartupTool.no_tool e = refl
prescribed-Known f now false none StartupTool.read_boundary e = refl
prescribed-Known f now false none StartupTool.write_boundary e = refl
prescribed-Known f now false none StartupTool.read_running e = refl
prescribed-Known f now false none StartupTool.write_running e = absurd (cc)

CleanupWrite-Known :
    (now : ℕ) (f : StartupCleanupFacts) (r : ApplyStartupCleanupRequest) (ends : Bool)
    → CleanupWrite "w2" now f r ends
    → Known r
CleanupWrite-Known now f r ends w =
    subst Known (sym (ap (λ x. x.0) w.request)) (prescribed-Known f now w.late w.reason w.kind)

log_keeps : PortsKeep (ports_at 50) "w2" AllKnown
log_keeps = record {
  now = λ s i e. subst AllKnown (ground arith) i;
  locked = λ s i e. subst AllKnown (ground arith) i;
  loaded = λ task run version s i e. subst AllKnown (ground arith) i;
  applied = λ now f r ends w s i e.
      subst AllKnown {x = r ∷ s} (ground arith) (CleanupWrite-Known now f r ends w, i);
  ensured = λ now f r w s i e. subst AllKnown (ground arith) i;
}

startup_cleanup-Kept_example : AllKnown ((startup_cleanup (ports_at 50) "w2" []).1)
startup_cleanup-Kept_example = startup_cleanup-Kept (ports_at 50) "w2" AllKnown log_keeps [] tt

abbrev one_ended : StartupCleanupSummary
one_ended = record { inspected = 1; interrupted = 0; terminalized = 1 }

abbrev cleaned_log : Log
cleaned_log = (startup_cleanup (ports_at 50) "w2" []).1

cleaned : startup_cleanup (ports_at 50) "w2" [] ≡ (ok one_ended, cleaned_log)
unfolding startup_cleanup cleanup_work clean_all clean_one write_cleanup execute transitions_valid
    rejected_task rejected_step reported report_known can_task_transition can_run_transition
    can_step_transition can_execution_transition step_status_terminal classify classify_kind
    classify_in_time classify_checkpoint valid_for_checkpoint_invalid
    checkpoint_invalid_startup_request startup_facts_valid objects_valid step_valid startup_tools
    startup_tool_kind kind_of_step kind_of_tool startup_tool_definition startup_tool_from
    tool_execution_valid base_cleanup is_tool_call tool_running task_status_eq run_status_eq
    execution_status_eq step_status_eq
cleaned = refl

startup_cleanup-Done_example : Done (ports_at 50) "w2" [] one_ended cleaned_log
startup_cleanup-Done_example =
    startup_cleanup-Done (ports_at 50) "w2" [] one_ended cleaned_log cleaned
