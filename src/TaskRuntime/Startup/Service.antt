-- ===== src/TaskRuntime/Startup/Service.antt =====
-- internal/taskruntime/startup_cleanup.go: the classification of an execution that was left running,
-- and the transaction of `StartupCleanup`.
use agentops_go.Prelude.{
  ℕ, suc, String, Bool, true, false, not, ◌||◌, Option, none, some, List, [], ◌∷◌, ltb,
  if◌then◌else◌, text_eq,
}
use agentops_go.Contracts.Status.{
  TaskStatus, RunStatus, ExecutionStatus, StepStatus, step_status_terminal,
}
use agentops_go.Contracts.Codes.{ReasonCode, valid_for_checkpoint_invalid}
use agentops_go.Lifecycle.{
  can_task_transition, can_run_transition, can_step_transition, can_execution_transition,
}
use agentops_go.TaskRuntime.Store.Transaction.{
  Tx, TxError, Result, ok, err, pure, fail, ◌>>=◌, ◌>>◌, execute,
}
use agentops_go.TaskRuntime.Ports.{EnsurePendingReportResult}
use agentops_go.TaskRuntime.Termination.{AgentTools}
use agentops_go.TaskRuntime.Startup.{
  StartupCleanupStep, StartupCleanupFacts, StartupTool, startup_facts_valid, startup_tool_kind,
}
use agentops_go.TaskRuntime.Startup.Scene.{startup_scene, startup_checkpoint_valid}
use agentops_go.TaskRuntime.Startup.Request.{
  StartupCleanupDisposition, ApplyStartupCleanupRequest, StartupCleanupCheckpointResult,
  StartupCleanupSummary, StartupConfig, StartupPorts, base_cleanup, interrupt_startup_request,
  write_tool_startup_request, timeout_startup_request, checkpoint_invalid_startup_request,
}

-- The request, and whether it ends the task.
abbrev pub Classified : Type 0
Classified = ApplyStartupCleanupRequest × Bool

unfoldable pub classify_scene :
    ApplyStartupCleanupRequest → StartupTool → Result (Option ReasonCode) → Result Classified
classify_scene r kind (err e) = err e
classify_scene r kind (ok (some reason)) = ok (checkpoint_invalid_startup_request r reason, true)
classify_scene r StartupTool.write_running (ok none) = ok (write_tool_startup_request r, true)
classify_scene r kind (ok none) = ok (interrupt_startup_request r kind, false)

unfoldable pub classify_checkpoint :
    (String → Bool)
    → StartupCleanupFacts
    → ApplyStartupCleanupRequest
    → StartupTool
    → StartupCleanupCheckpointResult
    → Result Classified
unfolding classify_scene
classify_checkpoint json_valid f r kind (StartupCleanupCheckpointResult.invalid reason) =
    if valid_for_checkpoint_invalid reason
    then ok (checkpoint_invalid_startup_request r reason, true)
    else err TxError.persistence_invariant_violation
classify_checkpoint json_valid f r kind (StartupCleanupCheckpointResult.valid k) =
    if startup_checkpoint_valid f k
    then classify_scene r kind (startup_scene json_valid f k kind)
    else err TxError.persistence_invariant_violation
classify_checkpoint json_valid f r kind StartupCleanupCheckpointResult.foreign =
    err TxError.persistence_invariant_violation

abbrev pub same_hash : Result String → String → Result (Unit {0})
same_hash (err e) h = err e
same_hash (ok g) h = if text_eq g h then ok tt else err TxError.persistence_invariant_violation

-- The configuration that the execution was frozen with.
unfoldable pub startup_tools :
    Option StartupConfig → (StartupConfig → Result String) → StartupCleanupFacts → Result AgentTools
startup_tools none hash f = err TxError.config_unavailable
startup_tools (some c) hash f =
    if not c.tools.enabled || not (text_eq c.agent_id f.task.agent_id)
    then err TxError.config_unavailable
    else elim (same_hash (hash c) f.execution.execution_config_hash) [
      | err e ↦ err e
      | ok _ ↦ ok c.tools
    ]

-- A rejected transition, if there is one.
unfoldable pub rejected_task : StartupCleanupFacts → Option TxError
rejected_task f =
    let task = can_task_transition f.task.status TaskStatus.failed in
    let run = can_run_transition f.run.status RunStatus.failed in
    let execution = can_execution_transition f.execution.status ExecutionStatus.failed in
    if not task.allowed
    then some (TxError.lifecycle task.reason)
    else if not run.allowed
    then some (TxError.lifecycle run.reason)
    else if not execution.allowed
    then some (TxError.lifecycle execution.reason)
    else none

unfoldable pub rejected_step : Option StartupCleanupStep → Option TxError
rejected_step none = none
rejected_step (some s) =
    let d = can_step_transition s.status StepStatus.failed in
    if step_status_terminal s.status || d.allowed then none else some (TxError.lifecycle d.reason)

abbrev pub first_error : Option TxError → Option TxError → Result (Unit {0})
first_error (some e) _ = err e
first_error none (some e) = err e
first_error none none = ok tt

-- `validateTransitions`.
unfoldable pub transitions_valid :
    StartupCleanupFacts → StartupCleanupDisposition → Result (Unit {0})
unfolding rejected_task rejected_step
transitions_valid f StartupCleanupDisposition.interrupt =
    let d = can_execution_transition f.execution.status ExecutionStatus.interrupted in
    if d.allowed then ok tt else err (TxError.lifecycle d.reason)
transitions_valid f StartupCleanupDisposition.terminal =
    first_error (rejected_task f) (rejected_step f.step)
transitions_valid f (StartupCleanupDisposition.unknown _) =
    err TxError.persistence_invariant_violation

abbrev pub zero_summary : StartupCleanupSummary
zero_summary = record { inspected = 0; interrupted = 0; terminalized = 0 }

abbrev pub counted : Bool → StartupCleanupSummary → StartupCleanupSummary
counted true s = record s { inspected = suc s.inspected; terminalized = suc s.terminalized }
counted false s = record s { inspected = suc s.inspected; interrupted = suc s.interrupted }

module _ {D : Type 0} where
  abbrev pub answered : {A : Type 0} → Result A → Tx D A
  answered (ok a) s = ok (a, s)
  answered (err e) s = err e

  unfoldable pub classify_in_time :
      StartupPorts D → StartupCleanupFacts → ℕ → StartupTool → Tx D Classified
  unfolding classify_checkpoint
  classify_in_time p f now kind = do
    result ← p.load_latest f.task.task_id f.run.run_id f.execution.execution_version
    answered (classify_checkpoint p.json_valid f (base_cleanup f now) kind result)

  unfoldable pub classify_kind :
      StartupPorts D → StartupCleanupFacts → ℕ → StartupTool → Tx D Classified
  classify_kind p f now kind =
      if ltb now f.task.deadline_at
      then classify_in_time p f now kind
      else pure (timeout_startup_request (base_cleanup f now) f.tool_execution kind, true)

  unfoldable pub classify : StartupPorts D → StartupCleanupFacts → String → ℕ → Tx D Classified
  classify p f worker now =
      if not (startup_facts_valid f worker)
      then fail TxError.persistence_invariant_violation
      else do
        tools ← answered (startup_tools (p.lookup_agent f.task.agent_id) p.hash_execution_config f)
        kind ← answered (startup_tool_kind f tools)
        classify_kind p f now kind

  unfoldable pub report_known : EnsurePendingReportResult → Tx D (Unit {0})
  report_known EnsurePendingReportResult.created = pure tt
  report_known EnsurePendingReportResult.existing = pure tt
  report_known EnsurePendingReportResult.foreign = fail TxError.persistence_invariant_violation

  -- `ensureTerminationReport`, for a task that ends.
  unfoldable pub reported : StartupPorts D → StartupCleanupFacts → ℕ → Bool → Tx D (Unit {0})
  unfolding report_known
  reported p f now false = pure tt
  reported p f now true = do
    r ← p.ensure_pending (f.task.task_id, f.run.run_id, now)
    report_known r

  abbrev pub must_apply : Bool → Tx D (Unit {0})
  must_apply b = if b then pure tt else fail TxError.persistence_invariant_violation

  -- The writes for one classified execution.
  unfoldable pub write_cleanup : StartupPorts D → StartupCleanupFacts → ℕ → Classified → Tx D Bool
  write_cleanup p f now (request, ends) = do
    answered (transitions_valid f request.disposition)
    applied ← p.apply request
    must_apply applied
    reported p f now ends
    pure ends

  -- One round of the loop.
  unfoldable pub clean_one : StartupPorts D → StartupCleanupFacts → String → ℕ → Tx D Bool
  clean_one p f worker now = do c ← classify p f worker now; write_cleanup p f now c

  unfoldable pub clean_all :
      StartupPorts D
      → String
      → ℕ
      → List StartupCleanupFacts
      → StartupCleanupSummary
      → Tx D StartupCleanupSummary
  clean_all p worker now [] summary = pure summary
  clean_all p worker now (f ∷ fs) summary =
      clean_one p f worker now >>= λ ends. clean_all p worker now fs (counted ends summary)

  -- The transaction of `StartupCleanup`.
  unfoldable pub cleanup_work : StartupPorts D → String → Tx D StartupCleanupSummary
  cleanup_work p worker = do
    now ← p.now
    candidates ← p.lock_legacy_running_executions worker
    clean_all p worker now candidates zero_summary

  unfoldable pub startup_cleanup : StartupPorts D → String → D → Result StartupCleanupSummary × D
  startup_cleanup p worker s =
      if text_eq worker ""
      then (err TxError.invalid_argument, s)
      else execute (cleanup_work p worker) s
