-- ===== src/TaskRuntime/Startup/WriteTool.antt =====
-- internal/taskruntime/startup_cleanup.go: an execution that was left with a running tool that writes.
use agentops_go.Prelude.{
  ℕ, String, Bool, true, false, Option, none, some, text_eq, ◌≡◌, ◌≢◌, refl, sym, ap, subst, ◌∙◌,
  inl, inr, Bool-cases, leb, arith,
}
use agentops_go.Contracts.Status.{ToolExecutionStatus}
use agentops_go.Contracts.Codes.{ReasonCode}
use agentops_go.TaskRuntime.Store.Transaction.{ok}
use agentops_go.TaskRuntime.Store.Blocks.{ok_inj, err-ne-ok}
use agentops_go.TaskRuntime.Termination.{AgentTools, ToolDefinition}
use agentops_go.TaskRuntime.Startup.{
  StartupCleanupStep, StartupCleanupFacts, StartupCleanupToolExecution, StartupTool, is_tool_call,
  read_tool, write_tool, tool_execution_valid, kind_of_tool, kind_of_step, no_tool_kind,
  startup_tool_definition, startup_tool_kind,
}
use agentops_go.TaskRuntime.Startup.Request.{StartupCleanupDisposition, StartupPorts}
use agentops_go.TaskRuntime.Startup.Service.{Classified, startup_tools, classify}
use agentops_go.TaskRuntime.Startup.Matrix.{prescribed}
use agentops_go.TaskRuntime.Startup.Classified.{classify-Scene}

-- The write ends the task for good, with an error, and not for a later recovery; and unless the checkpoint was invalid, the tool's outcome is unknown.
pub record Conservative (c : Classified) : Type 0 where
  pub ends : c.1 ≡ true
  pub terminal : c.0.disposition ≡ StartupCleanupDisposition.terminal
  pub failed : c.0.task_error_code ≢ none
  pub tool :
      c.0.checkpoint_reason_code ≡ none → c.0.tool_status ≡ some ToolExecutionStatus.unknown_outcome
  pub side_effect : c.0.checkpoint_reason_code ≡ none → c.0.tool_side_effect_unknown ≡ true

prescribed-Conservative :
    (f : StartupCleanupFacts) (now : ℕ) (late : Bool) (reason : Option ReasonCode)
    → (late ≡ true → reason ≡ none)
    → Conservative (prescribed f now late reason StartupTool.write_running)
prescribed-Conservative f now true reason h = record {
  ends = refl;
  terminal = refl;
  failed = λ e. ground arith;
  tool = λ _. refl;
  side_effect = λ _. refl;
}
prescribed-Conservative f now false none h = record {
  ends = refl;
  terminal = refl;
  failed = λ e. ground arith;
  tool = λ _. refl;
  side_effect = λ _. refl;
}
prescribed-Conservative f now false (some r) h = record {
  ends = refl;
  terminal = refl;
  failed = λ e. ground arith;
  tool = λ e. absurd (ground arith);
  side_effect = λ e. absurd (ground arith);
}

write_tool-not_read : (d : ToolDefinition) → write_tool d ≡ true → read_tool d ≡ false
write_tool-not_read d h = ground arith

kind_of_tool-writing :
    (f : StartupCleanupFacts) (s : StartupCleanupStep) (t : StartupCleanupToolExecution)
    (d : ToolDefinition) (kind : StartupTool)
    → write_tool d ≡ true
    → kind_of_tool f s (some t) d ≡ ok kind
    → kind ≡ StartupTool.write_running
unfolding kind_of_tool
kind_of_tool-writing f s t d kind w h = elim (Bool-cases (tool_execution_valid f s t)) [
  | inl e ↦ ok_inj (sym h ∙ rw (write_tool-not_read d w, w, e) refl)
  | inr e ↦ absurd (err-ne-ok (rw (write_tool-not_read d w, w, e) at h))
]

kind_of_step-writing :
    (f : StartupCleanupFacts) (a : AgentTools) (s : StartupCleanupStep)
    (t : StartupCleanupToolExecution) (d : ToolDefinition) (kind : StartupTool)
    → f.tool_execution ≡ some t
    → startup_tool_definition a s.tool_name ≡ ok d
    → write_tool d ≡ true
    → kind_of_step f a (some s) ≡ ok kind
    → kind ≡ StartupTool.write_running
unfolding kind_of_step no_tool_kind kind_of_tool
kind_of_step-writing f a s t d kind ht hd w h = elim (Bool-cases (is_tool_call s.step_type)) [
  | inr e ↦ absurd (err-ne-ok (rw (e, ht) at h))
  | inl e ↦ elim (Bool-cases (text_eq s.tool_name "")) [
    | inl n ↦ absurd (err-ne-ok (rw (e, n) at h))
    | inr n ↦ kind_of_tool-writing f s t d kind w (rw (e, n, hd, ht) at h)
  ]
]

startup_tool_kind-writing :
    (f : StartupCleanupFacts) (a : AgentTools) (s : StartupCleanupStep)
    (t : StartupCleanupToolExecution) (d : ToolDefinition) (kind : StartupTool)
    → f.step ≡ some s
    → f.tool_execution ≡ some t
    → startup_tool_definition a s.tool_name ≡ ok d
    → write_tool d ≡ true
    → startup_tool_kind f a ≡ ok kind
    → kind ≡ StartupTool.write_running
unfolding startup_tool_kind
startup_tool_kind-writing f a s t d kind hs ht hd w h =
    kind_of_step-writing f a s t d kind ht hd w (ap (kind_of_step f a) (sym hs) ∙ h)

module _ {D : Type 0} (p : StartupPorts D) (f : StartupCleanupFacts) (worker : String)
    (now : ℕ) where
  -- An execution that was left with a tool execution whose step names a tool that the frozen
  -- configuration lets write is never interrupted for a later recovery: where it is classified, the
  -- write that is asked for has the disposition to end the task, with an error, and it is counted as such;
  -- unless the checkpoint was found invalid, the tool is set to an unknown outcome with
  -- an unknown side effect.
  pub classify-Conservative :
      (a : AgentTools) (step : StartupCleanupStep) (t : StartupCleanupToolExecution)
      (d : ToolDefinition) (s : D) (c : Classified) (s' : D)
      → startup_tools (p.lookup_agent f.task.agent_id) p.hash_execution_config f ≡ ok a
      → f.step ≡ some step
      → f.tool_execution ≡ some t
      → startup_tool_definition a step.tool_name ≡ ok d
      → write_tool d ≡ true
      → classify p f worker now s ≡ ok (c, s')
      → Conservative c
  classify-Conservative a step t d s c s' ha hs ht hd w h =
      let found = classify-Scene p f worker now s c s' h in
      let same : found.tools ≡ a = ok_inj (sym found.frozen ∙ ha) in
      let kind =
        startup_tool_kind-writing f a step t d found.kind hs ht hd w
          (ap (startup_tool_kind f) (sym same) ∙ found.classified) in
      let late = leb f.task.deadline_at now in
      let unread : late ≡ true → found.reason ≡ none = λ e. elim found.checkpoint [
        | inl (_, r) ↦ r
        | inr (b, _, _, _, _) ↦ absurd (ground (arith, b, e))
      ] in
      subst Conservative (sym (found.written ∙ ap (prescribed f now late found.reason) kind))
        (prescribed-Conservative f now late found.reason unread)
