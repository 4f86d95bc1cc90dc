-- ===== src/TaskRuntime/Startup/Tool.antt =====
-- internal/taskruntime/startup_cleanup.go: what `startupToolKind` says of the tool execution.
use agentops_go.Prelude.{
  false, not, Option, none, some, is_none, text_eq, ◌≡◌, ◌≢◌, refl, inl, inr, Bool-cases, arith,
}
use agentops_go.TaskRuntime.Store.Transaction.{Result, ok, err}
use agentops_go.TaskRuntime.Termination.{AgentTools, ToolDefinition}
use agentops_go.TaskRuntime.Startup.{
  StartupCleanupStep, StartupCleanupFacts, StartupCleanupToolExecution, StartupTool, is_tool_call,
  kind_of_tool, kind_of_step, no_tool_kind, with_definition, startup_tool_definition,
  startup_tool_kind,
}

-- A tool that is classified as running is there.
kind_of_tool-running :
    (f : StartupCleanupFacts) (s : StartupCleanupStep) (t : Option StartupCleanupToolExecution)
    (d : ToolDefinition)
    → kind_of_tool f s t d ≡ ok StartupTool.read_running
    → is_none t ≡ false
unfolding kind_of_tool
kind_of_tool-running f s none d h = ground arith
kind_of_tool-running f s (some e) d h = refl

no_tool_kind-running :
    (t : Option StartupCleanupToolExecution) → no_tool_kind t ≢ ok StartupTool.read_running
unfolding no_tool_kind
no_tool_kind-running none = cc
no_tool_kind-running (some e) = cc

with_definition-running :
    (f : StartupCleanupFacts) (s : StartupCleanupStep) (d : Result ToolDefinition)
    → with_definition f s d ≡ ok StartupTool.read_running
    → is_none f.tool_execution ≡ false
with_definition-running f s (err e) h = absurd (cc)
with_definition-running f s (ok d) h = kind_of_tool-running f s f.tool_execution d h

kind_of_step-running :
    (f : StartupCleanupFacts) (a : AgentTools) (s : Option StartupCleanupStep)
    → kind_of_step f a s ≡ ok StartupTool.read_running
    → is_none f.tool_execution ≡ false
unfolding kind_of_step
kind_of_step-running f a none h = absurd (no_tool_kind-running f.tool_execution h)
kind_of_step-running f a (some s) h = elim (Bool-cases (not (is_tool_call s.step_type))) [
  | inl e ↦ absurd (no_tool_kind-running f.tool_execution (rw e at h))
  | inr e ↦ elim (Bool-cases (text_eq s.tool_name "")) [
    | inl n ↦ absurd (ground (arith, e, n, h))
    | inr n ↦ with_definition-running f s (startup_tool_definition a s.tool_name) (rw (e, n) at h)
  ]
]

pub startup_tool_kind-running :
    (f : StartupCleanupFacts) (a : AgentTools)
    → startup_tool_kind f a ≡ ok StartupTool.read_running
    → is_none f.tool_execution ≡ false
unfolding startup_tool_kind
startup_tool_kind-running f a h = kind_of_step-running f a f.step h
