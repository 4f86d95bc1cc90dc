-- ===== src/TaskRuntime/Termination/Tools.antt =====
-- What the update of a termination says of the objects of the task.
use agentops_go.Prelude.{
  ℕ, Bool, true, false, Option, none, some, ◌≡◌, refl, sym, subst, ap, ◌∙◌, arith, if◌then◌else◌,
  is_none, Bool-cases, Option-cases, inl, inr, ◌⊎◌,
}
use agentops_go.Contracts.Status.{
  TaskStatus, RunStatus, ExecutionStatus, StepStatus, ToolExecutionStatus, step_status_terminal,
}
use agentops_go.Contracts.Codes.{ErrorCode, TerminationReason}
use agentops_go.Lifecycle.{
  can_task_transition, can_run_transition, can_execution_transition, can_step_transition,
}
use agentops_go.TaskRuntime.Store.Blocks.{Result-cases, ok_inj}
use agentops_go.TaskRuntime.Store.Transaction.{Result, ok, err}
use agentops_go.TaskRuntime.Termination.{
  TerminationFacts, TerminationStep, TerminationToolExecution, ApplyTerminationRequest, AgentTools,
  tool_read_only, attributed, rejected, base_request, with_step, with_tool, then_tool,
  classified_tool, stopped_tool, tool_running, termination_request,
}

never_none :
    (o : Option ErrorCode) (e : ErrorCode) → is_none (if is_none o then some e else o) ≡ false
never_none none e = refl
never_none (some a) e = refl

-- The request is guarded by the objects as they were locked, asks for the given end of the task and
-- leads along edges of the policy's diagrams from the locked statuses.
pub record Legal (f : TerminationFacts) (to : TaskStatus) (r : ApplyTerminationRequest)
    : Type 0 where
  pub same_task : r.task_id ≡ f.task.task_id
  pub same_version : r.expected_execution_version ≡ f.execution.execution_version
  pub from_task : r.expected_task_status ≡ f.task.status
  pub from_run : r.expected_run_status ≡ f.run.status
  pub from_execution : r.expected_execution_status ≡ f.execution.status
  pub to_task : r.task_status ≡ to
  pub task : (can_task_transition f.task.status to).allowed ≡ true
  pub run : (can_run_transition f.run.status RunStatus.failed).allowed ≡ true
  pub execution :
      (can_execution_transition f.execution.status ExecutionStatus.failed).allowed ≡ true

-- The fields of a request that the step and the tool leave alone.
abbrev Guards : ApplyTerminationRequest → ApplyTerminationRequest → Type 0
Guards x y =
    (y.task_id ≡ x.task_id)
    × (y.expected_execution_version ≡ x.expected_execution_version)
    × (y.expected_task_status ≡ x.expected_task_status)
    × (y.expected_run_status ≡ x.expected_run_status)
    × (y.expected_execution_status ≡ x.expected_execution_status)
    × (y.task_status ≡ x.task_status)

Guards-Legal :
    (f : TerminationFacts) (to : TaskStatus) (x y : ApplyTerminationRequest)
    → Guards x y
    → Legal f to x
    → Legal f to y
Guards-Legal f to x y (a, b, c, d, e, g) l = record {
  same_task = a ∙ l.same_task;
  same_version = b ∙ l.same_version;
  from_task = c ∙ l.from_task;
  from_run = d ∙ l.from_run;
  from_execution = e ∙ l.from_execution;
  to_task = g ∙ l.to_task;
  task = l.task;
  run = l.run;
  execution = l.execution;
}

with_step-Guards :
    (o : Option TerminationStep) (x y : ApplyTerminationRequest) → with_step o x ≡ ok y → Guards x y
unfolding with_step
with_step-Guards none x y h = subst (Guards x) (ok_inj h) (refl, refl, refl, refl, refl, refl)
with_step-Guards (some s) x y h = elim (Bool-cases (step_status_terminal s.status)) [
  | inl over ↦ subst (Guards x) {x = x} {y = y} (ground arith) (refl, refl, refl, refl, refl, refl)
  | inr live ↦ elim (Bool-cases (can_step_transition s.status StepStatus.failed).allowed) [
    | inr no_edge ↦ absurd (ground arith)
    | inl edge ↦
        subst (Guards x) {x = record x { expected_step_status = some s.status }} {y = y}
          (ground arith) (refl, refl, refl, refl, refl, refl)
  ]
]

classified_tool-Guards :
    (code : ErrorCode) (x y : ApplyTerminationRequest) (b : Result Bool)
    → classified_tool code x b ≡ ok y
    → Guards x y
unfolding classified_tool stopped_tool
classified_tool-Guards code x y (ok true) h =
    subst (Guards x) (ok_inj h) (refl, refl, refl, refl, refl, refl)
classified_tool-Guards code x y (ok false) h =
    subst (Guards x) (ok_inj h) (refl, refl, refl, refl, refl, refl)
classified_tool-Guards code x y (err e) h = absurd (ground arith)

with_tool-Guards :
    (agent : Option AgentTools) (o : Option TerminationToolExecution) (code : ErrorCode)
    (x y : ApplyTerminationRequest)
    → with_tool agent o code x ≡ ok y
    → Guards x y
unfolding with_tool
with_tool-Guards agent none code x y h =
    subst (Guards x) (ok_inj h) (refl, refl, refl, refl, refl, refl)
with_tool-Guards agent (some t) code x y h = elim (Bool-cases (tool_running t.status)) [
  | inl runs ↦ classified_tool-Guards code x y (tool_read_only agent t.tool_name) (ground arith)
  | inr rests ↦ subst (Guards x) {x = x} {y = y} (ground arith) (refl, refl, refl, refl, refl, refl)
]

base_request-Legal :
    (f : TerminationFacts) (now : ℕ) (to : TaskStatus) (code : ErrorCode)
    (reason : TerminationReason)
    → rejected f to ≡ none
    → Legal f to (base_request f now to code reason)
unfolding rejected base_request
base_request-Legal f now to code reason h = record {
  same_task = refl;
  same_version = refl;
  from_task = refl;
  from_run = refl;
  from_execution = refl;
  to_task = refl;
  task = ground arith;
  run = ground arith;
  execution = ground arith;
}

module _ (agent : Option AgentTools) (f : TerminationFacts) (now : ℕ) (to : TaskStatus)
    (code : ErrorCode) (reason : TerminationReason) (r : ApplyTerminationRequest)
    (h : termination_request agent f now to code reason ≡ ok r) where
  -- The request passed the checks, and the step was looked at.
  record Passed : Type 0 where
    pub legal : rejected f to ≡ none
    pub stepped : ApplyTerminationRequest
    pub by_step : with_step f.step (base_request f now to code reason) ≡ ok stepped
    pub by_tool : with_tool agent f.tool_execution code stepped ≡ ok r

  passed : Passed
  unfolding termination_request then_tool
  passed = elim (Bool-cases (attributed f)) [
    | inr other ↦ absurd (ground arith)
    | inl own ↦ elim (Option-cases (rejected f to)) [
      | inr (e, x) ↦ absurd (ground arith)
      | inl legal ↦ elim (Result-cases (with_step f.step (base_request f now to code reason))) [
        | inr (e, x) ↦ absurd (ground arith)
        | inl (stepped, x) ↦ record {
          legal = legal;
          stepped = stepped;
          by_step = x;
          by_tool = ground arith;
        }
      ]
    ]
  ]

  -- What is asked of a running tool: one that only reads has failed with the task, and of one that
  -- writes the outcome and the side effects are unknown, with an error on the execution.
  abbrev pub ToolStopped : TerminationToolExecution → Type 0
  ToolStopped t =
      ((tool_read_only agent t.tool_name ≡ ok true)
        × (r.tool_status ≡ some ToolExecutionStatus.failed)
        × (r.tool_error_code ≡ some code))
      ⊎ ((tool_read_only agent t.tool_name ≡ ok false)
          × (r.tool_status ≡ some ToolExecutionStatus.unknown_outcome)
          × (r.tool_side_effect_unknown ≡ true)
          × (is_none r.execution_error_code ≡ false))

  stopped :
      (t : TerminationToolExecution) (x : ApplyTerminationRequest) (b : Result Bool)
      → tool_read_only agent t.tool_name ≡ b
      → classified_tool code x b ≡ ok r
      → ToolStopped t
  unfolding classified_tool stopped_tool
  stopped t x (ok true) e k =
      let same = ok_inj k in
      inl (e, sym (ap (λ y. y.tool_status) same), sym (ap (λ y. y.tool_error_code) same))
  stopped t x (ok false) e k =
      let same = ok_inj k in
      inr (
        e,
        sym (ap (λ y. y.tool_status) same),
        sym (ap (λ y. y.tool_side_effect_unknown) same),
        ap (λ y. is_none y.execution_error_code) (sym same)
            ∙ never_none x.execution_error_code ErrorCode.write_tool_interrupted,
      )
  stopped t x (err z) e k = absurd (ground arith)

  -- A termination that meets a running tool asks for the status that the tool's configured capability
  -- calls for: a tool that only reads has failed with the error of the task; the outcome of one that
  -- writes is unknown, its side effects too, and the execution carries an error.
  pub termination_request-tool :
      (t : TerminationToolExecution)
      → f.tool_execution ≡ some t
      → t.status ≡ ToolExecutionStatus.running
      → ToolStopped t
  unfolding with_tool tool_running
  termination_request-tool t met running =
      let c = passed in
      let by_tool = subst (λ o. with_tool agent o code c.stepped ≡ ok r) met c.by_tool in
      stopped t c.stepped (tool_read_only agent t.tool_name) refl (ground arith)

  -- A termination that is asked for names the task and the version that were locked, expects the
  -- statuses of the task, the run and the execution that were locked, and asks for the given status of
  -- the task; the policy allows it, and allows the run and the execution to fail.
  pub termination_request-Legal : Legal f to r
  termination_request-Legal =
      let c = passed in
      let base = base_request f now to code reason in
      Guards-Legal f to c.stepped r
        (with_tool-Guards agent f.tool_execution code c.stepped r c.by_tool)
        (Guards-Legal f to base c.stepped (with_step-Guards f.step base c.stepped c.by_step)
          (base_request-Legal f now to code reason c.legal))
