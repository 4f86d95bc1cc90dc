-- ===== src/TaskRuntime/Startup/Classified.antt =====
-- internal/taskruntime/startup_cleanup.go: the classification against the matrix of the design.
use agentops_go.Prelude.{
  ℕ, String, Bool, true, false, Option, none, some, is_none, ltb, leb, ◌≡◌, ◌≢◌, refl, sym, ap, ◌∙◌,
  ◌⊎◌, inl, inr, Bool-cases, arith,
}
use agentops_go.Contracts.Codes.{ReasonCode, valid_for_checkpoint_invalid}
use agentops_go.TaskRuntime.Store.Transaction.{TxError, Result, ok, err}
use agentops_go.TaskRuntime.Store.Blocks.{after-eq_ok, ok_inj}
use agentops_go.TaskRuntime.Termination.{AgentTools}
use agentops_go.TaskRuntime.Ports.{RuntimeCheckpoint}
use agentops_go.TaskRuntime.Startup.{
  StartupCleanupFacts, StartupCleanupToolExecution, StartupTool, startup_facts_valid,
  startup_tool_kind,
}
use agentops_go.TaskRuntime.Startup.Tool.{startup_tool_kind-running}
use agentops_go.TaskRuntime.Startup.Scene.{startup_scene, startup_checkpoint_valid}
use agentops_go.TaskRuntime.Startup.Request.{
  StartupCleanupCheckpointResult, StartupPorts, base_cleanup, interrupt_startup_request,
  write_tool_startup_request, timeout_startup_request, checkpoint_invalid_startup_request,
}
use agentops_go.TaskRuntime.Startup.Service.{
  Classified, classify_scene, classify_checkpoint, startup_tools, answered, classify_in_time,
  classify_kind, classify,
}
use agentops_go.TaskRuntime.Startup.Matrix.{prescribed}

-- What the latest checkpoint says of the scene: that it is in order, or why the checkpoint is invalid.
pub data Verdict (json_valid : String → Bool) (f : StartupCleanupFacts) (kind : StartupTool)
    : StartupCleanupCheckpointResult → Option ReasonCode → Type 0 where
  invalid_checkpoint :
      (reason : ReasonCode)
      → valid_for_checkpoint_invalid reason ≡ true
      → Verdict json_valid f kind (StartupCleanupCheckpointResult.invalid reason) (some reason)
  valid_checkpoint :
      (k : RuntimeCheckpoint) (reason : Option ReasonCode)
      → startup_checkpoint_valid f k ≡ true
      → startup_scene json_valid f k kind ≡ ok reason
      → Verdict json_valid f kind (StartupCleanupCheckpointResult.valid k) reason

timed_out :
    (f : StartupCleanupFacts) (now : ℕ) (t : Option StartupCleanupToolExecution)
    (kind : StartupTool)
    → (kind ≡ StartupTool.read_running → is_none t ≡ false)
    → (timeout_startup_request (base_cleanup f now) t kind, true) ≡ prescribed f now true none kind
unfolding timeout_startup_request base_cleanup
timed_out f now t StartupTool.write_running h = refl
timed_out f now none StartupTool.read_running h = ground (arith, h refl)
timed_out f now (some e) StartupTool.read_running h = refl
timed_out f now none StartupTool.no_tool h = refl
timed_out f now (some e) StartupTool.no_tool h = refl
timed_out f now none StartupTool.read_boundary h = refl
timed_out f now (some e) StartupTool.read_boundary h = refl
timed_out f now none StartupTool.write_boundary h = refl
timed_out f now (some e) StartupTool.write_boundary h = refl

scene-prescribed :
    (f : StartupCleanupFacts) (now : ℕ) (kind : StartupTool) (o : Option ReasonCode)
    → classify_scene (base_cleanup f now) kind (ok o) ≡ ok (prescribed f now false o kind)
unfolding classify_scene base_cleanup interrupt_startup_request write_tool_startup_request
    checkpoint_invalid_startup_request
scene-prescribed f now kind (some r) = refl
scene-prescribed f now StartupTool.no_tool none = refl
scene-prescribed f now StartupTool.read_boundary none = refl
scene-prescribed f now StartupTool.write_boundary none = refl
scene-prescribed f now StartupTool.read_running none = refl
scene-prescribed f now StartupTool.write_running none = refl

scene_error :
    (f : StartupCleanupFacts) (now : ℕ) (kind : StartupTool) (e : TxError) (c : Classified)
    → classify_scene (base_cleanup f now) kind (err e) ≢ ok c
unfolding classify_scene
scene_error f now kind e c = cc

invalid-prescribed :
    (f : StartupCleanupFacts) (now : ℕ) (kind : StartupTool) (r : ReasonCode)
    → (checkpoint_invalid_startup_request (base_cleanup f now) r, true)
      ≡ prescribed f now false (some r) kind
unfolding base_cleanup checkpoint_invalid_startup_request
invalid-prescribed f now kind r = refl

-- What a classification found: the configured tools, the scene of the tool, and either that the deadline
-- was reached, or what the latest checkpoint says.
pub record Scene {D : Type 0} (p : StartupPorts D) (f : StartupCleanupFacts) (worker : String)
    (now : ℕ) (s : D) (c : Classified) : Type 0 where
  pub tools : AgentTools
  pub kind : StartupTool
  pub reason : Option ReasonCode
  pub facts : startup_facts_valid f worker ≡ true
  pub frozen : startup_tools (p.lookup_agent f.task.agent_id) p.hash_execution_config f ≡ ok tools
  pub classified : startup_tool_kind f tools ≡ ok kind
  pub checkpoint :
      ((leb f.task.deadline_at now ≡ true) × (reason ≡ none))
      ⊎ ((leb f.task.deadline_at now ≡ false)
          × (k : StartupCleanupCheckpointResult) × (s1 : D) × (p.load_latest f.task.task_id
                f.run.run_id f.execution.execution_version s
              ≡ ok (k, s1))
          × Verdict p.json_valid f kind k reason)
  pub written : c ≡ prescribed f now (leb f.task.deadline_at now) reason kind

scene_cases :
    (f : StartupCleanupFacts) (now : ℕ) (kind : StartupTool) (r : Result (Option ReasonCode))
    (c : Classified)
    → classify_scene (base_cleanup f now) kind r ≡ ok c
    → (o : Option ReasonCode) × (r ≡ ok o) × (c ≡ prescribed f now false o kind)
scene_cases f now kind (ok o) c h = (o, refl, ok_inj (sym h ∙ scene-prescribed f now kind o))
scene_cases f now kind (err e) c h = absurd (scene_error f now kind e c h)

pub answered-eq_ok :
    {D A : Type 0} (r : Result A) (s : D) {a : A} {s' : D}
    → answered r s ≡ ok (a, s')
    → (r ≡ ok a) × (s ≡ s')
answered-eq_ok (ok a) s h = (ground arith, ground arith)
answered-eq_ok (err e) s h = absurd (cc)

module _ {D : Type 0} (p : StartupPorts D) (f : StartupCleanupFacts) (worker : String)
    (now : ℕ) where
  checkpoint-Verdict :
      (kind : StartupTool) (k : StartupCleanupCheckpointResult) (c : Classified)
      → classify_checkpoint p.json_valid f (base_cleanup f now) kind k ≡ ok c
      → (reason : Option ReasonCode) × Verdict p.json_valid f kind k reason
        × (c ≡ prescribed f now false reason kind)
  unfolding classify_checkpoint
  checkpoint-Verdict kind (StartupCleanupCheckpointResult.invalid r) c h =
      elim (Bool-cases (valid_for_checkpoint_invalid r)) [
        | inl e ↦ (
          some r,
          Verdict.invalid_checkpoint r e,
          ok_inj (sym (rw e at h)) ∙ invalid-prescribed f now kind r,
        )
        | inr e ↦ absurd (ground (arith, e, h))
      ]
  checkpoint-Verdict kind (StartupCleanupCheckpointResult.valid k) c h =
      elim (Bool-cases (startup_checkpoint_valid f k)) [
        | inl e ↦
            let (reason, o, w) = scene_cases f now kind _ c (rw e at h) in
            (reason, Verdict.valid_checkpoint k reason e o, w)
        | inr e ↦ absurd (ground (arith, e, h))
      ]
  checkpoint-Verdict kind StartupCleanupCheckpointResult.foreign c h = absurd (cc)

  in_time-Scene :
      (tools : AgentTools) (kind : StartupTool) (s : D) (c : Classified) (s' : D)
      → startup_facts_valid f worker ≡ true
      → startup_tools (p.lookup_agent f.task.agent_id) p.hash_execution_config f ≡ ok tools
      → startup_tool_kind f tools ≡ ok kind
      → ltb now f.task.deadline_at ≡ true
      → classify_in_time p f now kind s ≡ ok (c, s')
      → Scene p f worker now s c
  unfolding classify_in_time
  in_time-Scene tools kind s c s' facts frozen classified early h =
      let load = p.load_latest f.task.task_id f.run.run_id f.execution.execution_version in
      let (k, s1, h1, h2) = after-eq_ok (load s) _ h in
      let (found, kept) =
        answered-eq_ok (classify_checkpoint p.json_valid f (base_cleanup f now) kind k) s1 h2 in
      let (reason, verdict, written) = checkpoint-Verdict kind k c found in
      let before : leb f.task.deadline_at now ≡ false = ground arith in
      record {
        tools = tools;
        kind = kind;
        reason = reason;
        facts = facts;
        frozen = frozen;
        classified = classified;
        checkpoint = inr (before, k, s1, h1, verdict);
        written = written ∙ ap (λ late. prescribed f now late reason kind) (sym before);
      }

  late-Scene :
      (tools : AgentTools) (kind : StartupTool) (s : D) (c : Classified)
      → startup_facts_valid f worker ≡ true
      → startup_tools (p.lookup_agent f.task.agent_id) p.hash_execution_config f ≡ ok tools
      → startup_tool_kind f tools ≡ ok kind
      → ltb now f.task.deadline_at ≡ false
      → c ≡ (timeout_startup_request (base_cleanup f now) f.tool_execution kind, true)
      → Scene p f worker now s c
  late-Scene tools kind s c facts frozen classified late h =
      let behind : leb f.task.deadline_at now ≡ true = ground arith in
      record {
        tools = tools;
        kind = kind;
        reason = none;
        facts = facts;
        frozen = frozen;
        classified = classified;
        checkpoint = inl (behind, refl);
        written =
            h
            ∙ timed_out f now f.tool_execution kind
                (λ e. startup_tool_kind-running f tools (classified ∙ ap ok e))
            ∙ ap (λ b. prescribed f now b none kind) (sym behind);
      }

  kind-Scene :
      (tools : AgentTools) (kind : StartupTool) (s : D) (c : Classified) (s' : D)
      → startup_facts_valid f worker ≡ true
      → startup_tools (p.lookup_agent f.task.agent_id) p.hash_execution_config f ≡ ok tools
      → startup_tool_kind f tools ≡ ok kind
      → classify_kind p f now kind s ≡ ok (c, s')
      → Scene p f worker now s c
  unfolding classify_kind
  kind-Scene tools kind s c s' facts frozen classified h =
      elim (Bool-cases (ltb now f.task.deadline_at)) [
        | inl e ↦ in_time-Scene tools kind s c s' facts frozen classified e (rw e at h)
        | inr e ↦
            late-Scene tools kind s c facts frozen classified e
              (ap (λ x. x.0) (ok_inj (sym (rw e at h))))
      ]

  -- A classification that succeeds finds the facts in order and the configuration unchanged, and asks
  -- for the write that the matrix of the design prescribes for the tool, the deadline and the verdict
  -- on the latest checkpoint, which is loaded before the deadline only.
  pub classify-Scene :
      (s : D) (c : Classified) (s' : D)
      → classify p f worker now s ≡ ok (c, s')
      → Scene p f worker now s c
  unfolding classify
  classify-Scene s c s' h = elim (Bool-cases (startup_facts_valid f worker)) [
    | inr e ↦ absurd (ground (arith, e, h))
    | inl e ↦
        let (tools, s1, h1, k1) =
          after-eq_ok
            (answered (startup_tools (p.lookup_agent f.task.agent_id) p.hash_execution_config f) s)
            _ (rw e at h) in
        let (frozen, same) = answered-eq_ok _ s h1 in
        let (kind, s2, h2, k2) = after-eq_ok (answered (startup_tool_kind f tools) s1) _ k1 in
        let (classified, same2) = answered-eq_ok _ s1 h2 in
        kind-Scene tools kind s c s' e frozen classified
          (ap (classify_kind p f now kind) (same ∙ same2) ∙ k2)
  ]
