-- ===== src/TaskRuntime/Recover/Requeued.antt =====
-- internal/taskruntime/recover.go: what a recovery leaves in the tables.
use agentops_go.Prelude.{
  ℕ, suc, String, true, false, ◌&&◌, none, some, ◌∷◌, ◌==◌, text_eq, text_eq_iff, ◌≡◌, refl, sym,
  ap, subst, ◌∙◌, inl, inr, Bool-cases, arith,
}
use agentops_go.Contracts.Status.{TaskStatus, RunStatus, ExecutionStatus}
use agentops_go.Contracts.Execution.{CheckpointNextAction}
use agentops_go.TaskRuntime.Entity.{Task, Run, TaskExecution}
use agentops_go.TaskRuntime.Store.{updated_task, updated_run}
use agentops_go.TaskRuntime.Store.Transaction.{ok, Tables, PortWrite}
use agentops_go.TaskRuntime.Store.Blocks.{err-ne-ok, ok_inj}
use agentops_go.TaskRuntime.Store.Updates.{text_eq_refl}
use agentops_go.TaskRuntime.Termination.{TerminationFacts}
use agentops_go.TaskRuntime.Recover.{
  RecoverTaskRequest, TaskRecovered, RecoverReceiptResponse, RecoverPorts, recover_receipt_valid,
  recover_succeeded, recover_result,
}
use agentops_go.TaskRuntime.Recover.Failure.{Commands, lock_recovery_facts}
use agentops_go.TaskRuntime.Recover.Service.{recover_task}
use agentops_go.TaskRuntime.Recover.Version.{
  is_generate_plan, target_task, target_run, next_execution, requeued_task, requeued_run,
}
use agentops_go.TaskRuntime.Recover.Course.{Course}
use agentops_go.TaskRuntime.Recover.Answered.{recover_task-Course}
use agentops_go.TaskRuntime.Recover.Writes.{requeued_tables, requeue-eq_ok}
use agentops_go.TaskRuntime.Recover.Kept.{
  locked_kept, locked_again, kept_receipt, start_recovery-kept,
}

-- The rows before and after a recovery: a new queued execution of the next version, and the task and the
-- run that wait for it.
pub record Requeued (q : RecoverTaskRequest) (s s' : Tables) (t : TaskRecovered) : Type 0 where
  pub facts : TerminationFacts
  pub asked : lock_recovery_facts q.task_id s ≡ ok (facts, s)
  pub now : ℕ
  pub before : Task
  pub after : Task
  pub run_before : Run
  pub run_after : Run
  pub next : TaskExecution
  pub new : s.execution facts.task.task_id (suc facts.execution.execution_version) ≡ none
  pub inserted : s'.execution facts.task.task_id (suc facts.execution.execution_version) ≡ some next
  pub next_status : next.status ≡ ExecutionStatus.queued
  pub next_version : next.execution_version ≡ suc facts.execution.execution_version
  pub next_owner : next.worker_id ≡ none
  pub next_start : next.started_at ≡ none
  pub next_hash : next.execution_config_hash ≡ facts.execution.execution_config_hash
  pub others :
      (j : String) (n : ℕ)
      → (text_eq facts.task.task_id j && suc facts.execution.execution_version == n) ≡ false
      → s'.execution j n ≡ s.execution j n
  pub found : s.task facts.task.task_id ≡ some before
  pub waits : s'.task facts.task.task_id ≡ some after
  pub status : after.status ≡ TaskStatus.pending
  pub current : after.current_execution_version ≡ suc facts.execution.execution_version
  pub queued : after.queued_at ≡ some now
  pub error : after.error_code ≡ none
  pub deadline : after.deadline_at ≡ before.deadline_at
  pub found_run : s.run facts.task.task_id ≡ some run_before
  pub waits_run : s'.run facts.task.task_id ≡ some run_after
  pub run_status : run_after.status ≡ RunStatus.pending
  pub same_run : run_after.run_id ≡ run_before.run_id
  pub other_tasks : (j : String) → text_eq facts.task.task_id j ≡ false → s'.task j ≡ s.task j
  pub other_runs : (j : String) → text_eq facts.task.task_id j ≡ false → s'.run j ≡ s.run j
  pub version : t.new_execution_version ≡ suc facts.execution.execution_version

recover_result-version :
    (f : TerminationFacts) (v : ℕ) (a : TaskStatus) (b : RunStatus) (now : ℕ) (c : String)
    (t : TaskRecovered)
    → recover_result (recover_succeeded f v a b now c) ≡ ok t
    → v ≡ t.new_execution_version
unfolding recover_result
recover_result-version f v a b now c t h =
    elim (Bool-cases (recover_receipt_valid (recover_succeeded f v a b now c))) [
      | inl e ↦ ap (λ x. x.new_execution_version) (ok_inj (rw e at h))
      | inr e ↦ absurd (err-ne-ok (rw e at h))
    ]

-- The rows after a recovery, from the rows after its three writes.
rows-Requeued :
    (f : TerminationFacts) (a : CheckpointNextAction) (id hash : String) (now : ℕ) (t : Task)
    (r : Run) (d d' : Tables) (q : RecoverTaskRequest) (x : TaskRecovered) (w : PortWrite)
    → lock_recovery_facts q.task_id d ≡ ok (f, d)
    → is_generate_plan a ≡ true
    → text_eq hash f.execution.execution_config_hash ≡ true
    → d.execution f.task.task_id (suc f.execution.execution_version) ≡ none
    → d.task f.task.task_id ≡ some t
    → d.run f.task.task_id ≡ some r
    → (record (requeued_tables f a id hash now t r d) {
      checkpoints = w ∷ (requeued_tables f a id hash now t r d).checkpoints;
    })
      ≡ d'
    → x.new_execution_version ≡ suc f.execution.execution_version
    → Requeued q d d' x
unfolding requeued_tables
rows-Requeued f a id hash now t r d d' q x w asked plan same fresh found found_run rows version =
    record {
      facts = f;
      asked = asked;
      now = now;
      before = t;
      after = updated_task t (requeued_task f TaskStatus.pending now);
      run_before = r;
      run_after = updated_run r (requeued_run f RunStatus.pending);
      next = next_execution f id hash now;
      new = fresh;
      inserted =
          sym (ap (λ y. y.execution f.task.task_id (suc f.execution.execution_version)) rows)
          ∙ ground (arith, text_eq_refl f.task.task_id);
      next_status = refl;
      next_version = refl;
      next_owner = refl;
      next_start = refl;
      next_hash = (text_eq_iff hash f.execution.execution_config_hash).0 same;
      others = λ j n e. sym (ap (λ y. y.execution j n) rows) ∙ rw e refl;
      found = found;
      waits =
          sym (ap (λ y. y.task f.task.task_id) rows) ∙ rw (text_eq_refl f.task.task_id, plan) refl;
      status = refl;
      current = refl;
      queued = refl;
      error = refl;
      deadline = refl;
      found_run = found_run;
      waits_run =
          sym (ap (λ y. y.run f.task.task_id) rows) ∙ rw (text_eq_refl f.task.task_id, plan) refl;
      run_status = refl;
      same_run = refl;
      other_tasks = λ j e. sym (ap (λ y. y.task j) rows) ∙ rw e refl;
      other_runs = λ j e. sym (ap (λ y. y.run j) rows) ∙ rw e refl;
      version = version;
    }

Course-Requeued :
    (p : RecoverPorts) (q : RecoverTaskRequest) (s : Commands) (r : RecoverReceiptResponse)
    (s' : Commands) (t : TaskRecovered)
    → recover_result r ≡ ok t
    → Course p q s r s'
    → Requeued q s.rest s'.rest t
Course-Requeued p q s r s' t good course =
    let f = course.facts in
    let l = course.locked_state in
    let a = course.source.next_action in
    let base : s.rest ≡ l.rest = locked_kept q.task_id s course.locked in
    let (task, run, fresh, found, found_run, rows) =
      requeue-eq_ok f a course.execution_id course.hash course.now l course.requeued in
    let (w, started) =
      start_recovery-kept p f course.capability course.hash course.requeued_state
        course.started_at in
    let answer =
      recover_succeeded f (suc f.execution.execution_version) (target_task a) (target_run a)
        course.now course.checkpoint_id in
    let (same, kept) = kept_receipt p q course.now answer course.started_state course.kept in
    let version =
      recover_result-version f (suc f.execution.execution_version) (target_task a) (target_run a)
        course.now course.checkpoint_id t (ap recover_result same ∙ good) in
    let after : Requeued q l.rest s'.rest t =
      rows-Requeued f a course.execution_id course.hash course.now task run l.rest s'.rest q t w
        (locked_again q.task_id s course.locked) course.plan course.same_hash fresh found found_run
        (ap (λ (x : Tables). record x { checkpoints = w ∷ x.checkpoints }) rows ∙ started ∙ kept)
        (sym version) in
    subst (λ x. Requeued q x s'.rest t) (sym base) after

-- A command with a new identifier that answers with a recovery found the facts of its task. There was no execution of the next version; now there is one, which is queued, has no owner and no start, and keeps the configuration hash of the interrupted one; the result names its version. The task is pending, at that version, queued at a time and without an error, with the deadline that it had; its run is pending and is the same run. No other execution, task or run has changed, the interrupted execution included.
pub recover_task-Requeued :
    (p : RecoverPorts) (q : RecoverTaskRequest) (s : Commands) (t : TaskRecovered) (s' : Commands)
    → s.receipts q.command_id ≡ none
    → recover_task p q s ≡ (ok t, s')
    → Requeued q s.rest s'.rest t
recover_task-Requeued p q s t s' fresh h =
    let (r, good, course) = recover_task-Course p q s t s' fresh h in
    Course-Requeued p q s r s' t good course
