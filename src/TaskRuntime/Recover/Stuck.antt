-- ===== src/TaskRuntime/Recover/Stuck.antt =====
-- internal/taskruntime/recover.go: a task that is still Running when its execution was interrupted.
use agentops_go.Prelude.{ℕ, String, true, none, ◌≡◌, ◌≢◌, sym, ap, ◌∙◌}
use agentops_go.Contracts.Status.{TaskStatus, task_status_eq}
use agentops_go.Contracts.Execution.{CheckpointNextAction}
use agentops_go.Lifecycle.{can_task_transition}
use agentops_go.TaskRuntime.Store.Transaction.{ok}
use agentops_go.TaskRuntime.Store.Blocks.{after-eq_ok, err-ne-ok, ok_inj}
use agentops_go.TaskRuntime.Termination.{TerminationFacts}
use agentops_go.TaskRuntime.Termination.Cancel.{on_rest}
use agentops_go.TaskRuntime.Recover.{RecoverTaskRequest, TaskRecovered, RecoverPorts}
use agentops_go.TaskRuntime.Recover.Failure.{
  Commands, lock_recovery_facts, insert_execution, allowed,
}
use agentops_go.TaskRuntime.Recover.Service.{recover_task}
use agentops_go.TaskRuntime.Recover.Version.{
  is_generate_plan, target_task, next_execution, task_may_move, requeue,
}
use agentops_go.TaskRuntime.Recover.Answered.{recover_task-Course}

task_may_move-refused :
    (a : CheckpointNextAction) (s : Commands) {u : Unit {0}} {s' : Commands}
    → is_generate_plan a ≡ true
    → task_may_move TaskStatus.running (target_task a) s ≢ ok (u, s')
unfolding task_may_move allowed can_task_transition task_status_eq
task_may_move-refused a s e h = err-ne-ok (rw e at h)

requeue-refused :
    (f : TerminationFacts) (a : CheckpointNextAction) (id hash : String) (now : ℕ) (s : Commands)
    {u : Unit {0}} {s' : Commands}
    → is_generate_plan a ≡ true
    → f.task.status ≡ TaskStatus.running
    → requeue f a id hash now s ≢ ok (u, s')
unfolding requeue
requeue-refused f a id hash now s e running h =
    let (_, s1, _, k1) =
      after-eq_ok (on_rest (insert_execution (next_execution f id hash now)) s) _ h in
    let (_, s2, h2, _) = after-eq_ok (task_may_move f.task.status (target_task a) s1) _ k1 in
    task_may_move-refused a s1 e (ap (λ x. task_may_move x (target_task a) s1) (sym running) ∙ h2)

-- A command with a new identifier never recovers a task that is Running: whatever the checkpoint says, the command does not answer with a recovery, at any state of the stores in which the rows of the task are found.
pub recover_task-stuck :
    (p : RecoverPorts) (q : RecoverTaskRequest) (s s1 : Commands) (f : TerminationFacts)
    → s.receipts q.command_id ≡ none
    → on_rest (lock_recovery_facts q.task_id) s ≡ ok (f, s1)
    → f.task.status ≡ TaskStatus.running
    → (t : TaskRecovered) (s' : Commands) → recover_task p q s ≢ (ok t, s')
recover_task-stuck p q s s1 f fresh locked running t s' h =
    let (r, _, course) = recover_task-Course p q s t s' fresh h in
    let same = ap (λ x. x.0.task.status) (ok_inj (sym course.locked ∙ locked)) in
    requeue-refused course.facts course.source.next_action course.execution_id course.hash
      course.now course.locked_state course.plan (same ∙ running) course.requeued
