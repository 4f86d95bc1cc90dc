-- ===== src/TaskRuntime/Recover/Writes.antt =====
-- internal/taskruntime/recover.go: the three writes of a recovery, and the rows they leave.
use agentops_go.Prelude.{
  ℕ, suc, String, Bool, true, false, none, some, ◌≡◌, refl, ap, ◌∙◌, inl, inr, Bool-cases,
  Option-cases,
}
use agentops_go.Contracts.Status.{TaskStatus, task_status_eq}
use agentops_go.Contracts.Execution.{CheckpointNextAction}
use agentops_go.Lifecycle.{can_task_transition}
use agentops_go.TaskRuntime.Entity.{Task, Run, TaskExecution, TaskUpdate, RunUpdate}
use agentops_go.TaskRuntime.Store.{
  set_task, set_run, set_execution, update_task, update_run, updated_task, updated_run,
}
use agentops_go.TaskRuntime.Store.Transaction.{Tx, ok, Tables}
use agentops_go.TaskRuntime.Store.Blocks.{Result-cases, after-eq_ok, err-ne-ok, ok_inj}
use agentops_go.TaskRuntime.Store.Updates.{update_task-eq_ok, update_run-eq_ok}
use agentops_go.TaskRuntime.Termination.{TerminationFacts}
use agentops_go.TaskRuntime.Termination.Cancel.{on_rest, must_apply}
use agentops_go.TaskRuntime.Recover.Failure.{Commands, insert_execution, allowed}
use agentops_go.TaskRuntime.Recover.Version.{
  target_task, target_run, next_execution, requeued_task, requeued_run, task_may_move, requeue,
}

pub on_rest-eq_ok :
    {A : Type 0} (m : Tx Tables A) (s : Commands) {a : A} {s' : Commands}
    → on_rest m s ≡ ok (a, s')
    → (d : Tables) × (m s.rest ≡ ok (a, d)) × (d ≡ s'.rest)
on_rest-eq_ok m s h = elim (Result-cases (m s.rest)) [
  | inr (x, k) ↦ absurd (err-ne-ok (rw (k, on_rest) at h))
  | inl ((b, d), k) ↦
      let e = ok_inj (rw (k, on_rest) at h) in
      (d, k ∙ ap (λ x. ok (x.0, d)) e, ap (λ x. x.1.rest) e)
]

insert_execution-eq_ok :
    (e : TaskExecution) (d : Tables) {u : Unit {0}} {d' : Tables}
    → insert_execution e d ≡ ok (u, d')
    → (d.execution e.task_id e.execution_version ≡ none)
      × (record d { execution = set_execution d.execution e.task_id e.execution_version e } ≡ d')
unfolding insert_execution
insert_execution-eq_ok e d h = elim (Option-cases (d.execution e.task_id e.execution_version)) [
  | inl k ↦ (k, ap (λ x. x.1) (ok_inj (rw (k, insert_execution) at h)))
  | inr (x, k) ↦ absurd (err-ne-ok (rw (k, insert_execution) at h))
]

must_apply-eq_ok :
    (b : Bool) (s : Commands) {u : Unit {0}} {s' : Commands}
    → must_apply b s ≡ ok (u, s')
    → (b ≡ true) × (s ≡ s')
unfolding must_apply
must_apply-eq_ok true s h = (refl, ap (λ x. x.1) (ok_inj h))
must_apply-eq_ok false s h = absurd (err-ne-ok h)

task_may_move-eq_ok :
    (a b : TaskStatus) (s : Commands) {u : Unit {0}} {s' : Commands}
    → task_may_move a b s ≡ ok (u, s')
    → s ≡ s'
unfolding task_may_move allowed
task_may_move-eq_ok a b s h = elim (Bool-cases (task_status_eq a b)) [
  | inl e ↦ ap (λ x. x.1) (ok_inj (rw e at h))
  | inr e ↦ elim (Bool-cases (can_task_transition a b).allowed) [
    | inl k ↦ ap (λ x. x.1) (ok_inj (rw (e, k) at h))
    | inr k ↦ absurd (err-ne-ok (rw (e, k) at h))
  ]
]

-- The three writes of a recovery, one after the other.
unfoldable pub requeued_tables :
    TerminationFacts → CheckpointNextAction → String → String → ℕ → Task → Run → Tables → Tables
requeued_tables f a id hash now t r d = record d {
  execution =
      set_execution d.execution f.task.task_id (suc f.execution.execution_version)
        (next_execution f id hash now);
  task = set_task d.task f.task.task_id (updated_task t (requeued_task f (target_task a) now));
  run = set_run d.run f.task.task_id (updated_run r (requeued_run f (target_run a)));
}

inserted_step :
    (e : TaskExecution) (s : Commands) {u : Unit {0}} {s' : Commands}
    → on_rest (insert_execution e) s ≡ ok (u, s')
    → (s.rest.execution e.task_id e.execution_version ≡ none)
      × (record s.rest {
        execution = set_execution s.rest.execution e.task_id e.execution_version e;
      }
          ≡ s'.rest)
inserted_step e s h =
    let (d, k, same) = on_rest-eq_ok (insert_execution e) s h in
    let (fresh, w) = insert_execution-eq_ok e s.rest k in (fresh, w ∙ same)

moved_step :
    (u : TaskUpdate) (s s1 : Commands) (b : Bool) {v : Unit {0}} {s' : Commands}
    → on_rest (update_task u) s ≡ ok (b, s1)
    → must_apply b s1 ≡ ok (v, s')
    → (t : Task) × (s.rest.task u.task_id ≡ some t)
      × (record s.rest { task = set_task s.rest.task u.task_id (updated_task t u) } ≡ s'.rest)
moved_step u s s1 b h k =
    let (d, l, same) = on_rest-eq_ok (update_task u) s h in
    let (hit, back) = must_apply-eq_ok b s1 k in
    let (t, at, w) = update_task-eq_ok u s.rest hit l in (t, at, w ∙ same ∙ ap (λ x. x.rest) back)

reset_step :
    (u : RunUpdate) (s s1 : Commands) (b : Bool) {v : Unit {0}} {s' : Commands}
    → on_rest (update_run u) s ≡ ok (b, s1)
    → must_apply b s1 ≡ ok (v, s')
    → (r : Run) × (s.rest.run u.task_id ≡ some r)
      × (record s.rest { run = set_run s.rest.run u.task_id (updated_run r u) } ≡ s'.rest)
reset_step u s s1 b h k =
    let (d, l, same) = on_rest-eq_ok (update_run u) s h in
    let (hit, back) = must_apply-eq_ok b s1 k in
    let (r, at, w) = update_run-eq_ok u s.rest hit l in (r, at, w ∙ same ∙ ap (λ x. x.rest) back)

-- The three writes in a row.
rows_after :
    (f : TerminationFacts) (a : CheckpointNextAction) (id hash : String) (now : ℕ) (t : Task)
    (r : Run) (d d1 d2 d3 : Tables)
    → (record d {
      execution =
          set_execution d.execution f.task.task_id
            (suc f.execution.execution_version)
            (next_execution f id hash now);
    })
      ≡ d1
    → (record d1 {
      task = set_task d1.task f.task.task_id (updated_task t (requeued_task f (target_task a) now));
    })
      ≡ d2
    → (record d2 {
      run = set_run d2.run f.task.task_id (updated_run r (requeued_run f (target_run a)));
    })
      ≡ d3
    → d1.task f.task.task_id ≡ some t
    → d2.run f.task.task_id ≡ some r
    → (d.task f.task.task_id ≡ some t)
      × (d.run f.task.task_id ≡ some r)
      × (requeued_tables f a id hash now t r d ≡ d3)
unfolding requeued_tables
rows_after f a id hash now t r d d1 d2 d3 e1 e2 e3 at at_run = (
  ap (λ x. x.task f.task.task_id) e1 ∙ at,
  ap (λ x. x.run f.task.task_id) e1 ∙ ap (λ x. x.run f.task.task_id) e2 ∙ at_run,
  ap
        (λ (x : Tables). record x {
          task =
              set_task x.task f.task.task_id (updated_task t (requeued_task f (target_task a) now));
          run = set_run x.run f.task.task_id (updated_run r (requeued_run f (target_run a)));
        })
        e1
      ∙ ap
          (λ (x : Tables). record x {
            run = set_run x.run f.task.task_id (updated_run r (requeued_run f (target_run a)));
          })
          e2
      ∙ e3,
)

pub requeue-eq_ok :
    (f : TerminationFacts) (a : CheckpointNextAction) (id hash : String) (now : ℕ) (s : Commands)
    {u : Unit {0}} {s' : Commands}
    → requeue f a id hash now s ≡ ok (u, s')
    → (t : Task) × (r : Run) × (s.rest.execution f.task.task_id (suc f.execution.execution_version)
        ≡ none)
      × (s.rest.task f.task.task_id ≡ some t)
      × (s.rest.run f.task.task_id ≡ some r)
      × (requeued_tables f a id hash now t r s.rest ≡ s'.rest)
unfolding requeue
requeue-eq_ok f a id hash now s {s'} h =
    let (_, s1, h1, k1) =
      after-eq_ok (on_rest (insert_execution (next_execution f id hash now)) s) _ h in
    let (_, s2, h2, k2) = after-eq_ok (task_may_move f.task.status (target_task a) s1) _ k1 in
    let (b, s3, h3, k3) =
      after-eq_ok (on_rest (update_task (requeued_task f (target_task a) now)) s2) _ k2 in
    let (_, s4, h4, k4) = after-eq_ok (must_apply b s3) _ k3 in
    let (c, s5, h5, k5) =
      after-eq_ok (on_rest (update_run (requeued_run f (target_run a))) s4) _ k4 in
    let (fresh, w1) = inserted_step (next_execution f id hash now) s h1 in
    let same : s1 ≡ s2 = task_may_move-eq_ok f.task.status (target_task a) s1 h2 in
    let (t, at, w2) = moved_step (requeued_task f (target_task a) now) s2 s3 b h3 h4 in
    let (r, at_run, w3) = reset_step (requeued_run f (target_run a)) s4 s5 c h5 k5 in
    let (found, found_run, rows) =
      rows_after f a id hash now t r s.rest s2.rest s4.rest s'.rest (w1 ∙ ap (λ x. x.rest) same) w2
        w3 at at_run in
    (t, r, fresh, found, found_run, rows)
