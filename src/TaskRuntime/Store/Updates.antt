-- ===== src/TaskRuntime/Store/Updates.antt =====
-- What the conditional updates do: the condition that makes them meet their row, and their effect.
use agentops_go.Prelude.{
  String, Bool, true, false, ◌&&◌, Option, none, some, ◌==◌, if◌then◌else◌, ◌≡◌, ◌≢◌, refl, ap, inl,
  inr, Option-cases, arith, text_eq, text_eq_iff, option_text_eq,
}
use agentops_go.Contracts.Status.{
  TaskStatus, RunStatus, ExecutionStatus, task_status_eq, run_status_eq, execution_status_eq,
}
use agentops_go.TaskRuntime.Entity.{
  Task, Run, TaskExecution, TaskUpdate, RunUpdate, TaskExecutionUpdate,
}
use agentops_go.TaskRuntime.Store.{
  set_task, set_run, set_execution, updated_task, updated_run, updated_execution, update_task,
  update_run, update_execution, guarded_by_version, guarded_by_run, observation_allowed,
}
use agentops_go.TaskRuntime.Store.Transaction.{ok, pure, Tables}
use agentops_go.TaskRuntime.Store.Blocks.{ok_inj}

pub text_eq_refl : (a : String) → text_eq a a ≡ true
text_eq_refl a = (text_eq_iff a a).1 refl

pub task_status_eq_refl : (a : TaskStatus) → task_status_eq a a ≡ true
unfolding task_status_eq
task_status_eq_refl (TaskStatus.unknown a) = text_eq_refl a
task_status_eq_refl _ = refl

pub run_status_eq_refl : (a : RunStatus) → run_status_eq a a ≡ true
unfolding run_status_eq
run_status_eq_refl (RunStatus.unknown a) = text_eq_refl a
run_status_eq_refl _ = refl

pub execution_status_eq_refl : (a : ExecutionStatus) → execution_status_eq a a ≡ true
unfolding execution_status_eq
execution_status_eq_refl (ExecutionStatus.unknown a) = text_eq_refl a
execution_status_eq_refl _ = refl

pub option_text_eq_refl : (a : Option String) → option_text_eq a a ≡ true
option_text_eq_refl none = refl
option_text_eq_refl (some a) = text_eq_refl a

pub update_task_hit :
    (s : Tables) (u : TaskUpdate) (t : Task)
    → s.task u.task_id ≡ some t
    → t.status ≡ u.expected_status
    → t.current_execution_version ≡ u.expected_current_execution_version
    → update_task u s ≡ ok (true, record s { task = set_task s.task u.task_id (updated_task t u) })
unfolding update_task
update_task_hit s u t at status version = ground (arith, task_status_eq_refl u.expected_status, at)

pub update_run_hit :
    (s : Tables) (u : RunUpdate) (r : Run) (t : Task)
    → s.run u.task_id ≡ some r
    → s.task u.task_id ≡ some t
    → t.current_run_id ≡ u.run_id
    → t.current_execution_version ≡ u.execution_version
    → r.run_id ≡ u.run_id
    → r.status ≡ u.expected_status
    → update_run u s ≡ ok (true, record s { run = set_run s.run u.task_id (updated_run r u) })
unfolding update_run
update_run_hit s u r t at task_at run version same status =
    ground (arith, run_status_eq_refl u.expected_status, text_eq_refl u.run_id)

pub update_execution_hit :
    (s : Tables) (u : TaskExecutionUpdate) (e : TaskExecution) (t : Task)
    → s.execution u.task_id u.execution_version ≡ some e
    → s.task u.task_id ≡ some t
    → t.current_execution_version ≡ u.execution_version
    → e.status ≡ u.expected_status
    → e.worker_id ≡ u.expected_worker_id
    → observation_allowed e u ≡ true
    → update_execution u s
      ≡ ok (
        true,
        record s {
          execution =
              set_execution s.execution u.task_id u.execution_version (updated_execution e u);
        },
      )
unfolding update_execution guarded_by_version
update_execution_hit s u e t at task_at version status owner allowed =
    rw (at, update_execution)
      (rw (task_at, guarded_by_version)
        (ground (
          arith,
          execution_status_eq_refl u.expected_status,
          option_text_eq_refl u.expected_worker_id,
        )))

missed : {b : Bool} {d d' : Tables} → b ≡ true → pure false d ≢ ok (b, d')
missed hit h = ap_false (ap (λ x. x.0) (ok_inj h)) hit
  where
    ap_false : {b : Bool} → false ≡ b → b ≢ true
    ap_false e k = ground arith

guarded-eq_ok :
    (g : Bool) (d d1 : Tables) {b : Bool} {d' : Tables}
    → b ≡ true
    → (if g then pure true d1 else pure false d) ≡ ok (b, d')
    → d1 ≡ d'
guarded-eq_ok true d d1 hit h = ap (λ x. x.1) (ok_inj h)
guarded-eq_ok false d d1 hit h = absurd (missed hit h)

-- An update that met a row has changed it, and no more.
pub update_task-eq_ok :
    (u : TaskUpdate) (d : Tables) {b : Bool} {d' : Tables}
    → b ≡ true
    → update_task u d ≡ ok (b, d')
    → (t : Task) × (d.task u.task_id ≡ some t)
      × (record d { task = set_task d.task u.task_id (updated_task t u) } ≡ d')
unfolding update_task
update_task-eq_ok u d hit h = elim (Option-cases (d.task u.task_id)) [
  | inl k ↦ absurd (missed hit (rw (k, update_task) at h))
  | inr (t, k) ↦ (
    t,
    k,
    guarded-eq_ok
        (task_status_eq t.status u.expected_status
          && t.current_execution_version == u.expected_current_execution_version)
        d _ hit (rw (k, update_task) at h),
  )
]

pub update_run-eq_ok :
    (u : RunUpdate) (d : Tables) {b : Bool} {d' : Tables}
    → b ≡ true
    → update_run u d ≡ ok (b, d')
    → (r : Run) × (d.run u.task_id ≡ some r)
      × (record d { run = set_run d.run u.task_id (updated_run r u) } ≡ d')
unfolding update_run
update_run-eq_ok u d hit h = elim (Option-cases (d.run u.task_id)) [
  | inl k ↦ absurd (missed hit (rw (k, update_run) at h))
  | inr (r, k) ↦ (
    r,
    k,
    guarded-eq_ok
        (guarded_by_run (d.task u.task_id) u.run_id u.execution_version
          && text_eq r.run_id u.run_id
          && run_status_eq r.status u.expected_status)
        d _ hit (rw (k, update_run) at h),
  )
]
