-- ===== src/TaskRuntime/Claim/Effects.antt =====
-- The effect of each single write of a claim on locked facts.
use agentops_go.Prelude.{ℕ, String, Bool, true, false, Option, none, some, ◌≡◌, refl, ap, arith}
use agentops_go.Contracts.Status.{
  TaskStatus, RunStatus, ExecutionStatus, task_status_eq, run_status_eq,
}
use agentops_go.Contracts.Codes.{ErrorCode, InvariantCode, TerminationReason}
use agentops_go.Lifecycle.{
  Decision, can_task_transition, can_run_transition, can_execution_transition,
}
use agentops_go.TaskRuntime.Entity.{TaskUpdate, RunUpdate, TaskExecutionUpdate}
use agentops_go.TaskRuntime.Store.{
  set_task, set_run, set_execution, updated_task, updated_run, updated_execution, update_task,
  update_run, update_execution, observation_allowed,
}
use agentops_go.TaskRuntime.Store.Transaction.{Tx, ok, Tables, ◌>>=◌}
use agentops_go.TaskRuntime.Store.Updates.{update_task_hit, update_run_hit, update_execution_hit}
use agentops_go.TaskRuntime.Claim.{ClaimFacts, lifecycle_check, must_match, or_now}
use agentops_go.TaskRuntime.Claim.Writes.{
  execution_update, run_update, task_update, started_task, start_execution, start_run, start_task,
  interrupt_execution, interrupt_task, fail_execution, fail_run, fail_task, non_nil_json_object,
}

-- The facts are the rows of the tables, of the task's current execution and run.
pub record Locked (s : Tables) (f : ClaimFacts) : Type 0 where
  pub task_at : s.task f.task.task_id ≡ some f.task
  pub run_at : s.run f.task.task_id ≡ some f.run
  pub execution_at : s.execution f.task.task_id f.execution.execution_version ≡ some f.execution
  pub current_version : f.task.current_execution_version ≡ f.execution.execution_version
  pub current_run : f.task.current_run_id ≡ f.run.run_id

abbrev pub with_execution : Tables → ClaimFacts → TaskExecutionUpdate → Tables
with_execution s f u = record s {
  execution =
      set_execution s.execution f.task.task_id f.execution.execution_version
        (updated_execution f.execution u);
}

abbrev pub with_run : Tables → ClaimFacts → RunUpdate → Tables
with_run s f u = record s { run = set_run s.run f.task.task_id (updated_run f.run u) }

abbrev pub with_task : Tables → ClaimFacts → TaskUpdate → Tables
with_task s f u = record s { task = set_task s.task f.task.task_id (updated_task f.task u) }

-- A step that is allowed and meets its row.
checked_step :
    (d : Decision) (m : Tx Tables Bool) (s s' : Tables)
    → d.allowed ≡ true
    → m s ≡ ok (true, s')
    → (lifecycle_check d >>= λ _. m >>= must_match) s ≡ ok (tt, s')
unfolding lifecycle_check must_match
checked_step d m s s' allowed hit = ground (arith, hit)

matched_step :
    (m : Tx Tables Bool) (s s' : Tables) → m s ≡ ok (true, s') → (m >>= must_match) s ≡ ok (tt, s')
unfolding must_match
matched_step m s s' hit = ground (arith, hit)

module _ (s : Tables) (f : ClaimFacts) (l : Locked s f) where
  move_execution :
      (status : ExecutionStatus) (worker observed : Option String) (code : Option ErrorCode)
      (invariant : Option InvariantCode) (reason : Option TerminationReason)
      (started ended : Option ℕ)
      → let u = execution_update f status worker observed code invariant reason started ended in
        observation_allowed f.execution u ≡ true
        → update_execution u s ≡ ok (true, with_execution s f u)
  move_execution status worker observed code invariant reason started ended o =
      update_execution_hit s
        (execution_update f status worker observed code invariant reason started ended) f.execution
        f.task l.execution_at l.task_at l.current_version refl refl o

  pub start_execution_lem :
      (now : ℕ) (worker : String)
      → f.execution.status ≡ ExecutionStatus.queued
      → start_execution f now worker s
        ≡ ok (
          tt,
          with_execution s f (
              execution_update f ExecutionStatus.running
                (some worker)
                none
                none
                none
                none
                (or_now f.execution.started_at now)
                none),
        )
  unfolding start_execution can_execution_transition observation_allowed
  start_execution_lem now worker h =
      checked_step (can_execution_transition f.execution.status ExecutionStatus.running) _ s _
        (ground arith)
        (move_execution ExecutionStatus.running (some worker) none none none none
          (or_now f.execution.started_at now) none refl)

  pub fail_execution_lem :
      (now : ℕ) (code : ErrorCode) (invariant : Option InvariantCode)
      (reason : Option TerminationReason)
      → (can_execution_transition f.execution.status ExecutionStatus.failed).allowed ≡ true
      → fail_execution f now code invariant reason s
        ≡ ok (
          tt,
          with_execution s f (
              execution_update f ExecutionStatus.failed none none
                (some code)
                invariant
                reason
                f.execution.started_at
                (some now)),
        )
  unfolding fail_execution observation_allowed
  fail_execution_lem now code invariant reason h =
      checked_step (can_execution_transition f.execution.status ExecutionStatus.failed) _ s _ h (
        move_execution ExecutionStatus.failed none none (some code) invariant reason
          f.execution.started_at (some now) refl)

  pub interrupt_execution_lem :
      (now : ℕ) (observed : String)
      → f.execution.status ≡ ExecutionStatus.queued
      → f.execution.observed_config_hash ≡ none
      → interrupt_execution f now observed s
        ≡ ok (
          tt,
          with_execution s f (
              execution_update f ExecutionStatus.interrupted none
                (some observed)
                (some ErrorCode.config_version_mismatch)
                none
                none
                f.execution.started_at
                (some now)),
        )
  unfolding interrupt_execution can_execution_transition observation_allowed
  interrupt_execution_lem now observed h fresh =
      checked_step (can_execution_transition f.execution.status ExecutionStatus.interrupted) _ s _
        (ground arith)
        (move_execution ExecutionStatus.interrupted none (some observed)
          (some ErrorCode.config_version_mismatch) none none f.execution.started_at (some now)
          (ground arith))

startable :
    (t : TaskStatus)
    → task_status_eq t TaskStatus.pending ≡ true
    → (can_task_transition t TaskStatus.running).allowed ≡ true
unfolding can_task_transition
startable t h = ground arith

-- The task and its run, as they are still locked behind the update of the execution.
module _ (s : Tables) (f : ClaimFacts) (task_at : s.task f.task.task_id ≡ some f.task) where
  move_run :
      (status : RunStatus) (context : String) (code : Option ErrorCode) (started ended : Option ℕ)
      → s.run f.task.task_id ≡ some f.run
      → f.task.current_execution_version ≡ f.execution.execution_version
      → f.task.current_run_id ≡ f.run.run_id
      → let u = run_update f status context code started ended in
        update_run u s ≡ ok (true, with_run s f u)
  move_run status context code started ended run_at version run =
      update_run_hit s (run_update f status context code started ended) f.run f.task run_at task_at
        run version refl refl

  move_task :
      (status : TaskStatus) (code : Option ErrorCode) (started ended : Option ℕ)
      → let u = task_update f status code started ended in
        update_task u s ≡ ok (true, with_task s f u)
  move_task status code started ended =
      update_task_hit s (task_update f status code started ended) f.task task_at refl refl

  pub start_run_lem :
      (now : ℕ)
      → f.run.status ≡ RunStatus.pending
      → s.run f.task.task_id ≡ some f.run
      → f.task.current_execution_version ≡ f.execution.execution_version
      → f.task.current_run_id ≡ f.run.run_id
      → start_run f now s
        ≡ ok (
          tt,
          with_run s f (
              run_update f RunStatus.running f.run.context f.run.error_code
                (or_now f.run.started_at now)
                f.run.ended_at),
        )
  unfolding start_run can_run_transition
  start_run_lem now h run_at version run = rw (ap (λ x. run_status_eq x RunStatus.pending) h) (
      checked_step (can_run_transition f.run.status RunStatus.running) _ s _ (ground arith) (
        move_run RunStatus.running f.run.context f.run.error_code (or_now f.run.started_at now)
          f.run.ended_at run_at version run))

  pub start_run_kept : (now : ℕ) → f.run.status ≡ RunStatus.running → start_run f now s ≡ ok (tt, s)
  unfolding start_run
  start_run_kept now h = ground arith

  pub fail_run_lem :
      (now : ℕ) (code : ErrorCode)
      → (can_run_transition f.run.status RunStatus.failed).allowed ≡ true
      → s.run f.task.task_id ≡ some f.run
      → f.task.current_execution_version ≡ f.execution.execution_version
      → f.task.current_run_id ≡ f.run.run_id
      → fail_run f now code s
        ≡ ok (
          tt,
          with_run s f (
              run_update f RunStatus.failed
                (non_nil_json_object f.run.context)
                (some code)
                f.run.started_at
                (some now)),
        )
  unfolding fail_run
  fail_run_lem now code h run_at version run =
      checked_step (can_run_transition f.run.status RunStatus.failed) _ s _ h (
        move_run RunStatus.failed (non_nil_json_object f.run.context) (some code) f.run.started_at
          (some now) run_at version run)

  pub fail_task_lem :
      (now : ℕ) (code : ErrorCode)
      → (can_task_transition f.task.status TaskStatus.failed).allowed ≡ true
      → fail_task f now code s
        ≡ ok (
          tt,
          with_task s f (task_update f TaskStatus.failed (some code) f.task.started_at (some now)),
        )
  unfolding fail_task
  fail_task_lem now code h =
      checked_step (can_task_transition f.task.status TaskStatus.failed) _ s _ h
        (move_task TaskStatus.failed (some code) f.task.started_at (some now))

  pub interrupt_task_lem :
      (can_task_transition f.task.status TaskStatus.interrupted).allowed ≡ true
      → interrupt_task f s
        ≡ ok (
          tt,
          with_task s f (
              task_update f TaskStatus.interrupted
                (some ErrorCode.config_version_mismatch)
                f.task.started_at
                f.task.ended_at),
        )
  unfolding interrupt_task
  interrupt_task_lem h =
      checked_step (can_task_transition f.task.status TaskStatus.interrupted) _ s _ h (
        move_task TaskStatus.interrupted (some ErrorCode.config_version_mismatch) f.task.started_at
          f.task.ended_at)

  pub start_task_lem :
      (now : ℕ) (pending : Bool)
      → task_status_eq f.task.status TaskStatus.pending ≡ pending
      → start_task f now s ≡ ok (tt, with_task s f (started_task f now pending))
  unfolding start_task
  start_task_lem now true h = rw h (
      checked_step (can_task_transition f.task.status TaskStatus.running) _ s _
        (startable f.task.status h)
        (move_task TaskStatus.running f.task.error_code (or_now f.task.started_at now)
          f.task.ended_at))
  start_task_lem now false h = rw h (
      matched_step
        (update_task
          (task_update f f.task.status f.task.error_code f.task.started_at f.task.ended_at))
        s _ (move_task f.task.status f.task.error_code f.task.started_at f.task.ended_at))
