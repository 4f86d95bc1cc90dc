-- ===== src/TaskRuntime/Claim/Settlements.antt =====
-- The effects of the three ways to settle a claim on locked facts, and the tables afterwards.
use agentops_go.Prelude.{ℕ, String, Bool, true, false, Option, none, some, ◌≡◌, arith}
use agentops_go.Contracts.Status.{TaskStatus, RunStatus, ExecutionStatus, task_status_eq}
use agentops_go.Contracts.Codes.{ErrorCode, InvariantCode, TerminationReason}
use agentops_go.Lifecycle.{can_task_transition, can_run_transition, can_execution_transition}
use agentops_go.TaskRuntime.Entity.{TaskUpdate, RunUpdate, TaskExecutionUpdate}
use agentops_go.TaskRuntime.Store.Transaction.{ok, Tables}
use agentops_go.TaskRuntime.Ports.{Ports, ensure_pending_report}
use agentops_go.TaskRuntime.Claim.{ClaimFacts, or_now}
use agentops_go.TaskRuntime.Claim.Writes.{
  execution_update, run_update, task_update, started_task, commit_claim, interrupt_config_mismatch,
  terminalize_claim, non_nil_json_object,
}
use agentops_go.TaskRuntime.Claim.Effects.{
  Locked, with_execution, with_run, with_task, start_execution_lem, fail_execution_lem,
  interrupt_execution_lem, start_run_lem, start_run_kept, fail_run_lem, fail_task_lem,
  interrupt_task_lem, start_task_lem,
}

-- The tables after a commit of the claim.
abbrev pub claimed_execution : ClaimFacts → ℕ → String → TaskExecutionUpdate
claimed_execution f now worker =
    execution_update f ExecutionStatus.running (some worker) none none none none
      (or_now f.execution.started_at now) none

abbrev pub claimed_run : ClaimFacts → ℕ → RunUpdate
claimed_run f now =
    run_update f RunStatus.running f.run.context f.run.error_code (or_now f.run.started_at now)
      f.run.ended_at

abbrev pub claimed_tables : Tables → ClaimFacts → ℕ → String → Bool → Tables
claimed_tables s f now worker true =
    with_task (with_run (with_execution s f (claimed_execution f now worker)) f (claimed_run f now))
      f (started_task f now true)
claimed_tables s f now worker false =
    with_task (with_execution s f (claimed_execution f now worker)) f (started_task f now false)

-- The status pairs under which a claim is committed: both pending, or both running.
abbrev pub Agree : ClaimFacts → Bool → Type 0
Agree f true = (f.task.status ≡ TaskStatus.pending) × (f.run.status ≡ RunStatus.pending)
Agree f false = (f.task.status ≡ TaskStatus.running) × (f.run.status ≡ RunStatus.running)

pub commit_claim_lem :
    (s : Tables) (f : ClaimFacts) (now : ℕ) (worker : String) (pending : Bool)
    → Locked s f
    → f.execution.status ≡ ExecutionStatus.queued
    → Agree f pending
    → commit_claim f now worker s ≡ ok (tt, claimed_tables s f now worker pending)
unfolding commit_claim task_status_eq
commit_claim_lem s f now worker true l queued a =
    let s1 = with_execution s f (claimed_execution f now worker) in
    let s2 = with_run s1 f (claimed_run f now) in
    rw (start_execution_lem s f l now worker queued) (
      rw (start_run_lem s1 f l.task_at now a.1 l.run_at l.current_version l.current_run)
        (start_task_lem s2 f l.task_at now true (ground arith)))
commit_claim_lem s f now worker false l queued a =
    let s1 = with_execution s f (claimed_execution f now worker) in
    rw (start_execution_lem s f l now worker queued) (
      rw (start_run_kept s1 f l.task_at now a.1)
        (start_task_lem s1 f l.task_at now false (ground arith)))

-- The tables after the three failures of a terminalized claim.
abbrev pub failed_execution :
    ClaimFacts
    → ℕ
    → ErrorCode
    → Option InvariantCode
    → Option TerminationReason
    → TaskExecutionUpdate
failed_execution f now code invariant reason =
    execution_update f ExecutionStatus.failed none none (some code) invariant reason
      f.execution.started_at (some now)

abbrev pub failed_run : ClaimFacts → ℕ → ErrorCode → RunUpdate
failed_run f now code =
    run_update f RunStatus.failed (non_nil_json_object f.run.context) (some code) f.run.started_at
      (some now)

abbrev pub failed_task : ClaimFacts → ℕ → ErrorCode → TaskUpdate
failed_task f now code = task_update f TaskStatus.failed (some code) f.task.started_at (some now)

abbrev pub failed_tables :
    Tables → ClaimFacts → ℕ → ErrorCode → Option InvariantCode → Option TerminationReason → Tables
failed_tables s f now code invariant reason =
    with_task
      (with_run (with_execution s f (failed_execution f now code invariant reason)) f
        (failed_run f now code))
      f (failed_task f now code)

-- The policy lets all three objects fail.
pub record CanFail (f : ClaimFacts) : Type 0 where
  pub execution :
      (can_execution_transition f.execution.status ExecutionStatus.failed).allowed ≡ true
  pub run : (can_run_transition f.run.status RunStatus.failed).allowed ≡ true
  pub task : (can_task_transition f.task.status TaskStatus.failed).allowed ≡ true

pub terminalize_claim_lem :
    (p : Ports) (s : Tables) (f : ClaimFacts) (now : ℕ) (code : ErrorCode)
    (invariant : Option InvariantCode) (reason : Option TerminationReason)
    → Locked s f
    → CanFail f
    → terminalize_claim p f now code invariant reason s
      ≡ ensure_pending_report p f.task.task_id f.run.run_id now
          (failed_tables s f now code invariant reason)
unfolding terminalize_claim
terminalize_claim_lem p s f now code invariant reason l c =
    let s1 = with_execution s f (failed_execution f now code invariant reason) in
    let s2 = with_run s1 f (failed_run f now code) in
    rw (fail_execution_lem s f l now code invariant reason c.execution) (
      rw (fail_run_lem s1 f l.task_at now code c.run l.run_at l.current_version l.current_run)
        (rw (fail_task_lem s2 f l.task_at now code c.task)))

-- The tables after an interruption for a configuration mismatch: the run is left as it was.
abbrev pub interrupted_tables : Tables → ClaimFacts → ℕ → String → Tables
interrupted_tables s f now observed =
    with_task
      (with_execution s f (
        execution_update f ExecutionStatus.interrupted none (some observed)
          (some ErrorCode.config_version_mismatch) none none f.execution.started_at (some now)))
      f
      (task_update f TaskStatus.interrupted (some ErrorCode.config_version_mismatch)
        f.task.started_at f.task.ended_at)

pub interrupt_config_mismatch_lem :
    (p : Ports) (s : Tables) (f : ClaimFacts) (now : ℕ) (observed : String)
    → Locked s f
    → f.execution.status ≡ ExecutionStatus.queued
    → f.execution.observed_config_hash ≡ none
    → (can_task_transition f.task.status TaskStatus.interrupted).allowed ≡ true
    → interrupt_config_mismatch p f now observed s
      ≡ ensure_pending_report p f.task.task_id f.run.run_id now
          (interrupted_tables s f now observed)
unfolding interrupt_config_mismatch
interrupt_config_mismatch_lem p s f now observed l queued fresh allowed =
    let s1 = with_execution s f (
      execution_update f ExecutionStatus.interrupted none (some observed)
        (some ErrorCode.config_version_mismatch) none none f.execution.started_at (some now)) in
    rw (interrupt_execution_lem s f l now observed queued fresh)
      (rw (interrupt_task_lem s1 f l.task_at allowed))
