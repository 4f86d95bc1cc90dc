-- ===== src/Lifecycle/Guards.antt =====
-- What the guards of internal/lifecycle/policy.go decide.
use agentops_go.Prelude.{
  String, true, false, ◌≡◌, ◌≢◌, ◌<◌, refl, ◌↔◌, Option, none, some, arith, text_eq_iff,
}
use agentops_go.Contracts.Status.{
  TaskStatus, RunStatus, StepStatus, ExecutionStatus, ApprovalStatus,
}
use agentops_go.Lifecycle.{
  GuardFacts, ApprovalFacts, guard_facts, worker_mismatched, check_guard,
  can_enter_waiting_approval, can_approve,
}

-- The request names the worker that owns the execution, or no worker.
pub data OwnedBy (owner : Option String) : Option String → Type 0 where
  unnamed : OwnedBy owner none
  named : {w : String} → owner ≡ some w → w ≢ "" → OwnedBy owner (some w)

pub record GuardHolds (f : GuardFacts) : Type 0 where
  pub versioned : 0 < f.current_execution_version
  pub same_version : f.current_execution_version ≡ f.request_execution_version
  pub owned : OwnedBy f.execution_worker_id f.request_worker_id
  pub before_deadline : f.database_now < f.deadline_at

matched_of_OwnedBy :
    (owner request : Option String)
    → OwnedBy owner request
    → worker_mismatched request owner ≡ false
unfolding worker_mismatched
matched_of_OwnedBy owner none o = refl
matched_of_OwnedBy none (some w) (OwnedBy.named e n) = cc
matched_of_OwnedBy (some v) (some w) (OwnedBy.named e n) =
    ground (arith, text_eq_iff v w, text_eq_iff w "")

OwnedBy-of_matched :
    (owner request : Option String)
    → worker_mismatched request owner ≡ false
    → OwnedBy owner request
unfolding worker_mismatched
OwnedBy-of_matched owner none h = OwnedBy.unnamed
OwnedBy-of_matched none (some w) h = absurd (cc)
OwnedBy-of_matched (some v) (some w) h =
    OwnedBy.named (ground (arith, text_eq_iff v w, text_eq_iff w ""))
      (λ e. ground (arith, text_eq_iff v w, text_eq_iff w ""))

GuardHolds-of_allowed : (f : GuardFacts) → (check_guard f).allowed ≡ true → GuardHolds f
unfolding check_guard
GuardHolds-of_allowed f h = record {
  versioned = ground arith;
  same_version = ground arith;
  owned = OwnedBy-of_matched f.execution_worker_id f.request_worker_id (ground arith);
  before_deadline = ground arith;
}

allowed_of_GuardHolds : (f : GuardFacts) → GuardHolds f → (check_guard f).allowed ≡ true
unfolding check_guard
allowed_of_GuardHolds f g =
    ground (arith, matched_of_OwnedBy f.execution_worker_id f.request_worker_id g.owned)

-- The shared guard allows a request exactly when the version is positive and current, the request
-- names no worker or the owning one, and the database time is before the deadline.
pub check_guard_iff : (f : GuardFacts) → ((check_guard f).allowed ≡ true) ↔ GuardHolds f
check_guard_iff f = (GuardHolds-of_allowed f, allowed_of_GuardHolds f)

-- All four objects wait for the approval, and no worker owns or requests the execution.
pub record Waiting (f : ApprovalFacts) : Type 0 where
  pub task : f.task_status ≡ TaskStatus.waiting_approval
  pub run : f.run_status ≡ RunStatus.waiting_approval
  pub step : f.step_status ≡ StepStatus.waiting_approval
  pub execution : f.execution_status ≡ ExecutionStatus.waiting_approval
  pub approval : f.approval_status ≡ ApprovalStatus.pending
  pub no_owner : f.execution_worker_id ≡ none
  pub no_request : f.request_worker_id ≡ none

Waiting-of_allowed : (f : ApprovalFacts) → (can_approve f).allowed ≡ true → Waiting f
unfolding can_approve
Waiting-of_allowed f h = ground arith

guard_of_approved :
    (f : ApprovalFacts)
    → (can_approve f).allowed ≡ true
    → (check_guard (guard_facts f)).allowed ≡ true
unfolding can_approve
guard_of_approved f h = ground arith

allowed_of_Waiting :
    (f : ApprovalFacts)
    → Waiting f
    → (check_guard (guard_facts f)).allowed ≡ true
    → (can_approve f).allowed ≡ true
unfolding can_approve
allowed_of_Waiting f w g = ground arith

-- An approval is allowed exactly when the guard holds and all objects wait, unowned and unrequested
-- by any worker.
pub can_approve_iff :
    (f : ApprovalFacts)
    → ((can_approve f).allowed ≡ true) ↔ (Waiting f × GuardHolds (guard_facts f))
can_approve_iff f = (
  λ h. (Waiting-of_allowed f h, GuardHolds-of_allowed (guard_facts f) (guard_of_approved f h)),
  λ h. allowed_of_Waiting f h.0 (allowed_of_GuardHolds (guard_facts f) h.1),
)

-- All four objects run, and the request names the worker that owns the execution.
pub record Entering (f : ApprovalFacts) : Type 0 where
  pub task : f.task_status ≡ TaskStatus.running
  pub run : f.run_status ≡ RunStatus.running
  pub step : f.step_status ≡ StepStatus.running
  pub execution : f.execution_status ≡ ExecutionStatus.running
  pub named : f.request_worker_id ≢ none

Entering-of_allowed :
    (f : ApprovalFacts) → (can_enter_waiting_approval f).allowed ≡ true → Entering f
unfolding can_enter_waiting_approval
Entering-of_allowed f h = ground arith

guard_of_entering :
    (f : ApprovalFacts)
    → (can_enter_waiting_approval f).allowed ≡ true
    → (check_guard (guard_facts f)).allowed ≡ true
unfolding can_enter_waiting_approval
guard_of_entering f h = ground arith

allowed_of_Entering :
    (f : ApprovalFacts)
    → Entering f
    → (check_guard (guard_facts f)).allowed ≡ true
    → (can_enter_waiting_approval f).allowed ≡ true
unfolding can_enter_waiting_approval
allowed_of_Entering f e g = ground arith

-- Entering WaitingApproval is allowed exactly when all objects run, a worker is named and the guard
-- holds.
pub can_enter_waiting_approval_iff :
    (f : ApprovalFacts)
    → ((can_enter_waiting_approval f).allowed ≡ true) ↔ (Entering f × GuardHolds (guard_facts f))
can_enter_waiting_approval_iff f = (
  λ h. (Entering-of_allowed f h, GuardHolds-of_allowed (guard_facts f) (guard_of_entering f h)),
  λ h. allowed_of_Entering f h.0 (allowed_of_GuardHolds (guard_facts f) h.1),
)
