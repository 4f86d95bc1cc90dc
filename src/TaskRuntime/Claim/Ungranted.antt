-- ===== src/TaskRuntime/Claim/Ungranted.antt =====
-- The second transaction of `ClaimNextExecution`, and the claims that it may return.
use agentops_go.Prelude.{
  Bool, true, false, ◌≡◌, arith, if◌then◌else◌, not, ◌||◌, ◌&&◌, is_none, text_eq, Bool-cases, inl,
  inr, ◌==◌,
}
use agentops_go.Contracts.Execution.{ClaimResult, ExecutionClaim}
use agentops_go.TaskRuntime.Entity.{Task, QueueCandidate}
use agentops_go.TaskRuntime.Store.Transaction.{Tx, TxError, ok, Tables, ◌>>=◌, pure}
use agentops_go.TaskRuntime.Ports.{Ports, ask}
use agentops_go.TaskRuntime.Claim.{ClaimFacts}
use agentops_go.TaskRuntime.Claim.Grant.{
  GrantsOnly, GrantsOnly-read, GrantsOnly-fail, settle-GrantsOnly, ask-same,
}
use agentops_go.TaskRuntime.Store.Blocks.{after-eq_ok}
use agentops_go.TaskRuntime.Claim.Reconcile.{
  reconcile_miss, reconciled, settle_again, current_candidate,
}
use agentops_go.TaskRuntime.Store.{lock_task, lock_run_by_task, lock_execution}
use agentops_go.TaskRuntime.Claim.{target}
use agentops_go.TaskRuntime.Claim.Reconcile.{
  reconcile_facts, no_work_if, replaced_or_fail, confirm_superseded, same_version, legally_removed,
  reconcile_task, reconcile,
}
use agentops_go.Contracts.Execution.{execution_version_valid}
use agentops_go.TaskRuntime.Claim.Progress.{execute-ok}

abbrev Never : ExecutionClaim → Tables → Type 0
Never k s = ⊥

reconciled-GrantsOnly :
    (s : Tables) (m : Tx Tables ClaimResult)
    → GrantsOnly s Never m
    → GrantsOnly s Never (reconciled m)
unfolding reconciled
reconciled-GrantsOnly s m g = record { at = λ k s' h. g.at k s' (ground arith) }

settle_again-GrantsOnly :
    (p : Ports) (f : ClaimFacts) (s : Tables) → GrantsOnly s Never (settle_again p f)
unfolding settle_again
settle_again-GrantsOnly p f s = GrantsOnly-read (ask p.now) _ (ask-same p.now s) λ now _.
    reconciled-GrantsOnly s _ (
      settle-GrantsOnly p f now (current_candidate f) _
        λ _ _ _ _ _. GrantsOnly-fail TxError.persistence_invariant_violation)

GrantsOnly-last :
    {A : Type 0} (s : Tables) (m : Tx Tables A) (f : A → Tx Tables ClaimResult)
    → ((a : A) (s1 : Tables) → GrantsOnly s1 Never (f a))
    → GrantsOnly s Never (m >>= f)
GrantsOnly-last s m f g = record {
  at = λ k s' h. let (a, s1, _, h1) = after-eq_ok (m s) f h in (g a s1).at k s' h1;
}

no_work-GrantsOnly : (s : Tables) → GrantsOnly s Never (pure ClaimResult.no_work)
no_work-GrantsOnly s = record { at = λ k s' h. absurd (cc) }

no_work_if-GrantsOnly : (b : Bool) (s : Tables) → GrantsOnly s Never (no_work_if b)
unfolding no_work_if
no_work_if-GrantsOnly true s = no_work-GrantsOnly s
no_work_if-GrantsOnly false s = GrantsOnly-fail TxError.persistence_invariant_violation

choice-GrantsOnly :
    (s : Tables) (b : Bool) (m n : Tx Tables ClaimResult)
    → GrantsOnly s Never m
    → GrantsOnly s Never n
    → GrantsOnly s Never (if b then m else n)
choice-GrantsOnly s true m n g h = g
choice-GrantsOnly s false m n g h = h

reconcile_facts-GrantsOnly :
    (p : Ports) (f : ClaimFacts) (s : Tables) → GrantsOnly s Never (reconcile_facts p f)
unfolding reconcile_facts
reconcile_facts-GrantsOnly p f s =
    choice-GrantsOnly s (is_none f.task.queued_at && legally_removed f) _ _ (no_work-GrantsOnly s)
      (settle_again-GrantsOnly p f s)

same_version-GrantsOnly :
    (p : Ports) (t : Task) (s : Tables) → GrantsOnly s Never (same_version p t)
unfolding same_version
same_version-GrantsOnly p t s = GrantsOnly-last s (target (lock_run_by_task t.task_id)) _ λ run s1.
    GrantsOnly-last s1 (target (lock_execution t.task_id t.current_execution_version)) _
      λ execution s2.
        reconcile_facts-GrantsOnly p (record { task = t; run = run; execution = execution }) s2

replaced_or_fail-GrantsOnly :
    (t : Task) (c : QueueCandidate) (s : Tables) → GrantsOnly s Never (replaced_or_fail t c)
unfolding replaced_or_fail
replaced_or_fail-GrantsOnly t c s =
    GrantsOnly-last s (confirm_superseded t c) _ λ removed s1. no_work_if-GrantsOnly removed s1

reconcile_task-GrantsOnly :
    (p : Ports) (c : QueueCandidate) (t : Task) (s : Tables)
    → GrantsOnly s Never (reconcile_task p c t)
unfolding reconcile_task
reconcile_task-GrantsOnly p c t s =
    choice-GrantsOnly s (not (text_eq t.current_run_id c.run_id)) _ _
      (GrantsOnly-fail TxError.persistence_invariant_violation)
      (choice-GrantsOnly s (not (t.current_execution_version == c.execution_version)) _ _
        (replaced_or_fail-GrantsOnly t c s) (same_version-GrantsOnly p t s))

reconcile-GrantsOnly :
    (p : Ports) (c : QueueCandidate) (s : Tables) → GrantsOnly s Never (reconcile p c)
unfolding reconcile
reconcile-GrantsOnly p c s =
    GrantsOnly-last s (target (lock_task c.task_id)) _ λ t s1. reconcile_task-GrantsOnly p c t s1

pub reconcile_miss-Never :
    (p : Ports) (c : QueueCandidate) (s : Tables) (k : ExecutionClaim) (s' : Tables)
    → reconcile_miss p c s ≡ (ok (ClaimResult.claimed k), s')
    → ⊥
unfolding reconcile_miss
reconcile_miss-Never p c s k s' h =
    elim (Bool-cases (text_eq c.task_id "" || not (execution_version_valid c.execution_version))) [
      | inl none_given ↦ absurd (ground arith)
      | inr given ↦
          (reconcile-GrantsOnly p c s).at k s'
            (execute-ok (reconcile p c) s s' (ClaimResult.claimed k) (ground arith))
    ]
