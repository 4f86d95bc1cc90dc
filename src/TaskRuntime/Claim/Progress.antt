-- ===== src/TaskRuntime/Claim/Progress.antt =====
-- `ClaimNextExecution` as a whole, and the head of the queue.
use agentops_go.Prelude.{
  ℕ, String, Bool, some, ◌≡◌, refl, subst, ap, ◌∙◌, arith, not, ◌||◌, ◌&&◌, is_none, text_eq,
  Bool-cases, inl, inr, ◌⊎◌, ◌==◌,
}
use agentops_go.Contracts.Execution.{ClaimResult, execution_version_valid}
use agentops_go.TaskRuntime.Entity.{Task, Run, TaskExecution, QueueCandidate}
use agentops_go.TaskRuntime.Store.Transaction.{Tx, TxError, Result, ok, err, Tables, execute, fail}
use agentops_go.TaskRuntime.Store.{lock_task, lock_run_by_task, lock_execution}
use agentops_go.TaskRuntime.Store.Queue.{lock_next_queue_candidate}
use agentops_go.TaskRuntime.Store.Blocks.{Ensures, after-eq_ok}
use agentops_go.TaskRuntime.Ports.{Ports, ask}
use agentops_go.TaskRuntime.Claim.{ClaimFacts, target, lock_claim_facts}
use agentops_go.TaskRuntime.Claim.Service.{claimed, claim_candidate}
use agentops_go.TaskRuntime.Claim.Reconcile.{
  current_candidate, reconciled, settle_again, reconcile_facts, no_work_if, replaced_or_fail,
  confirm_superseded, same_version, legally_removed, reconcile_task, reconcile, reconcile_miss,
  after_first, claim_head, claim_next_execution,
}
use agentops_go.TaskRuntime.Claim.Dequeue.{Unqueued, settle-Unqueued, claimed-Unqueued}

-- The rows stand under their keys.
pub record Keyed (s : Tables) : Type 0 where
  pub task_key : (id : String) (t : Task) → s.task id ≡ some t → t.task_id ≡ id
  pub run_key : (id : String) (r : Run) → s.run id ≡ some r → r.task_id ≡ id
  pub execution_key :
      (id : String) (v : ℕ) (e : TaskExecution)
      → s.execution id v ≡ some e
      → (e.task_id ≡ id) × (e.execution_version ≡ v)

target-lock_task :
    (s s' : Tables) (id : String) (t : Task)
    → target (lock_task id) s ≡ ok (t, s')
    → (s.task id ≡ some t) × (s' ≡ s)
unfolding target lock_task
target-lock_task s s' id t h = ground arith

pub lock_claim_facts_lem :
    (s s' : Tables) (c : QueueCandidate) (f : ClaimFacts)
    → lock_claim_facts c s ≡ ok (f, s')
    → (s.task c.task_id ≡ some f.task)
      × (s.run c.task_id ≡ some f.run)
      × (s.execution c.task_id f.task.current_execution_version ≡ some f.execution)
      × (s' ≡ s)
unfolding lock_claim_facts
lock_claim_facts_lem s s' c f h = ground arith

claim_candidate-Unqueued :
    (p : Ports) (worker : String) (c : QueueCandidate) (s s' : Tables) (r : ClaimResult)
    → Keyed s
    → claim_candidate p worker c s ≡ ok (r, s')
    → Unqueued c.task_id s'
unfolding claim_candidate
claim_candidate-Unqueued p worker c s s' r k h =
    let (f, s1, locked, h1) = after-eq_ok (lock_claim_facts c s) _ h in
    let (now, s2, _, h2) = after-eq_ok (ask p.now s1) _ h1 in
    let rows = lock_claim_facts_lem s s1 c f locked in
    subst (λ id. Unqueued id s') (k.task_key c.task_id f.task rows.0)
      ((settle-Unqueued f p now (claimed p worker f now) (claimed-Unqueued f p worker now) c).at s2
        h2)

fail-Unqueued : (id : String) (e : TxError) → Ensures {A = ClaimResult} (Unqueued id) (fail e)
fail-Unqueued id e = record { at = λ s h. absurd (cc) }

-- What a success of the second transaction amounts to.
abbrev Settled : String → ClaimResult → Tables → Type 0
Settled id r s = (r ≡ ClaimResult.no_work) ⊎ Unqueued id s

pub reconciled-ok :
    (m : Tx Tables ClaimResult) (s s' : Tables) (r : ClaimResult)
    → reconciled m s ≡ ok (r, s')
    → m s ≡ ok (r, s')
unfolding reconciled
reconciled-ok m s s' r h = ground arith

settle_again-Unqueued :
    (p : Ports) (f : ClaimFacts) (s s' : Tables) (r : ClaimResult)
    → settle_again p f s ≡ ok (r, s')
    → Unqueued f.task.task_id s'
unfolding settle_again
settle_again-Unqueued p f s s' r h =
    let (now, s1, _, h1) = after-eq_ok (ask p.now s) _ h in
    (settle-Unqueued f p now (λ _ _. fail TxError.persistence_invariant_violation)
        (λ _ _. fail-Unqueued f.task.task_id TxError.persistence_invariant_violation)
        (current_candidate f)).at
      s1 (reconciled-ok _ s1 s' r h1)

reconcile_facts-Settled :
    (p : Ports) (f : ClaimFacts) (s s' : Tables) (r : ClaimResult)
    → reconcile_facts p f s ≡ ok (r, s')
    → Settled f.task.task_id r s'
unfolding reconcile_facts
reconcile_facts-Settled p f s s' r h =
    elim (Bool-cases (is_none f.task.queued_at && legally_removed f)) [
      | inl removed ↦ inl (ground arith)
      | inr present ↦ inr (settle_again-Unqueued p f s s' r (ground arith))
    ]

replaced_or_fail-no_work :
    (t : Task) (c : QueueCandidate) (s s' : Tables) (r : ClaimResult)
    → replaced_or_fail t c s ≡ ok (r, s')
    → r ≡ ClaimResult.no_work
unfolding replaced_or_fail no_work_if
replaced_or_fail-no_work t c s s' r h =
    let (b, s1, _, h1) = after-eq_ok (confirm_superseded t c s) _ h in ground arith

same_version-Settled :
    (p : Ports) (t : Task) (s s' : Tables) (r : ClaimResult)
    → same_version p t s ≡ ok (r, s')
    → Settled t.task_id r s'
unfolding same_version
same_version-Settled p t s s' r h =
    let (run, s1, _, h1) = after-eq_ok (target (lock_run_by_task t.task_id) s) _ h in
    let (execution, s2, _, h2) =
      after-eq_ok (target (lock_execution t.task_id t.current_execution_version) s1) _ h1 in
    reconcile_facts-Settled p (record { task = t; run = run; execution = execution }) s2 s' r h2

reconcile_task-Settled :
    (p : Ports) (c : QueueCandidate) (t : Task) (s s' : Tables) (r : ClaimResult)
    → reconcile_task p c t s ≡ ok (r, s')
    → Settled t.task_id r s'
unfolding reconcile_task
reconcile_task-Settled p c t s s' r h = elim (Bool-cases (text_eq t.current_run_id c.run_id)) [
  | inr other ↦ absurd (ground arith)
  | inl same ↦ elim (Bool-cases (t.current_execution_version == c.execution_version)) [
    | inr newer ↦ inl (replaced_or_fail-no_work t c s s' r (ground arith))
    | inl current ↦ same_version-Settled p t s s' r (ground arith)
  ]
]

reconcile-Settled :
    (p : Ports) (c : QueueCandidate) (s s' : Tables) (r : ClaimResult)
    → Keyed s
    → reconcile p c s ≡ ok (r, s')
    → Settled c.task_id r s'
unfolding reconcile
reconcile-Settled p c s s' r k h =
    let (t, s1, locked, h1) = after-eq_ok (target (lock_task c.task_id) s) _ h in
    subst (λ id. Settled id r s')
      (k.task_key c.task_id t (target-lock_task s s1 c.task_id t locked).0)
      (reconcile_task-Settled p c t s1 s' r h1)

pub execute-ok :
    {A : Type 0} (m : Tx Tables A) (s s' : Tables) (r : A)
    → execute m s ≡ (ok r, s')
    → m s ≡ ok (r, s')
unfolding execute
execute-ok m s s' r h = ground arith

reconcile_miss-Settled :
    (p : Ports) (c : QueueCandidate) (s s' : Tables) (r : ClaimResult)
    → Keyed s
    → reconcile_miss p c s ≡ (ok r, s')
    → Settled c.task_id r s'
unfolding reconcile_miss
reconcile_miss-Settled p c s s' r k h =
    elim (Bool-cases (text_eq c.task_id "" || not (execution_version_valid c.execution_version))) [
      | inl none_given ↦ absurd (ground arith)
      | inr given ↦
          reconcile-Settled p c s s' r k (execute-ok (reconcile p c) s s' r (ground arith))
    ]

pub lock_next-same :
    (id_before : String → String → Bool) (s s1 : Tables) (c : QueueCandidate)
    → lock_next_queue_candidate id_before s ≡ ok (c, s1)
    → s1 ≡ s
unfolding lock_next_queue_candidate
lock_next-same id_before s s1 c h = ground arith

module _ (first again : Ports) (between : Tables → Tables) (worker : String) (s s' : Tables)
    (r : ClaimResult) (k : Keyed s) (kb : Keyed (between s)) where
  after_first-Settled :
      (c : QueueCandidate) (x : Result (ClaimResult × Tables))
      → claim_candidate first worker c s ≡ x
      → after_first again between c (execute (claim_candidate first worker c) s) ≡ (ok r, s')
      → Settled c.task_id r s'
  unfolding after_first execute
  after_first-Settled c (ok (r1, s1)) e h =
      inr (claim_candidate-Unqueued first worker c s s' r k (ground arith))
  after_first-Settled c (err TxError.condition_miss) e h =
      reconcile_miss-Settled again c (between s) s' r kb (ground arith)
  after_first-Settled c (err _) e h = absurd (ground arith)

  -- What a success says of the head of the queue at the start.
  abbrev HeadSettled : Type 0
  HeadSettled =
      (r ≡ ClaimResult.no_work)
      ⊎ ((c : QueueCandidate) × (lock_next_queue_candidate first.id_before s ≡ ok (c, s))
          × Unqueued c.task_id s')

  head-Settled :
      (x : Result (QueueCandidate × Tables))
      → lock_next_queue_candidate first.id_before s ≡ x
      → claim_head first again between worker s x ≡ (ok r, s')
      → HeadSettled
  unfolding claim_head
  head-Settled (err TxError.not_found) e h = inl (ground arith)
  head-Settled (err _) e h = absurd (ground arith)
  head-Settled (ok (c, s1)) e h = elim (after_first-Settled c _ refl h) [
    | inl none_left ↦ inl none_left
    | inr out ↦ inr (c, e ∙ ap (λ x. ok (c, x)) (lock_next-same first.id_before s s1 c e), out)
  ]

  -- A successful ClaimNextExecution returns NoWork, or the task that was at the head of the queue is
  -- no longer queued when it returns: whether claimed, terminalized or interrupted, in the first
  -- transaction or in the second.
  pub claim_next_execution-Unqueued :
      (runtime_worker : String)
      → claim_next_execution first again between runtime_worker worker s ≡ (ok r, s')
      → (r ≡ ClaimResult.no_work)
        ⊎ ((c : QueueCandidate) × (lock_next_queue_candidate first.id_before s ≡ ok (c, s))
            × Unqueued c.task_id s')
  unfolding claim_next_execution
  claim_next_execution-Unqueued runtime_worker h =
      elim (Bool-cases (text_eq worker "" || not (text_eq worker runtime_worker))) [
        | inl refused ↦ absurd (ground arith)
        | inr own ↦ head-Settled _ refl (ground arith)
      ]
