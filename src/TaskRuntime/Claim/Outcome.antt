-- ===== src/TaskRuntime/Claim/Outcome.antt =====
-- When the head of the queue is claimed, and what the tables hold then.
use agentops_go.Prelude.{
  ℕ, String, List, ◌∷◌, Bool, true, false, ◌≡◌, ap, ◌∙◌, arith, if◌then◌else◌, not, ◌||◌, ◌&&◌,
  is_none, text_eq, Bool-cases, inl, inr,
}
use agentops_go.Contracts.Status.{TaskStatus, task_status_eq}
use agentops_go.Contracts.Execution.{ClaimResult}
use agentops_go.TaskRuntime.Entity.{QueueCandidate}
use agentops_go.TaskRuntime.Store.Transaction.{ok, Tables, PortWrite, execute}
use agentops_go.TaskRuntime.Ports.{
  Ports, RuntimeCheckpoint, ClaimCheckpointSource, save_generate_plan_checkpoint,
}
use agentops_go.TaskRuntime.Claim.{ClaimFacts}
use agentops_go.TaskRuntime.Claim.Writes.{commit_claim}
use agentops_go.TaskRuntime.Claim.Service.{
  claimed, claim_candidate, same_hashes, interrupted, save_first_checkpoint, is_initial,
}
use agentops_go.TaskRuntime.Claim.Reconcile.{claim_next_execution, claim_head, after_first}
use agentops_go.TaskRuntime.Store.Queue.{lock_next_queue_candidate}
use agentops_go.TaskRuntime.Store.Updates.{text_eq_refl}
use agentops_go.TaskRuntime.Claim.Settlements.{claimed_tables, commit_claim_lem}
use agentops_go.TaskRuntime.Claim.Progress.{Keyed}
use agentops_go.TaskRuntime.Claim.Commit.{
  Due, Checked, Agree-valid, ValidFacts-valid, Locked-rows, claim_candidate_lem,
}
use agentops_go.TaskRuntime.Claim.Claimed.{first_checkpoint, ClaimedBy, saved-ClaimedBy, claim}

-- The candidate is the head of the queue for a transaction of the Runtime's own worker, over rows that
-- stand under their keys.
pub record Head (p : Ports) (worker : String) (s : Tables) (c : QueueCandidate) : Type 0 where
  pub keyed : Keyed s
  pub named : text_eq worker "" ≡ false
  pub first : lock_next_queue_candidate p.id_before s ≡ ok (c, s)

save_lem :
    (p : Ports) (w : PortWrite) (s : Tables)
    → p.save_generate_plan w ≡ ok tt
    → save_generate_plan_checkpoint p w s ≡ ok (tt, record s { checkpoints = w ∷ s.checkpoints })
unfolding save_generate_plan_checkpoint
save_lem p w s h = rw (h, save_generate_plan_checkpoint)

module _ (p again : Ports) (between : Tables → Tables) (worker : String) (s : Tables)
    (c : QueueCandidate) (f : ClaimFacts) (now : ℕ) (head : Head p worker s c) where
  admitted :
      claim_next_execution p again between worker worker s
      ≡ claim_head p again between worker s (lock_next_queue_candidate p.id_before s)
  unfolding claim_next_execution
  admitted = ground (arith, head.named, text_eq_refl worker)

  executed :
      (r : ClaimResult) (s' : Tables)
      → claim_candidate p worker c s ≡ ok (r, s')
      → execute (claim_candidate p worker c) s ≡ (ok r, s')
  unfolding execute
  executed r s' h = rw (h, execute)

  pub settled_head :
      (r : ClaimResult) (s' : Tables)
      → claim_candidate p worker c s ≡ ok (r, s')
      → claim_next_execution p again between worker worker s ≡ (ok r, s')
  unfolding claim_head after_first
  settled_head r s' h =
      admitted
      ∙ ap (claim_head p again between worker s) head.first
      ∙ ap (after_first again between c) (executed r s' h)

  saved_first :
      (src : ClaimCheckpointSource) (k : RuntimeCheckpoint) (s1 : Tables)
      → ((w : PortWrite) → p.save_generate_plan w ≡ ok tt)
      → (cs : List PortWrite) × (save_first_checkpoint p f src k s1
          ≡ ok (tt, record s1 { checkpoints = cs }))
  unfolding save_first_checkpoint
  saved_first src k s1 accepted =
      let w = first_checkpoint worker s f now in
      elim (Bool-cases
        (is_none f.run.plan_id && (is_initial src || not (is_none k.source_execution_version)))) [
          | inl first ↦ (w ∷ s1.checkpoints, rw first (save_lem p w s1 (accepted w)))
          | inr later ↦ (s1.checkpoints, rw later)
        ]

  claimed_lem :
      (src : ClaimCheckpointSource) (k : RuntimeCheckpoint) (s1 : Tables) (cs : List PortWrite)
      → commit_claim f now worker s ≡ ok (tt, s1)
      → save_first_checkpoint p f src k s1 ≡ ok (tt, record s1 { checkpoints = cs })
      → claimed p worker f now src k s ≡ ok (claim worker s f now, record s1 { checkpoints = cs })
  unfolding claimed
  claimed_lem src k s1 cs committed saved = rw committed (rw saved)

  -- A candidate at the head of the queue that is due, with a valid checkpoint and with all three
  -- hashes equal, is claimed, if its checkpoint can be saved.
  pub claim_next_execution-claims :
      (src : ClaimCheckpointSource) (k : RuntimeCheckpoint) (current : String) (pending : Bool)
      → Due p s c f now
      → Checked p f src k current
      → same_hashes f k current ≡ true
      → ((w : PortWrite) → p.save_generate_plan w ≡ ok tt)
      → task_status_eq f.task.status TaskStatus.pending ≡ pending
      → (s' : Tables) × (claim_next_execution p again between worker worker s
          ≡ (ok (claim worker s f now), s'))
        × ClaimedBy worker s f now pending s'
  claim_next_execution-claims src k current pending due checked same accepted e =
      let v = ValidFacts-valid c f due.valid in
      let l = Locked-rows s c f head.keyed due.locked v in
      let s1 = claimed_tables s f now worker pending in
      let (cs, saved) = saved_first src k s1 accepted in
      let committed =
        commit_claim_lem s f now worker pending l v.execution_queued
          (Agree-valid c f pending e due.valid) in
      (
        record s1 { checkpoints = cs },
        settled_head (claim worker s f now) (record s1 { checkpoints = cs })
            (claim_candidate_lem p s c f now due src k current checked worker
              ∙ ap
                  (λ b. (if b then claimed p worker f now src k else interrupted p f now current) s)
                  same
              ∙ claimed_lem src k s1 cs committed saved),
        saved-ClaimedBy worker s f now pending cs l,
      )
