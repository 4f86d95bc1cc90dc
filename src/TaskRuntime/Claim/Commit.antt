-- ===== src/TaskRuntime/Claim/Commit.antt =====
-- What the locked facts of a candidate are, and how a due candidate gets to the comparison of the
-- configuration hashes.
use agentops_go.Prelude.{
  ℕ, String, Bool, true, false, none, some, ◌≡◌, ◌<◌, refl, sym, subst, ap, ◌∙◌, arith,
  if◌then◌else◌, text_eq_iff, ltb,
}
use agentops_go.Contracts.Status.{TaskStatus, ExecutionStatus, task_status_eq}
use agentops_go.Contracts.Execution.{ClaimResult}
use agentops_go.Contracts.Hash.{hash_valid}
use agentops_go.Lifecycle.{can_task_transition, can_run_transition, can_execution_transition}
use agentops_go.TaskRuntime.Entity.{QueueCandidate}
use agentops_go.TaskRuntime.Store.Transaction.{Tx, Result, ok, Tables, after}
use agentops_go.TaskRuntime.Ports.{
  Ports, AgentRuntimeConfig, RuntimeCheckpoint, ClaimCheckpointSource, ClaimCheckpointResult, ask,
}
use agentops_go.TaskRuntime.Claim.{
  ClaimFacts, source, lock_claim_facts, validate_claim_facts, classify_claim_source,
  checkpoint_matches, validated_claim_checkpoint,
}
use agentops_go.TaskRuntime.Claim.Service.{
  settle, claimed, claim_candidate, checkpoint_gate, config_gate, current_hash, hash_checked,
  same_hashes, interrupted,
}
use agentops_go.TaskRuntime.Claim.Effects.{Locked}
use agentops_go.TaskRuntime.Claim.Settlements.{Agree, CanFail}
use agentops_go.TaskRuntime.Claim.Progress.{Keyed, lock_claim_facts_lem}

pub Agree-valid :
    (c : QueueCandidate) (f : ClaimFacts) (pending : Bool)
    → task_status_eq f.task.status TaskStatus.pending ≡ pending
    → validate_claim_facts c f ≡ none
    → Agree f pending
unfolding validate_claim_facts
Agree-valid c f true e v = ground arith
Agree-valid c f false e v = ground arith

-- What a valid candidate says of its facts.
pub record ValidFacts (f : ClaimFacts) : Type 0 where
  pub execution_queued : f.execution.status ≡ ExecutionStatus.queued
  pub current_version : f.task.current_execution_version ≡ f.execution.execution_version
  pub current_run : f.task.current_run_id ≡ f.run.run_id

pub ValidFacts-valid :
    (c : QueueCandidate) (f : ClaimFacts) → validate_claim_facts c f ≡ none → ValidFacts f
unfolding validate_claim_facts
ValidFacts-valid c f v = record {
  execution_queued = ground arith;
  current_version = ground arith;
  current_run = ground (arith, text_eq_iff f.run.run_id f.task.current_run_id);
}

pub Locked-rows :
    (s : Tables) (c : QueueCandidate) (f : ClaimFacts)
    → Keyed s
    → lock_claim_facts c s ≡ ok (f, s)
    → ValidFacts f
    → Locked s f
Locked-rows s c f k h v =
    let rows = lock_claim_facts_lem s s c f h in
    let key = sym (k.task_key c.task_id f.task rows.0) in
    record {
      task_at = subst (λ id. s.task id ≡ some f.task) key rows.0;
      run_at = subst (λ id. s.run id ≡ some f.run) key rows.1;
      execution_at =
          subst (λ n. s.execution f.task.task_id n ≡ some f.execution) v.current_version
            (subst (λ id. s.execution id f.task.current_execution_version ≡ some f.execution) key
              rows.2);
      current_version = v.current_version;
      current_run = v.current_run;
    }

pub CanFail-valid :
    (c : QueueCandidate) (f : ClaimFacts) → validate_claim_facts c f ≡ none → CanFail f
unfolding validate_claim_facts can_task_transition can_run_transition can_execution_transition
CanFail-valid c f v = record { execution = ground arith; run = ground arith; task = ground arith }

-- A locked candidate whose facts are in order, with the time of the transaction before the deadline.
pub record Due (p : Ports) (s : Tables) (c : QueueCandidate) (f : ClaimFacts) (now : ℕ)
    : Type 0 where
  pub locked : lock_claim_facts c s ≡ ok (f, s)
  pub clock : p.now ≡ ok now
  pub valid : validate_claim_facts c f ≡ none
  pub in_time : now < f.task.deadline_at

-- A valid checkpoint is loaded for the source of the claim, and the current configuration can be
-- hashed.
pub record Checked (p : Ports) (f : ClaimFacts) (src : ClaimCheckpointSource)
    (k : RuntimeCheckpoint) (current : String) : Type 0 where
  pub classified : classify_claim_source f ≡ source src
  pub loaded :
      p.load_latest_for_claim f.task.task_id f.run.run_id f.execution.execution_version src
      ≡ ok (ClaimCheckpointResult.valid k)
  pub matches : checkpoint_matches k f ≡ true
  pub agent : AgentRuntimeConfig
  pub configured : p.lookup_agent f.task.agent_id ≡ some agent
  pub enabled : agent.enabled ≡ true
  pub same_agent : agent.agent_id ≡ f.task.agent_id
  pub hashed : p.hash_execution_config agent ≡ ok current
  pub hash_ok : hash_valid f.execution.execution_config_hash ≡ true

current_hash_lem :
    (p : Ports) (s : Tables) (f : ClaimFacts) (src : ClaimCheckpointSource) (k : RuntimeCheckpoint)
    (current : String)
    → Checked p f src k current
    → current_hash p f.task s ≡ ok (current, s)
unfolding current_hash
current_hash_lem p s f src k current h =
    ground (arith, h.configured, h.hashed, text_eq_iff h.agent.agent_id f.task.agent_id)

config_gate_lem :
    (p : Ports) (s : Tables) (f : ClaimFacts) (now : ℕ) (src : ClaimCheckpointSource)
    (k : RuntimeCheckpoint) (current : String) (agreed : Tx Tables ClaimResult)
    → Checked p f src k current
    → config_gate p f now k agreed s
      ≡ (if same_hashes f k current then agreed else interrupted p f now current) s
unfolding config_gate hash_checked
config_gate_lem p s f now src k current agreed h =
    rw (current_hash_lem p s f src k current h) (rw h.hash_ok)

-- A port that answers is no obstacle.
pub after-ask :
    {A : Type 0} (r : Result A) (a : A) (s : Tables) (k : A → Tx Tables ClaimResult)
    → r ≡ ok a
    → after (ask r s) k ≡ k a s
after-ask r a s k h = ap (λ x. after (ask x s) k) h

module _ (p : Ports) (s : Tables) (c : QueueCandidate) (f : ClaimFacts) (now : ℕ)
    (d : Due p s c f now) where
  early : ltb now f.task.deadline_at ≡ true
  early = ground (arith, d.in_time)

  settle_lem :
      (agreed : ClaimCheckpointSource → RuntimeCheckpoint → Tx Tables ClaimResult)
      → settle p c f now agreed s ≡ checkpoint_gate p f now agreed (classify_claim_source f) s
  unfolding settle
  settle_lem agreed = rw (d.valid, settle) (rw early)

  due_candidate :
      (worker : String)
      → claim_candidate p worker c s
        ≡ checkpoint_gate p f now (claimed p worker f now) (classify_claim_source f) s
  unfolding claim_candidate
  due_candidate worker =
      rw d.locked (after-ask p.now now s _ d.clock ∙ settle_lem (claimed p worker f now))

  module _ (src : ClaimCheckpointSource) (k : RuntimeCheckpoint) (current : String)
      (h : Checked p f src k current) where
    valid_checkpoint : validated_claim_checkpoint (ClaimCheckpointResult.valid k) f ≡ ok (some k)
    unfolding validated_claim_checkpoint
    valid_checkpoint = rw h.matches refl

    checked_candidate :
        (agreed : ClaimCheckpointSource → RuntimeCheckpoint → Tx Tables ClaimResult)
        → checkpoint_gate p f now agreed (classify_claim_source f) s
          ≡ config_gate p f now k (agreed src k) s
    unfolding checkpoint_gate
    checked_candidate agreed =
        rw h.classified (after-ask _ _ s _ h.loaded ∙ after-ask _ _ s _ valid_checkpoint)

    -- Behind a due and checked candidate stands the comparison of the hashes.
    pub claim_candidate_lem :
        (worker : String)
        → claim_candidate p worker c s
          ≡ (if same_hashes f k current
                then claimed p worker f now src k
                else interrupted p f now current)
              s
    claim_candidate_lem worker =
        due_candidate worker
        ∙ checked_candidate (claimed p worker f now)
        ∙ config_gate_lem p s f now src k current (claimed p worker f now src k) h
