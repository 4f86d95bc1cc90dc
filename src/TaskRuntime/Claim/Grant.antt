-- ===== src/TaskRuntime/Claim/Grant.antt =====
-- From a granted claim back to what its transaction found: rules for blocks, and the gates of a claim.
use agentops_go.Prelude.{
  ℕ, String, Bool, true, false, Option, none, some, ◌≡◌, ◌<◌, refl, subst, ap, ◌∙◌, arith,
  if◌then◌else◌, Option-cases, Bool-cases, inl, inr, ltb,
}
use agentops_go.Contracts.Codes.{ErrorCode, InvariantCode, TerminationReason}
use agentops_go.Contracts.Execution.{ClaimResult, ExecutionClaim}
use agentops_go.TaskRuntime.Entity.{QueueCandidate}
use agentops_go.TaskRuntime.Store.Transaction.{
  Tx, TxError, Result, ok, err, Tables, ◌>>=◌, pure, fail,
}
use agentops_go.TaskRuntime.Ports.{
  Ports, RuntimeCheckpoint, ClaimCheckpointSource, ClaimCheckpointResult, ask,
}
use agentops_go.TaskRuntime.Claim.{
  ClaimFacts, Classified, source, validate_claim_facts, classify_claim_source, checkpoint_matches,
  validated_claim_checkpoint,
}
use agentops_go.TaskRuntime.Claim.Writes.{terminalize_claim, interrupt_config_mismatch}
use agentops_go.TaskRuntime.Claim.Service.{
  settle, expired, checkpoint_gate, config_gate, current_hash, hash_checked, same_hashes,
  interrupted,
}
use agentops_go.TaskRuntime.Claim.{violated}
use agentops_go.TaskRuntime.Store.Blocks.{after-eq_ok}
use agentops_go.TaskRuntime.Claim.Service.{data_inconsistent, checkpoint_invalid, expired}

-- Every claim that `m` grants on the tables `s` has `R`.
pub record GrantsOnly (s : Tables) (R : ExecutionClaim → Tables → Type 0)
    (m : Tx Tables ClaimResult) : Type 0 where
  pub at : (k : ExecutionClaim) (s' : Tables) → m s ≡ ok (ClaimResult.claimed k, s') → R k s'

current_hash-same :
    (p : Ports) (s : Tables) (f : ClaimFacts) (current : String) (s1 : Tables)
    → current_hash p f.task s ≡ ok (current, s1)
    → s1 ≡ s
unfolding current_hash
current_hash-same p s f current s1 h = ground arith

hash_checked-same :
    (s : Tables) (f : ClaimFacts) (u : Unit {0}) (s1 : Tables)
    → hash_checked f s ≡ ok (u, s1)
    → s1 ≡ s
unfolding hash_checked
hash_checked-same s f u s1 h = ground arith

pub ask-same :
    {A : Type 0} (r : Result A) (s : Tables) (a : A) (s1 : Tables) → ask r s ≡ ok (a, s1) → s1 ≡ s
ask-same (ok a) s b s1 h = ground arith
ask-same (err e) s b s1 h = absurd (cc)

pub ask_answer : {A : Type 0} (r : Result A) (s : Tables) (a : A) → ask r s ≡ ok (a, s) → r ≡ ok a
ask_answer (ok b) s a h = ground arith
ask_answer (err e) s a h = absurd (cc)

valid_matches :
    (answer : ClaimCheckpointResult) (k : RuntimeCheckpoint) (f : ClaimFacts) (s : Tables)
    → ask (validated_claim_checkpoint answer f) s ≡ ok (some k, s)
    → (answer ≡ ClaimCheckpointResult.valid k) × (checkpoint_matches k f ≡ true)
unfolding validated_claim_checkpoint
valid_matches (ClaimCheckpointResult.valid j) k f s h = elim (Bool-cases (checkpoint_matches j f)) [
  | inl fits ↦
      let same : j ≡ k = ground arith in
      (ap ClaimCheckpointResult.valid same, subst (λ x. checkpoint_matches x f ≡ true) same fits)
  | inr bad ↦ absurd (ground arith)
]
valid_matches (ClaimCheckpointResult.invalid reason) k f s h = absurd (ground arith)
valid_matches ClaimCheckpointResult.foreign k f s h = absurd (ground arith)

-- What is known when the claim is agreed to: the checkpoint that the port answered for the source is
-- valid, and all hashes are equal.
pub record Agreed (p : Ports) (s : Tables) (f : ClaimFacts) (src : ClaimCheckpointSource)
    (k : RuntimeCheckpoint) : Type 0 where
  pub classified : classify_claim_source f ≡ source src
  pub loaded :
      p.load_latest_for_claim f.task.task_id f.run.run_id f.execution.execution_version src
      ≡ ok (ClaimCheckpointResult.valid k)
  pub matches : checkpoint_matches k f ≡ true
  pub current : String
  pub configured : current_hash p f.task s ≡ ok (current, s)
  pub same : same_hashes f k current ≡ true

is_claimed : ClaimResult → Bool
is_claimed (ClaimResult.claimed _) = true
is_claimed _ = false

module _ {s : Tables} {R : ExecutionClaim → Tables → Type 0} where
  -- What only reads leaves the tables to the rest.
  pub GrantsOnly-read :
      {A : Type 0} (m : Tx Tables A) (f : A → Tx Tables ClaimResult)
      → ((a : A) (s1 : Tables) → m s ≡ ok (a, s1) → s1 ≡ s)
      → ((a : A) → m s ≡ ok (a, s) → GrantsOnly s R (f a))
      → GrantsOnly s R (m >>= f)
  GrantsOnly-read m f same g = record {
    at = λ k s' h.
        let (a, s1, e, h1) = after-eq_ok (m s) f h in
        let back = same a s1 e in
        (g a (subst (λ x. m s ≡ ok (a, x)) back e)).at k s'
          (subst (λ x. f a x ≡ ok (ClaimResult.claimed k, s')) back h1);
  }

  -- A block that ends in another result grants nothing.
  GrantsOnly-other :
      (m : Tx Tables (Unit {0})) (r : ClaimResult)
      → is_claimed r ≡ false
      → GrantsOnly s R (m >>= λ _. pure r)
  unfolding is_claimed
  GrantsOnly-other m r other = record {
    at = λ k s' h. let (_, s1, _, h1) = after-eq_ok (m s) _ h in absurd (ground (arith, other));
  }

  GrantsOnly-if :
      (b : Bool) (m n : Tx Tables ClaimResult)
      → (b ≡ true → GrantsOnly s R m)
      → GrantsOnly s R n
      → GrantsOnly s R (if b then m else n)
  GrantsOnly-if true m n g h = g refl
  GrantsOnly-if false m n g h = h

  pub GrantsOnly-fail : (e : TxError) → GrantsOnly s R (fail e)
  GrantsOnly-fail e = record { at = λ k s' h. absurd (cc) }

  module _ (p : Ports) (f : ClaimFacts) (now : ℕ) where
    data_inconsistent-GrantsOnly :
        (code : InvariantCode) → GrantsOnly s R (data_inconsistent p f now code)
    unfolding data_inconsistent is_claimed
    data_inconsistent-GrantsOnly code =
        GrantsOnly-other (terminalize_claim p f now ErrorCode.data_inconsistent (some code) none) _
          refl

    expired-GrantsOnly : GrantsOnly s R (expired p f now)
    unfolding expired is_claimed
    expired-GrantsOnly =
        GrantsOnly-other
          (terminalize_claim p f now ErrorCode.task_timeout none (some TerminationReason.timed_out))
          _ refl

    checkpoint_invalid-GrantsOnly : GrantsOnly s R (checkpoint_invalid p f now)
    unfolding checkpoint_invalid is_claimed
    checkpoint_invalid-GrantsOnly =
        GrantsOnly-other (terminalize_claim p f now ErrorCode.checkpoint_invalid none none) _ refl

    interrupted-GrantsOnly : (current : String) → GrantsOnly s R (interrupted p f now current)
    unfolding interrupted is_claimed
    interrupted-GrantsOnly current =
        GrantsOnly-other (interrupt_config_mismatch p f now current) _ refl

    module _ (agreed : ClaimCheckpointSource → RuntimeCheckpoint → Tx Tables ClaimResult)
        (grants : (src : ClaimCheckpointSource) (k : RuntimeCheckpoint)
          → Agreed p s f src k
          → GrantsOnly s R (agreed src k)) where
      config_gate-GrantsOnly :
          (src : ClaimCheckpointSource) (k : RuntimeCheckpoint)
          → classify_claim_source f ≡ source src
          → (p.load_latest_for_claim f.task.task_id f.run.run_id f.execution.execution_version src
              ≡ ok (ClaimCheckpointResult.valid k))
          → checkpoint_matches k f ≡ true
          → GrantsOnly s R (config_gate p f now k (agreed src k))
      unfolding config_gate
      config_gate-GrantsOnly src k classified loaded matches =
          GrantsOnly-read (current_hash p f.task) _ (current_hash-same p s f) λ current configured.
            GrantsOnly-read (hash_checked f) _ (hash_checked-same s f) λ _ _.
              GrantsOnly-if (same_hashes f k current) _ _
                (λ same. grants src k (record {
                  classified = classified;
                  loaded = loaded;
                  matches = matches;
                  current = current;
                  configured = configured;
                  same = same;
                }))
                (interrupted-GrantsOnly current)

      checked-GrantsOnly :
          (src : ClaimCheckpointSource) (answer : ClaimCheckpointResult)
          (o : Option RuntimeCheckpoint)
          → classify_claim_source f ≡ source src
          → (p.load_latest_for_claim f.task.task_id f.run.run_id f.execution.execution_version src
              ≡ ok answer)
          → ask (validated_claim_checkpoint answer f) s ≡ ok (o, s)
          → GrantsOnly s R (elim o as (λ _. Tx Tables ClaimResult) [
            | none ↦ checkpoint_invalid p f now
            | some k ↦ config_gate p f now k (agreed src k)
          ])
      checked-GrantsOnly src answer none c l h = checkpoint_invalid-GrantsOnly
      checked-GrantsOnly src answer (some k) c l h =
          let (same, matches) = valid_matches answer k f s h in
          config_gate-GrantsOnly src k c (l ∙ ap ok same) matches

      checkpoint_gate-GrantsOnly :
          (c : Classified)
          → classify_claim_source f ≡ c
          → GrantsOnly s R (checkpoint_gate p f now agreed c)
      unfolding checkpoint_gate
      checkpoint_gate-GrantsOnly (violated code) e = data_inconsistent-GrantsOnly code
      checkpoint_gate-GrantsOnly (source src) e =
          GrantsOnly-read
            (ask (
              p.load_latest_for_claim f.task.task_id f.run.run_id f.execution.execution_version
                src))
            _ (ask-same _ s)
            λ answer loaded.
              GrantsOnly-read (ask (validated_claim_checkpoint answer f)) _ (ask-same _ s)
                λ checked h.
                  checked-GrantsOnly src answer checked e (ask_answer _ s answer loaded) h

    pub settle-GrantsOnly :
        (c : QueueCandidate)
        (agreed : ClaimCheckpointSource → RuntimeCheckpoint → Tx Tables ClaimResult)
        → ((src : ClaimCheckpointSource) (k : RuntimeCheckpoint)
            → validate_claim_facts c f ≡ none
            → now < f.task.deadline_at
            → Agreed p s f src k
            → GrantsOnly s R (agreed src k))
        → GrantsOnly s R (settle p c f now agreed)
    unfolding settle
    settle-GrantsOnly c agreed grants = elim (Option-cases (validate_claim_facts c f)) [
      | inr (code, e) ↦ rw (e, settle) (data_inconsistent-GrantsOnly code)
      | inl e ↦
          rw (e, settle)
            (elim (Bool-cases (ltb now f.task.deadline_at)) [
              | inr late ↦ rw late expired-GrantsOnly
              | inl early ↦ rw early (
                  checkpoint_gate-GrantsOnly agreed (λ src k. grants src k e (ground arith))
                    (classify_claim_source f) refl)
            ])
    ]
