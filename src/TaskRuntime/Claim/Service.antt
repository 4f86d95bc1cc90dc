-- ===== src/TaskRuntime/Claim/Service.antt =====
-- internal/taskruntime/claim.go: `ClaimNextExecution`, up to the end of its first transaction.
use agentops_go.Prelude.{
  ℕ, String, Bool, true, false, not, ◌&&◌, ◌||◌, none, some, ltb, if◌then◌else◌, text_eq, is_none,
}
use agentops_go.Contracts.Codes.{ErrorCode, InvariantCode, TerminationReason}
use agentops_go.Contracts.Execution.{ClaimResult}
use agentops_go.Contracts.Hash.{hash_valid}
use agentops_go.TaskRuntime.Entity.{Task, QueueCandidate}
use agentops_go.TaskRuntime.Store.Transaction.{Tx, TxError, pure, fail, ◌>>=◌, ◌>>◌, Tables}
use agentops_go.TaskRuntime.Ports.{
  Ports, RuntimeCheckpoint, ClaimCheckpointSource, ask, save_generate_plan_checkpoint,
}
use agentops_go.TaskRuntime.Claim.{
  ClaimFacts, Classified, source, violated, lock_claim_facts, validate_claim_facts,
  classify_claim_source, validated_claim_checkpoint,
}
use agentops_go.TaskRuntime.Claim.Writes.{
  commit_claim, interrupt_config_mismatch, terminalize_claim,
}

-- The three terminal ways out of a claim.
unfoldable pub data_inconsistent : Ports → ClaimFacts → ℕ → InvariantCode → Tx Tables ClaimResult
data_inconsistent p f now code = do
  terminalize_claim p f now ErrorCode.data_inconsistent (some code) none
  pure ClaimResult.data_inconsistent_terminalized

unfoldable pub expired : Ports → ClaimFacts → ℕ → Tx Tables ClaimResult
expired p f now = do
  terminalize_claim p f now ErrorCode.task_timeout none (some TerminationReason.timed_out)
  pure ClaimResult.expired_terminalized

unfoldable pub checkpoint_invalid : Ports → ClaimFacts → ℕ → Tx Tables ClaimResult
checkpoint_invalid p f now = do
  terminalize_claim p f now ErrorCode.checkpoint_invalid none none
  pure ClaimResult.checkpoint_invalid_terminalized

unfoldable pub is_initial : ClaimCheckpointSource → Bool
is_initial ClaimCheckpointSource.initial = true
is_initial ClaimCheckpointSource.continuation = false

-- The checkpoint of a first GENERATE_PLAN, where the plan is still to be made.
unfoldable pub save_first_checkpoint :
    Ports → ClaimFacts → ClaimCheckpointSource → RuntimeCheckpoint → Tx Tables (Unit {0})
unfolding is_initial
save_first_checkpoint p f src k =
    if is_none f.run.plan_id && (is_initial src || not (is_none k.source_execution_version))
    then save_generate_plan_checkpoint p (record {
      task_id = f.task.task_id;
      run_id = f.run.run_id;
      execution_version = f.execution.execution_version;
      execution_config_hash = f.execution.execution_config_hash;
    })
    else pure tt

unfoldable pub claimed :
    Ports
    → String
    → ClaimFacts
    → ℕ
    → ClaimCheckpointSource
    → RuntimeCheckpoint
    → Tx Tables ClaimResult
claimed p worker f now src k = do
  commit_claim f now worker
  save_first_checkpoint p f src k
  pure (
      ClaimResult.claimed (record {
        task_id = f.task.task_id;
        run_id = f.run.run_id;
        execution_version = f.execution.execution_version;
        worker_id = worker;
        claimed_at = now;
      }))

-- The hash of the current configuration, if the agent is configured and enabled.
unfoldable pub current_hash : Ports → Task → Tx Tables String
current_hash p t = elim (p.lookup_agent t.agent_id) [
  | none ↦ fail TxError.config_unavailable
  | some a ↦
      if not a.enabled || not (text_eq a.agent_id t.agent_id)
      then fail TxError.config_unavailable
      else ask (p.hash_execution_config a)
]

unfoldable pub hash_checked : ClaimFacts → Tx Tables (Unit {0})
hash_checked f =
    if hash_valid f.execution.execution_config_hash
    then pure tt
    else fail TxError.persistence_invariant_violation

unfoldable pub same_hashes : ClaimFacts → RuntimeCheckpoint → String → Bool
same_hashes f k current =
    text_eq f.execution.execution_config_hash k.execution_config_hash
    && text_eq f.execution.execution_config_hash current

unfoldable pub interrupted : Ports → ClaimFacts → ℕ → String → Tx Tables ClaimResult
interrupted p f now current = do
  interrupt_config_mismatch p f now current
  pure ClaimResult.config_mismatch_interrupted

-- The configuration gate, with what follows when all hashes agree.
unfoldable pub config_gate :
    Ports → ClaimFacts → ℕ → RuntimeCheckpoint → Tx Tables ClaimResult → Tx Tables ClaimResult
config_gate p f now k agreed = do
  current ← current_hash p f.task
  hash_checked f
  if same_hashes f k current then agreed else interrupted p f now current

-- What both transactions do with the locked facts. `agreed` is what follows when the candidate is
-- due, its checkpoint valid and its configuration unchanged.
unfoldable pub checkpoint_gate :
    Ports
    → ClaimFacts
    → ℕ
    → (ClaimCheckpointSource → RuntimeCheckpoint → Tx Tables ClaimResult)
    → Classified
    → Tx Tables ClaimResult
checkpoint_gate p f now agreed (violated code) = data_inconsistent p f now code
checkpoint_gate p f now agreed (source src) = do
  answer ←
      ask (p.load_latest_for_claim f.task.task_id f.run.run_id f.execution.execution_version src)
  checked ← ask (validated_claim_checkpoint answer f)
  elim checked [ none ↦ checkpoint_invalid p f now | some k ↦ config_gate p f now k (agreed src k) ]

unfoldable pub settle :
    Ports
    → QueueCandidate
    → ClaimFacts
    → ℕ
    → (ClaimCheckpointSource → RuntimeCheckpoint → Tx Tables ClaimResult)
    → Tx Tables ClaimResult
settle p c f now agreed = elim (validate_claim_facts c f) [
  | some code ↦ data_inconsistent p f now code
  | none ↦
      if not (ltb now f.task.deadline_at)
      then expired p f now
      else checkpoint_gate p f now agreed (classify_claim_source f)
]

-- The first transaction, behind the locked candidate.
unfoldable pub claim_candidate : Ports → String → QueueCandidate → Tx Tables ClaimResult
claim_candidate p worker c = do
  f ← lock_claim_facts c
  now ← ask p.now
  settle p c f now (claimed p worker f now)
