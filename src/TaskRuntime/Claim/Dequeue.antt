-- ===== src/TaskRuntime/Claim/Dequeue.antt =====
-- What each settlement of a claim leaves of its task in the queue.
use agentops_go.Prelude.{
  ℕ, String, Bool, true, false, Option, none, some, ◌≡◌, refl, arith, ltb, not, is_none,
  Option-cases, inl, inr,
}
use agentops_go.Contracts.Status.{TaskStatus}
use agentops_go.Contracts.Codes.{ErrorCode, InvariantCode, TerminationReason}
use agentops_go.Contracts.Execution.{ClaimResult}
use agentops_go.TaskRuntime.Entity.{Task, TaskUpdate, QueueCandidate}
use agentops_go.TaskRuntime.Store.{update_task}
use agentops_go.TaskRuntime.Store.Transaction.{Tx, Tables, ◌>>=◌}
use agentops_go.TaskRuntime.Store.Updates.{text_eq_refl}
use agentops_go.TaskRuntime.Store.Blocks.{
  Ensures, Keeps, Ensures-last, Ensures-first, Keeps-bind, Keeps-pure, Ensures-if,
}
use agentops_go.TaskRuntime.Ports.{
  Ports, RuntimeCheckpoint, ClaimCheckpointSource, ensure_pending_report,
  save_generate_plan_checkpoint, ask,
}
use agentops_go.TaskRuntime.Claim.{
  ClaimFacts, Classified, source, violated, lifecycle_check, must_match, validate_claim_facts,
  classify_claim_source, validated_claim_checkpoint,
}
use agentops_go.TaskRuntime.Claim.Writes.{
  task_update, started_task, check_start, start_execution, start_run, start_task, commit_claim,
  interrupt_execution, interrupt_task, interrupt_config_mismatch, fail_execution, fail_run,
  fail_task, terminalize_claim,
}
use agentops_go.TaskRuntime.Claim.Service.{
  data_inconsistent, expired, checkpoint_invalid, save_first_checkpoint, claimed, config_gate,
  interrupted, checkpoint_gate, settle, current_hash, hash_checked, same_hashes,
}

unqueued : Option Task → Bool
unqueued none = false
unqueued (some t) = is_none t.queued_at

-- The task is there, and not in the queue.
pub Unqueued : String → Tables → Type 0
unfolding unqueued
Unqueued id s = unqueued (s.task id) ≡ true

module _ (f : ClaimFacts) where
  matched-Unqueued :
      (u : TaskUpdate)
      → u.queued_at ≡ none
      → Ensures (Unqueued u.task_id) (update_task u >>= must_match)
  unfolding Unqueued update_task must_match
  matched-Unqueued u h = record { at = λ s k. ground (arith, text_eq_refl u.task_id) }

  fail_task-Unqueued :
      (now : ℕ) (code : ErrorCode) → Ensures (Unqueued f.task.task_id) (fail_task f now code)
  unfolding fail_task
  fail_task-Unqueued now code = Ensures-last (lifecycle_check _) _ λ _.
      matched-Unqueued (task_update f TaskStatus.failed (some code) f.task.started_at (some now))
        refl

  interrupt_task-Unqueued : Ensures (Unqueued f.task.task_id) (interrupt_task f)
  unfolding interrupt_task
  interrupt_task-Unqueued = Ensures-last (lifecycle_check _) _ λ _.
      matched-Unqueued
        (task_update f TaskStatus.interrupted (some ErrorCode.config_version_mismatch)
          f.task.started_at f.task.ended_at)
        refl

  started-Unqueued :
      (now : ℕ) (pending : Bool)
      → Ensures (Unqueued f.task.task_id) (update_task (started_task f now pending) >>= must_match)
  started-Unqueued now true = matched-Unqueued (started_task f now true) refl
  started-Unqueued now false = matched-Unqueued (started_task f now false) refl

  start_task-Unqueued : (now : ℕ) → Ensures (Unqueued f.task.task_id) (start_task f now)
  unfolding start_task
  start_task-Unqueued now = Ensures-last (check_start f _) _ λ _. started-Unqueued now _

  ensure_pending_report-Unqueued :
      (p : Ports) (id task run : String) (now : ℕ)
      → Keeps (Unqueued id) (ensure_pending_report p task run now)
  unfolding ensure_pending_report Unqueued
  ensure_pending_report-Unqueued p id task run now = record { at = λ s u h. ground arith }

  terminalize_claim-Unqueued :
      (p : Ports) (now : ℕ) (code : ErrorCode) (invariant : Option InvariantCode)
      (reason : Option TerminationReason)
      → Ensures (Unqueued f.task.task_id) (terminalize_claim p f now code invariant reason)
  unfolding terminalize_claim
  terminalize_claim-Unqueued p now code invariant reason =
      Ensures-last (fail_execution f now code invariant reason) _ λ _.
        Ensures-last (fail_run f now code) _ λ _.
          Ensures-first (fail_task f now code) _ (fail_task-Unqueued now code)
            λ _. ensure_pending_report-Unqueued p f.task.task_id f.task.task_id f.run.run_id now

  interrupt_config_mismatch-Unqueued :
      (p : Ports) (now : ℕ) (observed : String)
      → Ensures (Unqueued f.task.task_id) (interrupt_config_mismatch p f now observed)
  unfolding interrupt_config_mismatch
  interrupt_config_mismatch-Unqueued p now observed =
      Ensures-last (interrupt_execution f now observed) _ λ _.
        Ensures-first (interrupt_task f) _ interrupt_task-Unqueued
          λ _. ensure_pending_report-Unqueued p f.task.task_id f.task.task_id f.run.run_id now

  commit_claim-Unqueued :
      (now : ℕ) (worker : String) → Ensures (Unqueued f.task.task_id) (commit_claim f now worker)
  unfolding commit_claim
  commit_claim-Unqueued now worker =
      Ensures-last (start_execution f now worker) _
        λ _. Ensures-last (start_run f now) _ λ _. start_task-Unqueued now

  save_first_checkpoint-Unqueued :
      (p : Ports) (src : ClaimCheckpointSource) (k : RuntimeCheckpoint)
      → Keeps (Unqueued f.task.task_id) (save_first_checkpoint p f src k)
  unfolding save_first_checkpoint save_generate_plan_checkpoint Unqueued
  save_first_checkpoint-Unqueued p src k = record { at = λ s u h. ground arith }

  pub claimed-Unqueued :
      (p : Ports) (worker : String) (now : ℕ) (src : ClaimCheckpointSource) (k : RuntimeCheckpoint)
      → Ensures (Unqueued f.task.task_id) (claimed p worker f now src k)
  unfolding claimed
  claimed-Unqueued p worker now src k =
      Ensures-first (commit_claim f now worker) _ (commit_claim-Unqueued now worker) λ _.
        Keeps-bind (save_first_checkpoint p f src k) _ (save_first_checkpoint-Unqueued p src k)
          λ _. Keeps-pure _

  data_inconsistent-Unqueued :
      (p : Ports) (now : ℕ) (code : InvariantCode)
      → Ensures (Unqueued f.task.task_id) (data_inconsistent p f now code)
  unfolding data_inconsistent
  data_inconsistent-Unqueued p now code =
      Ensures-first (terminalize_claim p f now _ _ _) _
        (terminalize_claim-Unqueued p now ErrorCode.data_inconsistent (some code) none)
        λ _. Keeps-pure _

  expired-Unqueued : (p : Ports) (now : ℕ) → Ensures (Unqueued f.task.task_id) (expired p f now)
  unfolding expired
  expired-Unqueued p now =
      Ensures-first (terminalize_claim p f now _ _ _) _
        (terminalize_claim-Unqueued p now ErrorCode.task_timeout none
          (some TerminationReason.timed_out))
        λ _. Keeps-pure _

  checkpoint_invalid-Unqueued :
      (p : Ports) (now : ℕ) → Ensures (Unqueued f.task.task_id) (checkpoint_invalid p f now)
  unfolding checkpoint_invalid
  checkpoint_invalid-Unqueued p now =
      Ensures-first (terminalize_claim p f now _ _ _) _
        (terminalize_claim-Unqueued p now ErrorCode.checkpoint_invalid none none) λ _. Keeps-pure _

  interrupted-Unqueued :
      (p : Ports) (now : ℕ) (current : String)
      → Ensures (Unqueued f.task.task_id) (interrupted p f now current)
  unfolding interrupted
  interrupted-Unqueued p now current =
      Ensures-first (interrupt_config_mismatch p f now current) _
        (interrupt_config_mismatch-Unqueued p now current) λ _. Keeps-pure _

  module _ (p : Ports) (now : ℕ)
      (agreed : ClaimCheckpointSource → RuntimeCheckpoint → Tx Tables ClaimResult)
      (out : (src : ClaimCheckpointSource) (k : RuntimeCheckpoint)
        → Ensures (Unqueued f.task.task_id) (agreed src k)) where
    config_gate-Unqueued :
        (src : ClaimCheckpointSource) (k : RuntimeCheckpoint)
        → Ensures (Unqueued f.task.task_id) (config_gate p f now k (agreed src k))
    unfolding config_gate
    config_gate-Unqueued src k = Ensures-last (current_hash p f.task) _ λ current.
        Ensures-last (hash_checked f) _ λ _.
          Ensures-if (same_hashes f k current) _ _ (out src k) (interrupted-Unqueued p now current)

    checked-Unqueued :
        (src : ClaimCheckpointSource) (o : Option RuntimeCheckpoint)
        → Ensures (Unqueued f.task.task_id) (elim o as (λ _. Tx Tables ClaimResult) [
          | none ↦ checkpoint_invalid p f now
          | some k ↦ config_gate p f now k (agreed src k)
        ])
    checked-Unqueued src none = checkpoint_invalid-Unqueued p now
    checked-Unqueued src (some k) = config_gate-Unqueued src k

    checkpoint_gate-Unqueued :
        (c : Classified) → Ensures (Unqueued f.task.task_id) (checkpoint_gate p f now agreed c)
    unfolding checkpoint_gate
    checkpoint_gate-Unqueued (violated code) = data_inconsistent-Unqueued p now code
    checkpoint_gate-Unqueued (source src) =
        Ensures-last (ask (p.load_latest_for_claim _ _ _ src)) _ λ answer.
          Ensures-last (ask (validated_claim_checkpoint answer f)) _
            λ checked. checked-Unqueued src checked

    pub settle-Unqueued :
        (c : QueueCandidate) → Ensures (Unqueued f.task.task_id) (settle p c f now agreed)
    unfolding settle
    settle-Unqueued c = elim (Option-cases (validate_claim_facts c f)) [
      | inr (code, e) ↦ rw (e, settle) (data_inconsistent-Unqueued p now code)
      | inl e ↦
          rw (e, settle)
            (Ensures-if (not (ltb now f.task.deadline_at)) _ _ (expired-Unqueued p now)
              (checkpoint_gate-Unqueued (classify_claim_source f)))
    ]
