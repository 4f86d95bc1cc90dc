-- ===== src/TaskRuntime/Recover/Course.antt =====
-- internal/taskruntime/recover.go: the way of a command that recovers.
use agentops_go.Prelude.{
  ℕ, suc, String, true, false, not, ◌||◌, Option, none, some, ltb, text_eq, ◌≡◌, ◌≢◌, refl, ap, ◌∙◌,
  inl, inr, Bool-cases, arith,
}
use agentops_go.Contracts.Status.{task_status_terminal}
use agentops_go.Contracts.Codes.{ErrorCode, ReasonCode, valid_for_checkpoint_invalid}
use agentops_go.Contracts.Execution.{next_action_valid}
use agentops_go.Contracts.Hash.{hash_valid}
use agentops_go.TaskRuntime.Store.Transaction.{Tx, Result, ok, err}
use agentops_go.TaskRuntime.Store.Blocks.{after-eq_ok, err-ne-ok}
use agentops_go.TaskRuntime.Termination.{TerminationFacts}
use agentops_go.TaskRuntime.Termination.Cancel.{answered, on_rest}
use agentops_go.TaskRuntime.Recover.{
  RecoverTaskRequest, RecoverReceiptResponse, RecoverOutcome, RecoverError, RecoverySourcePhase,
  RecoveryCheckpointValid, RecoveryCheckpointResult, RecoverPorts, recovery_phase,
  recover_succeeded, recover_config_mismatch,
}
use agentops_go.TaskRuntime.Recover.Failure.{
  Commands, lock_recovery_facts, keep_recover_receipt, terminalize_failure,
}
use agentops_go.TaskRuntime.Recover.Service.{
  recover_version, recovery_hash, recover_hashes, recover_source, recover_valid, recover_checked,
  conflict, recover_in_time, recover_facts, recover_anew,
}
use agentops_go.TaskRuntime.Recover.Version.{
  is_generate_plan, target_task, target_run, start_recovery, requeue,
}
use agentops_go.TaskRuntime.Recover.Rejected.{
  Rejects, keep_recover_receipt-Rejects, terminalize_failure-Rejects,
}

-- The way of a command that recovers: what it found, and the three states between its writes.
pub record Course (p : RecoverPorts) (q : RecoverTaskRequest) (s : Commands)
    (r : RecoverReceiptResponse) (s' : Commands) : Type 0 where
  pub facts : TerminationFacts
  pub now : ℕ
  pub source : RecoveryCheckpointValid
  pub capability : String
  pub hash : String
  pub execution_id : String
  pub checkpoint_id : String
  pub locked_state : Commands
  pub requeued_state : Commands
  pub started_state : Commands
  pub locked : on_rest (lock_recovery_facts q.task_id) s ≡ ok (facts, locked_state)
  pub clock : p.now ≡ ok now
  pub live : task_status_terminal facts.task.status ≡ false
  pub early : ltb now facts.task.deadline_at ≡ true
  pub plan : is_generate_plan source.next_action ≡ true
  pub same_hash : text_eq hash facts.execution.execution_config_hash ≡ true
  pub requeued :
      requeue facts source.next_action execution_id hash now locked_state ≡ ok (tt, requeued_state)
  pub started_at :
      start_recovery p facts capability hash requeued_state ≡ ok (checkpoint_id, started_state)
  pub kept :
      keep_recover_receipt p q now
        (recover_succeeded facts
          (suc facts.execution.execution_version)
          (target_task source.next_action)
          (target_run source.next_action)
          now
          checkpoint_id)
        started_state
      ≡ ok (r, s')

pub answered_ok :
    {A : Type 0} (r : Result A) (s : Commands) {a : A} {s' : Commands}
    → answered r s ≡ ok (a, s')
    → (r ≡ ok a) × (s ≡ s')
answered_ok (ok a) s h = (ground arith, ground arith)
answered_ok (err e) s h = absurd (err-ne-ok h)

not_rejected :
    (r : RecoverReceiptResponse)
    → r.outcome ≡ RecoverOutcome.recovered
    → r.outcome ≢ RecoverOutcome.rejected
not_rejected r h k = ground arith

module _ (p : RecoverPorts) (q : RecoverTaskRequest) (s : Commands) (r : RecoverReceiptResponse)
    (s' : Commands) (recovered : r.outcome ≡ RecoverOutcome.recovered) (f : TerminationFacts)
    (now : ℕ) (s1 : Commands) (locked : on_rest (lock_recovery_facts q.task_id) s ≡ ok (f, s1))
    (clock : p.now ≡ ok now) where
  refused :
      {A : Type 0} (m : Tx Commands RecoverReceiptResponse) → Rejects m → m s1 ≡ ok (r, s') → A
  refused m k h = absurd (not_rejected r recovered (k.at s1 h))

  version-Course :
      (k : RecoveryCheckpointValid) (source hash : String)
      → task_status_terminal f.task.status ≡ false
      → ltb now f.task.deadline_at ≡ true
      → is_generate_plan k.next_action ≡ true
      → text_eq hash f.execution.execution_config_hash ≡ true
      → recover_version p q f now k source hash s1 ≡ ok (r, s')
      → Course p q s r s'
  unfolding recover_version
  version-Course k source hash live early plan same h =
      let (id, s2, h2, k2) = after-eq_ok (answered p.new_id s1) _ h in
      let (_, s1≡s2) = answered_ok p.new_id s1 h2 in
      let (u, s3, h3, k3) = after-eq_ok (requeue f k.next_action id hash now s2) _ k2 in
      let (c, s4, h4, k4) = after-eq_ok (start_recovery p f source hash s3) _ k3 in
      record {
        facts = f;
        now = now;
        source = k;
        capability = source;
        hash = hash;
        execution_id = id;
        checkpoint_id = c;
        locked_state = s1;
        requeued_state = s3;
        started_state = s4;
        locked = locked;
        clock = clock;
        live = live;
        early = early;
        plan = plan;
        same_hash = same;
        requeued = ap (requeue f k.next_action id hash now) s1≡s2 ∙ h3;
        started_at = h4;
        kept = k4;
      }

  source-Course :
      (k : RecoveryCheckpointValid) (source : String)
      → task_status_terminal f.task.status ≡ false
      → ltb now f.task.deadline_at ≡ true
      → is_generate_plan k.next_action ≡ true
      → recover_source p q f now k source s1 ≡ ok (r, s')
      → Course p q s r s'
  unfolding recover_source recover_hashes
  source-Course k source live early plan h =
      let (hash, s2, h2, k2) =
        after-eq_ok
          (answered (recovery_hash (p.lookup_agent f.task.agent_id) p.hash_execution_config) s1) _
          h in
      let (_, back) = answered_ok _ s1 h2 in
      let here : recover_hashes p q f now k source hash s1 ≡ ok (r, s') =
        ap (recover_hashes p q f now k source hash) back ∙ k2 in
      elim (Bool-cases (
        not (text_eq hash f.execution.execution_config_hash)
        || not (text_eq hash k.execution_config_hash))) [
          | inl e ↦
              refused (keep_recover_receipt p q now (recover_config_mismatch f k hash))
                (keep_recover_receipt-Rejects p q now _ refl) (rw e at here)
          | inr e ↦ version-Course k source hash live early plan (ground (arith, e)) (rw e at here)
        ]

  valid-Course :
      (k : RecoveryCheckpointValid) (source : Option String)
      → task_status_terminal f.task.status ≡ false
      → ltb now f.task.deadline_at ≡ true
      → recover_valid p q f now k source s1 ≡ ok (r, s')
      → Course p q s r s'
  unfolding recover_valid
  valid-Course k none live early h = absurd (err-ne-ok h)
  valid-Course k (some source) live early h =
      elim (Bool-cases (
        text_eq k.checkpoint_id ""
        || not (hash_valid k.execution_config_hash)
        || not (next_action_valid k.next_action)
        || not (is_generate_plan k.next_action))) [
          | inl e ↦ absurd (err-ne-ok (rw e at h))
          | inr e ↦ source-Course k source live early (ground (arith, e)) (rw e at h)
        ]

  checked-Course :
      (k : RecoveryCheckpointResult)
      → task_status_terminal f.task.status ≡ false
      → ltb now f.task.deadline_at ≡ true
      → recover_checked p q f now k s1 ≡ ok (r, s')
      → Course p q s r s'
  unfolding recover_checked
  checked-Course (RecoveryCheckpointResult.valid k) live early h =
      valid-Course k k.source live early h
  checked-Course (RecoveryCheckpointResult.invalid reason) live early h =
      elim (Bool-cases (valid_for_checkpoint_invalid reason)) [
        | inl e ↦
            refused
              (terminalize_failure p q f now ErrorCode.checkpoint_invalid reason
                RecoverError.checkpoint_invalid)
              (terminalize_failure-Rejects p q f now ErrorCode.checkpoint_invalid reason
                RecoverError.checkpoint_invalid)
              (rw e at h)
        | inr e ↦ absurd (err-ne-ok (rw e at h))
      ]
  checked-Course RecoveryCheckpointResult.invariant_violation live early h = absurd (err-ne-ok h)
  checked-Course RecoveryCheckpointResult.foreign live early h = absurd (err-ne-ok h)

  in_time-Course :
      (o : Option RecoverySourcePhase)
      → task_status_terminal f.task.status ≡ false
      → ltb now f.task.deadline_at ≡ true
      → recover_in_time p q f now o s1 ≡ ok (r, s')
      → Course p q s r s'
  unfolding recover_in_time
  in_time-Course none live early h =
      refused (keep_recover_receipt p q now (conflict f))
        (keep_recover_receipt-Rejects p q now (conflict f) refl) h
  in_time-Course (some phase) live early h =
      let validate =
        p.validate_recovery_source f.task.task_id f.run.run_id f.execution.execution_version
          phase in
      let (k, s2, h2, k2) = after-eq_ok (answered validate s1) _ h in
      let (_, back) = answered_ok validate s1 h2 in
      checked-Course k live early (ap (recover_checked p q f now k) back ∙ k2)

  facts-Course : recover_facts p q f now s1 ≡ ok (r, s') → Course p q s r s'
  unfolding recover_facts
  facts-Course h = elim (Bool-cases (task_status_terminal f.task.status)) [
    | inl e ↦
        refused (keep_recover_receipt p q now (conflict f))
          (keep_recover_receipt-Rejects p q now (conflict f) refl) (rw e at h)
    | inr live ↦ elim (Bool-cases (ltb now f.task.deadline_at)) [
      | inl early ↦ in_time-Course (recovery_phase f) live early (rw (live, early) at h)
      | inr late ↦
          refused
            (terminalize_failure p q f now ErrorCode.task_timeout (ReasonCode.unknown "")
              RecoverError.timed_out)
            (terminalize_failure-Rejects p q f now ErrorCode.task_timeout (ReasonCode.unknown "")
              RecoverError.timed_out)
            (rw (live, late) at h)
    ]
  ]

pub recover_anew-Course :
    (p : RecoverPorts) (q : RecoverTaskRequest) (s : Commands) (r : RecoverReceiptResponse)
    (s' : Commands)
    → r.outcome ≡ RecoverOutcome.recovered
    → recover_anew p q s ≡ ok (r, s')
    → Course p q s r s'
unfolding recover_anew
recover_anew-Course p q s r s' recovered h =
    let (f, s1, h1, k1) = after-eq_ok (on_rest (lock_recovery_facts q.task_id) s) _ h in
    let (now, s2, h2, k2) = after-eq_ok (answered p.now s1) _ k1 in
    let (clock, back) = answered_ok p.now s1 h2 in
    facts-Course p q s r s' recovered f now s1 h1 clock (ap (recover_facts p q f now) back ∙ k2)
