-- ===== src/TaskRuntime/Claim/Mismatch.antt =====
-- What the tables hold when the head of the queue was queued under another configuration.
use agentops_go.Prelude.{
  ℕ, String, ◌∷◌, true, false, none, some, ◌≡◌, refl, ap, ◌∙◌, arith, if◌then◌else◌,
}
use agentops_go.Contracts.Status.{TaskStatus, ExecutionStatus}
use agentops_go.Contracts.Codes.{ErrorCode}
use agentops_go.Contracts.Execution.{ClaimResult}
use agentops_go.Lifecycle.{can_task_transition}
use agentops_go.TaskRuntime.Entity.{QueueCandidate}
use agentops_go.TaskRuntime.Store.Transaction.{ok, Tables}
use agentops_go.TaskRuntime.Ports.{
  Ports, RuntimeCheckpoint, ClaimCheckpointSource, EnsurePendingReportResult,
}
use agentops_go.TaskRuntime.Claim.{ClaimFacts, validate_claim_facts}
use agentops_go.TaskRuntime.Claim.Writes.{interrupt_config_mismatch}
use agentops_go.TaskRuntime.Claim.Service.{claimed, same_hashes, interrupted}
use agentops_go.TaskRuntime.Claim.Effects.{Locked}
use agentops_go.TaskRuntime.Claim.Reconcile.{claim_next_execution}
use agentops_go.TaskRuntime.Store.{coalesce}
use agentops_go.TaskRuntime.Claim.Writes.{execution_update, task_update}
use agentops_go.TaskRuntime.Claim.Settlements.{interrupted_tables, interrupt_config_mismatch_lem}
use agentops_go.TaskRuntime.Claim.Commit.{
  Due, Checked, ValidFacts-valid, Locked-rows, claim_candidate_lem,
}
use agentops_go.TaskRuntime.Claim.Rows.{
  Rows, OthersKept, OthersKept-ports, with_two-OthersKept, set_task_at, set_execution_at,
}
use agentops_go.TaskRuntime.Claim.Outcome.{Head, settled_head}
use agentops_go.TaskRuntime.Claim.Ended.{reported_lem}

module _ (s : Tables) (f : ClaimFacts) (now : ℕ) (current : String) where
  -- What the tables hold when the execution is interrupted: it records the hash of the current
  -- configuration, the task is interrupted, the run is kept as it was.
  pub record InterruptedRows (s' : Tables) : Type 0 where
    pub rows :
        Rows s'
          (record f.task {
            status = TaskStatus.interrupted;
            error_code = some ErrorCode.config_version_mismatch;
            queued_at = none;
          })
          f.run
          (record f.execution {
            status = ExecutionStatus.interrupted;
            worker_id = none;
            observed_config_hash = some current;
            error_code = some ErrorCode.config_version_mismatch;
            invariant_code = none;
            termination_reason = none;
            ended_at = some now;
          })
    pub others : OthersKept s s' f.task.task_id
    pub report : s'.reports ≡ (f.task.task_id, f.run.run_id, now) ∷ s.reports

  interrupted_tables-InterruptedRows :
      Locked s f
      → f.execution.observed_config_hash ≡ none
      → InterruptedRows (record (interrupted_tables s f now current) {
        reports = (f.task.task_id, f.run.run_id, now) ∷ s.reports;
      })
  interrupted_tables-InterruptedRows l fresh = record {
    rows = record {
      task_row = set_task_at s.task f.task.task_id _;
      run_row = l.run_at;
      execution_row =
          set_execution_at s.execution f.task.task_id f.execution.execution_version _
          ∙ ap
              (λ o. some (record f.execution {
                status = ExecutionStatus.interrupted;
                worker_id = none;
                observed_config_hash = coalesce o (some current);
                error_code = some ErrorCode.config_version_mismatch;
                invariant_code = none;
                termination_reason = none;
                ended_at = some now;
              }))
              fresh;
    };
    others = OthersKept-ports s _ f.task.task_id s.checkpoints _ (
        with_two-OthersKept s f
          (execution_update f ExecutionStatus.interrupted none (some current)
            (some ErrorCode.config_version_mismatch) none none f.execution.started_at (some now))
          (task_update f TaskStatus.interrupted (some ErrorCode.config_version_mismatch)
            f.task.started_at f.task.ended_at));
    report = refl;
  }

can_interrupt :
    (c : QueueCandidate) (f : ClaimFacts)
    → validate_claim_facts c f ≡ none
    → (can_task_transition f.task.status TaskStatus.interrupted).allowed ≡ true
unfolding validate_claim_facts can_task_transition
can_interrupt c f v = ground arith

module _ (p again : Ports) (between : Tables → Tables) (worker : String) (s : Tables)
    (c : QueueCandidate) (f : ClaimFacts) (now : ℕ) (head : Head p worker s c)
    (accepted : (w : String × String × ℕ)
      → p.ensure_pending w ≡ ok EnsurePendingReportResult.created) where
  interrupted_lem :
      (current : String) (s2 : Tables)
      → interrupt_config_mismatch p f now current s ≡ ok (tt, s2)
      → interrupted p f now current s ≡ ok (ClaimResult.config_mismatch_interrupted, s2)
  unfolding interrupted
  interrupted_lem current s2 h = rw h

  -- A candidate at the head of the queue that is due, with a valid checkpoint, but with hashes that
  -- are not all equal, is interrupted, if nothing was observed before, and its report is requested.
  pub claim_next_execution-interrupts :
      (src : ClaimCheckpointSource) (k : RuntimeCheckpoint) (current : String)
      → Due p s c f now
      → Checked p f src k current
      → same_hashes f k current ≡ false
      → f.execution.observed_config_hash ≡ none
      → (s' : Tables) × (claim_next_execution p again between worker worker s
          ≡ (ok ClaimResult.config_mismatch_interrupted, s'))
        × InterruptedRows s f now current s'
  claim_next_execution-interrupts src k current due checked differ fresh =
      let v = ValidFacts-valid c f due.valid in
      let l = Locked-rows s c f head.keyed due.locked v in
      let s1 = interrupted_tables s f now current in
      let s2 = record s1 { reports = (f.task.task_id, f.run.run_id, now) ∷ s.reports } in
      let written =
        interrupt_config_mismatch_lem p s f now current l v.execution_queued fresh
          (can_interrupt c f due.valid) in
      let reported = reported_lem p f.task.task_id f.run.run_id now s1 (accepted _) in
      (
        s2,
        settled_head p again between worker s c f now head ClaimResult.config_mismatch_interrupted
            s2
            (claim_candidate_lem p s c f now due src k current checked worker
              ∙ ap
                  (λ b. (if b then claimed p worker f now src k else interrupted p f now current) s)
                  differ
              ∙ interrupted_lem current s2 (written ∙ reported)),
        interrupted_tables-InterruptedRows s f now current l fresh,
      )
