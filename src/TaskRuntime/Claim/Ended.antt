-- ===== src/TaskRuntime/Claim/Ended.antt =====
-- What the tables hold when the head of the queue has reached its deadline.
use agentops_go.Prelude.{ℕ, String, ◌∷◌, false, none, some, ◌≡◌, ◌≤◌, refl, ap, ◌∙◌, arith, ltb}
use agentops_go.Contracts.Status.{TaskStatus, RunStatus, ExecutionStatus}
use agentops_go.Contracts.Codes.{ErrorCode, TerminationReason}
use agentops_go.Contracts.Execution.{ClaimResult}
use agentops_go.TaskRuntime.Entity.{QueueCandidate}
use agentops_go.TaskRuntime.Store.Transaction.{Tx, ok, Tables}
use agentops_go.TaskRuntime.Ports.{
  Ports, RuntimeCheckpoint, ClaimCheckpointSource, EnsurePendingReportResult, reported,
  ensure_pending_report,
}
use agentops_go.TaskRuntime.Claim.{ClaimFacts, lock_claim_facts, validate_claim_facts}
use agentops_go.TaskRuntime.Claim.Writes.{terminalize_claim}
use agentops_go.TaskRuntime.Claim.Service.{settle, claimed, expired, claim_candidate}
use agentops_go.TaskRuntime.Claim.Reconcile.{claim_next_execution}
use agentops_go.TaskRuntime.Claim.Writes.{non_nil_json_object}
use agentops_go.TaskRuntime.Claim.Settlements.{failed_tables, terminalize_claim_lem}
use agentops_go.TaskRuntime.Claim.Commit.{ValidFacts-valid, Locked-rows, CanFail-valid}
use agentops_go.TaskRuntime.Claim.Rows.{
  Rows, OthersKept, OthersKept-ports, with_all-OthersKept, set_task_at, set_run_at,
  set_execution_at, coalesce-none,
}
use agentops_go.TaskRuntime.Claim.Outcome.{Head, settled_head}
use agentops_go.TaskRuntime.Claim.Service.{settle, expired}
use agentops_go.TaskRuntime.Claim.Settlements.{failed_execution, failed_run, failed_task}
use agentops_go.TaskRuntime.Claim.Commit.{after-ask}

-- A locked candidate whose facts are in order, with the time of the transaction at or behind the
-- deadline.
pub record Late (p : Ports) (s : Tables) (c : QueueCandidate) (f : ClaimFacts) (now : ℕ)
    : Type 0 where
  pub locked : lock_claim_facts c s ≡ ok (f, s)
  pub clock : p.now ≡ ok now
  pub valid : validate_claim_facts c f ≡ none
  pub late : f.task.deadline_at ≤ now

pub reported_lem :
    (p : Ports) (task run : String) (now : ℕ) (s : Tables)
    → p.ensure_pending (task, run, now) ≡ ok EnsurePendingReportResult.created
    → ensure_pending_report p task run now s
      ≡ ok (tt, record s { reports = (task, run, now) ∷ s.reports })
unfolding ensure_pending_report reported
reported_lem p task run now s h = rw (h, ensure_pending_report)

module _ (s : Tables) (f : ClaimFacts) (now : ℕ) where
  -- What the tables hold when the task of the candidate has failed, timed out: all three rows have
  -- ended, the task has left the queue and the rows of other tasks stand.
  pub record TimedOut (s' : Tables) : Type 0 where
    pub rows :
        Rows s'
          (record f.task {
            status = TaskStatus.failed;
            error_code = some ErrorCode.task_timeout;
            queued_at = none;
            ended_at = some now;
          })
          (record f.run {
            status = RunStatus.failed;
            context = non_nil_json_object f.run.context;
            error_code = some ErrorCode.task_timeout;
            ended_at = some now;
          })
          (record f.execution {
            status = ExecutionStatus.failed;
            worker_id = none;
            error_code = some ErrorCode.task_timeout;
            invariant_code = none;
            termination_reason = some TerminationReason.timed_out;
            ended_at = some now;
          })
    pub others : OthersKept s s' f.task.task_id
    pub report : s'.reports ≡ (f.task.task_id, f.run.run_id, now) ∷ s.reports

module _ (p again : Ports) (between : Tables → Tables) (worker : String) (s : Tables)
    (c : QueueCandidate) (f : ClaimFacts) (now : ℕ) (head : Head p worker s c)
    (accepted : (w : String × String × ℕ)
      → p.ensure_pending w ≡ ok EnsurePendingReportResult.created) where
  over : Late p s c f now → ltb now f.task.deadline_at ≡ false
  over d = ground (arith, d.late)

  settle-Late :
      (agreed : ClaimCheckpointSource → RuntimeCheckpoint → Tx Tables ClaimResult)
      → Late p s c f now
      → settle p c f now agreed s ≡ expired p f now s
  unfolding settle
  settle-Late agreed d = rw (d.valid, settle) (rw (over d))

  expired_lem :
      (s2 : Tables)
      → terminalize_claim p f now ErrorCode.task_timeout none (some TerminationReason.timed_out) s
        ≡ ok (tt, s2)
      → expired p f now s ≡ ok (ClaimResult.expired_terminalized, s2)
  unfolding expired
  expired_lem s2 h = rw h

  claim_candidate-Late : Late p s c f now → claim_candidate p worker c s ≡ expired p f now s
  unfolding claim_candidate
  claim_candidate-Late d =
      rw d.locked (after-ask p.now now s _ d.clock ∙ settle-Late (claimed p worker f now) d)

  timed_out_tables-TimedOut :
      TimedOut s f now
        (record (failed_tables s f now ErrorCode.task_timeout none
          (some TerminationReason.timed_out)) {
            reports = (f.task.task_id, f.run.run_id, now) ∷ s.reports;
          })
  timed_out_tables-TimedOut = record {
    rows = record {
      task_row = set_task_at s.task f.task.task_id _;
      run_row = set_run_at s.run f.task.task_id _;
      execution_row =
          set_execution_at s.execution f.task.task_id f.execution.execution_version _
          ∙ ap
              (λ o. some (record f.execution {
                status = ExecutionStatus.failed;
                worker_id = none;
                observed_config_hash = o;
                error_code = some ErrorCode.task_timeout;
                invariant_code = none;
                termination_reason = some TerminationReason.timed_out;
                ended_at = some now;
              }))
              (coalesce-none f.execution.observed_config_hash);
    };
    others = OthersKept-ports s _ f.task.task_id s.checkpoints _ (
        with_all-OthersKept s f
          (failed_execution f now ErrorCode.task_timeout none (some TerminationReason.timed_out))
          (failed_run f now ErrorCode.task_timeout) (failed_task f now ErrorCode.task_timeout));
    report = refl;
  }

  -- A candidate at the head of the queue that has reached its deadline is terminalized: it fails as
  -- timed out and its report is requested.
  pub claim_next_execution-expires :
      Late p s c f now
      → (s' : Tables) × (claim_next_execution p again between worker worker s
          ≡ (ok ClaimResult.expired_terminalized, s'))
        × TimedOut s f now s'
  claim_next_execution-expires d =
      let l = Locked-rows s c f head.keyed d.locked (ValidFacts-valid c f d.valid) in
      let s1 =
        failed_tables s f now ErrorCode.task_timeout none (some TerminationReason.timed_out) in
      let s2 = record s1 { reports = (f.task.task_id, f.run.run_id, now) ∷ s.reports } in
      let failed =
        terminalize_claim_lem p s f now ErrorCode.task_timeout none
          (some TerminationReason.timed_out) l (CanFail-valid c f d.valid) in
      let reported = reported_lem p f.task.task_id f.run.run_id now s1 (accepted _) in
      (
        s2,
        settled_head p again between worker s c f now head ClaimResult.expired_terminalized s2
            (claim_candidate-Late d ∙ expired_lem s2 (failed ∙ reported)),
        timed_out_tables-TimedOut,
      )
