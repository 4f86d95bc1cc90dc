-- ===== src/TaskRuntime/Recover/Rejected.antt =====
-- internal/taskruntime/recover.go: the failures of a recovery, and the rejections it answers with.
use agentops_go.Prelude.{
  ℕ, Bool, true, false, not, ◌||◌, if◌then◌else◌, is_none, ◌≡◌, refl, sym, ap, ◌∙◌,
}
use agentops_go.Contracts.Status.{TaskStatus, RunStatus, ExecutionStatus}
use agentops_go.Contracts.Codes.{ErrorCode, ReasonCode}
use agentops_go.Lifecycle.{can_task_transition, can_run_transition, can_execution_transition}
use agentops_go.TaskRuntime.Store.Transaction.{Tx, TxError, ok, pure, fail, ◌>>=◌, ◌>>◌}
use agentops_go.TaskRuntime.Store.Blocks.{after-eq_ok, ok_inj, err-ne-ok}
use agentops_go.TaskRuntime.Termination.{TerminationFacts}
use agentops_go.TaskRuntime.Termination.Cancel.{on_rest, insert_receipt, must_apply}
use agentops_go.TaskRuntime.Recover.{
  RecoverTaskRequest, RecoverReceiptResponse, RecoverOutcome, RecoverError, RecoverPorts,
}
use agentops_go.TaskRuntime.Recover.Failure.{
  Commands, recover_receipt, keep_recover_receipt, allowed, recover_report, recovery_failure,
  apply_recovery_failure, fail_recovery, terminalize_failure,
}

-- Every success answers with a rejection.
pub record Rejects (m : Tx Commands RecoverReceiptResponse) : Type 0 where
  pub at :
      (s : Commands) {r : RecoverReceiptResponse} {s' : Commands}
      → m s ≡ ok (r, s')
      → r.outcome ≡ RecoverOutcome.rejected

last_outcome :
    (m : Tx Commands (Unit {0})) (a : RecoverReceiptResponse) (s : Commands)
    {r : RecoverReceiptResponse} {s' : Commands}
    → (m >> pure a) s ≡ ok (r, s')
    → a ≡ r
last_outcome m a s h = let (u, s1, h1, k1) = after-eq_ok (m s) _ h in ap (λ x. x.0) (ok_inj k1)

pub keep_recover_receipt-Rejects :
    (p : RecoverPorts) (q : RecoverTaskRequest) (now : ℕ) (r : RecoverReceiptResponse)
    → r.outcome ≡ RecoverOutcome.rejected
    → Rejects (keep_recover_receipt p q now r)
unfolding keep_recover_receipt
keep_recover_receipt-Rejects p q now r e = record {
  at = λ s h.
      sym (
        ap (λ x. x.outcome)
          (last_outcome (insert_receipt p.stored (recover_receipt p q now r)) r s h))
      ∙ e;
}

Rejects-fail : (e : TxError) → Rejects (fail e)
Rejects-fail e = record { at = λ s h. absurd (err-ne-ok h) }

Rejects-after :
    {A : Type 0} (m : Tx Commands A) (f : A → Tx Commands RecoverReceiptResponse)
    → ((a : A) → Rejects (f a))
    → Rejects (m >>= f)
Rejects-after m f k = record {
  at = λ s h. let (a, s1, h1, k1) = after-eq_ok (m s) f h in (k a).at s1 k1;
}

Rejects-if :
    (b : Bool) (m n : Tx Commands RecoverReceiptResponse)
    → Rejects m
    → Rejects n
    → Rejects (if b then m else n)
Rejects-if true m n h k = h
Rejects-if false m n h k = k

module _ (p : RecoverPorts) (q : RecoverTaskRequest) (f : TerminationFacts) (now : ℕ) where
  fail_recovery-Rejects :
      (code : ErrorCode) (reason : ReasonCode) (response : RecoverError)
      → Rejects (fail_recovery p q f now code reason response)
  unfolding fail_recovery
  fail_recovery-Rejects code reason response =
      Rejects-after (allowed (can_task_transition f.task.status TaskStatus.failed)) _ λ _.
        Rejects-after (allowed (can_run_transition f.run.status RunStatus.failed)) _ λ _.
          Rejects-after
            (allowed (can_execution_transition f.execution.status ExecutionStatus.failed)) _
            λ _.
              Rejects-after (on_rest (apply_recovery_failure (recovery_failure f now code))) _ λ b.
                Rejects-after (must_apply b) _ λ _.
                  Rejects-after (recover_report p f now) _
                    λ _. keep_recover_receipt-Rejects p q now _ refl

  pub terminalize_failure-Rejects :
      (code : ErrorCode) (reason : ReasonCode) (response : RecoverError)
      → Rejects (terminalize_failure p q f now code reason response)
  unfolding terminalize_failure
  terminalize_failure-Rejects code reason response =
      Rejects-if (not (is_none f.step) || not (is_none f.tool_execution))
        (fail TxError.persistence_invariant_violation)
        (fail_recovery p q f now code reason response)
        (Rejects-fail TxError.persistence_invariant_violation)
        (fail_recovery-Rejects code reason response)
