-- ===== src/TaskRuntime/Recover/Answered.antt =====
-- internal/taskruntime/recover.go: a command that is answered with a recovery.
use agentops_go.Prelude.{none, ◌≡◌, refl, sym, ap, subst, ◌∙◌, inl, inr, Bool-cases}
use agentops_go.TaskRuntime.Store.Transaction.{ok}
use agentops_go.TaskRuntime.Store.Blocks.{err-ne-ok}
use agentops_go.TaskRuntime.Recover.{
  RecoverTaskRequest, RecoverReceiptResponse, RecoverOutcome, RecoverPorts,
}
use agentops_go.TaskRuntime.Recover.Failure.{Commands}
use agentops_go.TaskRuntime.Recover.Service.{recover_anew}
use agentops_go.TaskRuntime.Recover.{
  TaskRecovered, recover_result_of, recover_receipt_valid, recover_result,
}
use agentops_go.TaskRuntime.Store.Blocks.{execute-cases}
use agentops_go.TaskRuntime.Recover.Service.{recover_work, recover_answer, recover_task}
use agentops_go.TaskRuntime.Recover.Course.{Course, recover_anew-Course}

recovered_result :
    (r : RecoverReceiptResponse) (t : TaskRecovered)
    → recover_result r ≡ ok t
    → r.outcome ≡ RecoverOutcome.recovered
unfolding recover_result
recovered_result r t h = elim (Bool-cases (recover_receipt_valid r)) [
  | inr e ↦ absurd (err-ne-ok (rw e at h))
  | inl e ↦ outcome r.outcome (rw e at h)
]
  where
    outcome : (o : RecoverOutcome) → recover_result_of r o ≡ ok t → o ≡ RecoverOutcome.recovered
    outcome RecoverOutcome.recovered k = refl
    outcome RecoverOutcome.rejected k = absurd (err-ne-ok k)
    outcome (RecoverOutcome.unknown x) k = absurd (err-ne-ok k)

fresh_work :
    (p : RecoverPorts) (q : RecoverTaskRequest) (s : Commands)
    → s.receipts q.command_id ≡ none
    → recover_anew p q s ≡ recover_work p q s
unfolding recover_work
fresh_work p q s e = rw (e, recover_work) refl

-- A command that answers with a recovery, and whose identifier is new, has gone its way.
pub recover_task-Course :
    (p : RecoverPorts) (q : RecoverTaskRequest) (s : Commands) (t : TaskRecovered) (s' : Commands)
    → s.receipts q.command_id ≡ none
    → recover_task p q s ≡ (ok t, s')
    → (r : RecoverReceiptResponse) × (recover_result r ≡ ok t) × Course p q s r s'
unfolding recover_task
recover_task-Course p q s t s' fresh h = elim (Bool-cases (p.given q)) [
  | inr e ↦ absurd (err-ne-ok (ap (λ x. x.0) (rw e at h)))
  | inl e ↦ elim (execute-cases (recover_work p q) s) [
    | inr (x, k) ↦ absurd (err-ne-ok (ap (λ y. y.0) (ap recover_answer (sym k) ∙ (rw e at h))))
    | inl (r, s1, h1, k) ↦
        let same = ap recover_answer (sym k) ∙ (rw e at h) in
        let good : recover_result r ≡ ok t = ap (λ x. x.0) same in
        let anew : recover_anew p q s ≡ ok (r, s1) = fresh_work p q s fresh ∙ h1 in
        let course = recover_anew-Course p q s r s1 (recovered_result r t good) anew in
        (r, good, subst (Course p q s r) (ap (λ x. x.1) same) course)
  ]
]
