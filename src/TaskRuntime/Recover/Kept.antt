-- ===== src/TaskRuntime/Recover/Kept.antt =====
-- internal/taskruntime/recover.go: the parts of a recovery that write none of the three rows.
use agentops_go.Prelude.{ℕ, suc, String, ◌∷◌, ◌≡◌, sym, ap, ◌∙◌, inl, inr, Bool-cases, Option-cases}
use agentops_go.Contracts.Execution.{execution_version_valid}
use agentops_go.TaskRuntime.Entity.{Task, Run, TaskExecution}
use agentops_go.TaskRuntime.Store.{lock_task, lock_run_by_task, lock_execution}
use agentops_go.TaskRuntime.Store.Transaction.{ok, Tables, PortWrite}
use agentops_go.TaskRuntime.Store.Blocks.{after-eq_ok, err-ne-ok, ok_inj}
use agentops_go.TaskRuntime.Termination.{TerminationFacts}
use agentops_go.TaskRuntime.Termination.Receipt.{CommandReceipt}
use agentops_go.TaskRuntime.Termination.Cancel.{on_rest, answered, insert_receipt}
use agentops_go.TaskRuntime.Recover.{RecoverTaskRequest, RecoverReceiptResponse, RecoverPorts}
use agentops_go.TaskRuntime.Recover.Failure.{
  Commands, lock_recovery_facts, recover_receipt, keep_recover_receipt,
}
use agentops_go.TaskRuntime.Recover.Version.{start_recovery}
use agentops_go.TaskRuntime.Recover.Course.{answered_ok}
use agentops_go.TaskRuntime.Recover.Writes.{on_rest-eq_ok}

lock_task-kept :
    (id : String) (d : Tables) {t : Task} {d' : Tables} → lock_task id d ≡ ok (t, d') → d ≡ d'
unfolding lock_task
lock_task-kept id d h = elim (Option-cases (d.task id)) [
  | inl k ↦ absurd (err-ne-ok (rw (k, lock_task) at h))
  | inr (t, k) ↦ elim (Bool-cases (execution_version_valid t.current_execution_version)) [
    | inl e ↦ ap (λ x. x.1) (ok_inj (rw (k, lock_task, e) at h))
    | inr e ↦ absurd (err-ne-ok (rw (k, lock_task, e) at h))
  ]
]

lock_run-kept :
    (id : String) (d : Tables) {r : Run} {d' : Tables} → lock_run_by_task id d ≡ ok (r, d') → d ≡ d'
unfolding lock_run_by_task
lock_run-kept id d h = elim (Option-cases (d.run id)) [
  | inl k ↦ absurd (err-ne-ok (rw (k, lock_run_by_task) at h))
  | inr (r, k) ↦ ap (λ x. x.1) (ok_inj (rw (k, lock_run_by_task) at h))
]

lock_execution-kept :
    (id : String) (n : ℕ) (d : Tables) {e : TaskExecution} {d' : Tables}
    → lock_execution id n d ≡ ok (e, d')
    → d ≡ d'
unfolding lock_execution
lock_execution-kept id n d h = elim (Option-cases (d.execution id n)) [
  | inl k ↦ absurd (err-ne-ok (rw (k, lock_execution) at h))
  | inr (x, k) ↦ elim (Bool-cases (execution_version_valid x.execution_version)) [
    | inl e ↦ ap (λ x. x.1) (ok_inj (rw (k, lock_execution, e) at h))
    | inr e ↦ absurd (err-ne-ok (rw (k, lock_execution, e) at h))
  ]
]

lock_recovery_facts-kept :
    (id : String) (d : Tables) {f : TerminationFacts} {d' : Tables}
    → lock_recovery_facts id d ≡ ok (f, d')
    → d ≡ d'
unfolding lock_recovery_facts
lock_recovery_facts-kept id d h =
    let (t, d1, h1, k1) = after-eq_ok (lock_task id d) _ h in
    let (r, d2, h2, k2) = after-eq_ok (lock_run_by_task id d1) _ k1 in
    let (e, d3, h3, k3) = after-eq_ok (lock_execution id t.current_execution_version d2) _ k2 in
    lock_task-kept id d h1
    ∙ lock_run-kept id d1 h2
    ∙ lock_execution-kept id t.current_execution_version d2 h3
    ∙ ap (λ x. x.1) (ok_inj k3)

pub locked_kept :
    (id : String) (s : Commands) {f : TerminationFacts} {s' : Commands}
    → on_rest (lock_recovery_facts id) s ≡ ok (f, s')
    → s.rest ≡ s'.rest
locked_kept id s h =
    let (d, k, same) = on_rest-eq_ok (lock_recovery_facts id) s h in
    lock_recovery_facts-kept id s.rest k ∙ same

-- The facts are found again where they were found.
pub locked_again :
    (id : String) (s : Commands) {f : TerminationFacts} {s' : Commands}
    → on_rest (lock_recovery_facts id) s ≡ ok (f, s')
    → lock_recovery_facts id s'.rest ≡ ok (f, s'.rest)
locked_again id s {f} h =
    let (d, k, same) = on_rest-eq_ok (lock_recovery_facts id) s h in
    let base = lock_recovery_facts-kept id s.rest k ∙ same in
    ap (lock_recovery_facts id) (sym base) ∙ k ∙ ap (λ x. ok (f, x)) same

insert_receipt-kept :
    (stored : String → String) (k : CommandReceipt) (s : Commands) {u : Unit {0}} {s' : Commands}
    → insert_receipt stored k s ≡ ok (u, s')
    → s.rest ≡ s'.rest
unfolding insert_receipt
insert_receipt-kept stored k s h = elim (Option-cases (s.receipts k.command_id)) [
  | inr (x, e) ↦ absurd (err-ne-ok (rw (e, insert_receipt) at h))
  | inl e ↦ ap (λ x. x.1.rest) (ok_inj (rw (e, insert_receipt) at h))
]

pub kept_receipt :
    (p : RecoverPorts) (q : RecoverTaskRequest) (now : ℕ) (a : RecoverReceiptResponse)
    (s : Commands) {r : RecoverReceiptResponse} {s' : Commands}
    → keep_recover_receipt p q now a s ≡ ok (r, s')
    → (a ≡ r) × (s.rest ≡ s'.rest)
unfolding keep_recover_receipt
kept_receipt p q now a s h =
    let (_, s1, h1, k1) = after-eq_ok (insert_receipt p.stored (recover_receipt p q now a) s) _ h in
    (
      ap (λ x. x.0) (ok_inj k1),
      insert_receipt-kept p.stored (recover_receipt p q now a) s h1
          ∙ ap (λ x. x.1.rest) (ok_inj k1),
    )

pub start_recovery-kept :
    (p : RecoverPorts) (f : TerminationFacts) (source hash : String) (s : Commands) {c : String}
    {s' : Commands}
    → start_recovery p f source hash s ≡ ok (c, s')
    → (w : PortWrite) × (record s.rest { checkpoints = w ∷ s.rest.checkpoints } ≡ s'.rest)
unfolding start_recovery
start_recovery-kept p f source hash s h =
    let start = p.create_recovery_start source (suc f.execution.execution_version) hash in
    let (id, s1, h1, k1) = after-eq_ok (answered start s) _ h in
    let (_, back) = answered_ok start s h1 in
    let w : PortWrite = record {
      task_id = f.task.task_id;
      run_id = f.run.run_id;
      execution_version = suc f.execution.execution_version;
      execution_config_hash = hash;
    } in
    (
      w,
      ap (λ (x : Commands). record x.rest { checkpoints = w ∷ x.rest.checkpoints }) back
          ∙ ap (λ x. x.1.rest) (ok_inj k1),
    )
