-- ===== src/TaskRuntime/Termination/Replay.antt =====
-- What a cancellation meets whose command identifier was used before.
use agentops_go.Prelude.{
  true, false, some, ◌≡◌, sym, subst, arith, text_eq, text_eq_iff, Bool-cases, inl, inr,
}
use agentops_go.ActiveCall.{Registry}
use agentops_go.TaskRuntime.Store.Transaction.{TxError, ok, err, execute}
use agentops_go.TaskRuntime.Termination.Receipt.{
  CancelTaskRequest, CancelReceiptResponse, CommandReceipt, Committed, Database, TerminationPorts,
  answer, receipt_valid,
}
use agentops_go.TaskRuntime.Termination.Cancel.{
  cancel_work, cancel_task, replay, same_command, signal, decoded, finished,
}
use agentops_go.TaskRuntime.Termination.Kept.{Kept, ReadBack, execute_ok, cancel_work-Kept}

-- All parts of the request are given.
pub record Given {D : Type 0} (p : TerminationPorts D) (q : CancelTaskRequest) : Type 0 where
  pub command : text_eq q.command_id "" ≡ false
  pub task : text_eq q.task_id "" ≡ false
  pub operator : p.blank q.operator_id ≡ false

module _ {D : Type 0} (p : TerminationPorts D) (q : CancelTaskRequest) where
  -- A request whose receipt is kept is answered from the receipt.
  answer-Kept :
      (r : CancelReceiptResponse) (s : Database D) (g : Registry)
      → Given p q
      → Kept p q r s
      → cancel_task p q s g ≡ (answer r, (s, g))
  unfolding cancel_task cancel_work replay decoded execute finished answer signal
  answer-Kept r s g given kept = elim (Bool-cases (receipt_valid r)) [
    | inl good ↦
        ground
          (arith, given.command, given.task, given.operator, kept.there, kept.same, kept.response)
    | inr bad ↦
        ground
          (arith, given.command, given.task, given.operator, kept.there, kept.same, kept.response)
  ]

  -- A cancellation that committed is idempotent, where a response that is stored as JSON is read back
  -- as it was: the same request is given the same answer again, whatever calls are active by then,
  -- and neither the database nor the active calls change.
  pub cancel_task-replay :
      (s s1 : Database D) (c : Committed) (g later : Registry)
      → Given p q
      → execute (cancel_work p q) s ≡ (ok c, s1)
      → ReadBack p q c.response
      → (cancel_task p q s g ≡ (answer c.response, (s1, signal c g)))
        × (cancel_task p q s1 later ≡ (answer c.response, (s1, later)))
  unfolding cancel_task
  cancel_task-replay s s1 c g later given h json = (
    ground (arith, given.command, given.task, given.operator, h),
    answer-Kept c.response s1 later given
        (cancel_work-Kept p q c s s1 (execute_ok (cancel_work p q) h) json),
  )

  other_command :
      (other : CancelTaskRequest) (k : CommandReceipt)
      → text_eq q.task_id other.task_id ≡ false
      → same_command p q k ≡ true
      → same_command p other k ≡ false
  unfolding same_command
  other_command other k differ same =
      let target : text_eq k.target_id q.task_id ≡ true = ground arith in
      let moved =
        subst (λ id. text_eq id other.task_id ≡ false)
          (sym ((text_eq_iff k.target_id q.task_id).0 target)) differ in
      ground (arith, moved)

  refused :
      (other : CancelTaskRequest)
      → Given p other
      → (k : CommandReceipt) (s : Database D) (g : Registry) → s.receipts other.command_id ≡ some k
      → same_command p other k ≡ false
      → cancel_task p other s g ≡ (err TxError.command_conflict, (s, g))
  unfolding cancel_task cancel_work replay execute finished
  refused other given k s g there differ = ground (arith, given.command, given.task, given.operator)

  -- Once a cancellation has committed, its command identifier is refused for every other task, and
  -- nothing changes.
  pub cancel_task-conflict :
      (s s1 : Database D) (c : Committed) (g : Registry) (other : CancelTaskRequest)
      → execute (cancel_work p q) s ≡ (ok c, s1)
      → ReadBack p q c.response
      → Given p other
      → other.command_id ≡ q.command_id
      → text_eq q.task_id other.task_id ≡ false
      → cancel_task p other s1 g ≡ (err TxError.command_conflict, (s1, g))
  unfolding cancel_task
  cancel_task-conflict s s1 c g other h json given same differ =
      let kept = cancel_work-Kept p q c s s1 (execute_ok (cancel_work p q) h) json in
      let there = subst (λ id. s1.receipts id ≡ some kept.receipt) (sym same) kept.there in
      refused other given kept.receipt s1 g there
        (other_command other kept.receipt differ kept.same)
