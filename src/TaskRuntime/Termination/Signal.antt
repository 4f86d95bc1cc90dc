-- ===== src/TaskRuntime/Termination/Signal.antt =====
-- What a committed cancellation does to the call that still runs.
use agentops_go.Prelude.{
  ℕ, Bool, true, false, none, some, ◌≡◌, refl, sym, subst, ap, ◌∙◌, arith, ltb, Bool-cases, inl,
  inr,
}
use agentops_go.Contracts.Status.{TaskStatus, task_status_terminal}
use agentops_go.Contracts.Codes.{ErrorCode, TerminationReason}
use agentops_go.Contracts.Execution.{ExecutionCancellationCause, cancellation_cause_valid}
use agentops_go.ActiveCall.{
  Registry, Key, Entry, Cause, lookup, cancel_context, fire, cancel as cancel_call,
}
use agentops_go.TaskRuntime.Store.Transaction.{Tx, ok, after, ◌>>=◌, execute}
use agentops_go.TaskRuntime.Store.Blocks.{after-eq_ok}
use agentops_go.TaskRuntime.Termination.{TerminationFacts}
use agentops_go.TaskRuntime.Termination.Receipt.{
  CancelTaskRequest, Committed, Database, TerminationPorts, owner_key, timed_out_receipt,
  cancelled_receipt,
}
use agentops_go.TaskRuntime.Termination.Cancel.{
  insert_receipt, keep_receipt, cancel_in_time, cancel_late, cancel_facts, signal, cause_of,
  terminate, cancel_work, cancel_anew, on_rest, answered,
}

-- A frozen cause reaches the call that is registered under the key.
pub call_cancelled :
    (g : Registry) (key : Key) (ptr : ℕ) (e : Entry) (c : ExecutionCancellationCause)
    → cancellation_cause_valid c ≡ true
    → lookup key g.entries ≡ some ptr
    → g.heap ptr ≡ some e
    → (cancel_call g key c).0.heap ptr
      ≡ some (record e { ctx = cancel_context e.ctx (Cause.frozen c) })
unfolding cancel_call fire
call_cancelled g key ptr e c valid there at = ground (arith, valid, there, at)

abbrev pub Reached : Registry → ℕ → Entry → ExecutionCancellationCause → Type 0
Reached g ptr e c = g.heap ptr ≡ some (record e { ctx = cancel_context e.ctx (Cause.frozen c) })

-- What is committed before the deadline, and from the deadline on.
abbrev closing : Bool → TerminationFacts → Committed
closing true f = record {
  response = cancelled_receipt f TerminationReason.cancelled;
  wrote_terminal = true;
  cancel_key = owner_key f f.execution.worker_id;
}
closing false f = record {
  response = timed_out_receipt f;
  wrote_terminal = true;
  cancel_key = owner_key f f.execution.worker_id;
}

-- The cause that a cancellation gives to the call: the timeout has precedence from the deadline on.
abbrev pub cancellation_cause : Bool → ExecutionCancellationCause
cancellation_cause true = ExecutionCancellationCause.task_cancelled
cancellation_cause false = ExecutionCancellationCause.task_timed_out

closing-Reached :
    (early : Bool) (f : TerminationFacts) (g : Registry) (key : Key) (ptr : ℕ) (e : Entry)
    → owner_key f f.execution.worker_id ≡ some key
    → lookup key g.entries ≡ some ptr
    → g.heap ptr ≡ some e
    → Reached (signal (closing early f) g) ptr e (cancellation_cause early)
unfolding signal cause_of cancellation_cause_valid
closing-Reached true f g key ptr e owner there at =
    rw owner (call_cancelled g key ptr e ExecutionCancellationCause.task_cancelled refl there at)
closing-Reached false f g key ptr e owner there at =
    rw owner (call_cancelled g key ptr e ExecutionCancellationCause.task_timed_out refl there at)

module _ {D : Type 0} (p : TerminationPorts D) (q : CancelTaskRequest) where
  keep_receipt-same :
      (now : ℕ) (c0 c : Committed) (s s1 : Database D)
      → keep_receipt p q now c0 s ≡ ok (c, s1)
      → c0 ≡ c
  unfolding keep_receipt
  keep_receipt-same now c0 c s s1 h =
      let (u, s2, h2, k2) = after-eq_ok (insert_receipt p.stored _ s) _ h in ground arith

  in_time-closing :
      (f : TerminationFacts) (now : ℕ) (c : Committed) (s s1 : Database D)
      → cancel_in_time p q f now s ≡ ok (c, s1)
      → c ≡ closing true f
  unfolding cancel_in_time
  in_time-closing f now c s s1 h =
      let (_, s2, _, h2) =
        after-eq_ok
          (terminate p f now TaskStatus.cancelled ErrorCode.task_cancelled
            TerminationReason.cancelled s)
          _ h in
      sym (keep_receipt-same now (closing true f) c s2 s1 h2)

  late-closing :
      (f : TerminationFacts) (now : ℕ) (c : Committed) (s s1 : Database D)
      → cancel_late p q f now s ≡ ok (c, s1)
      → c ≡ closing false f
  unfolding cancel_late
  late-closing f now c s s1 h =
      let (_, s2, _, h2) =
        after-eq_ok
          (terminate p f now TaskStatus.failed ErrorCode.task_timeout TerminationReason.timed_out s)
          _ h in
      sym (keep_receipt-same now (closing false f) c s2 s1 h2)

  cancel_facts-closing :
      (f : TerminationFacts) (now : ℕ) (c : Committed) (s s1 : Database D)
      → task_status_terminal f.task.status ≡ false
      → cancel_facts p q f now s ≡ ok (c, s1)
      → c ≡ closing (ltb now f.task.deadline_at) f
  unfolding cancel_facts
  cancel_facts-closing f now c s s1 live h = elim (Bool-cases (ltb now f.task.deadline_at)) [
    | inl early ↦ rw early (in_time-closing f now c s s1 (ground arith))
    | inr late ↦ rw late (late-closing f now c s s1 (ground arith))
  ]

  -- The command is new, and these are the facts that it locks and the time of its transaction.
  pub record Fresh (s : Database D) (f : TerminationFacts) (now : ℕ) : Type 0 where
    pub new : s.receipts q.command_id ≡ none
    pub locked : D
    pub lock : p.lock_facts q.task_id s.rest ≡ ok (f, locked)
    pub clock : p.now ≡ ok now
    pub live : task_status_terminal f.task.status ≡ false

  on_rest_ok :
      {A : Type 0} (m : Tx D A) (a : A) (s : Database D) (d : D)
      → m s.rest ≡ ok (a, d)
      → on_rest m s ≡ ok (a, record { receipts = s.receipts; rest = d })
  on_rest_ok m a s d h = rw (h, on_rest)

  locked_facts :
      (s : Database D) (f : TerminationFacts) (now : ℕ) (x : Fresh s f now)
      → cancel_work p q s
        ≡ cancel_facts p q f now (record { receipts = s.receipts; rest = x.locked })
  unfolding cancel_work cancel_anew
  locked_facts s f now x =
      rw (x.new, cancel_work)
        (ap (λ r. after r (λ g. answered p.now >>= cancel_facts p q g))
            (on_rest_ok (p.lock_facts q.task_id) f s x.locked x.lock)
          ∙ ap
              (λ r.
                after (answered r (record { receipts = s.receipts; rest = x.locked }))
                  (cancel_facts p q f))
              x.clock)

  committed_work :
      (s s1 : Database D) (c : Committed)
      → execute (cancel_work p q) s ≡ (ok c, s1)
      → cancel_work p q s ≡ ok (c, s1)
  unfolding execute
  committed_work s s1 c h = ground arith

  -- When a new cancellation of a live task commits, the call that is registered for the worker that
  -- owns the execution is cancelled, if it was not before: as cancelled by the user before the deadline
  -- of the task, as timed out from then on.
  pub cancel_task-Reached :
      (s s1 : Database D) (f : TerminationFacts) (now : ℕ) (c : Committed) (g : Registry)
      (key : Key) (ptr : ℕ) (e : Entry)
      → Fresh s f now
      → execute (cancel_work p q) s ≡ (ok c, s1)
      → owner_key f f.execution.worker_id ≡ some key
      → lookup key g.entries ≡ some ptr
      → g.heap ptr ≡ some e
      → Reached (signal c g) ptr e (cancellation_cause (ltb now f.task.deadline_at))
  cancel_task-Reached s s1 f now c g key ptr e x h owner there at =
      let same =
        cancel_facts-closing f now c (record { receipts = s.receipts; rest = x.locked }) s1 x.live
          (sym (locked_facts s f now x) ∙ committed_work s s1 c h) in
      subst (λ y. Reached (signal y g) ptr e (cancellation_cause (ltb now f.task.deadline_at)))
        (sym same) (closing-Reached (ltb now f.task.deadline_at) f g key ptr e owner there at)
