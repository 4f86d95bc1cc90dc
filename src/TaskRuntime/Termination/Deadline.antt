-- ===== src/TaskRuntime/Termination/Deadline.antt =====
-- When `ExpireTask` ends a task.
use agentops_go.Prelude.{
  ℕ, true, false, not, ◌||◌, Option, none, some, ◌≡◌, refl, sym, ap, subst, ◌∙◌, arith, ◌≤◌, ltb,
  Bool-cases, inl, inr, text_eq,
}
use agentops_go.Contracts.Status.{TaskStatus, task_status_terminal}
use agentops_go.Contracts.Codes.{ErrorCode, TerminationReason}
use agentops_go.Contracts.Execution.{
  ExecutionCancellationCause, cancellation_cause_valid, execution_version_valid,
}
use agentops_go.ActiveCall.{Registry, Key, Entry, lookup, cancel as cancel_call}
use agentops_go.TaskRuntime.Store.Transaction.{Tx, Result, ok, err, execute}
use agentops_go.TaskRuntime.Store.Blocks.{after-eq_ok, ok_inj}
use agentops_go.TaskRuntime.Termination.{
  TerminationFacts, ApplyTerminationRequest, termination_request,
}
use agentops_go.TaskRuntime.Termination.Receipt.{Database, TerminationPorts, owner_key}
use agentops_go.TaskRuntime.Termination.Cancel.{terminate, on_rest, answered}
use agentops_go.TaskRuntime.Termination.Expire.{
  ExpireTaskRequest, ExpireTaskResult, observed, expire_due, expire_observed, expire_facts,
  expire_work, expire_task, after_expire, signal_expired,
}
use agentops_go.TaskRuntime.Termination.Signal.{Reached, call_cancelled}

-- What a timeout does to the call of the owner: it is cancelled as timed out.
pub record Signalled (g : Registry) (k : Option Key) (g1 : Registry) : Type 0 where
  pub kept : k ≡ none → g1 ≡ g
  pub reached :
      (key : Key) (ptr : ℕ) (e : Entry)
      → k ≡ some key
      → lookup key g.entries ≡ some ptr
      → g.heap ptr ≡ some e
      → Reached g1 ptr e ExecutionCancellationCause.task_timed_out

key_inj : {a b : Key} → some a ≡ some b → a ≡ b
key_inj h = ground arith

module _ {D : Type 0} (p : TerminationPorts D) (q : ExpireTaskRequest) (s : Database D) where
  -- The facts that were locked when the task was ended.
  pub record Overdue (k : Option Key) : Type 0 where
    pub facts : TerminationFacts
    pub locked : D
    pub lock : p.lock_facts q.task_id s.rest ≡ ok (facts, locked)
    pub live : task_status_terminal facts.task.status ≡ false
    pub current : facts.task.current_execution_version ≡ q.observed_execution_version
    pub same : facts.execution.execution_version ≡ q.observed_execution_version
    pub now : ℕ
    pub clock : p.now ≡ ok now
    pub over : facts.task.deadline_at ≤ now
    pub asked : ApplyTerminationRequest
    pub request :
        termination_request
          (p.lookup_tools facts.task.agent_id)
          facts
          now
          TaskStatus.failed
          ErrorCode.task_timeout
          TerminationReason.timed_out
        ≡ ok asked
    pub key : k ≡ owner_key facts facts.execution.worker_id

  rest_answer :
      {A : Type 0} (m : Tx D A) (a : A) (t : Database D)
      → on_rest m s ≡ ok (a, t)
      → m s.rest ≡ ok (a, t.rest)
  rest_answer m a t h = ground arith

  answered_ok :
      {A : Type 0} (r : Result A) (a : A) (t u : Database D) → answered r t ≡ ok (a, u) → r ≡ ok a
  answered_ok (ok x) a t u h = ground arith
  answered_ok (err e) a t u h = absurd (ground arith)

  expired_inj : (k l : Option Key) → ExpireTaskResult.expired k ≡ ExpireTaskResult.expired l → k ≡ l
  expired_inj k l h = ground arith

  due_key :
      (f : TerminationFacts) (now : ℕ) (t s1 : Database D) (k : Option Key)
      → expire_due p f now t ≡ ok (ExpireTaskResult.expired k, s1)
      → (k ≡ owner_key f f.execution.worker_id)
        × ((asked : ApplyTerminationRequest) × (termination_request
                (p.lookup_tools f.task.agent_id)
                f
                now
                TaskStatus.failed
                ErrorCode.task_timeout
                TerminationReason.timed_out
              ≡ ok asked))
  unfolding expire_due terminate
  due_key f now t s1 k h =
      let (_, t1, h1, k1) =
        after-eq_ok
          (terminate p f now TaskStatus.failed ErrorCode.task_timeout TerminationReason.timed_out t)
          _ h in
      let (asked, t2, h2, k2) =
        after-eq_ok
          (answered
            (termination_request (p.lookup_tools f.task.agent_id) f now TaskStatus.failed
              ErrorCode.task_timeout TerminationReason.timed_out)
            t)
          _ h1 in
      (ground arith, (asked, answered_ok _ asked t t2 h2))

  observed-Overdue :
      (f : TerminationFacts) (d s1 : Database D) (k : Option Key)
      → p.lock_facts q.task_id s.rest ≡ ok (f, d.rest)
      → task_status_terminal f.task.status ≡ false
      → observed f q ≡ true
      → expire_observed p f d ≡ ok (ExpireTaskResult.expired k, s1)
      → Overdue k
  unfolding expire_observed observed
  observed-Overdue f d s1 k lock live seen h =
      let (now, t1, h1, k1) = after-eq_ok (answered p.now d) _ h in
      elim (Bool-cases (ltb now f.task.deadline_at)) [
        | inl early ↦ absurd (ground arith)
        | inr over ↦
            let (key, (asked, request)) = due_key f now t1 s1 k (ground arith) in
            record {
              facts = f;
              locked = d.rest;
              lock = lock;
              live = live;
              current = ground arith;
              same = ground arith;
              now = now;
              clock = answered_ok p.now now _ t1 h1;
              over = ground arith;
              asked = asked;
              request = request;
              key = key;
            }
      ]

  facts-Overdue :
      (f : TerminationFacts) (d s1 : Database D) (k : Option Key)
      → p.lock_facts q.task_id s.rest ≡ ok (f, d.rest)
      → expire_facts p q f d ≡ ok (ExpireTaskResult.expired k, s1)
      → Overdue k
  unfolding expire_facts
  facts-Overdue f d s1 k lock h = elim (Bool-cases (task_status_terminal f.task.status)) [
    | inl ended ↦ absurd (ground arith)
    | inr live ↦ elim (Bool-cases (observed f q)) [
      | inr other ↦ absurd (ground arith)
      | inl seen ↦ observed-Overdue f d s1 k lock live seen (ground arith)
    ]
  ]

  work-Overdue :
      (s1 : Database D) (k : Option Key)
      → expire_work p q s ≡ ok (ExpireTaskResult.expired k, s1)
      → Overdue k
  unfolding expire_work
  work-Overdue s1 k h =
      let (f, t, h1, k1) = after-eq_ok (on_rest (p.lock_facts q.task_id) s) _ h in
      facts-Overdue f t s1 k (rest_answer (p.lock_facts q.task_id) f t h1) k1

  expire_work-executed :
      (s1 : Database D) (x : ExpireTaskResult)
      → execute (expire_work p q) s ≡ (ok x, s1)
      → expire_work p q s ≡ ok (x, s1)
  unfolding execute
  expire_work-executed s1 x h = ground arith

  committed :
      (g g1 : Registry) (s1 : Database D) (x : ExpireTaskResult)
      (y : Result ExpireTaskResult × Database D)
      → execute (expire_work p q) s ≡ y
      → after_expire y g ≡ (ok x, (s1, g1))
      → expire_work p q s ≡ ok (x, s1)
  unfolding after_expire
  committed g g1 s1 x (ok z, t) e h = expire_work-executed s1 x (ground arith)
  committed g g1 s1 x (err z, t) e h = absurd (ground arith)

  value_inj :
      {A B : Type 0} {x y : A} {u v : B}
      → ◌≡◌ {A = Result A × B} (ok x, u) (ok y, v)
      → (x ≡ y) × (u ≡ v)
  value_inj h = (ok_inj (ap (λ z. z.0) h), ap (λ z. z.1) h)

  after_expire-signal :
      (g g1 : Registry) (s1 : Database D) (x : ExpireTaskResult)
      (y : Result ExpireTaskResult × Database D)
      → after_expire y g ≡ (ok x, (s1, g1))
      → signal_expired x g ≡ g1
  unfolding after_expire
  after_expire-signal g g1 s1 x (ok z, t) h =
      let (same, rest) = value_inj h in ap (λ w. signal_expired w g) (sym same) ∙ ap (λ w. w.1) rest
  after_expire-signal g g1 s1 x (err z, t) h = absurd (ground arith)

  signal-Signalled :
      (g g1 : Registry) (k : Option Key)
      → signal_expired (ExpireTaskResult.expired k) g ≡ g1
      → Signalled g k g1
  unfolding signal_expired cancellation_cause_valid
  signal-Signalled g g1 none h = record {
    kept = λ _. sym h;
    reached = λ key ptr e no there at. absurd (ground arith);
  }
  signal-Signalled g g1 (some own) h = record {
    kept = λ no. absurd (ground arith);
    reached = λ key ptr e same there at.
        subst (λ x. Reached x ptr e ExecutionCancellationCause.task_timed_out)
          (ap (λ x. (cancel_call g x ExecutionCancellationCause.task_timed_out).0)
              (sym (key_inj same))
            ∙ h)
          (call_cancelled g key ptr e ExecutionCancellationCause.task_timed_out refl there at);
  }

  -- ExpireTask reports that it has ended a task only if, under the lock, the task was not terminal, the
  -- version that the scanner had seen was still that of the task and of the execution, the time of the
  -- transaction had reached the deadline, and the policy allowed the timeout. Then the call that is
  -- registered for the worker that owned the execution is cancelled as timed out, if it was not before;
  -- where no worker owned it, the registry is as it was.
  pub expire_task-Overdue :
      (g g1 : Registry) (s1 : Database D) (k : Option Key)
      → expire_task p q s g ≡ (ok (ExpireTaskResult.expired k), (s1, g1))
      → Overdue k × Signalled g k g1
  unfolding expire_task
  expire_task-Overdue g g1 s1 k h =
      elim (Bool-cases
        (text_eq q.task_id "" || not (execution_version_valid q.observed_execution_version))) [
          | inl invalid ↦ absurd (ground arith)
          | inr given ↦
              let x = ExpireTaskResult.expired k in
              let y = execute (expire_work p q) s in
              let done : after_expire y g ≡ (ok x, (s1, g1)) = rw given at h in
              (
                work-Overdue s1 k (committed g g1 s1 x y refl done),
                signal-Signalled g g1 k (after_expire-signal g g1 s1 x y done),
              )
        ]
