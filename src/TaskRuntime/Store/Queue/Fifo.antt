-- ===== src/TaskRuntime/Store/Queue/Fifo.antt =====
-- `LockNextQueueCandidate`: its answer against the tables.
use agentops_go.Prelude.{
  String, Bool, false, some, List, [], ◌∷◌, ◌<◌, ltb, ◌≡◌, ◌⊎◌, inl, inr, refl, sym, ap, ◌∙◌, arith,
  Bool-cases, Option-cases,
}
use agentops_go.TaskRuntime.Entity.{Task, TaskExecution, QueueCandidate}
use agentops_go.TaskRuntime.Store.Transaction.{ok, Tables}
use agentops_go.TaskRuntime.Store.Queue.{
  joined, queued_row, candidate, candidates, before, lock_next_queue_candidate, NoneBefore, OneOf,
  StrictWeak, lock_next_queue_candidate-NoneBefore,
}

-- A task of the tables that is in the queue, joined with its current execution.
pub record QueueRow (s : Tables) (c : QueueCandidate) : Type 0 where
  pub id : String
  pub listed : OneOf id s.task_ids
  pub task : Task
  pub found : s.task id ≡ some task
  pub queued : task.queued_at ≡ some c.queued_at
  pub execution : TaskExecution
  pub current : s.execution task.task_id task.current_execution_version ≡ some execution
  pub same_task : c.task_id ≡ task.task_id
  pub same_run : c.run_id ≡ task.current_run_id
  pub same_version : c.execution_version ≡ task.current_execution_version
  pub same_status : c.task_status ≡ task.status
  pub same_execution_status : c.execution_status ≡ execution.status
  pub same_created : c.created_at ≡ task.created_at

-- The first has queued earlier; or at the same time and was created earlier; or that too at the same time,
-- and its identifier is not behind that of the other.
abbrev pub InTurn : (String → String → Bool) → QueueCandidate → QueueCandidate → Type 0
InTurn id_before c d =
    (c.queued_at < d.queued_at)
    ⊎ ((c.queued_at ≡ d.queued_at)
        × ((c.created_at < d.created_at)
            ⊎ ((c.created_at ≡ d.created_at) × (id_before d.task_id c.task_id ≡ false))))

-- The head of the queue: a queued task whose turn is not behind that of any queued task.
pub record Foremost (id_before : String → String → Bool) (s : Tables) (c : QueueCandidate)
    : Type 0 where
  pub row : QueueRow s c
  pub first : (d : QueueCandidate) → QueueRow s d → InTurn id_before c d

candidate-QueueRow :
    (s : Tables) (id : String) (c : QueueCandidate)
    → OneOf id s.task_ids
    → candidate s id ≡ some c
    → QueueRow s c
unfolding candidate queued_row joined
candidate-QueueRow s id c m h = elim (Option-cases (s.task id)) [
  | inl e ↦ absurd (ground (arith, e))
  | inr (t, e) ↦ elim (Option-cases t.queued_at) [
    | inl q ↦ absurd (ground (arith, e, q))
    | inr (n, q) ↦ elim (Option-cases (s.execution t.task_id t.current_execution_version)) [
      | inl x ↦ absurd (ground (arith, e, q, x))
      | inr (y, x) ↦ record {
        id = id;
        listed = m;
        task = t;
        found = e;
        queued = ground (arith, e, q, x);
        execution = y;
        current = x;
        same_task = ground (arith, e, q, x);
        same_run = ground (arith, e, q, x);
        same_version = ground (arith, e, q, x);
        same_status = ground (arith, e, q, x);
        same_execution_status = ground (arith, e, q, x);
        same_created = ground (arith, e, q, x);
      }
    ]
  ]
]

QueueRow-candidate :
    (s : Tables) (d : QueueCandidate) (r : QueueRow s d) → candidate s r.id ≡ some d
unfolding candidate queued_row joined
QueueRow-candidate s d r = ground (
  arith, r.found, r.queued, r.current, r.same_task, r.same_run, r.same_version, r.same_status,
  r.same_execution_status, r.same_created,
)

-- What the scan finds comes from a listed identifier, and what a listed identifier has is found.
scanned :
    (s : Tables) (ids : List String) (c : QueueCandidate)
    → OneOf c (candidates s ids)
    → (id : String) × OneOf id ids × (candidate s id ≡ some c)
unfolding candidates
scanned s [] c m = absurd m
scanned s (id ∷ ids) c m = elim (Option-cases (candidate s id)) [
  | inl e ↦ let (j, n, k) = scanned s ids c (rw (e, candidates) at m) in (j, inr n, k)
  | inr (d, e) ↦ elim (split d (rw (e, candidates) at m)) [
    | inl same ↦ (id, inl refl, e ∙ ap (λ x. some x) (sym same))
    | inr n ↦ let (j, l, k) = scanned s ids c n in (j, inr l, k)
  ]
]
  where
    split :
        (d : QueueCandidate) → OneOf c (d ∷ candidates s ids) → (c ≡ d) ⊎ OneOf c (candidates s ids)
    split d n = n

not_before :
    (id_before : String → String → Bool) (s : Tables) (ids : List String) (c d : QueueCandidate)
    (id : String)
    → NoneBefore id_before c (candidates s ids)
    → OneOf id ids
    → candidate s id ≡ some d
    → before id_before d c ≡ false
unfolding candidates
not_before id_before s [] c d id least m k = absurd m
not_before id_before s (j ∷ ids) c d id least (inl same) k =
    (rw (ap (candidate s) (sym same) ∙ k, candidates) at least).0
not_before id_before s (j ∷ ids) c d id least (inr m) k = elim (Option-cases (candidate s j)) [
  | inl e ↦ not_before id_before s ids c d id (rw (e, candidates) at least) m k
  | inr (x, e) ↦ not_before id_before s ids c d id (rw (e, candidates) at least).1 m k
]

not_before-InTurn :
    (id_before : String → String → Bool) (c d : QueueCandidate)
    → before id_before d c ≡ false
    → InTurn id_before c d
unfolding before
not_before-InTurn id_before c d h = elim (Bool-cases (ltb c.queued_at d.queued_at)) [
  | inl e ↦ inl (ground arith)
  | inr e ↦ inr (
    ground arith,
    elim (Bool-cases (ltb c.created_at d.created_at)) [
      | inl k ↦ inl (ground arith)
      | inr k ↦ inr (ground arith, ground arith)
    ],
  )
]

-- The queue is FIFO, for a collation of the identifiers that is a strict weak order: the candidate that is
-- locked is a task of the tables with a queue time, joined with its current execution, and for every such
-- task the candidate has queued earlier; or at the same time and was created earlier; or that too at the
-- same time, and its identifier is not behind the other. Locking changes no table.
pub lock_next_queue_candidate_fifo :
    (id_before : String → String → Bool) (order : StrictWeak id_before) (s s' : Tables)
    (c : QueueCandidate)
    → lock_next_queue_candidate id_before s ≡ ok (c, s')
    → Foremost id_before s c × (s' ≡ s)
lock_next_queue_candidate_fifo id_before order s s' c h =
    let ((least, member), same) = lock_next_queue_candidate-NoneBefore id_before order s s' c h in
    let (id, listed, found) = scanned s s.task_ids c member in
    (
      record {
        row = candidate-QueueRow s id c listed found;
        first = λ d r.
            not_before-InTurn id_before c d (
              not_before id_before s s.task_ids c d r.id least r.listed (QueueRow-candidate s d r));
      },
      same,
    )
