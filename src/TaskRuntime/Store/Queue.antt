-- ===== src/TaskRuntime/Store/Queue.antt =====
-- `LockNextQueueCandidate`: the FIFO order of the queue. The order of two task identifiers is the
-- database's collation, a parameter.
pub mod Fifo
use agentops_go.Prelude.{
  ℕ, String, Bool, true, false, ◌&&◌, ◌||◌, Option, none, some, List, [], ◌∷◌, ◌==◌, ltb,
  if◌then◌else◌, ◌≡◌, ◌⊎◌, inl, inr, refl, sym, subst, arith, Bool-cases, Option-cases,
}
use agentops_go.Contracts.Execution.{execution_version_valid}
use agentops_go.TaskRuntime.Entity.{Task, TaskExecution, QueueCandidate}
use agentops_go.TaskRuntime.Store.Transaction.{Tx, TxError, ok, pure, fail, Tables}

-- The joined row of a queued task and its current execution.
joined : Option TaskExecution → Task → ℕ → Option QueueCandidate
joined none t queued = none
joined (some e) t queued = some (record {
  task_id = t.task_id;
  run_id = t.current_run_id;
  execution_version = t.current_execution_version;
  task_status = t.status;
  execution_status = e.status;
  queued_at = queued;
  created_at = t.created_at;
})

queued_row : Tables → Option Task → Option QueueCandidate
unfolding joined
queued_row s none = none
queued_row s (some t) = elim t.queued_at [
  | none ↦ none
  | some queued ↦ joined (s.execution t.task_id t.current_execution_version) t queued
]

unfoldable pub candidate : Tables → String → Option QueueCandidate
unfolding queued_row
candidate s id = queued_row s (s.task id)

-- The rows of the join, in the order of the scan.
unfoldable pub candidates : Tables → List String → List QueueCandidate
candidates s [] = []
candidates s (id ∷ ids) =
    let rest = candidates s ids in elim (candidate s id) [ none ↦ rest | some c ↦ c ∷ rest ]

module _ (id_before : String → String → Bool) where
  -- `ORDER BY queued_at, created_at, task_id`.
  unfoldable pub before : QueueCandidate → QueueCandidate → Bool
  before a b =
      ltb a.queued_at b.queued_at
      || (a.queued_at == b.queued_at
          && (ltb a.created_at b.created_at
              || (a.created_at == b.created_at && id_before a.task_id b.task_id)))

  keep_earlier : QueueCandidate → Option QueueCandidate → QueueCandidate
  keep_earlier c none = c
  keep_earlier c (some d) = if before d c then d else c

  unfoldable pub earliest : List QueueCandidate → Option QueueCandidate
  unfolding keep_earlier
  earliest [] = none
  earliest (c ∷ cs) = some (keep_earlier c (earliest cs))

  unfoldable pub lock_next_queue_candidate : Tx Tables QueueCandidate
  lock_next_queue_candidate s = elim (earliest (candidates s s.task_ids)) [
    | none ↦ fail TxError.not_found s
    | some c ↦
        if execution_version_valid c.execution_version
        then pure c s
        else fail TxError.persistence_invariant_violation s
  ]

abbrev pub NoneBefore : (String → String → Bool) → QueueCandidate → List QueueCandidate → Type 0
NoneBefore id_before c [] = Unit {0}
NoneBefore id_before c (d ∷ ds) = (before id_before d c ≡ false) × NoneBefore id_before c ds

abbrev pub OneOf : {A : Type 0} → A → List A → Type 0
OneOf c [] = ⊥
OneOf c (d ∷ ds) = (c ≡ d) ⊎ OneOf c ds

-- The collation is a strict weak order: asymmetric, and what comes before a third text comes before
-- the second or the second comes before the third.
pub record StrictWeak (id_before : String → String → Bool) : Type 0 where
  pub asym : (a b : String) → id_before a b ≡ true → id_before b a ≡ false
  pub cotrans :
      (a b c : String) → id_before a b ≡ false → id_before b c ≡ false → id_before a c ≡ false

earliest-none :
    (id_before : String → String → Bool) (cs : List QueueCandidate)
    → earliest id_before cs ≡ none
    → cs ≡ []
unfolding earliest
earliest-none id_before [] e = refl
earliest-none id_before (c ∷ cs) e = absurd (cc)

module _ (id_before : String → String → Bool) (order : StrictWeak id_before) where
  before_asym : (a b : QueueCandidate) → before id_before a b ≡ true → before id_before b a ≡ false
  unfolding before
  before_asym a b h = ground (arith, order.asym a.task_id b.task_id)

  before_cotrans :
      (a b c : QueueCandidate)
      → before id_before a b ≡ false
      → before id_before b c ≡ false
      → before id_before a c ≡ false
  unfolding before
  before_cotrans a b c h k = ground (arith, order.cotrans a.task_id b.task_id c.task_id)

  NoneBefore-trans :
      (c d : QueueCandidate) (cs : List QueueCandidate)
      → NoneBefore id_before d cs
      → before id_before d c ≡ false
      → NoneBefore id_before c cs
  NoneBefore-trans c d [] h k = tt
  NoneBefore-trans c d (x ∷ xs) h k = (before_cotrans x d c h.0 k, NoneBefore-trans c d xs h.1 k)

  before_irrefl : (a : QueueCandidate) → before id_before a a ≡ false
  before_irrefl a = elim (Bool-cases (before id_before a a)) [
    | inl h ↦ before_asym a a h
    | inr h ↦ h
  ]

  Least : QueueCandidate → List QueueCandidate → Type 0
  Least c cs = NoneBefore id_before c cs × OneOf c cs

  Least-single : (x : QueueCandidate) (xs : List QueueCandidate) → xs ≡ [] → Least x (x ∷ xs)
  unfolding Least
  Least-single x xs e =
      subst (λ l. NoneBefore id_before x (x ∷ l) × OneOf x (x ∷ l)) (sym e)
        ((before_irrefl x, tt), inl refl)

  Least-keep :
      (x d : QueueCandidate) (xs : List QueueCandidate)
      → Least d xs
      → before id_before d x ≡ false
      → Least x (x ∷ xs)
  unfolding Least
  Least-keep x d xs h later = ((before_irrefl x, NoneBefore-trans x d xs h.0 later), inl refl)

  Least-earlier :
      (x d : QueueCandidate) (xs : List QueueCandidate)
      → Least d xs
      → before id_before d x ≡ true
      → Least d (x ∷ xs)
  unfolding Least
  Least-earlier x d xs h earlier = ((before_asym d x earlier, h.0), inr h.1)

  earliest-Least :
      (cs : List QueueCandidate) (c : QueueCandidate) → earliest id_before cs ≡ some c → Least c cs
  unfolding earliest
  earliest-Least [] c h = absurd (cc)
  earliest-Least (x ∷ xs) c h = elim (Option-cases (earliest id_before xs)) [
    | inl e ↦
        subst (λ y. Least y (x ∷ xs)) (ground arith)
          (Least-single x xs (earliest-none id_before xs e))
    | inr (d, e) ↦ elim (Bool-cases (before id_before d x)) [
      | inl earlier ↦
          subst (λ y. Least y (x ∷ xs)) (ground arith)
            (Least-earlier x d xs (earliest-Least xs d e) earlier)
      | inr later ↦
          subst (λ y. Least y (x ∷ xs)) (ground arith)
            (Least-keep x d xs (earliest-Least xs d e) later)
    ]
  ]

  -- The candidate that is locked is one that the scan found, and none of these is before it.
  pub lock_next_queue_candidate-NoneBefore :
      (s s' : Tables) (c : QueueCandidate)
      → lock_next_queue_candidate id_before s ≡ ok (c, s')
      → (NoneBefore id_before c (candidates s s.task_ids) × OneOf c (candidates s s.task_ids))
        × (s' ≡ s)
  unfolding lock_next_queue_candidate Least
  lock_next_queue_candidate-NoneBefore s s' c h =
      elim (Option-cases (earliest id_before (candidates s s.task_ids))) [
        | inl e ↦ absurd (ground arith)
        | inr (d, e) ↦ (
          subst
              (λ y.
                NoneBefore id_before y (candidates s s.task_ids)
                × OneOf y (candidates s s.task_ids))
              (ground arith) (earliest-Least (candidates s s.task_ids) d e),
          ground arith,
        )
      ]
