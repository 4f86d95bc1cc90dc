-- ===== src/ActiveCall/Invariant.antt =====
-- What holds of the registry after every interleaving of its operations.
use agentops_go.Prelude.{
  ℕ, suc, ◌≡◌, ◌≢◌, ◌≤◌, ◌<◌, refl, Bool, true, false, Option, none, some, List, [], ◌∷◌, arith,
  if◌then◌else◌, ◌==◌, is_none, Option-cases, Bool-cases, inl, inr, ap,
}
use agentops_go.Contracts.Execution.{ExecutionCancellationCause}
use agentops_go.ActiveCall.{
  Registry, Key, Entry, Metadata, Context, Cause, CallState, CallError, key_eq, lookup, delete,
  update, cancel_context, new_registry, same_pointer, validate, prepare, activate, fire, unregister,
  cancel, fire_all, cancel_all,
}
use agentops_go.ActiveCall.Maps.{key_eq_iff, lookup-delete}

-- A registered pointer leads to an allocated entry with that key, whose handle was not released.
pub record Registered (r : Registry) (k : Key) (p : ℕ) : Type 0 where
  pub below : p < r.next
  pub entry : Entry
  pub found : r.heap p ≡ some entry
  pub keyed : entry.key ≡ k
  pub held : entry.released ≡ false

pub record Inv (r : Registry) : Type 0 where
  pub live : (k : Key) (p : ℕ) → lookup k r.entries ≡ some p → Registered r k p
  pub fresh : (p : ℕ) → r.next ≤ p → r.heap p ≡ none
  pub done : (p : ℕ) (e : Entry) → r.heap p ≡ some e → e.released ≡ true → is_none e.ctx ≡ false

pub new_registry-Inv : Inv new_registry
unfolding new_registry lookup
new_registry-Inv = record {
  live = λ k p h. absurd (cc);
  fresh = λ p h. refl;
  done = λ p e h d. absurd (cc);
}

module _ (r : Registry) (p : ℕ) (e e' : Entry) (at : r.heap p ≡ some e) (same_key : e'.key ≡ e.key)
    (same_held : e'.released ≡ e.released) (cancels : is_none e'.ctx ≡ true → is_none e.ctx ≡ true)
    (v : Inv r) where
  abbrev touched : Registry
  touched = record r { heap = update r.heap p (some e') }

  touched-Registered : (k : Key) (q : ℕ) → Registered r k q → Registered touched k q
  touched-Registered k q g = elim (Bool-cases (p == q)) [
    | inl same ↦ record {
      below = g.below;
      entry = e';
      found = rw same;
      keyed = ground (arith, g.found, g.keyed);
      held = ground (arith, g.found, g.held);
    }
    | inr other ↦ record {
      below = g.below;
      entry = g.entry;
      found = rw other g.found;
      keyed = g.keyed;
      held = g.held;
    }
  ]

  touch-Inv : Inv touched
  touch-Inv = record {
    live = λ k q h. touched-Registered k q (v.live k q h);
    fresh = λ q le. ground (arith, v.fresh q le);
    done = λ q d found gone. ground (arith, v.done q d, v.done p e);
  }

pub fire-Inv : (r : Registry) (p : ℕ) (c : Cause) → Inv r → Inv (fire r p c)
unfolding fire
fire-Inv r p c v = elim (Option-cases (r.heap p)) [
  | inl e ↦ rw (e, fire) v
  | inr (x, e) ↦
      rw (e, fire)
        (touch-Inv r p x (record x { ctx = cancel_context x.ctx c }) e refl refl (λ h. ground arith)
          v)
]

abbrev after : {A : Type 0} → Registry × A → Registry
after (r, _) = r

Inv-branch :
    {A : Type 0} (b : Bool) (x y : Registry × A)
    → Inv (after x)
    → Inv (after y)
    → Inv (after (if b then x else y))
Inv-branch true x y v w = v
Inv-branch false x y v w = w

pub activate-Inv : (r : Registry) (h : Option ℕ) → Inv r → Inv (activate r h).0
unfolding activate
activate-Inv r none v = v
activate-Inv r (some p) v = elim (Option-cases (r.heap p)) [
  | inl e ↦ rw (e, activate) v
  | inr (x, e) ↦
      rw (e, activate)
        (Inv-branch _ _ _ v
          (touch-Inv r p x (record x { state = CallState.active }) e refl refl (λ h. h) v))
]

pub fire_all-Inv : (r : Registry) (m : List (Key × ℕ)) (c : Cause) → Inv r → Inv (fire_all r m c)
unfolding fire_all
fire_all-Inv r [] c v = v
fire_all-Inv r ((k, p) ∷ m) c v = fire_all-Inv (fire r p c) m c (fire-Inv r p c v)

module _ (r : Registry) (p : ℕ) (e : Entry) (m : List (Key × ℕ)) (at : r.heap p ≡ some e)
    (kept : (k : Key) (q : ℕ) → lookup k m ≡ some q → (lookup k r.entries ≡ some q) × (q ≢ p))
    (v : Inv r) where
  abbrev dropped : Registry
  dropped = record r {
    entries = m;
    heap =
        update r.heap p
          (some (record e { released = true; ctx = cancel_context e.ctx Cause.canceled }));
  }

  dropped-Registered :
      (k : Key) (q : ℕ) → lookup k r.entries ≡ some q → q ≢ p → Registered dropped k q
  dropped-Registered k q h n =
      let g = v.live k q h in
      record {
        below = g.below;
        entry = g.entry;
        found = ground (arith, g.found);
        keyed = g.keyed;
        held = g.held;
      }

  release-Inv : Inv dropped
  release-Inv = record {
    live = λ k q h. let (there, n) = kept k q h in dropped-Registered k q there n;
    fresh = λ q le. ground (arith, v.fresh q le);
    done = λ q d found gone. ground (arith, v.done q d);
  }

kept_by_delete :
    (r : Registry) (p : ℕ) (e : Entry)
    → r.heap p ≡ some e
    → Inv r
    → (k : Key) (q : ℕ) → lookup k (delete e.key r.entries) ≡ some q
    → (lookup k r.entries ≡ some q) × (q ≢ p)
kept_by_delete r p e at v k q h = elim (Bool-cases (key_eq e.key k)) [
  | inl same ↦ absurd (ground (arith, lookup-delete e.key k r.entries))
  | inr other ↦
      let there : lookup k r.entries ≡ some q = ground (arith, lookup-delete e.key k r.entries) in
      (
        there,
        λ qp.
            ground (arith, (v.live k q there).found, (v.live k q there).keyed, key_eq_iff e.key k),
      )
]

kept_as_is :
    (r : Registry) (p : ℕ) (e : Entry)
    → r.heap p ≡ some e
    → same_pointer (lookup e.key r.entries) p ≡ false
    → Inv r
    → (k : Key) (q : ℕ) → lookup k r.entries ≡ some q
    → (lookup k r.entries ≡ some q) × (q ≢ p)
unfolding same_pointer
kept_as_is r p e at moved v k q h = (
  h,
  λ qp.
      ground (
        arith,
        (v.live k q h).found,
        (v.live k q h).keyed,
        ap (λ j. lookup j r.entries) (keyed qp),
      ),
)
  where
    keyed : q ≡ p → e.key ≡ k
    keyed qp = ground (arith, (v.live k q h).found, (v.live k q h).keyed)

pub unregister-Inv : (r : Registry) (h : Option ℕ) → Inv r → Inv (unregister r h)
unfolding unregister
unregister-Inv r none v = v
unregister-Inv r (some p) v = elim (Option-cases (r.heap p)) [
  | inl e ↦ rw (e, unregister) v
  | inr (x, e) ↦
      rw (e, unregister)
        (elim (Bool-cases x.released) [
          | inl gone ↦ rw gone v
          | inr held ↦ rw held (elim (Bool-cases (same_pointer (lookup x.key r.entries) p)) [
            | inl own ↦
                rw own (release-Inv r p x (delete x.key r.entries) e (kept_by_delete r p x e v) v)
            | inr moved ↦ rw moved (release-Inv r p x r.entries e (kept_as_is r p x e moved v) v)
          ])
        ])
]

module _ (r : Registry) (x : Entry) (held : x.released ≡ false) (v : Inv r) where
  abbrev pub inserted : Registry
  inserted = record r {
    entries = (x.key, r.next) ∷ r.entries;
    heap = update r.heap r.next (some x);
    next = suc r.next;
  }

  old-Registered : (k : Key) (q : ℕ) → lookup k r.entries ≡ some q → Registered inserted k q
  old-Registered k q h =
      let g = v.live k q h in
      record {
        below = omega (arith, g.below);
        entry = g.entry;
        found = ground (arith, g.found, g.below);
        keyed = g.keyed;
        held = g.held;
      }

  new-Registered : (k : Key) (q : ℕ) → key_eq x.key k ≡ true → r.next ≡ q → Registered inserted k q
  new-Registered k q same e = record {
    below = omega arith;
    entry = x;
    found = ground arith;
    keyed = (key_eq_iff x.key k).0 same;
    held = held;
  }

  inserted-Registered :
      (k : Key) (q : ℕ) → lookup k inserted.entries ≡ some q → Registered inserted k q
  unfolding lookup
  inserted-Registered k q h = elim (Bool-cases (key_eq x.key k)) [
    | inl same ↦ new-Registered k q same (ground arith)
    | inr other ↦ old-Registered k q (ground arith)
  ]

  insert-Inv : Inv inserted
  insert-Inv = record {
    live = inserted-Registered;
    fresh = λ q le. ground (arith, v.fresh q);
    done = λ q d found gone. ground (arith, v.done q d);
  }

pub prepare-Inv :
    (r : Registry) (parent : Option Context) (k : Key) (m : Metadata)
    → Inv r
    → Inv (prepare r parent k m).0
unfolding prepare
prepare-Inv r none k m v = v
prepare-Inv r (some parent) k m v = elim (Option-cases (validate k m)) [
  | inr (x, e) ↦ rw (e, prepare) v
  | inl e ↦
      rw (e, prepare)
        (elim (Option-cases (lookup k r.entries)) [
          | inr (q, taken) ↦ rw taken v
          | inl free ↦ rw free (insert-Inv r _ refl v)
        ])
]

pub cancel-Inv :
    (r : Registry) (k : Key) (c : ExecutionCancellationCause) → Inv r → Inv (cancel r k c).0
unfolding cancel
cancel-Inv r k c v = Inv-branch _ _ _ v (found (lookup k r.entries))
  where
    found :
        (o : Option ℕ)
        → Inv (
            after (elim o as (λ x. Registry × (Bool × Option CallError)) [
              | none ↦ (r, (false, none))
              | some p ↦ (fire r p (Cause.frozen c), (true, none))
            ]))
    found none = v
    found (some p) = fire-Inv r p (Cause.frozen c) v

pub cancel_all-Inv :
    (r : Registry) (c : ExecutionCancellationCause) → Inv r → Inv (cancel_all r c).0
unfolding cancel_all
cancel_all-Inv r c v = Inv-branch _ _ _ v (fire_all-Inv r r.entries (Cause.frozen c) v)

-- What the goroutines of the process may do to the registry, one atomic step at a time. A `Cancel`
-- or `CancelAll` that has released the mutex may fire its cancel functions later, whatever happened
-- in between; a parent context may be cancelled at any time.
pub data Step (r : Registry) : Registry → Type 0 where
  prepares : (parent : Option Context) (k : Key) (m : Metadata) → Step r (prepare r parent k m).0
  activates : (h : Option ℕ) → Step r (activate r h).0
  unregisters : (h : Option ℕ) → Step r (unregister r h)
  cancels : (k : Key) (c : ExecutionCancellationCause) → Step r (cancel r k c).0
  cancels_all : (c : ExecutionCancellationCause) → Step r (cancel_all r c).0
  fires : (p : ℕ) (c : Cause) → Step r (fire r p c)

pub data Reach : Registry → Type 0 where
  initial : Reach new_registry
  next : {r s : Registry} → Reach r → Step r s → Reach s

Step-Inv : {r s : Registry} → Step r s → Inv r → Inv s
Step-Inv {r} (Step.prepares parent k m) v = prepare-Inv r parent k m v
Step-Inv {r} (Step.activates h) v = activate-Inv r h v
Step-Inv {r} (Step.unregisters h) v = unregister-Inv r h v
Step-Inv {r} (Step.cancels k c) v = cancel-Inv r k c v
Step-Inv {r} (Step.cancels_all c) v = cancel_all-Inv r c v
Step-Inv {r} (Step.fires p c) v = fire-Inv r p c v

-- After every interleaving of operations, each registered key leads to an allocated entry with that
-- key whose handle has not been released, and every released entry has a cancelled context.
pub Reach-Inv : {r : Registry} → Reach r → Inv r
Reach-Inv Reach.initial = new_registry-Inv
Reach-Inv (Reach.next w s) = Step-Inv s (Reach-Inv w)
