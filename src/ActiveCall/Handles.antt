-- ===== src/ActiveCall/Handles.antt =====
-- What Prepare, Activate and Unregister do to the registration of a key.
use agentops_go.Prelude.{
  ℕ, suc, ◌≡◌, refl, false, Option, none, some, ◌∷◌, arith, if◌then◌else◌, ◌==◌, Option-cases,
  Bool-cases, inl, inr,
}
use agentops_go.ActiveCall.{
  Registry, Key, Entry, Metadata, Context, CallState, CallError, Prepared, key_eq, lookup, update,
  validate, prepare, unregister, state,
}
use agentops_go.ActiveCall.Maps.{key_eq_iff, lookup-delete}
use agentops_go.ActiveCall.Invariant.{Inv}

-- What is registered under a key: its stage.
stage : (ℕ → Option Entry) → Option ℕ → Option CallState
stage h none = none
stage h (some p) = elim (h p) [ none ↦ none | some e ↦ some e.state ]

state_lem : (r : Registry) (k : Key) → state r k ≡ stage r.heap (lookup k r.entries)
unfolding state stage
state_lem r k = ground arith

-- A key that is registered cannot be prepared again, and the attempt changes nothing.
pub prepare_duplicate :
    (r : Registry) (parent : Context) (k : Key) (m : Metadata) (s : CallState)
    → validate k m ≡ none
    → state r k ≡ some s
    → prepare r (some parent) k m ≡ (r, Prepared.failed CallError.duplicate)
unfolding prepare state
prepare_duplicate r parent k m s ok there = elim (Option-cases (lookup k r.entries)) [
  | inl e ↦ absurd (ground arith)
  | inr (p, e) ↦ rw (ok, prepare) (rw e)
]

state_inserted :
    (r : Registry) (k j : Key) (m : Metadata) (parent : Context)
    → Inv r
    → state
        (record r {
          entries = (k, r.next) ∷ r.entries;
          heap = update r.heap r.next (
              some (record {
                key = k;
                metadata = m;
                state = CallState.prepared;
                ctx = parent;
                released = false;
              }));
          next = suc r.next;
        })
        j
      ≡ (if key_eq k j then some CallState.prepared else state r j)
unfolding state lookup
state_inserted r k j m parent v = elim (Bool-cases (key_eq k j)) [
  | inl same ↦ rw same (ground arith)
  | inr other ↦ rw other (elim (Option-cases (lookup j r.entries)) [
    | inl e ↦ ground arith
    | inr (q, e) ↦ ground (arith, (v.live j q e).below)
  ])
]

-- Preparing a valid free key registers it as PREPARED, and leaves what is registered under every
-- other key.
pub state-prepare :
    (r : Registry) (parent : Context) (k j : Key) (m : Metadata)
    → Inv r
    → validate k m ≡ none
    → lookup k r.entries ≡ none
    → let (s, h) = prepare r (some parent) k m in
      (h ≡ Prepared.handle r.next)
      × (state s j ≡ (if key_eq k j then some CallState.prepared else state r j))
unfolding prepare
state-prepare r parent k j m v ok free =
    rw (ok, prepare) (rw free (refl, state_inserted r k j m parent v))

-- After Unregister the handle's key is free if the handle was registered under it; every key that
-- another handle holds keeps its registration, also where it is the key of the released handle.
pub state-unregister :
    (r : Registry) (p q : ℕ) (j : Key)
    → Inv r
    → lookup j r.entries ≡ some q
    → state (unregister r (some p)) j ≡ (if p == q then none else state r j)
unfolding unregister state
state-unregister r p q j v h = elim (Option-cases (r.heap p)) [
  | inl e ↦ rw (e, unregister) (ground (arith, (v.live j q h).found))
  | inr (x, e) ↦ ground (
    arith,
    (v.live j q h).found,
    (v.live j q h).keyed,
    (v.live j q h).held,
    lookup-delete x.key j r.entries,
    key_eq_iff x.key j,
  )
]
