-- ===== src/ActiveCall/Cancellation.antt =====
-- What Cancel and CancelAll do to the contexts of the registered calls.
use agentops_go.Prelude.{
  ℕ, ◌≡◌, refl, Bool, true, false, Option, none, some, List, [], ◌∷◌, arith, if◌then◌else◌, ◌==◌,
  Option-cases, inl, inr, ◌||◌, ◌∙◌, ap, sym,
}
use agentops_go.Contracts.Execution.{ExecutionCancellationCause, cancellation_cause_valid}
use agentops_go.ActiveCall.{
  Registry, Key, Entry, Context, Cause, lookup, cancel_context, fire, fire_all, cancel, cancel_all,
  prepare, activate, unregister, Metadata,
}
use agentops_go.ActiveCall.Invariant.{Inv, Step, Reach, Reach-Inv}

-- Whether a pointer is registered under some key.
pub registers : List (Key × ℕ) → ℕ → Bool
registers [] p = false
registers ((k, q) ∷ m) p = q == p || registers m p

cancelled_if : Bool → Cause → Option Entry → Option Entry
cancelled_if b c none = none
cancelled_if b c (some e) = some (if b then record e { ctx = cancel_context e.ctx c } else e)

heap-fire :
    (r : Registry) (q p : ℕ) (c : Cause) → (fire r q c).heap p ≡ cancelled_if (q == p) c (r.heap p)
unfolding fire cancelled_if
heap-fire r q p c = elim (Option-cases (r.heap q)) [
  | inl e ↦ ground arith
  | inr (x, e) ↦ ground arith
]

cancelled_if_twice :
    (a b : Bool) (c : Cause) (o : Option Entry)
    → cancelled_if b c (cancelled_if a c o) ≡ cancelled_if (a || b) c o
unfolding cancelled_if
cancelled_if_twice a b c o = ground arith

cancelled_if_not : (c : Cause) (o : Option Entry) → o ≡ cancelled_if false c o
unfolding cancelled_if
cancelled_if_not c none = refl
cancelled_if_not c (some e) = refl

heap-fire_all :
    (r : Registry) (m : List (Key × ℕ)) (c : Cause) (p : ℕ)
    → (fire_all r m c).heap p ≡ cancelled_if (registers m p) c (r.heap p)
unfolding fire_all registers
heap-fire_all r [] c p = cancelled_if_not c (r.heap p)
heap-fire_all r ((k, q) ∷ m) c p =
    heap-fire_all (fire r q c) m c p
    ∙ ap (cancelled_if (registers m p) c) (heap-fire r q p c)
    ∙ cancelled_if_twice (q == p) (registers m p) c (r.heap p)

registers-lookup :
    (k : Key) (m : List (Key × ℕ)) (p : ℕ) → lookup k m ≡ some p → registers m p ≡ true
unfolding lookup registers
registers-lookup k [] p h = cc
registers-lookup k ((j, q) ∷ m) p h = ground (arith, registers-lookup k m p)

-- CancelAll with a frozen cause cancels the context of every registered call that was not cancelled
-- before, with that cause, and changes nothing else of the call; it touches no other entry.
pub cancel_all_reaches :
    (r : Registry) (c : ExecutionCancellationCause) (k : Key) (p : ℕ) (e : Entry)
    → cancellation_cause_valid c ≡ true
    → lookup k r.entries ≡ some p
    → r.heap p ≡ some e
    → ((cancel_all r c).0.heap p ≡ some (record e { ctx = cancel_context e.ctx (Cause.frozen c) }))
      × ((q : ℕ) → registers r.entries q ≡ false → (cancel_all r c).0.heap q ≡ r.heap q)
unfolding cancel_all
cancel_all_reaches r c k p e ok there at =
    rw (ok, cancel_all)
      (
        heap-fire_all r r.entries (Cause.frozen c) p
            ∙ ap (λ b. cancelled_if b (Cause.frozen c) (r.heap p))
                (registers-lookup k r.entries p there)
            ∙ ap (cancelled_if true (Cause.frozen c)) at
            ∙ hit,
        λ q out.
            heap-fire_all r r.entries (Cause.frozen c) q
            ∙ ap (λ b. cancelled_if b (Cause.frozen c) (r.heap q)) out
            ∙ sym (cancelled_if_not (Cause.frozen c) (r.heap q)),
      )
  where
    hit :
        cancelled_if true (Cause.frozen c) (some e)
        ≡ some (record e { ctx = cancel_context e.ctx (Cause.frozen c) })
    hit = unfold cancelled_if in refl

-- The cause with which the call behind a pointer was cancelled.
abbrev pub cause : Option Entry → Context
cause none = none
cause (some e) = e.ctx

cause-cancelled_if :
    (b : Bool) (c d : Cause) (o : Option Entry)
    → cause o ≡ some d
    → cause (cancelled_if b c o) ≡ some d
unfolding cancelled_if
cause-cancelled_if b c d o h = ground arith

module _ (r : Registry) (p : ℕ) (d : Cause) (h : cause (r.heap p) ≡ some d) where
  cause-fire : (q : ℕ) (c : Cause) → cause ((fire r q c).heap p) ≡ some d
  cause-fire q c = rw (heap-fire r q p c) (cause-cancelled_if (q == p) c d (r.heap p) h)

  cause-activate : (q : Option ℕ) → cause ((activate r q).0.heap p) ≡ some d
  unfolding activate
  cause-activate none = h
  cause-activate (some q) = ground arith

  cause-unregister : (q : Option ℕ) → cause ((unregister r q).heap p) ≡ some d
  unfolding unregister
  cause-unregister none = h
  cause-unregister (some q) = ground arith

  cause-cancel :
      (k : Key) (c : ExecutionCancellationCause) → cause ((cancel r k c).0.heap p) ≡ some d
  unfolding cancel
  cause-cancel k c = elim (Option-cases (lookup k r.entries)) [
    | inl e ↦ ground arith
    | inr (q, e) ↦ ground (arith, cause-fire q (Cause.frozen c))
  ]

  cause-cancel_all : (c : ExecutionCancellationCause) → cause ((cancel_all r c).0.heap p) ≡ some d
  unfolding cancel_all
  cause-cancel_all c =
      let all : cause ((fire_all r r.entries (Cause.frozen c)).heap p) ≡ some d =
        rw (heap-fire_all r r.entries (Cause.frozen c) p)
          (cause-cancelled_if (registers r.entries p) (Cause.frozen c) d (r.heap p) h) in
      ground (arith, all)

  cause-prepare :
      (parent : Option Context) (k : Key) (m : Metadata)
      → Inv r
      → cause ((prepare r parent k m).0.heap p) ≡ some d
  unfolding prepare
  cause-prepare none k m v = h
  cause-prepare (some ctx) k m v = ground (arith, v.fresh p)

-- The first cancellation of a call decides its cause: after every further step, from every state
-- that can be reached, the cause is the same.
pub cause-Step :
    {r s : Registry} (p : ℕ) (d : Cause)
    → Reach r
    → Step r s
    → cause (r.heap p) ≡ some d
    → cause (s.heap p) ≡ some d
cause-Step {r} p d w (Step.prepares parent k m) h = cause-prepare r p d h parent k m (Reach-Inv w)
cause-Step {r} p d w (Step.activates q) h = cause-activate r p d h q
cause-Step {r} p d w (Step.unregisters q) h = cause-unregister r p d h q
cause-Step {r} p d w (Step.cancels k c) h = cause-cancel r p d h k c
cause-Step {r} p d w (Step.cancels_all c) h = cause-cancel_all r p d h c
cause-Step {r} p d w (Step.fires q c) h = cause-fire r p d h q c
