-- ===== src/TaskRuntime/Store/Blocks.antt =====
-- Rules for blocks of statements: the inversion of a successful bind, and what every success of a
-- block ensures.
use agentops_go.Prelude.{
  Bool, true, false, ◌≡◌, ◌≢◌, refl, subst, ◌⊎◌, inl, inr, arith, if◌then◌else◌,
}
use agentops_go.TaskRuntime.Store.Transaction.{
  Tx, TxError, Result, ok, err, Tables, after, ◌>>=◌, execute,
}

pub Result-cases :
    {A : Type 0} (r : Result A) → ((a : A) × (r ≡ ok a)) ⊎ ((e : TxError) × (r ≡ err e))
Result-cases (ok a) = inl (a, refl)
Result-cases (err e) = inr (e, refl)

pub ok_inj : {A : Type 0} {a b : A} → ok a ≡ ok b → a ≡ b
ok_inj h = ground arith

pub err-ne-ok : {A : Type 0} {e : TxError} {a : A} → err e ≢ ok a
err-ne-ok = cc

pub after-eq_ok :
    {S A B : Type 0} (r : Result (A × S)) (f : A → Tx S B) {b : B} {s' : S}
    → after r f ≡ ok (b, s')
    → (a : A) × (s1 : S) × (r ≡ ok (a, s1)) × (f a s1 ≡ ok (b, s'))
after-eq_ok (ok (a, s1)) f h = (a, s1, refl, h)
after-eq_ok (err e) f h = absurd (cc)

-- Every success of `m` ends in tables with `P`.
pub record Ensures {A : Type 0} (P : Tables → Type 0) (m : Tx Tables A) : Type 0 where
  pub at : (s : Tables) {a : A} {s' : Tables} → m s ≡ ok (a, s') → P s'

-- Every success of `m` that starts in tables with `P` ends in such.
pub record Keeps {A : Type 0} (P : Tables → Type 0) (m : Tx Tables A) : Type 0 where
  pub at : (s : Tables) {a : A} {s' : Tables} → P s → m s ≡ ok (a, s') → P s'

module _ {A B : Type 0} {P : Tables → Type 0} (m : Tx Tables A) (f : A → Tx Tables B) where
  pub Ensures-last : ((a : A) → Ensures P (f a)) → Ensures P (m >>= f)
  Ensures-last e = record { at = λ s h. let (a, s1, _, k) = after-eq_ok (m s) f h in (e a).at s1 k }

  pub Ensures-first : Ensures P m → ((a : A) → Keeps P (f a)) → Ensures P (m >>= f)
  Ensures-first e kept = record {
    at = λ s h. let (a, s1, k, l) = after-eq_ok (m s) f h in (kept a).at s1 (e.at s k) l;
  }

  pub Keeps-bind : Keeps P m → ((a : A) → Keeps P (f a)) → Keeps P (m >>= f)
  Keeps-bind e kept = record {
    at = λ s p h. let (a, s1, k, l) = after-eq_ok (m s) f h in (kept a).at s1 (e.at s p k) l;
  }

pub Keeps-pure : {A : Type 0} {P : Tables → Type 0} (a : A) → Keeps P (λ s. ok (a, s))
Keeps-pure {P} a = record { at = λ s p h. subst P (ground arith) p }

pub Ensures-if :
    {A : Type 0} {P : Tables → Type 0} (b : Bool) (m n : Tx Tables A)
    → Ensures P m
    → Ensures P n
    → Ensures P (if b then m else n)
Ensures-if true m n e k = e
Ensures-if false m n e k = k

-- `Execute` commits, or rolls back.
pub execute-cases :
    {S A : Type 0} (m : Tx S A) (s : S)
    → ((a : A) × (s' : S) × (m s ≡ ok (a, s')) × (execute m s ≡ (ok a, s')))
      ⊎ ((e : TxError) × (execute m s ≡ (err e, s)))
unfolding execute
execute-cases m s = elim (Result-cases (m s)) [
  | inl ((a, s'), h) ↦ inl (a, s', h, rw (h, execute) refl)
  | inr (e, h) ↦ inr (e, rw (h, execute) refl)
]
