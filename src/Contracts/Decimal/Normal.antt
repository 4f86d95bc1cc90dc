-- ===== src/Contracts/Decimal/Normal.antt =====
-- internal/contracts/values.go: what `NewCanonicalDecimalV1` makes of a coefficient and a scale.
use agentops_go.Prelude.{
  ℕ, zero, suc, ◌*◌, ◌%◌, ◌^◌, ◌≤◌, ◌<◌, true, false, ◌==◌, ◌≡◌, refl, sym, ap, subst, ◌∙◌, ◌≢◌,
  ◌⊎◌, ◌↔◌, inl, inr, Bool-cases, arith,
}
use agentops_go.Contracts.Decimal.{
  ℤ, pos, is_negative, magnitude, signed, quot_ten, CanonicalDecimal, strip_zeros, new_decimal,
}

abbrev pub times_ten : ℤ → ℤ
times_ten c = signed (is_negative c) (magnitude c * 10)

-- c · 10 ^ k
abbrev pub shifted : ℤ → ℕ → ℤ
shifted c zero = c
shifted c (suc k) = times_ten (shifted c k)

-- c · 10 ^ -s and d · 10 ^ -t are one number.
abbrev pub SameNumber : ℤ → ℕ → ℤ → ℕ → Type 0
SameNumber c s d t = shifted c t ≡ shifted d s

-- No zero stands at the end of the fraction.
abbrev pub Stripped : ℤ → ℕ → Type 0
Stripped c s = (s ≡ 0) ⊎ (magnitude c % 10 ≢ 0)

abbrev pub Denotes : CanonicalDecimal → ℤ → ℕ → Type 0
Denotes d c s = SameNumber d.coefficient d.scale c s

abbrev pub IsStripped : CanonicalDecimal → Type 0
IsStripped d = Stripped d.coefficient d.scale

times_ten-inj : (a b : ℤ) → times_ten a ≡ times_ten b → a ≡ b
times_ten-inj a b h = ground arith

times_ten-digit : (a : ℤ) → magnitude (times_ten a) % 10 ≡ 0
times_ten-digit a = ground arith

shifted-times_ten : (c : ℤ) (k : ℕ) → shifted (times_ten c) k ≡ times_ten (shifted c k)
shifted-times_ten c zero = refl
shifted-times_ten c (suc k) = ap times_ten (shifted-times_ten c k)

shifted_comm : (c : ℤ) (j k : ℕ) → shifted (shifted c j) k ≡ shifted (shifted c k) j
shifted_comm c zero k = refl
shifted_comm c (suc j) k = shifted-times_ten (shifted c j) k ∙ ap times_ten (shifted_comm c j k)

shifted-inj : (a b : ℤ) (k : ℕ) → shifted a k ≡ shifted b k → a ≡ b
shifted-inj a b zero h = h
shifted-inj a b (suc k) h = shifted-inj a b k (times_ten-inj _ _ h)

SameNumber-trans :
    (a : ℤ) (s : ℕ) (b : ℤ) (t : ℕ) (c : ℤ) (u : ℕ)
    → SameNumber a s b t
    → SameNumber b t c u
    → SameNumber a s c u
SameNumber-trans a s b t c u h k = shifted-inj _ _ t (
    shifted_comm a u t
    ∙ ap (λ x. shifted x u) h
    ∙ shifted_comm b s u
    ∙ ap (λ x. shifted x s) k
    ∙ shifted_comm c t s)

Stripped-unique :
    (c : ℤ) (s : ℕ) (d : ℤ) (t : ℕ)
    → Stripped c s
    → Stripped d t
    → SameNumber c s d t
    → (c ≡ d) × (s ≡ t)
Stripped-unique c zero d zero hc hd h = (h, refl)
Stripped-unique c (suc s) d zero hc hd h = ground (arith, times_ten-digit (shifted d s))
Stripped-unique c zero d (suc t) hc hd h = ground (arith, times_ten-digit (shifted c t))
Stripped-unique c (suc s) d (suc t) (inl e) hd h = ground arith
Stripped-unique c (suc s) d (suc t) (inr e) (inl e') h = ground arith
Stripped-unique c (suc s) d (suc t) (inr e) (inr e') h =
    let (same, scales) = Stripped-unique c s d t (inr e) (inr e') (times_ten-inj _ _ h) in
    (same, ap suc scales)

times_ten-quot_ten : (c : ℤ) → (magnitude c % 10 == 0) ≡ true → times_ten (quot_ten c) ≡ c
times_ten-quot_ten c h = ground arith

strip_zeros_on :
    (c : ℤ) (s : ℕ)
    → (magnitude c % 10 == 0) ≡ true
    → strip_zeros c (suc s) ≡ strip_zeros (quot_ten c) s
unfolding strip_zeros
strip_zeros_on c s e = rw e refl

strip_zeros_end :
    (c : ℤ) (s : ℕ)
    → (magnitude c % 10 == 0) ≡ false
    → strip_zeros c (suc s) ≡ record { coefficient = c; scale = suc s }
unfolding strip_zeros
strip_zeros_end c s e = rw e refl

strip_zeros_zero : (c : ℤ) → strip_zeros c 0 ≡ record { coefficient = c; scale = 0 }
unfolding strip_zeros
strip_zeros_zero c = refl

-- The loop keeps the number.
strip_zeros-same : (c : ℤ) (s : ℕ) → Denotes (strip_zeros c s) c s
strip_zeros-same c zero = subst (λ d. Denotes d c 0) (sym (strip_zeros_zero c)) refl
strip_zeros-same c (suc s) = elim (Bool-cases (magnitude c % 10 == 0)) [
  | inl e ↦
      subst (λ d. Denotes d c (suc s)) (sym (strip_zeros_on c s e))
        (ap times_ten (strip_zeros-same (quot_ten c) s)
          ∙ sym (shifted-times_ten (quot_ten c) (strip_zeros (quot_ten c) s).scale)
          ∙ ap (λ x. shifted x (strip_zeros (quot_ten c) s).scale) (times_ten-quot_ten c e))
  | inr e ↦ subst (λ d. Denotes d c (suc s)) (sym (strip_zeros_end c s e)) refl
]

strip_zeros-IsStripped : (c : ℤ) (s : ℕ) → IsStripped (strip_zeros c s)
strip_zeros-IsStripped c zero = subst IsStripped (sym (strip_zeros_zero c)) (inl refl)
strip_zeros-IsStripped c (suc s) = elim (Bool-cases (magnitude c % 10 == 0)) [
  | inl e ↦ subst IsStripped (sym (strip_zeros_on c s e)) (strip_zeros-IsStripped (quot_ten c) s)
  | inr e ↦ subst IsStripped (sym (strip_zeros_end c s e)) (inr (ground arith))
]

strip_zeros_fixed :
    (c : ℤ) (s : ℕ) → Stripped c s → strip_zeros c s ≡ record { coefficient = c; scale = s }
strip_zeros_fixed c zero h = strip_zeros_zero c
strip_zeros_fixed c (suc s) (inl e) = ground arith
strip_zeros_fixed c (suc s) (inr e) = strip_zeros_end c s (ground arith)

shifted-zero : (k : ℕ) → shifted (pos 0) k ≡ pos 0
shifted-zero zero = refl
shifted-zero (suc k) = ap times_ten (shifted-zero k)

new_decimal_zero :
    (c : ℤ) (s : ℕ)
    → (magnitude c == 0) ≡ true
    → new_decimal c s ≡ record { coefficient = pos 0; scale = 0 }
unfolding new_decimal
new_decimal_zero c s e = rw e refl

new_decimal_nonzero :
    (c : ℤ) (s : ℕ) → (magnitude c == 0) ≡ false → new_decimal c s ≡ strip_zeros c s
unfolding new_decimal
new_decimal_nonzero c s e = rw e refl

zero_magnitude : (c : ℤ) → (magnitude c == 0) ≡ true → c ≡ pos 0
zero_magnitude c h = ground arith

new_decimal-same : (c : ℤ) (s : ℕ) → Denotes (new_decimal c s) c s
new_decimal-same c s = elim (Bool-cases (magnitude c == 0)) [
  | inl e ↦
      subst (λ d. Denotes d c s) (sym (new_decimal_zero c s e))
        (shifted-zero s ∙ sym (zero_magnitude c e))
  | inr e ↦ subst (λ d. Denotes d c s) (sym (new_decimal_nonzero c s e)) (strip_zeros-same c s)
]

pub new_decimal-IsStripped : (c : ℤ) (s : ℕ) → IsStripped (new_decimal c s)
new_decimal-IsStripped c s = elim (Bool-cases (magnitude c == 0)) [
  | inl e ↦ subst IsStripped (sym (new_decimal_zero c s e)) (inl refl)
  | inr e ↦ subst IsStripped (sym (new_decimal_nonzero c s e)) (strip_zeros-IsStripped c s)
]

-- Two constructed decimals are equal exactly when their arguments denote the same number.
pub new_decimal_iff :
    (c : ℤ) (s : ℕ) (d : ℤ) (t : ℕ) → (new_decimal c s ≡ new_decimal d t) ↔ SameNumber c s d t
new_decimal_iff c s d t =
    let r = new_decimal c s in
    let q = new_decimal d t in
    (
      λ h.
          SameNumber-trans c s r.coefficient r.scale d t (sym (new_decimal-same c s))
            (subst (λ x. Denotes x d t) (sym h) (new_decimal-same d t)),
      λ h.
          let (coefficients, scales) =
            Stripped-unique r.coefficient r.scale q.coefficient q.scale (new_decimal-IsStripped c s)
              (new_decimal-IsStripped d t)
              (SameNumber-trans r.coefficient r.scale c s q.coefficient q.scale
                (new_decimal-same c s)
                (SameNumber-trans c s d t q.coefficient q.scale h (sym (new_decimal-same d t)))) in
          λ i. record { coefficient = coefficients i; scale = scales i },
    )

-- What is stripped already is kept.
pub new_decimal_fixed :
    (c : ℤ) (s : ℕ)
    → Stripped c s
    → (magnitude c ≡ 0 → s ≡ 0)
    → new_decimal c s ≡ record { coefficient = c; scale = s }
new_decimal_fixed c s h z = elim (Bool-cases (magnitude c == 0)) [
  | inl e ↦ new_decimal_zero c s e ∙ (λ i. record {
    coefficient = sym (zero_magnitude c e) i;
    scale = sym (z (ap magnitude (zero_magnitude c e))) i;
  })
  | inr e ↦ new_decimal_nonzero c s e ∙ strip_zeros_fixed c s h
]

-- A constructed zero has no fraction.
pub new_decimal-zero_scale :
    (c : ℤ) (s : ℕ) → magnitude (new_decimal c s).coefficient ≡ 0 → (new_decimal c s).scale ≡ 0
new_decimal-zero_scale c s h = elim (Bool-cases (magnitude c == 0)) [
  | inl e ↦ ap (λ d. d.scale) (new_decimal_zero c s e)
  | inr e ↦
      let r = new_decimal c s in
      let none_left =
        ap (λ x. shifted x s) (zero_magnitude r.coefficient (ground arith)) ∙ shifted-zero s in
      let gone =
        shifted-inj c (pos 0) r.scale
          (sym (new_decimal-same c s) ∙ none_left ∙ sym (shifted-zero r.scale)) in
      ground (arith, ap magnitude gone)
]

-- The construction leaves the range of the coefficient and the scale.
abbrev pub InInt64 : ℤ → Type 0
InInt64 (ℤ.pos n) = n < 2 ^ 63
InInt64 (ℤ.negsuc n) = n < 2 ^ 63

abbrev pub Within : ℕ → CanonicalDecimal → Type 0
Within s d = InInt64 d.coefficient × (d.scale ≤ s)

InInt64-quot_ten : (c : ℤ) → InInt64 c → InInt64 (quot_ten c)
InInt64-quot_ten c h = ground arith

strip_zeros-Within : (c : ℤ) (s : ℕ) → InInt64 c → Within s (strip_zeros c s)
strip_zeros-Within c zero h = subst (Within 0) (sym (strip_zeros_zero c)) (h, omega arith)
strip_zeros-Within c (suc s) h = elim (Bool-cases (magnitude c % 10 == 0)) [
  | inl e ↦
      let (fits, less) = strip_zeros-Within (quot_ten c) s (InInt64-quot_ten c h) in
      subst (Within (suc s)) (sym (strip_zeros_on c s e)) (fits, omega arith)
  | inr e ↦ subst (Within (suc s)) (sym (strip_zeros_end c s e)) (h, omega arith)
]

pub new_decimal-Within : (c : ℤ) (s : ℕ) → InInt64 c → Within s (new_decimal c s)
new_decimal-Within c s h = elim (Bool-cases (magnitude c == 0)) [
  | inl e ↦ subst (Within s) (sym (new_decimal_zero c s e)) (omega arith, omega arith)
  | inr e ↦ subst (Within s) (sym (new_decimal_nonzero c s e)) (strip_zeros-Within c s h)
]
