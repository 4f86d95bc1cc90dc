-- ===== src/Contracts/Decimal/Digits.antt =====
-- internal/contracts/values.go: the digits of a coefficient, as `FormatInt` prints and `ParseInt`
-- reads them.
use agentops_go.Prelude.{
  ℕ, zero, suc, ◌+◌, ◌-◌, ◌*◌, ◌/◌, ◌%◌, ◌<◌, Bool, true, false, ◌==◌, ltb, [], ◌∷◌, ◌++◌, ◌≡◌,
  refl, sym, subst, inl, inr, Bool-cases, arith,
}
use agentops_go.Contracts.Decimal.{
  Bytes, digits_on, digits, all_digits, is_empty, value, leading_zero,
}

abbrev pub starts_zero : Bytes → Bool
starts_zero [] = false
starts_zero (c ∷ s) = c == b'0'

pub all_digits-append :
    (s t : Bytes) → all_digits s ≡ true → all_digits t ≡ true → all_digits (s ++ t) ≡ true
all_digits-append [] t hs ht = ht
all_digits-append (c ∷ s) t hs ht = ground (arith, all_digits-append s t)

pub value-append : (n : ℕ) (s t : Bytes) → value n (s ++ t) ≡ value (value n s) t
value-append n [] t = refl
value-append n (c ∷ s) t = value-append (n * 10 + (c - b'0')) s t

pub is_empty-append : (s t : Bytes) → is_empty s ≡ false → is_empty (s ++ t) ≡ false
is_empty-append [] t h = ground arith
is_empty-append (c ∷ s) t h = refl

starts_zero-append :
    (s t : Bytes) → is_empty s ≡ false → starts_zero s ≡ false → starts_zero (s ++ t) ≡ false
starts_zero-append [] t h k = ground arith
starts_zero-append (c ∷ s) t h k = k

-- The digits of `n`: not empty, all digits, spelling `n`, the first one zero for 0 alone.
pub record Spells (s : Bytes) (n : ℕ) : Type 0 where
  pub some_digit : is_empty s ≡ false
  pub only_digits : all_digits s ≡ true
  pub exact : value 0 s ≡ n
  pub no_zero : 0 < n → starts_zero s ≡ false
  pub no_leading : leading_zero s ≡ false

Spells-one : (n : ℕ) → ltb n 10 ≡ true → Spells ((b'0' + n) ∷ []) n
Spells-one n h = record {
  some_digit = refl;
  only_digits = ground arith;
  exact = omega arith;
  no_zero = λ p. ground arith;
  no_leading = ground arith;
}

leading-starts : (s : Bytes) → starts_zero s ≡ false → leading_zero s ≡ false
leading-starts [] h = refl
leading-starts (c ∷ s) h = ground arith

Spells-more :
    (s : Bytes) (n : ℕ)
    → ltb n 10 ≡ false
    → Spells s (n / 10)
    → Spells (s ++ ((b'0' + n % 10) ∷ [])) n
Spells-more s n h k =
    let d = (b'0' + n % 10) ∷ [] in
    let positive : 0 < n / 10 = ground arith in
    let first = starts_zero-append s d k.some_digit (k.no_zero positive) in
    record {
      some_digit = is_empty-append s d k.some_digit;
      only_digits = all_digits-append s d k.only_digits (ground arith);
      exact = ground (arith, value-append 0 s d, k.exact);
      no_zero = λ _. first;
      no_leading = leading-starts (s ++ d) first;
    }

digits_on_last : (fuel n : ℕ) → ltb n 10 ≡ true → digits_on (suc fuel) n ≡ (b'0' + n) ∷ []
unfolding digits_on
digits_on_last fuel n h = rw h refl

digits_on_more :
    (fuel n : ℕ)
    → ltb n 10 ≡ false
    → digits_on (suc fuel) n ≡ digits_on fuel (n / 10) ++ ((b'0' + n % 10) ∷ [])
unfolding digits_on
digits_on_more fuel n h = rw h refl

-- Fuel above the number is enough.
digits_on-Spells : (fuel n : ℕ) → n < fuel → Spells (digits_on fuel n) n
digits_on-Spells zero n h = elim h [ ]
digits_on-Spells (suc fuel) n h = elim (Bool-cases (ltb n 10)) [
  | inl e ↦ subst (λ s. Spells s n) (sym (digits_on_last fuel n e)) (Spells-one n e)
  | inr e ↦
      subst (λ s. Spells s n) (sym (digits_on_more fuel n e))
        (Spells-more (digits_on fuel (n / 10)) n e (digits_on-Spells fuel (n / 10) (ground arith)))
]

pub digits-Spells : (n : ℕ) → Spells (digits n) n
unfolding digits
digits-Spells n = digits_on-Spells (suc n) n (omega arith)
