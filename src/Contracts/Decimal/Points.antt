-- ===== src/Contracts/Decimal/Points.antt =====
-- internal/contracts/values.go: where `String` puts the point among the digits.
use agentops_go.Prelude.{
  ℕ, zero, suc, ◌+◌, ◌-◌, ◌<◌, true, false, ltb, [], ◌∷◌, ◌++◌, inl, inr, ◌≡◌, refl, ap, ◌∙◌,
  Bool-cases, arith, length,
}
use agentops_go.Contracts.Decimal.{
  Bytes, take, drop, replicate, placed, all_digits, is_empty, value, leading_zero,
}
use agentops_go.Contracts.Decimal.Digits.{Spells, all_digits-append}
use agentops_go.Contracts.Decimal.Texts.{pointed}

take-drop : (n : ℕ) (s : Bytes) → take n s ++ drop n s ≡ s
take-drop zero s = refl
take-drop (suc n) [] = refl
take-drop (suc n) (c ∷ s) = ap (λ x. c ∷ x) (take-drop n s)

length-drop : (n : ℕ) (s : Bytes) → length (drop n s) ≡ length s - n
length-drop zero s = ground arith
length-drop (suc n) [] = ground arith
length-drop (suc n) (c ∷ s) = ground (arith, length-drop n s)

all_digits-take : (n : ℕ) (s : Bytes) → all_digits s ≡ true → all_digits (take n s) ≡ true
all_digits-take zero s h = refl
all_digits-take (suc n) [] h = refl
all_digits-take (suc n) (c ∷ s) h = ground (arith, all_digits-take n s)

all_digits-drop : (n : ℕ) (s : Bytes) → all_digits s ≡ true → all_digits (drop n s) ≡ true
all_digits-drop zero s h = h
all_digits-drop (suc n) [] h = refl
all_digits-drop (suc n) (c ∷ s) h = all_digits-drop n s (ground arith)

all_digits-replicate : (n : ℕ) → all_digits (replicate n b'0') ≡ true
all_digits-replicate zero = refl
all_digits-replicate (suc n) = all_digits-replicate n

value-replicate : (n : ℕ) (s : Bytes) → value 0 (replicate n b'0' ++ s) ≡ value 0 s
value-replicate zero s = refl
value-replicate (suc n) s = value-replicate n s

length-zeros : (n : ℕ) (s : Bytes) → length (replicate n b'0' ++ s) ≡ n + length s
length-zeros zero s = ground arith
length-zeros (suc n) s = ground (arith, length-zeros n s)

-- What `String` prints of digits, as two parts.
pub record TwoParts (ds : Bytes) (scale : ℕ) (n : ℕ) : Type 0 where
  pub ip : Bytes
  pub fp : Bytes
  pub text : placed ds scale ≡ pointed ip fp
  pub some_digit : is_empty ip ≡ false
  pub no_leading : leading_zero ip ≡ false
  pub ip_digits : all_digits ip ≡ true
  pub fp_digits : all_digits fp ≡ true
  pub exact : value 0 (ip ++ fp) ≡ n
  pub behind_point : length fp ≡ scale

pointed-cons : (ip s : Bytes) → 0 < length s → ip ++ (b'.' ∷ s) ≡ pointed ip s
pointed-cons ip [] h = absurd (omega arith)
pointed-cons ip (c ∷ s) h = refl

++-nil : (s : Bytes) → s ++ [] ≡ s
++-nil [] = refl
++-nil (c ∷ s) = ap (λ x. c ∷ x) (++-nil s)

placed_whole : (ds : Bytes) → placed ds 0 ≡ ds
unfolding placed
placed_whole ds = refl

placed_inside :
    (ds : Bytes) (s : ℕ)
    → 0 < s
    → ltb s (length ds) ≡ true
    → placed ds s ≡ take (length ds - s) ds ++ (b'.' ∷ drop (length ds - s) ds)
unfolding placed
placed_inside ds s p h = ground arith

placed_before :
    (ds : Bytes) (s : ℕ)
    → 0 < s
    → ltb s (length ds) ≡ false
    → placed ds s ≡ b'0' ∷ b'.' ∷ (replicate (s - length ds) b'0' ++ ds)
unfolding placed
placed_before ds s p h = ground arith

take-some : (n : ℕ) (s : Bytes) → 0 < n → is_empty s ≡ false → is_empty (take n s) ≡ false
take-some zero s p h = absurd (omega arith)
take-some (suc n) [] p h = ground arith
take-some (suc n) (c ∷ s) p h = refl

take-leading : (n : ℕ) (s : Bytes) → leading_zero s ≡ false → leading_zero (take n s) ≡ false
take-leading zero s h = refl
take-leading (suc n) [] h = refl
take-leading (suc zero) (c ∷ s) h = ground arith
take-leading (suc (suc n)) (c ∷ []) h = ground arith
take-leading (suc (suc n)) (c ∷ d ∷ s) h = ground arith

pub placed-TwoParts : (ds : Bytes) (s n : ℕ) → Spells ds n → TwoParts ds s n
placed-TwoParts ds zero n k = record {
  ip = ds;
  fp = [];
  text = placed_whole ds;
  some_digit = k.some_digit;
  no_leading = k.no_leading;
  ip_digits = k.only_digits;
  fp_digits = refl;
  exact = ap (value 0) (++-nil ds) ∙ k.exact;
  behind_point = refl;
}
placed-TwoParts ds (suc s) n k = elim (Bool-cases (ltb (suc s) (length ds))) [
  | inl e ↦
      let m = length ds - suc s in
      let long : length (drop m ds) ≡ suc s = ground (arith, length-drop m ds) in
      record {
        ip = take m ds;
        fp = drop m ds;
        text =
            placed_inside ds (suc s) (omega arith) e
            ∙ pointed-cons (take m ds) (drop m ds) (omega (arith, long));
        some_digit = take-some m ds (ground arith) k.some_digit;
        no_leading = take-leading m ds k.no_leading;
        ip_digits = all_digits-take m ds k.only_digits;
        fp_digits = all_digits-drop m ds k.only_digits;
        exact = ap (value 0) (take-drop m ds) ∙ k.exact;
        behind_point = long;
      }
  | inr e ↦
      let m = suc s - length ds in
      let z = replicate m b'0' ++ ds in
      let long : length z ≡ suc s = ground (arith, length-zeros m ds) in
      record {
        ip = b'0' ∷ [];
        fp = z;
        text =
            placed_before ds (suc s) (omega arith) e
            ∙ pointed-cons (b'0' ∷ []) z (omega (arith, long));
        some_digit = refl;
        no_leading = refl;
        ip_digits = refl;
        fp_digits = all_digits-append (replicate m b'0') ds (all_digits-replicate m) k.only_digits;
        exact = value-replicate m ds ∙ k.exact;
        behind_point = long;
      }
]
