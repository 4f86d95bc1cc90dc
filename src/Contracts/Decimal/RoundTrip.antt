-- ===== src/Contracts/Decimal/RoundTrip.antt =====
-- internal/contracts/values.go: `String` and `UnmarshalJSON` of a canonical decimal.
use agentops_go.Prelude.{
  ℕ, ◌%◌, ◌^◌, ◌<◌, Bool, true, false, not, ◌&&◌, ◌||◌, ◌==◌, ltb, Option, none, some, [], ◌∷◌,
  ◌++◌, ◌⊎◌, ◌↔◌, inl, inr, ◌≡◌, refl, sym, ap, subst, ◌∙◌, Bool-cases, arith, length,
  if◌then◌else◌,
}
use agentops_go.Contracts.Decimal.{
  Bytes, ℤ, is_negative, magnitude, CanonicalDecimal, new_decimal, DecimalError, trim_minus,
  with_minus, digits, format_int, placed, to_string, is_empty, all_digits, fit_int64, leading_zero,
  value, integer_part, fraction_part, contains_exponent, count_points, has_minus, parse_unsigned,
  parse_int, read_coefficient, parse_parts, parse_fraction, parse_decimal, bytes_eq, accepted,
  unmarshal_json,
}
use agentops_go.Contracts.Decimal.Normal.{
  IsStripped, InInt64, new_decimal-IsStripped, new_decimal_fixed, new_decimal-zero_scale,
  new_decimal-Within,
}
use agentops_go.Contracts.Decimal.Digits.{digits-Spells}
use agentops_go.Contracts.Decimal.Texts.{parse_decimal-pointed}
use agentops_go.Contracts.Decimal.Points.{placed-TwoParts}

-- No zero at the end of the fraction, zero without a fraction, both parts in their machine ranges.
abbrev pub IsCanonical : CanonicalDecimal → Type 0
IsCanonical d =
    IsStripped d
    × (magnitude d.coefficient ≡ 0 → d.scale ≡ 0)
    × InInt64 d.coefficient
    × (d.scale < 2 ^ 32)

to_string-digits :
    (c : ℤ) (s : ℕ)
    → to_string (record { coefficient = c; scale = s })
      ≡ with_minus (is_negative c) (placed (digits (magnitude c)) s)
unfolding to_string format_int
to_string-digits (ℤ.pos n) s = refl
to_string-digits (ℤ.negsuc n) s = refl

read_fit :
    (c : ℤ) (s : ℕ)
    → InInt64 c
    → read_coefficient (is_negative c) s (fit_int64 (is_negative c) (magnitude c)) ≡ inr (c, s)
read_fit c s h = ground arith

parse_decimal-to_string :
    (c : ℤ) (s : ℕ)
    → InInt64 c
    → s < 2 ^ 32
    → parse_decimal (to_string (record { coefficient = c; scale = s })) ≡ inr (c, s)
parse_decimal-to_string c s h small =
    let n = magnitude c in
    let b = is_negative c in
    let k = placed-TwoParts (digits n) s n (digits-Spells n) in
    let width : length k.fp % 2 ^ 32 ≡ s = ground (arith, k.behind_point) in
    ap parse_decimal (to_string-digits c s ∙ ap (with_minus b) k.text)
    ∙ parse_decimal-pointed b k.ip k.fp k.some_digit k.no_leading k.ip_digits k.fp_digits
    ∙ ap (λ w. read_coefficient b w (fit_int64 b (value 0 (k.ip ++ k.fp)))) width
    ∙ ap (λ w. read_coefficient b s (fit_int64 b w)) k.exact
    ∙ read_fit c s h

bytes_eq_refl : (s : Bytes) → bytes_eq s s ≡ true
bytes_eq_refl [] = refl
bytes_eq_refl (c ∷ s) = ground (arith, bytes_eq_refl s)

bytes_eq→≡ : (s t : Bytes) → bytes_eq s t ≡ true → s ≡ t
bytes_eq→≡ [] [] h = refl
bytes_eq→≡ [] (c ∷ t) h = ground arith
bytes_eq→≡ (c ∷ s) [] h = ground arith
bytes_eq→≡ (c ∷ s) (d ∷ t) h = ground (arith, bytes_eq→≡ s t)

unmarshal_canonical : (d : CanonicalDecimal) → IsCanonical d → unmarshal_json (to_string d) ≡ inr d
unfolding unmarshal_json
unmarshal_canonical d (stripped, zero_scale, fits, small) =
    let same = new_decimal_fixed d.coefficient d.scale stripped zero_scale in
    ap (accepted (to_string d)) (parse_decimal-to_string d.coefficient d.scale fits small)
    ∙ ap
        (λ x.
          if bytes_eq (to_string x) (to_string d) then inr x else inl DecimalError.not_canonical)
        same
    ∙ ap (λ b. if b then inr d else inl DecimalError.not_canonical) (bytes_eq_refl (to_string d))

new_decimal-IsCanonical : (c : ℤ) (s : ℕ) → InInt64 c → s < 2 ^ 32 → IsCanonical (new_decimal c s)
new_decimal-IsCanonical c s h small =
    let (fits, less) = new_decimal-Within c s h in
    (new_decimal-IsStripped c s, new_decimal-zero_scale c s, fits, omega arith)

-- The text that a constructed decimal prints, from an int64 coefficient and a uint32 scale, is read
-- back to the same decimal.
pub unmarshal_json-to_string :
    (c : ℤ) (s : ℕ)
    → InInt64 c
    → s < 2 ^ 32
    → unmarshal_json (to_string (new_decimal c s)) ≡ inr (new_decimal c s)
unmarshal_json-to_string c s h small =
    unmarshal_canonical (new_decimal c s) (new_decimal-IsCanonical c s h small)

fit_int64-InInt64 : (b : Bool) (n : ℕ) (c : ℤ) → fit_int64 b n ≡ some c → InInt64 c
fit_int64-InInt64 b n c h = ground arith

parse_unsigned-InInt64 : (b : Bool) (v : Bytes) (c : ℤ) → parse_unsigned b v ≡ some c → InInt64 c
unfolding parse_unsigned
parse_unsigned-InInt64 b v c h = elim (Bool-cases (is_empty v || not (all_digits v))) [
  | inl e ↦ ground (arith, e)
  | inr e ↦ fit_int64-InInt64 b (value 0 v) c (rw e at h)
]

parse_int-InInt64 : (v : Bytes) (c : ℤ) → parse_int v ≡ some c → InInt64 c
unfolding parse_int
parse_int-InInt64 [] c h = ground arith
parse_int-InInt64 (x ∷ v) c h = ground (
  arith,
  parse_unsigned-InInt64 true v c,
  parse_unsigned-InInt64 false v c,
  parse_unsigned-InInt64 false (x ∷ v) c,
)

-- A result that is no error is in the machine ranges.
abbrev Ranged : DecimalError ⊎ (ℤ × ℕ) → Type 0
Ranged (inl e) = Unit {0}
Ranged (inr (c, s)) = InInt64 c × (s < 2 ^ 32)

Ranged-unless :
    (b : Bool) (e : DecimalError) (r : DecimalError ⊎ (ℤ × ℕ))
    → Ranged r
    → Ranged (if b then inl e else r)
Ranged-unless true e r h = tt
Ranged-unless false e r h = h

read_coefficient-Ranged :
    (b : Bool) (w : ℕ) (o : Option ℤ)
    → ((c : ℤ) → o ≡ some c → InInt64 c)
    → w < 2 ^ 32
    → Ranged (read_coefficient b w o)
read_coefficient-Ranged b w none h k = tt
read_coefficient-Ranged b w (some c) h k =
    Ranged-unless (b && magnitude c == 0) DecimalError.negative_zero (inr (c, w)) (h c refl, k)

parse_parts-Ranged : (b : Bool) (ip fp : Bytes) → Ranged (parse_parts b ip fp)
unfolding parse_parts
parse_parts-Ranged b ip fp =
    Ranged-unless (not (all_digits (ip ++ fp))) DecimalError.invalid_digit
      (read_coefficient b (length fp % 2 ^ 32) (parse_int (with_minus b (ip ++ fp))))
      (read_coefficient-Ranged b (length fp % 2 ^ 32) (parse_int (with_minus b (ip ++ fp)))
        (parse_int-InInt64 (with_minus b (ip ++ fp))) (omega arith))

parse_fraction-Ranged : (b : Bool) (ip : Bytes) (o : Option Bytes) → Ranged (parse_fraction b ip o)
unfolding parse_fraction
parse_fraction-Ranged b ip none = parse_parts-Ranged b ip []
parse_fraction-Ranged b ip (some fp) =
    Ranged-unless (is_empty fp) DecimalError.invalid_fraction (parse_parts b ip fp)
      (parse_parts-Ranged b ip fp)

parse_decimal-Ranged : (v : Bytes) → Ranged (parse_decimal v)
unfolding parse_decimal
parse_decimal-Ranged v =
    let unsigned = trim_minus v in
    let ip = integer_part unsigned in
    let parts = parse_fraction (has_minus v) ip (fraction_part unsigned) in
    let with_ip =
      if is_empty ip || leading_zero ip then inl DecimalError.invalid_integer_part else parts in
    let one_point = is_empty unsigned || ltb 1 (count_points unsigned) in
    Ranged-unless (is_empty v || contains_exponent v) DecimalError.invalid_number
      (if one_point then inl DecimalError.invalid_number else with_ip)
      (Ranged-unless one_point DecimalError.invalid_number with_ip (
        Ranged-unless (is_empty ip || leading_zero ip) DecimalError.invalid_integer_part parts
          (parse_fraction-Ranged (has_minus v) ip (fraction_part unsigned))))

accepted_sound :
    (v : Bytes) (r : DecimalError ⊎ (ℤ × ℕ)) (d : CanonicalDecimal)
    → Ranged r
    → accepted v r ≡ inr d
    → (v ≡ to_string d) × IsCanonical d
accepted_sound v (inl e) d k h = ground arith
accepted_sound v (inr (c, s)) d (fits, small) h =
    elim (Bool-cases (bytes_eq (to_string (new_decimal c s)) v)) [
      | inl e ↦
          let same : new_decimal c s ≡ d = ground arith in
          (
            sym (bytes_eq→≡ (to_string (new_decimal c s)) v e) ∙ ap to_string same,
            subst IsCanonical same (new_decimal-IsCanonical c s fits small),
          )
      | inr e ↦ ground arith
    ]

-- A text is accepted as a decimal exactly when it is the print of that decimal, and the decimal is
-- canonical: an int64 coefficient, a uint32 scale, no zero at the end of the fraction, and zero without
-- a fraction.
pub unmarshal_json_iff :
    (v : Bytes) (d : CanonicalDecimal)
    → (unmarshal_json v ≡ inr d) ↔ ((v ≡ to_string d) × IsCanonical d)
unfolding unmarshal_json
unmarshal_json_iff v d = (
  accepted_sound v (parse_decimal v) d (parse_decimal-Ranged v),
  λ h. let (text, canonical) = h in ap unmarshal_json text ∙ unmarshal_canonical d canonical,
)
