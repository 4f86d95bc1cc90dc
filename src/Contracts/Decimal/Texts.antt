-- ===== src/Contracts/Decimal/Texts.antt =====
-- internal/contracts/values.go: what `parseCanonicalDecimal` makes of digits with a point and a sign.
use agentops_go.Prelude.{
  ◌%◌, ◌^◌, Bool, true, false, ◌||◌, ltb, Option, none, some, [], ◌∷◌, ◌++◌, ◌≡◌, refl, ap, ◌∙◌,
  arith, length,
}
use agentops_go.Contracts.Decimal.{
  Bytes, has_minus, trim_minus, with_minus, all_digits, is_empty, value, fit_int64, parse_unsigned,
  parse_int, contains_exponent, count_points, integer_part, fraction_part, leading_zero,
  read_coefficient, parse_parts, parse_fraction, parse_decimal,
}
use agentops_go.Contracts.Decimal.Digits.{all_digits-append, is_empty-append}

-- The digits, with a point behind the first part where there is a fraction.
abbrev pub pointed : Bytes → Bytes → Bytes
pointed ip [] = ip
pointed ip (c ∷ fp) = ip ++ (b'.' ∷ c ∷ fp)

abbrev pub fraction_of : Bytes → Option Bytes
fraction_of [] = none
fraction_of (c ∷ s) = some (c ∷ s)

plain :
    (s : Bytes)
    → all_digits s ≡ true
    → (contains_exponent s ≡ false)
      × (count_points s ≡ 0)
      × (integer_part s ≡ s)
      × (fraction_part s ≡ none)
plain [] h = (refl, refl, refl, refl)
plain (c ∷ s) h = ground (arith, plain s)

behind :
    (s t : Bytes)
    → all_digits s ≡ true
    → all_digits t ≡ true
    → (contains_exponent (s ++ (b'.' ∷ t)) ≡ false)
      × (count_points (s ++ (b'.' ∷ t)) ≡ 1)
      × (integer_part (s ++ (b'.' ∷ t)) ≡ s)
      × (fraction_part (s ++ (b'.' ∷ t)) ≡ some t)
behind [] t hs ht = ground (arith, plain t)
behind (c ∷ s) t hs ht = ground (arith, behind s t)

-- A pointed text is split where the point stands.
pub record Split (s ip fp : Bytes) : Type 0 where
  pub no_exponent : contains_exponent s ≡ false
  pub one_point : ltb 1 (count_points s) ≡ false
  pub ip_part : integer_part s ≡ ip
  pub fp_part : fraction_part s ≡ fraction_of fp
  pub not_empty : is_empty s ≡ false
  pub no_minus : has_minus s ≡ false

first_digit : (s : Bytes) → is_empty s ≡ false → all_digits s ≡ true → has_minus s ≡ false
first_digit [] h k = ground arith
first_digit (c ∷ s) h k = ground arith

has_minus-append : (s t : Bytes) → is_empty s ≡ false → has_minus (s ++ t) ≡ has_minus s
has_minus-append [] t h = ground arith
has_minus-append (c ∷ s) t h = refl

pub pointed-Split :
    (ip fp : Bytes)
    → is_empty ip ≡ false
    → all_digits ip ≡ true
    → all_digits fp ≡ true
    → Split (pointed ip fp) ip fp
pointed-Split ip [] h hi hf =
    let (e, n, i, f) = plain ip hi in
    record {
      no_exponent = e;
      one_point = ground arith;
      ip_part = i;
      fp_part = f;
      not_empty = h;
      no_minus = first_digit ip h hi;
    }
pointed-Split ip (c ∷ fp) h hi hf =
    let (e, n, i, f) = behind ip (c ∷ fp) hi hf in
    record {
      no_exponent = e;
      one_point = ground arith;
      ip_part = i;
      fp_part = f;
      not_empty = is_empty-append ip (b'.' ∷ c ∷ fp) h;
      no_minus = has_minus-append ip (b'.' ∷ c ∷ fp) h ∙ first_digit ip h hi;
    }

parse_int_negative : (s : Bytes) → parse_int (b'-' ∷ s) ≡ parse_unsigned true s
unfolding parse_int
parse_int_negative s = refl

parse_int_positive :
    (s : Bytes) → is_empty s ≡ false → all_digits s ≡ true → parse_int s ≡ parse_unsigned false s
unfolding parse_int
parse_int_positive [] h k = ground arith
parse_int_positive (c ∷ s) h k = ground arith

parse_unsigned_digits :
    (b : Bool) (s : Bytes)
    → is_empty s ≡ false
    → all_digits s ≡ true
    → parse_unsigned b s ≡ fit_int64 b (value 0 s)
unfolding parse_unsigned
parse_unsigned_digits b s h k = rw (h, k) refl

pub parse_int_digits :
    (b : Bool) (s : Bytes)
    → is_empty s ≡ false
    → all_digits s ≡ true
    → parse_int (with_minus b s) ≡ fit_int64 b (value 0 s)
parse_int_digits true s h k = parse_int_negative s ∙ parse_unsigned_digits true s h k
parse_int_digits false s h k = parse_int_positive s h k ∙ parse_unsigned_digits false s h k

parse_fraction_of :
    (b : Bool) (ip fp : Bytes) → parse_fraction b ip (fraction_of fp) ≡ parse_parts b ip fp
unfolding parse_fraction
parse_fraction_of b ip [] = refl
parse_fraction_of b ip (c ∷ fp) = refl

parse_parts_digits :
    (b : Bool) (ip fp : Bytes)
    → is_empty (ip ++ fp) ≡ false
    → all_digits (ip ++ fp) ≡ true
    → parse_parts b ip fp
      ≡ read_coefficient b (length fp % 2 ^ 32) (fit_int64 b (value 0 (ip ++ fp)))
unfolding parse_parts
parse_parts_digits b ip fp h k =
    rw k (ap (read_coefficient b (length fp % 2 ^ 32)) (parse_int_digits b (ip ++ fp) h k))

parse_decimal_parts :
    (v : Bytes)
    → (is_empty v || contains_exponent v) ≡ false
    → (is_empty (trim_minus v) || ltb 1 (count_points (trim_minus v))) ≡ false
    → (is_empty (integer_part (trim_minus v)) || leading_zero (integer_part (trim_minus v))) ≡ false
    → parse_decimal v
      ≡ parse_fraction (has_minus v) (integer_part (trim_minus v)) (fraction_part (trim_minus v))
unfolding parse_decimal
parse_decimal_parts v a b c = rw (a, b, c) refl

trim_minus_none : (s : Bytes) → has_minus s ≡ false → trim_minus s ≡ s
trim_minus_none [] h = refl
trim_minus_none (c ∷ s) h = ground arith

parse_decimal-Split :
    (b : Bool) (s ip fp : Bytes)
    → Split s ip fp
    → is_empty ip ≡ false
    → leading_zero ip ≡ false
    → parse_decimal (with_minus b s) ≡ parse_fraction b ip (fraction_of fp)
parse_decimal-Split true s ip fp k h z =
    parse_decimal_parts (b'-' ∷ s) k.no_exponent (ground arith)
      (ap (λ x. is_empty x || leading_zero x) k.ip_part ∙ ground arith)
    ∙ ap (λ x. parse_fraction true x (fraction_part s)) k.ip_part
    ∙ ap (parse_fraction true ip) k.fp_part
parse_decimal-Split false s ip fp k h z =
    let same = trim_minus_none s k.no_minus in
    parse_decimal_parts s (ground arith)
      (ap (λ x. is_empty x || ltb 1 (count_points x)) same ∙ ground arith)
      (ap (λ x. is_empty (integer_part x) || leading_zero (integer_part x)) same
        ∙ ap (λ x. is_empty x || leading_zero x) k.ip_part
        ∙ ground arith)
    ∙ ap (λ x. parse_fraction x (integer_part (trim_minus s)) (fraction_part (trim_minus s)))
        k.no_minus
    ∙ ap (λ x. parse_fraction false (integer_part x) (fraction_part x)) same
    ∙ ap (λ x. parse_fraction false x (fraction_part s)) k.ip_part
    ∙ ap (parse_fraction false ip) k.fp_part

-- What the parser reads from digits with a point and a sign.
pub parse_decimal-pointed :
    (b : Bool) (ip fp : Bytes)
    → is_empty ip ≡ false
    → leading_zero ip ≡ false
    → all_digits ip ≡ true
    → all_digits fp ≡ true
    → parse_decimal (with_minus b (pointed ip fp))
      ≡ read_coefficient b (length fp % 2 ^ 32) (fit_int64 b (value 0 (ip ++ fp)))
parse_decimal-pointed b ip fp h z hi hf =
    parse_decimal-Split b (pointed ip fp) ip fp (pointed-Split ip fp h hi hf) h z
    ∙ parse_fraction_of b ip fp
    ∙ parse_parts_digits b ip fp (is_empty-append ip fp h) (all_digits-append ip fp hi hf)
