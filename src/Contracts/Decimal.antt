-- ===== src/Contracts/Decimal.antt =====
-- internal/contracts/values.go: `CanonicalDecimalV1`, a decimal number without an exponent. Texts are
-- lists of bytes, an int64 is an integer, a uint32 keeps its `% 2 ^ 32`. The receiver of
-- `UnmarshalJSON` is not nil. Of `strconv`, `FormatInt` and `ParseInt` at base 10 and 64 bits are
-- written out.
pub mod Normal
pub mod Digits
pub mod Texts
pub mod Points
pub mod RoundTrip
mod Examples
use agentops_go.Prelude.{
  ℕ, zero, suc, ◌+◌, ◌-◌, ◌*◌, ◌/◌, ◌%◌, ◌^◌, Bool, true, false, not, ◌&&◌, ◌||◌, Option, none,
  some, List, [], ◌∷◌, ◌++◌, ◌⊎◌, inl, inr, ltb, leb, ◌==◌, if◌then◌else◌, length,
}

abbrev pub Bytes : Type 0
Bytes = List ℕ

-- `negsuc n` is -(n + 1).
pub data ℤ : Type 0 where
  pos negsuc : ℕ → ℤ

abbrev pub is_negative : ℤ → Bool
is_negative (pos _) = false
is_negative (negsuc _) = true

abbrev pub magnitude : ℤ → ℕ
magnitude (pos n) = n
magnitude (negsuc n) = suc n

-- The number with a sign and a magnitude.
abbrev pub signed : Bool → ℕ → ℤ
signed false n = pos n
signed true zero = pos 0
signed true (suc n) = negsuc n

-- Go's division truncates.
abbrev pub quot_ten : ℤ → ℤ
quot_ten c = signed (is_negative c) (magnitude c / 10)

pub record CanonicalDecimal : Type 0 where
  pub coefficient : ℤ
  pub scale : ℕ

-- The loop of `NewCanonicalDecimalV1`.
unfoldable pub strip_zeros : ℤ → ℕ → CanonicalDecimal
strip_zeros c zero = record { coefficient = c; scale = 0 }
strip_zeros c (suc s) =
    let rest = strip_zeros (quot_ten c) s in
    if magnitude c % 10 == 0 then rest else record { coefficient = c; scale = suc s }

unfoldable pub new_decimal : ℤ → ℕ → CanonicalDecimal
new_decimal c s =
    if magnitude c == 0 then record { coefficient = pos 0; scale = 0 } else strip_zeros c s

module _ {ℓ} {A : Type ℓ} where
  abbrev pub take : ℕ → List A → List A
  take zero _ = []
  take (suc n) [] = []
  take (suc n) (x ∷ xs) = x ∷ take n xs

  abbrev pub drop : ℕ → List A → List A
  drop zero xs = xs
  drop (suc n) [] = []
  drop (suc n) (x ∷ xs) = drop n xs

  abbrev pub replicate : ℕ → A → List A
  replicate zero x = []
  replicate (suc n) x = x ∷ replicate n x

-- The decimal digits, on fuel.
unfoldable pub digits_on : ℕ → ℕ → Bytes
digits_on zero n = []
digits_on (suc fuel) n =
    let rest = digits_on fuel (n / 10) in
    if ltb n 10 then (b'0' + n) ∷ [] else rest ++ ((b'0' + n % 10) ∷ [])

unfoldable pub digits : ℕ → Bytes
digits n = digits_on (suc n) n

-- `strconv.FormatInt` at base 10.
unfoldable pub format_int : ℤ → Bytes
format_int (pos n) = digits n
format_int (negsuc n) = b'-' ∷ digits (suc n)

abbrev pub has_minus : Bytes → Bool
has_minus [] = false
has_minus (c ∷ _) = c == b'-'

-- `strings.TrimPrefix` of a minus.
abbrev pub trim_minus : Bytes → Bytes
trim_minus [] = []
trim_minus (c ∷ s) = if c == b'-' then s else c ∷ s

-- Where `String` puts the point.
unfoldable pub placed : Bytes → ℕ → Bytes
placed ds scale =
    if scale == 0
    then ds
    else if ltb scale (length ds)
    then take (length ds - scale) ds ++ (b'.' ∷ drop (length ds - scale) ds)
    else b'0' ∷ b'.' ∷ (replicate (scale - length ds) b'0' ++ ds)

abbrev pub with_minus : Bool → Bytes → Bytes
with_minus negative s = if negative then b'-' ∷ s else s

unfoldable pub to_string : CanonicalDecimal → Bytes
unfolding format_int placed
to_string d =
    let negative = is_negative d.coefficient in
    let ds = if negative then trim_minus (format_int d.coefficient) else format_int d.coefficient in
    with_minus negative (placed ds d.scale)

abbrev pub is_digit : ℕ → Bool
is_digit c = leb b'0' c && leb c b'9'

abbrev pub all_digits : Bytes → Bool
all_digits [] = true
all_digits (c ∷ s) = is_digit c && all_digits s

abbrev pub is_empty : Bytes → Bool
is_empty [] = true
is_empty (_ ∷ _) = false

-- The number that digits spell behind `n`, with no bound.
abbrev pub value : ℕ → Bytes → ℕ
value n [] = n
value n (c ∷ s) = value (n * 10 + (c - b'0')) s

-- An int64, or out of range.
abbrev pub fit_int64 : Bool → ℕ → Option ℤ
fit_int64 negative n =
    if ltb n (2 ^ 63) || (negative && n == 2 ^ 63) then some (signed negative n) else none

unfoldable pub parse_unsigned : Bool → Bytes → Option ℤ
parse_unsigned negative s =
    if is_empty s || not (all_digits s) then none else fit_int64 negative (value 0 s)

-- `strconv.ParseInt` at base 10 and 64 bits.
unfoldable pub parse_int : Bytes → Option ℤ
parse_int [] = none
parse_int (c ∷ s) =
    if c == b'-'
    then parse_unsigned true s
    else if c == b'+'
    then parse_unsigned false s
    else parse_unsigned false (c ∷ s)

pub data DecimalError : Type 0 where
  invalid_number invalid_integer_part invalid_fraction invalid_digit : DecimalError
  coefficient_out_of_range negative_zero not_canonical : DecimalError

-- `strings.ContainsAny(value, "eE+")`.
abbrev pub contains_exponent : Bytes → Bool
contains_exponent [] = false
contains_exponent (c ∷ s) = c == b'e' || c == b'E' || c == b'+' || contains_exponent s

abbrev pub count_points : Bytes → ℕ
count_points [] = 0
count_points (c ∷ s) = if c == b'.' then suc (count_points s) else count_points s

-- `strings.SplitN(unsigned, ".", 2)`: what stands before the first point, and behind it.
abbrev pub integer_part : Bytes → Bytes
integer_part [] = []
integer_part (c ∷ s) = let rest = integer_part s in if c == b'.' then [] else c ∷ rest

abbrev pub fraction_part : Bytes → Option Bytes
fraction_part [] = none
fraction_part (c ∷ s) = let rest = fraction_part s in if c == b'.' then some s else rest

abbrev pub leading_zero : Bytes → Bool
leading_zero [] = false
leading_zero (c ∷ s) = c == b'0' && not (is_empty s)

abbrev pub read_coefficient : Bool → ℕ → Option ℤ → DecimalError ⊎ (ℤ × ℕ)
read_coefficient negative scale none = inl DecimalError.coefficient_out_of_range
read_coefficient negative scale (some c) =
    if negative && magnitude c == 0 then inl DecimalError.negative_zero else inr (c, scale)

-- Behind the two parts: their digits and the coefficient that these spell.
unfoldable pub parse_parts : Bool → Bytes → Bytes → DecimalError ⊎ (ℤ × ℕ)
parse_parts negative ip fp =
    if not (all_digits (ip ++ fp))
    then inl DecimalError.invalid_digit
    else read_coefficient negative (length fp % 2 ^ 32) (parse_int (with_minus negative (ip ++ fp)))

unfoldable pub parse_fraction : Bool → Bytes → Option Bytes → DecimalError ⊎ (ℤ × ℕ)
unfolding parse_parts
parse_fraction negative ip none = parse_parts negative ip []
parse_fraction negative ip (some fp) =
    if is_empty fp then inl DecimalError.invalid_fraction else parse_parts negative ip fp

unfoldable pub parse_decimal : Bytes → DecimalError ⊎ (ℤ × ℕ)
unfolding parse_fraction
parse_decimal v =
    let unsigned = trim_minus v in
    let ip = integer_part unsigned in
    if is_empty v || contains_exponent v
    then inl DecimalError.invalid_number
    else if is_empty unsigned || ltb 1 (count_points unsigned)
    then inl DecimalError.invalid_number
    else if is_empty ip || leading_zero ip
    then inl DecimalError.invalid_integer_part
    else parse_fraction (has_minus v) ip (fraction_part unsigned)

abbrev pub bytes_eq : Bytes → Bytes → Bool
bytes_eq [] [] = true
bytes_eq (a ∷ s) (b ∷ t) = a == b && bytes_eq s t
bytes_eq _ _ = false

abbrev pub accepted : Bytes → DecimalError ⊎ (ℤ × ℕ) → DecimalError ⊎ CanonicalDecimal
accepted v (inl e) = inl e
accepted v (inr (c, s)) =
    if bytes_eq (to_string (new_decimal c s)) v
    then inr (new_decimal c s)
    else inl DecimalError.not_canonical

unfoldable pub unmarshal_json : Bytes → DecimalError ⊎ CanonicalDecimal
unmarshal_json v = accepted v (parse_decimal v)
