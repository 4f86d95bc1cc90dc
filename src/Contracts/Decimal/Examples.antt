-- ===== src/Contracts/Decimal/Examples.antt =====
-- internal/contracts/values.go: decimals at concrete texts.
use agentops_go.Prelude.{◌-◌, ◌^◌, ◌↔◌, inl, inr, ◌≡◌, refl, arith}
use agentops_go.Contracts.Hash.{codes}
use agentops_go.Contracts.Decimal.{
  pos, negsuc, CanonicalDecimal, strip_zeros, new_decimal, digits_on, digits, format_int, placed,
  to_string, parse_unsigned, parse_int, DecimalError, parse_parts, parse_fraction, parse_decimal,
  unmarshal_json,
}
use agentops_go.Contracts.Decimal.Normal.{SameNumber, new_decimal_iff}
use agentops_go.Contracts.Decimal.RoundTrip.{
  IsCanonical, unmarshal_json-to_string, unmarshal_json_iff,
}

-- -12.05 and 0.007
abbrev minus_twelve : CanonicalDecimal
minus_twelve = record { coefficient = negsuc 1204; scale = 2 }

abbrev seven_thousandths : CanonicalDecimal
seven_thousandths = record { coefficient = pos 7; scale = 3 }

prints : (to_string minus_twelve ≡ codes "-12.05") × (to_string seven_thousandths ≡ codes "0.007")
unfolding to_string format_int digits digits_on placed
prints = (refl, refl)

refused :
    (unmarshal_json (codes "1.50") ≡ inl DecimalError.not_canonical)
    × (unmarshal_json (codes "-0") ≡ inl DecimalError.negative_zero)
    × (unmarshal_json (codes "01") ≡ inl DecimalError.invalid_integer_part)
    × (unmarshal_json (codes "1.") ≡ inl DecimalError.invalid_fraction)
    × (unmarshal_json (codes "1e2") ≡ inl DecimalError.invalid_number)
    × (unmarshal_json (codes "9223372036854775808") ≡ inl DecimalError.coefficient_out_of_range)
unfolding unmarshal_json parse_decimal parse_fraction parse_parts parse_int parse_unsigned
    new_decimal strip_zeros to_string format_int digits digits_on placed
refused = (refl, refl, refl, refl, refl, refl)

lowest :
    unmarshal_json (codes "-9223372036854775808")
    ≡ inr (record { coefficient = negsuc (2 ^ 63 - 1); scale = 0 })
unfolding unmarshal_json parse_decimal parse_fraction parse_parts parse_int parse_unsigned
    new_decimal strip_zeros to_string format_int digits digits_on placed
lowest = refl

unmarshal_json-to_string_example :
    unmarshal_json (to_string (new_decimal (negsuc 12049) 3)) ≡ inr (new_decimal (negsuc 12049) 3)
unmarshal_json-to_string_example =
    unmarshal_json-to_string (negsuc 12049) 3 (omega arith) (omega arith)

unmarshal_json_iff_example :
    (unmarshal_json (codes "-12.05") ≡ inr minus_twelve)
    ↔ ((codes "-12.05" ≡ to_string minus_twelve) × IsCanonical minus_twelve)
unmarshal_json_iff_example = unmarshal_json_iff (codes "-12.05") minus_twelve

new_decimal_iff_example :
    (new_decimal (pos 1500) 3 ≡ new_decimal (pos 15) 1) ↔ SameNumber (pos 1500) 3 (pos 15) 1
new_decimal_iff_example = new_decimal_iff (pos 1500) 3 (pos 15) 1
