-- ===== src/Number/Runs.antt =====
-- Runs of the NUMBER converters (internal/driver/ttc/converters/number.go).
use go_oracledb.Base.{◌-◌, ◌^◌, ◌≡◌, refl, true, false, [], ◌∷◌, arith}
use go_oracledb.Base.Int.{pos, negsuc}
use go_oracledb.Base.Outcome.{ok, err}
use go_oracledb.Number.Wire.{
  Number, converter_range, out_of_range, from_number, from_number_big, to_number, to_number_strict,
  trim_zeros, encode_integer_digits_strict,
}
use go_oracledb.Number.Decimal.{format_uint}
use go_oracledb.Number.Convert.{
  decode_int, encode_int, encode_uint, decode_boolean, encode_boolean, encode_boolean_as_number,
  add_digit_to_mantissa,
}
use go_oracledb.Number.RoundTrip.{
  decode_int-encode_int, decode_int-encode_uint, decode_boolean-encode_boolean,
}
use go_oracledb.Number.Equivalence.{from_number-from_number_big, SameOrOverflow}
use go_oracledb.Number.Packing.{to_number-to_number_strict}
use go_oracledb.Number.Bounds.{add_digit_to_mantissa-append_digit, append_digit}

-- -12300 on the wire: the lead byte, the pairs 1, 23 and the terminator.
encode_int_run : encode_int (negsuc 12299) ≡ 0x3c ∷ (100 ∷ (78 ∷ (0x66 ∷ [])))
unfolding encode_int encode_integer_digits_strict format_uint
encode_int_run = refl

decode_int-encode_int_example :
    decode_int (encode_int (negsuc (2 ^ 63 - 1))) ≡ ok (negsuc (2 ^ 63 - 1))
decode_int-encode_int_example =
    decode_int-encode_int (negsuc (2 ^ 63 - 1)) (omega arith) (omega arith)

decode_int-encode_uint_example :
    decode_int (encode_uint (2 ^ 63)) ≡ err (converter_range out_of_range)
decode_int-encode_uint_example = decode_int-encode_uint (2 ^ 63) (omega arith)

decode_boolean-encode_boolean_example :
    (decode_boolean (encode_boolean false) ≡ ok false)
    × (decode_boolean (encode_boolean_as_number false) ≡ ok true)
decode_boolean-encode_boolean_example = decode_boolean-encode_boolean false

from_number-from_number_big_example :
    SameOrOverflow (from_number (0xc3 ∷ (2 ∷ (24 ∷ [])))) (from_number_big (0xc3 ∷ (2 ∷ (24 ∷ []))))
from_number-from_number_big_example =
    from_number-from_number_big 0xc3 (2 ∷ (24 ∷ [])) (omega arith) refl

to_number-to_number_strict_example :
    to_number (49 ∷ (50 ∷ (48 ∷ []))) true (pos 2)
    ≡ ok (to_number_strict (trim_zeros (49 ∷ (50 ∷ (48 ∷ [])))) true (pos 2))
to_number-to_number_strict_example = to_number-to_number_strict (49 ∷ (50 ∷ (48 ∷ []))) true (pos 2)

add_digit_to_mantissa-append_digit_example :
    add_digit_to_mantissa (2 ^ 63) (pos 7) ≡ append_digit (2 ^ 63) (pos 7)
add_digit_to_mantissa-append_digit_example =
    add_digit_to_mantissa-append_digit (2 ^ 63) (pos 7) (omega arith)
