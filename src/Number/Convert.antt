-- ===== src/Number/Convert.antt =====
-- The integer and Boolean converters of internal/driver/ttc/converters/number.go.
use go_oracledb.Base.{
  ℕ, zero, suc, ◌+◌, ◌-◌, ◌*◌, ◌/◌, ◌%◌, ◌^◌, Bool, true, false, Option, none, some, List, [], ◌∷◌,
  length, get_elem?, leb, ltb, ◌<◌, ◌≡◌, refl, arith, ◌==◌, not, if◌then◌else◌,
}
use go_oracledb.Base.Int.{ℤ, pos, negsuc, neg_ℕ}
use go_oracledb.Base.Bytes.{Bytes}
use go_oracledb.Base.Outcome.{Outcome, ok, err, panic, ◌>>=◌}
use go_oracledb.Number.Decimal.{format_uint}
use go_oracledb.Number.Wire.{
  Error, expected_format, converter_range, invalid_format, out_of_range, precision_exceeded,
  from_number, encode_integer_digits_strict,
}

-- The sign and the int64 range, on a scaled mantissa.
unfoldable pub signed_mantissa : Bool → ℕ → Outcome Error ℤ
signed_mantissa true mantissa =
    if ltb (2 ^ 63) mantissa then err (converter_range out_of_range) else ok (neg_ℕ mantissa)
signed_mantissa false mantissa =
    if ltb (2 ^ 63 - 1) mantissa then err (converter_range out_of_range) else ok (pos mantissa)

-- `_pow10`.
abbrev pub pow10 : List ℕ
pow10 =
    1 ∷ 10 ∷ 100 ∷ 1000 ∷ 10000 ∷ 100000 ∷ 1000000 ∷ 10000000 ∷ 100000000 ∷ 1000000000 ∷ 10000000000
    ∷ 100000000000 ∷ 1000000000000 ∷ 10000000000000 ∷ 100000000000000 ∷ 1000000000000000
    ∷ 10000000000000000 ∷ 100000000000000000 ∷ 1000000000000000000 ∷ 10000000000000000000 ∷ []

-- `bits.Mul64` with an entry of `_pow10`, whose high word is 0 exactly if the product is below 2^64. An index behind
-- the table panics.
unfoldable pub times_power : ℕ → Option ℕ → Outcome Error ℕ
times_power mantissa none = panic
times_power mantissa (some power) =
    if not (mantissa * power / 2 ^ 64 == 0)
    then err (converter_range out_of_range)
    else ok (mantissa * power % 2 ^ 64)

unfoldable pub scale_mantissa : ℕ → ℕ → Outcome Error ℕ
unfolding times_power
scale_mantissa mantissa zero = ok mantissa
scale_mantissa mantissa (suc e) =
    if leb (length pow10) (suc e)
    then err (converter_range out_of_range)
    else times_power mantissa (get_elem? pow10 (suc e))

unfoldable pub integer_of : ℕ → Bool → ℤ → Outcome Error ℤ
unfolding signed_mantissa scale_mantissa
integer_of mantissa negative (negsuc e) = err (expected_format invalid_format)
integer_of mantissa negative (pos e) = scale_mantissa mantissa e >>= signed_mantissa negative

-- `DecodeInt`.
unfoldable pub decode_int : Bytes → Outcome Error ℤ
unfolding integer_of
decode_int bytes = from_number bytes >>= λ n. integer_of n.mantissa n.negative n.exponent

-- `EncodeInt` of an int64.
unfoldable pub encode_int : ℤ → Bytes
encode_int (pos zero) = 0x80 ∷ []
encode_int (pos (suc n)) = encode_integer_digits_strict (format_uint (suc n)) false
encode_int (negsuc n) = encode_integer_digits_strict (format_uint (suc n)) true

-- `EncodeUInt`.
unfoldable pub encode_uint : ℕ → Bytes
encode_uint zero = 0x80 ∷ []
encode_uint (suc n) = encode_integer_digits_strict (format_uint (suc n)) false

-- `EncodeBoolean`, `EncodeBooleanAsNumber`, `DecodeBoolean`.
unfoldable pub encode_boolean : Bool → Bytes
encode_boolean b = if b then 1 ∷ 1 ∷ [] else 0 ∷ []

unfoldable pub encode_boolean_as_number : Bool → Bytes
unfolding encode_int
encode_boolean_as_number b = if b then encode_int (pos 1) else encode_int (pos 0)

unfoldable pub decode_boolean : Bytes → Outcome Error Bool
decode_boolean [] = panic
decode_boolean (b ∷ bs) = ok (not (b == 0))

-- `addDigitToMantissa`, on a uint64 and an int.
unfoldable pub add_digit_to_mantissa : ℕ → ℤ → Outcome Error ℕ
add_digit_to_mantissa current (negsuc d) = err (expected_format invalid_format)
add_digit_to_mantissa current (pos digit) =
    let next = (current * 10 % 2 ^ 64 + digit) % 2 ^ 64 in
    if ltb 9 digit
    then err (expected_format invalid_format)
    else if ltb ((2 ^ 64 - 1) / 10) current
    then err (expected_format precision_exceeded)
    else if ltb next current
    then err (expected_format precision_exceeded)
    else ok next

pub get_elem?-pow10 : (e : ℕ) → e < 20 → get_elem? pow10 e ≡ some (10 ^ e)
get_elem?-pow10 zero h = refl
get_elem?-pow10 (suc zero) h = refl
get_elem?-pow10 (suc (suc zero)) h = refl
get_elem?-pow10 (suc (suc (suc zero))) h = refl
get_elem?-pow10 (suc (suc (suc (suc zero)))) h = refl
get_elem?-pow10 (suc (suc (suc (suc (suc zero))))) h = refl
get_elem?-pow10 (suc (suc (suc (suc (suc (suc zero)))))) h = refl
get_elem?-pow10 (suc (suc (suc (suc (suc (suc (suc zero))))))) h = refl
get_elem?-pow10 (suc (suc (suc (suc (suc (suc (suc (suc zero)))))))) h = refl
get_elem?-pow10 (suc (suc (suc (suc (suc (suc (suc (suc (suc zero))))))))) h = refl
get_elem?-pow10 (suc (suc (suc (suc (suc (suc (suc (suc (suc (suc zero)))))))))) h = refl
get_elem?-pow10 (suc (suc (suc (suc (suc (suc (suc (suc (suc (suc (suc zero))))))))))) h = refl
get_elem?-pow10 (suc (suc (suc (suc (suc (suc (suc (suc (suc (suc (suc (suc zero)))))))))))) h =
    refl
get_elem?-pow10 (suc (suc (suc (suc (suc (suc (suc (suc (suc (suc (suc (suc (suc zero)))))))))))))
      h =
    refl
get_elem?-pow10
      (suc (suc (suc (suc (suc (suc (suc (suc (suc (suc (suc (suc (suc (suc zero)))))))))))))) h =
    refl
get_elem?-pow10
      (suc (suc (suc (suc (suc (suc (suc (suc (suc (suc (suc (suc (suc (suc (suc zero)))))))))))))))
      h =
    refl
get_elem?-pow10
      (suc (
        suc
          (suc (suc (suc (suc (suc (suc (suc (suc (suc (suc (suc (suc (suc (suc zero))))))))))))))))
      h =
    refl
get_elem?-pow10
      (suc (
        suc (
          suc (
            suc
              (suc (suc (suc (suc (suc (suc (suc (suc (suc (suc (suc (suc (suc zero)))))))))))))))))
      h =
    refl
get_elem?-pow10
      (suc (
        suc (
          suc (
            suc (
              suc (
                suc
                  (suc (suc (suc (suc (suc (suc (suc (suc (suc (suc (suc (suc zero))))))))))))))))))
      h =
    refl
get_elem?-pow10
      (suc (
        suc (
          suc (
            suc (
              suc (
                suc (
                  suc (
                    suc
                      (suc (suc (suc (suc (suc (suc (suc (suc (suc (suc (suc zero)))))))))))))))))))
      h =
    refl
get_elem?-pow10
      (suc (
        suc (
          suc (
            suc (
              suc (
                suc (
                  suc (
                    suc (
                      suc
                        (suc (suc (suc (suc (suc (suc (suc (suc (suc (suc (suc e))))))))))))))))))))
      h =
    absurd (omega arith)
