-- ===== src/Number/RoundTrip.antt =====
-- Integers survive `EncodeInt`, `EncodeUInt` and `DecodeInt` (internal/driver/ttc/converters/number.go).
use go_oracledb.Base.{
  ℕ, zero, suc, ◌+◌, ◌-◌, ◌*◌, ◌/◌, ◌%◌, ◌^◌, ◌≤◌, ◌<◌, ◌≡◌, refl, ap, sym, ◌∙◌, Bool, true, false,
  [], ◌∷◌, length, ltb, leb, ◌==◌, if◌then◌else◌, arith, All,
}
use go_oracledb.Base.Int.{ℤ, pos, negsuc, ◌≤ℤ◌}
use go_oracledb.Base.Bytes.{Bytes}
use go_oracledb.Base.Outcome.{ok, err, ◌>>=◌}
use go_oracledb.Number.Decimal.{IsDigit, digits_value, format_uint, format_uint-Formats, Formats}
use go_oracledb.Number.Wire.{
  converter_range, out_of_range, from_number, encode_digits, to_number_strict,
  encode_integer_digits_strict, trim_zeros, trailing_zeros, validate_number_wire_length,
}
use go_oracledb.Number.Pairs.{pairs_value}
use go_oracledb.Number.Trim.{digits_value-trim_zeros, length-trim_zeros, trim_zeros-IsDigit}
use go_oracledb.Number.Convert.{
  decode_int, encode_int, encode_uint, decode_boolean, encode_boolean, encode_boolean_as_number,
  integer_of, times_power, scale_mantissa, get_elem?-pow10, signed_mantissa,
}
use native.Mathlib.Nat.{pow-suc, mul_assoc, one-le-pow, le-mul_of_pos_right}
use go_oracledb.Number.Reading.{
  from_number-pack, widened, encode_digits_lem, last_exponent, length_of-widened, All-widened,
  widened_value, factor_of,
}

to_number_strict_lem :
    (ds : Bytes) (negative : Bool) (e : ℤ)
    → 1 ≤ length ds
    → to_number_strict ds negative e ≡ encode_digits ds negative e
unfolding to_number_strict
to_number_strict_lem [] negative e some = absurd (omega (arith, some))
to_number_strict_lem (d ∷ ds) negative e some = refl

-- A digit string for a number that is not 0 keeps a digit.
trimmed_some : (ds : Bytes) → 1 ≤ digits_value 0 ds → 1 ≤ length (trim_zeros ds)
unfolding digits_value
trimmed_some ds h =
    elim (trim_zeros ds)
        as (λ x. digits_value 0 ds ≡ digits_value 0 x * 10 ^ trailing_zeros ds → 1 ≤ length x) [
          | [] ↦ λ e. absurd (omega (arith, e))
          | x ∷ xs ↦ λ e. omega arith
        ]
      (digits_value-trim_zeros ds)

pow_split : (t a b : ℕ) → a ≤ 1 → t ≡ a + b → 10 ^ t ≡ 10 ^ a * 10 ^ b
pow_split t zero b small h =
    let same : t ≡ b = omega (arith, h) in ap (λ (k : ℕ). 10 ^ k) same ∙ omega arith
pow_split t (suc zero) b small h =
    let one_more : t ≡ suc b = omega (arith, h) in
    ap (λ (k : ℕ). 10 ^ k) one_more ∙ omega (arith, pow-suc 10 b)
pow_split t (suc (suc a)) b small h = absurd (omega (arith, small))

pow_parity : (t : ℕ) → 10 ^ t ≡ 10 ^ (t % 2) * 10 ^ (t - t % 2)
pow_parity t = pow_split t (t % 2) (t - t % 2) (omega arith) (omega arith)

scale_mantissa-lem : (m e n : ℕ) → m * 10 ^ e ≡ n → n < 2 ^ 64 → e < 20 → scale_mantissa m e ≡ ok n
unfolding scale_mantissa
scale_mantissa-lem m zero n h fits small = ap ok (omega (arith, h))
scale_mantissa-lem m (suc e) n h fits small =
    let low : leb 20 (suc e) ≡ false = ground arith in
    let no_high : (n / 2 ^ 64 == 0) ≡ true = ground arith in
    let same : n % 2 ^ 64 ≡ n = omega arith in
    rw (low, get_elem?-pow10 (suc e) small, times_power, h, no_high) (ap ok same)

-- The digits without their zeros, of a number that fits 64 bits.
record Trimmed (n : ℕ) (ds : Bytes) (t : ℕ) : Type 0 where
  value : digits_value 0 ds * 10 ^ t ≡ n
  digits : All IsDigit ds
  some_digit : 1 ≤ length ds
  at_most : length ds + t ≤ 20

trim_zeros-Trimmed :
    (n : ℕ) (ds : Bytes) → 1 ≤ n → Formats n ds 20 → Trimmed n (trim_zeros ds) (trailing_zeros ds)
trim_zeros-Trimmed n ds some h = record {
  value = sym (digits_value-trim_zeros ds) ∙ h.value;
  digits = trim_zeros-IsDigit ds h.digits;
  some_digit = trimmed_some ds (omega (arith, h.value));
  at_most = omega (arith, length-trim_zeros ds, h.at_most);
}

module _ (n : ℕ) (ds : Bytes) (t : ℕ) (h : Trimmed n ds t) where
  trimmed_mantissa :
      pairs_value 0 (widened (length ds - 1 + t) ds) ≡ digits_value 0 ds * 10 ^ (t % 2)
  trimmed_mantissa =
      widened_value (length ds - 1 + t) ds
      ∙ ap (λ (f : ℕ). digits_value 0 ds * f)
          (factor_of (length ds) t (length (widened (length ds - 1 + t) ds)) h.some_digit
            (length_of-widened (length ds - 1 + t) ds))

  trimmed_product : digits_value 0 ds * 10 ^ (t % 2) * 10 ^ (t - t % 2) ≡ n
  trimmed_product =
      mul_assoc (digits_value 0 ds) (10 ^ (t % 2)) (10 ^ (t - t % 2))
      ∙ ap (λ (f : ℕ). digits_value 0 ds * f) (sym (pow_parity t))
      ∙ h.value

  trimmed_fits : n < 2 ^ 64 → pairs_value 0 (widened (length ds - 1 + t) ds) < 2 ^ 64
  trimmed_fits fits =
      let pow = one-le-pow (t - t % 2) 10 (omega arith) in
      omega (
        arith,
        trimmed_mantissa,
        trimmed_product,
        le-mul_of_pos_right {m = 10 ^ (t - t % 2)} (digits_value 0 ds * 10 ^ (t % 2))
            (omega (arith, pow)),
      )

  -- `FromNumber` and the scaling give the number back, with its sign.
  integer_of-encode_digits :
      (negative : Bool)
      → n < 2 ^ 64
      → (from_number (encode_digits ds negative (pos (length ds - 1 + t))) >>= λ r.
          integer_of r.mantissa r.negative r.exponent)
        ≡ signed_mantissa negative n
  unfolding integer_of
  integer_of-encode_digits negative fits =
      let e = length ds - 1 + t in
      let size = length_of-widened (length ds - 1 + t) ds in
      let bound = h.at_most in
      let some = h.some_digit in
      let read =
        from_number-pack negative (e / 2 + 65) (widened e ds) (omega arith) (omega (arith, bound))
          (omega (arith, size, some)) (omega (arith, size, bound)) (All-widened e ds h.digits)
          (trimmed_fits fits) in
      let place = last_exponent (length ds) t (length (widened e ds)) some size in
      let scaled =
        scale_mantissa-lem (digits_value 0 ds * 10 ^ (t % 2)) (t - t % 2) n trimmed_product fits
          (omega (arith, bound, some)) in
      rw
        (
          encode_digits_lem ds negative e (omega (arith, bound)) (omega (arith, bound)),
          read,
          place,
          trimmed_mantissa,
          scaled,
        )
        refl

encode_integer_digits_strict_lem :
    (ds : Bytes) (negative : Bool)
    → 1 ≤ length (trim_zeros ds)
    → encode_integer_digits_strict ds negative
      ≡ encode_digits
          (trim_zeros ds)
          negative
          (pos (length (trim_zeros ds) - 1 + trailing_zeros ds))
unfolding encode_integer_digits_strict
encode_integer_digits_strict_lem ds negative some =
    let nonempty : (length (trim_zeros ds) == 0) ≡ false = ground arith in
    rw nonempty (to_number_strict_lem (trim_zeros ds) negative _ some)

-- The digits of a number from 1 to 2^64 - 1, written and read back.
decode_int-digits :
    (negative : Bool) (n : ℕ)
    → n < 2 ^ 64 - 1
    → decode_int (encode_integer_digits_strict (format_uint (suc n)) negative)
      ≡ signed_mantissa negative (suc n)
unfolding decode_int
decode_int-digits negative n fits =
    let h =
      trim_zeros-Trimmed (suc n) (format_uint (suc n)) (omega arith)
        (format_uint-Formats (suc n) (omega arith)) in
    rw (encode_integer_digits_strict_lem (format_uint (suc n)) negative h.some_digit) (
      integer_of-encode_digits (suc n) (trim_zeros (format_uint (suc n)))
        (trailing_zeros (format_uint (suc n))) h negative (omega arith))

decode_int-zero : decode_int (0x80 ∷ []) ≡ ok (pos 0)
unfolding decode_int integer_of scale_mantissa signed_mantissa from_number
    validate_number_wire_length
decode_int-zero = refl

-- Every int64 survives EncodeInt and DecodeInt.
pub decode_int-encode_int :
    (z : ℤ) → negsuc (2 ^ 63 - 1) ≤ℤ z → z ≤ℤ pos (2 ^ 63 - 1) → decode_int (encode_int z) ≡ ok z
unfolding encode_int signed_mantissa
decode_int-encode_int (pos zero) lo hi = decode_int-zero
decode_int-encode_int (pos (suc n)) lo hi =
    let small : ltb (2 ^ 63 - 1) (suc n) ≡ false = ground arith in
    decode_int-digits false n (omega (arith, hi)) ∙ rw small refl
decode_int-encode_int (negsuc n) lo hi =
    let small : ltb (2 ^ 63) (suc n) ≡ false = ground arith in
    decode_int-digits true n (omega (arith, lo)) ∙ rw small (ground arith)

-- A uint64 written by EncodeUInt is read back by DecodeInt up to 2^63 - 1 and refused as out of range above.
pub decode_int-encode_uint :
    (n : ℕ)
    → n < 2 ^ 64
    → decode_int (encode_uint n)
      ≡ (if ltb (2 ^ 63 - 1) n then err (converter_range out_of_range) else ok (pos n))
unfolding encode_uint signed_mantissa
decode_int-encode_uint zero fits = decode_int-zero
decode_int-encode_uint (suc n) fits = decode_int-digits false n (omega (arith, fits))

-- DecodeBoolean reads what EncodeBoolean writes, and as true whatever EncodeBooleanAsNumber writes.
pub decode_boolean-encode_boolean :
    (b : Bool)
    → (decode_boolean (encode_boolean b) ≡ ok b)
      × (decode_boolean (encode_boolean_as_number b) ≡ ok true)
unfolding decode_boolean encode_boolean encode_boolean_as_number encode_int
    encode_integer_digits_strict format_uint
decode_boolean-encode_boolean true = (refl, refl)
decode_boolean-encode_boolean false = (refl, refl)
