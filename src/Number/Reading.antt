-- ===== src/Number/Reading.antt =====
-- What `FromNumber` reads from the bytes that `_toNumberStrict` packs (internal/driver/ttc/converters/number.go).
use go_oracledb.Base.{
  ℕ, suc, ◌+◌, ◌-◌, ◌*◌, ◌/◌, ◌%◌, ◌^◌, ◌≤◌, ◌<◌, ◌≡◌, refl, ap, ◌∙◌, Bool, true, false, [], ◌∷◌,
  ◌++◌, length, ltb, leb, ◌==◌, if◌then◌else◌, arith, All, length-append, Bool-cases, inl, inr,
}
use go_oracledb.Base.Int.{pos, sub_ℕ}
use go_oracledb.Base.Bytes.{Bytes}
use go_oracledb.Base.Outcome.{ok}
use go_oracledb.Number.Decimal.{IsDigit, digits_value}
use go_oracledb.Number.Wire.{
  pack, payload_of, wire_exponent, adjust_exponent, counted_digits, Number, from_number,
  encode_digits, validate_number_wire_length,
}
use go_oracledb.Number.Pairs.{
  pairs_value, odd_factor, odd_factor_lem, pairs_value-digits_value, unpack-pack,
  drop_terminator-append, length-pack, lead_byte, lead_byte_fields,
}

-- The payload with its terminator.
unfoldable pub terminated : Bool → Bytes → Bytes
terminated negative payload = if negative then payload ++ (0x66 ∷ []) else payload

pub payload_of-terminated :
    (negative : Bool) (lead : ℕ) (payload : Bytes)
    → 1 ≤ length payload
    → payload_of negative lead (terminated negative payload) ≡ ok payload
unfolding payload_of terminated
payload_of-terminated false lead payload some = refl
payload_of-terminated true lead [] some = absurd (omega (arith, some))
payload_of-terminated true lead (b ∷ bs) some = ap ok (drop_terminator-append (b ∷ bs))

pub length-terminated :
    (negative : Bool) (payload : Bytes) → length (terminated negative payload) ≤ length payload + 1
unfolding terminated
length-terminated true payload = omega (arith, length-append {0} payload (0x66 ∷ []))
length-terminated false payload = omega arith

-- What `FromNumber` reads from packed digits behind the lead byte of the base-100 exponent `x - 64`.
abbrev pub read_number : Bool → ℕ → Bytes → Number
read_number negative x ds = record {
  mantissa = pairs_value 0 ds;
  negative = negative;
  exponent = adjust_exponent (sub_ℕ x 64) (0 + 2 * ((length ds + 1) / 2));
  mantissa_digits = counted_digits (pack negative ds) (0 + 2 * ((length ds + 1) / 2));
}

pub from_number-pack :
    (negative : Bool) (x : ℕ) (ds : Bytes)
    → 65 ≤ x
    → x ≤ 126
    → 1 ≤ length ds
    → length ds ≤ 38
    → All IsDigit ds
    → pairs_value 0 ds < 2 ^ 64
    → from_number (lead_byte negative x ∷ terminated negative (pack negative ds))
      ≡ ok (read_number negative x ds)
unfolding from_number validate_number_wire_length
from_number-pack negative x ds lo hi some most digits fits =
    let (nonzero, sign, exponent) = lead_byte_fields negative x lo hi in
    let short : ltb 21 (suc (length (terminated negative (pack negative ds)))) ≡ false =
      ground (arith, length-terminated negative (pack negative ds), length-pack negative ds) in
    let payload =
      payload_of-terminated negative (lead_byte negative x) (pack negative ds)
        (omega (arith, length-pack negative ds)) in
    rw (short, nonzero, sign, payload, unpack-pack negative ds 0 0 digits fits, exponent) refl

-- The digits in pairs that start at an even exponent.
unfoldable pub widened : ℕ → Bytes → Bytes
widened e ds = if e % 2 == 0 then 48 ∷ ds else ds

pub length-widened : (e : ℕ) (ds : Bytes) → length (widened e ds) ≤ suc (length ds)
unfolding widened
length-widened e ds = ground arith

pub fits_wire : (n : ℕ) → n ≤ 38 → leb (1 + (n + 1) / 2 + 1) 21 ≡ true
fits_wire n h = ground arith

pub encode_digits_lem :
    (ds : Bytes) (negative : Bool) (e : ℕ)
    → length ds ≤ 37
    → e ≤ 122
    → encode_digits ds negative (pos e)
      ≡ lead_byte negative (e / 2 + 65) ∷ terminated negative (pack negative (widened e ds))
unfolding encode_digits wire_exponent terminated widened
encode_digits_lem ds true e short small =
    let x : (e / 2 + 1 + 64) % 2 ^ 8 ≡ e / 2 + 65 = omega arith in
    rw (x, fits_wire (length (widened e ds)) (omega (arith, length-widened e ds))) refl
encode_digits_lem ds false e short small =
    let x : (e / 2 + 1 + 64) % 2 ^ 8 ≡ e / 2 + 65 = omega arith in rw x refl

-- The exponent of the last digit's place, by the number `l` of digits and `t` of zeros behind them.
pub last_exponent :
    (l t n : ℕ)
    → 1 ≤ l
    → n ≡ l + (1 - (l - 1 + t) % 2)
    → adjust_exponent (sub_ℕ ((l - 1 + t) / 2 + 65) 64) (0 + 2 * ((n + 1) / 2)) ≡ pos (t - t % 2)
last_exponent l t n some h = ground arith

pub length_of-widened : (e : ℕ) (ds : Bytes) → length (widened e ds) ≡ length ds + (1 - e % 2)
unfolding widened
length_of-widened e ds = ground arith

pub All-widened : (e : ℕ) (ds : Bytes) → All IsDigit ds → All IsDigit (widened e ds)
unfolding widened
All-widened e ds h = elim (Bool-cases (e % 2 == 0)) [
  | inl y ↦ rw y ((omega arith, omega arith), h)
  | inr y ↦ rw y h
]

pub widened_value :
    (e : ℕ) (ds : Bytes)
    → pairs_value 0 (widened e ds)
      ≡ digits_value 0 ds * (if length (widened e ds) % 2 == 0 then 1 else 10)
unfolding widened digits_value
widened_value e ds =
    let split =
      elim (Bool-cases (e % 2 == 0)) as (λ b. digits_value 0 (widened e ds) ≡ digits_value 0 ds) [
        | inl y ↦ rw y refl
        | inr y ↦ rw y refl
      ] in
    pairs_value-digits_value 0 (widened e ds)
    ∙ ap (λ (t : ℕ). t * odd_factor (widened e ds)) split
    ∙ ap (λ (t : ℕ). digits_value 0 ds * t) (odd_factor_lem (widened e ds))

pub factor_of :
    (l t n : ℕ)
    → 1 ≤ l
    → n ≡ l + (1 - (l - 1 + t) % 2)
    → (if n % 2 == 0 then 1 else 10) ≡ 10 ^ (t % 2)
factor_of l t n some h = elim (Bool-cases (n % 2 == 0)) [
  | inl y ↦ let even : t % 2 ≡ 0 = ground arith in rw (y, even) refl
  | inr y ↦ let odd : t % 2 ≡ 1 = ground arith in rw (y, odd) refl
]
