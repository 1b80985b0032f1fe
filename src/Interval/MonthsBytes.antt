-- ===== src/Interval/MonthsBytes.antt =====
-- INTERVAL YEAR TO MONTH of internal/driver/ttc/converters/interval.go: the bytes of signed years and months, and
-- the text that they decode to.
use go_oracledb.Base.{
  ℕ, zero, suc, ◌+◌, ◌-◌, ◌*◌, ◌^◌, ◌≤◌, ◌<◌, ◌≡◌, refl, ap, ◌∙◌, Bool, true, false, ◌&&◌, ◌∷◌,
  length, ltb, ◌==◌, arith, All, Bool-cases, inl, inr, lt→ltb, le→ltb_false,
}
use go_oracledb.Base.Bytes.{Bytes, be_bytes}
use go_oracledb.Base.Runes.{Runes}
use go_oracledb.Base.Outcome.{Outcome, ok}
use go_oracledb.Base.Int.{ℤ, pos, negsuc, pos_part, neg_part, sub_ℕ, ltb_ℤ, pattern_of}
use go_oracledb.Number.Decimal.{IsDigit}
use go_oracledb.Interval.Tokens.{Error, byte_length}
use go_oracledb.Interval.YearToMonth.{
  format_months, total_months, decode_months, decode_year_to_month, leading_zeros, years_digits,
  with_sign, year_to_month_bytes,
}
use go_oracledb.Interval.Digits.{byte_length-digits}
use go_oracledb.Interval.Fields.{
  IsInt32, int32_field, biased-with_sign, sub_ℕ-pos, sub_ℕ-with_sign, with_sign-IsInt32,
  with_sign-parts, pos_part-with_sign, neg_part-with_sign,
}

-- A sign, years and months that the encoder writes.
pub record InYears (years months : ℕ) : Type 0 where
  pub years_bound : years < 10 ^ 9
  pub months_bound : months ≤ 11

abbrev pub signed_bytes : Bool → ℕ → ℕ → Bytes
signed_bytes negative years months =
    year_to_month_bytes (with_sign negative years) (with_sign negative months)

decode_bytes :
    (years months : ℤ)
    → IsInt32 years
    → decode_year_to_month (year_to_month_bytes years months)
      ≡ decode_months years (pattern_of 8 (sub_ℕ (60 + pos_part months) (neg_part months)))
unfolding decode_year_to_month year_to_month_bytes be_bytes
decode_bytes years months h =
    ap (λ y. decode_months y (pattern_of 8 (sub_ℕ (60 + pos_part months) (neg_part months))))
      (int32_field years h)

total_months-with_sign :
    (negative : Bool) (years months : ℕ)
    → total_months (with_sign negative years) (with_sign negative months)
      ≡ with_sign negative (years * 12 + months)
unfolding total_months
total_months-with_sign false years months = sub_ℕ-pos _ _ (omega arith) ∙ ap pos (omega arith)
total_months-with_sign true years months =
    rw
      (
        pos_part-with_sign years,
        pos_part-with_sign months,
        neg_part-with_sign years,
        neg_part-with_sign months,
      )
      (sub_ℕ-with_sign (years * 12 + months))

format_signed :
    (negative : Bool) (total : ℕ)
    → elim (with_sign negative total) as (λ z. Outcome Error Runes) [
      | pos n ↦ ok (format_months false n)
      | negsuc n ↦ ok (format_months true (suc n))
    ]
      ≡ ok (format_months (negative && ltb 0 total) total)
format_signed false total = refl
format_signed true zero = refl
format_signed true (suc n) = rw (lt→ltb 0 (suc n) (omega arith))

decode_months_lem :
    (negative : Bool) (years months : ℕ)
    → months ≤ 11
    → decode_months (with_sign negative years) (
        pattern_of 8 (
          sub_ℕ (60 + pos_part (with_sign negative months)) (neg_part (with_sign negative months))))
      ≡ ok (format_months (negative && ltb 0 (years * 12 + months)) (years * 12 + months))
unfolding decode_months
decode_months_lem negative years months h =
    let parts = with_sign-parts negative months in
    let low : ltb_ℤ (with_sign negative months) (negsuc 10) ≡ false =
      le→ltb_false _ _ (omega (arith, parts.1)) in
    let high : ltb_ℤ (pos 11) (with_sign negative months) ≡ false =
      le→ltb_false _ _ (omega (arith, parts.0)) in
    rw
      (
        biased-with_sign negative months (omega (arith, h)),
        low,
        high,
        total_months-with_sign negative years months,
      )
      (format_signed negative (years * 12 + months))

pub decode_signed_bytes :
    (negative : Bool) (years months : ℕ)
    → InYears years months
    → decode_year_to_month (signed_bytes negative years months)
      ≡ ok (format_months (negative && ltb 0 (years * 12 + months)) (years * 12 + months))
decode_signed_bytes negative years months h =
    decode_bytes (with_sign negative years) (with_sign negative months)
      (with_sign-IsInt32 negative years (omega (arith, h.years_bound)))
    ∙ decode_months_lem negative years months h.months_bound

-- A sign in front of the text of a number.
unfoldable pub unsigned_text : Bool → Runes → Runes
unsigned_text true text = b'-' ∷ text
unsigned_text false text = text

pub years_digits-digits : (ds : Runes) → All IsDigit ds → length ds ≤ 9 → years_digits ds ≤ 9
unfolding years_digits
years_digits-digits ds h short = elim (Bool-cases (byte_length ds - leading_zeros ds == 0)) [
  | inl e ↦ rw e (omega arith)
  | inr e ↦ rw e (omega (arith, byte_length-digits ds h, short))
]
