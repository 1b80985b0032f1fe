-- ===== src/Interval/MonthsText.antt =====
-- INTERVAL YEAR TO MONTH of internal/driver/ttc/converters/interval.go: the text of signed years and months, and
-- its encoding.
use go_oracledb.Base.{
  ℕ, zero, suc, ◌+◌, ◌-◌, ◌*◌, ◌/◌, ◌%◌, ◌^◌, ◌≤◌, ◌<◌, ◌≡◌, refl, sym, ap, ◌∙◌, Bool, true, false,
  ◌&&◌, [], ◌∷◌, ◌++◌, append_assoc, length, ltb, ◌==◌, if◌then◌else◌, arith, Bool-cases, inl, inr,
  lt→ltb, le→ltb_false, ltb→lt, ne→==_false,
}
use go_oracledb.Base.Runes.{Runes, trim_space, is_space}
use go_oracledb.Base.Outcome.{ok}
use go_oracledb.Base.Int.{pos, negsuc, ltb_ℤ}
use go_oracledb.Number.Decimal.{format_uint}
use go_oracledb.Interval.Tokens.{pad_two, split_sign}
use go_oracledb.Interval.YearToMonth.{
  format_months, years_digits, with_sign, assemble_year_to_month, encode_year_month_tokens,
  encode_unsigned_months, encode_year_to_month,
}
use go_oracledb.Interval.Digits.{
  Writes, pad_two-Writes, format_uint-Writes, length-format_uint, split_at-digits, parse_int-Writes,
  trim_space-digits, length-pad_two, digit_not_space, split_sign-digit,
}
use go_oracledb.Interval.Fields.{with_sign-parts}
use go_oracledb.Interval.MonthsBytes.{InYears, signed_bytes, unsigned_text, years_digits-digits}

pub assemble_lem :
    (negative : Bool) (years months : ℕ)
    → InYears years months
    → assemble_year_to_month negative years (pos months) ≡ ok (signed_bytes negative years months)
unfolding assemble_year_to_month
assemble_lem negative years months h =
    let parts = with_sign-parts negative years in
    let in_range : ltb 11 months ≡ false = le→ltb_false 11 months h.months_bound in
    let low : ltb_ℤ (with_sign negative years) (negsuc (2 ^ 31 - 1)) ≡ false =
      le→ltb_false _ _ (omega (arith, parts.1, h.years_bound)) in
    let high : ltb_ℤ (pos (2 ^ 31 - 1)) (with_sign negative years) ≡ false =
      le→ltb_false _ _ (omega (arith, parts.0, h.years_bound)) in
    rw (in_range, low, high)

tokens_lem :
    (negative : Bool) (years months : ℕ) (ys ms : Runes)
    → InYears years months
    → Writes years ys
    → length ys ≤ 9
    → Writes months ms
    → encode_year_month_tokens negative ys ms ≡ ok (signed_bytes negative years months)
unfolding encode_year_month_tokens
tokens_lem negative years months ys ms h hy short hm =
    let precise : ltb 9 (years_digits ys) ≡ false =
      le→ltb_false 9 (years_digits ys) (years_digits-digits ys hy.digits short) in
    let read_years = parse_int-Writes 32 years ys hy (omega (arith, h.years_bound)) in
    let read_months = parse_int-Writes 32 months ms hm (omega (arith, h.months_bound)) in
    rw (precise, read_years, read_months) (assemble_lem negative years months h)

encode_tokens :
    (negative : Bool) (years months : ℕ) (ys ms : Runes)
    → InYears years months
    → Writes years ys
    → length ys ≤ 9
    → Writes months ms
    → encode_unsigned_months negative (ys ++ (b'-' ∷ ms)) ≡ ok (signed_bytes negative years months)
unfolding encode_unsigned_months
encode_tokens negative years months ys ms h hy short hm =
    let split = split_at-digits b'-' ys ms hy.digits (λ d. absurd (omega (arith, d.0))) in
    let some_years : (length ys == 0) ≡ false =
      ne→==_false _ 0 (λ e. absurd (omega (arith, e, hy.some_digit))) in
    let some_months : (length ms == 0) ≡ false =
      ne→==_false _ 0 (λ e. absurd (omega (arith, e, hm.some_digit))) in
    rw (encode_unsigned_months, split, some_years, some_months)
      (tokens_lem negative years months ys ms h hy short hm)

minus_not_space : is_space b'-' ≡ false
unfolding is_space
minus_not_space = refl

encode_trimmed :
    (c : ℕ) (r : Runes)
    → trim_space (c ∷ r) ≡ c ∷ r
    → encode_year_to_month (c ∷ r)
      ≡ encode_unsigned_months (split_sign (c ∷ r)).0 (split_sign (c ∷ r)).1
unfolding encode_year_to_month
encode_trimmed c r h =
    let some_rune : (length (c ∷ r) == 0) ≡ false =
      ne→==_false _ 0 (λ e. absurd (omega (arith, e))) in
    rw (h, some_rune)

-- The encoding of a text with its sign.
encode_text :
    (negative : Bool) (years months : ℕ) (ys ms : Runes)
    → InYears years months
    → Writes years ys
    → length ys ≤ 9
    → Writes months ms
    → encode_year_to_month (unsigned_text negative (ys ++ (b'-' ∷ ms)))
      ≡ ok (signed_bytes negative years months)
unfolding unsigned_text
encode_text negative years months [] ms h hy short hm = absurd (omega (arith, hy.some_digit))
encode_text true years months (y ∷ ys) ms h hy short hm =
    let split = append_assoc (y ∷ ys) (b'-' ∷ []) ms in
    let trimmed : trim_space (b'-' ∷ (y ∷ ys) ++ (b'-' ∷ ms)) ≡ b'-' ∷ (y ∷ ys) ++ (b'-' ∷ ms) =
      ap (λ t. trim_space (b'-' ∷ t)) (sym split)
      ∙ (trim_space-digits b'-' ((y ∷ ys) ++ (b'-' ∷ [])) ms minus_not_space hm.digits hm.some_digit
          ∙ ap (λ t. b'-' ∷ t) split) in
    encode_trimmed b'-' _ trimmed
    ∙ (unfold split_sign in encode_tokens true years months (y ∷ ys) ms h hy short hm)
encode_text false years months (y ∷ ys) ms h hy short hm =
    let split = append_assoc ys (b'-' ∷ []) ms in
    let digit = hy.digits.0 in
    let trimmed : trim_space (y ∷ (ys ++ (b'-' ∷ ms))) ≡ y ∷ (ys ++ (b'-' ∷ ms)) =
      ap (λ t. trim_space (y ∷ t)) (sym split)
      ∙ (trim_space-digits y (ys ++ (b'-' ∷ [])) ms (digit_not_space y digit) hm.digits
            hm.some_digit
          ∙ ap (λ t. y ∷ t) split) in
    encode_trimmed y _ trimmed
    ∙ (rw (split_sign-digit y (ys ++ (b'-' ∷ ms)) digit)
        (encode_tokens false years months (y ∷ ys) ms h hy short hm))

-- `%02d` or `%d` of the years.
year_text : ℕ → Runes
year_text years = if ltb years 100 then pad_two years else format_uint years

format_months_lem :
    (negative : Bool) (total : ℕ)
    → format_months negative total
      ≡ unsigned_text negative (year_text (total / 12) ++ (b'-' ∷ pad_two (total % 12)))
unfolding format_months unsigned_text year_text
format_months_lem true total = elim (Bool-cases (ltb (total / 12) 100)) [
  | inl e ↦ rw e
  | inr e ↦ rw e
]
format_months_lem false total = elim (Bool-cases (ltb (total / 12) 100)) [
  | inl e ↦ rw e
  | inr e ↦ rw e
]

year_text-Writes :
    (years : ℕ) → years < 10 ^ 9 → Writes years (year_text years) × (length (year_text years) ≤ 9)
unfolding year_text
year_text-Writes years h = elim (Bool-cases (ltb years 100)) [
  | inl e ↦ rw e (
    pad_two-Writes years (omega (arith, h)),
    omega (arith, length-pad_two 1 years (ltb→lt _ _ e)),
  )
  | inr e ↦ rw e (format_uint-Writes years (omega (arith, h)), length-format_uint 8 years h)
]

pub encode_format :
    (negative : Bool) (years months : ℕ)
    → InYears years months
    → encode_year_to_month (format_months negative (years * 12 + months))
      ≡ ok (signed_bytes negative years months)
encode_format negative years months h =
    let year_part : (years * 12 + months) / 12 ≡ years = omega (arith, h.months_bound) in
    let month_part : (years * 12 + months) % 12 ≡ months = omega (arith, h.months_bound) in
    let (writes, short) = year_text-Writes years h.years_bound in
    let ms = pad_two-Writes months (omega (arith, h.months_bound)) in
    rw (format_months_lem negative (years * 12 + months), year_part, month_part)
      (encode_text negative years months (year_text years) (pad_two months) h writes short ms)

-- Nothing has no sign.
pub signed_bytes_zero :
    (negative : Bool) (years months : ℕ)
    → signed_bytes (negative && ltb 0 (years * 12 + months)) years months
      ≡ signed_bytes negative years months
signed_bytes_zero false years months = refl
signed_bytes_zero true zero zero = refl
signed_bytes_zero true zero (suc months) = rw (lt→ltb 0 (0 * 12 + suc months) (omega arith))
signed_bytes_zero true (suc years) months = rw (lt→ltb 0 (suc years * 12 + months) (omega arith))
