-- ===== src/Interval/MonthsRoundTrip.antt =====
-- INTERVAL YEAR TO MONTH of internal/driver/ttc/converters/interval.go: the text of an encoding has that encoding.
use go_oracledb.Base.{
  ℕ, ◌+◌, ◌*◌, ◌^◌, ◌≤◌, ◌<◌, ◌≡◌, refl, sym, ap, ◌∙◌, Bool, ◌||◌, ◌&&◌, Option, none, some, length,
  ltb, ◌==◌, Option-cases, Bool-cases, inl, inr, ltb_false→le,
}
use go_oracledb.Base.Bytes.{Bytes}
use go_oracledb.Base.Runes.{Runes, trim_space}
use go_oracledb.Base.Outcome.{Outcome, ok, err, Ensures, ensures_ok, ensures_err, Ensures-ok}
use go_oracledb.Base.Int.{ℤ, pos, negsuc}
use go_oracledb.Interval.Tokens.{parse_years, parse_months, split_at, parse_int, split_sign}
use go_oracledb.Interval.YearToMonth.{
  format_months, decode_year_to_month, years_digits, assemble_year_to_month,
  encode_year_month_tokens, encode_unsigned_months, encode_year_to_month,
}
use go_oracledb.Interval.Magnitude.{years_bound}
use go_oracledb.Interval.MonthsBytes.{InYears, signed_bytes, decode_signed_bytes}
use go_oracledb.Interval.MonthsText.{assemble_lem, encode_format, signed_bytes_zero}

-- What the encoder writes.
abbrev pub IsYearMonth : Bytes → Type 0
IsYearMonth w =
    (negative : Bool) × (years : ℕ) × (months : ℕ) × InYears years months
    × (w ≡ signed_bytes negative years months)

assemble-IsYearMonth :
    (negative : Bool) (years : ℕ) (months : ℤ)
    → years < 10 ^ 9
    → Ensures IsYearMonth (assemble_year_to_month negative years months)
unfolding assemble_year_to_month
assemble-IsYearMonth negative years (negsuc months) h = ensures_err _
assemble-IsYearMonth negative years (pos months) h = elim (Bool-cases (ltb 11 months)) [
  | inl e ↦ rw e (ensures_err _)
  | inr e ↦
      let bounds : InYears years months = record {
        years_bound = h;
        months_bound = ltb_false→le _ _ e;
      } in
      rw (assemble_lem negative years months bounds)
        (ensures_ok _ (negative, years, months, bounds, refl))
]

tokens-IsYearMonth :
    (negative : Bool) (ys ms : Runes)
    → Ensures IsYearMonth (encode_year_month_tokens negative ys ms)
unfolding encode_year_month_tokens
tokens-IsYearMonth negative ys ms = elim (Bool-cases (ltb 9 (years_digits ys))) [
  | inl e ↦ rw e (ensures_err _)
  | inr e ↦ rw e (with_years (parse_int 32 ys) refl (ltb_false→le _ _ e))
]
  where
    with_months :
        (years : ℕ)
        → years < 10 ^ 9
        → (m : Option ℤ)
        → Ensures IsYearMonth (elim m [
          | none ↦ err parse_months
          | some months ↦ assemble_year_to_month negative years months
        ])
    with_months years h none = ensures_err _
    with_months years h (some months) = assemble-IsYearMonth negative years months h

    with_years :
        (y : Option ℤ)
        → parse_int 32 ys ≡ y
        → years_digits ys ≤ 9
        → Ensures IsYearMonth (elim y [
          | none ↦ err parse_years
          | some (negsuc n) ↦ err parse_years
          | some (pos years) ↦ elim (parse_int 32 ms) [
            | none ↦ err parse_months
            | some months ↦ assemble_year_to_month negative years months
          ]
        ])
    with_years none e h = ensures_err _
    with_years (some (negsuc n)) e h = ensures_err _
    with_years (some (pos years)) e h =
        with_months years (years_bound 32 ys years h e) (parse_int 32 ms)

unsigned-IsYearMonth :
    (negative : Bool) (text : Runes) → Ensures IsYearMonth (encode_unsigned_months negative text)
unfolding encode_unsigned_months
unsigned-IsYearMonth negative text = elim (Option-cases (split_at b'-' text)) [
  | inl e ↦ rw (encode_unsigned_months, e) (ensures_err _)
  | inr (parts, e) ↦ elim (Bool-cases ((length parts.0 == 0) || (length parts.1 == 0))) [
    | inl f ↦ rw (encode_unsigned_months, e, f) (ensures_err _)
    | inr f ↦ rw (encode_unsigned_months, e, f) (tokens-IsYearMonth negative parts.0 parts.1)
  ]
]

encode-IsYearMonth : (canon : Runes) → Ensures IsYearMonth (encode_year_to_month canon)
unfolding encode_year_to_month
encode-IsYearMonth canon = elim (Bool-cases (length (trim_space canon) == 0)) [
  | inl e ↦ rw e (ensures_err _)
  | inr e ↦
      rw e
        (unsigned-IsYearMonth (split_sign (trim_space canon)).0 (split_sign (trim_space canon)).1)
]

-- The text of an encoding.
abbrev pub HasText {ℓ} :
    {E : Type ℓ} → (Bytes → Outcome E Runes) → (Runes → Outcome E Bytes) → Bytes → Type ℓ
HasText decode encode w = (canon : Runes) × (decode w ≡ ok canon) × (encode canon ≡ ok w)

-- Where the encoder gives bytes for a text, the decoder gives a text for the bytes, and the encoder the same bytes for
-- that text.
pub decode_year_to_month-encode_year_to_month :
    (text : Runes) (w : Bytes)
    → encode_year_to_month text ≡ ok w
    → HasText decode_year_to_month encode_year_to_month w
decode_year_to_month-encode_year_to_month text w h =
    let (negative, years, months, bounds, e) =
      Ensures-ok IsYearMonth w (encode-IsYearMonth text) h in
    let sign = negative && ltb 0 (years * 12 + months) in
    (
      format_months sign (years * 12 + months),
      ap decode_year_to_month e ∙ decode_signed_bytes negative years months bounds,
      encode_format sign years months bounds
          ∙ ap ok (signed_bytes_zero negative years months ∙ sym e),
    )
