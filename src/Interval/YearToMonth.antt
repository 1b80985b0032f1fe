-- ===== src/Interval/YearToMonth.antt =====
-- INTERVAL YEAR TO MONTH of internal/driver/ttc/converters/interval.go.
use go_oracledb.Base.{
  ℕ, zero, suc, ◌+◌, ◌-◌, ◌*◌, ◌/◌, ◌%◌, ◌^◌, Bool, true, false, not, ◌||◌, none, some, [], ◌∷◌,
  ◌++◌, take, length, get_elem?, ltb, ◌==◌, if◌then◌else◌,
}
use go_oracledb.Base.Bytes.{Bytes, be_bytes, be_value}
use go_oracledb.Base.Runes.{Runes, trim_space}
use go_oracledb.Base.Outcome.{Outcome, ok, err, panic}
use go_oracledb.Base.Int.{ℤ, pos, negsuc, pos_part, neg_part, sub_ℕ, ltb_ℤ, signed, pattern_of}
use go_oracledb.Number.Decimal.{format_uint}
use go_oracledb.Interval.Tokens.{
  Error, empty_input, invalid_length, invalid_format, precision_exceeded, invalid_month_bias,
  parse_years, parse_months, month_out_of_range, years_overflow, byte_length, split_at, parse_int,
  pad_two, split_sign, flip_top,
}

-- The text of a number of months with its sign.
unfoldable pub format_months : Bool → ℕ → Runes
unfolding format_uint pad_two
format_months negative total =
    let years = total / 12 in
    let months = b'-' ∷ pad_two (total % 12) in
    if ltb years 100
    then (if negative then b'-' ∷ (pad_two years ++ months) else pad_two years ++ months)
    else if negative
    then b'-' ∷ (format_uint years ++ months)
    else format_uint years ++ months

-- `years*_monthsPerYear + monthsSigned`.
unfoldable pub total_months : ℤ → ℤ → ℤ
total_months years months =
    sub_ℕ (pos_part years * 12 + pos_part months) (neg_part years * 12 + neg_part months)

-- `DecodeIntervalYearToMonth`.
unfoldable pub decode_months : ℤ → ℕ → Outcome Error Runes
unfolding total_months format_months
decode_months years month_byte =
    let months = sub_ℕ month_byte 60 in
    if ltb_ℤ months (negsuc 10) || ltb_ℤ (pos 11) months
    then err invalid_month_bias
    else elim (total_months years months) [
      | pos n ↦ ok (format_months false n)
      | negsuc n ↦ ok (format_months true (suc n))
    ]

unfoldable pub decode_year_to_month : Bytes → Outcome Error Runes
unfolding be_value decode_months
decode_year_to_month value =
    if not (length value == 5) then err invalid_length else elim (get_elem? value 4) [
      | none ↦ panic
      | some month_byte ↦ decode_months (signed 32 (flip_top (be_value (take 4 value)))) month_byte
    ]

-- The leading zeros of the years token.
unfoldable pub leading_zeros : Runes → ℕ
leading_zeros [] = 0
leading_zeros (c ∷ r) = let rest = leading_zeros r in if c == 48 then suc rest else 0

-- `yearsDigits`.
unfoldable pub years_digits : Runes → ℕ
unfolding leading_zeros byte_length
years_digits token =
    let digits = byte_length token - leading_zeros token in if digits == 0 then 1 else digits

-- A number with its sign.
abbrev pub with_sign : Bool → ℕ → ℤ
with_sign false n = pos n
with_sign true zero = pos 0
with_sign true (suc n) = negsuc n

-- The five bytes.
unfoldable pub year_to_month_bytes : ℤ → ℤ → Bytes
unfolding be_bytes
year_to_month_bytes years months =
    be_bytes 4 (flip_top (pattern_of 32 years))
    ++ (pattern_of 8 (sub_ℕ (60 + pos_part months) (neg_part months)) ∷ [])

-- The numbers of the two tokens, with their sign.
unfoldable pub assemble_year_to_month : Bool → ℕ → ℤ → Outcome Error Bytes
unfolding year_to_month_bytes
assemble_year_to_month negative years (negsuc months) = err month_out_of_range
assemble_year_to_month negative years (pos months) =
    let years_component = with_sign negative years in
    if ltb 11 months
    then err month_out_of_range
    else if ltb_ℤ years_component (negsuc (2 ^ 31 - 1)) || ltb_ℤ (pos (2 ^ 31 - 1)) years_component
    then err years_overflow
    else ok (year_to_month_bytes years_component (with_sign negative months))

unfoldable pub encode_year_month_tokens : Bool → Runes → Runes → Outcome Error Bytes
unfolding years_digits parse_int assemble_year_to_month
encode_year_month_tokens negative years_token months_token =
    if ltb 9 (years_digits years_token)
    then err precision_exceeded
    else elim (parse_int 32 years_token) [
      | none ↦ err parse_years
      | some (negsuc n) ↦ err parse_years
      | some (pos years) ↦ elim (parse_int 32 months_token) [
        | none ↦ err parse_months
        | some months ↦ assemble_year_to_month negative years months
      ]
    ]

unfoldable pub encode_unsigned_months : Bool → Runes → Outcome Error Bytes
unfolding split_at encode_year_month_tokens
encode_unsigned_months negative unsigned = elim (split_at b'-' unsigned) [
  | none ↦ err invalid_format
  | some (years_token, months_token) ↦
      if (length years_token == 0) || (length months_token == 0)
      then err invalid_format
      else encode_year_month_tokens negative years_token months_token
]

-- `EncodeIntervalYearToMonth`.
unfoldable pub encode_year_to_month : Runes → Outcome Error Bytes
unfolding trim_space split_sign encode_unsigned_months
encode_year_to_month canon =
    let (negative, unsigned) = split_sign (trim_space canon) in
    if length (trim_space canon) == 0
    then err empty_input
    else encode_unsigned_months negative unsigned
