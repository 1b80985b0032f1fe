-- ===== src/Interval/Tokens.antt =====
-- What internal/driver/ttc/converters/interval.go uses of `strings`, `strconv` and `fmt`, and its wire fields.
-- A string is a list of runes.
use go_oracledb.Base.{
  ℕ, ◌+◌, ◌-◌, ◌^◌, ◌%◌, Bool, true, false, ◌&&◌, Option, none, some, [], ◌∷◌, length, ltb, leb,
  ◌==◌, if◌then◌else◌,
}
use go_oracledb.Base.Runes.{Runes}
use go_oracledb.Base.Int.{ℤ, pos, neg_ℕ}
use go_oracledb.Number.Decimal.{format_uint, digits_value}

-- The codes of the range errors and the reasons of the format errors.
pub data Error : Type 0 where
  empty_input invalid_length invalid_format precision_exceeded : Error
  invalid_month_bias parse_years parse_months month_out_of_range years_overflow : Error
  invalid_hour_bias invalid_minute_bias invalid_second_bias invalid_fraction : Error
  parse_day parse_hour parse_minute parse_second parse_fraction : Error
  hour_out_of_range minute_out_of_range second_out_of_range days_overflow : Error

-- The bytes of a rune in UTF-8, and `len` of a string.
abbrev pub rune_length : ℕ → ℕ
rune_length c = if ltb c 0x80 then 1 else if ltb c 0x800 then 2 else if ltb c 0x10000 then 3 else 4

unfoldable pub byte_length : Runes → ℕ
byte_length [] = 0
byte_length (c ∷ r) = rune_length c + byte_length r

-- `strings.IndexByte`, with what is before and behind the byte.
unfoldable pub split_at : ℕ → Runes → Option (Runes × Runes)
split_at sep [] = none
split_at sep (c ∷ r) =
    let rest = split_at sep r in
    if c == sep
    then some ([], r)
    else elim rest [ none ↦ none | some (before, behind) ↦ some (c ∷ before, behind) ]

abbrev pub is_digit : ℕ → Bool
is_digit c = leb 48 c && leb c 57

unfoldable pub all_digits : Runes → Bool
all_digits [] = true
all_digits (c ∷ r) = let rest = all_digits r in if is_digit c then rest else false

-- `strconv.ParseInt(s, 10, bits)`, behind the sign and as a whole; none is an error.
unfoldable pub parse_magnitude : ℕ → Bool → Runes → Option ℤ
unfolding all_digits digits_value
parse_magnitude bits negative s =
    let n = digits_value 0 s in
    if length s == 0
    then none
    else if all_digits s
    then (if negative
        then (if ltb (2 ^ (bits - 1)) n then none else some (neg_ℕ n))
        else if ltb n (2 ^ (bits - 1))
        then some (pos n)
        else none)
    else none

unfoldable pub parse_int : ℕ → Runes → Option ℤ
unfolding parse_magnitude
parse_int bits [] = none
parse_int bits (c ∷ r) =
    if c == b'+'
    then parse_magnitude bits false r
    else if c == b'-'
    then parse_magnitude bits true r
    else parse_magnitude bits false (c ∷ r)

-- `%02d` of a number.
unfoldable pub pad_two : ℕ → Runes
unfolding format_uint
pad_two n = if ltb n 10 then 48 ∷ format_uint n else format_uint n

-- The sign in front.
unfoldable pub split_sign : Runes → Bool × Runes
split_sign [] = (false, [])
split_sign (c ∷ r) =
    if c == b'+' then (false, r) else if c == b'-' then (true, r) else (false, c ∷ r)

-- XOR of a 32-bit word with `_yearXorBias`, its top bit.
abbrev pub flip_top : ℕ → ℕ
flip_top raw = (raw + 2 ^ 31) % 2 ^ 32
