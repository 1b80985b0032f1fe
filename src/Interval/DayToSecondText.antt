-- ===== src/Interval/DayToSecondText.antt =====
-- `DecodeIntervalDayToSecond` of internal/driver/ttc/converters/interval.go.
use go_oracledb.Base.{
  ℕ, suc, ◌+◌, ◌-◌, Bool, true, false, not, ◌||◌, none, some, [], ◌∷◌, ◌++◌, take, drop, length,
  replicate, get_elem?, ltb, ◌==◌, if◌then◌else◌,
}
use go_oracledb.Base.Bytes.{Bytes, be_value}
use go_oracledb.Base.Runes.{Runes}
use go_oracledb.Base.Outcome.{Outcome, ok, err, panic, ◌>>=◌}
use go_oracledb.Base.Int.{ℤ, pos, negsuc, pos_part, neg_part, sub_ℕ, signed, pattern_of}
use go_oracledb.Number.Decimal.{format_uint}
use go_oracledb.Interval.Tokens.{
  Error, invalid_length, invalid_hour_bias, invalid_minute_bias, invalid_second_bias,
  invalid_fraction, pad_two, flip_top,
}

-- `%d` of an int32.
unfoldable pub format_int : ℤ → Runes
unfolding format_uint
format_int (pos n) = format_uint n
format_int (negsuc n) = b'-' ∷ format_uint (suc n)

-- `dd = -dd` in an int32.
unfoldable pub negate_int32 : ℤ → ℤ
negate_int32 d = signed 32 (pattern_of 32 (sub_ℕ (neg_part d) (pos_part d)))

-- A digit in front of digits that end in no zero.
abbrev pub cons_digit : ℕ → Runes → Runes
cons_digit c [] = if c == 48 then [] else c ∷ []
cons_digit c (d ∷ ds) = c ∷ (d ∷ ds)

-- `strings.TrimRight(s, "0")`.
unfoldable pub trim_trailing_zeros : Runes → Runes
trim_trailing_zeros [] = []
trim_trailing_zeros (c ∷ r) = cons_digit c (trim_trailing_zeros r)

-- `%09d` of a number below 10^9.
unfoldable pub pad_nine : ℕ → Runes
unfolding format_uint
pad_nine n = replicate (9 - length (format_uint n)) 48 ++ format_uint n

unfoldable pub format_fraction : ℕ → Runes
unfolding trim_trailing_zeros pad_nine
format_fraction ns = if ns == 0 then 48 ∷ [] else trim_trailing_zeros (pad_nine ns)

-- `daysStr`.
unfoldable pub format_days : Bool → ℤ → Runes
unfolding format_int pad_two
format_days negative (negsuc n) = format_int (negsuc n)
format_days negative (pos d) =
    if negative then format_int (pos d) else if ltb d 100 then pad_two d else format_int (pos d)

-- The components with their signs.
pub record DaySeconds : Type 0 where
  pub days : ℤ
  pub hours : ℤ
  pub minutes : ℤ
  pub seconds : ℤ
  pub nanoseconds : ℤ

abbrev pub is_negative : ℤ → Bool
is_negative (pos n) = false
is_negative (negsuc n) = true

abbrev pub magnitude : ℤ → ℕ
magnitude z = pos_part z + neg_part z

unfoldable pub format_time : DaySeconds → Runes
unfolding pad_two format_fraction
format_time c =
    pad_two (magnitude c.hours)
    ++ (b':'
        ∷ (pad_two (magnitude c.minutes)
            ++ (b':'
                ∷ (pad_two (magnitude c.seconds)
                    ++ (b'.' ∷ format_fraction (magnitude c.nanoseconds))))))

-- `neg` and `dd`.
unfoldable pub has_negative : DaySeconds → Bool
has_negative c =
    is_negative c.days
    || is_negative c.hours
    || is_negative c.minutes
    || is_negative c.seconds
    || is_negative c.nanoseconds

unfoldable pub absolute_days : ℤ → ℤ
unfolding negate_int32
absolute_days d = if is_negative d then negate_int32 d else d

-- The text of the days and the time, with the sign.
unfoldable pub format_signed_days : Bool → ℤ → Runes → Runes
format_signed_days negative d time =
    let text = format_days negative d ++ (b' ' ∷ time) in if negative then b'-' ∷ text else text

unfoldable pub format_day_seconds : DaySeconds → Runes
format_day_seconds c = format_signed_days (has_negative c) (absolute_days c.days) (format_time c)

-- The byte at an index of a checked length.
abbrev pub byte_at : Bytes → ℕ → Outcome Error ℕ
byte_at value i = elim (get_elem? value i) [ none ↦ panic | some b ↦ ok b ]

-- The checks of the three biased bytes and of the nanoseconds.
unfoldable pub decode_components : ℤ → ℕ → ℕ → ℕ → ℤ → Outcome Error Runes
decode_components days hb mb sb ns =
    if ltb hb 37 || ltb 83 hb
    then err invalid_hour_bias
    else if ltb mb 1 || ltb 119 mb
    then err invalid_minute_bias
    else if ltb sb 1 || ltb 119 sb
    then err invalid_second_bias
    else if ltb 999999999 (magnitude ns)
    then err invalid_fraction
    else ok (
        format_day_seconds (record {
          days = days;
          hours = sub_ℕ hb 60;
          minutes = sub_ℕ mb 60;
          seconds = sub_ℕ sb 60;
          nanoseconds = ns;
        }))

-- `DecodeIntervalDayToSecond`.
unfoldable pub decode_day_to_second : Bytes → Outcome Error Runes
unfolding be_value decode_components
decode_day_to_second value =
    let days = signed 32 (flip_top (be_value (take 4 value))) in
    let ns = signed 32 (flip_top (be_value (take 4 (drop 7 value)))) in
    if not (length value == 11) then err invalid_length else do
      hb ← byte_at value 4
      mb ← byte_at value 5
      sb ← byte_at value 6
      decode_components days hb mb sb ns
