-- ===== src/Interval/DayToSecond.antt =====
-- INTERVAL DAY TO SECOND of internal/driver/ttc/converters/interval.go.
use go_oracledb.Base.{
  ℕ, ◌+◌, ◌-◌, ◌^◌, Bool, true, false, ◌||◌, Option, none, some, [], ◌∷◌, ◌++◌, length, replicate,
  ltb, ◌==◌, if◌then◌else◌,
}
use go_oracledb.Base.Bytes.{Bytes, be_bytes}
use go_oracledb.Base.Runes.{Runes, trim_space}
use go_oracledb.Base.Outcome.{Outcome, ok, err, ◌>>=◌}
use go_oracledb.Base.Int.{ℤ, pos, negsuc, pos_part, neg_part, sub_ℕ, ltb_ℤ, pattern_of}
use go_oracledb.Interval.Tokens.{
  Error, empty_input, invalid_format, precision_exceeded, parse_day, parse_hour, parse_minute,
  parse_second, parse_fraction, hour_out_of_range, minute_out_of_range, second_out_of_range,
  days_overflow, byte_length, split_at, parse_int, flip_top,
}
use go_oracledb.Interval.YearToMonth.{with_sign}
use go_oracledb.Interval.DayToSecondText.{DaySeconds}

-- `strings.SplitN(timeToken, ":", 3)` where it has three parts.
unfoldable pub split_time : Runes → Option (Runes × Runes × Runes)
unfolding split_at
split_time token = elim (split_at b':' token) [
  | none ↦ none
  | some (hour, behind) ↦ elim (split_at b':' behind) [
    | none ↦ none
    | some (minute, second) ↦ some (hour, minute, second)
  ]
]

-- The token of the seconds before and behind the point.
unfoldable pub split_seconds : Runes → Runes × Runes
unfolding split_at
split_seconds token = elim (split_at b'.' token) [ none ↦ (token, []) | some parts ↦ parts ]

-- The nanoseconds of the fraction.
unfoldable pub parse_nanoseconds : Runes → Outcome Error ℕ
unfolding byte_length parse_int
parse_nanoseconds token =
    if length token == 0
    then ok 0
    else if ltb 9 (byte_length token)
    then err precision_exceeded
    else elim (parse_int 32 (token ++ replicate (9 - byte_length token) 48)) [
      | none ↦ err parse_fraction
      | some (negsuc n) ↦ err parse_fraction
      | some (pos n) ↦ ok n
    ]

-- `ParseInt` with the error of the token.
unfoldable pub parse_component : Error → Runes → Outcome Error ℤ
unfolding parse_int
parse_component e token = elim (parse_int 64 token) [ none ↦ err e | some n ↦ ok n ]

-- A component in 0, ..., most - 1.
abbrev pub in_range : Error → ℕ → ℤ → Outcome Error ℕ
in_range e most (negsuc n) = err e
in_range e most (pos n) = if ltb n most then ok n else err e

-- A day that is not below 0.
abbrev pub day_of : ℤ → Outcome Error ℕ
day_of (negsuc n) = err parse_day
day_of (pos n) = ok n

-- The eleven bytes.
unfoldable pub day_to_second_bytes : DaySeconds → Bytes
unfolding be_bytes
day_to_second_bytes c =
    be_bytes 4 (flip_top (pattern_of 32 c.days))
    ++ (pattern_of 8 (sub_ℕ (60 + pos_part c.hours) (neg_part c.hours))
        ∷ (pattern_of 8 (sub_ℕ (60 + pos_part c.minutes) (neg_part c.minutes))
            ∷ (pattern_of 8 (sub_ℕ (60 + pos_part c.seconds) (neg_part c.seconds))
                ∷ be_bytes 4 (flip_top (pattern_of 32 c.nanoseconds)))))

-- The sign goes to all components.
unfoldable pub assemble_day_to_second : Bool → ℕ → ℕ → ℕ → ℕ → ℕ → Outcome Error Bytes
unfolding day_to_second_bytes
assemble_day_to_second negative day hour minute second ns =
    let days = with_sign negative day in
    if ltb_ℤ days (negsuc (2 ^ 31 - 1)) || ltb_ℤ (pos (2 ^ 31 - 1)) days
    then err days_overflow
    else ok (
        day_to_second_bytes (record {
          days = days;
          hours = with_sign negative hour;
          minutes = with_sign negative minute;
          seconds = with_sign negative second;
          nanoseconds = with_sign negative ns;
        }))

unfoldable pub encode_day_time_tokens : Bool → Runes → Runes → Outcome Error Bytes
unfolding parse_component split_time split_seconds parse_nanoseconds assemble_day_to_second
encode_day_time_tokens negative day_token time_token = do
  d ← parse_component parse_day day_token
  day ← day_of d
  elim (split_time time_token) [
    | none ↦ err invalid_format
    | some (hour_token, minute_token, second_token) ↦ do
      h ← parse_component parse_hour hour_token
      m ← parse_component parse_minute minute_token
      s ← parse_component parse_second (split_seconds second_token).0
      hour ← in_range hour_out_of_range 24 h
      minute ← in_range minute_out_of_range 60 m
      second ← in_range second_out_of_range 60 s
      ns ← parse_nanoseconds (split_seconds second_token).1
      assemble_day_to_second negative day hour minute second ns
  ]

unfoldable pub encode_unsigned_days : Bool → Runes → Outcome Error Bytes
unfolding split_at encode_day_time_tokens
encode_unsigned_days negative unsigned = elim (split_at b' ' unsigned) [
  | none ↦ err invalid_format
  | some (day_token, time_token) ↦
      if (length day_token == 0) || (length time_token == 0)
      then err invalid_format
      else encode_day_time_tokens negative day_token time_token
]

-- The sign in front, and white space behind it.
unfoldable pub split_spaced_sign : Runes → Bool × Runes
unfolding trim_space
split_spaced_sign [] = (false, [])
split_spaced_sign (c ∷ r) =
    if c == b'+'
    then (false, trim_space r)
    else if c == b'-'
    then (true, trim_space r)
    else (false, c ∷ r)

-- `EncodeIntervalDayToSecond`.
unfoldable pub encode_day_to_second : Runes → Outcome Error Bytes
unfolding trim_space split_spaced_sign encode_unsigned_days
encode_day_to_second canon =
    let (negative, unsigned) = split_spaced_sign (trim_space canon) in
    if length (trim_space canon) == 0
    then err empty_input
    else encode_unsigned_days negative unsigned
