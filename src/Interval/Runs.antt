-- ===== src/Interval/Runs.antt =====
-- Runs of the interval converters (internal/driver/ttc/converters/interval.go).
use go_oracledb.Base.{◌≡◌, refl, [], ◌∷◌}
use go_oracledb.Base.Outcome.{ok, err}
use go_oracledb.Iterator.Options.{codes}
use go_oracledb.Interval.Tokens.{parse_day}
use go_oracledb.Interval.YearToMonth.{decode_year_to_month, encode_year_to_month}
use go_oracledb.Interval.DayToSecondText.{
  decode_day_to_second, format_day_seconds, format_signed_days, has_negative, absolute_days,
  format_days, format_time,
}
use go_oracledb.Interval.DayToSecond.{encode_day_to_second}
use go_oracledb.Interval.MonthsRoundTrip.{HasText, decode_year_to_month-encode_year_to_month}
use go_oracledb.Interval.DaysRoundTrip.{decode_day_to_second-encode_day_to_second}

program : Unit {0}
unfolding decode_year_to_month encode_year_to_month decode_day_to_second encode_day_to_second
    format_day_seconds format_signed_days has_negative absolute_days format_days format_time
program = tt

encode_months_run : encode_year_to_month (codes " -00-05") ≡ ok (0x80 ∷ 0 ∷ 0 ∷ 0 ∷ 0x37 ∷ [])
unfolding program
encode_months_run = refl

decode_months_run : decode_year_to_month (0x80 ∷ 0 ∷ 0 ∷ 0x7b ∷ 0x3e ∷ []) ≡ ok (codes "123-02")
unfolding program
decode_months_run = refl

decode_days_run :
    decode_day_to_second
      (0x7f ∷ 0xff ∷ 0xff ∷ 0xff ∷ 0x36 ∷ 0x3c ∷ 0x3b ∷ 0x7f ∷ 0xff ∷ 0xff ∷ 0xf6 ∷ [])
    ≡ ok (codes "-1 06:00:01.00000001")
unfolding program
decode_days_run = refl

encode_days_run :
    encode_day_to_second (codes "-1 6:0:01.00000001 ")
    ≡ ok (0x7f ∷ 0xff ∷ 0xff ∷ 0xff ∷ 0x36 ∷ 0x3c ∷ 0x3b ∷ 0x7f ∷ 0xff ∷ 0xff ∷ 0xf6 ∷ [])
unfolding program
encode_days_run = refl

-- The least number of days is encoded, but its text has two signs, and no encoding.
least_days_run :
    encode_day_to_second (codes "-2147483648 00:00:00")
    ≡ ok (0 ∷ 0 ∷ 0 ∷ 0 ∷ 0x3c ∷ 0x3c ∷ 0x3c ∷ 0x80 ∷ 0 ∷ 0 ∷ 0 ∷ [])
unfolding program
least_days_run = refl

least_days_text :
    decode_day_to_second (0 ∷ 0 ∷ 0 ∷ 0 ∷ 0x3c ∷ 0x3c ∷ 0x3c ∷ 0x80 ∷ 0 ∷ 0 ∷ 0 ∷ [])
    ≡ ok (codes "--2147483648 00:00:00.0")
unfolding program
least_days_text = refl

least_days_again : encode_day_to_second (codes "--2147483648 00:00:00.0") ≡ err parse_day
unfolding program
least_days_again = refl

plus_months : encode_year_to_month (codes "+1-+3") ≡ ok (0x80 ∷ 0 ∷ 0 ∷ 1 ∷ 0x3f ∷ [])
unfolding program
plus_months = refl

-- The text that a decoded encoding has.
decode_year_to_month-encode_year_to_month_example :
    HasText decode_year_to_month encode_year_to_month (0x80 ∷ 0 ∷ 0 ∷ 1 ∷ 0x3f ∷ [])
decode_year_to_month-encode_year_to_month_example =
    decode_year_to_month-encode_year_to_month (codes "+1-+3") (0x80 ∷ 0 ∷ 0 ∷ 1 ∷ 0x3f ∷ [])
      plus_months

decode_day_to_second-encode_day_to_second_example :
    HasText decode_day_to_second encode_day_to_second
      (0x7f ∷ 0xff ∷ 0xff ∷ 0xff ∷ 0x36 ∷ 0x3c ∷ 0x3b ∷ 0x7f ∷ 0xff ∷ 0xff ∷ 0xf6 ∷ [])
decode_day_to_second-encode_day_to_second_example =
    decode_day_to_second-encode_day_to_second (codes "-1 6:0:01.00000001 ")
      (0x7f ∷ 0xff ∷ 0xff ∷ 0xff ∷ 0x36 ∷ 0x3c ∷ 0x3b ∷ 0x7f ∷ 0xff ∷ 0xff ∷ 0xf6 ∷ [])
      encode_days_run (λ e. absurd (cc e))
