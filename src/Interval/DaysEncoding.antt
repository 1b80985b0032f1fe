-- ===== src/Interval/DaysEncoding.antt =====
-- INTERVAL DAY TO SECOND of internal/driver/ttc/converters/interval.go: the encoding of the text of signed components.
use go_oracledb.Base.{
  ℕ, ◌-◌, ◌^◌, ◌≤◌, ◌<◌, ◌≡◌, refl, sym, ap, ◌∙◌, Bool, true, false, some, [], ◌∷◌, ◌++◌,
  append_assoc, length, ltb, ◌==◌, arith, All, Bool-cases, inl, inr, lt→ltb, le→ltb_false,
  length-append, ne→==_false,
}
use go_oracledb.Base.Runes.{Runes, trim_space, is_space}
use go_oracledb.Base.Outcome.{ok}
use go_oracledb.Base.Int.{pos, negsuc, ltb_ℤ}
use go_oracledb.Number.Decimal.{IsDigit}
use go_oracledb.Interval.Tokens.{Error, parse_day, parse_hour, parse_minute, parse_second, pad_two}
use go_oracledb.Interval.YearToMonth.{with_sign}
use go_oracledb.Interval.DayToSecondText.{format_days, format_int, format_fraction}
use go_oracledb.Interval.DayToSecond.{
  split_time, split_seconds, parse_component, assemble_day_to_second, day_to_second_bytes,
  encode_day_time_tokens, encode_unsigned_days, split_spaced_sign, encode_day_to_second,
}
use go_oracledb.Interval.Digits.{
  Writes, pad_two-Writes, format_uint-Writes, split_at-digits, parse_int-Writes, trim_space-digits,
  digit_not_space,
}
use go_oracledb.Interval.Fractions.{
  IsFraction, format_fraction-IsFraction, parse_nanoseconds-IsFraction,
}
use go_oracledb.Interval.Fields.{with_sign-parts}
use go_oracledb.Interval.DaysText.{Parts, InDays, components, time_text, signed_text}

format_days-Writes :
    (negative : Bool) (n : ℕ) → n < 10 ^ 20 → Writes n (format_days negative (pos n))
unfolding format_days format_int
format_days-Writes true n h = format_uint-Writes n h
format_days-Writes false n h = elim (Bool-cases (ltb n 100)) [
  | inl e ↦ rw e (pad_two-Writes n h)
  | inr e ↦ rw e (format_uint-Writes n h)
]

parse_component-Writes :
    (e : Error) (n : ℕ) (ds : Runes) → Writes n ds → n < 2 ^ 63 → parse_component e ds ≡ ok (pos n)
unfolding parse_component
parse_component-Writes e n ds h fits = rw (parse_component, parse_int-Writes 64 n ds h fits)

-- A time with two colons behind digits.
split_time-digits :
    (hs ms behind : Runes)
    → All IsDigit hs
    → All IsDigit ms
    → split_time (hs ++ (b':' ∷ (ms ++ (b':' ∷ behind)))) ≡ some (hs, ms, behind)
unfolding split_time
split_time-digits hs ms behind h k =
    let first =
      split_at-digits b':' hs (ms ++ (b':' ∷ behind)) h (λ d. absurd (omega (arith, d.1))) in
    let second = split_at-digits b':' ms behind k (λ d. absurd (omega (arith, d.1))) in
    rw (split_time, first, second)

split_seconds-digits :
    (ss behind : Runes) → All IsDigit ss → split_seconds (ss ++ (b'.' ∷ behind)) ≡ (ss, behind)
unfolding split_seconds
split_seconds-digits ss behind h =
    rw (split_seconds, split_at-digits b'.' ss behind h (λ d. absurd (omega (arith, d.0))))

time_text_shape :
    (p : Parts)
    → time_text p
      ≡ pad_two p.hour
        ++ (b':'
            ∷ (pad_two p.minute
                ++ (b':' ∷ (pad_two p.second ++ (b'.' ∷ format_fraction p.nanosecond)))))
unfolding time_text
time_text_shape p = refl

pub assemble_lem :
    (negative : Bool) (p : Parts)
    → InDays p
    → assemble_day_to_second negative p.day p.hour p.minute p.second p.nanosecond
      ≡ ok (day_to_second_bytes (components negative p))
unfolding assemble_day_to_second
assemble_lem negative p h =
    let parts = with_sign-parts negative p.day in
    let low : ltb_ℤ (with_sign negative p.day) (negsuc (2 ^ 31 - 1)) ≡ false =
      le→ltb_false _ _ (omega (arith, parts.1, h.day_bound)) in
    let high : ltb_ℤ (pos (2 ^ 31 - 1)) (with_sign negative p.day) ≡ false =
      le→ltb_false _ _ (omega (arith, parts.0, h.day_bound)) in
    rw (low, high)

tokens_lem :
    (negative : Bool) (p : Parts) (day_token hs ms ss fraction : Runes)
    → InDays p
    → Writes p.day day_token
    → Writes p.hour hs
    → Writes p.minute ms
    → Writes p.second ss
    → IsFraction p.nanosecond fraction
    → encode_day_time_tokens negative day_token
        (hs ++ (b':' ∷ (ms ++ (b':' ∷ (ss ++ (b'.' ∷ fraction))))))
      ≡ ok (day_to_second_bytes (components negative p))
unfolding encode_day_time_tokens
tokens_lem negative p day_token hs ms ss fraction h days hours minutes seconds nanoseconds =
    rw
      (
        encode_day_time_tokens,
        parse_component-Writes parse_day p.day day_token days (omega (arith, h.day_bound)),
        split_time-digits hs ms (ss ++ (b'.' ∷ fraction)) hours.digits minutes.digits,
        parse_component-Writes parse_hour p.hour hs hours (omega (arith, h.hour_bound)),
        parse_component-Writes parse_minute p.minute ms minutes (omega (arith, h.minute_bound)),
        split_seconds-digits ss fraction seconds.digits,
        parse_component-Writes parse_second p.second ss seconds (omega (arith, h.second_bound)),
        lt→ltb p.hour 24 h.hour_bound,
        lt→ltb p.minute 60 h.minute_bound,
        lt→ltb p.second 60 h.second_bound,
        parse_nanoseconds-IsFraction p.nanosecond fraction h.nanosecond_bound nanoseconds,
      )
      (assemble_lem negative p h)

time_tokens_lem :
    (negative : Bool) (p : Parts) (day_token : Runes)
    → InDays p
    → Writes p.day day_token
    → encode_day_time_tokens negative day_token (time_text p)
      ≡ ok (day_to_second_bytes (components negative p))
time_tokens_lem negative p day_token h days =
    ap (encode_day_time_tokens negative day_token) (time_text_shape p)
    ∙ tokens_lem negative p day_token (pad_two p.hour) (pad_two p.minute) (pad_two p.second)
        (format_fraction p.nanosecond) h days (pad_two-Writes p.hour (omega (arith, h.hour_bound)))
        (pad_two-Writes p.minute (omega (arith, h.minute_bound)))
        (pad_two-Writes p.second (omega (arith, h.second_bound)))
        (format_fraction-IsFraction p.nanosecond h.nanosecond_bound)

length-time_text : (p : Parts) → InDays p → 1 ≤ length (time_text p)
length-time_text p h =
    let hours = pad_two-Writes p.hour (omega (arith, h.hour_bound)) in
    omega (
      arith,
      ap length (time_text_shape p),
      hours.some_digit,
      length-append {0} (pad_two p.hour) (
          b':'
          ∷ (pad_two p.minute
              ++ (b':' ∷ (pad_two p.second ++ (b'.' ∷ format_fraction p.nanosecond))))),
    )

encode_tokens :
    (negative : Bool) (p : Parts) (day_token : Runes)
    → InDays p
    → Writes p.day day_token
    → encode_unsigned_days negative (day_token ++ (b' ' ∷ time_text p))
      ≡ ok (day_to_second_bytes (components negative p))
unfolding encode_unsigned_days
encode_tokens negative p day_token h days =
    let split =
      split_at-digits b' ' day_token (time_text p) days.digits (λ d. absurd (omega (arith, d.0))) in
    let some_day : (length day_token == 0) ≡ false =
      ne→==_false _ 0 (λ e. absurd (omega (arith, e, days.some_digit))) in
    let some_time : (length (time_text p) == 0) ≡ false =
      ne→==_false _ 0 (λ e. absurd (omega (arith, e, length-time_text p h))) in
    rw (encode_unsigned_days, split, some_day, some_time)
      (time_tokens_lem negative p day_token h days)

-- The part of the text before the last token.
front_text : Parts → Runes → Runes
front_text p day_token =
    day_token
    ++ (b' '
        ∷ (pad_two p.hour
            ++ (b':' ∷ (pad_two p.minute ++ (b':' ∷ (pad_two p.second ++ (b'.' ∷ [])))))))

front_text_lem :
    (p : Parts) (day_token : Runes)
    → front_text p day_token ++ format_fraction p.nanosecond ≡ day_token ++ (b' ' ∷ time_text p)
unfolding front_text time_text
front_text_lem p day_token = simp (append_assoc)

encode_trimmed :
    (c : ℕ) (r : Runes)
    → trim_space (c ∷ r) ≡ c ∷ r
    → encode_day_to_second (c ∷ r)
      ≡ encode_unsigned_days (split_spaced_sign (c ∷ r)).0 (split_spaced_sign (c ∷ r)).1
unfolding encode_day_to_second
encode_trimmed c r h =
    let some_rune : (length (c ∷ r) == 0) ≡ false =
      ne→==_false _ 0 (λ e. absurd (omega (arith, e))) in
    rw (h, some_rune)

minus_not_space : is_space b'-' ≡ false
unfolding is_space
minus_not_space = refl

trim_text :
    (p : Parts) (c : ℕ) (day_token : Runes)
    → InDays p
    → is_space c ≡ false
    → trim_space (c ∷ (day_token ++ (b' ' ∷ time_text p))) ≡ c ∷ (day_token ++ (b' ' ∷ time_text p))
trim_text p c day_token h space =
    let fraction = format_fraction-IsFraction p.nanosecond h.nanosecond_bound in
    let text = front_text_lem p day_token in
    ap (λ t. trim_space (c ∷ t)) (sym text)
    ∙ (trim_space-digits c (front_text p day_token) (format_fraction p.nanosecond) space
          fraction.digits fraction.some_digit
        ∙ ap (λ t. c ∷ t) text)

spaced_sign-digit : (d : ℕ) (r : Runes) → IsDigit d → split_spaced_sign (d ∷ r) ≡ (false, d ∷ r)
unfolding split_spaced_sign
spaced_sign-digit d r h =
    let plus : (d == b'+') ≡ false = ne→==_false d b'+' (λ e. absurd (omega (arith, e, h.0))) in
    let minus : (d == b'-') ≡ false = ne→==_false d b'-' (λ e. absurd (omega (arith, e, h.0))) in
    rw (plus, minus)

spaced_sign-minus : (r : Runes) → trim_space r ≡ r → split_spaced_sign (b'-' ∷ r) ≡ (true, r)
unfolding split_spaced_sign
spaced_sign-minus r h = rw h

-- The encoding of a text with its sign.
encode_text :
    (negative : Bool) (p : Parts) (day_token : Runes)
    → InDays p
    → Writes p.day day_token
    → encode_day_to_second (signed_text negative (day_token ++ (b' ' ∷ time_text p)))
      ≡ ok (day_to_second_bytes (components negative p))
unfolding signed_text
encode_text negative p [] h days = absurd (omega (arith, days.some_digit))
encode_text true p (d ∷ ds) h days =
    let inner = trim_text p d ds h (digit_not_space d days.digits.0) in
    encode_trimmed b'-' _ (trim_text p b'-' (d ∷ ds) h minus_not_space)
    ∙ (rw (spaced_sign-minus _ inner) (encode_tokens true p (d ∷ ds) h days))
encode_text false p (d ∷ ds) h days =
    encode_trimmed d _ (trim_text p d ds h (digit_not_space d days.digits.0))
    ∙ (rw (spaced_sign-digit d _ days.digits.0) (encode_tokens false p (d ∷ ds) h days))

pub encode_format :
    (negative : Bool) (p : Parts)
    → InDays p
    → encode_day_to_second
        (signed_text negative (format_days negative (pos p.day) ++ (b' ' ∷ time_text p)))
      ≡ ok (day_to_second_bytes (components negative p))
encode_format negative p h =
    encode_text negative p (format_days negative (pos p.day)) h
      (format_days-Writes negative p.day (omega (arith, h.day_bound)))
