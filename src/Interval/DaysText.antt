-- ===== src/Interval/DaysText.antt =====
-- INTERVAL DAY TO SECOND of internal/driver/ttc/converters/interval.go: the text of signed components.
use go_oracledb.Base.{
  ℕ, zero, suc, ◌+◌, ◌-◌, ◌^◌, ◌≤◌, ◌<◌, ◌≡◌, refl, sym, ap, ◌∙◌, Bool, true, false, ◌||◌, ◌&&◌,
  ◌∷◌, ◌++◌, ltb, arith, lt→ltb, le→ltb_false,
}
use go_oracledb.Base.Bytes.{be_bytes, be_value}
use go_oracledb.Base.Runes.{Runes}
use go_oracledb.Base.Outcome.{ok}
use go_oracledb.Base.Int.{ℤ, pos, pos_part, neg_part, sub_ℕ, signed, pattern_of}
use go_oracledb.Interval.Tokens.{pad_two, flip_top}
use go_oracledb.Interval.YearToMonth.{with_sign}
use go_oracledb.Interval.DayToSecondText.{
  format_signed_days, DaySeconds, has_negative, absolute_days, magnitude, is_negative, negate_int32,
  format_days, format_fraction, format_time, format_day_seconds, decode_components,
  decode_day_to_second,
}
use go_oracledb.Interval.DayToSecond.{day_to_second_bytes}
use go_oracledb.Interval.Fields.{
  IsInt32, int32_field, signed-pattern_of, biased-with_sign, biased-bounds, with_sign-IsInt32,
  sub_ℕ-pos,
}

-- The numbers of the components, without their sign.
pub record Parts : Type 0 where
  pub day : ℕ
  pub hour : ℕ
  pub minute : ℕ
  pub second : ℕ
  pub nanosecond : ℕ

pub record InDays (p : Parts) : Type 0 where
  pub day_bound : p.day < 2 ^ 31
  pub hour_bound : p.hour < 24
  pub minute_bound : p.minute < 60
  pub second_bound : p.second < 60
  pub nanosecond_bound : p.nanosecond < 10 ^ 9

abbrev pub components : Bool → Parts → DaySeconds
components negative p = record {
  days = with_sign negative p.day;
  hours = with_sign negative p.hour;
  minutes = with_sign negative p.minute;
  seconds = with_sign negative p.second;
  nanoseconds = with_sign negative p.nanosecond;
}

-- Some component is not 0.
abbrev pub some_part : Parts → Bool
some_part p = ltb 0 p.day || ltb 0 p.hour || ltb 0 p.minute || ltb 0 p.second || ltb 0 p.nanosecond

magnitude-with_sign : (negative : Bool) (n : ℕ) → magnitude (with_sign negative n) ≡ n
magnitude-with_sign false n = omega arith
magnitude-with_sign true zero = refl
magnitude-with_sign true (suc n) = omega arith

is_negative-with_sign :
    (negative : Bool) (n : ℕ) → is_negative (with_sign negative n) ≡ (negative && ltb 0 n)
is_negative-with_sign false n = refl
is_negative-with_sign true zero = refl
is_negative-with_sign true (suc n) = sym (lt→ltb 0 (suc n) (omega arith))

-- The text of the time of the day.
unfoldable pub time_text : Parts → Runes
time_text p =
    pad_two p.hour
    ++ (b':'
        ∷ (pad_two p.minute
            ++ (b':' ∷ (pad_two p.second ++ (b'.' ∷ format_fraction p.nanosecond)))))

format_time-components :
    (negative : Bool) (p : Parts) → format_time (components negative p) ≡ time_text p
unfolding format_time time_text
format_time-components negative p = rw (
  magnitude-with_sign negative p.hour,
  magnitude-with_sign negative p.minute,
  magnitude-with_sign negative p.second,
  magnitude-with_sign negative p.nanosecond,
)

absolute_days-with_sign :
    (negative : Bool) (n : ℕ) → n < 2 ^ 31 → absolute_days (with_sign negative n) ≡ pos n
unfolding absolute_days negate_int32
absolute_days-with_sign false n h = refl
absolute_days-with_sign true zero h = refl
absolute_days-with_sign true (suc n) h =
    let same : suc n - 0 ≡ suc n = omega arith in
    ap (λ z. signed 32 (pattern_of 32 z)) (sub_ℕ-pos (suc n) 0 (omega arith))
    ∙ (ap (λ k. signed 32 (pattern_of 32 (pos k))) same ∙ signed-pattern_of (pos (suc n)) h)

with_all :
    (b v w x y z : Bool)
    → ((b && v) || (b && w) || (b && x) || (b && y) || (b && z)) ≡ (b && (v || w || x || y || z))
with_all true v w x y z = refl
with_all false v w x y z = refl

has_negative-components :
    (negative : Bool) (p : Parts) → has_negative (components negative p) ≡ (negative && some_part p)
unfolding has_negative
has_negative-components negative p =
    rw
      (
        is_negative-with_sign negative p.day,
        is_negative-with_sign negative p.hour,
        is_negative-with_sign negative p.minute,
        is_negative-with_sign negative p.second,
        is_negative-with_sign negative p.nanosecond,
      )
      (with_all negative (ltb 0 p.day) (ltb 0 p.hour) (ltb 0 p.minute) (ltb 0 p.second)
        (ltb 0 p.nanosecond))

-- A sign in front.
unfoldable pub signed_text : Bool → Runes → Runes
signed_text true text = b'-' ∷ text
signed_text false text = text

format_signed_days_lem :
    (b : Bool) (d : ℤ) (time : Runes)
    → format_signed_days b d time ≡ signed_text b (format_days b d ++ (b' ' ∷ time))
unfolding format_signed_days signed_text
format_signed_days_lem true d time = refl
format_signed_days_lem false d time = refl

pub format_day_seconds-components :
    (negative : Bool) (p : Parts)
    → InDays p
    → format_day_seconds (components negative p)
      ≡ signed_text
          (negative && some_part p)
          (format_days (negative && some_part p) (pos p.day) ++ (b' ' ∷ time_text p))
unfolding format_day_seconds
format_day_seconds-components negative p h =
    rw
      (
        has_negative-components negative p,
        absolute_days-with_sign negative p.day h.day_bound,
        format_time-components negative p,
      )
      (format_signed_days_lem (negative && some_part p) (pos p.day) (time_text p))

-- The byte of a component.
abbrev byte_of : Bool → ℕ → ℕ
byte_of negative n =
    pattern_of 8 (sub_ℕ (60 + pos_part (with_sign negative n)) (neg_part (with_sign negative n)))

in_bounds :
    (negative : Bool) (n most : ℕ)
    → n ≤ most
    → most ≤ 60
    → (ltb (byte_of negative n) (60 - most) || ltb (60 + most) (byte_of negative n)) ≡ false
in_bounds negative n most h k =
    let (low, high) = biased-bounds negative n (omega (arith, h, k)) in
    rw (
      le→ltb_false (byte_of negative n) (60 - most) (omega (arith, low, h)),
      le→ltb_false (60 + most) (byte_of negative n) (omega (arith, high, h)),
    )

decode_components_lem :
    (negative : Bool) (p : Parts)
    → InDays p
    → decode_components
        (with_sign negative p.day)
        (byte_of negative p.hour)
        (byte_of negative p.minute)
        (byte_of negative p.second)
        (with_sign negative p.nanosecond)
      ≡ ok (format_day_seconds (components negative p))
unfolding decode_components
decode_components_lem negative p h =
    let fraction : ltb 999999999 (magnitude (with_sign negative p.nanosecond)) ≡ false =
      le→ltb_false 999999999 _
        (omega (arith, magnitude-with_sign negative p.nanosecond, h.nanosecond_bound)) in
    rw (
      in_bounds negative p.hour 23 (omega (arith, h.hour_bound)) (omega arith),
      in_bounds negative p.minute 59 (omega (arith, h.minute_bound)) (omega arith),
      in_bounds negative p.second 59 (omega (arith, h.second_bound)) (omega arith),
      fraction,
      biased-with_sign negative p.hour (omega (arith, h.hour_bound)),
      biased-with_sign negative p.minute (omega (arith, h.minute_bound)),
      biased-with_sign negative p.second (omega (arith, h.second_bound)),
    )

decode_bytes :
    (c : DaySeconds)
    → IsInt32 c.days
    → IsInt32 c.nanoseconds
    → decode_day_to_second (day_to_second_bytes c)
      ≡ decode_components c.days
          (pattern_of 8 (sub_ℕ (60 + pos_part c.hours) (neg_part c.hours)))
          (pattern_of 8 (sub_ℕ (60 + pos_part c.minutes) (neg_part c.minutes)))
          (pattern_of 8 (sub_ℕ (60 + pos_part c.seconds) (neg_part c.seconds)))
          c.nanoseconds
unfolding decode_day_to_second day_to_second_bytes be_bytes
decode_bytes c h k =
    ap
      (λ d.
        decode_components d (pattern_of 8 (sub_ℕ (60 + pos_part c.hours) (neg_part c.hours)))
          (pattern_of 8 (sub_ℕ (60 + pos_part c.minutes) (neg_part c.minutes)))
          (pattern_of 8 (sub_ℕ (60 + pos_part c.seconds) (neg_part c.seconds)))
          (signed 32 (flip_top (be_value (be_bytes 4 (flip_top (pattern_of 32 c.nanoseconds)))))))
      (int32_field c.days h)
    ∙ ap
        (λ n.
          decode_components c.days (pattern_of 8 (sub_ℕ (60 + pos_part c.hours) (neg_part c.hours)))
            (pattern_of 8 (sub_ℕ (60 + pos_part c.minutes) (neg_part c.minutes)))
            (pattern_of 8 (sub_ℕ (60 + pos_part c.seconds) (neg_part c.seconds))) n)
        (int32_field c.nanoseconds k)

pub decode_signed :
    (negative : Bool) (p : Parts)
    → InDays p
    → decode_day_to_second (day_to_second_bytes (components negative p))
      ≡ ok (format_day_seconds (components negative p))
decode_signed negative p h =
    decode_bytes (components negative p) (with_sign-IsInt32 negative p.day h.day_bound)
      (with_sign-IsInt32 negative p.nanosecond (omega (arith, h.nanosecond_bound)))
    ∙ decode_components_lem negative p h
