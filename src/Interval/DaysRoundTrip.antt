-- ===== src/Interval/DaysRoundTrip.antt =====
-- INTERVAL DAY TO SECOND of internal/driver/ttc/converters/interval.go: the text of an encoding has that encoding.
use go_oracledb.Base.{
  ℕ, ◌-◌, ◌^◌, ◌≤◌, ◌<◌, ◌≡◌, ◌≢◌, refl, sym, ap, ◌∙◌, Bool, ◌||◌, ◌&&◌, Option, none, some, [],
  ◌∷◌, ◌++◌, take, length, length-append, length-replicate, replicate, ltb, ◌==◌, arith,
  Option-cases, Bool-cases, inl, inr, ltb→lt, ltb_false→le,
}
use go_oracledb.Base.Bytes.{Bytes}
use go_oracledb.Base.Runes.{Runes, trim_space}
use go_oracledb.Base.Outcome.{
  ok, err, ◌>>=◌, Ensures, ensures_ok, ensures_err, Ensures-ok, Ensures-bind,
}
use go_oracledb.Base.Int.{ℤ, pos, negsuc}
use go_oracledb.Interval.Tokens.{
  Error, invalid_format, parse_day, parse_hour, parse_minute, parse_second, parse_fraction,
  hour_out_of_range, minute_out_of_range, second_out_of_range, parse_int, byte_length, split_at,
}
use go_oracledb.Interval.Magnitude.{parse_int-lt, length_le_byte_length, bounded}
use go_oracledb.Interval.DayToSecondText.{decode_day_to_second}
use go_oracledb.Interval.DayToSecond.{
  split_time, split_seconds, parse_component, day_of, in_range, parse_nanoseconds,
  assemble_day_to_second, day_to_second_bytes, encode_day_time_tokens, encode_unsigned_days,
  split_spaced_sign, encode_day_to_second,
}
use go_oracledb.Interval.DaysText.{
  Parts, InDays, components, some_part, format_day_seconds-components, decode_signed,
}
use go_oracledb.Interval.DaysEncoding.{encode_format}
use mathlib.Core.Path.{subst}
use go_oracledb.Interval.MonthsRoundTrip.{HasText}
use go_oracledb.Interval.DaysWritten.{components_sign, IsDayTime, assemble-IsDayTime}

parse_component-Ensures :
    (e : Error) (token : Runes) → Ensures (λ (z : ℤ). Unit {0}) (parse_component e token)
unfolding parse_component
parse_component-Ensures e token = elim (Option-cases (parse_int 64 token)) [
  | inl f ↦ rw (f, parse_component) (ensures_err e)
  | inr (z, f) ↦ rw (f, parse_component) (ensures_ok z tt)
]

day_of-Ensures : (z : ℤ) → Ensures (λ (n : ℕ). Unit {0}) (day_of z)
day_of-Ensures (pos n) = ensures_ok n tt
day_of-Ensures (negsuc n) = ensures_err _

in_range-Ensures : (e : Error) (most : ℕ) (z : ℤ) → Ensures (λ n. n < most) (in_range e most z)
in_range-Ensures e most (negsuc n) = ensures_err e
in_range-Ensures e most (pos n) = elim (Bool-cases (ltb n most)) [
  | inl f ↦ rw f (ensures_ok n (ltb→lt _ _ f))
  | inr f ↦ rw f (ensures_err e)
]

parse_nanoseconds-Ensures : (token : Runes) → Ensures (λ n. n < 10 ^ 9) (parse_nanoseconds token)
unfolding parse_nanoseconds
parse_nanoseconds-Ensures token = elim (Bool-cases (length token == 0)) [
  | inl e ↦ rw e (ensures_ok 0 (omega arith))
  | inr e ↦ elim (Bool-cases (ltb 9 (byte_length token))) [
    | inl f ↦ rw (e, f) (ensures_err _)
    | inr f ↦
        rw (e, f)
          (read (parse_int 32 (token ++ replicate (9 - byte_length token) 48)) refl
            (ltb_false→le _ _ f))
  ]
]
  where
    read :
        (z : Option ℤ)
        → parse_int 32 (token ++ replicate (9 - byte_length token) 48) ≡ z
        → byte_length token ≤ 9
        → Ensures
            (λ n. n < 10 ^ 9)
            (elim z [
              | none ↦ err parse_fraction
              | some (negsuc n) ↦ err parse_fraction
              | some (pos n) ↦ ok n
            ])
    read none e h = ensures_err _
    read (some (negsuc n)) e h = ensures_err _
    read (some (pos n)) e h =
        let size : length (token ++ replicate (9 - byte_length token) 48) ≤ 9 = omega (
          arith,
          length-append {0} token (replicate (9 - byte_length token) 48),
          length-replicate {A = ℕ} (9 - byte_length token) 48,
          length_le_byte_length token,
          h,
        ) in
        ensures_ok n (
          bounded (length (token ++ replicate (9 - byte_length token) 48)) n size
            (parse_int-lt 32 _ n e))

tokens-IsDayTime :
    (negative : Bool) (day_token time_token : Runes)
    → Ensures IsDayTime (encode_day_time_tokens negative day_token time_token)
unfolding encode_day_time_tokens
tokens-IsDayTime negative day_token time_token =
    Ensures-bind (λ _. Unit {0}) IsDayTime _ (parse_component-Ensures parse_day day_token)
      (λ d _.
        Ensures-bind (λ _. Unit {0}) IsDayTime _ (day_of-Ensures d)
          (λ day _. with_time day (split_time time_token)))
  where
    with_time :
        (day : ℕ) (t : Option (Runes × Runes × Runes))
        → Ensures IsDayTime (elim t [
          | none ↦ err invalid_format
          | some (hour_token, minute_token, second_token) ↦ do
            h ← parse_component parse_hour hour_token
            m ← parse_component parse_minute minute_token
            s ← parse_component parse_second (split_seconds second_token).0
            hour ← in_range hour_out_of_range 24 h
            minute ← in_range minute_out_of_range 60 m
            second ← in_range second_out_of_range 60 s
            ns ← parse_nanoseconds (split_seconds second_token).1
            assemble_day_to_second negative day hour minute second ns
        ])
    with_time day none = ensures_err _
    with_time day (some (hour_token, minute_token, second_token)) =
        Ensures-bind (λ _. Unit {0}) IsDayTime _ (parse_component-Ensures parse_hour hour_token)
          (λ h _.
            Ensures-bind (λ _. Unit {0}) IsDayTime _
              (parse_component-Ensures parse_minute minute_token)
              (λ m _.
                Ensures-bind (λ _. Unit {0}) IsDayTime _
                  (parse_component-Ensures parse_second (split_seconds second_token).0)
                  (λ s _.
                    Ensures-bind (λ n. n < 24) IsDayTime _ (in_range-Ensures hour_out_of_range 24 h)
                      (λ hour hb.
                        Ensures-bind (λ n. n < 60) IsDayTime _
                          (in_range-Ensures minute_out_of_range 60 m)
                          (λ minute mb.
                            Ensures-bind (λ n. n < 60) IsDayTime _
                              (in_range-Ensures second_out_of_range 60 s)
                              (λ second sb.
                                Ensures-bind (λ n. n < 10 ^ 9) IsDayTime _
                                  (parse_nanoseconds-Ensures (split_seconds second_token).1)
                                  (λ ns nb.
                                    assemble-IsDayTime negative
                                      (record {
                                        day = day;
                                        hour = hour;
                                        minute = minute;
                                        second = second;
                                        nanosecond = ns;
                                      })
                                      hb mb sb nb)))))))

unsigned-IsDayTime :
    (negative : Bool) (text : Runes) → Ensures IsDayTime (encode_unsigned_days negative text)
unfolding encode_unsigned_days
unsigned-IsDayTime negative text = elim (Option-cases (split_at b' ' text)) [
  | inl e ↦ rw (encode_unsigned_days, e) (ensures_err _)
  | inr (parts, e) ↦ elim (Bool-cases ((length parts.0 == 0) || (length parts.1 == 0))) [
    | inl f ↦ rw (encode_unsigned_days, e, f) (ensures_err _)
    | inr f ↦ rw (encode_unsigned_days, e, f) (tokens-IsDayTime negative parts.0 parts.1)
  ]
]

encode-IsDayTime : (canon : Runes) → Ensures IsDayTime (encode_day_to_second canon)
unfolding encode_day_to_second
encode-IsDayTime canon = elim (Bool-cases (length (trim_space canon) == 0)) [
  | inl e ↦ rw e (ensures_err _)
  | inr e ↦ rw e (
      unsigned-IsDayTime (split_spaced_sign (trim_space canon)).0
        (split_spaced_sign (trim_space canon)).1)
]

text_of_bytes :
    (negative : Bool) (p : Parts)
    → InDays p
    → HasText decode_day_to_second encode_day_to_second
        (day_to_second_bytes (components negative p))
text_of_bytes negative p h =
    let sign = negative && some_part p in
    (
      _,
      decode_signed negative p h ∙ ap ok (format_day_seconds-components negative p h),
      encode_format sign p h ∙ ap (λ c. ok (day_to_second_bytes c)) (components_sign negative p),
    )

-- Where the encoder gives bytes for a text, and they do not start with four zeros, the decoder gives a text for the
-- bytes, and the encoder the same bytes for that text.
pub decode_day_to_second-encode_day_to_second :
    (text : Runes) (w : Bytes)
    → encode_day_to_second text ≡ ok w
    → take 4 w ≢ 0 ∷ (0 ∷ (0 ∷ (0 ∷ [])))
    → HasText decode_day_to_second encode_day_to_second w
decode_day_to_second-encode_day_to_second text w h other =
    elim (Ensures-ok IsDayTime w (encode-IsDayTime text) h) [
      | inl (negative, p, bounds, e) ↦
          subst (HasText decode_day_to_second encode_day_to_second) (sym e)
            (text_of_bytes negative p bounds)
      | inr e ↦ absurd (other e)
    ]
