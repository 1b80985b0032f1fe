-- ===== src/Interval/DaysWritten.antt =====
-- INTERVAL DAY TO SECOND of internal/driver/ttc/converters/interval.go: the bytes that the encoder puts together.
use go_oracledb.Base.{
  ℕ, suc, ◌+◌, ◌-◌, ◌^◌, ◌≤◌, ◌<◌, ◌≡◌, ◌⊎◌, refl, ap, Bool, true, false, ◌||◌, ◌&&◌, [], ◌∷◌, take,
  ltb, if◌then◌else◌, arith, Bool-cases, inl, inr, ltb→lt, ltb_false→le,
}
use go_oracledb.Base.Bytes.{Bytes, be_bytes}
use go_oracledb.Base.Outcome.{ok, err, Ensures, ensures_ok, ensures_err}
use go_oracledb.Base.Int.{pos, negsuc, pos_part, neg_part, ltb_ℤ}
use go_oracledb.Interval.Tokens.{days_overflow}
use go_oracledb.Interval.YearToMonth.{with_sign}
use go_oracledb.Interval.DayToSecondText.{DaySeconds}
use go_oracledb.Interval.DayToSecond.{assemble_day_to_second, day_to_second_bytes}
use go_oracledb.Interval.Fields.{pos_part-with_sign, neg_part-with_sign}
use go_oracledb.Interval.DaysText.{Parts, InDays, components, some_part}
use go_oracledb.Interval.DaysEncoding.{assemble_lem}

-- Nothing has no sign.
sign_kept :
    (negative b : Bool) (n : ℕ)
    → (b ≡ false → n ≡ 0)
    → with_sign (negative && b) n ≡ with_sign negative n
sign_kept false b n h = refl
sign_kept true true n h = refl
sign_kept true false n h = rw (h refl)

all_false :
    (v w x y z : Bool)
    → (v || w || x || y || z) ≡ false
    → (v ≡ false) × (w ≡ false) × (x ≡ false) × (y ≡ false) × (z ≡ false)
all_false false false false false false h = (refl, refl, refl, refl, refl)
all_false false false false false true h = absurd (cc h)
all_false false false false true z h = absurd (cc h)
all_false false false true y z h = absurd (cc h)
all_false false true x y z h = absurd (cc h)
all_false true w x y z h = absurd (cc h)

not_positive : (n : ℕ) → ltb 0 n ≡ false → n ≡ 0
not_positive n h = omega (arith, ltb_false→le 0 n h)

pub components_sign :
    (negative : Bool) (p : Parts) → components (negative && some_part p) p ≡ components negative p
components_sign negative p = rw (
  sign_kept negative (some_part p) p.day (λ e. not_positive p.day (none_left e).0),
  sign_kept negative (some_part p) p.hour (λ e. not_positive p.hour (none_left e).1),
  sign_kept negative (some_part p) p.minute (λ e. not_positive p.minute (none_left e).2),
  sign_kept negative (some_part p) p.second (λ e. not_positive p.second (none_left e).3),
  sign_kept negative (some_part p) p.nanosecond (λ e. not_positive p.nanosecond (none_left e).4),
)
  where
    none_left :
        some_part p ≡ false
        → (ltb 0 p.day ≡ false)
          × (ltb 0 p.hour ≡ false)
          × (ltb 0 p.minute ≡ false)
          × (ltb 0 p.second ≡ false)
          × (ltb 0 p.nanosecond ≡ false)
    none_left e =
        all_false (ltb 0 p.day) (ltb 0 p.hour) (ltb 0 p.minute) (ltb 0 p.second)
          (ltb 0 p.nanosecond) e

-- What the encoder writes.
abbrev pub IsDayTime : Bytes → Type 0
IsDayTime w =
    ((negative : Bool) × (p : Parts) × InDays p × (w ≡ day_to_second_bytes (components negative p)))
    ⊎ (take 4 w ≡ 0 ∷ (0 ∷ (0 ∷ (0 ∷ []))))

least_days :
    (c : DaySeconds)
    → c.days ≡ negsuc (2 ^ 31 - 1)
    → take 4 (day_to_second_bytes c) ≡ 0 ∷ (0 ∷ (0 ∷ (0 ∷ [])))
unfolding day_to_second_bytes be_bytes
least_days c e = rw e

range_check : Bool → Parts → Bool
range_check b p =
    ltb_ℤ (with_sign b p.day) (negsuc (2 ^ 31 - 1)) || ltb_ℤ (pos (2 ^ 31 - 1)) (with_sign b p.day)

assemble_cases :
    (b : Bool) (p : Parts)
    → assemble_day_to_second b p.day p.hour p.minute p.second p.nanosecond
      ≡ (if range_check b p then err days_overflow else ok (day_to_second_bytes (components b p)))
unfolding assemble_day_to_second range_check
assemble_cases b p = refl

least-IsDayTime : (p : Parts) → p.day ≡ 2 ^ 31 → IsDayTime (day_to_second_bytes (components true p))
least-IsDayTime p e = inr (least_days (components true p) (ap (with_sign true) e))

or_false : (x y : Bool) → (x || y) ≡ false → (x ≡ false) × (y ≡ false)
or_false true y h = absurd (cc h)
or_false false y h = (refl, h)

-- Days outside the bounds pass the check in one case.
only_least :
    (b : Bool) (p : Parts)
    → 2 ^ 31 ≤ p.day
    → range_check b p ≡ false
    → IsDayTime (day_to_second_bytes (components b p))
unfolding range_check
only_least false p big e =
    let flags = or_false _ (ltb (2 ^ 31 - 1 + 0) (p.day + 0)) e in
    absurd (omega (arith, big, ltb_false→le (2 ^ 31 - 1 + 0) (p.day + 0) flags.1))
only_least true p big e =
    let flags = or_false (ltb_ℤ (with_sign true p.day) (negsuc (2 ^ 31 - 1))) _ e in
    let low =
      ltb_false→le (pos_part (with_sign true p.day) + suc (2 ^ 31 - 1))
        (0 + neg_part (with_sign true p.day)) flags.0 in
    least-IsDayTime p (omega (arith, big, low, pos_part-with_sign p.day, neg_part-with_sign p.day))

pub assemble-IsDayTime :
    (negative : Bool) (p : Parts)
    → p.hour < 24
    → p.minute < 60
    → p.second < 60
    → p.nanosecond < 10 ^ 9
    → Ensures IsDayTime
        (assemble_day_to_second negative p.day p.hour p.minute p.second p.nanosecond)
assemble-IsDayTime negative p h k l m = elim (Bool-cases (ltb p.day (2 ^ 31))) [
  | inl e ↦
      let bounds : InDays p = record {
        day_bound = ltb→lt _ _ e;
        hour_bound = h;
        minute_bound = k;
        second_bound = l;
        nanosecond_bound = m;
      } in
      rw (assemble_lem negative p bounds) (ensures_ok _ (inl (negative, p, bounds, refl)))
  | inr e ↦ high negative (ltb_false→le _ _ e)
]
  where
    high :
        (b : Bool)
        → 2 ^ 31 ≤ p.day
        → Ensures IsDayTime (assemble_day_to_second b p.day p.hour p.minute p.second p.nanosecond)
    high b big = elim (Bool-cases (range_check b p)) [
      | inl e ↦ rw (assemble_cases b p, e) (ensures_err _)
      | inr e ↦ rw (assemble_cases b p, e) (ensures_ok _ (only_least b p big e))
    ]
