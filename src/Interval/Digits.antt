-- ===== src/Interval/Digits.antt =====
-- Tokens of decimal digits under `strings.IndexByte`, `strings.TrimSpace` and `strconv.ParseInt`.
use go_oracledb.Base.{
  ℕ, zero, suc, ◌+◌, ◌-◌, ◌/◌, ◌%◌, ◌^◌, ◌≤◌, ◌<◌, ◌≡◌, refl, ap, ◌∙◌, Bool, true, false, some, [],
  ◌∷◌, ◌++◌, length, All, ltb, ◌==◌, if◌then◌else◌, arith, Bool-cases, inl, inr, lt→ltb,
  ne→==_false, eq→==, length-append,
}
use go_oracledb.Base.Runes.{Runes, is_space, trim_right, cons_trimmed, trim_space}
use go_oracledb.Base.Int.{pos}
use go_oracledb.Number.Decimal.{
  IsDigit, format_digits, format_uint, digits_value, format_uint-Formats,
}
use go_oracledb.Interval.Tokens.{
  byte_length, split_at, is_digit, all_digits, parse_magnitude, parse_int, pad_two, split_sign,
}
use mathlib.Core.Path.{subst}
use go_oracledb.Naming.Trim.{trim_right-append, trim_left_lem}

-- Digits, at least one, that stand for `n`.
pub record Writes (n : ℕ) (ds : Runes) : Type 0 where
  pub value : digits_value 0 ds ≡ n
  pub digits : All IsDigit ds
  pub some_digit : 1 ≤ length ds

-- A zero in front changes nothing.
pub Writes-zero : (n : ℕ) (ds : Runes) → Writes n ds → Writes n (48 ∷ ds)
unfolding digits_value
Writes-zero n ds h = record {
  value = h.value;
  digits = ((omega arith, omega arith), h.digits);
  some_digit = omega arith;
}

Writes-pad : (b : Bool) (n : ℕ) (ds : Runes) → Writes n ds → Writes n (if b then 48 ∷ ds else ds)
Writes-pad true n ds h = Writes-zero n ds h
Writes-pad false n ds h = h

pub format_uint-Writes : (n : ℕ) → n < 10 ^ 20 → Writes n (format_uint n)
format_uint-Writes n h =
    let f = format_uint-Formats n h in
    record { value = f.value; digits = f.digits; some_digit = f.some_digit }

pub pad_two-Writes : (n : ℕ) → n < 10 ^ 20 → Writes n (pad_two n)
unfolding pad_two
pad_two-Writes n h = Writes-pad (ltb n 10) n (format_uint n) (format_uint-Writes n h)

-- A number below 10^k has k digits at most.
length-format_digits : (fuel k n : ℕ) → n < 10 ^ suc k → length (format_digits fuel n) ≤ suc k
unfolding format_digits
length-format_digits zero k n h = omega arith
length-format_digits (suc fuel) zero n h = rw (lt→ltb n 10 h) (omega arith)
length-format_digits (suc fuel) (suc k) n h = elim (Bool-cases (ltb n 10)) [
  | inl e ↦ rw e (omega arith)
  | inr e ↦ rw e (
      omega (
        arith,
        length-append {0} (format_digits fuel (n / 10)) ((n % 10 + 48) ∷ []),
        length-format_digits fuel k (n / 10) (omega arith),
      ))
]

pub length-format_uint : (k n : ℕ) → n < 10 ^ suc k → length (format_uint n) ≤ suc k
unfolding format_uint
length-format_uint k n h = length-format_digits 20 k n h

length-pad :
    (b : Bool) (ds : Runes) (k : ℕ) → length ds ≤ k → length (if b then 48 ∷ ds else ds) ≤ suc k
length-pad true ds k h = omega (arith, h)
length-pad false ds k h = omega (arith, h)

pub length-pad_two : (k n : ℕ) → n < 10 ^ suc k → length (pad_two n) ≤ suc (suc k)
unfolding pad_two
length-pad_two k n h = length-pad (ltb n 10) (format_uint n) (suc k) (length-format_uint k n h)

pub byte_length-digits : (ds : Runes) → All IsDigit ds → byte_length ds ≡ length ds
unfolding byte_length
byte_length-digits [] h = refl
byte_length-digits (d ∷ ds) h =
    rw (lt→ltb d 0x80 (omega (arith, h.0.1))) (omega (arith, byte_length-digits ds h.1))

is_digit_lem : (d : ℕ) → IsDigit d → is_digit d ≡ true
is_digit_lem d h = ground (arith, h.0, h.1)

all_digits_lem : (ds : Runes) → All IsDigit ds → all_digits ds ≡ true
unfolding all_digits
all_digits_lem [] h = refl
all_digits_lem (d ∷ ds) h = rw (all_digits_lem ds h.1, is_digit_lem d h.0)

-- Digits behind a separator that is no digit.
pub split_at-digits :
    (sep : ℕ) (ds behind : Runes)
    → All IsDigit ds
    → ¬ IsDigit sep
    → split_at sep (ds ++ (sep ∷ behind)) ≡ some (ds, behind)
unfolding split_at
split_at-digits sep [] behind h k = rw (eq→== sep sep refl)
split_at-digits sep (d ∷ ds) behind h k =
    let other : (d == sep) ≡ false = ne→==_false d sep (λ e. k (subst IsDigit e h.0)) in
    rw (split_at-digits sep ds behind h.1 k, other)

parse_magnitude-Writes :
    (bits n : ℕ) (ds : Runes)
    → Writes n ds
    → n < 2 ^ (bits - 1)
    → parse_magnitude bits false ds ≡ some (pos n)
unfolding parse_magnitude
parse_magnitude-Writes bits n [] h fits = absurd (omega (arith, h.some_digit))
parse_magnitude-Writes bits n (d ∷ ds) h fits = rw (
  all_digits_lem (d ∷ ds) h.digits,
  h.value,
  lt→ltb n _ fits,
  ne→==_false (length (d ∷ ds)) 0 (λ e. absurd (omega (arith, e, h.some_digit))),
)

-- `ParseInt` of digits.
pub parse_int-Writes :
    (bits n : ℕ) (ds : Runes) → Writes n ds → n < 2 ^ (bits - 1) → parse_int bits ds ≡ some (pos n)
unfolding parse_int parse_magnitude
parse_int-Writes bits n [] h fits = absurd (omega (arith, h.some_digit))
parse_int-Writes bits n (d ∷ ds) h fits =
    let plus : (d == b'+') ≡ false =
      ne→==_false d b'+' (λ e. absurd (omega (arith, e, h.digits.0.0))) in
    let minus : (d == b'-') ≡ false =
      ne→==_false d b'-' (λ e. absurd (omega (arith, e, h.digits.0.0))) in
    rw (plus, minus) (parse_magnitude-Writes bits n (d ∷ ds) h fits)

pub digit_not_space : (d : ℕ) → IsDigit d → is_space d ≡ false
unfolding is_space
digit_not_space d h = ground (arith, h.0, h.1)

digit_alone : (d : ℕ) → IsDigit d → trim_right (d ∷ []) ≡ d ∷ []
unfolding trim_right
digit_alone d h = rw (digit_not_space d h, cons_trimmed)

-- A text between digits, or behind a sign, has no space to trim.
pub trim_right-digits :
    (front ds : Runes) → All IsDigit ds → 1 ≤ length ds → trim_right (front ++ ds) ≡ front ++ ds
unfolding trim_right
trim_right-digits front [] h k = absurd (omega arith)
trim_right-digits front (d ∷ ds) h k = trim_right-append front d ds (only d ds h.0 h.1)
  where
    only : (d : ℕ) (ds : Runes) → IsDigit d → All IsDigit ds → trim_right (d ∷ ds) ≡ d ∷ ds
    only d [] h k = digit_alone d h
    only d (e ∷ ds) h k = ap (cons_trimmed d) (only e ds k.0 k.1)

pub trim_space-digits :
    (c : ℕ) (front ds : Runes)
    → is_space c ≡ false
    → All IsDigit ds
    → 1 ≤ length ds
    → trim_space (c ∷ (front ++ ds)) ≡ c ∷ (front ++ ds)
unfolding trim_space
trim_space-digits c front ds h k some_digit =
    ap trim_right (trim_left_lem c (front ++ ds) h) ∙ trim_right-digits (c ∷ front) ds k some_digit

-- A digit is no sign.
pub split_sign-digit : (d : ℕ) (r : Runes) → IsDigit d → split_sign (d ∷ r) ≡ (false, d ∷ r)
unfolding split_sign
split_sign-digit d r h =
    let plus : (d == b'+') ≡ false = ne→==_false d b'+' (λ e. absurd (omega (arith, e, h.0))) in
    let minus : (d == b'-') ≡ false = ne→==_false d b'-' (λ e. absurd (omega (arith, e, h.0))) in
    rw (plus, minus)
