-- ===== src/Interval/Fractions.antt =====
-- The fraction of the seconds in internal/driver/ttc/converters/interval.go: nine digits without the zeros at the end.
use go_oracledb.Base.{
  ℕ, zero, suc, ◌-◌, ◌^◌, ◌≤◌, ◌<◌, ◌≡◌, ◌≢◌, refl, sym, ap, ◌∙◌, false, [], ◌∷◌, ◌++◌, length,
  length-append, length-replicate, replicate, All, ltb, ◌==◌, arith, Bool-cases, inl, inr,
  le→ltb_false, ne→==_false, ==_iff,
}
use go_oracledb.Base.Runes.{Runes}
use go_oracledb.Base.Outcome.{ok}
use go_oracledb.Number.Decimal.{IsDigit, digits_value, format_uint}
use go_oracledb.Interval.DayToSecondText.{
  cons_digit, trim_trailing_zeros, pad_nine, format_fraction,
}
use go_oracledb.Interval.DayToSecond.{parse_nanoseconds}
use go_oracledb.Interval.Digits.{
  Writes, Writes-zero, format_uint-Writes, length-format_uint, byte_length-digits, parse_int-Writes,
}
use mathlib.Core.Path.{subst}
use mathlib.Core.Bool.{true≢false}

-- The zeros that are trimmed, put back.
pad_digit :
    (c : ℕ) (t r : Runes)
    → t ++ replicate (length r - length t) 48 ≡ r
    → cons_digit c t ++ replicate (suc (length r) - length (cons_digit c t)) 48 ≡ c ∷ r
pad_digit c [] r h =
    let whole : length r - 0 ≡ length r = omega arith in
    let size : suc (length r) - 1 ≡ length r = omega arith in
    let none_left : suc (length r) - 0 ≡ suc (length r) = omega arith in
    let zeros : replicate (length r) 48 ≡ r = ap (λ k. replicate k 48) (sym whole) ∙ h in
    elim (Bool-cases (c == 48)) [
      | inl e ↦ rw (e, none_left, zeros) (ap (λ d. d ∷ r) (sym ((==_iff c 48).0 e)))
      | inr e ↦ rw (e, size, zeros)
    ]
pad_digit c (d ∷ ds) r h =
    let size : suc (length r) - suc (suc (length ds)) ≡ length r - suc (length ds) = omega arith in
    rw (size, h)

pad-trim_trailing_zeros :
    (ds : Runes)
    → trim_trailing_zeros ds ++ replicate (length ds - length (trim_trailing_zeros ds)) 48 ≡ ds
unfolding trim_trailing_zeros
pad-trim_trailing_zeros [] = refl
pad-trim_trailing_zeros (c ∷ r) = pad_digit c (trim_trailing_zeros r) r (pad-trim_trailing_zeros r)

cons_digit-digits :
    (c : ℕ) (t : Runes) (most : ℕ)
    → IsDigit c
    → All IsDigit t × (length t ≤ most)
    → All IsDigit (cons_digit c t) × (length (cons_digit c t) ≤ suc most)
cons_digit-digits c [] most h k = elim (Bool-cases (c == 48)) [
  | inl e ↦ rw e (tt, omega arith)
  | inr e ↦ rw e ((h, tt), omega arith)
]
cons_digit-digits c (d ∷ ds) most h k = ((h, k.0), omega (arith, k.1))

trim_trailing_zeros-digits :
    (ds : Runes)
    → All IsDigit ds
    → All IsDigit (trim_trailing_zeros ds) × (length (trim_trailing_zeros ds) ≤ length ds)
unfolding trim_trailing_zeros
trim_trailing_zeros-digits [] h = (tt, omega arith)
trim_trailing_zeros-digits (c ∷ r) h =
    cons_digit-digits c (trim_trailing_zeros r) (length r) h.0 (trim_trailing_zeros-digits r h.1)

Writes-zeros : (k n : ℕ) (ds : Runes) → Writes n ds → Writes n (replicate k 48 ++ ds)
Writes-zeros zero n ds h = h
Writes-zeros (suc k) n ds h = Writes-zero n (replicate k 48 ++ ds) (Writes-zeros k n ds h)

-- The nine digits of a number of nanoseconds.
pad_nine-Writes : (n : ℕ) → n < 10 ^ 9 → Writes n (pad_nine n) × (length (pad_nine n) ≡ 9)
unfolding pad_nine
pad_nine-Writes n h =
    let short = length-format_uint 8 n h in
    let zeros = 9 - length (format_uint n) in
    (
      Writes-zeros zeros n (format_uint n) (format_uint-Writes n (omega (arith, h))),
      length-append {0} (replicate zeros 48) (format_uint n)
          ∙ omega (arith, length-replicate {A = ℕ} zeros 48, short),
    )

-- Digits that are nine digits of the number, once zeros are put behind them.
pub record IsFraction (n : ℕ) (ds : Runes) : Type 0 where
  pub digits : All IsDigit ds
  pub some_digit : 1 ≤ length ds
  pub at_most : length ds ≤ 9
  pub padded : Writes n (ds ++ replicate (9 - length ds) 48)

zeros_value : (k : ℕ) → digits_value 0 (replicate k 48) ≡ 0
unfolding digits_value
zeros_value zero = refl
zeros_value (suc k) = zeros_value k

trimmed-IsFraction :
    (n : ℕ) (t p : Runes)
    → n ≢ 0
    → Writes n p
    → length p ≡ 9
    → All IsDigit t
    → length t ≤ 9
    → t ++ replicate (9 - length t) 48 ≡ p
    → IsFraction n t
trimmed-IsFraction n [] p some_value h size digits short e =
    absurd (some_value (sym h.value ∙ (ap (digits_value 0) (sym e) ∙ zeros_value 9)))
trimmed-IsFraction n (d ∷ ds) p some_value h size digits short e = record {
  digits = digits;
  some_digit = omega arith;
  at_most = short;
  padded = subst (Writes n) (sym e) h;
}

zero-IsFraction : IsFraction 0 (48 ∷ [])
unfolding digits_value
zero-IsFraction = record {
  digits = omega arith;
  some_digit = omega arith;
  at_most = omega arith;
  padded = record { value = refl; digits = omega arith; some_digit = omega arith };
}

pub format_fraction-IsFraction : (n : ℕ) → n < 10 ^ 9 → IsFraction n (format_fraction n)
unfolding format_fraction
format_fraction-IsFraction n h = elim (Bool-cases (n == 0)) [
  | inl e ↦ rw e (subst (λ k. IsFraction k (48 ∷ [])) (sym ((==_iff n 0).0 e)) zero-IsFraction)
  | inr e ↦
      let (writes, size) = pad_nine-Writes n h in
      let (digits, short) = trim_trailing_zeros-digits (pad_nine n) writes.digits in
      let back = pad-trim_trailing_zeros (pad_nine n) in
      rw e (
        trimmed-IsFraction n (trim_trailing_zeros (pad_nine n)) (pad_nine n)
          (λ z. true≢false (sym ((==_iff n 0).1 z) ∙ e)) writes size digits
          (omega (arith, short, size))
          (ap
              (λ k.
                trim_trailing_zeros (pad_nine n)
                ++ replicate (k - length (trim_trailing_zeros (pad_nine n))) 48)
              (sym size)
            ∙ back))
]

-- The number is read from the fraction.
pub parse_nanoseconds-IsFraction :
    (n : ℕ) (ds : Runes) → n < 10 ^ 9 → IsFraction n ds → parse_nanoseconds ds ≡ ok n
unfolding parse_nanoseconds
parse_nanoseconds-IsFraction n ds h f =
    let size = byte_length-digits ds f.digits in
    let some_rune : (length ds == 0) ≡ false =
      ne→==_false _ 0 (λ e. absurd (omega (arith, e, f.some_digit))) in
    let short : ltb 9 (length ds) ≡ false = le→ltb_false 9 (length ds) f.at_most in
    let read =
      parse_int-Writes 32 n (ds ++ replicate (9 - length ds) 48) f.padded (omega (arith, h)) in
    rw (size, some_rune, short, read)
