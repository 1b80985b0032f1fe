-- ===== src/Number/Decimal.antt =====
-- Decimal digits in ASCII, as `strconv.FormatUint` writes them.
use go_oracledb.Base.{
  ℕ, zero, suc, ◌+◌, ◌-◌, ◌*◌, ◌/◌, ◌%◌, ◌^◌, ◌≤◌, ◌<◌, ◌≡◌, refl, [], ◌∷◌, ◌++◌, length, ltb,
  if◌then◌else◌, arith, All, Bool-cases, inl, inr, ltb→lt, ltb_false→le, length-append,
}
use go_oracledb.Base.Bytes.{Bytes}

abbrev pub IsDigit : ℕ → Type 0
IsDigit d = (48 ≤ d) × (d ≤ 57)

-- The digits of `n`, with fuel for the number of digits.
unfoldable pub format_digits : ℕ → ℕ → Bytes
format_digits zero n = []
format_digits (suc fuel) n =
    let front = format_digits fuel (n / 10) in
    if ltb n 10 then (n + 48) ∷ [] else (front ++ ((n % 10 + 48) ∷ []))

-- `strconv.FormatUint(n, 10)`: a uint64 has at most 20 digits.
unfoldable pub format_uint : ℕ → Bytes
unfolding format_digits
format_uint n = format_digits 20 n

-- The number that digits stand for, behind `acc`.
unfoldable pub digits_value : ℕ → Bytes → ℕ
digits_value acc [] = acc
digits_value acc (d ∷ ds) = digits_value (acc * 10 + (d - 48)) ds

pub digits_value-append :
    (acc : ℕ) (xs ys : Bytes) → digits_value acc (xs ++ ys) ≡ digits_value (digits_value acc xs) ys
unfolding digits_value
digits_value-append acc [] ys = refl
digits_value-append acc (x ∷ xs) ys = digits_value-append (acc * 10 + (x - 48)) xs ys

All-IsDigit-append : (xs ys : Bytes) → All IsDigit xs → All IsDigit ys → All IsDigit (xs ++ ys)
All-IsDigit-append [] ys h k = k
All-IsDigit-append (x ∷ xs) ys h k = (h.0, All-IsDigit-append xs ys h.1 k)

-- Enough fuel gives the digits of the number.
pub record Formats (n : ℕ) (ds : Bytes) (most : ℕ) : Type 0 where
  pub value : digits_value 0 ds ≡ n
  pub digits : All IsDigit ds
  pub some_digit : 1 ≤ length ds
  pub at_most : length ds ≤ most

pub format_digits-Formats :
    (fuel n : ℕ) → n < 10 ^ suc fuel → Formats n (format_digits (suc fuel) n) (suc fuel)
unfolding format_digits digits_value
format_digits-Formats zero n h = elim (Bool-cases (ltb n 10)) [
  | inl e ↦ rw e (record {
    value = omega arith;
    digits = omega arith;
    some_digit = omega arith;
    at_most = omega arith;
  })
  | inr e ↦ absurd (omega (arith, ltb_false→le _ _ e))
]
format_digits-Formats (suc fuel) n h = elim (Bool-cases (ltb n 10)) [
  | inl e ↦ rw e (record {
    value = omega arith;
    digits = omega (arith, ltb→lt _ _ e);
    some_digit = omega arith;
    at_most = omega arith;
  })
  | inr e ↦
      let ih = format_digits-Formats fuel (n / 10) (omega arith) in
      let front = format_digits (suc fuel) (n / 10) in
      rw e (record {
        value = omega (arith, digits_value-append 0 front ((n % 10 + 48) ∷ []), ih.value);
        digits = All-IsDigit-append front ((n % 10 + 48) ∷ []) ih.digits (omega arith);
        some_digit = omega (arith, length-append {0} front ((n % 10 + 48) ∷ []));
        at_most = omega (arith, length-append {0} front ((n % 10 + 48) ∷ []), ih.at_most);
      })
]

pub format_uint-Formats : (n : ℕ) → n < 10 ^ 20 → Formats n (format_uint n) 20
unfolding format_uint
format_uint-Formats n h = format_digits-Formats 19 n h
