-- ===== src/Number/Bounds.antt =====
-- What `FromNumber`, `DecodeInt` and `addDigitToMantissa` give on any input (internal/driver/ttc/converters/number.go).
use go_oracledb.Base.{
  ℕ, ◌+◌, ◌-◌, ◌*◌, ◌/◌, ◌%◌, ◌^◌, ◌≤◌, ◌<◌, ◌≡◌, refl, Bool, true, false, [], ◌∷◌, length, ltb,
  if◌then◌else◌, ◌||◌, arith, Bool-cases, inl, inr,
}
use go_oracledb.Base.Int.{ℤ, pos, negsuc, neg_ℕ, ◌≤ℤ◌}
use go_oracledb.Base.Bytes.{Bytes}
use go_oracledb.Base.Outcome.{Outcome, ok, err, panic, stuck}
use go_oracledb.Number.Wire.{
  pair_of, unpack, Error, expected_format, invalid_format, precision_exceeded, Number,
}
use go_oracledb.Number.Convert.{add_digit_to_mantissa}

-- The call returned, and its result has `P`.
abbrev pub Gives {ℓ} : {A : Type ℓ} → (A → Type 0) → Outcome Error A → Type 0
Gives P (ok a) = P a
Gives P (err e) = Unit
Gives P panic = ⊥
Gives P stuck = ⊥

pub unpack-Gives :
    (negative : Bool) (bs : Bytes) (m k : ℕ)
    → m < 2 ^ 64
    → Gives (λ r. (r.0 < 2 ^ 64) × (r.1 ≡ k + 2 * length bs)) (unpack negative bs m k)
unfolding unpack
unpack-Gives negative [] m k h = (h, omega arith)
unpack-Gives negative (b ∷ bs) m k h =
    let d = pair_of negative b in
    elim (Bool-cases (ltb 99 d)) [
      | inl big ↦ rw big tt
      | inr small ↦ elim (Bool-cases (ltb 9 (d / 10) || ltb 9 (d % 10))) [
        | inl wrong ↦ rw (small, wrong) tt
        | inr digits ↦ elim (Bool-cases (ltb ((2 ^ 64 - 1 - d) / 100) m)) [
          | inl over ↦ rw (small, digits, over) tt
          | inr fits ↦
              let below : m * 100 + d < 2 ^ 64 = ground arith in
              let ends : (k + 2) + 2 * length bs ≡ k + 2 * length (b ∷ bs) = omega arith in
              rw (small, digits, fits)
                (rw ends at (unpack-Gives negative bs (m * 100 + d) (k + 2) below))
        ]
      ]
    ]

-- A 64-bit mantissa of at most 40 digits and an exponent from -168 to 126.
pub record NumberInRange (n : Number) : Type 0 where
  pub mantissa : n.mantissa < 2 ^ 64
  pub lowest : negsuc 167 ≤ℤ n.exponent
  pub highest : n.exponent ≤ℤ pos 126
  pub digits : n.mantissa_digits ≤ 40

-- An int64.
abbrev pub IsInt64 : ℤ → Type 0
IsInt64 z = (negsuc (2 ^ 63 - 1) ≤ℤ z) × (z ≤ℤ pos (2 ^ 63 - 1))

-- A signed number.
abbrev pub with_sign_of : Bool → ℕ → ℤ
with_sign_of negative n = if negative then neg_ℕ n else pos n

-- The number of a mantissa and an exponent that is not negative.
abbrev pub IsValue : Number → ℤ → Type 0
IsValue n z = (e : ℕ) × (n.exponent ≡ pos e) × (z ≡ with_sign_of n.negative (n.mantissa * 10 ^ e))

unfoldable pub append_digit : ℕ → ℤ → Outcome Error ℕ
append_digit current (negsuc d) = err (expected_format invalid_format)
append_digit current (pos digit) =
    if ltb 9 digit
    then err (expected_format invalid_format)
    else if ltb (current * 10 + digit) (2 ^ 64)
    then ok (current * 10 + digit)
    else err (expected_format precision_exceeded)

-- On a uint64, addDigitToMantissa is exact: it refuses what is no digit, appends a digit where the
-- result is below 2^64, and reports an overflow elsewhere.
pub add_digit_to_mantissa-append_digit :
    (current : ℕ) (digit : ℤ)
    → current < 2 ^ 64
    → add_digit_to_mantissa current digit ≡ append_digit current digit
unfolding add_digit_to_mantissa append_digit
add_digit_to_mantissa-append_digit current (negsuc d) h = refl
add_digit_to_mantissa-append_digit current (pos digit) h = elim (Bool-cases (ltb 9 digit)) [
  | inl e ↦ rw e refl
  | inr e ↦ elim (Bool-cases (ltb ((2 ^ 64 - 1) / 10) current)) [
    | inl over ↦
        let wraps : ltb (current * 10 + digit) (2 ^ 64) ≡ false = ground arith in
        rw (e, over, wraps) refl
    | inr fits ↦
        let tenfold : current * 10 % 2 ^ 64 ≡ current * 10 = ground arith in
        elim (Bool-cases (ltb (current * 10 + digit) (2 ^ 64))) [
          | inl small ↦
              let same : (current * 10 + digit) % 2 ^ 64 ≡ current * 10 + digit = ground arith in
              let grows : ltb (current * 10 + digit) current ≡ false = ground arith in
              rw (e, fits, small, tenfold, same, grows) refl
          | inr large ↦
              let wraps : ltb ((current * 10 + digit) % 2 ^ 64) current ≡ true = ground arith in
              rw (e, fits, large, tenfold, wraps) refl
        ]
  ]
]
