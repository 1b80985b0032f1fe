-- ===== src/Interval/Magnitude.antt =====
-- The numbers that `strconv.ParseInt` reads, bounded by the digits without the leading zeros.
use go_oracledb.Base.{
  ℕ, suc, ◌+◌, ◌-◌, ◌*◌, ◌^◌, ◌≤◌, ◌<◌, ◌≡◌, ◌≢◌, sym, ap, Bool, true, false, none, some, [], ◌∷◌,
  length, All, ltb, leb, ◌==◌, if◌then◌else◌, arith, Bool-cases, inl, inr, ne→==_false, ==_iff,
}
use go_oracledb.Base.Runes.{Runes}
use go_oracledb.Base.Int.{pos, pos_part, neg_ℕ}
use go_oracledb.Number.Decimal.{IsDigit, digits_value}
use go_oracledb.Interval.Tokens.{
  rune_length, byte_length, is_digit, all_digits, parse_magnitude, parse_int,
}
use go_oracledb.Interval.YearToMonth.{leading_zeros, years_digits}
use go_oracledb.Interval.Digits.{byte_length-digits}
use native.Mathlib.Nat.{pow-suc, pow-le-pow_right, mul-le-mul_right}
use mathlib.Core.Bool.{true≢false}
use mathlib.Core.Option.{some-injective}

is_digit-IsDigit : (d : ℕ) → is_digit d ≡ true → IsDigit d
is_digit-IsDigit d h = (ground arith, ground arith)

all_digits-IsDigit : (ds : Runes) → all_digits ds ≡ true → All IsDigit ds
unfolding all_digits
all_digits-IsDigit [] h = tt
all_digits-IsDigit (d ∷ ds) h = elim (Bool-cases (is_digit d)) [
  | inl e ↦ (is_digit-IsDigit d e, all_digits-IsDigit ds (rw e at h))
  | inr e ↦ absurd (true≢false (sym (rw e at h)))
]

digits_value-lt :
    (acc : ℕ) (ds : Runes) → All IsDigit ds → digits_value acc ds < (acc + 1) * 10 ^ length ds
unfolding digits_value
digits_value-lt acc [] h = omega arith
digits_value-lt acc (d ∷ ds) h =
    let rest = digits_value-lt (acc * 10 + (d - 48)) ds h.1 in
    omega (
      arith,
      rest,
      h.0.1,
      mul-le-mul_right {m = acc * 10 + (d - 48) + 1} {n = (acc + 1) * 10} (10 ^ length ds)
          (omega (arith, h.0.1)),
      ap (λ t. (acc + 1) * t) (pow-suc 10 (length ds)),
    )

digits_value-significant :
    (ds : Runes) → All IsDigit ds → digits_value 0 ds < 10 ^ (length ds - leading_zeros ds)
unfolding digits_value leading_zeros
digits_value-significant [] h = omega arith
digits_value-significant (d ∷ ds) h = elim (Bool-cases (d == 48)) [
  | inl e ↦
      let zero_digit : 0 + (d - 48) ≡ 0 = omega (arith, (==_iff d 48).0 e) in
      let shorter : suc (length ds) - suc (leading_zeros ds) ≡ length ds - leading_zeros ds =
        omega arith in
      rw (e, zero_digit, shorter) (digits_value-significant ds h.1)
  | inr e ↦
      let whole : suc (length ds) - 0 ≡ suc (length ds) = omega arith in
      let room =
        mul-le-mul_right {m = 0 + (d - 48) + 1} {n = 10} (10 ^ length ds) (omega (arith, h.0.1)) in
      rw (e, whole)
        (omega (arith, digits_value-lt (0 + (d - 48)) ds h.1, room, pow-suc 10 (length ds)))
]

pub length_le_byte_length : (s : Runes) → length s ≤ byte_length s
unfolding byte_length
length_le_byte_length [] = omega arith
length_le_byte_length (c ∷ s) = omega (arith, rune_length_positive c, length_le_byte_length s)
  where
    rune_length_positive : (c : ℕ) → 1 ≤ rune_length c
    rune_length_positive c = ground arith

neg_ℕ-pos : (v n : ℕ) → neg_ℕ v ≡ pos n → n ≤ v
neg_ℕ-pos v n h = elim (Bool-cases (leb v 0)) [
  | inl e ↦ omega (arith, ap pos_part (rw e at h))
  | inr e ↦ absurd (cc (rw e at h))
]

read_magnitude :
    (bits : ℕ) (negative : Bool) (v n : ℕ)
    → (if negative
        then (if ltb (2 ^ (bits - 1)) v then none else some (neg_ℕ v))
        else if ltb v (2 ^ (bits - 1))
        then some (pos v)
        else none)
      ≡ some (pos n)
    → n ≤ v
read_magnitude bits true v n h = elim (Bool-cases (ltb (2 ^ (bits - 1)) v)) [
  | inl e ↦ absurd (cc (rw e at h))
  | inr e ↦ neg_ℕ-pos v n (some-injective _ _ (rw e at h))
]
read_magnitude bits false v n h = elim (Bool-cases (ltb v (2 ^ (bits - 1)))) [
  | inl e ↦ omega (arith, ap pos_part (some-injective _ _ (rw e at h)))
  | inr e ↦ absurd (cc (rw e at h))
]

-- What is read behind the sign has digits only.
parse_magnitude-value :
    (bits : ℕ) (negative : Bool) (s : Runes) (n : ℕ)
    → parse_magnitude bits negative s ≡ some (pos n)
    → All IsDigit s × (n ≤ digits_value 0 s)
unfolding parse_magnitude
parse_magnitude-value bits negative [] n h = absurd (cc h)
parse_magnitude-value bits negative (d ∷ ds) n h =
    let some_rune : (length (d ∷ ds) == 0) ≡ false =
      ne→==_false _ 0 (λ e. absurd (omega (arith, e))) in
    elim (Bool-cases (all_digits (d ∷ ds))) [
      | inl e ↦ (
        all_digits-IsDigit (d ∷ ds) e,
        read_magnitude bits negative (digits_value 0 (d ∷ ds)) n (rw (some_rune, e) at h),
      )
      | inr e ↦ absurd (cc (rw (some_rune, e) at h))
    ]

pub bounded : (k n : ℕ) → k ≤ 9 → n < 10 ^ k → n < 10 ^ 9
bounded k n h below =
    omega (arith, below, pow-le-pow_right {n = 10} (omega arith) {i = k} {j = 9} h)

at_most : (k : ℕ) → (if k == 0 then 1 else k) ≤ 9 → k ≤ 9
at_most k h = elim (Bool-cases (k == 0)) [
  | inl e ↦ omega (arith, (==_iff k 0).0 e)
  | inr e ↦ rw e at h
]

-- Behind a sign there are fewer runes.
signed_bound :
    (bits : ℕ) (negative : Bool) (c : ℕ) (r : Runes) (n : ℕ)
    → c ≢ 48
    → years_digits (c ∷ r) ≤ 9
    → parse_magnitude bits negative r ≡ some (pos n)
    → n < 10 ^ 9
unfolding years_digits leading_zeros
signed_bound bits negative c r n other short h =
    let (digits, most) = parse_magnitude-value bits negative r n h in
    let long = length_le_byte_length (c ∷ r) in
    let value = digits_value-lt 0 r digits in
    let no_zero : leading_zeros (c ∷ r) ≡ 0 = rw (ne→==_false c 48 other) in
    bounded (length r) n
      (omega (arith, at_most (byte_length (c ∷ r) - leading_zeros (c ∷ r)) short, no_zero, long))
      (omega (arith, most, value))

pub years_bound :
    (bits : ℕ) (token : Runes) (n : ℕ)
    → years_digits token ≤ 9
    → parse_int bits token ≡ some (pos n)
    → n < 10 ^ 9
unfolding parse_int years_digits
years_bound bits [] n short h = absurd (cc h)
years_bound bits (c ∷ r) n short h = elim (Bool-cases (c == b'+')) [
  | inl e ↦
      signed_bound bits false c r n (λ z. absurd (omega (arith, z, (==_iff c b'+').0 e))) short
        (rw e at h)
  | inr e ↦ elim (Bool-cases (c == b'-')) [
    | inl f ↦
        signed_bound bits true c r n (λ z. absurd (omega (arith, z, (==_iff c b'-').0 f))) short
          (rw (e, f) at h)
    | inr f ↦
        let (digits, most) = parse_magnitude-value bits false (c ∷ r) n (rw (e, f) at h) in
        let value = digits_value-significant (c ∷ r) digits in
        let size = byte_length-digits (c ∷ r) digits in
        bounded (length (c ∷ r) - leading_zeros (c ∷ r)) n
          (omega (arith, at_most (byte_length (c ∷ r) - leading_zeros (c ∷ r)) short, size))
          (omega (arith, most, value))
  ]
]

-- What is read has as many digits as the token has runes, at most.
pub parse_int-lt :
    (bits : ℕ) (token : Runes) (n : ℕ) → parse_int bits token ≡ some (pos n) → n < 10 ^ length token
unfolding parse_int
parse_int-lt bits [] n h = absurd (cc h)
parse_int-lt bits (c ∷ r) n h = elim (Bool-cases (c == b'+')) [
  | inl e ↦ behind false (rw e at h)
  | inr e ↦ elim (Bool-cases (c == b'-')) [
    | inl f ↦ behind true (rw (e, f) at h)
    | inr f ↦
        let (digits, most) = parse_magnitude-value bits false (c ∷ r) n (rw (e, f) at h) in
        omega (arith, most, digits_value-lt 0 (c ∷ r) digits)
  ]
]
  where
    behind : (b : Bool) → parse_magnitude bits b r ≡ some (pos n) → n < 10 ^ length (c ∷ r)
    behind b k =
        let (digits, most) = parse_magnitude-value bits b r n k in
        omega (arith, most, digits_value-lt 0 r digits, pow-suc 10 (length r))
