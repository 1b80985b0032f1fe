-- ===== src/Number/Packing.antt =====
-- `ToNumber` beside `_toNumberStrict` (internal/driver/ttc/converters/number.go): the loop over an index, against the
-- pairs of digits.
use go_oracledb.Base.{
  take, ◌≤◌, ◌<◌, ◌&&◌, if◌then◌else◌, ℕ, zero, suc, ◌+◌, ◌-◌, ◌/◌, ◌≡◌, refl, sym, ap, ◌∙◌, Bool,
  true, false, [], ◌∷◌, length, ltb, ◌==◌, arith, Bool-cases, inl, inr,
}
use go_oracledb.Base.Int.{ℤ, pos, negsuc, pattern_of}
use go_oracledb.Base.Bytes.{Bytes}
use go_oracledb.Base.Outcome.{Outcome, ok}
use go_oracledb.Number.Wire.{
  Error, pack, wire_exponent, is_even, trim_zeros, trailing_zeros, end_zero_count, pack_number,
  encode_digits, to_number, to_number_strict, byte_at, packed_at, pack_from, biased_exponent,
}

packed_at_shift :
    (negative : Bool) (a b : ℕ) (ds : Bytes) (i : ℕ)
    → packed_at negative (a ∷ (b ∷ ds)) (suc (suc i)) ≡ packed_at negative ds i
unfolding packed_at
packed_at_shift negative a b ds i =
    let inside : ltb (suc (suc i)) (suc (suc (length ds)) - 1) ≡ ltb i (length ds - 1) =
      ground arith in
    let next : suc (suc i) + 1 ≡ suc (suc (i + 1)) = omega arith in rw (inside, next) refl

pack_from_shift :
    (negative : Bool) (a b : ℕ) (ds : Bytes) (i rounds : ℕ)
    → pack_from negative (a ∷ (b ∷ ds)) (suc (suc i)) rounds ≡ pack_from negative ds i rounds
unfolding pack_from
pack_from_shift negative a b ds i zero = refl
pack_from_shift negative a b ds i (suc rounds) =
    let next : suc (suc i) + 2 ≡ suc (suc (i + 2)) = omega arith in
    rw (packed_at_shift negative a b ds i, next, pack_from_shift negative a b ds (i + 2) rounds)
      refl

pack_from-pack :
    (negative : Bool) (ds : Bytes)
    → pack_from negative ds 0 ((length ds + 1) / 2) ≡ ok (pack negative ds)
unfolding pack_from pack packed_at byte_at
pack_from-pack negative [] = refl
pack_from-pack negative (a ∷ []) = refl
pack_from-pack negative (a ∷ (b ∷ ds)) =
    let more : (suc (suc (length ds)) + 1) / 2 ≡ suc ((length ds + 1) / 2) = omega arith in
    let low : ltb 0 (suc (suc (length ds)) - 1) ≡ true = ground arith in
    rw
      (
        more,
        low,
        pack_from_shift negative a b ds 0 ((length ds + 1) / 2),
        pack_from-pack negative ds,
      )
      refl

biased_exponent-wire_exponent :
    (exponent : ℤ) → pattern_of 8 (biased_exponent exponent) ≡ wire_exponent exponent
unfolding biased_exponent wire_exponent
biased_exponent-wire_exponent (pos n) = refl
biased_exponent-wire_exponent (negsuc n) = refl

pack_number-to_number_strict :
    (ds : Bytes) (negative : Bool) (exponent : ℤ)
    → pack_number ds negative exponent ≡ ok (to_number_strict ds negative exponent)
unfolding pack_number to_number_strict encode_digits
pack_number-to_number_strict [] negative exponent = refl
pack_number-to_number_strict (d ∷ ds) negative exponent =
    let some_digit : (length (d ∷ ds) == 0) ≡ false = ground arith in
    rw some_digit (elim (Bool-cases (is_even exponent)) [
      | inl even ↦ rw (even, pack_from-pack, biased_exponent-wire_exponent) refl
      | inr odd ↦ rw (odd, pack_from-pack, biased_exponent-wire_exponent) refl
    ])

byte_at_lem : (ds : Bytes) (i : ℕ) → i < length ds → (d : ℕ) × (byte_at ds i ≡ ok d)
unfolding byte_at
byte_at_lem [] i h = absurd (omega arith)
byte_at_lem (d ∷ ds) zero h = (d, refl)
byte_at_lem (d ∷ ds) (suc i) h = byte_at_lem ds i (omega arith)

-- One more byte in front counts where all the others are zeros.
with_front : ℕ → ℕ → ℕ → ℕ
with_front d left n = if n == left && d == 48 then suc n else n

suc-with_front : (d left n : ℕ) → suc (with_front d left n) ≡ with_front d (suc left) (suc n)
unfolding with_front
suc-with_front d left n = elim (Bool-cases (n == left)) [
  | inl e ↦
      let same : (suc n == suc left) ≡ true = ground arith in
      elim (Bool-cases (d == 48)) [ inl f ↦ rw (e, same, f) refl | inr f ↦ rw (e, same, f) refl ]
  | inr e ↦ let other : (suc n == suc left) ≡ false = ground arith in rw (e, other) refl
]

with_front_zero : (d left : ℕ) → 0 ≡ with_front d (suc left) 0
unfolding with_front
with_front_zero d left = let other : (0 == suc left) ≡ false = ground arith in rw other refl

end_zero_count-cons :
    (d : ℕ) (ds : Bytes) (left : ℕ)
    → left ≤ length ds
    → (n : ℕ) × (end_zero_count ds left ≡ ok n)
      × (end_zero_count (d ∷ ds) (suc left) ≡ ok (with_front d left n))
unfolding end_zero_count byte_at with_front
end_zero_count-cons d ds zero h = elim (Bool-cases (d == 48)) [
  | inl e ↦ (0, refl, rw e refl)
  | inr e ↦ (0, refl, rw e refl)
]
end_zero_count-cons d ds (suc left) h =
    let (n, short, long) = end_zero_count-cons d ds left (omega arith) in
    let (x, at) = byte_at_lem ds left (omega arith) in
    elim (Bool-cases (x == 48)) [
      | inl e ↦ (suc n, rw (at, e, short) refl, rw (at, e, long) (ap ok (suc-with_front d left n)))
      | inr e ↦ (0, rw (at, e) refl, rw (at, e) (ap ok (with_front_zero d left)))
    ]

end_zero_count-trailing_zeros :
    (ds : Bytes) → end_zero_count ds (length ds) ≡ ok (trailing_zeros ds)
unfolding trailing_zeros with_front
end_zero_count-trailing_zeros [] = unfold end_zero_count in refl
end_zero_count-trailing_zeros (d ∷ ds) =
    let (n, short, long) = end_zero_count-cons d ds (length ds) (omega arith) in
    let same : n ≡ trailing_zeros ds = ap count_of (sym short ∙ end_zero_count-trailing_zeros ds) in
    long ∙ ap (λ k. ok (with_front d (length ds) k)) same
  where
    count_of : Outcome Error ℕ → ℕ
    count_of (ok k) = k
    count_of _ = 0

-- ToNumber gives, without a panic, what _toNumberStrict gives for the digits without the zeros at their end.
pub to_number-to_number_strict :
    (mantissa : Bytes) (negative : Bool) (exponent : ℤ)
    → to_number mantissa negative exponent
      ≡ ok (to_number_strict (trim_zeros mantissa) negative exponent)
unfolding to_number trim_zeros
to_number-to_number_strict mantissa negative exponent =
    rw (end_zero_count-trailing_zeros mantissa) (
      pack_number-to_number_strict (take (length mantissa - trailing_zeros mantissa) mantissa)
        negative exponent)
