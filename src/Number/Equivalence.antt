-- ===== src/Number/Equivalence.antt =====
-- `FromNumber` beside `_fromNumberBig` (internal/driver/ttc/converters/number.go).
use go_oracledb.Base.{
  ℕ, ◌+◌, ◌-◌, ◌*◌, ◌/◌, ◌%◌, ◌^◌, ◌<◌, ◌≡◌, refl, Bool, true, false, [], ◌∷◌, ltb, ◌==◌, ◌||◌,
  arith, All, Bool-cases, inl, inr, ◌⊎◌,
}
use go_oracledb.Base.Int.{pos, ltb_ℤ, pos_part}
use go_oracledb.Base.Bytes.{Bytes, IsByte}
use go_oracledb.Base.Outcome.{Outcome, ok, err, panic, stuck, ◌>>=◌}
use go_oracledb.Number.Wire.{
  pair_of, big_pair_of, unpack, unpack_big, drop_terminator, payload_of, Error, expected_format,
  precision_exceeded, from_number, from_number_big, validate_number_wire_length,
}
use Prim.Native.Nat.{bit_and}
use mathlib.Core.Path.{subst}

-- The two outcomes are equal, or the first is the overflow of the 64-bit mantissa.
abbrev pub SameOrOverflow {ℓ} : {A : Type ℓ} → Outcome Error A → Outcome Error A → Type ℓ
SameOrOverflow fast big = (fast ≡ big) ⊎ (fast ≡ err (expected_format precision_exceeded))

SameOrOverflow-bind {ℓ κ} :
    {A : Type ℓ} {B : Type κ} (m m' : Outcome Error A) (f g : A → Outcome Error B)
    → SameOrOverflow m m'
    → ((a : A) → m' ≡ ok a → SameOrOverflow (f a) (g a))
    → SameOrOverflow (m >>= f) (m' >>= g)
SameOrOverflow-bind {A = A} {B = B} m m' f g first next = elim first [
  | inl e ↦ rw e (go m' refl)
  | inr e ↦ inr (rw e refl)
]
  where
    go : (r : Outcome Error A) → m' ≡ r → SameOrOverflow (r >>= f) (r >>= g)
    go (ok a) e = next a e
    go (err x) e = inl refl
    go panic e = inl refl
    go stuck e = inl refl

pair_tests :
    (negative : Bool) (b : ℕ)
    → b < 256
    → (ltb_ℤ (big_pair_of negative b) (pos 0) || ltb_ℤ (pos 99) (big_pair_of negative b))
      ≡ ltb 99 (pair_of negative b)
unfolding pair_of
pair_tests true b h = ground arith
pair_tests false b h = ground arith

pair_values :
    (negative : Bool) (b : ℕ)
    → b < 256
    → ltb 99 (pair_of negative b) ≡ false
    → pos_part (big_pair_of negative b) ≡ pair_of negative b
unfolding pair_of
pair_values true b h small = ground arith
pair_values false b h small = ground arith

digit_tests : (d : ℕ) → ltb 99 d ≡ false → (ltb 9 (d / 10) || ltb 9 (d % 10)) ≡ false
digit_tests d h = ground arith

unpack-unpack_big :
    (negative : Bool) (bs : Bytes) (m k : ℕ)
    → All IsByte bs
    → SameOrOverflow (unpack negative bs m k) (unpack_big negative bs m k)
unfolding unpack unpack_big
unpack-unpack_big negative [] m k h = inl refl
unpack-unpack_big negative (b ∷ bs) m k h =
    let d = pair_of negative b in
    elim (Bool-cases (ltb 99 d)) [
      | inl big ↦ inl (rw (pair_tests negative b h.0, big) refl)
      | inr small ↦
          let value = pair_values negative b h.0 small in
          let whole : m * 100 + (d / 10 * 10 + d % 10) ≡ m * 100 + d = omega arith in
          elim (Bool-cases (ltb ((2 ^ 64 - 1 - d) / 100) m)) [
            | inl over ↦ inr (rw (small, digit_tests d small, over) refl)
            | inr fits ↦
                rw (pair_tests negative b h.0, small, value, digit_tests d small, fits, whole)
                  (unpack-unpack_big negative bs (m * 100 + d) (k + 2) h.1)
          ]
    ]

pub drop_terminator-IsByte : (bs : Bytes) → All IsByte bs → All IsByte (drop_terminator bs)
unfolding drop_terminator
drop_terminator-IsByte [] h = tt
drop_terminator-IsByte (b ∷ []) h = elim (Bool-cases (b == 0x66)) [
  | inl e ↦ rw e tt
  | inr e ↦ rw e h
]
drop_terminator-IsByte (b ∷ (c ∷ bs)) h = (h.0, drop_terminator-IsByte (c ∷ bs) h.1)

-- The bytes of a payload, when there is one.
abbrev pub PayloadIsByte : Outcome Error Bytes → Type 0
PayloadIsByte (ok bs) = All IsByte bs
PayloadIsByte (err e) = Unit
PayloadIsByte panic = Unit
PayloadIsByte stuck = Unit

pub payload_of-IsByte :
    (negative : Bool) (lead : ℕ) (rest : Bytes)
    → All IsByte rest
    → PayloadIsByte (payload_of negative lead rest)
unfolding payload_of
payload_of-IsByte false lead rest h = h
payload_of-IsByte true lead [] h = elim (Bool-cases (lead == 0x66)) [
  | inl e ↦ rw e tt
  | inr e ↦ rw e tt
]
payload_of-IsByte true lead (b ∷ bs) h = drop_terminator-IsByte (b ∷ bs) h

-- On bytes that do not start with that of zero, FromNumber and _fromNumberBig give the same number or
-- the same error, or FromNumber's uint64 mantissa overflows and it says so.
pub from_number-from_number_big :
    (lead : ℕ) (rest : Bytes)
    → All IsByte rest
    → (lead == 0x80) ≡ false
    → SameOrOverflow (from_number (lead ∷ rest)) (from_number_big (lead ∷ rest))
unfolding from_number from_number_big
from_number-from_number_big lead rest bytes nonzero =
    let negative = bit_and lead 0x80 == 0 in
    rw nonzero (
      SameOrOverflow-bind (validate_number_wire_length (lead ∷ rest))
        (validate_number_wire_length (lead ∷ rest)) _ _ (inl refl)
        (λ u v.
          SameOrOverflow-bind (payload_of negative lead rest) (payload_of negative lead rest) _ _
            (inl refl)
            (λ payload e.
              SameOrOverflow-bind (unpack negative payload 0 0) (unpack_big negative payload 0 0) _
                _
                (unpack-unpack_big negative payload 0 0
                  (subst PayloadIsByte e (payload_of-IsByte negative lead rest bytes)))
                (λ r f. inl refl))))
