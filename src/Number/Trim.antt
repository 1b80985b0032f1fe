-- ===== src/Number/Trim.antt =====
-- Trailing zeros of a digit string (internal/driver/ttc/converters/number.go).
use go_oracledb.Base.{
  ℕ, zero, suc, ◌+◌, ◌-◌, ◌*◌, ◌^◌, ◌≤◌, ◌≡◌, refl, ap, ◌∙◌, ◌&&◌, [], ◌∷◌, ◌++◌, length, take,
  replicate, ◌==◌, arith, All, Bool-cases, inl, inr, length-append, length-replicate,
}
use go_oracledb.Base.Bytes.{Bytes}
use go_oracledb.Number.Decimal.{IsDigit, digits_value, digits_value-append}
use go_oracledb.Number.Wire.{trailing_zeros, trim_zeros}
use native.Mathlib.Nat.{pow-suc}

pub trailing_zeros-le : (ds : Bytes) → trailing_zeros ds ≤ length ds
unfolding trailing_zeros
trailing_zeros-le [] = omega arith
trailing_zeros-le (d ∷ ds) = ground (arith, trailing_zeros-le ds)

take_all : (ds : Bytes) (n : ℕ) → n ≡ 0 → take n ds ≡ []
take_all ds n e = ap (λ (t : ℕ). take t ds) e

take_more : (d : ℕ) (ds : Bytes) (n m : ℕ) → n ≡ suc m → take n (d ∷ ds) ≡ d ∷ take m ds
take_more d ds n m e = ap (λ (t : ℕ). take t (d ∷ ds)) e

all_zeros :
    (ds : Bytes) (n : ℕ)
    → n ≡ length ds
    → ds ≡ take (length ds - n) ds ++ replicate n 48
    → ds ≡ replicate n 48
all_zeros ds n e h =
    h ∙ ap (λ (t : Bytes). t ++ replicate n 48) (take_all ds (length ds - n) (omega arith))

-- A digit string is what is left of it, and its zeros.
pub trim_zeros_split : (ds : Bytes) → ds ≡ trim_zeros ds ++ replicate (trailing_zeros ds) 48
unfolding trim_zeros trailing_zeros
trim_zeros_split [] = refl
trim_zeros_split (d ∷ ds) = elim (Bool-cases (trailing_zeros ds == length ds && d == 48)) [
  | inl e ↦
      let all : trailing_zeros ds ≡ length ds = ground arith in
      let zero_digit : d ≡ 48 = ground arith in
      rw
        (e, take_all (d ∷ ds) (suc (length ds) - suc (trailing_zeros ds)) (omega arith), zero_digit)
        (ap (λ (t : Bytes). 48 ∷ t) (all_zeros ds (trailing_zeros ds) all (trim_zeros_split ds)))
  | inr e ↦
      rw
        (
          e,
          take_more d ds (suc (length ds) - trailing_zeros ds) (length ds - trailing_zeros ds)
              (omega (arith, trailing_zeros-le ds)),
        )
        (ap (λ (t : Bytes). d ∷ t) (trim_zeros_split ds))
]

digits_value-zeros : (acc n : ℕ) → digits_value acc (replicate n 48) ≡ acc * 10 ^ n
unfolding digits_value
digits_value-zeros acc zero = omega arith
digits_value-zeros acc (suc n) =
    digits_value-zeros (acc * 10 + (48 - 48)) n
    ∙ omega (arith, ap (λ (t : ℕ). acc * t) (pow-suc 10 n))

-- What is left stands for the number without its factor 10 ^ trailing_zeros.
pub digits_value-trim_zeros :
    (ds : Bytes) → digits_value 0 ds ≡ digits_value 0 (trim_zeros ds) * 10 ^ trailing_zeros ds
digits_value-trim_zeros ds =
    ap (digits_value 0) (trim_zeros_split ds)
    ∙ digits_value-append 0 (trim_zeros ds) (replicate (trailing_zeros ds) 48)
    ∙ digits_value-zeros (digits_value 0 (trim_zeros ds)) (trailing_zeros ds)

pub length-trim_zeros : (ds : Bytes) → length (trim_zeros ds) + trailing_zeros ds ≡ length ds
length-trim_zeros ds = omega (
  arith,
  ap length (trim_zeros_split ds),
  length-append {0} (trim_zeros ds) (replicate (trailing_zeros ds) 48),
  length-replicate {0} {A = ℕ} (trailing_zeros ds) 48,
)

All-take : (n : ℕ) (ds : Bytes) → All IsDigit ds → All IsDigit (take n ds)
All-take zero ds h = tt
All-take (suc n) [] h = tt
All-take (suc n) (d ∷ ds) h = (h.0, All-take n ds h.1)

pub trim_zeros-IsDigit : (ds : Bytes) → All IsDigit ds → All IsDigit (trim_zeros ds)
unfolding trim_zeros
trim_zeros-IsDigit ds h = All-take (length ds - trailing_zeros ds) ds h
