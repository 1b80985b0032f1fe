-- ===== src/Marshal/UniversalCode.antt =====
-- The universal number format of internal/driver/ttc/marshal_engine.go: a length byte with a sign
-- flag, then the magnitude in big-endian order without leading zeros.
use go_oracledb.Base.{
  ℕ, zero, suc, ◌+◌, ◌-◌, ◌^◌, ◌≤◌, ◌<◌, ◌≡◌, refl, ap, ◌∙◌, ◌≢◌, Bool, true, false, [], ◌∷◌, ◌++◌,
  length, drop, replicate, length-drop, ◌==◌, if◌then◌else◌, arith, Bool-cases, inl, inr, ==_iff,
}
use go_oracledb.Base.Int.{ℤ, pos, negsuc}
use go_oracledb.Base.Bytes.{
  Bytes, be_bytes, be_value, be_bytes_pad, be_value-cons_zero, be_value-be_bytes, length-be_bytes,
}
use go_oracledb.Base.Outcome.{Outcome, ok, panic, ◌>>=◌}
use go_oracledb.Marshal.Engine.{Error}
use Prim.Native.Nat.{bit_or}

-- The loop that counts leading zero bytes; it would index past the end of an all-zero array.
pub count_zeros : Bytes → Outcome Error ℕ
count_zeros [] = panic
count_zeros (b ∷ bs) =
    let rest = (count_zeros bs >>= λ n. ok (suc n)) in if b == 0 then rest else ok 0

-- `returnValue[0]`: the size, with `_negativeValueIndicator` for a negative value.
abbrev pub size_byte : ℕ → Bool → ℕ
size_byte size negative = if negative then bit_or size 0x80 else size

-- `_encodeAbsoluteUniversalValue`.
unfoldable pub encode_absolute_universal_value : ℕ → Bool → Outcome Error Bytes
unfolding count_zeros
encode_absolute_universal_value v negative = do
  zeros ← count_zeros (be_bytes 8 v)
  ok (size_byte (8 - zeros) negative ∷ drop zeros (be_bytes 8 v))

-- `_getAbsoluteValue` of an int64: the magnitude and the sign.
unfoldable pub get_absolute_value : ℤ → ℕ × Bool
get_absolute_value (pos n) = (n, false)
get_absolute_value (negsuc n) = (suc n, true)

-- What the counting loop finds behind `k` zero bytes.
count_zeros_nonzero :
    (bs : Bytes)
    → be_value bs ≢ 0
    → (n : ℕ) × (count_zeros bs ≡ ok n) × (n < length bs) × (be_value (drop n bs) ≡ be_value bs)
unfolding count_zeros
count_zeros_nonzero [] h = absurd (h (unfold be_value in refl))
count_zeros_nonzero (b ∷ bs) h = elim (Bool-cases (b == 0)) [
  | inl e ↦
      let b0 : b ≡ 0 = (==_iff b 0).0 e in
      let (n, found, small, same) =
        count_zeros_nonzero bs
          (λ z. h (ap (λ (t : ℕ). be_value (t ∷ bs)) b0 ∙ be_value-cons_zero bs ∙ z)) in
      (suc n, rw (e, found), omega arith, same ∙ rw (b0, be_value-cons_zero))
  | inr e ↦ (0, rw e, omega arith, refl)
]

count_zeros_padded :
    (k : ℕ) (bs : Bytes)
    → be_value bs ≢ 0
    → (n : ℕ) × (count_zeros (replicate k 0 ++ bs) ≡ ok n)
      × (k ≤ n)
      × (n < k + length bs)
      × (be_value (drop n (replicate k 0 ++ bs)) ≡ be_value bs)
unfolding count_zeros
count_zeros_padded zero bs h =
    let (n, found, small, same) = count_zeros_nonzero bs h in
    (n, found, omega arith, omega arith, same)
count_zeros_padded (suc k) bs h =
    let (n, found, large, small, same) = count_zeros_padded k bs h in
    (suc n, rw found, omega arith, omega arith, same)

-- A value of at most `nb` bytes is written with its shortest magnitude.
pub encode_shape :
    (nb v : ℕ) (negative : Bool)
    → 0 < v
    → v < 256 ^ nb
    → nb ≤ 8
    → (digits : Bytes) × (encode_absolute_universal_value v negative
        ≡ ok (size_byte (length digits) negative ∷ digits))
      × (1 ≤ length digits)
      × (length digits ≤ nb)
      × (be_value digits ≡ v)
unfolding encode_absolute_universal_value
encode_shape nb v negative positive fits wide =
    let padded : be_bytes 8 v ≡ replicate (8 - nb) 0 ++ be_bytes nb v =
      ap (λ (k : ℕ). be_bytes k v) (omega arith) ∙ be_bytes_pad (8 - nb) nb v fits in
    let value : be_value (be_bytes nb v) ≡ v = be_value-be_bytes nb v fits in
    let (n, found, large, small, same) =
      count_zeros_padded (8 - nb) (be_bytes nb v) (λ z. omega arith) in
    let size : length (drop n (be_bytes 8 v)) ≡ 8 - n =
      omega (arith, length-drop {0} n (be_bytes 8 v), length-be_bytes 8 v) in
    (
      drop n (be_bytes 8 v),
      rw (size, padded, found),
      omega (arith, length-be_bytes nb v),
      omega (arith, length-be_bytes nb v),
      rw padded (same ∙ value),
    )
