-- ===== src/Interval/Fields.antt =====
-- The wire fields of internal/driver/ttc/converters/interval.go: 32-bit numbers with a flipped top bit, and bytes
-- with a bias of 60.
use go_oracledb.Base.{
  ℕ, zero, suc, ◌+◌, ◌-◌, ◌%◌, ◌^◌, ◌≤◌, ◌<◌, ◌≡◌, refl, ap, ◌∙◌, Bool, true, false, ltb, arith,
  leb, le→leb, lt→ltb, le→ltb_false,
}
use go_oracledb.Base.Bytes.{be_bytes, be_value, be_value-be_bytes}
use go_oracledb.Base.Int.{ℤ, pos, negsuc, pos_part, neg_part, sub_ℕ, signed, pattern_of}
use go_oracledb.Interval.Tokens.{flip_top}
use go_oracledb.Interval.YearToMonth.{with_sign}

-- An int32.
abbrev pub IsInt32 : ℤ → Type 0
IsInt32 (pos n) = n < 2 ^ 31
IsInt32 (negsuc n) = n < 2 ^ 31

pub sub_ℕ-pos : (a b : ℕ) → b ≤ a → sub_ℕ a b ≡ pos (a - b)
sub_ℕ-pos a b h = rw (le→leb b a h)

lt→leb_false : (a b : ℕ) → a < b → leb b a ≡ false
lt→leb_false a b h = ground arith

pub sub_ℕ-negsuc : (a b : ℕ) → a < b → sub_ℕ a b ≡ negsuc (b - a - 1)
sub_ℕ-negsuc a b h = rw (lt→leb_false a b h)

pub signed-pattern_of : (z : ℤ) → IsInt32 z → signed 32 (pattern_of 32 z) ≡ z
signed-pattern_of (pos n) h =
    let same : n % 2 ^ 32 ≡ n = omega (arith, h) in rw (same, lt→ltb n (2 ^ 31) h)
signed-pattern_of (negsuc n) h =
    let same : 2 ^ 32 - 1 - n % 2 ^ 32 ≡ 2 ^ 32 - 1 - n = omega (arith, h) in
    let high : ltb (2 ^ 32 - 1 - n) (2 ^ 31) ≡ false = le→ltb_false _ _ (omega (arith, h)) in
    rw (same, high) (ap negsuc (omega (arith, h)))

pub int32_field :
    (z : ℤ)
    → IsInt32 z
    → signed 32 (flip_top (be_value (be_bytes 4 (flip_top (pattern_of 32 z))))) ≡ z
int32_field z h =
    let p = pattern_of 32 z in
    let bound : p < 2 ^ 32 = pattern_bound z in
    let back : flip_top (be_value (be_bytes 4 (flip_top p))) ≡ p =
      ap flip_top (be_value-be_bytes 4 (flip_top p) (omega arith)) ∙ omega (arith, bound) in
    ap (signed 32) back ∙ signed-pattern_of z h
  where
    pattern_bound : (z : ℤ) → pattern_of 32 z < 2 ^ 32
    pattern_bound (pos n) = omega arith
    pattern_bound (negsuc n) = omega arith

-- A byte that holds a component from -60 to 195 with its bias.
pub biased_field :
    (z : ℤ)
    → pos_part z ≤ 195
    → neg_part z ≤ 60
    → sub_ℕ (pattern_of 8 (sub_ℕ (60 + pos_part z) (neg_part z))) 60 ≡ z
biased_field (pos n) h k =
    let byte : (60 + n - 0) % 2 ^ 8 ≡ 60 + n = omega (arith, h) in
    ap (λ t. sub_ℕ (pattern_of 8 t) 60) (sub_ℕ-pos (60 + n) 0 (omega arith))
    ∙ (ap (λ t. sub_ℕ t 60) byte ∙ (sub_ℕ-pos (60 + n) 60 (omega arith) ∙ ap pos (omega arith)))
biased_field (negsuc n) h k =
    let byte : (60 + 0 - suc n) % 2 ^ 8 ≡ 60 - suc n = omega (arith, k) in
    ap (λ t. sub_ℕ (pattern_of 8 t) 60) (sub_ℕ-pos (60 + 0) (suc n) (omega (arith, k)))
    ∙ (ap (λ t. sub_ℕ t 60) byte
        ∙ (sub_ℕ-negsuc (60 - suc n) 60 (omega (arith, k)) ∙ ap negsuc (omega (arith, k))))

-- The parts of a number with its sign.
pub pos_part-with_sign : (n : ℕ) → pos_part (with_sign true n) ≡ 0
pos_part-with_sign zero = refl
pos_part-with_sign (suc n) = refl

pub neg_part-with_sign : (n : ℕ) → neg_part (with_sign true n) ≡ n
neg_part-with_sign zero = refl
neg_part-with_sign (suc n) = refl

pub with_sign-parts :
    (negative : Bool) (n : ℕ)
    → (pos_part (with_sign negative n) ≤ n) × (neg_part (with_sign negative n) ≤ n)
with_sign-parts false n = omega arith
with_sign-parts true n = omega (arith, pos_part-with_sign n, neg_part-with_sign n)

pub with_sign-IsInt32 : (negative : Bool) (n : ℕ) → n < 2 ^ 31 → IsInt32 (with_sign negative n)
with_sign-IsInt32 true zero h = omega arith
with_sign-IsInt32 true (suc n) h = omega (arith, h)
with_sign-IsInt32 false n h = h

pub sub_ℕ-with_sign : (n : ℕ) → sub_ℕ 0 n ≡ with_sign true n
sub_ℕ-with_sign zero = refl
sub_ℕ-with_sign (suc n) = sub_ℕ-negsuc 0 (suc n) (omega arith) ∙ ap negsuc (omega arith)

-- A component of a sign and a number, read back from its byte.
pub biased-with_sign :
    (negative : Bool) (n : ℕ)
    → n ≤ 60
    → sub_ℕ
        (pattern_of 8
          (sub_ℕ (60 + pos_part (with_sign negative n)) (neg_part (with_sign negative n))))
        60
      ≡ with_sign negative n
biased-with_sign negative n h =
    let parts = with_sign-parts negative n in
    biased_field (with_sign negative n) (omega (arith, parts.0, h)) (omega (arith, parts.1, h))

-- The byte of a component of a sign and a number.
pub biased-bounds :
    (negative : Bool) (n : ℕ)
    → n ≤ 60
    → (60 - n
        ≤ pattern_of 8
            (sub_ℕ (60 + pos_part (with_sign negative n)) (neg_part (with_sign negative n))))
      × (pattern_of 8
            (sub_ℕ (60 + pos_part (with_sign negative n)) (neg_part (with_sign negative n)))
          ≤ 60 + n)
biased-bounds negative n h =
    let parts = with_sign-parts negative n in
    rw
      (sub_ℕ-pos (60 + pos_part (with_sign negative n)) (neg_part (with_sign negative n))
        (omega (arith, parts.1, h)))
      (omega (arith, parts.0, parts.1, h), omega (arith, parts.0, parts.1, h))
