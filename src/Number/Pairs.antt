-- ===== src/Number/Pairs.antt =====
-- Packed pairs of digits and what `FromNumber` reads from them (internal/driver/ttc/converters/number.go).
use go_oracledb.Base.{
  ℕ, ◌+◌, ◌-◌, ◌*◌, ◌/◌, ◌%◌, ◌^◌, ◌≤◌, ◌<◌, ◌≡◌, refl, ap, ◌∙◌, Bool, true, false, [], ◌∷◌, ◌++◌,
  length, ◌==◌, if◌then◌else◌, arith, All,
}
use go_oracledb.Base.Bytes.{Bytes}
use go_oracledb.Base.Tables.{eq_of_table, mask_7f, mask_80, set_80}
use go_oracledb.Base.Outcome.{ok}
use go_oracledb.Number.Decimal.{IsDigit, digits_value}
use go_oracledb.Number.Wire.{pack, packed_byte, pair_of, digit_of, unpack, drop_terminator}
use Prim.Native.Nat.{bit_and, bit_or, bit_xor}

-- The number of pairs, behind `acc`, of digits two at a time; a last single digit counts tenfold.
unfoldable pub pairs_value : ℕ → Bytes → ℕ
pairs_value acc [] = acc
pairs_value acc (a ∷ []) = acc * 100 + 10 * (a - 48)
pairs_value acc (a ∷ (b ∷ rest)) = pairs_value (acc * 100 + (10 * (a - 48) + (b - 48))) rest

-- 10 for an odd number of digits.
unfoldable pub odd_factor : Bytes → ℕ
odd_factor [] = 1
odd_factor (a ∷ []) = 10
odd_factor (a ∷ (b ∷ rest)) = odd_factor rest

pub odd_factor_lem : (ds : Bytes) → odd_factor ds ≡ (if length ds % 2 == 0 then 1 else 10)
unfolding odd_factor
odd_factor_lem [] = refl
odd_factor_lem (a ∷ []) = refl
odd_factor_lem (a ∷ (b ∷ rest)) =
    odd_factor_lem rest ∙ ap (λ (t : ℕ). if t == 0 then 1 else 10) (omega arith)

pub pairs_value-digits_value :
    (acc : ℕ) (ds : Bytes) → pairs_value acc ds ≡ digits_value acc ds * odd_factor ds
unfolding pairs_value digits_value odd_factor
pairs_value-digits_value acc [] = omega arith
pairs_value-digits_value acc (a ∷ []) = omega arith
pairs_value-digits_value acc (a ∷ (b ∷ rest)) =
    ap (λ (t : ℕ). pairs_value t rest) (omega arith)
    ∙ pairs_value-digits_value ((acc * 10 + (a - 48)) * 10 + (b - 48)) rest

pairs_value_mono : (acc : ℕ) (ds : Bytes) → acc ≤ pairs_value acc ds
unfolding pairs_value
pairs_value_mono acc [] = omega arith
pairs_value_mono acc (a ∷ []) = omega arith
pairs_value_mono acc (a ∷ (b ∷ rest)) =
    omega (arith, pairs_value_mono (acc * 100 + (10 * (a - 48) + (b - 48))) rest)

pair_of-packed_byte :
    (negative : Bool) (p : ℕ) → p ≤ 99 → pair_of negative (packed_byte negative p) ≡ p
unfolding pair_of
pair_of-packed_byte true p h = omega arith
pair_of-packed_byte false p h = omega arith

packed_two :
    (a b : ℕ)
    → IsDigit a
    → IsDigit b
    → ((10 * digit_of a % 256 + digit_of b) % 256 ≡ 10 * (a - 48) + (b - 48))
      × (10 * digit_of a % 256 ≡ 10 * (a - 48))
packed_two a b ha hb = omega arith

-- One step of the reading loop on a packed pair.
unpack_step :
    (negative : Bool) (p m k : ℕ) (rest : Bytes)
    → p ≤ 99
    → m * 100 + p < 2 ^ 64
    → unpack negative (packed_byte negative p ∷ rest) m k
      ≡ unpack negative rest (m * 100 + p) (k + 2)
unfolding unpack
unpack_step negative p m k rest small fits =
    rw (pair_of-packed_byte negative p small) (ground arith)

pub unpack-pack :
    (negative : Bool) (ds : Bytes) (m k : ℕ)
    → All IsDigit ds
    → pairs_value m ds < 2 ^ 64
    → unpack negative (pack negative ds) m k ≡ ok (pairs_value m ds, k + 2 * ((length ds + 1) / 2))
unfolding pack pairs_value
unpack-pack negative [] m k h fits = unfold unpack in ap (λ (t : ℕ). ok (m, t)) (omega arith)
unpack-pack negative (a ∷ []) m k h fits =
    let two = packed_two a 48 h.0 (omega arith) in
    ap (λ (p : ℕ). unpack negative (packed_byte negative p ∷ []) m k) two.1
    ∙ unpack_step negative (10 * (a - 48)) m k [] (omega arith) fits
    ∙ unfold unpack in refl
unpack-pack negative (a ∷ (b ∷ rest)) m k h fits =
    let two = packed_two a b h.0 h.1.0 in
    let n = m * 100 + (10 * (a - 48) + (b - 48)) in
    ap (λ (p : ℕ). unpack negative (packed_byte negative p ∷ pack negative rest) m k) two.0
    ∙ unpack_step negative (10 * (a - 48) + (b - 48)) m k (pack negative rest) (omega arith)
        (omega (arith, pairs_value_mono n rest))
    ∙ unpack-pack negative rest n (k + 2) h.1.1 fits
    ∙ ap (λ (t : ℕ). ok (pairs_value n rest, t)) (omega arith)

pub drop_terminator-append : (xs : Bytes) → drop_terminator (xs ++ (0x66 ∷ [])) ≡ xs
unfolding drop_terminator
drop_terminator-append [] = refl
drop_terminator-append (x ∷ []) = refl
drop_terminator-append (x ∷ (y ∷ xs)) = ap (λ (t : Bytes). x ∷ t) (drop_terminator-append (y ∷ xs))

pub length-pack : (negative : Bool) (ds : Bytes) → length (pack negative ds) ≡ (length ds + 1) / 2
unfolding pack
length-pack negative [] = refl
length-pack negative (a ∷ []) = refl
length-pack negative (a ∷ (b ∷ rest)) = omega (arith, length-pack negative rest)

pub flip_7f : (b : ℕ) → b < 128 → bit_xor b 0x7f ≡ 127 - b
flip_7f = eq_of_table 128 (λ b. bit_xor b 0x7f) (λ b. 127 - b) refl

abbrev pub lead_byte : Bool → ℕ → ℕ
lead_byte negative x = if negative then bit_xor x 0x7f else bit_or x 0x80

-- The lead byte gives its sign and exponent back, and is not that of zero.
pub lead_byte_fields :
    (negative : Bool) (x : ℕ)
    → 65 ≤ x
    → x ≤ 126
    → ((lead_byte negative x == 0x80) ≡ false)
      × ((bit_and (lead_byte negative x) 0x80 == 0) ≡ negative)
      × ((if negative
            then bit_xor (lead_byte negative x) 0x7f
            else bit_and (lead_byte negative x) 0x7f)
          ≡ x)
lead_byte_fields true x lo hi =
    rw (flip_7f x (omega arith))
      (ground arith, ground (arith, mask_80 (127 - x)), omega (arith, flip_7f (127 - x)))
lead_byte_fields false x lo hi =
    rw (set_80 x (omega arith))
      (ground arith, ground (arith, mask_80 (x + 128)), omega (arith, mask_7f (x + 128)))
