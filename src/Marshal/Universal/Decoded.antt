-- ===== src/Marshal/Universal/Decoded.antt =====
-- The number that `_decodeUniversal` of internal/driver/ttc/marshal_engine.go gives.
use go_oracledb.Base.{
  ℕ, ◌-◌, ◌^◌, ◌≤◌, ◌<◌, ◌≡◌, refl, sym, ap, ◌∙◌, Bool, true, false, [], ◌∷◌, ◌++◌, length, leb,
  ltb, ◌==◌, ◌&&◌, replicate, take, drop, if◌then◌else◌, arith, Bool-cases, inl, inr, length-drop,
  length-take, length-append, length-replicate, zero, suc, leb→le, All, ltb_false→le, ==_iff,
}
use go_oracledb.Base.Int.{ℤ, pos, neg_ℕ}
use go_oracledb.Base.Bytes.{Bytes, IsByte, be_value, be_value-zeros, be_value-lt}
use Prim.Native.Nat.{bit_and}
use mathlib.Core.Path.{subst}
use go_oracledb.Base.Outcome.{Outcome, ok, err, panic, stuck}
use go_oracledb.Marshal.Engine.{
  NumType, ub1, ub2, ub4, ub8, sb1, sb2, sb4, Error, Stream, pure, read_bytes, read_byte, nb_bytes,
  is_unsigned,
}
use go_oracledb.Marshal.Engine.{min_value, max_value}
use go_oracledb.Marshal.Universal.{
  of_word, to_negative, finish_universal, decode_sized, decode_universal,
  validate_universal_byte_count,
}
use go_oracledb.Marshal.Universal.Bounds.{Reads, InRange, zero-InRange}

-- The number that starts a stream: its length and sign, and the bytes of its magnitude.
unfoldable pub universal_value : Bytes → ℤ
universal_value [] = pos 0
universal_value (first ∷ rest) =
    let magnitude = be_value (take (bit_and first 0x7f) rest) in
    if bit_and first 0x80 == 0x80 then neg_ℕ magnitude else pos magnitude

abbrev pub IsDecoded : NumType → Bool → ℕ → Outcome Error ℤ → Type 0
IsDecoded t negative v (ok z) = InRange t z × (z ≡ (if negative then neg_ℕ v else pos v))
IsDecoded t negative v (err e) = Unit
IsDecoded t negative v panic = ⊥
IsDecoded t negative v stuck = ⊥

finish_universal-IsDecoded :
    (t : NumType) (negative : Bool) (v : ℕ)
    → v < 256 ^ nb_bytes t
    → IsDecoded t negative v (finish_universal t negative v)
unfolding finish_universal of_word to_negative min_value max_value nb_bytes
finish_universal-IsDecoded ub1 true v h = ground arith
finish_universal-IsDecoded ub2 true v h = ground arith
finish_universal-IsDecoded ub4 true v h = ground arith
finish_universal-IsDecoded ub8 true v h = ground arith
finish_universal-IsDecoded sb1 true v h = ground arith
finish_universal-IsDecoded sb2 true v h = ground arith
finish_universal-IsDecoded sb4 true v h = ground arith
finish_universal-IsDecoded ub1 false v h = ground arith
finish_universal-IsDecoded ub2 false v h = ground arith
finish_universal-IsDecoded ub4 false v h = ground arith
finish_universal-IsDecoded ub8 false v h = ground arith
finish_universal-IsDecoded sb1 false v h = ground arith
finish_universal-IsDecoded sb2 false v h = ground arith
finish_universal-IsDecoded sb4 false v h = ground arith

All-take : (n : ℕ) (bs : Bytes) → All IsByte bs → All IsByte (take n bs)
All-take zero bs h = tt
All-take (suc n) [] h = tt
All-take (suc n) (b ∷ bs) h = (h.0, All-take n bs h.1)

padded-IsByte : (k : ℕ) (bs : Bytes) → All IsByte bs → All IsByte (replicate k 0 ++ bs)
padded-IsByte zero bs h = h
padded-IsByte (suc k) bs h = (omega arith, padded-IsByte k bs h)

-- The magnitude fits the width of the type.
magnitude_lt :
    (width n : ℕ) (bs : Bytes)
    → All IsByte bs
    → n ≤ width
    → n ≤ length bs
    → be_value (take n bs) < 256 ^ width
magnitude_lt width n bs h fits there =
    let size : length (replicate (width - n) 0 ++ take n bs) ≡ width = omega (
      arith,
      length-append {0} (replicate (width - n) 0) (take n bs),
      length-replicate {A = ℕ} (width - n) 0,
      length-take {0} n bs there,
    ) in
    rw (sym (be_value-zeros (width - n) (take n bs)))
      (rw size at (be_value-lt _ (padded-IsByte (width - n) (take n bs) (All-take n bs h))))

-- What is left of the call once the bytes of the magnitude are read.
sized :
    (t : NumType) (first : ℕ) (rest : Bytes) (s' : Stream)
    → s'.unread ≡ rest
    → All IsByte rest
    → Reads 0 (λ z. InRange t z × (z ≡ universal_value (first ∷ rest))) s' (decode_sized t first s')
unfolding decode_sized validate_universal_byte_count
sized t first rest s' e' bytes =
    let n = bit_and first 0x7f in
    let negative = bit_and first 0x80 == 0x80 in
    let value : universal_value (first ∷ rest) ≡ (
        if negative
        then neg_ℕ (be_value (take n s'.unread))
        else pos (be_value (take n s'.unread))) =
      unfold universal_value in rw e' in
    elim (Bool-cases (n == 0)) [
      | inl a ↦ rw a tt
      | inr a ↦ elim (Bool-cases (ltb (nb_bytes t) n)) [
        | inl b ↦ rw (a, b) tt
        | inr b ↦ elim (Bool-cases (negative && is_unsigned t)) [
          | inl c ↦ rw (a, b, c) tt
          | inr c ↦ elim (Bool-cases (leb n (length s'.unread))) [
            | inl d ↦
                let fits = ltb_false→le _ _ b in
                let there = leb→le _ _ d in
                let small = magnitude_lt (nb_bytes t) n s'.unread (rw e' bytes) fits there in
                rw (a, b, c, read n d, be_value-zeros)
                  (decoded negative _ value
                    (finish_universal t negative (be_value (take n s'.unread)))
                    (finish_universal-IsDecoded t negative (be_value (take n s'.unread)) small)
                    (drop n s'.unread) (omega (arith, length-drop {0} n s'.unread)))
            | inr d ↦ rw (a, b, c) (unfold read_bytes in rw d tt)
          ]
        ]
      ]
    ]
  where
    read :
        (n : ℕ)
        → leb n (length s'.unread) ≡ true
        → read_bytes n s' ≡ (ok (take n s'.unread), record s' { unread = drop n s'.unread })
    read n d = unfold read_bytes in rw d

    decoded :
        (negative : Bool) (v : ℕ)
        → universal_value (first ∷ rest) ≡ (if negative then neg_ℕ v else pos v)
        → (o : Outcome Error ℤ) → IsDecoded t negative v o
        → (left : Bytes) → length left ≤ length s'.unread
        → Reads 0
            (λ z. InRange t z × (z ≡ universal_value (first ∷ rest)))
            s'
            (o, record s' { unread = left })
    decoded negative v same (ok z) h left fewer = ((h.0, h.1 ∙ sym same), omega arith)
    decoded negative v same (err x) h left fewer = tt
    decoded negative v same panic h left fewer = h
    decoded negative v same stuck h left fewer = h

branch :
    (t : NumType) (first : ℕ) (rest : Bytes) (zeroed : Bool) (s' : Stream)
    → (first == 0) ≡ zeroed
    → s'.unread ≡ rest
    → All IsByte rest
    → Reads 0
        (λ z. InRange t z × (z ≡ universal_value (first ∷ rest)))
        s'
        ((if zeroed then pure (pos 0) else decode_sized t first) s')
branch t first rest true s' z e' bytes =
    ((zero-InRange t, value first ((==_iff first 0).0 z)), omega arith)
  where
    value : (k : ℕ) → k ≡ 0 → pos 0 ≡ universal_value (k ∷ rest)
    value k h = rw h (unfold universal_value be_value in refl)
branch t first rest false s' z e' bytes = sized t first rest s' e' bytes

after_first :
    (P : ℤ → Type 0) (first : ℕ) (s s' : Stream)
    → s.unread ≡ first ∷ s'.unread
    → (r : Outcome Error ℤ × Stream) → Reads 0 P s' r
    → Reads 1 P s r
after_first P first s s' e (ok z, r) h = (h.0, omega (arith, ap length e))
after_first P first s s' e (err x, r) h = tt
after_first P first s s' e (panic, r) h = h
after_first P first s s' e (stuck, r) h = h

-- The universal decoder returns on any bytes, without a panic. A number that it gives is the one that the length, the
-- sign and the magnitude at the start of the stream stand for, without a wrap, lies within the bounds of its type,
-- and took a byte at least.
pub decode_universal-universal_value :
    (t : NumType) (s : Stream)
    → All IsByte s.unread
    → Reads 1 (λ z. InRange t z × (z ≡ universal_value s.unread)) s (decode_universal t s)
unfolding decode_universal read_byte
decode_universal-universal_value t s bytes = go s.unread refl
  where
    go :
        (bs : Bytes)
        → s.unread ≡ bs
        → Reads 1 (λ z. InRange t z × (z ≡ universal_value s.unread)) s (decode_universal t s)
    go [] e = rw e tt
    go (first ∷ rest) e =
        let s' : Stream = record s { unread = rest } in
        let own : All IsByte (first ∷ rest) = subst (All IsByte) e bytes in
        rw e (
          after_first (λ z. InRange t z × (z ≡ universal_value (first ∷ rest))) first
            (record s { unread = first ∷ rest }) s' refl _
            (branch t first rest (first == 0) s' refl refl own.1))
