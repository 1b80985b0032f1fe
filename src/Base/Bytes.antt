-- ===== src/Base/Bytes.antt =====
-- Words as bytes: `encoding/binary`'s big- and little-endian views.
use go_oracledb.Base.Lists.{length, All, replicate, length-append}
use native.Mathlib.Nat.{pow-suc, pow-le-pow_right, suc-add}
use Prim.Native.Nat.{ℕ, zero, suc, ◌+◌, ◌*◌, ◌/◌, ◌%◌, ◌^◌, ◌<◌}
use mathlib.Core.Path.{◌≡◌, refl, ap}
use mathlib.Core.List.{List, [], ◌∷◌, ◌++◌}
use native.Mathlib.Omega.{arith}

abbrev pub IsByte : ℕ → Type 0
IsByte b = b < 256

abbrev pub Bytes : Type 0
Bytes = List ℕ

-- `binary.LittleEndian.PutUintN`: the lowest `n` bytes of `v`, lowest first.
unfoldable pub le_bytes : ℕ → ℕ → Bytes
le_bytes zero v = []
le_bytes (suc n) v = (v % 256) ∷ le_bytes n (v / 256)

-- `binary.BigEndian.PutUintN`.
unfoldable pub be_bytes : ℕ → ℕ → Bytes
be_bytes zero v = []
be_bytes (suc n) v = be_bytes n (v / 256) ++ ((v % 256) ∷ [])

-- `binary.LittleEndian.UintN`.
unfoldable pub le_value : Bytes → ℕ
le_value [] = 0
le_value (b ∷ bs) = b + 256 * le_value bs

unfoldable pub be_from : ℕ → Bytes → ℕ
be_from acc [] = acc
be_from acc (b ∷ bs) = be_from (acc * 256 + b) bs

-- `binary.BigEndian.UintN`.
unfoldable pub be_value : Bytes → ℕ
unfolding be_from
be_value bs = be_from 0 bs

pub length-le_bytes : (n v : ℕ) → length (le_bytes n v) ≡ n
unfolding le_bytes
length-le_bytes zero v = refl
length-le_bytes (suc n) v = ap suc (length-le_bytes n (v / 256))

pub length-be_bytes : (n v : ℕ) → length (be_bytes n v) ≡ n
unfolding be_bytes
length-be_bytes zero v = refl
length-be_bytes (suc n) v =
    omega (
      arith,
      length-append {0} (be_bytes n (v / 256)) ((v % 256) ∷ []),
      length-be_bytes n (v / 256),
    )

be_from-append :
    (acc : ℕ) (xs : Bytes) (b : ℕ) → be_from acc (xs ++ (b ∷ [])) ≡ be_from acc xs * 256 + b
unfolding be_from
be_from-append acc [] b = refl
be_from-append acc (x ∷ xs) b = be_from-append (acc * 256 + x) xs b

pub be_value-append : (xs : Bytes) (b : ℕ) → be_value (xs ++ (b ∷ [])) ≡ be_value xs * 256 + b
unfolding be_value
be_value-append xs b = be_from-append 0 xs b

pub le_value-le_bytes : (n v : ℕ) → v < 256 ^ n → le_value (le_bytes n v) ≡ v
unfolding le_value le_bytes
le_value-le_bytes zero v h = omega arith
le_value-le_bytes (suc n) v h = omega (arith, le_value-le_bytes n (v / 256) (omega arith))

pub be_value-be_bytes : (n v : ℕ) → v < 256 ^ n → be_value (be_bytes n v) ≡ v
unfolding be_bytes
be_value-be_bytes zero v h = unfold be_value in omega arith
be_value-be_bytes (suc n) v h = omega (
  arith,
  be_value-append (be_bytes n (v / 256)) (v % 256),
  be_value-be_bytes n (v / 256) (omega arith),
)

pub be_value-cons_zero : (bs : Bytes) → be_value (0 ∷ bs) ≡ be_value bs
unfolding be_value
be_value-cons_zero bs = refl

pub All-append-IsByte :
    (xs : Bytes) (b : ℕ) → All IsByte xs → IsByte b → All IsByte (xs ++ (b ∷ []))
All-append-IsByte [] b h hb = omega arith
All-append-IsByte (x ∷ xs) b h hb = (h.0, All-append-IsByte xs b h.1 hb)

pub be_bytes-IsByte : (n v : ℕ) → All IsByte (be_bytes n v)
unfolding be_bytes
be_bytes-IsByte zero v = tt
be_bytes-IsByte (suc n) v =
    All-append-IsByte (be_bytes n (v / 256)) (v % 256) (be_bytes-IsByte n (v / 256)) (omega arith)

be_from-lt :
    (acc k : ℕ) (bs : Bytes) → All IsByte bs → acc < k → be_from acc bs < k * 256 ^ length bs
unfolding be_from
be_from-lt acc k [] h a = omega arith
be_from-lt acc k (b ∷ bs) h a = omega (
  arith,
  be_from-lt (acc * 256 + b) (k * 256) bs h.1 (omega (arith, h.0)),
  ap (λ (t : ℕ). k * t) (pow-suc 256 (length bs)),
)

pub be_value-lt : (bs : Bytes) → All IsByte bs → be_value bs < 256 ^ length bs
unfolding be_value
be_value-lt bs h = omega (arith, be_from-lt 0 1 bs h)

-- Leading zero bytes do not count.
pub be_value-zeros : (k : ℕ) (bs : Bytes) → be_value (replicate k 0 ++ bs) ≡ be_value bs
unfolding be_value
be_value-zeros zero bs = refl
be_value-zeros (suc k) bs = be_value-zeros k bs

be_bytes_zero_head : (n v : ℕ) → v < 256 ^ n → be_bytes (suc n) v ≡ 0 ∷ be_bytes n v
unfolding be_bytes
be_bytes_zero_head zero v h = ap (λ (t : ℕ). t ∷ []) (omega arith)
be_bytes_zero_head (suc n) v h =
    ap (λ (t : Bytes). t ++ ((v % 256) ∷ [])) (be_bytes_zero_head n (v / 256) (omega arith))

-- A value of `n` bytes written in `k` bytes more starts with `k` zeros.
pub be_bytes_pad : (k n v : ℕ) → v < 256 ^ n → be_bytes (k + n) v ≡ replicate k 0 ++ be_bytes n v
be_bytes_pad zero n v h = ap (λ (t : ℕ). be_bytes t v) (omega arith)
be_bytes_pad (suc k) n v h =
    let fits : v < 256 ^ (k + n) =
      omega (arith, pow-le-pow_right {n = 256} (omega arith) {i = n} {j = k + n} (omega arith)) in
    rw (suc-add, be_bytes_zero_head, fits) (ap (λ (t : Bytes). 0 ∷ t) (be_bytes_pad k n v h))
