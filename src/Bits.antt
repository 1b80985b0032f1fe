-- ===== src/Bits.antt =====
-- internal/driver/common/bitset.go: flags packed into bytes.
use go_oracledb.Base.{
  ℕ, zero, suc, ◌+◌, ◌*◌, ◌/◌, ◌%◌, ◌^◌, Bool, true, false, Option, none, some, List, [], ◌∷◌, ◌++◌,
  map, replicate, length, get_elem?, ltb, ◌==◌, if◌then◌else◌,
}
use go_oracledb.Base.Bytes.{Bytes}
use go_oracledb.Base.Int.{ℤ, pos, negsuc}
use go_oracledb.Base.Outcome.{Outcome, ok, panic, ◌>>=◌}
mod Runs

pub record BitSet : Type 0 where
  pub bits : Bytes

-- `NewBitSet`.
unfoldable pub new_bit_set : ℕ → BitSet
new_bit_set size = record { bits = replicate ((size + 7) / 8) 0 }

-- `copy(bits[start:], data)`.
unfoldable pub copy_at : ℕ → Bytes → Bytes → Bytes
copy_at start source [] = []
copy_at zero [] (b ∷ bs) = b ∷ bs
copy_at zero (d ∷ ds) (b ∷ bs) = d ∷ copy_at zero ds bs
copy_at (suc start) source (b ∷ bs) = b ∷ copy_at start source bs

-- `SetBytes`.
unfoldable pub set_bytes : ℤ → Bytes → BitSet → BitSet
unfolding copy_at
set_bytes (negsuc n) source bs = bs
set_bytes (pos start) source bs =
    if ltb start (length bs.bits) then record { bits = copy_at start source bs.bits } else bs

-- A byte's bit, `b & (1 << k) != 0`.
abbrev pub bit : ℕ → ℕ → Bool
bit b k = (b / 2 ^ k) % 2 == 1

unfoldable pub bit_of : Option ℕ → ℕ → Outcome (Unit {0}) Bool
bit_of none k = panic
bit_of (some b) k = ok (bit b k)

-- `Get`. A negative index panics in the shift or in the slice.
unfoldable pub get : BitSet → ℤ → Outcome (Unit {0}) Bool
unfolding bit_of
get bs (negsuc n) = panic
get bs (pos index) = bit_of (get_elem? bs.bits (index / 8)) (index % 8)

-- `ClearAll`.
unfoldable pub clear_all : BitSet → BitSet
clear_all bs = record { bits = map (λ b. 0) bs.bits }

-- `Length`.
abbrev pub bit_length : BitSet → ℕ
bit_length bs = length bs.bits * 8

-- `Cardinality`, with the indices that are left.
unfoldable pub count_from : BitSet → ℕ → ℕ → Outcome (Unit {0}) ℕ
unfolding get
count_from bs index zero = ok 0
count_from bs index (suc left) = do
  set ← get bs (pos index)
  rest ← count_from bs (index + 1) left
  ok (if set then rest + 1 else rest)

unfoldable pub cardinality : BitSet → Outcome (Unit {0}) ℕ
unfolding count_from
cardinality bs = count_from bs 0 (bit_length bs)

-- The digits of a byte in `String`, the bits under `left`, the highest first.
unfoldable pub byte_digits : ℕ → ℕ → List ℕ
byte_digits b zero = []
byte_digits b (suc left) = (if bit b left then 0x31 else 0x30) ∷ byte_digits b left

-- `String`.
unfoldable pub bit_string : Bytes → List ℕ
unfolding byte_digits
bit_string [] = []
bit_string (b ∷ bs) = byte_digits b 8 ++ bit_string bs
