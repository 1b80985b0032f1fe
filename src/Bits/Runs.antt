-- ===== src/Bits/Runs.antt =====
-- Runs of the bit set (internal/driver/common/bitset.go).
use go_oracledb.Base.{◌≡◌, refl, true, [], ◌∷◌}
use go_oracledb.Base.Int.{pos}
use go_oracledb.Base.Outcome.{ok, panic}
use go_oracledb.Bits.{BitSet, new_bit_set, set_bytes, get, clear_all, cardinality, bit_string}

abbrev two_bytes : BitSet
two_bytes = record { bits = 0x01 ∷ 0x80 ∷ [] }

set_run : set_bytes (pos 1) (0x05 ∷ 0x07 ∷ []) (new_bit_set 12) ≡ record { bits = 0 ∷ 0x05 ∷ [] }
unfolding set_bytes new_bit_set
set_run = refl

get_run : get two_bytes (pos 15) ≡ ok true
unfolding get
get_run = refl

behind_run : get two_bytes (pos 16) ≡ panic
unfolding get
behind_run = refl

cardinality_run : cardinality two_bytes ≡ ok 2
unfolding cardinality
cardinality_run = refl

string_run : bit_string (0x05 ∷ []) ≡ 0x30 ∷ 0x30 ∷ 0x30 ∷ 0x30 ∷ 0x30 ∷ 0x31 ∷ 0x30 ∷ 0x31 ∷ []
unfolding bit_string
string_run = refl

cleared_run : cardinality (clear_all two_bytes) ≡ ok 0
unfolding cardinality clear_all
cleared_run = refl
