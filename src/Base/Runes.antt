-- ===== src/Base/Runes.antt =====
-- Go's strings as lists of runes.
use go_oracledb.Base.Tests.{◌==◌, leb}
use Prim.Native.Nat.{ℕ}
use mathlib.Core.Bool.{Bool, true, false, ◌||◌, ◌&&◌}
use mathlib.Core.List.{List, [], ◌∷◌}
use native.Mathlib.Decide.{ℕ_discrete}

abbrev pub Runes : Type 0
Runes = List ℕ

unfoldable pub runes_eq : Discrete Runes
runes_eq = hlevel ℕ_discrete

-- `unicode.IsSpace`.
unfoldable pub is_space : ℕ → Bool
is_space c =
    (leb 9 c && leb c 13)
    || (c == 32)
    || (c == 0x85)
    || (c == 0xa0)
    || (c == 0x1680)
    || (leb 0x2000 c && leb c 0x200a)
    || (c == 0x2028)
    || (c == 0x2029)
    || (c == 0x202f)
    || (c == 0x205f)
    || (c == 0x3000)

-- `strings.TrimLeftFunc` and `strings.TrimRightFunc` with `unicode.IsSpace`, and `strings.TrimSpace`.
unfoldable pub trim_left : Runes → Runes
trim_left [] = []
trim_left (c ∷ r) = let rest = trim_left r in elim (is_space c) [ true ↦ rest | false ↦ c ∷ r ]

abbrev pub cons_trimmed : ℕ → Runes → Runes
cons_trimmed c [] = elim (is_space c) [ true ↦ [] | false ↦ c ∷ [] ]
cons_trimmed c (d ∷ r) = c ∷ (d ∷ r)

unfoldable pub trim_right : Runes → Runes
trim_right [] = []
trim_right (c ∷ r) = cons_trimmed c (trim_right r)

unfoldable pub trim_space : Runes → Runes
unfolding is_space trim_left trim_right
trim_space r = trim_right (trim_left r)
