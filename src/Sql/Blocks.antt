-- ===== src/Sql/Blocks.antt =====
-- `extractInputBindValuesForPlSql` of internal/driver/ttc/sql_namedvalue_parser.go, where a name has one
-- place however often it occurs, and what it gives.
use go_oracledb.Base.{
  ℕ, suc, ◌+◌, Bool, true, false, Option, none, some, List, [], ◌∷◌, length, get_elem?, replicate,
  ltb, ◌==◌, if◌then◌else◌,
}
use go_oracledb.Base.Int.{ℤ, pos}
use go_oracledb.Base.Dict.{find}
use go_oracledb.Base.Outcome.{Outcome, ok, err, panic, ◌>>=◌}
use go_oracledb.Base.Runes.{Runes, runes_eq}
use go_oracledb.Sql.Scan.{Error, name_not_found, duplicate_arg, invalid_ordinal, BindDetails}
use go_oracledb.Sql.Bind.{NamedValue, Slots, fill, collect, empty_slots}

-- A valid ordinal, counted from 0.
unfoldable pub ordinal_index : ℕ → ℤ → Option ℕ
ordinal_index count (pos (suc i)) = if ltb i count then some i else none
ordinal_index count _ = none

module _ {V : Type 0} where
  -- The value for a place, by its flag.
  unfoldable pub place_by_flag :
      Option Runes → ℕ → V → Slots V → Option Bool → Outcome Error (Slots V)
  place_by_flag name i v s none = panic
  place_by_flag none i v s (some true) = panic
  place_by_flag (some n) i v s (some true) = err (duplicate_arg n (i + 1))
  place_by_flag name i v s (some false) = ok (fill i v s)

  -- `bindNames` is read for the error of an ordinal only.
  unfoldable pub place_block_value : Option Runes → ℕ → V → Slots V → Outcome Error (Slots V)
  unfolding place_by_flag
  place_block_value name i v s = place_by_flag name i v s (get_elem? s.filled i)

  -- One round of the loop over the inputs.
  unfoldable pub place_in_block : BindDetails → NamedValue V → Slots V → Outcome Error (Slots V)
  unfolding find runes_eq ordinal_index place_block_value
  place_in_block d nv s =
      if length nv.name == 0
      then elim (ordinal_index (length d.unique_names) nv.ordinal) [
        | none ↦ err (invalid_ordinal nv.ordinal)
        | some i ↦ place_block_value (get_elem? d.bind_names i) i nv.value s
      ]
      else elim (find runes_eq nv.name d.unique_names) [
        | none ↦ err (name_not_found nv.name)
        | some i ↦ place_block_value (some nv.name) i nv.value s
      ]

  unfoldable pub place_all_in_block :
      BindDetails → List (NamedValue V) → Slots V → Outcome Error (Slots V)
  unfolding place_in_block
  place_all_in_block d [] s = ok s
  place_all_in_block d (nv ∷ rest) s = place_in_block d nv s >>= place_all_in_block d rest

  -- `extractInputBindValuesForPlSql`; `nil` is the nil value that a new array holds.
  unfoldable pub extract_input_bind_values_for_pl_sql :
      V → BindDetails → List (NamedValue V) → Outcome Error (List V)
  unfolding place_all_in_block collect
  extract_input_bind_values_for_pl_sql nil d inputs = do
    s ← place_all_in_block d inputs (empty_slots nil (length d.unique_names))
    collect s.filled s.values (replicate s.total nil) 0
