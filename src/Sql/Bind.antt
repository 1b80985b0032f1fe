-- ===== src/Sql/Bind.antt =====
-- `extractInputBindValues` of internal/driver/ttc/sql_namedvalue_parser.go: the values of a call in the order of the placeholders.
use go_oracledb.Base.{
  ℕ, suc, ◌+◌, Bool, true, false, Option, none, some, List, [], ◌∷◌, length, get_elem?, set,
  replicate, ltb, ◌==◌, if◌then◌else◌,
}
use go_oracledb.Base.Int.{ℤ, pos}
use go_oracledb.Base.Dict.{find}
use go_oracledb.Base.Outcome.{Outcome, ok, err, panic, ◌>>=◌}
use go_oracledb.Base.Runes.{Runes, runes_eq}
use go_oracledb.Sql.Scan.{Error, name_not_found, duplicate_arg, invalid_ordinal, BindDetails}

-- `driver.NamedValue`.
pub record NamedValue (V : Type 0) : Type 0 where
  pub name : Runes
  pub ordinal : ℤ
  pub value : V

-- `allPlaceholders`, `filled` and `total`.
pub record Slots (V : Type 0) : Type 0 where
  pub values : List V
  pub filled : List Bool
  pub total : ℕ

-- The error of a slot that is filled; `bindNames[idx]` panics out of range.
unfoldable pub duplicate {ℓ} : {A : Type ℓ} → Option Runes → ℕ → Outcome Error A
duplicate none i = panic
duplicate (some name) i = err (duplicate_arg name (i + 1))

-- The name at an ordinal, counted from 1.
unfoldable pub name_at_ordinal : List Runes → ℤ → Option Runes
name_at_ordinal names (pos (suc n)) = get_elem? names n
name_at_ordinal names _ = none

module _ {V : Type 0} where
  -- The write into a slot that is not filled.
  abbrev pub fill : ℕ → V → Slots V → Slots V
  fill i v s = record {
    values = set s.values i v;
    filled = set s.filled i true;
    total = s.total + 1;
  }

  -- The loop of `placeByKey`.
  unfoldable pub place_at : List Runes → V → List ℕ → Slots V → Outcome Error (Slots V)
  unfolding duplicate
  place_at names v [] s = ok s
  place_at names v (i ∷ is) s = elim (get_elem? s.filled i) [
    | none ↦ panic
    | some true ↦ duplicate (get_elem? names i) i
    | some false ↦ place_at names v is (fill i v s)
  ]

  -- `placeByKey`.
  unfoldable pub place_by_key :
      BindDetails → Runes → NamedValue V → Slots V → Outcome Error (Slots V)
  unfolding find runes_eq place_at
  place_by_key d key src s = elim (find runes_eq key d.bind_map) [
    | none ↦ err (name_not_found src.name)
    | some indices ↦ place_at d.bind_names src.value indices s
  ]

  -- One round of the loop over the inputs.
  unfoldable pub place : BindDetails → NamedValue V → Slots V → Outcome Error (Slots V)
  unfolding place_by_key name_at_ordinal
  place d nv s =
      if length nv.name == 0
      then elim (name_at_ordinal d.bind_names nv.ordinal) [
        | none ↦ err (invalid_ordinal nv.ordinal)
        | some name ↦ place_by_key d name nv s
      ]
      else place_by_key d nv.name nv s

  unfoldable pub place_all : BindDetails → List (NamedValue V) → Slots V → Outcome Error (Slots V)
  unfolding place
  place_all d [] s = ok s
  place_all d (nv ∷ rest) s = place d nv s >>= place_all d rest

  -- The last loop: the filled slots, written one after the other into an array of length `total`.
  unfoldable pub collect : List Bool → List V → List V → ℕ → Outcome Error (List V)
  collect [] vs out cur = ok out
  collect (b ∷ fs) [] out cur = panic
  collect (b ∷ fs) (v ∷ vs) out cur =
      let skip = collect fs vs out cur in
      let take = collect fs vs (set out cur v) (suc cur) in
      if b then (if ltb cur (length out) then take else panic) else skip

  module _ (nil : V) where
    abbrev pub empty_slots : ℕ → Slots V
    empty_slots n = record { values = replicate n nil; filled = replicate n false; total = 0 }

    -- `extractInputBindValues`; `nil` is the nil value that a new array holds.
    unfoldable pub extract_input_bind_values :
        BindDetails → List (NamedValue V) → Outcome Error (List V)
    unfolding place_all collect
    extract_input_bind_values d inputs = do
      s ← place_all d inputs (empty_slots (length d.bind_names))
      collect s.filled s.values (replicate s.total nil) 0
