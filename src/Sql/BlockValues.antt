-- ===== src/Sql/BlockValues.antt =====
-- What `extractInputBindValuesForPlSql` of internal/driver/ttc/sql_namedvalue_parser.go gives: a slot for each of the
-- different names, in the order of their first places.
use go_oracledb.Base.{
  ℕ, zero, suc, ◌+◌, ◌≤◌, ◌<◌, ◌≡◌, refl, sym, ap, ◌∙◌, false, Option, none, some, List, [], ◌∷◌,
  length, length-replicate, get_elem?, replicate, ◌==◌, arith, Bool-cases, inl, inr,
}
use go_oracledb.Base.Outcome.{Outcome, ok, err, panic, stuck, ◌>>=◌}
use go_oracledb.Base.Runes.{Runes}
use go_oracledb.Sql.Scan.{Error, name_not_found, invalid_ordinal, BindDetails}
use go_oracledb.Sql.Names.{index_from, distinct, IsBindDetails}
use go_oracledb.Sql.Bind.{NamedValue, Slots, collect, empty_slots}
use go_oracledb.Sql.Values.{somes, is_some, or_nil, slots_of, collect-slots_of}
use go_oracledb.Sql.Blocks.{
  ordinal_index, place_block_value, place_in_block, place_all_in_block,
  extract_input_bind_values_for_pl_sql,
}
use go_oracledb.Sql.Slots.{
  name_or_empty, found_at, index_from-lt, ordinal_index-lt, length-distinct_from, slot_of, give,
  give_all, block_values, place_block_value-give, length-give,
}

-- With details that are in order, what the code does with its arrays comes to the slots of the different names.
module _ {V : Type 0} (nil : V) (d : BindDetails) (h : IsBindDetails d) where
  abbrev places : ℕ
  places = length (distinct d.bind_names)

  placed :
      (nv : NamedValue V) (os : List (Option V))
      → length os ≡ places
      → place_in_block d nv (slots_of nil os)
        ≡ (slot_of d.bind_names nv >>= give nv.value os >>= λ os'. ok (slots_of nil os'))
  unfolding place_in_block slot_of
  placed nv os size = elim (Bool-cases (length nv.name == 0)) [
    | inl e ↦
        rw (e, same)
          (by_ordinal (ordinal_index places nv.ordinal) (ordinal_index-lt places nv.ordinal))
    | inr e ↦
        rw (e, h.unique nv.name)
          (by_name (index_from nv.name 0 (distinct d.bind_names))
            (index_from-lt nv.name 0 (distinct d.bind_names)))
  ]
    where
      same : ordinal_index (length d.unique_names) nv.ordinal ≡ ordinal_index places nv.ordinal
      same = ap (λ c. ordinal_index c nv.ordinal) h.count

      fewer : places ≤ length d.bind_names
      fewer = omega (arith, length-distinct_from [] d.bind_names)

      by_ordinal :
          (o : Option ℕ)
          → ((i : ℕ) → o ≡ some i → i < places)
          → (elim o as (λ x. Outcome Error (Slots V)) [
            | none ↦ err (invalid_ordinal nv.ordinal)
            | some i ↦ place_block_value (get_elem? d.bind_names i) i nv.value (slots_of nil os)
          ])
            ≡ (elim o as (λ x. Outcome Error (ℕ × Runes)) [
              | none ↦ err (invalid_ordinal nv.ordinal)
              | some i ↦ ok (i, name_or_empty (get_elem? d.bind_names i))
            ]
                >>= give nv.value os
                >>= λ os'. ok (slots_of nil os'))
      by_ordinal none k = refl
      by_ordinal (some i) k =
          let below = k i refl in
          let (n, at) = found_at d.bind_names i (omega (arith, below, fewer)) in
          place_block_value-give nil nv.value os i (get_elem? d.bind_names i)
            (name_or_empty (get_elem? d.bind_names i)) (omega (arith, below, size))
            (at ∙ ap (λ o. some (name_or_empty o)) (sym at))

      by_name :
          (o : Option ℕ)
          → ((i : ℕ) → o ≡ some i → i < 0 + places)
          → (elim o as (λ x. Outcome Error (Slots V)) [
            | none ↦ err (name_not_found nv.name)
            | some i ↦ place_block_value (some nv.name) i nv.value (slots_of nil os)
          ])
            ≡ (elim o as (λ x. Outcome Error (ℕ × Runes)) [
              | none ↦ err (name_not_found nv.name)
              | some i ↦ ok (i, nv.name)
            ]
                >>= give nv.value os
                >>= λ os'. ok (slots_of nil os'))
      by_name none k = refl
      by_name (some i) k =
          place_block_value-give nil nv.value os i (some nv.name) nv.name
            (omega (arith, k i refl, size)) refl

  all_placed :
      (inputs : List (NamedValue V)) (os : List (Option V))
      → length os ≡ places
      → place_all_in_block d inputs (slots_of nil os)
        ≡ (give_all d.bind_names inputs os >>= λ os'. ok (slots_of nil os'))
  unfolding place_all_in_block give_all
  all_placed [] os size = refl
  all_placed (nv ∷ inputs) os size =
      rw (placed nv os size) (by_slot (slot_of d.bind_names nv) (all_placed inputs))
    where
      by_given :
          ((os' : List (Option V))
            → length os' ≡ places
            → place_all_in_block d inputs (slots_of nil os')
              ≡ (give_all d.bind_names inputs os' >>= λ os''. ok (slots_of nil os'')))
          → (o : Outcome Error (List (Option V)))
          → ((os' : List (Option V)) → o ≡ ok os' → length os' ≡ places)
          → (o >>= (λ os'. ok (slots_of nil os')) >>= place_all_in_block d inputs)
            ≡ (o >>= give_all d.bind_names inputs >>= λ os'. ok (slots_of nil os'))
      by_given ih (ok os') k = ih os' (k os' refl)
      by_given ih (err e) k = refl
      by_given ih panic k = refl
      by_given ih stuck k = refl

      by_slot :
          (o : Outcome Error (ℕ × Runes))
          → ((os' : List (Option V))
              → length os' ≡ places
              → place_all_in_block d inputs (slots_of nil os')
                ≡ (give_all d.bind_names inputs os' >>= λ os''. ok (slots_of nil os'')))
          → (o
              >>= give nv.value os
              >>= (λ os'. ok (slots_of nil os'))
              >>= place_all_in_block d inputs)
            ≡ (o >>= give nv.value os >>= give_all d.bind_names inputs >>= λ os'.
                ok (slots_of nil os'))
      by_slot (ok slot) ih =
          by_given ih (give nv.value os slot) (λ os' e. length-give nv.value os os' slot e ∙ size)
      by_slot (err e) ih = refl
      by_slot panic ih = refl
      by_slot stuck ih = refl

  no_slots : (n : ℕ) → empty_slots nil n ≡ slots_of nil (replicate n none)
  unfolding slots_of is_some or_nil somes
  no_slots zero = refl
  no_slots (suc n) = λ i. record {
    values = nil ∷ (no_slots n i).values;
    filled = false ∷ (no_slots n i).filled;
    total = (no_slots n i).total;
  }

  -- With details that are in order, the array of values, the flags and the counter come to a slot for each of the
  -- different names: a value by name or by ordinal goes to one slot, a name that is not there, a bad ordinal and a
  -- second value are refused, and the result has the values of the slots that got one, in order, without a gap or a
  -- panic.
  pub extract_input_bind_values_for_pl_sql-block_values :
      (inputs : List (NamedValue V))
      → extract_input_bind_values_for_pl_sql nil d inputs ≡ block_values d.bind_names inputs
  unfolding extract_input_bind_values_for_pl_sql block_values
  extract_input_bind_values_for_pl_sql-block_values inputs =
      rw
        (
          h.count,
          no_slots (length (distinct d.bind_names)),
          all_placed inputs (replicate (length (distinct d.bind_names)) none)
              (length-replicate {A = Option V} (length (distinct d.bind_names)) none),
        )
        (collected (give_all d.bind_names inputs (replicate (length (distinct d.bind_names)) none)))
    where
      collected :
          (o : Outcome Error (List (Option V)))
          → (o >>= (λ os. ok (slots_of nil os)) >>= λ s.
              collect s.filled s.values (replicate s.total nil) 0)
            ≡ (o >>= λ os. ok (somes os))
      collected (ok os) = unfold slots_of in collect-slots_of nil [] os
      collected (err e) = refl
      collected panic = refl
      collected stuck = refl
