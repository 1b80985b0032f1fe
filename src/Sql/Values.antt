-- ===== src/Sql/Values.antt =====
-- What `extractInputBindValues` of internal/driver/ttc/sql_namedvalue_parser.go gives: beside a plain
-- description in which each name has one value.
use go_oracledb.Base.{
  ℕ, suc, ◌+◌, ◌≡◌, refl, ap, ◌∙◌, Bool, true, false, Option, none, some, List, [], ◌∷◌, ◌++◌, map,
  append_assoc, length, length-append, get_elem?, set, replicate, ◌==◌, if◌then◌else◌, arith,
  set-append, lt→ltb,
}
use go_oracledb.Base.Dict.{find, insert}
use go_oracledb.Base.Outcome.{Outcome, ok, err, ◌>>=◌}
use go_oracledb.Base.Runes.{Runes, runes_eq}
use go_oracledb.Sql.Scan.{Error, name_not_found, duplicate_arg, invalid_ordinal}
use go_oracledb.Sql.Names.{positions, index_from}
use go_oracledb.Sql.Bind.{NamedValue, Slots, fill, duplicate, place_at, name_at_ordinal, collect}
use mathlib.Core.Logic.{ite, if_pos, if_neg}

module _ {V : Type 0} where
  -- A value for a name that has none.
  unfoldable pub assign :
      List Runes → Runes → NamedValue V → List (Runes × V) → Outcome Error (List (Runes × V))
  unfolding index_from find insert runes_eq
  assign names key src given = elim (index_from key 0 names) [
    | none ↦ err (name_not_found src.name)
    | some i ↦ elim (find runes_eq key given) [
      | none ↦ ok (insert runes_eq key src.value given)
      | some v ↦ err (duplicate_arg key (i + 1))
    ]
  ]

  unfoldable pub assign_one :
      List Runes → NamedValue V → List (Runes × V) → Outcome Error (List (Runes × V))
  unfolding name_at_ordinal assign
  assign_one names nv given =
      if length nv.name == 0
      then elim (name_at_ordinal names nv.ordinal) [
        | none ↦ err (invalid_ordinal nv.ordinal)
        | some name ↦ assign names name nv given
      ]
      else assign names nv.name nv given

  unfoldable pub assign_all :
      List Runes → List (NamedValue V) → List (Runes × V) → Outcome Error (List (Runes × V))
  unfolding assign_one
  assign_all names [] given = ok given
  assign_all names (nv ∷ rest) given = assign_one names nv given >>= assign_all names rest

  -- The values that are there.
  unfoldable pub somes : List (Option V) → List V
  somes [] = []
  somes (none ∷ os) = somes os
  somes (some v ∷ os) = v ∷ somes os

  -- `extractInputBindValues` by names: one value for a name, in the order of the placeholders.
  unfoldable pub bound_values : List Runes → List (NamedValue V) → Outcome Error (List V)
  unfolding assign_all somes
  bound_values names inputs =
      assign_all names inputs [] >>= λ given. ok (somes (map (λ n. find runes_eq n given) names))

  unfoldable pub is_some : Option V → Bool
  is_some none = false
  is_some (some v) = true

  unfoldable pub or_nil : V → Option V → V
  or_nil nil none = nil
  or_nil nil (some v) = v

  -- The slots that hold `os`.
  unfoldable pub slots_of : V → List (Option V) → Slots V
  slots_of nil os = record {
    values = map (or_nil nil) os;
    filled = map is_some os;
    total = length (somes os);
  }

  -- The last loop writes the values of the filled slots behind one another, and reaches the end of its
  -- array.
  pub collect-slots_of :
      (nil : V) (done : List V) (os : List (Option V))
      → collect
          (map is_some os)
          (map (or_nil nil) os)
          (done ++ replicate (length (somes os)) nil)
          (length done)
        ≡ ok (done ++ somes os)
  unfolding collect somes is_some or_nil
  collect-slots_of nil done [] = refl
  collect-slots_of nil done (none ∷ os) = collect-slots_of nil done os
  collect-slots_of nil done (some v ∷ os) =
      rw
        (
          lt→ltb (length done) (length (done ++ (nil ∷ replicate (length (somes os)) nil)))
              (omega (arith, length-append {0} done (nil ∷ replicate (length (somes os)) nil))),
          set-append done nil v (replicate (length (somes os)) nil),
        )
        (let next : length (done ++ (v ∷ [])) ≡ suc (length done) =
            omega (arith, length-append {0} done (v ∷ [])) in
          rw
            (
              ← next,
              ← append_assoc done (v ∷ []) (replicate (length (somes os)) nil),
              ← append_assoc done (v ∷ []) (somes os),
            )
            (collect-slots_of nil (done ++ (v ∷ [])) os))

  length-somes :
      (os gs : List (Option V)) (v : V)
      → length (somes (os ++ (none ∷ gs))) + 1 ≡ length (somes (os ++ (some v ∷ gs)))
  unfolding somes
  length-somes [] gs v = omega arith
  length-somes (none ∷ os) gs v = length-somes os gs v
  length-somes (some w ∷ os) gs v = omega (arith, length-somes os gs v)

  set-map {ℓ} :
      {B : Type ℓ} (g : Option V → B) (os gs : List (Option V)) (o p : Option V)
      → set (map g (os ++ (o ∷ gs))) (length os) (g p) ≡ map g (os ++ (p ∷ gs))
  set-map g [] gs o p = refl
  set-map g (q ∷ os) gs o p = ap (λ t. g q ∷ t) (set-map g os gs o p)

  get_elem?-map {ℓ} :
      {B : Type ℓ} (g : Option V → B) (os gs : List (Option V)) (o : Option V)
      → get_elem? (map g (os ++ (o ∷ gs))) (length os) ≡ some (g o)
  get_elem?-map g [] gs o = refl
  get_elem?-map g (q ∷ os) gs o = get_elem?-map g os gs o

  fill-slots_of :
      (nil v : V) (os gs : List (Option V))
      → fill (length os) v (slots_of nil (os ++ (none ∷ gs))) ≡ slots_of nil (os ++ (some v ∷ gs))
  unfolding slots_of is_some or_nil
  fill-slots_of nil v os gs = λ i. record {
    values = set-map (or_nil nil) os gs none (some v) i;
    filled = set-map is_some os gs none (some v) i;
    total = length-somes os gs v i;
  }

  -- The values with one for `key`.
  unfoldable pub updated : (Runes → Option V) → Runes → V → Runes → Option V
  updated f key v n = ite (runes_eq n key) (some v) (f n)

  filled_at :
      (nil : V) (os gs : List (Option V)) (o : Option V)
      → get_elem? (slots_of nil (os ++ (o ∷ gs))).filled (length os) ≡ some (is_some o)
  unfolding slots_of
  filled_at nil os gs o = get_elem?-map is_some os gs o

  place_at_free :
      (all : List Runes) (nil v : V) (is : List ℕ) (os gs : List (Option V))
      → place_at all v (length os ∷ is) (slots_of nil (os ++ (none ∷ gs)))
        ≡ place_at all v is (slots_of nil (os ++ (some v ∷ gs)))
  unfolding place_at is_some
  place_at_free all nil v is os gs =
      rw (filled_at nil os gs none, place_at) (ap (place_at all v is) (fill-slots_of nil v os gs))

  pub place_at_taken :
      (all : List Runes) (nil v w : V) (is : List ℕ) (os gs : List (Option V))
      → place_at all v (length os ∷ is) (slots_of nil (os ++ (some w ∷ gs)))
        ≡ duplicate (get_elem? all (length os)) (length os)
  unfolding place_at is_some
  place_at_taken all nil v w is os gs = rw (filled_at nil os gs (some w), place_at)

  -- Filling the places of a name gives each of them its value.
  pub place_at-slots_of :
      (nil v : V) (f : Runes → Option V) (key : Runes)
      → f key ≡ none
      → (all ns : List Runes) (os : List (Option V))
      → place_at all v (positions key (length os) ns) (slots_of nil (os ++ map f ns))
        ≡ ok (slots_of nil (os ++ map (updated f key v) ns))
  unfolding positions updated
  place_at-slots_of nil v f key e all [] os = unfold place_at in refl
  place_at-slots_of nil v f key e all (n ∷ ns) os =
      let later : (o : Option V)
          → place_at all v (positions key (suc (length os)) ns)
              (slots_of nil (os ++ (o ∷ map f ns)))
            ≡ ok (slots_of nil (os ++ (o ∷ map (updated f key v) ns))) =
        λ o.
          let next : length (os ++ (o ∷ [])) ≡ suc (length os) =
            omega (arith, length-append {0} os (o ∷ [])) in
          rw
            (
              ← next,
              ← append_assoc os (o ∷ []) (map f ns),
              ← append_assoc os (o ∷ []) (map (updated f key v) ns),
            )
            (place_at-slots_of nil v f key e all ns (os ++ (o ∷ []))) in
      elim (runes_eq n key) [
        | yes same ↦
            rw (if_pos _ same, if_pos (runes_eq n key) same, ap f same ∙ e)
              (place_at_free all nil v (positions key (suc (length os)) ns) os (map f ns)
                ∙ later (some v))
        | no other ↦ rw (if_neg _ other, if_neg (runes_eq n key) other) (later (f n))
      ]
