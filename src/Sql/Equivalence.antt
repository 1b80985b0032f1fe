-- ===== src/Sql/Equivalence.antt =====
-- `extractInputBindValues` of internal/driver/ttc/sql_namedvalue_parser.go gives what its plain
-- description gives.
use go_oracledb.Base.{
  ℕ, suc, ◌+◌, ◌≡◌, refl, sym, ap, ◌∙◌, inl, inr, false, Option, none, some, List, [], ◌∷◌, ◌++◌,
  map, length, get_elem?-append, replicate, ◌==◌, arith, Bool-cases, Option-cases,
}
use go_oracledb.Base.Dict.{find, insert, find-insert}
use go_oracledb.Base.Outcome.{Outcome, ok, err, panic, stuck, ◌>>=◌}
use go_oracledb.Base.Runes.{Runes, runes_eq}
use go_oracledb.Sql.Scan.{Error, name_not_found, duplicate_arg, invalid_ordinal, BindDetails}
use go_oracledb.Sql.Names.{positions, index_from, non_empty, IsBindDetails}
use go_oracledb.Sql.Bind.{
  NamedValue, Slots, duplicate, place_at, place_by_key, name_at_ordinal, place, place_all, collect,
  empty_slots, extract_input_bind_values,
}
use go_oracledb.Sql.Values.{
  assign, assign_one, assign_all, somes, bound_values, is_some, or_nil, slots_of, updated,
  collect-slots_of, place_at-slots_of, place_at_taken,
}
use mathlib.Core.Logic.{if_pos, if_neg}
use mathlib.Core.Path.{fun_ext}
use mathlib.Core.List.{map-append}

-- Where a name stands first, and what is around it.
data Located (key : Runes) (i : ℕ) (ns : List Runes) : Type 0 where
  absent : positions key i ns ≡ [] → index_from key i ns ≡ none → Located key i ns
  located :
      (front back : List Runes) (rest : List ℕ)
      → ns ≡ front ++ (key ∷ back)
      → positions key i ns ≡ (i + length front) ∷ rest
      → index_from key i ns ≡ some (i + length front)
      → Located key i ns

locate : (key : Runes) (i : ℕ) (ns : List Runes) → Located key i ns
unfolding positions index_from
locate key i [] = absent refl refl
locate key i (n ∷ ns) = elim (runes_eq n key) [
  | yes e ↦
      located [] ns (positions key (suc i) ns) (ap (λ t. t ∷ ns) e)
        (rw (if_pos (runes_eq n key) e)
          (ap (λ (k : ℕ). k ∷ positions key (suc i) ns) (omega arith)))
        (rw (if_pos (runes_eq n key) e) (ap some (omega arith)))
  | no e ↦ go (locate key (suc i) ns) e
]
  where
    go : Located key (suc i) ns → ¬ (n ≡ key) → Located key i (n ∷ ns)
    go (absent p q) e = absent (rw (if_neg (runes_eq n key) e) p) (rw (if_neg (runes_eq n key) e) q)
    go (located front back rest s p q) e =
        located (n ∷ front) back rest (ap (λ t. n ∷ t) s)
          (rw (if_neg (runes_eq n key) e) (p ∙ ap (λ (k : ℕ). k ∷ rest) (omega arith)))
          (rw (if_neg (runes_eq n key) e) (q ∙ ap some (omega arith)))

length-map {ℓ κ} :
    {A : Type ℓ} {B : Type κ} (f : A → B) (xs : List A) → length (map f xs) ≡ length xs
length-map f [] = refl
length-map f (x ∷ xs) = ap suc (length-map f xs)

module _ {V : Type 0} (nil : V) (d : BindDetails) (h : IsBindDetails d) where
  -- The slots of the values given so far.
  slots_for : List (Runes × V) → Slots V
  slots_for given = slots_of nil (map (λ n. find runes_eq n given) d.bind_names)

  updated-insert :
      (given : List (Runes × V)) (key : Runes) (v : V)
      → updated (λ n. find runes_eq n given) key v
        ≡ (λ n. find runes_eq n (insert runes_eq key v given))
  unfolding updated
  updated-insert given key v = fun_ext (λ n. elim (runes_eq n key) [
    | yes e ↦ rw (find-insert, if_pos _ e, if_pos (runes_eq key n) (sym e))
    | no e ↦ rw (find-insert, if_neg _ e, if_neg (runes_eq key n) (λ f. e (sym f)))
  ])

  assign_absent :
      (key : Runes) (src : NamedValue V) (given : List (Runes × V))
      → index_from key 0 d.bind_names ≡ none
      → assign d.bind_names key src given ≡ err (name_not_found src.name)
  unfolding assign
  assign_absent key src given e = rw (e, assign)

  assign_new :
      (key : Runes) (src : NamedValue V) (given : List (Runes × V)) (i : ℕ)
      → index_from key 0 d.bind_names ≡ some i
      → find runes_eq key given ≡ none
      → assign d.bind_names key src given ≡ ok (insert runes_eq key src.value given)
  unfolding assign
  assign_new key src given i e f = rw (e, assign, f)

  assign_again :
      (key : Runes) (src : NamedValue V) (given : List (Runes × V)) (i : ℕ) (v : V)
      → index_from key 0 d.bind_names ≡ some i
      → find runes_eq key given ≡ some v
      → assign d.bind_names key src given ≡ err (duplicate_arg key (i + 1))
  unfolding assign
  assign_again key src given i v e f = rw (e, assign, f)

  place_by_key_lem :
      (key : Runes) (src : NamedValue V) (s : Slots V) (l : List ℕ)
      → positions key 0 d.bind_names ≡ l
      → place_by_key d key src s ≡ (elim (non_empty l) [
        | none ↦ err (name_not_found src.name)
        | some indices ↦ place_at d.bind_names src.value indices s
      ])
  unfolding place_by_key
  place_by_key_lem key src s l e = rw (h.map key, place_by_key, e)

  place_free :
      (key : Runes) (src : NamedValue V) (given : List (Runes × V)) (rest : List ℕ)
      (front : List Runes)
      → positions key 0 d.bind_names ≡ (0 + length front) ∷ rest
      → find runes_eq key given ≡ none
      → place_at d.bind_names src.value ((0 + length front) ∷ rest) (slots_for given)
        ≡ ok (slots_for (insert runes_eq key src.value given))
  unfolding slots_for
  place_free key src given rest front p free = rw (← p) (
      place_at-slots_of nil src.value (λ n. find runes_eq n given) key free d.bind_names
        d.bind_names []
      ∙ ap (λ (f : Runes → Option V). ok (slots_of nil (map f d.bind_names)))
          (updated-insert given key src.value))

  slots_at :
      (given : List (Runes × V)) (key : Runes) (v : V) (front back : List Runes)
      → d.bind_names ≡ front ++ (key ∷ back)
      → find runes_eq key given ≡ some v
      → slots_for given
        ≡ slots_of nil (
            map (λ n. find runes_eq n given) front
            ++ (some v ∷ map (λ n. find runes_eq n given) back))
  unfolding slots_for
  slots_at given key v front back s taken = ap (slots_of nil) (
      ap (map (λ n. find runes_eq n given)) s
      ∙ map-append (λ n. find runes_eq n given) front (key ∷ back)
      ∙ ap
          (λ (o : Option V).
            map (λ n. find runes_eq n given) front ++ (o ∷ map (λ n. find runes_eq n given) back))
          taken)

  place_taken :
      (key : Runes) (src : NamedValue V) (given : List (Runes × V)) (v : V) (rest : List ℕ)
      (front back : List Runes)
      → d.bind_names ≡ front ++ (key ∷ back)
      → find runes_eq key given ≡ some v
      → place_at d.bind_names src.value ((0 + length front) ∷ rest) (slots_for given)
        ≡ err (duplicate_arg key (0 + length front + 1))
  unfolding duplicate
  place_taken key src given v rest front back s taken =
      let f : Runes → Option V = λ n. find runes_eq n given in
      let at : length (map f front) ≡ 0 + length front = omega (arith, length-map f front) in
      rw (slots_at given key v front back s taken, ← at)
        (place_at_taken d.bind_names nil src.value v rest (map f front) (map f back)
          ∙ rw (length-map f front, s, get_elem?-append front key back, duplicate))

  place_by_key-assign :
      (key : Runes) (src : NamedValue V) (given : List (Runes × V))
      → place_by_key d key src (slots_for given)
        ≡ (assign d.bind_names key src given >>= λ g. ok (slots_for g))
  place_by_key-assign key src given = go (locate key 0 d.bind_names)
    where
      go :
          Located key 0 d.bind_names
          → place_by_key d key src (slots_for given)
            ≡ (assign d.bind_names key src given >>= λ g. ok (slots_for g))
      go (absent p q) =
          place_by_key_lem key src (slots_for given) [] p ∙ rw (assign_absent key src given q)
      go (located front back rest s p q) = elim (Option-cases (find runes_eq key given)) [
        | inl free ↦ rw (assign_new key src given (0 + length front) q free) (
            place_by_key_lem key src (slots_for given) _ p
            ∙ place_free key src given rest front p free)
        | inr (v, taken) ↦ rw (assign_again key src given (0 + length front) v q taken) (
            place_by_key_lem key src (slots_for given) _ p
            ∙ place_taken key src given v rest front back s taken)
      ]

  place-assign_one :
      (nv : NamedValue V) (given : List (Runes × V))
      → place d nv (slots_for given) ≡ (assign_one d.bind_names nv given >>= λ g. ok (slots_for g))
  unfolding place assign_one
  place-assign_one nv given = elim (Bool-cases (length nv.name == 0)) [
    | inl e ↦ rw e (ordinal (name_at_ordinal d.bind_names nv.ordinal))
    | inr e ↦ rw e (place_by_key-assign nv.name nv given)
  ]
    where
      ordinal :
          (o : Option Runes)
          → (elim o as (λ x. Outcome Error (Slots V)) [
            | none ↦ err (invalid_ordinal nv.ordinal)
            | some name ↦ place_by_key d name nv (slots_for given)
          ])
            ≡ ((elim o as (λ x. Outcome Error (List (Runes × V))) [
              | none ↦ err (invalid_ordinal nv.ordinal)
              | some name ↦ assign d.bind_names name nv given
            ])
                >>= λ g. ok (slots_for g))
      ordinal none = refl
      ordinal (some name) = place_by_key-assign name nv given

  place_all-assign_all :
      (inputs : List (NamedValue V)) (given : List (Runes × V))
      → place_all d inputs (slots_for given)
        ≡ (assign_all d.bind_names inputs given >>= λ g. ok (slots_for g))
  unfolding place_all assign_all
  place_all-assign_all [] given = refl
  place_all-assign_all (nv ∷ inputs) given =
      rw (place-assign_one nv given)
        (go (place_all-assign_all inputs) (assign_one d.bind_names nv given))
    where
      go :
          ((g : List (Runes × V))
            → place_all d inputs (slots_for g)
              ≡ (assign_all d.bind_names inputs g >>= λ g'. ok (slots_for g')))
          → (o : Outcome Error (List (Runes × V)))
          → (o >>= (λ g. ok (slots_for g)) >>= place_all d inputs)
            ≡ (o >>= assign_all d.bind_names inputs >>= λ g. ok (slots_for g))
      go ih (ok g) = ih g
      go ih (err e) = refl
      go ih panic = refl
      go ih stuck = refl

  no_values :
      (names : List Runes)
      → empty_slots nil (length names) ≡ slots_of nil (map (λ n. find runes_eq n []) names)
  unfolding slots_of is_some or_nil somes find
  no_values [] = refl
  no_values (n ∷ ns) = λ i. record {
    values = nil ∷ (no_values ns i).values;
    filled = false ∷ (no_values ns i).filled;
    total = (no_values ns i).total;
  }

  no_values_lem : empty_slots nil (length d.bind_names) ≡ slots_for []
  unfolding slots_for
  no_values_lem = no_values d.bind_names

  collect-slots_for :
      (given : List (Runes × V))
      → collect
          (slots_for given).filled
          (slots_for given).values
          (replicate (slots_for given).total nil)
          0
        ≡ ok (somes (map (λ n. find runes_eq n given) d.bind_names))
  unfolding slots_for slots_of
  collect-slots_for given = collect-slots_of nil [] (map (λ n. find runes_eq n given) d.bind_names)

  -- With details that are in order, the slots, their counter and the array of the result come to one
  -- value for each name: a value by name or by ordinal goes to every placeholder of that name, a name
  -- that is not there, a bad ordinal and a second value are refused, and the result has the values of
  -- the placeholders that got one, in order, without a gap or a panic. A placeholder that got no value is left out,
  -- without an error.
  pub extract_input_bind_values-bound_values :
      (inputs : List (NamedValue V))
      → extract_input_bind_values nil d inputs ≡ bound_values d.bind_names inputs
  unfolding extract_input_bind_values bound_values
  extract_input_bind_values-bound_values inputs =
      rw (no_values_lem, place_all-assign_all inputs []) (go (assign_all d.bind_names inputs []))
    where
      go :
          (o : Outcome Error (List (Runes × V)))
          → (o >>= (λ g. ok (slots_for g)) >>= λ s.
              collect s.filled s.values (replicate s.total nil) 0)
            ≡ (o >>= λ g. ok (somes (map (λ n. find runes_eq n g) d.bind_names)))
      go (ok g) = collect-slots_for g
      go (err e) = refl
      go panic = refl
      go stuck = refl
