-- ===== src/Sql/Slots.antt =====
-- The slots that `extractInputBindValuesForPlSql` of internal/driver/ttc/sql_namedvalue_parser.go fills: one for each of
-- the different names, in the order of their first places.
use go_oracledb.Base.{
  ℕ, zero, suc, ◌+◌, ◌≤◌, ◌<◌, ◌≡◌, refl, sym, ap, ◌∙◌, Option, none, some, List, [], ◌∷◌, ◌++◌,
  map, length, length-append, length-set, get_elem?, set, replicate, ltb, ◌==◌, if◌then◌else◌,
  arith, Bool-cases, inl, inr, ltb→lt,
}
use go_oracledb.Base.Int.{ℤ, pos, negsuc}
use go_oracledb.Base.Outcome.{Outcome, ok, err, panic, stuck, ◌>>=◌}
use go_oracledb.Base.Runes.{Runes, runes_eq}
use go_oracledb.Sql.Scan.{Error, name_not_found, duplicate_arg, invalid_ordinal}
use go_oracledb.Sql.Names.{index_from, distinct, distinct_from, add_new}
use go_oracledb.Sql.Bind.{NamedValue, fill}
use go_oracledb.Sql.Values.{somes, is_some, or_nil, slots_of}
use go_oracledb.Sql.Blocks.{ordinal_index, place_by_flag, place_block_value}
use mathlib.Core.Option.{some-injective}
use mathlib.Core.Logic.{if_pos, if_neg}

abbrev pub name_or_empty : Option Runes → Runes
name_or_empty none = []
name_or_empty (some n) = n

pub found_at {ℓ} :
    {A : Type ℓ} (xs : List A) (i : ℕ) → i < length xs → (x : A) × (get_elem? xs i ≡ some x)
found_at [] i h = absurd (omega arith)
found_at (x ∷ xs) zero h = (x, refl)
found_at (x ∷ xs) (suc i) h = found_at xs i (omega arith)

pub index_from-lt :
    (key : Runes) (start : ℕ) (ns : List Runes) (i : ℕ)
    → index_from key start ns ≡ some i
    → i < start + length ns
unfolding index_from
index_from-lt key start [] i h = absurd (cc h)
index_from-lt key start (n ∷ ns) i h = elim (runes_eq n key) [
  | yes e ↦ omega (arith, some-injective start i (rw (if_pos (runes_eq n key) e) at h))
  | no e ↦ omega (arith, index_from-lt key (suc start) ns i (rw (if_neg (runes_eq n key) e) at h))
]

pub ordinal_index-lt : (count : ℕ) (z : ℤ) (i : ℕ) → ordinal_index count z ≡ some i → i < count
unfolding ordinal_index
ordinal_index-lt count (pos zero) i h = absurd (cc h)
ordinal_index-lt count (pos (suc n)) i h = elim (Bool-cases (ltb n count)) [
  | inl e ↦ omega (arith, ltb→lt n count e, some-injective n i (rw e at h))
  | inr e ↦ absurd (cc (rw e at h))
]
ordinal_index-lt count (negsuc n) i h = absurd (cc h)

length-add_new : (seen : List Runes) (name : Runes) → length (add_new seen name) ≤ suc (length seen)
length-add_new seen name = go (index_from name 0 seen)
  where
    go :
        (o : Option ℕ)
        → length (elim o as (λ x. List Runes) [ none ↦ seen ++ (name ∷ []) | some i ↦ seen ])
          ≤ suc (length seen)
    go none = omega (arith, length-append {0} seen (name ∷ []))
    go (some i) = omega arith

pub length-distinct_from :
    (seen ns : List Runes) → length (distinct_from seen ns) ≤ length seen + length ns
unfolding distinct_from
length-distinct_from seen [] = omega arith
length-distinct_from seen (n ∷ ns) =
    omega (arith, length-add_new seen n, length-distinct_from (add_new seen n) ns)

module _ {V : Type 0} where
  -- The slot of an input, with the name that the error of a second value has.
  unfoldable pub slot_of : List Runes → NamedValue V → Outcome Error (ℕ × Runes)
  unfolding index_from distinct_from ordinal_index
  slot_of names nv =
      if length nv.name == 0
      then elim (ordinal_index (length (distinct names)) nv.ordinal) [
        | none ↦ err (invalid_ordinal nv.ordinal)
        | some i ↦ ok (i, name_or_empty (get_elem? names i))
      ]
      else elim (index_from nv.name 0 (distinct names)) [
        | none ↦ err (name_not_found nv.name)
        | some i ↦ ok (i, nv.name)
      ]

  unfoldable pub give_to :
      V → List (Option V) → ℕ × Runes → Option (Option V) → Outcome Error (List (Option V))
  give_to v os (i, name) (some (some w)) = err (duplicate_arg name (i + 1))
  give_to v os (i, name) (some none) = ok (set os i (some v))
  give_to v os (i, name) none = ok (set os i (some v))

  unfoldable pub give : V → List (Option V) → ℕ × Runes → Outcome Error (List (Option V))
  unfolding give_to
  give v os slot = give_to v os slot (get_elem? os slot.0)

  unfoldable pub give_all :
      List Runes → List (NamedValue V) → List (Option V) → Outcome Error (List (Option V))
  unfolding slot_of give
  give_all names [] os = ok os
  give_all names (nv ∷ rest) os = slot_of names nv >>= give nv.value os >>= give_all names rest

  -- The values of the slots that got one, in order.
  unfoldable pub block_values : List Runes → List (NamedValue V) → Outcome Error (List V)
  unfolding give_all somes
  block_values names inputs =
      give_all names inputs (replicate (length (distinct names)) none) >>= λ os. ok (somes os)

  get_elem?-map_at {ℓ} :
      {B : Type ℓ} (g : Option V → B) (os : List (Option V)) (i : ℕ) (o : Option V)
      → get_elem? os i ≡ some o
      → get_elem? (map g os) i ≡ some (g o)
  get_elem?-map_at g [] i o h = absurd (cc h)
  get_elem?-map_at g (p ∷ os) zero o h =
      ap (λ (q : Option (Option V)). elim q [ none ↦ some (g p) | some r ↦ some (g r) ]) h
  get_elem?-map_at g (p ∷ os) (suc i) o h = get_elem?-map_at g os i o h

  filled_slot :
      (nil : V) (os : List (Option V)) (i : ℕ) (o : Option V)
      → get_elem? os i ≡ some o
      → get_elem? (slots_of nil os).filled i ≡ some (is_some o)
  unfolding slots_of
  filled_slot nil os i o h = get_elem?-map_at is_some os i o h

  set-map_at {ℓ} :
      {B : Type ℓ} (g : Option V → B) (os : List (Option V)) (i : ℕ) (p : Option V)
      → set (map g os) i (g p) ≡ map g (set os i p)
  set-map_at g [] i p = refl
  set-map_at g (q ∷ os) zero p = refl
  set-map_at g (q ∷ os) (suc i) p = ap (λ t. g q ∷ t) (set-map_at g os i p)

  length-somes_at :
      (os : List (Option V)) (i : ℕ) (v : V)
      → get_elem? os i ≡ some none
      → length (somes os) + 1 ≡ length (somes (set os i (some v)))
  unfolding somes
  length-somes_at [] i v h = absurd (cc h)
  length-somes_at (none ∷ os) zero v h = omega arith
  length-somes_at (some w ∷ os) zero v h = absurd (cc h)
  length-somes_at (none ∷ os) (suc i) v h = length-somes_at os i v h
  length-somes_at (some w ∷ os) (suc i) v h = omega (arith, length-somes_at os i v h)

  fill-slots_at :
      (nil v : V) (os : List (Option V)) (i : ℕ)
      → get_elem? os i ≡ some none
      → fill i v (slots_of nil os) ≡ slots_of nil (set os i (some v))
  unfolding slots_of is_some or_nil
  fill-slots_at nil v os i h = λ t. record {
    values = set-map_at (or_nil nil) os i (some v) t;
    filled = set-map_at is_some os i (some v) t;
    total = length-somes_at os i v h t;
  }

  -- The slots, their flags and their counter are the options.
  pub place_block_value-give :
      (nil v : V) (os : List (Option V)) (i : ℕ) (name : Option Runes) (n : Runes)
      → i < length os
      → name ≡ some n
      → place_block_value name i v (slots_of nil os)
        ≡ (give v os (i, n) >>= λ os'. ok (slots_of nil os'))
  unfolding place_block_value give
  place_block_value-give nil v os i name n h e =
      let (o, at) = found_at os i h in
      ap (place_by_flag name i v (slots_of nil os)) (filled_slot nil os i o at)
      ∙ (by_option o at ∙ ap (λ q. give_to v os (i, n) q >>= λ os'. ok (slots_of nil os')) (sym at))
    where
      by_option :
          (o : Option V)
          → get_elem? os i ≡ some o
          → place_by_flag name i v (slots_of nil os) (some (is_some o))
            ≡ (give_to v os (i, n) (some o) >>= λ os'. ok (slots_of nil os'))
      by_option none at =
          unfold place_by_flag give_to is_some in ap ok (fill-slots_at nil v os i at)
      by_option (some w) at = unfold place_by_flag give_to is_some in rw e

  pub length-give :
      (v : V) (os os' : List (Option V)) (slot : ℕ × Runes)
      → give v os slot ≡ ok os'
      → length os' ≡ length os
  unfolding give
  length-give v os os' (i, n) h = go (get_elem? os i) h
    where
      size : Outcome Error (List (Option V)) → ℕ
      size (ok xs) = length xs
      size (err e) = 0
      size panic = 0
      size stuck = 0

      go : (o : Option (Option V)) → give_to v os (i, n) o ≡ ok os' → length os' ≡ length os
      go none k = ap size (sym k) ∙ length-set {A = Option V} os i (some v)
      go (some none) k = ap size (sym k) ∙ length-set {A = Option V} os i (some v)
      go (some (some w)) k = absurd (cc k)
