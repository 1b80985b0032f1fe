-- ===== src/Sql/Names.antt =====
-- Where the names of placeholders stand, and the numbers of the different ones
-- (internal/driver/ttc/sql_namedvalue_parser.go).
use go_oracledb.Base.{
  ℕ, suc, ◌+◌, ◌^◌, ◌≤◌, ◌≡◌, refl, ap, Bool, true, false, Option, none, some, List, [], ◌∷◌, ◌++◌,
  length, arith,
}
use go_oracledb.Base.Dict.{find}
use go_oracledb.Base.Runes.{Runes, runes_eq}
use go_oracledb.Sql.Scan.{BindDetails}
use mathlib.Core.Logic.{ite, if_pos, if_neg}

-- Where `name` stands in the list, counted from `i`.
unfoldable pub positions : Runes → ℕ → List Runes → List ℕ
positions name i [] = []
positions name i (n ∷ ns) =
    let rest = positions name (suc i) ns in ite (runes_eq n name) (i ∷ rest) rest

abbrev pub non_empty : List ℕ → Option (List ℕ)
non_empty [] = none
non_empty (i ∷ l) = some (i ∷ l)

-- The place of the first `name`, counted from `i`.
unfoldable pub index_from : Runes → ℕ → List Runes → Option ℕ
index_from name i [] = none
index_from name i (n ∷ ns) =
    let rest = index_from name (suc i) ns in ite (runes_eq n name) (some i) rest

abbrev pub add_new : List Runes → Runes → List Runes
add_new seen name = elim (index_from name 0 seen) [ none ↦ seen ++ (name ∷ []) | some i ↦ seen ]

-- The different names, each where it comes first.
unfoldable pub distinct_from : List Runes → List Runes → List Runes
distinct_from seen [] = seen
distinct_from seen (n ∷ ns) = distinct_from (add_new seen n) ns

abbrev pub distinct : List Runes → List Runes
distinct ns = distinct_from [] ns

abbrev pub is_none {ℓ} : {A : Type ℓ} → Option A → Bool
is_none none = true
is_none (some a) = false

pub record IsBindDetails (d : BindDetails) : Type 0 where
  pub map :
      (name : Runes) → find runes_eq name d.bind_map ≡ non_empty (positions name 0 d.bind_names)
  pub unique :
      (name : Runes) → find runes_eq name d.unique_names ≡ index_from name 0 (distinct d.bind_names)
  pub known :
      (name : Runes)
      → is_none (find runes_eq name d.bind_map)
        ≡ is_none (index_from name 0 (distinct d.bind_names))
  pub count : length d.unique_names ≡ length (distinct d.bind_names)
  pub fits : length d.bind_names ≤ 2 ^ 16

pub positions-append :
    (name n : Runes) (i : ℕ) (ns : List Runes)
    → positions name i (ns ++ (n ∷ []))
      ≡ positions name i ns ++ positions name (i + length ns) (n ∷ [])
unfolding positions
positions-append name n i [] = ap (λ (k : ℕ). ite (runes_eq n name) (k ∷ []) []) (omega arith)
positions-append name n i (m ∷ ns) = elim (runes_eq m name) [
  | yes e ↦
      rw (if_pos _ e, if_pos (runes_eq m name) e, positions-append name n (suc i) ns)
        (ap (λ (k : ℕ). i ∷ positions name (suc i) ns ++ positions name k (n ∷ [])) (omega arith))
  | no e ↦
      rw (if_neg _ e, if_neg (runes_eq m name) e, positions-append name n (suc i) ns)
        (ap (λ (k : ℕ). positions name (suc i) ns ++ positions name k (n ∷ [])) (omega arith))
]

unfoldable pub or_else : Option ℕ → Option ℕ → Option ℕ
or_else none o = o
or_else (some i) o = some i

pub index_from-append :
    (name n : Runes) (i : ℕ) (ns : List Runes)
    → index_from name i (ns ++ (n ∷ []))
      ≡ or_else (index_from name i ns) (index_from name (i + length ns) (n ∷ []))
unfolding index_from
index_from-append name n i [] =
    unfold or_else in ap (λ (k : ℕ). ite (runes_eq n name) (some k) none) (omega arith)
index_from-append name n i (m ∷ ns) = elim (runes_eq m name) [
  | yes e ↦ rw (if_pos _ e, if_pos (runes_eq m name) e) (unfold or_else in refl)
  | no e ↦
      rw (if_neg _ e, if_neg (runes_eq m name) e, index_from-append name n (suc i) ns)
        (ap (λ (k : ℕ). or_else (index_from name (suc i) ns) (index_from name k (n ∷ [])))
          (omega arith))
]

pub distinct_from-append :
    (n : Runes) (seen ns : List Runes)
    → distinct_from seen (ns ++ (n ∷ [])) ≡ add_new (distinct_from seen ns) n
unfolding distinct_from
distinct_from-append n seen [] = refl
distinct_from-append n seen (m ∷ ns) = distinct_from-append n (add_new seen m) ns

pub non_empty-append : (l : List ℕ) (i : ℕ) → non_empty (l ++ (i ∷ [])) ≡ some (l ++ (i ∷ []))
non_empty-append [] i = refl
non_empty-append (j ∷ l) i = refl
