-- ===== src/Naming/Paths.antt =====
-- `GetNode` of internal/driver/network/naming/nv.go follows the names of a path.
use go_oracledb.Base.{
  ℕ, suc, ◌≤◌, ◌≡◌, ◌≢◌, Option-cases, ◌↔◌, inl, inr, refl, sym, ap, ◌∙◌, none, some, List, [], ◌∷◌,
  ◌++◌, length, map, All, arith, ne→==_false,
}
use mathlib.Core.Logic.{if_pos, if_neg}
use mathlib.Core.Path.{subst}
use mathlib.Core.Option.{some-injective}
use go_oracledb.Base.Runes.{Runes, runes_eq}
use go_oracledb.Base.Outcome.{ok, err}
use go_oracledb.Naming.Node.{
  Error, Node, Nodes, nil, cons, node_name, children_of, find_child, descend, parse_values,
}
use go_oracledb.Naming.Parser.{split_path, get_parts, get_node}

-- The first node of a name.
pub data FirstOf (name : Runes) : Nodes → Node → Type 0 where
  at_head : {n : Node} {ns : Nodes} → node_name n ≡ name → FirstOf name (cons n ns) n
  further :
      {m n : Node} {ns : Nodes}
      → node_name m ≢ name
      → FirstOf name ns n
      → FirstOf name (cons m ns) n

-- A node and one below it, with the names on the way, none of them empty.
pub data Leads : List Runes → Node → Node → Type 0 where
  here : {n : Node} → Leads [] n n
  through :
      {c : ℕ} {part : Runes} {parts : List Runes} {n child m : Node}
      → FirstOf (c ∷ part) (children_of n) child
      → Leads parts child m
      → Leads ((c ∷ part) ∷ parts) n m

-- Names with slashes between them.
abbrev pub join : Runes → List Runes → Runes
join name [] = name
join name (other ∷ names) = name ++ (b'/' ∷ join other names)

find_child-FirstOf :
    (name : Runes) (ns : Nodes) (n : Node) → find_child name ns ≡ some n → FirstOf name ns n
unfolding find_child
find_child-FirstOf name nil n h = absurd (cc)
find_child-FirstOf name (cons m ns) n h = elim (runes_eq (node_name m) name) [
  | yes e ↦
      subst (λ x. FirstOf name (cons m ns) x)
        (some-injective m n
          (sym (if_pos (runes_eq (node_name m) name) e (some m) (find_child name ns)) ∙ h))
        (at_head e)
  | no e ↦ further e (
      find_child-FirstOf name ns n
        (sym (if_neg (runes_eq (node_name m) name) e (some m) (find_child name ns)) ∙ h))
]

FirstOf-find_child :
    (name : Runes) (ns : Nodes) (n : Node) → FirstOf name ns n → find_child name ns ≡ some n
unfolding find_child
FirstOf-find_child name nil n h = elim h [ ]
FirstOf-find_child name (cons n ns) _ (at_head e) =
    if_pos (runes_eq (node_name n) name) e (some n) (find_child name ns)
FirstOf-find_child name (cons m ns) n (further e h) =
    if_neg (runes_eq (node_name m) name) e (some m) (find_child name ns)
    ∙ FirstOf-find_child name ns n h

descend_found :
    (path : Runes) (i c : ℕ) (part : Runes) (parts : List Runes) (n child : Node)
    → find_child (c ∷ part) (children_of n) ≡ some child
    → descend path i ((c ∷ part) ∷ parts) n ≡ descend path (suc i) parts child
unfolding descend
descend_found path i c part parts n child e = rw (e, descend)

Leads-descend :
    (path : Runes) (i : ℕ) (parts : List Runes) (n m : Node)
    → Leads parts n m
    → descend path i parts n ≡ ok m
unfolding descend
Leads-descend path i [] n _ here = refl
Leads-descend path i ([] ∷ parts) n m h = elim h [ ]
Leads-descend path i ((c ∷ part) ∷ parts) n m (through {child = child} first rest) =
    descend_found path i c part parts n child
      (FirstOf-find_child (c ∷ part) (children_of n) child first)
    ∙ Leads-descend path (suc i) parts child m rest

descend_missing :
    (path : Runes) (i c : ℕ) (part : Runes) (parts : List Runes) (n m : Node)
    → find_child (c ∷ part) (children_of n) ≡ none
    → descend path i ((c ∷ part) ∷ parts) n ≢ ok m
unfolding descend
descend_missing path i c part parts n m e = rw (e, descend) (λ k. cc)

descend-Leads :
    (path : Runes) (i : ℕ) (parts : List Runes) (n m : Node)
    → descend path i parts n ≡ ok m
    → Leads parts n m
unfolding descend
descend-Leads path i [] n m h = subst (λ x. Leads [] n x) (cc) here
descend-Leads path i ([] ∷ parts) n m h = absurd (cc)
descend-Leads path i ((c ∷ part) ∷ parts) n m h =
    elim (Option-cases (find_child (c ∷ part) (children_of n))) [
      | inl e ↦ absurd (descend_missing path i c part parts n m e h)
      | inr (child, e) ↦ through (find_child-FirstOf (c ∷ part) (children_of n) child e) (
          descend-Leads path (suc i) parts child m
            (sym (descend_found path i c part parts n child e) ∙ h))
    ]

split_path-end : (name : Runes) → All (λ c. c ≢ b'/') name → split_path name ≡ name ∷ []
unfolding split_path
split_path-end [] h = refl
split_path-end (c ∷ name) h = rw (ne→==_false c b'/' h.0, split_path-end name h.1)

split_path-append :
    (name rest : Runes)
    → All (λ c. c ≢ b'/') name
    → split_path (name ++ (b'/' ∷ rest)) ≡ name ∷ split_path rest
unfolding split_path
split_path-append [] rest h = refl
split_path-append (c ∷ name) rest h = rw (ne→==_false c b'/' h.0, split_path-append name rest h.1)

-- Splitting undoes joining.
split_path-join :
    (name : Runes) (names : List Runes)
    → All (λ c. c ≢ b'/') name
    → All (All (λ c. c ≢ b'/')) names
    → split_path (join name names) ≡ name ∷ names
split_path-join name [] h hs = split_path-end name h
split_path-join name (other ∷ names) h hs =
    split_path-append name (join other names) h
    ∙ ap (λ t. name ∷ t) (split_path-join other names hs.0 hs.1)

get_node_lem :
    (to_upper : ℕ → ℕ) (n : Node) (name : Runes) (names : List Runes)
    → 1 ≤ length name
    → All (λ c. c ≢ b'/') name
    → All (All (λ c. c ≢ b'/')) names
    → get_node to_upper n (join name names)
      ≡ get_parts to_upper (join name names) n (map to_upper name ∷ map (map to_upper) names)
unfolding get_node
get_node_lem to_upper n [] names positive h hs = absurd (omega arith)
get_node_lem to_upper n (c ∷ name) [] positive h hs = rw (split_path-join (c ∷ name) [] h hs)
get_node_lem to_upper n (c ∷ name) (other ∷ names) positive h hs =
    rw (split_path-join (c ∷ name) (other ∷ names) h hs)

err_ne_ok : {e : Error} {m : Node} → err e ≢ ok m
err_ne_ok h = cc

get_parts_lem :
    (to_upper : ℕ → ℕ) (path part : Runes) (parts : List Runes) (n m : Node)
    → (get_parts to_upper path n (part ∷ parts) ≡ ok m) ↔ ((part ≡ node_name n) × Leads parts n m)
unfolding get_parts
get_parts_lem to_upper path part parts n m =
    let here = descend path 1 parts n in
    let wrong = err (parse_values part (node_name n)) in
    elim (runes_eq part (node_name n)) [
      | yes e ↦
          let taken = if_pos (runes_eq part (node_name n)) e here wrong in
          (
            λ h. (e, descend-Leads path 1 parts n m (sym taken ∙ h)),
            λ h. taken ∙ Leads-descend path 1 parts n m h.1,
          )
      | no e ↦
          let refused = if_neg (runes_eq part (node_name n)) e here wrong in
          (λ h. absurd (err_ne_ok (sym refused ∙ h)), λ h. absurd (e h.0))
    ]

-- `GetNode` with names joined by slashes gives a node exactly where, in upper case, the first name is the
-- root's and the others lead from the root to the node, by the first child of each name.
pub get_node-Leads :
    (to_upper : ℕ → ℕ) (n m : Node) (name : Runes) (names : List Runes)
    → 1 ≤ length name
    → All (λ c. c ≢ b'/') name
    → All (All (λ c. c ≢ b'/')) names
    → (get_node to_upper n (join name names) ≡ ok m)
      ↔ ((map to_upper name ≡ node_name n) × Leads (map (map to_upper) names) n m)
get_node-Leads to_upper n m name names positive h hs =
    rw (get_node_lem to_upper n name names positive h hs)
      (get_parts_lem to_upper (join name names) (map to_upper name) (map (map to_upper) names) n m)
