-- ===== src/Naming/Node.antt =====
-- `Node` of internal/driver/network/naming/nv.go, its text, and the search by path.
use go_oracledb.Base.{
  ℕ, suc, Bool, true, false, ◌||◌, not, Option, none, some, List, [], ◌∷◌, ◌++◌, length, ◌==◌,
  if◌then◌else◌,
}
use go_oracledb.Base.Runes.{Runes, runes_eq}
use mathlib.Core.Logic.{ite}
use go_oracledb.Base.Outcome.{Outcome, ok, err}

-- The error codes of the file.
pub data Error : Type 0 where
  input_missing tokens_missing parse_failed : Error
  parse_position unexpected_closing_parenthesis : ℕ → Error
  parse_bounds : ℕ → ℕ → Error
  parse_value parse_path : Runes → Error
  parse_values : Runes → Runes → Error
  parse_path_segment : Runes → Runes → ℕ → Error

mutual
  pub data Node : Type 0 where
    node : Runes → Runes → Nodes → Node

  -- `[]Node`.
  pub data Nodes : Type 0 where
    nil : Nodes
    cons : Node → Nodes → Nodes

abbrev pub node_name : Node → Runes
node_name (node name value children) = name

abbrev pub node_value : Node → Runes
node_value (node name value children) = value

abbrev pub children_of : Node → Nodes
children_of (node name value children) = children

-- `append`.
unfoldable pub append_node : Nodes → Node → Nodes
append_node nil n = cons n nil
append_node (cons m ms) n = cons m (append_node ms n)

abbrev is_nil : Nodes → Bool
is_nil nil = true
is_nil (cons n ns) = false

-- The text between a name and the children.
abbrev pub value_text : Runes → Nodes → Runes
value_text value children =
    if not (length value == 0) || not (is_nil children) then b'=' ∷ value else value

-- `ToString`.
unfoldable mutual
  pub to_string : Node → Runes
  to_string (node name value children) =
      b'(' ∷ (name ++ (value_text value children ++ (to_strings children ++ (b')' ∷ []))))

  pub to_strings : Nodes → Runes
  to_strings nil = []
  to_strings (cons n ns) = to_string n ++ to_strings ns

-- The first child of a name.
unfoldable pub find_child : Runes → Nodes → Option Node
unfolding runes_eq
find_child name nil = none
find_child name (cons n ns) = ite (runes_eq (node_name n) name) (some n) (find_child name ns)

-- The loop of `GetNode` over the parts of the path behind the first, the `i`-th of them first.
unfoldable pub descend : Runes → ℕ → List Runes → Node → Outcome Error Node
unfolding find_child
descend path i [] n = ok n
descend path i ([] ∷ parts) n = err (parse_path_segment [] path i)
descend path i ((c ∷ part) ∷ parts) n = elim (find_child (c ∷ part) (children_of n)) [
  | none ↦ err (parse_path_segment (c ∷ part) path i)
  | some child ↦ descend path (suc i) parts child
]
