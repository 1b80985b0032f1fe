-- ===== src/Naming/Parser.antt =====
-- `Parse`, `parseIterative` and `GetNode` of internal/driver/network/naming/nv.go. `strings.ToUpper` maps
-- each rune by the parameter `to_upper`.
use go_oracledb.Base.{
  ℕ, suc, ◌+◌, Bool, false, ◌||◌, Option, none, some, List, [], ◌∷◌, length, map, ◌==◌,
  if◌then◌else◌,
}
use go_oracledb.Base.Runes.{Runes, runes_eq, trim_space}
use mathlib.Core.Logic.{ite}
use go_oracledb.Base.Outcome.{Outcome, ok, err, ◌>>=◌}
use go_oracledb.Naming.Node.{
  Error, input_missing, tokens_missing, parse_failed, parse_position,
  unexpected_closing_parenthesis, parse_bounds, parse_value, parse_values, parse_path, Node, node,
  nil, append_node, node_name, node_value, descend,
}
use go_oracledb.Naming.Lexer.{tokenize}

-- `strings.SplitN(token, "=", 2)`, `none` without a `=`.
unfoldable pub split_equals : Runes → Option (Runes × Runes)
split_equals [] = none
split_equals (c ∷ r) =
    let rest = split_equals r in
    if c == b'=' then some ([], r) else elim rest [ none ↦ none | some (a, b) ↦ some (c ∷ a, b) ]

-- The text without the quote at its end.
unfoldable pub before_quote : Runes → Option Runes
before_quote [] = none
before_quote (c ∷ []) = if c == b'"' then some [] else none
before_quote (c ∷ (d ∷ r)) = elim (before_quote (d ∷ r)) [ none ↦ none | some s ↦ some (c ∷ s) ]

-- A single pair of wrapping quotes is removed.
unfoldable pub unquote : Runes → Runes
unfolding before_quote
unquote [] = []
unquote (c ∷ r) = if c == b'"' then elim (before_quote r) [ none ↦ c ∷ r | some s ↦ s ] else c ∷ r

-- Whether a token is the parenthesis `c`.
abbrev pub is_rune : ℕ → Runes → Bool
is_rune c [] = false
is_rune c (d ∷ []) = d == c
is_rune c (d ∷ (e ∷ r)) = false

-- `root`: no node yet, the node at the bottom of the stack, or a node that is closed. The pointer is to
-- the first node that was opened, which gets its children while it stands on the stack.
pub data Root : Type 0 where
  unset on_stack : Root
  closed : Node → Root

-- `if root == nil { root = node }`.
abbrev pub opened : Root → Root
opened unset = on_stack
opened on_stack = on_stack
opened (closed n) = closed n

-- The root once the bottom of the stack, `n`, is closed.
abbrev pub closed_bottom : Root → Node → Root
closed_bottom unset n = unset
closed_bottom on_stack n = closed n
closed_bottom (closed m) n = closed m

abbrev pub add_child : Node → Node → Node
add_child (node name value children) n = node name value (append_node children n)

-- The stack and the root once the top of the stack is closed; `none` where the stack is empty.
unfoldable pub close_top : List Node → Root → Option (List Node × Root)
close_top [] root = none
close_top (n ∷ []) root = some ([], closed_bottom root n)
close_top (n ∷ (parent ∷ below)) root = some (add_child parent n ∷ below, root)

-- The tests behind the loop.
unfoldable pub finish : List Node → Root → Outcome Error Node
finish [] unset = err parse_failed
finish [] on_stack = err parse_failed
finish [] (closed n) = ok n
finish (n ∷ stack) root = err (parse_bounds (suc (length stack)) 0)

-- `strings.Split(path, "/")`.
unfoldable pub split_path : Runes → List Runes
split_path [] = [] ∷ []
split_path (c ∷ r) =
    let rest = split_path r in
    if c == b'/' then [] ∷ rest else elim rest [ [] ↦ (c ∷ []) ∷ [] | p ∷ ps ↦ (c ∷ p) ∷ ps ]

module _ (to_upper : ℕ → ℕ) where
  -- `parseNameValue`.
  unfoldable pub parse_name_value : Runes → Runes × Runes
  unfolding split_equals unquote
  parse_name_value token = elim (split_equals token) [
    | none ↦ (map to_upper token, [])
    | some (name, value) ↦ (map to_upper name, unquote value)
  ]

  -- The node of a name token.
  unfoldable pub new_node : Runes → Node
  unfolding parse_name_value
  new_node token = let (name, value) = parse_name_value token in node name value nil

  -- The loop of `parseIterative` at token `i`; the top of the stack is its first node.
  unfoldable pub parse_tokens : ℕ → List Runes → List Node → Root → Outcome Error Node
  unfolding finish new_node close_top
  parse_tokens i [] stack root = finish stack root
  parse_tokens i (t ∷ []) stack root =
      if is_rune b'(' t
      then err (parse_position i)
      else if is_rune b')' t
      then elim (close_top stack root) [
        | none ↦ err (unexpected_closing_parenthesis i)
        | some (stack', root') ↦ finish stack' root'
      ]
      else err (parse_value t)
  parse_tokens i (t ∷ (name ∷ ts)) stack root =
      let opening = parse_tokens (i + 2) ts (new_node name ∷ stack) (opened root) in
      if is_rune b'(' t
      then (if is_rune b'(' name || is_rune b')' name then err (parse_value name) else opening)
      else if is_rune b')' t
      then elim (close_top stack root) [
        | none ↦ err (unexpected_closing_parenthesis i)
        | some (stack', root') ↦ parse_tokens (i + 1) (name ∷ ts) stack' root'
      ]
      else err (parse_value t)

  -- `parseIterative`.
  unfoldable pub parse_iterative : List Runes → Outcome Error Node
  unfolding parse_tokens
  parse_iterative [] = err tokens_missing
  parse_iterative (t ∷ ts) = parse_tokens 0 (t ∷ ts) [] unset

  -- `Parse`.
  unfoldable pub parse : Runes → Outcome Error Node
  unfolding trim_space tokenize parse_iterative
  parse text =
      let trimmed = trim_space text in
      if length trimmed == 0 then err input_missing else parse_iterative (tokenize trimmed)

  -- `GetNode`, with the path in its parts.
  unfoldable pub get_parts : Runes → Node → List Runes → Outcome Error Node
  unfolding descend runes_eq
  get_parts path n [] = err (parse_path path)
  get_parts path n (p ∷ ps) =
      ite (runes_eq p (node_name n)) (descend path 1 ps n) (err (parse_values p (node_name n)))

  unfoldable pub get_node : Node → Runes → Outcome Error Node
  unfolding split_path get_parts
  get_node n [] = err input_missing
  get_node n (c ∷ path) = get_parts (c ∷ path) n (map (map to_upper) (split_path (c ∷ path)))

  -- `GetValue`.
  unfoldable pub get_value : Node → Runes → Outcome Error Runes
  unfolding get_node
  get_value n path = do
    m ← get_node n path
    if length (node_value m) == 0 then err (parse_path path) else ok (node_value m)
