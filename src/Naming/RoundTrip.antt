-- ===== src/Naming/RoundTrip.antt =====
-- `Parse` of internal/driver/network/naming/nv.go reads what `ToString` writes.
use go_oracledb.Base.{
  ℕ, suc, ◌+◌, ◌≤◌, ◌≡◌, refl, ap, ◌∙◌, ◌⊎◌, true, false, none, some, List, [], ◌∷◌, ◌++◌,
  append-nil, append_assoc, length, map, All, arith, inl, inr, ne→==_false,
}
use go_oracledb.Base.Runes.{Runes, trim_space}
use go_oracledb.Base.Outcome.{Outcome, ok}
use go_oracledb.Naming.Node.{
  Error, Node, Nodes, node, nil, cons, append_node, value_text, to_string, to_strings,
}
use go_oracledb.Naming.Lexer.{tokenize}
use go_oracledb.Naming.Trim.{
  in_value, in_name, IsName, IsValue, in_name_ne_equals, in_value_ne_quote,
}
use go_oracledb.Naming.Tokens.{
  tokens_of, tokens_of_nodes, IsNode, IsNodes, tokenize-to_strings, to_strings_trim,
}
use go_oracledb.Naming.Parser.{
  split_equals, unquote, is_rune, Root, unset, on_stack, closed, opened, close_top, finish,
  parse_name_value, new_node, parse_tokens, parse_iterative, parse,
}

split_equals-name :
    (name rest : Runes)
    → All (λ c. in_name c ≡ true) name
    → split_equals (name ++ (b'=' ∷ rest)) ≡ some (name, rest)
unfolding split_equals
split_equals-name [] rest h = refl
split_equals-name (c ∷ name) rest h = rw (in_name_ne_equals c h.0, split_equals-name name rest h.1)

split_equals-none : (name : Runes) → All (λ c. in_name c ≡ true) name → split_equals name ≡ none
unfolding split_equals
split_equals-none [] h = refl
split_equals-none (c ∷ name) h = rw (in_name_ne_equals c h.0, split_equals-none name h.1)

unquote-value : (value : Runes) → All (λ c. in_value c ≡ true) value → unquote value ≡ value
unfolding unquote
unquote-value [] h = refl
unquote-value (c ∷ value) h = rw (in_value_ne_quote c h.0)

is_rune-token :
    (side : ℕ) (name rest : Runes)
    → IsName name
    → (side ≡ b'(') ⊎ (side ≡ b')')
    → is_rune side (name ++ rest) ≡ false
unfolding in_name in_value
is_rune-token side [] rest n h = absurd (omega (arith, n.0))
is_rune-token side (c ∷ []) [] n h = ground (arith, n.1.0)
is_rune-token side (c ∷ []) (d ∷ rest) n h = refl
is_rune-token side (c ∷ (d ∷ name)) rest n h = refl

-- `append` of several nodes.
unfoldable append_nodes : Nodes → Nodes → Nodes
append_nodes acc nil = acc
append_nodes acc (cons n ns) = append_nodes (append_node acc n) ns

opened_twice : (root : Root) → opened (opened root) ≡ opened root
opened_twice unset = refl
opened_twice on_stack = refl
opened_twice (closed n) = refl

append_nodes-cons :
    (n : Node) (acc ns : Nodes) → append_nodes (cons n acc) ns ≡ cons n (append_nodes acc ns)
unfolding append_nodes append_node
append_nodes-cons n acc nil = refl
append_nodes-cons n acc (cons m ns) = append_nodes-cons n (append_node acc m) ns

append_nodes-nil : (ns : Nodes) → append_nodes nil ns ≡ ns
unfolding append_nodes append_node
append_nodes-nil nil = refl
append_nodes-nil (cons n ns) = append_nodes-cons n nil ns ∙ ap (cons n) (append_nodes-nil ns)

module _ (to_upper : ℕ → ℕ) where
  -- A node with its names, but not its values, in upper case.
  unfoldable mutual
    pub upper : Node → Node
    upper (node name value ns) = node (map to_upper name) value (uppers ns)

    pub uppers : Nodes → Nodes
    uppers nil = nil
    uppers (cons n ns) = cons (upper n) (uppers ns)

  new_node-equals :
      (token name value : Runes)
      → split_equals token ≡ some (name, value)
      → new_node to_upper token ≡ node (map to_upper name) (unquote value) nil
  unfolding new_node parse_name_value
  new_node-equals token name value h = rw (h, parse_name_value)

  new_node-none :
      (token : Runes)
      → split_equals token ≡ none
      → new_node to_upper token ≡ node (map to_upper token) [] nil
  unfolding new_node parse_name_value
  new_node-none token h = rw (h, parse_name_value)

  -- The token of a node gives the node without its children.
  new_node_lem :
      (name value : Runes) (ns : Nodes)
      → IsName name
      → IsValue value
      → new_node to_upper (name ++ value_text value ns) ≡ node (map to_upper name) value nil
  new_node_lem name [] nil n v =
      ap (new_node to_upper) (append-nil name) ∙ new_node-none name (split_equals-none name n.1)
  new_node_lem name [] (cons m ns) n v =
      new_node-equals (name ++ (b'=' ∷ [])) name [] (split_equals-name name [] n.1)
      ∙ (unfold unquote in refl)
  new_node_lem name (c ∷ value) ns n v =
      rw (ne→==_false (suc (length value)) 0 (λ e. omega arith)) (
        new_node-equals (name ++ (b'=' ∷ (c ∷ value))) name (c ∷ value)
          (split_equals-name name (c ∷ value) n.1)
        ∙ ap (λ v. node (map to_upper name) v nil) (unquote-value (c ∷ value) v.1))

  -- The loop goes on at some later token with the stack and the root.
  abbrev Reaches : Outcome Error Node → List Runes → List Node → Root → Type 0
  Reaches result ts stack root = (k : ℕ) × (result ≡ parse_tokens to_upper k ts stack root)

  open_step :
      (i : ℕ) (name : Runes) (ts : List Runes) (stack : List Node) (root : Root)
      → is_rune b'(' name ≡ false
      → is_rune b')' name ≡ false
      → parse_tokens to_upper i ((b'(' ∷ []) ∷ (name ∷ ts)) stack root
        ≡ parse_tokens to_upper (i + 2) ts (new_node to_upper name ∷ stack) (opened root)
  unfolding parse_tokens
  open_step i name ts stack root h h' = rw (h, h')

  close_step :
      (i : ℕ) (ts : List Runes) (stack stack' : List Node) (root root' : Root)
      → close_top stack root ≡ some (stack', root')
      → parse_tokens to_upper i ((b')' ∷ []) ∷ ts) stack root
        ≡ parse_tokens to_upper (i + 1) ts stack' root'
  unfolding parse_tokens
  close_step i [] stack stack' root root' h = rw h
  close_step i (t ∷ ts) stack stack' root root' h = rw h

  mutual
    unfolding tokens_of IsNode upper append_nodes close_top

    parse_node :
        (n : Node) (i : ℕ) (ts : List Runes) (stack stack' : List Node) (root root' : Root)
        → IsNode n
        → close_top (upper n ∷ stack) (opened root) ≡ some (stack', root')
        → Reaches (parse_tokens to_upper i (tokens_of n ++ ts) stack root) ts stack' root'
    parse_node (node name value ns) i ts stack stack' root root' h close =
        let token = name ++ value_text value ns in
        let after = (b')' ∷ []) ∷ ts in
        let (k, inner) =
          parse_nodes ns (i + 2) after (map to_upper name) value nil stack (opened root)
            (opened_twice root) h.2 in
        (
          k + 1,
          ap (λ t. parse_tokens to_upper i ((b'(' ∷ []) ∷ (token ∷ t)) stack root)
                (append_assoc (tokens_of_nodes ns) ((b')' ∷ []) ∷ []) ts)
              ∙ open_step i token (tokens_of_nodes ns ++ after) stack root
                  (is_rune-token b'(' name (value_text value ns) h.0 (inl refl))
                  (is_rune-token b')' name (value_text value ns) h.0 (inr refl))
              ∙ ap
                  (λ m.
                    parse_tokens to_upper (i + 2) (tokens_of_nodes ns ++ after) (m ∷ stack)
                      (opened root))
                  (new_node_lem name value ns h.0 h.1)
              ∙ inner
              ∙ ap
                  (λ c.
                    parse_tokens to_upper k after (node (map to_upper name) value c ∷ stack)
                      (opened root))
                  (append_nodes-nil (uppers ns))
              ∙ close_step k ts (upper (node name value ns) ∷ stack) stack' (opened root) root'
                  close,
        )

    parse_nodes :
        (ns : Nodes) (i : ℕ) (ts : List Runes) (name value : Runes) (acc : Nodes)
        (stack : List Node) (root : Root)
        → opened root ≡ root
        → IsNodes ns
        → Reaches
            (parse_tokens to_upper i (tokens_of_nodes ns ++ ts) (node name value acc ∷ stack) root)
            ts
            (node name value (append_nodes acc (uppers ns)) ∷ stack)
            root
    parse_nodes nil i ts name value acc stack root same h = (i, refl)
    parse_nodes (cons n ns) i ts name value acc stack root same h =
        let grown = node name value (append_node acc (upper n)) ∷ stack in
        let (j, first) =
          parse_node n i (tokens_of_nodes ns ++ ts) (node name value acc ∷ stack) grown root root
            h.0 (ap (λ r. some (grown, r)) same) in
        let (k, others) =
          parse_nodes ns j ts name value (append_node acc (upper n)) stack root same h.1 in
        (
          k,
          ap (λ t. parse_tokens to_upper i t (node name value acc ∷ stack) root)
                (append_assoc (tokens_of n) (tokens_of_nodes ns) ts)
              ∙ first
              ∙ others,
        )

  -- Descriptors behind the first one are read and dropped.
  parse_others :
      (ns : Nodes) (i : ℕ) (n : Node)
      → IsNodes ns
      → parse_tokens to_upper i (tokens_of_nodes ns) [] (closed n) ≡ ok n
  unfolding tokens_of IsNode parse_tokens finish close_top
  parse_others nil i n h = refl
  parse_others (cons m ns) i n h =
      let (k, others) = parse_node m i (tokens_of_nodes ns) [] [] (closed n) (closed n) h.0 refl in
      others ∙ parse_others ns k n h.1

  parse_iterative_lem :
      (n : Node) (rest : List Runes)
      → parse_iterative to_upper (tokens_of n ++ rest)
        ≡ parse_tokens to_upper 0 (tokens_of n ++ rest) [] unset
  unfolding parse_iterative tokens_of
  parse_iterative_lem (node name value ns) rest = refl

  parse_iterative-tokens_of :
      (n : Node) (ns : Nodes)
      → IsNode n
      → IsNodes ns
      → parse_iterative to_upper (tokens_of n ++ tokens_of_nodes ns) ≡ ok (upper n)
  parse_iterative-tokens_of n ns h hs =
      let (k, first) =
        parse_node n 0 (tokens_of_nodes ns) [] [] unset (closed (upper n)) h
          (unfold close_top in refl) in
      parse_iterative_lem n (tokens_of_nodes ns) ∙ first ∙ parse_others ns k (upper n) hs

  parse_lem :
      (text : Runes)
      → trim_space text ≡ text
      → 1 ≤ length text
      → parse to_upper text ≡ parse_iterative to_upper (tokenize text)
  unfolding parse
  parse_lem text same positive = rw (same, ne→==_false (length text) 0 (λ e. omega arith))

  to_strings-length : (n : Node) (ns : Nodes) → 1 ≤ length (to_strings (cons n ns))
  unfolding to_string
  to_strings-length (node name value ms) ns = omega arith

  -- `Parse` of the text of nodes is the first of them, its names in upper case and the others dropped, where
  -- names are not empty and have no white space, parentheses, quotes or `=`, and where values have no
  -- parentheses or quotes, nor white space at their end.
  pub parse-to_strings :
      (n : Node) (ns : Nodes)
      → IsNode n
      → IsNodes ns
      → parse to_upper (to_strings (cons n ns)) ≡ ok (upper n)
  parse-to_strings n ns h hs =
      parse_lem (to_strings (cons n ns)) (to_strings_trim n ns) (to_strings-length n ns)
      ∙ ap (parse_iterative to_upper) (tokenize-to_strings n ns h hs)
      ∙ parse_iterative-tokens_of n ns h hs
