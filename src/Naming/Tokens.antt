-- ===== src/Naming/Tokens.antt =====
-- The tokens that `tokenize` of internal/driver/network/naming/nv.go finds in the text of a node.
use go_oracledb.Base.{
  ℕ, ◌≤◌, ◌<◌, ◌≡◌, refl, sym, ap, ◌∙◌, Bool, true, false, List, [], ◌∷◌, ◌++◌, append-nil,
  append_assoc, length, length-append, arith, lt→ltb,
}
use go_oracledb.Base.Runes.{Runes, is_space, trim_left, trim_right, trim_space}
use go_oracledb.Naming.Node.{Node, Nodes, node, nil, cons, value_text, to_string, to_strings}
use go_oracledb.Naming.Lexer.{Lexer, start, flush_token, read_rune, read_runes, tokenize}
use go_oracledb.Naming.Trim.{IsName, IsValue, trim_right-append, token_trim, trim_left_lem}
use go_oracledb.Naming.Feed.{feed, pending, clean, first_paren, read_paren, feed_token}

-- The tokens of a node.
unfoldable mutual
  pub tokens_of : Node → List Runes
  tokens_of (node name value children) =
      (b'(' ∷ [])
      ∷ ((name ++ value_text value children) ∷ (tokens_of_nodes children ++ ((b')' ∷ []) ∷ [])))

  pub tokens_of_nodes : Nodes → List Runes
  tokens_of_nodes nil = []
  tokens_of_nodes (cons n ns) = tokens_of n ++ tokens_of_nodes ns

unfoldable mutual
  pub IsNode : Node → Type 0
  IsNode (node name value children) = IsName name × IsValue value × IsNodes children

  pub IsNodes : Nodes → Type 0
  IsNodes nil = Unit
  IsNodes (cons n ns) = IsNode n × IsNodes ns

-- What follows a token starts with a parenthesis.
feed_children :
    (children : Nodes) (rest : Runes) (ts : List Runes) (current : Runes) (equals : Bool)
    → 1 ≤ length current
    → trim_space current ≡ current
    → feed (to_strings children ++ (b')' ∷ rest)) (pending ts current equals)
      ≡ feed (to_strings children ++ (b')' ∷ rest)) (clean (ts ++ (current ∷ [])))
unfolding feed to_string
feed_children nil rest ts current equals some same =
    ap (feed rest) (read_paren false ts current equals some same)
feed_children (cons (node name value ns) ms) rest ts current equals some same =
    ap
      (feed (
        (name ++ (value_text value ns ++ (to_strings ns ++ (b')' ∷ []))))
        ++ to_strings ms
        ++ (b')' ∷ rest)))
      (read_paren true ts current equals some same)

-- The runes of a node in turn, where those of its children leave their tokens.
node_steps :
    (name value : Runes) (ns : Nodes) (rest : Runes) (ts : List Runes)
    → IsName name
    → IsValue value
    → ((ts' : List Runes)
        → feed (to_strings ns ++ (b')' ∷ rest)) (clean ts')
          ≡ feed (b')' ∷ rest) (clean (ts' ++ tokens_of_nodes ns)))
    → feed (to_string (node name value ns) ++ rest) (clean ts)
      ≡ feed rest (clean (ts ++ tokens_of (node name value ns)))
unfolding feed to_string tokens_of
node_steps name value ns rest ts n v children =
    let token = name ++ value_text value ns in
    let opened = ts ++ ((b'(' ∷ []) ∷ []) in
    let named = opened ++ (token ∷ []) in
    let inner = name ++ (value_text value ns ++ (to_strings ns ++ (b')' ∷ rest))) in
    let bracket : (name ++ (value_text value ns ++ (to_strings ns ++ (b')' ∷ [])))) ++ rest
        ≡ inner =
      simp append_assoc in
    let (equals, at_token) = feed_token name value ns (to_strings ns ++ (b')' ∷ rest)) opened n v in
    ap (λ t. feed t (read_rune b'(' (clean ts))) bracket
    ∙ ap (feed inner) (first_paren true ts)
    ∙ at_token
    ∙ feed_children ns rest opened token equals
        (omega (arith, n.0, length-append {0} name (value_text value ns)))
        (token_trim name value ns n v)
    ∙ children named
    ∙ ap (feed rest) (first_paren false (named ++ tokens_of_nodes ns))
    ∙ ap (λ t. feed rest (clean t)) (simp append_assoc)

-- The node and its children leave their tokens.
mutual
  unfolding to_string tokens_of IsNode

  feed_node :
      (n : Node) (rest : Runes) (ts : List Runes)
      → IsNode n
      → feed (to_string n ++ rest) (clean ts) ≡ feed rest (clean (ts ++ tokens_of n))
  feed_node (node name value ns) rest ts h =
      node_steps name value ns rest ts h.0 h.1 (λ ts'. feed_nodes ns (b')' ∷ rest) ts' h.2)

  feed_nodes :
      (ns : Nodes) (rest : Runes) (ts : List Runes)
      → IsNodes ns
      → feed (to_strings ns ++ rest) (clean ts) ≡ feed rest (clean (ts ++ tokens_of_nodes ns))
  feed_nodes nil rest ts h = rw append-nil
  feed_nodes (cons n ns) rest ts h =
      ap (λ t. feed t (clean ts)) (append_assoc (to_string n) (to_strings ns) rest)
      ∙ feed_node n (to_strings ns ++ rest) ts h.0
      ∙ feed_nodes ns rest (ts ++ tokens_of n) h.1
      ∙ ap (λ t. feed rest (clean t)) (append_assoc ts (tokens_of n) (tokens_of_nodes ns))

feed-append : (xs ys : Runes) (s : Lexer) → feed (xs ++ ys) s ≡ feed ys (feed xs s)
unfolding feed
feed-append [] ys s = refl
feed-append (c ∷ xs) ys s = feed-append xs ys (read_rune c s)

-- A text whose last rune takes one byte is read to its end, and what is left is flushed.
read_runes_lem :
    (xs : Runes) (c : ℕ) (s : Lexer)
    → c < 128
    → read_runes (xs ++ (c ∷ [])) s ≡ flush_token (feed (xs ++ (c ∷ [])) s)
unfolding read_runes feed
read_runes_lem [] c s h = rw (lt→ltb c 128 h)
read_runes_lem (x ∷ []) c s h = rw (lt→ltb c 128 h)
read_runes_lem (x ∷ (y ∷ xs)) c s h = read_runes_lem (y ∷ xs) c (read_rune x s) h

-- A text that ends in a parenthesis.
abbrev Ends : Runes → Type 0
Ends text = (front : Runes) × (text ≡ front ++ (b')' ∷ []))

to_string-Ends : (n : Node) → Ends (to_string n)
unfolding to_string
to_string-Ends (node name value ns) =
    (b'(' ∷ (name ++ (value_text value ns ++ to_strings ns)), simp append_assoc)

to_strings-Ends : (n : Node) (ns : Nodes) → Ends (to_strings (cons n ns))
unfolding to_string
to_strings-Ends n nil = let (front, e) = to_string-Ends n in (front, append-nil (to_string n) ∙ e)
to_strings-Ends n (cons m ms) =
    let (front, e) = to_strings-Ends m ms in
    (
      to_string n ++ front,
      ap (λ t. to_string n ++ t) e ∙ sym (append_assoc (to_string n) front (b')' ∷ [])),
    )

trim_left-to_strings :
    (n : Node) (ns : Nodes) → trim_left (to_strings (cons n ns)) ≡ to_strings (cons n ns)
unfolding to_string
trim_left-to_strings (node name value ms) ns =
    trim_left_lem b'('
      ((name ++ (value_text value ms ++ (to_strings ms ++ (b')' ∷ [])))) ++ to_strings ns)
      (unfold is_space in refl)

-- The text of nodes has no white space around it.
pub to_strings_trim :
    (n : Node) (ns : Nodes) → trim_space (to_strings (cons n ns)) ≡ to_strings (cons n ns)
unfolding trim_space
to_strings_trim n ns =
    let (front, e) = to_strings-Ends n ns in
    let right : trim_right (to_strings (cons n ns)) ≡ to_strings (cons n ns) =
      ap trim_right e
      ∙ trim_right-append front b')' [] (unfold trim_right is_space in refl)
      ∙ sym e in
    let left : trim_left (to_strings (cons n ns)) ≡ to_strings (cons n ns) =
      trim_left-to_strings n ns in
    ap trim_right left ∙ right

-- A state without a pending token has nothing to flush.
flush_clean : (ts : List Runes) → flush_token (clean ts) ≡ clean ts
unfolding flush_token
flush_clean ts = refl

-- The tokens of nodes written one after the other.
pub tokenize-to_strings :
    (n : Node) (ns : Nodes)
    → IsNode n
    → IsNodes ns
    → tokenize (to_strings (cons n ns)) ≡ tokens_of n ++ tokens_of_nodes ns
unfolding tokenize IsNode tokens_of
tokenize-to_strings n ns h hs =
    let (front, e) = to_strings-Ends n ns in
    let at_end : feed (to_strings (cons n ns)) start ≡ clean (tokens_of_nodes (cons n ns)) =
      ap (λ t. feed t start) (sym (append-nil (to_strings (cons n ns))))
      ∙ feed_nodes (cons n ns) [] [] (h, hs)
      ∙ (unfold feed in refl) in
    ap (λ s. s.tokens)
      (ap (λ t. read_runes t start) e
        ∙ read_runes_lem front b')' start (omega arith)
        ∙ ap (λ t. flush_token (feed t start)) (sym e)
        ∙ ap flush_token at_end
        ∙ flush_clean (tokens_of_nodes (cons n ns)))
