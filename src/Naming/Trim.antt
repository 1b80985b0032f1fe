-- ===== src/Naming/Trim.antt =====
-- Names and values that `tokenize` of internal/driver/network/naming/nv.go keeps in one token, which
-- `strings.TrimSpace` leaves as it is.
use go_oracledb.Base.{
  ℕ, suc, ◌≤◌, ◌≡◌, refl, ap, ◌⊎◌, Bool, true, false, ◌&&◌, not, [], ◌∷◌, ◌++◌, append-nil, length,
  All, ◌==◌, arith, Bool-cases, inl, inr, ne→==_false,
}
use go_oracledb.Base.Runes.{Runes, is_space, trim_left, trim_right, cons_trimmed, trim_space}
use go_oracledb.Naming.Node.{Nodes, nil, cons, value_text}

-- A rune that means nothing to the lexer outside quotes, but for white space.
unfoldable pub in_value : ℕ → Bool
in_value c = not (c == b'"') && not (c == b'(') && not (c == b')')

unfoldable pub in_name : ℕ → Bool
unfolding in_value is_space
in_name c = in_value c && not (is_space c) && not (c == b'=')

abbrev pub IsName : Runes → Type 0
IsName name = (1 ≤ length name) × All (λ c. in_name c ≡ true) name

-- White space may stand anywhere in a value but at its end.
abbrev pub IsValue : Runes → Type 0
IsValue value = (trim_right value ≡ value) × All (λ c. in_value c ≡ true) value

pub in_name_ne_equals : (c : ℕ) → in_name c ≡ true → (c == b'=') ≡ false
unfolding in_name
in_name_ne_equals c h = ground arith

pub in_value_ne_quote : (c : ℕ) → in_value c ≡ true → (c == b'"') ≡ false
unfolding in_value
in_value_ne_quote c h = ground arith

in_name-not_space : (c : ℕ) → in_name c ≡ true → is_space c ≡ false
unfolding in_name
in_name-not_space c h = elim (Bool-cases (is_space c)) [ inl e ↦ absurd (ground arith) | inr e ↦ e ]

cons_trimmed_lem : (c : ℕ) → is_space c ≡ false → cons_trimmed c [] ≡ c ∷ []
cons_trimmed_lem c h = rw (h, cons_trimmed)

trim_right_name : (name : Runes) → All (λ c. in_name c ≡ true) name → trim_right name ≡ name
unfolding trim_right
trim_right_name [] h = refl
trim_right_name (c ∷ []) h = cons_trimmed_lem c (in_name-not_space c h.0)
trim_right_name (c ∷ (d ∷ r)) h = ap (cons_trimmed c) (trim_right_name (d ∷ r) h.1)

pub trim_right-append :
    (a : Runes) (c : ℕ) (v : Runes)
    → trim_right (c ∷ v) ≡ c ∷ v
    → trim_right (a ++ (c ∷ v)) ≡ a ++ (c ∷ v)
unfolding trim_right
trim_right-append [] c v h = h
trim_right-append (x ∷ []) c v h = ap (cons_trimmed x) h
trim_right-append (x ∷ (y ∷ a)) c v h = ap (cons_trimmed x) (trim_right-append (y ∷ a) c v h)

trim_right-equals : (v : Runes) → trim_right v ≡ v → trim_right (b'=' ∷ v) ≡ b'=' ∷ v
unfolding trim_right is_space
trim_right-equals [] h = refl
trim_right-equals (c ∷ r) h = ap (cons_trimmed b'=') h

pub trim_left_lem : (c : ℕ) (r : Runes) → is_space c ≡ false → trim_left (c ∷ r) ≡ c ∷ r
unfolding trim_left
trim_left_lem c r h = rw (h, trim_left)

-- The text of a value: nothing, or `=` and the value.
pub value_text_cases :
    (value : Runes) (children : Nodes)
    → (value_text value children ≡ []) ⊎ (value_text value children ≡ b'=' ∷ value)
value_text_cases [] nil = inl refl
value_text_cases [] (cons n ns) = inr refl
value_text_cases (c ∷ r) children = inr (rw (ne→==_false (suc (length r)) 0 (λ e. omega arith)))

trim_right-token :
    (name value : Runes) (children : Nodes)
    → IsName name
    → IsValue value
    → trim_right (name ++ value_text value children) ≡ name ++ value_text value children
trim_right-token name value children n v = elim (value_text_cases value children) [
  | inl e ↦ rw (e, append-nil) (trim_right_name name n.1)
  | inr e ↦ rw e (trim_right-append name b'=' value (trim_right-equals value v.0))
]

-- The token of a node is its own trimmed text.
pub token_trim :
    (name value : Runes) (children : Nodes)
    → IsName name
    → IsValue value
    → trim_space (name ++ value_text value children) ≡ name ++ value_text value children
unfolding trim_space
token_trim [] value children n v = absurd (omega (arith, n.0))
token_trim (c ∷ name) value children n v =
    rw (trim_left_lem c (name ++ value_text value children) (in_name-not_space c n.1.0))
      (trim_right-token (c ∷ name) value children n v)
