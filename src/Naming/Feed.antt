-- ===== src/Naming/Feed.antt =====
-- The rounds of the loop of `tokenize` (internal/driver/network/naming/nv.go) over a name and its value.
use go_oracledb.Base.{
  ℕ, ◌≤◌, ◌≡◌, refl, sym, ap, ◌∙◌, Bool, true, false, List, [], ◌∷◌, ◌++◌, append-nil, append_assoc,
  length, All, arith, inl, inr, ne→==_false,
}
use go_oracledb.Base.Runes.{Runes, trim_space}
use go_oracledb.Naming.Node.{Nodes, value_text}
use go_oracledb.Naming.Lexer.{Lexer, flush_token, read_rune}
use go_oracledb.Naming.Trim.{in_value, in_name, IsName, IsValue, value_text_cases}

unfoldable pub feed : Runes → Lexer → Lexer
feed [] s = s
feed (c ∷ r) s = feed r (read_rune c s)

abbrev pub pending : List Runes → Runes → Bool → Lexer
pending ts current equals = record {
  tokens = ts;
  current = current;
  in_quotes = false;
  has_equals = equals;
}

abbrev pub clean : List Runes → Lexer
clean ts = pending ts [] false

read_name_rune :
    (c : ℕ) (ts : List Runes) (current : Runes)
    → in_name c ≡ true
    → read_rune c (pending ts current false) ≡ pending ts (current ++ (c ∷ [])) false
unfolding read_rune in_name
read_name_rune c ts current h = ground arith

read_value_rune :
    (c : ℕ) (ts : List Runes) (current : Runes)
    → in_value c ≡ true
    → read_rune c (pending ts current true) ≡ pending ts (current ++ (c ∷ [])) true
unfolding read_rune in_value
read_value_rune c ts current h = ground arith

feed-name :
    (name rest : Runes) (ts : List Runes) (current : Runes)
    → All (λ c. in_name c ≡ true) name
    → feed (name ++ rest) (pending ts current false)
      ≡ feed rest (pending ts (current ++ name) false)
unfolding feed
feed-name [] rest ts current h = ap (λ t. feed rest (pending ts t false)) (sym (append-nil current))
feed-name (c ∷ name) rest ts current h =
    ap (feed (name ++ rest)) (read_name_rune c ts current h.0)
    ∙ feed-name name rest ts (current ++ (c ∷ [])) h.1
    ∙ ap (λ t. feed rest (pending ts t false)) (append_assoc current (c ∷ []) name)

feed-value :
    (value rest : Runes) (ts : List Runes) (current : Runes)
    → All (λ c. in_value c ≡ true) value
    → feed (value ++ rest) (pending ts current true)
      ≡ feed rest (pending ts (current ++ value) true)
unfolding feed
feed-value [] rest ts current h = ap (λ t. feed rest (pending ts t true)) (sym (append-nil current))
feed-value (c ∷ value) rest ts current h =
    ap (feed (value ++ rest)) (read_value_rune c ts current h.0)
    ∙ feed-value value rest ts (current ++ (c ∷ [])) h.1
    ∙ ap (λ t. feed rest (pending ts t true)) (append_assoc current (c ∷ []) value)

-- The two parentheses.
abbrev paren : Bool → ℕ
paren true = b'('
paren false = b')'

flush_pending :
    (ts : List Runes) (current : Runes) (equals : Bool)
    → 1 ≤ length current
    → trim_space current ≡ current
    → flush_token (pending ts current equals) ≡ clean (ts ++ (current ∷ []))
unfolding flush_token
flush_pending ts current equals some same =
    rw (same, ne→==_false (length current) 0 (λ e. omega arith))

pub first_paren :
    (side : Bool) (ts : List Runes)
    → read_rune (paren side) (clean ts) ≡ clean (ts ++ ((paren side ∷ []) ∷ []))
unfolding read_rune flush_token
first_paren true ts = refl
first_paren false ts = refl

pub read_paren :
    (side : Bool) (ts : List Runes) (current : Runes) (equals : Bool)
    → 1 ≤ length current
    → trim_space current ≡ current
    → read_rune (paren side) (pending ts current equals)
      ≡ read_rune (paren side) (clean (ts ++ (current ∷ [])))
unfolding read_rune
read_paren true ts current equals some same =
    rw (flush_pending ts current equals some same) (unfold flush_token in refl)
read_paren false ts current equals some same =
    rw (flush_pending ts current equals some same) (unfold flush_token in refl)

read_equals :
    (ts : List Runes) (current : Runes)
    → read_rune b'=' (pending ts current false) ≡ pending ts (current ++ (b'=' ∷ [])) true
unfolding read_rune
read_equals ts current = refl

pub feed_token :
    (name value : Runes) (children : Nodes) (rest : Runes) (ts : List Runes)
    → IsName name
    → IsValue value
    → (equals : Bool) × (feed (name ++ (value_text value children ++ rest)) (clean ts)
        ≡ feed rest (pending ts (name ++ value_text value children) equals))
unfolding feed
feed_token name value children rest ts n v = elim (value_text_cases value children) [
  | inl e ↦ (false, rw (e, append-nil) (feed-name name rest ts [] n.1))
  | inr e ↦ (
    true,
    rw e (
        feed-name name (b'=' ∷ (value ++ rest)) ts [] n.1
        ∙ ap (feed (value ++ rest)) (read_equals ts name)
        ∙ feed-value value rest ts (name ++ (b'=' ∷ [])) v.1
        ∙ ap (λ t. feed rest (pending ts t true)) (append_assoc name (b'=' ∷ []) value)),
  )
]
