-- ===== src/Naming/Lexer.antt =====
-- `tokenize` of internal/driver/network/naming/nv.go.
use go_oracledb.Base.{
  ℕ, Bool, false, ◌||◌, ◌&&◌, not, List, [], ◌∷◌, ◌++◌, length, ltb, ◌==◌, if◌then◌else◌,
}
use go_oracledb.Base.Runes.{Runes, trim_space}

-- `tokens`, `current`, `inQuotes` and `currentHasEquals`.
pub record Lexer : Type 0 where
  pub tokens : List Runes
  pub current : Runes
  pub in_quotes : Bool
  pub has_equals : Bool

abbrev pub start : Lexer
start = record { tokens = []; current = []; in_quotes = false; has_equals = false }

-- `flushToken`.
unfoldable pub flush_token : Lexer → Lexer
unfolding trim_space
flush_token s =
    let token = trim_space s.current in
    if length s.current == 0 then s else record s {
      tokens = if length token == 0 then s.tokens else s.tokens ++ (token ∷ []);
      current = [];
      has_equals = false;
    }

-- `current.WriteRune`.
abbrev pub write_rune : ℕ → Lexer → Lexer
write_rune c s = record s { current = s.current ++ (c ∷ []) }

-- The `switch` of the loop.
unfoldable pub read_rune : ℕ → Lexer → Lexer
unfolding flush_token
read_rune c s =
    if c == b'"'
    then write_rune c (record s { in_quotes = not s.in_quotes })
    else if ((c == b'(') || (c == b')')) && not s.in_quotes
    then (let t = flush_token s in record t { tokens = t.tokens ++ ((c ∷ []) ∷ []) })
    else if ((c == b' ') || (c == 9) || (c == b'\n') || (c == 13)) && not s.in_quotes
    then (if s.has_equals then write_rune c s else flush_token s)
    else write_rune c (record s { has_equals = (c == b'=') || s.has_equals })

-- The loop. Its index counts bytes, so the test for the last one, behind which what is left is flushed,
-- holds only if the last rune takes one byte.
unfoldable pub read_runes : Runes → Lexer → Lexer
unfolding read_rune flush_token
read_runes [] s = s
read_runes (c ∷ []) s = if ltb c 128 then flush_token (read_rune c s) else read_rune c s
read_runes (c ∷ (d ∷ r)) s = read_runes (d ∷ r) (read_rune c s)

unfoldable pub tokenize : Runes → List Runes
unfolding read_runes
tokenize text = (read_runes text start).tokens
