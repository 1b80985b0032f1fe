-- ===== src/Sql/Runs.antt =====
-- Runs of the placeholder parser (internal/driver/ttc/sql_namedvalue_parser.go), and its theorems at
-- concrete inputs.
use go_oracledb.Base.{ℕ, ◌≡◌, refl, ◌&&◌, List, [], ◌∷◌, leb, arith}
use go_oracledb.Base.Int.{pos}
use go_oracledb.Base.Dict.{find, insert}
use go_oracledb.Base.Outcome.{ok, err, Ensures-ok}
use go_oracledb.Base.Runes.{Runes, runes_eq}
use go_oracledb.Sql.Scan.{
  Unicode, dangling_colon, duplicate_arg, name_not_found, BindDetails, closing_of, is_name_rune,
  parse_placeholders,
}
use go_oracledb.Sql.Skip.{has_pair, has_rune, double_quotes}
use go_oracledb.Sql.Names.{IsBindDetails, positions, index_from, distinct_from}
use go_oracledb.Sql.Totality.{parse_placeholders-IsBindDetails}
use go_oracledb.Sql.Text.{
  Piece, rune, assign, line, block, quoted, alternative_quoted, placeholder, render, names_of,
  IsText, is_plain, starts_name,
}
use go_oracledb.Sql.Placeholders.{parse_placeholders-render}
use go_oracledb.Sql.Bind.{NamedValue, extract_input_bind_values}
use go_oracledb.Sql.Values.{bound_values}
use go_oracledb.Sql.Equivalence.{extract_input_bind_values-bound_values}
use go_oracledb.Sql.Blocks.{extract_input_bind_values_for_pl_sql}
use go_oracledb.Sql.Slots.{block_values}
use go_oracledb.Sql.BlockValues.{extract_input_bind_values_for_pl_sql-block_values}
use native.Mathlib.Decide.{ℕ_discrete}
use Prim.Native.String.{String}
use Prim.Native.Char.{code}

program : Unit {0}
unfolding parse_placeholders runes_eq extract_input_bind_values extract_input_bind_values_for_pl_sql
    find insert bound_values positions index_from distinct_from ℕ_discrete
program = tt

-- The letters and digits of ASCII.
abbrev ascii : Unicode
ascii = record {
  is_letter = λ c. leb b'a' c && leb c b'z';
  is_digit = λ c. leb b'0' c && leb c b'9';
}

abbrev codes : String → Runes
codes String.[] = []
codes (String.◌∷◌ c s) = code c ∷ codes s

abbrev a_b : BindDetails
a_b = record {
  bind_names = codes "a" ∷ codes "b" ∷ codes "a" ∷ [];
  bind_map = (codes "a", 0 ∷ 2 ∷ []) ∷ (codes "b", 1 ∷ []) ∷ [];
  unique_names = (codes "a", 0) ∷ (codes "b", 1) ∷ [];
}

three_names : parse_placeholders ascii (codes "x(:a,:b,'it''s :c',:a)--:d") ≡ ok a_b
unfolding program
three_names = refl

quoted_alternative :
    parse_placeholders ascii (codes "q'[:x']' /* :y */ :a:=1")
    ≡ ok (record {
      bind_names = codes "a" ∷ [];
      bind_map = (codes "a", 0 ∷ []) ∷ [];
      unique_names = (codes "a", 0) ∷ [];
    })
unfolding program
quoted_alternative = refl

dangling : parse_placeholders ascii (codes "a:") ≡ err dangling_colon
unfolding program
dangling = refl

abbrev named : String → ℕ → NamedValue ℕ
named s v = record { name = codes s; ordinal = pos 0; value = v }

abbrev at : ℕ → ℕ → NamedValue ℕ
at n v = record { name = []; ordinal = pos n; value = v }

by_name : extract_input_bind_values 0 a_b (named "b" 5 ∷ at 1 7 ∷ []) ≡ ok (7 ∷ 5 ∷ 7 ∷ [])
unfolding program
by_name = refl

unknown_name : extract_input_bind_values 0 a_b (named "z" 5 ∷ []) ≡ err (name_not_found (codes "z"))
unfolding program
unknown_name = refl

-- `x:=:a 'b'` behind a comment.
abbrev text : List Piece
text =
    block (codes ":z *")
    ∷ line (codes ":y")
    ∷ rune 10
    ∷ rune b'x'
    ∷ assign
    ∷ placeholder (codes "a")
    ∷ rune b' '
    ∷ quoted 39 (codes "it's :c")
    ∷ alternative_quoted b'[' b']' (codes ":d")
    ∷ []

text-IsText : IsText ascii text
unfolding has_pair has_rune double_quotes closing_of is_plain starts_name is_name_rune
text-IsText = (
  refl,
  (
    (refl, refl),
    (
      refl,
      (
        refl,
        (tt, (((refl, tt), refl, refl, omega arith), (refl, ((refl, refl), ((refl, refl), tt))))),
      ),
    ),
  ),
)

parse_placeholders-render_example :
    (d : BindDetails) × (parse_placeholders ascii (render text) ≡ ok d)
    × IsBindDetails d
    × (d.bind_names ≡ names_of text)
parse_placeholders-render_example = parse_placeholders-render ascii text text-IsText (omega arith)

a_b-IsBindDetails : IsBindDetails a_b
a_b-IsBindDetails =
    Ensures-ok IsBindDetails a_b
      (parse_placeholders-IsBindDetails ascii (codes "x(:a,:b,'it''s :c',:a)--:d")) three_names

extract_input_bind_values-bound_values_example :
    extract_input_bind_values 0 a_b (named "b" 5 ∷ at 1 7 ∷ [])
    ≡ bound_values a_b.bind_names (named "b" 5 ∷ at 1 7 ∷ [])
extract_input_bind_values-bound_values_example =
    extract_input_bind_values-bound_values 0 a_b a_b-IsBindDetails (named "b" 5 ∷ at 1 7 ∷ [])

-- In a block a name has one place: the error for a second value at the place of b has the name of the second
-- occurrence, which is a in `:a :a :b`.
abbrev a_a_b : BindDetails
a_a_b = record {
  bind_names = codes "a" ∷ codes "a" ∷ codes "b" ∷ [];
  bind_map = (codes "a", 0 ∷ 1 ∷ []) ∷ (codes "b", 2 ∷ []) ∷ [];
  unique_names = (codes "a", 0) ∷ (codes "b", 1) ∷ [];
}

wrong_name :
    extract_input_bind_values_for_pl_sql 0 a_a_b (at 2 7 ∷ at 2 8 ∷ [])
    ≡ err (duplicate_arg (codes "a") 2)
unfolding program
wrong_name = refl

block_run : extract_input_bind_values_for_pl_sql 0 a_b (named "b" 5 ∷ at 1 7 ∷ []) ≡ ok (7 ∷ 5 ∷ [])
unfolding program
block_run = refl

extract_input_bind_values_for_pl_sql-block_values_example :
    extract_input_bind_values_for_pl_sql 0 a_b (named "b" 5 ∷ at 1 7 ∷ [])
    ≡ block_values a_b.bind_names (named "b" 5 ∷ at 1 7 ∷ [])
extract_input_bind_values_for_pl_sql-block_values_example =
    extract_input_bind_values_for_pl_sql-block_values 0 a_b a_b-IsBindDetails
      (named "b" 5 ∷ at 1 7 ∷ [])
