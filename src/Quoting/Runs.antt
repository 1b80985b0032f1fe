-- ===== src/Quoting/Runs.antt =====
-- Runs of the quoting helpers (oracle/utils/enquote_helpers.go), and their theorems at concrete inputs.
use go_oracledb.Base.{◌≡◌, refl, ◌&&◌, some, [], ◌∷◌, ◌++◌, leb, arith}
use go_oracledb.Base.Outcome.{ok, err, Ensures}
use go_oracledb.Base.Runes.{Runes}
use go_oracledb.Naming.Parser.{unquote, before_quote}
use go_oracledb.Sql.Scan.{starts, skip_comment_or_string}
use go_oracledb.Quoting.{
  Classes, invalid_identifier, replace_quotes, enquote_literal, enquote_nchar_literal,
  contains_rune, has_bad_length, matches_simple, is_simple_identifier, enquote_identifier,
}
use go_oracledb.Quoting.Scanned.{
  skip_comment_or_string-enquote_literal, skip_comment_or_string-enquote_identifier,
}
use go_oracledb.Quoting.Twice.{enquote_identifier_twice}
use Prim.Native.String.{String}
use Prim.Native.Char.{code}

program : Unit {0}
unfolding replace_quotes enquote_literal enquote_nchar_literal contains_rune has_bad_length
    matches_simple is_simple_identifier enquote_identifier unquote before_quote starts
    skip_comment_or_string
program = tt

-- The letters and digits of ASCII.
abbrev ascii : Classes
ascii = record {
  is_letter = λ c. leb b'a' c && leb c b'z';
  is_number = λ c. leb b'0' c && leb c b'9';
}

abbrev codes : String → Runes
codes String.[] = []
codes (String.◌∷◌ c s) = code c ∷ codes s

literal : enquote_nchar_literal (codes "it's") ≡ codes "N'it''s'"
unfolding program
literal = refl

simple : enquote_identifier ascii (codes "a_1") ≡ ok (codes "\"a_1\"")
unfolding program
simple = refl

unwrapped : enquote_identifier ascii (codes "\"a b\"") ≡ ok (codes "\"a b\"")
unfolding program
unwrapped = refl

spaced : enquote_identifier ascii (codes "a b") ≡ ok (codes "\"a b\"")
unfolding program
spaced = refl

inside : enquote_identifier ascii (codes "a\"b") ≡ err invalid_identifier
unfolding program
inside = refl

empty : enquote_identifier ascii [] ≡ err invalid_identifier
unfolding program
empty = refl

skip_comment_or_string-enquote_literal_example :
    skip_comment_or_string (enquote_literal (codes "it's :x") ++ codes ":a") ≡ some (codes ":a")
unfolding program
skip_comment_or_string-enquote_literal_example =
    skip_comment_or_string-enquote_literal (codes "it's :x") (codes ":a") refl

skip_comment_or_string-enquote_identifier_example :
    Ensures
      (λ quoted. skip_comment_or_string (quoted ++ codes ":a") ≡ some (codes ":a"))
      (enquote_identifier ascii (codes "b :x"))
unfolding program
skip_comment_or_string-enquote_identifier_example =
    skip_comment_or_string-enquote_identifier ascii (codes "b :x") (codes ":a") refl refl refl

enquote_identifier_twice_example : enquote_identifier ascii (codes "\"a b\"") ≡ ok (codes "\"a b\"")
enquote_identifier_twice_example =
    enquote_identifier_twice ascii refl refl refl refl (codes "a b") (codes "\"a b\"") spaced
      (omega arith)
