-- ===== src/Sql/KindRuns.antt =====
-- Runs of the classes of statements (internal/driver/ttc/sqlkind.go).
use go_oracledb.Base.{ℕ, ◌≡◌, ◌+◌, refl, ◌&&◌, List, [], ◌∷◌, map, leb, if◌then◌else◌, arith}
use go_oracledb.Base.Int.{pos}
use go_oracledb.Base.Outcome.{ok, err}
use go_oracledb.Sql.Scan.{Unicode, dangling_colon, BindDetails, closing_of, is_name_rune}
use go_oracledb.Sql.Skip.{has_pair, has_rune, double_quotes}
use go_oracledb.Sql.Names.{IsBindDetails}
use go_oracledb.Sql.Text.{Piece, rune, placeholder, render, names_of, IsText, is_plain, starts_name}
use go_oracledb.Sql.Kind.{
  SqlKind, select, dml, other, empty_sql, unrecognised_query, not_classified, not_parsed, runes_of,
  classify_sql, new_qualified_sql_statement,
}
use go_oracledb.Sql.Classified.{Begins, new_qualified_sql_statement-render}

-- The letters and digits of ASCII, and its lower case.
abbrev ascii : Unicode
ascii = record {
  is_letter = λ c. leb b'a' c && leb c b'z';
  is_digit = λ c. leb b'0' c && leb c b'9';
}

abbrev lower : ℕ → ℕ
lower c = if leb b'A' c && leb c b'Z' then c + 32 else c

select_run : classify_sql lower (runes_of " Select(1)") ≡ ok select
unfolding classify_sql
select_run = refl

merge_run : classify_sql lower (runes_of "merge") ≡ ok dml
unfolding classify_sql
merge_run = refl

blank_run : classify_sql lower (runes_of "  ") ≡ err empty_sql
unfolding classify_sql
blank_run = refl

create_run : classify_sql lower (runes_of "create table t") ≡ ok other
unfolding classify_sql
create_run = refl

with_run :
    classify_sql lower (runes_of "with t as (select 1) select * from t") ≡ err unrecognised_query
unfolding classify_sql
with_run = refl

comment_run : classify_sql lower (runes_of "/* c */ select 1") ≡ err unrecognised_query
unfolding classify_sql
comment_run = refl

dangling_run :
    new_qualified_sql_statement ascii lower (runes_of "select :") ≡ err (not_parsed dangling_colon)
unfolding new_qualified_sql_statement
dangling_run = refl

-- ` CALL(:a`.
abbrev call : List Piece
call =
    rune b' '
    ∷ rune b'C'
    ∷ rune b'A'
    ∷ rune b'L'
    ∷ rune b'L'
    ∷ rune b'('
    ∷ placeholder (runes_of "a")
    ∷ []

call-IsText : IsText ascii call
unfolding has_pair has_rune double_quotes closing_of is_plain starts_name is_name_rune
call-IsText =
    (refl, (refl, (refl, (refl, (refl, (refl, (((refl, tt), refl, refl, omega arith), tt)))))))

new_qualified_sql_statement-render_example :
    ((k : SqlKind)
      → Begins (map lower (b'C' ∷ runes_of "ALL")) k
      → (d : BindDetails) × (new_qualified_sql_statement ascii lower (render call)
          ≡ ok (record { query = render call; kind = k; binds = d; cursor_id = pos 0 }))
        × IsBindDetails d
        × (d.bind_names ≡ names_of call))
    × (((k : SqlKind) → ¬ Begins (map lower (b'C' ∷ runes_of "ALL")) k)
        → new_qualified_sql_statement ascii lower (render call)
          ≡ err (not_classified unrecognised_query))
new_qualified_sql_statement-render_example =
    new_qualified_sql_statement-render ascii lower call (b' ' ∷ []) b'C' (runes_of "ALL")
      (runes_of "(:a") refl (refl, tt) (refl, (refl, (refl, (refl, tt)))) refl call-IsText
      (omega arith)
