-- ===== src/Sql/Kind.antt =====
-- internal/driver/ttc/sqlkind.go: the class of a statement, which is found from its first word, and the statement
-- with its class and its bind details. The table of words is filled in pkg_init.go.
use go_oracledb.Base.{ℕ, Bool, ◌||◌, none, some, List, [], ◌∷◌, map, ◌==◌, if◌then◌else◌}
use go_oracledb.Base.Runes.{Runes, runes_eq}
use go_oracledb.Base.Int.{ℤ, pos}
use go_oracledb.Base.Dict.{find}
use go_oracledb.Base.Outcome.{Outcome, ok, err, map_err, ◌>>=◌}
use go_oracledb.Sql.Scan.{Error, Unicode, BindDetails, parse_placeholders}
use native.Mathlib.Decide.{ℕ_discrete}
use Prim.Native.String.{String}
use Prim.Native.Char.{code}

pub data SqlKind : Type 0 where
  select dml plsql other refcursor : SqlKind

pub data KindError : Type 0 where
  empty_sql unrecognised_query : KindError

pub data StatementError : Type 0 where
  not_classified : KindError → StatementError
  not_parsed : Error → StatementError

pub record QualifiedSqlStatement : Type 0 where
  pub query : Runes
  pub kind : SqlKind
  pub binds : BindDetails
  pub cursor_id : ℤ

abbrev pub runes_of : String → Runes
runes_of String.[] = []
runes_of (String.◌∷◌ c s) = code c ∷ runes_of s

-- `_sqlKindMap`.
abbrev pub sql_kinds : List (Runes × SqlKind)
sql_kinds =
    (runes_of "select", select)
    ∷ (runes_of "insert", dml)
    ∷ (runes_of "update", dml)
    ∷ (runes_of "delete", dml)
    ∷ (runes_of "merge", dml)
    ∷ (runes_of "call", plsql)
    ∷ (runes_of "begin", plsql)
    ∷ (runes_of "declare", plsql)
    ∷ (runes_of "create", other)
    ∷ (runes_of "alter", other)
    ∷ (runes_of "drop", other)
    ∷ (runes_of "truncate", other)
    ∷ (runes_of "rename", other)
    ∷ (runes_of "comment", other)
    ∷ (runes_of "grant", other)
    ∷ (runes_of "revoke", other)
    ∷ (runes_of "analyze", other)
    ∷ (runes_of "purge", other)
    ∷ (runes_of "lock", other)
    ∷ (runes_of "commit", other)
    ∷ (runes_of "rollback", other)
    ∷ (runes_of "savepoint", other)
    ∷ (runes_of "set", other)
    ∷ (runes_of "explain", other)
    ∷ (runes_of "flashback", other)
    ∷ (runes_of "refcursor", refcursor)
    ∷ []

-- The characters that `strings.TrimLeft` drops, and those at which the first word ends.
abbrev pub is_blank : ℕ → Bool
is_blank c = (c == b' ') || (c == 9) || (c == 13) || (c == 10)

abbrev pub ends_word : ℕ → Bool
ends_word c = is_blank c || (c == b'(')

unfoldable pub trim_blank : Runes → Runes
trim_blank [] = []
trim_blank (c ∷ r) = let rest = trim_blank r in if is_blank c then rest else c ∷ r

unfoldable pub first_word : Runes → Runes
first_word [] = []
first_word (c ∷ r) = let rest = first_word r in if ends_word c then [] else c ∷ rest

unfoldable pub kind_of : Runes → Outcome KindError SqlKind
unfolding find runes_eq ℕ_discrete
kind_of word = elim (find runes_eq word sql_kinds) [ none ↦ err unrecognised_query | some k ↦ ok k ]

-- `_classifySQL` behind the trimming. `strings.ToLower` maps a function over the runes.
unfoldable pub classify_trimmed : (ℕ → ℕ) → Runes → Outcome KindError SqlKind
unfolding kind_of first_word
classify_trimmed to_lower [] = err empty_sql
classify_trimmed to_lower (c ∷ r) = kind_of (map to_lower (first_word (c ∷ r)))

-- `_classifySQL`.
unfoldable pub classify_sql : (ℕ → ℕ) → Runes → Outcome KindError SqlKind
unfolding classify_trimmed trim_blank
classify_sql to_lower q = classify_trimmed to_lower (trim_blank q)

-- `newQualifiedSQLStatement`.
unfoldable pub new_qualified_sql_statement :
    Unicode → (ℕ → ℕ) → Runes → Outcome StatementError QualifiedSqlStatement
unfolding classify_sql parse_placeholders
new_qualified_sql_statement u to_lower query = do
  k ← map_err not_classified (classify_sql to_lower query)
  b ← map_err not_parsed (parse_placeholders u query)
  ok (record { query = query; kind = k; binds = b; cursor_id = pos 0 })
