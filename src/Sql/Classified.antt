-- ===== src/Sql/Classified.antt =====
-- What internal/driver/ttc/sqlkind.go makes of a statement: the kind of its first word, and the placeholders that
-- sql_namedvalue_parser.go finds in it.
use go_oracledb.Base.{
  ℕ, ◌≡◌, ◌≤◌, ◌^◌, refl, sym, ap, ◌∙◌, true, false, ◌||◌, Option, none, some, List, [], ◌∷◌, ◌++◌,
  map, length, ◌==◌, All, Bool-cases, inl, inr,
}
use go_oracledb.Base.Runes.{Runes, runes_eq}
use go_oracledb.Base.Int.{pos}
use go_oracledb.Base.Dict.{find}
use go_oracledb.Base.Outcome.{Outcome, ok, err}
use go_oracledb.Sql.Scan.{Unicode, BindDetails}
use go_oracledb.Sql.Names.{IsBindDetails}
use go_oracledb.Sql.Text.{Piece, render, names_of, IsText}
use go_oracledb.Sql.Placeholders.{parse_placeholders-render}
use mathlib.Core.Logic.{if_pos, if_neg}
use mathlib.Core.Path.{subst}
use mathlib.Core.Option.{some-injective}
use go_oracledb.Sql.Kind.{
  SqlKind, select, dml, plsql, KindError, unrecognised_query, not_classified, runes_of, sql_kinds,
  is_blank, ends_word, trim_blank, first_word, kind_of, classify_trimmed, classify_sql,
  new_qualified_sql_statement, other, refcursor,
}

-- The words that begin a statement of each kind.
pub data Begins : Runes → SqlKind → Type 0 where
  begins_select : Begins (runes_of "select") select
  begins_insert : Begins (runes_of "insert") dml
  begins_update : Begins (runes_of "update") dml
  begins_delete : Begins (runes_of "delete") dml
  begins_merge : Begins (runes_of "merge") dml
  begins_call : Begins (runes_of "call") plsql
  begins_begin : Begins (runes_of "begin") plsql
  begins_declare : Begins (runes_of "declare") plsql
  begins_create : Begins (runes_of "create") other
  begins_alter : Begins (runes_of "alter") other
  begins_drop : Begins (runes_of "drop") other
  begins_truncate : Begins (runes_of "truncate") other
  begins_rename : Begins (runes_of "rename") other
  begins_comment : Begins (runes_of "comment") other
  begins_grant : Begins (runes_of "grant") other
  begins_revoke : Begins (runes_of "revoke") other
  begins_analyze : Begins (runes_of "analyze") other
  begins_purge : Begins (runes_of "purge") other
  begins_lock : Begins (runes_of "lock") other
  begins_commit : Begins (runes_of "commit") other
  begins_rollback : Begins (runes_of "rollback") other
  begins_savepoint : Begins (runes_of "savepoint") other
  begins_set : Begins (runes_of "set") other
  begins_explain : Begins (runes_of "explain") other
  begins_flashback : Begins (runes_of "flashback") other
  begins_ref_cursor : Begins (runes_of "refcursor") refcursor

kind_of-Begins : (w : Runes) (k : SqlKind) → Begins w k → kind_of w ≡ ok k
unfolding kind_of
kind_of-Begins w k begins_select = refl
kind_of-Begins w k begins_insert = refl
kind_of-Begins w k begins_update = refl
kind_of-Begins w k begins_delete = refl
kind_of-Begins w k begins_merge = refl
kind_of-Begins w k begins_call = refl
kind_of-Begins w k begins_begin = refl
kind_of-Begins w k begins_declare = refl
kind_of-Begins w k begins_create = refl
kind_of-Begins w k begins_alter = refl
kind_of-Begins w k begins_drop = refl
kind_of-Begins w k begins_truncate = refl
kind_of-Begins w k begins_rename = refl
kind_of-Begins w k begins_comment = refl
kind_of-Begins w k begins_grant = refl
kind_of-Begins w k begins_revoke = refl
kind_of-Begins w k begins_analyze = refl
kind_of-Begins w k begins_purge = refl
kind_of-Begins w k begins_lock = refl
kind_of-Begins w k begins_commit = refl
kind_of-Begins w k begins_rollback = refl
kind_of-Begins w k begins_savepoint = refl
kind_of-Begins w k begins_set = refl
kind_of-Begins w k begins_explain = refl
kind_of-Begins w k begins_flashback = refl
kind_of-Begins w k begins_ref_cursor = refl

infixr 4 ◌also◌
abbrev ◌also◌ {ℓ κ} : {A : Type ℓ} {B : Type κ} → A → B → A × B
a also b = (a, b)

sql_kinds-Begins : All (λ e. Begins e.0 e.1) sql_kinds
sql_kinds-Begins =
    begins_select also begins_insert also begins_update also begins_delete also begins_merge
    also begins_call also begins_begin also begins_declare also begins_create also begins_alter
    also begins_drop also begins_truncate also begins_rename also begins_comment also begins_grant
    also begins_revoke also begins_analyze also begins_purge also begins_lock also begins_commit
    also begins_rollback also begins_savepoint also begins_set also begins_explain
    also begins_flashback also begins_ref_cursor also tt

find-Begins :
    (m : List (Runes × SqlKind)) (w : Runes) (k : SqlKind)
    → All (λ e. Begins e.0 e.1) m
    → find runes_eq w m ≡ some k
    → Begins w k
unfolding find
find-Begins [] w k h e = absurd (cc e)
find-Begins ((j, v) ∷ m) w k h e = elim (runes_eq j w) [
  | yes q ↦
      subst (λ x. Begins x k) q
        (subst (λ y. Begins j y)
          (some-injective v k (sym (if_pos (runes_eq j w) q (some v) (find runes_eq w m)) ∙ e)) h.0)
  | no q ↦ find-Begins m w k h.1 (sym (if_neg (runes_eq j w) q (some v) (find runes_eq w m)) ∙ e)
]

kind_of_other : (w : Runes) → ((k : SqlKind) → ¬ Begins w k) → kind_of w ≡ err unrecognised_query
unfolding kind_of
kind_of_other w h = go (find runes_eq w sql_kinds) refl
  where
    go :
        (o : Option SqlKind)
        → find runes_eq w sql_kinds ≡ o
        → (elim o as (λ x. Outcome KindError SqlKind) [
          | none ↦ err unrecognised_query
          | some k ↦ ok k
        ])
          ≡ err unrecognised_query
    go none e = refl
    go (some k) e = absurd (h k (find-Begins sql_kinds w k sql_kinds-Begins e))

trim_blank-append :
    (blank r : Runes) → All (λ c. is_blank c ≡ true) blank → trim_blank (blank ++ r) ≡ trim_blank r
unfolding trim_blank
trim_blank-append [] r h = refl
trim_blank-append (c ∷ blank) r h = rw h.0 (trim_blank-append blank r h.1)

-- A text that a word ends at.
abbrev pub Ends : Runes → Type 0
Ends [] = Unit
Ends (c ∷ r) = ends_word c ≡ true

first_word-append :
    (word rest : Runes)
    → All (λ c. ends_word c ≡ false) word
    → Ends rest
    → first_word (word ++ rest) ≡ word
unfolding first_word
first_word-append [] [] h e = refl
first_word-append [] (c ∷ r) h e = rw e
first_word-append (c ∷ word) rest h e = rw h.0 (ap (λ w. c ∷ w) (first_word-append word rest h.1 e))

not_blank : (c : ℕ) → ends_word c ≡ false → is_blank c ≡ false
not_blank c h = elim (Bool-cases (is_blank c)) [
  | inl e ↦ absurd (cc (sym h ∙ ap (λ b. b || (c == b'(')) e))
  | inr e ↦ e
]

classify_sql_lem :
    (to_lower : ℕ → ℕ) (blank : Runes) (c : ℕ) (word rest : Runes)
    → All (λ c. is_blank c ≡ true) blank
    → All (λ c. ends_word c ≡ false) (c ∷ word)
    → Ends rest
    → classify_sql to_lower (blank ++ (c ∷ (word ++ rest))) ≡ kind_of (map to_lower (c ∷ word))
unfolding classify_sql classify_trimmed
classify_sql_lem to_lower blank c word rest hb hw he =
    ap (classify_trimmed to_lower) (trim_blank-append blank (c ∷ (word ++ rest)) hb ∙ kept)
    ∙ ap (λ w. kind_of (map to_lower w)) (first_word-append (c ∷ word) rest hw he)
  where
    kept : trim_blank (c ∷ (word ++ rest)) ≡ c ∷ (word ++ rest)
    kept = unfold trim_blank in rw (not_blank c hw.0)

-- A statement, after blanks, with a first word that ends at a blank, a parenthesis or the end: if the word in lower
-- case begins statements of a kind, the result has that kind and the names of the placeholders, with details that
-- are in order; if it begins no kind, the statement is refused.
pub new_qualified_sql_statement-render :
    (u : Unicode) (to_lower : ℕ → ℕ) (ps : List Piece) (blank : Runes) (c : ℕ) (word rest : Runes)
    → render ps ≡ blank ++ (c ∷ (word ++ rest))
    → All (λ c. is_blank c ≡ true) blank
    → All (λ c. ends_word c ≡ false) (c ∷ word)
    → Ends rest
    → IsText u ps
    → length (names_of ps) ≤ 2 ^ 16
    → ((k : SqlKind)
        → Begins (map to_lower (c ∷ word)) k
        → (d : BindDetails) × (new_qualified_sql_statement u to_lower (render ps)
            ≡ ok (record { query = render ps; kind = k; binds = d; cursor_id = pos 0 }))
          × IsBindDetails d
          × (d.bind_names ≡ names_of ps))
      × (((k : SqlKind) → ¬ Begins (map to_lower (c ∷ word)) k)
          → new_qualified_sql_statement u to_lower (render ps)
            ≡ err (not_classified unrecognised_query))
unfolding new_qualified_sql_statement
new_qualified_sql_statement-render u to_lower ps blank c word rest e hb hw he text room =
    let classified =
      ap (classify_sql to_lower) e ∙ classify_sql_lem to_lower blank c word rest hb hw he in
    let (d, parsed, v, n) = parse_placeholders-render u ps text room in
    (
      λ k b. (d, rw (classified, kind_of-Begins _ k b, parsed), v, n),
      λ h. rw (classified, kind_of_other _ h),
    )
