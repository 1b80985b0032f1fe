-- ===== src/Quoting/Scanned.antt =====
-- What oracle/utils/enquote_helpers.go puts in quotes is one token of the placeholder parser of
-- internal/driver/ttc/sql_namedvalue_parser.go: no rune of it ends the quotes or starts a placeholder.
use go_oracledb.Base.{
  ℕ, ◌≡◌, refl, sym, ap, ◌∙◌, false, ◌||◌, some, [], ◌∷◌, ◌++◌, append_assoc, ◌==◌, arith,
  Bool-cases, inl, inr,
}
use go_oracledb.Base.Outcome.{Ensures, ensures_ok, ensures_err}
use go_oracledb.Base.Runes.{Runes}
use go_oracledb.Naming.Parser.{unquote}
use go_oracledb.Sql.Scan.{starts, skip_comment_or_string}
use go_oracledb.Sql.Skip.{double_quotes}
use go_oracledb.Sql.Text.{skip_quoted_piece}
use go_oracledb.Quoting.Twice.{is_simple_identifier-contains_rune}
use go_oracledb.Quoting.{
  invalid_identifier, Classes, replace_quotes, enquote_literal, contains_rune, has_bad_length,
  is_simple_identifier, enquote_identifier,
}

replace_quotes_lem : (v : Runes) → replace_quotes v ≡ double_quotes 39 v
unfolding replace_quotes double_quotes
replace_quotes_lem [] = refl
replace_quotes_lem (c ∷ r) = rw (replace_quotes_lem r)

-- A literal of `EnquoteLiteral` is passed over as a whole, where no quote follows it.
pub skip_comment_or_string-enquote_literal :
    (val rest : Runes)
    → starts 39 rest ≡ false
    → skip_comment_or_string (enquote_literal val ++ rest) ≡ some rest
unfolding enquote_literal
skip_comment_or_string-enquote_literal val rest h =
    ap (λ t. skip_comment_or_string (39 ∷ t))
      (append_assoc (replace_quotes val) (39 ∷ []) rest
        ∙ ap (λ t. t ++ (39 ∷ rest)) (replace_quotes_lem val))
    ∙ skip_quoted_piece 39 val rest refl h

double_quotes-contains_rune :
    (q : ℕ) (s : Runes) → contains_rune q s ≡ false → double_quotes q s ≡ s
unfolding contains_rune double_quotes
double_quotes-contains_rune q [] h = refl
double_quotes-contains_rune q (c ∷ r) h = elim (Bool-cases (c == q)) [
  | inl e ↦ absurd (ground (arith, e, h))
  | inr e ↦ rw (e, double_quotes-contains_rune q r (ground (arith, e, h)))
]

-- The quoted form of a text without quotes.
skip_quoted_text :
    (s rest : Runes)
    → contains_rune b'"' s ≡ false
    → starts b'"' rest ≡ false
    → skip_comment_or_string (b'"' ∷ (s ++ (b'"' ∷ [])) ++ rest) ≡ some rest
skip_quoted_text s rest h h' =
    ap (λ t. skip_comment_or_string (b'"' ∷ t))
      (append_assoc s (b'"' ∷ []) rest
        ∙ ap (λ t. t ++ (b'"' ∷ rest)) (sym (double_quotes-contains_rune b'"' s h)))
    ∙ skip_quoted_piece b'"' s rest refl h'

module _ (u : Classes) where
  -- An identifier that `EnquoteIdentifier` accepts comes out in double quotes that are passed over as a
  -- whole, where no double quote follows them and where a double quote is no letter and no number.
  pub skip_comment_or_string-enquote_identifier :
      (identifier rest : Runes)
      → u.is_letter b'"' ≡ false
      → u.is_number b'"' ≡ false
      → starts b'"' rest ≡ false
      → Ensures
          (λ quoted. skip_comment_or_string (quoted ++ rest) ≡ some rest)
          (enquote_identifier u identifier)
  unfolding enquote_identifier
  skip_comment_or_string-enquote_identifier identifier rest hl hn h =
      elim (Bool-cases (has_bad_length identifier)) [
        | inl bad ↦ rw bad (ensures_err invalid_identifier)
        | inr good ↦ elim (Bool-cases (is_simple_identifier u identifier)) [
          | inl simple ↦
              rw (good, simple)
                (ensures_ok (b'"' ∷ (identifier ++ (b'"' ∷ []))) (
                  skip_quoted_text identifier rest
                    (is_simple_identifier-contains_rune u b'"' identifier hl hn refl simple) h))
          | inr other ↦
              elim (Bool-cases
                (contains_rune b'"' (unquote identifier) || contains_rune 0 (unquote identifier))) [
                  | inl inside ↦ rw (good, other, inside) (ensures_err invalid_identifier)
                  | inr plain ↦
                      rw (good, other, plain)
                        (ensures_ok (b'"' ∷ (unquote identifier ++ (b'"' ∷ [])))
                          (skip_quoted_text (unquote identifier) rest (ground (arith, plain)) h))
                ]
        ]
      ]
