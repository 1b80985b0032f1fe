-- ===== src/Quoting.antt =====
-- oracle/utils/enquote_helpers.go: literals and identifiers in quotes. The classes `\p{L}` and `\p{N}` of
-- the package regexp are parameters.
pub mod Twice
pub mod Scanned
mod Runs
use go_oracledb.Base.{
  ℕ, Bool, true, false, ◌||◌, ◌&&◌, not, List, [], ◌∷◌, ◌++◌, length, ltb, leb, ◌==◌, if◌then◌else◌,
}
use go_oracledb.Base.Outcome.{Outcome, ok, err}
use go_oracledb.Base.Runes.{Runes}
use go_oracledb.Naming.Parser.{unquote}

pub data Error : Type 0 where
  invalid_identifier : Error

pub record Classes : Type 0 where
  pub is_letter : ℕ → Bool
  pub is_number : ℕ → Bool

-- `strings.ReplaceAll(val, "'", "''")`.
unfoldable pub replace_quotes : Runes → Runes
replace_quotes [] = []
replace_quotes (c ∷ r) = if c == 39 then 39 ∷ (39 ∷ replace_quotes r) else c ∷ replace_quotes r

-- `EnquoteLiteral`.
unfoldable pub enquote_literal : Runes → Runes
unfolding replace_quotes
enquote_literal val = 39 ∷ (replace_quotes val ++ (39 ∷ []))

-- `EnquoteNCharLiteral`.
unfoldable pub enquote_nchar_literal : Runes → Runes
unfolding replace_quotes
enquote_nchar_literal val = b'N' ∷ (39 ∷ (replace_quotes val ++ (39 ∷ [])))

-- `strings.ContainsRune`.
unfoldable pub contains_rune : ℕ → Runes → Bool
contains_rune a [] = false
contains_rune a (c ∷ r) = (c == a) || contains_rune a r

-- `common.MaxIdentifierLength`.
abbrev pub max_identifier_length : ℕ
max_identifier_length = 128

-- The test for the length.
unfoldable pub has_bad_length : Runes → Bool
has_bad_length identifier =
    ltb (length identifier) 1 || ltb max_identifier_length (length identifier)

module _ (u : Classes) where
  -- `[\p{L}\p{N}_]*`.
  unfoldable pub is_tail : Runes → Bool
  is_tail [] = true
  is_tail (c ∷ r) = (u.is_letter c || u.is_number c || (c == b'_')) && is_tail r

  -- `simpleIdentifierPattern`.
  unfoldable pub matches_simple : Runes → Bool
  unfolding is_tail
  matches_simple [] = false
  matches_simple (c ∷ r) = u.is_letter c && is_tail r

  -- `IsSimpleIdentifier`.
  unfoldable pub is_simple_identifier : Runes → Bool
  unfolding has_bad_length matches_simple
  is_simple_identifier identifier = not (has_bad_length identifier) && matches_simple identifier

  -- `EnquoteIdentifier`. A pair of quotes around the identifier goes, as in the naming package.
  unfoldable pub enquote_identifier : Runes → Outcome Error Runes
  enquote_identifier identifier =
      let unquoted = unquote identifier in
      if has_bad_length identifier
      then err invalid_identifier
      else if is_simple_identifier identifier
      then ok (b'"' ∷ (identifier ++ (b'"' ∷ [])))
      else if contains_rune b'"' unquoted || contains_rune 0 unquoted
      then err invalid_identifier
      else ok (b'"' ∷ (unquoted ++ (b'"' ∷ [])))
