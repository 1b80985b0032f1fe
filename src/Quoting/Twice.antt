-- ===== src/Quoting/Twice.antt =====
-- `EnquoteIdentifier` of oracle/utils/enquote_helpers.go on what it returned.
use go_oracledb.Base.{
  ℕ, ◌≤◌, ◌≡◌, refl, sym, ap, ◌∙◌, true, false, ◌||◌, some, [], ◌∷◌, ◌++◌, length, ◌==◌, ==_iff,
  arith, Bool-cases, inl, inr,
}
use go_oracledb.Base.Outcome.{ok, Ensures, ensures_ok, ensures_err, Ensures-ok}
use mathlib.Core.Path.{subst}
use go_oracledb.Base.Runes.{Runes}
use go_oracledb.Naming.Parser.{unquote, before_quote}
use go_oracledb.Quoting.{
  invalid_identifier, Classes, contains_rune, has_bad_length, is_tail, matches_simple,
  is_simple_identifier, enquote_identifier,
}

before_quote_lem : (s : Runes) → before_quote (s ++ (b'"' ∷ [])) ≡ some s
unfolding before_quote
before_quote_lem [] = refl
before_quote_lem (c ∷ []) = refl
before_quote_lem (c ∷ (d ∷ r)) = rw (before_quote_lem (d ∷ r))

unquote_lem : (s : Runes) → unquote (b'"' ∷ (s ++ (b'"' ∷ []))) ≡ s
unfolding unquote
unquote_lem s = rw (before_quote_lem s)

-- A text in quotes that has neither a double quote nor a zero.
abbrev IsQuoted : Runes → Type 0
IsQuoted q =
    (s : Runes) × (q ≡ b'"' ∷ (s ++ (b'"' ∷ [])))
    × (contains_rune b'"' s ≡ false)
    × (contains_rune 0 s ≡ false)

module _ (u : Classes) where
  is_tail-contains_rune :
      (a : ℕ) (r : Runes)
      → u.is_letter a ≡ false
      → u.is_number a ≡ false
      → (a == b'_') ≡ false
      → is_tail u r ≡ true
      → contains_rune a r ≡ false
  unfolding is_tail contains_rune
  is_tail-contains_rune a [] hl hn ha h = refl
  is_tail-contains_rune a (c ∷ r) hl hn ha h = elim (Bool-cases (c == a)) [
    | inl e ↦
        let same = (==_iff c a).0 e in
        let no_letter : u.is_letter c ≡ false = ap u.is_letter same ∙ hl in
        let no_number : u.is_number c ≡ false = ap u.is_number same ∙ hn in
        absurd (ground (arith, h, no_letter, no_number, same, ha))
    | inr e ↦ rw e (is_tail-contains_rune a r hl hn ha (ground (arith, h)))
  ]

  pub is_simple_identifier-contains_rune :
      (a : ℕ) (r : Runes)
      → u.is_letter a ≡ false
      → u.is_number a ≡ false
      → (a == b'_') ≡ false
      → is_simple_identifier u r ≡ true
      → contains_rune a r ≡ false
  unfolding is_simple_identifier matches_simple
  is_simple_identifier-contains_rune a [] hl hn ha h = absurd (ground (arith, h))
  is_simple_identifier-contains_rune a (c ∷ r) hl hn ha h =
      is_tail-contains_rune a (c ∷ r) hl hn ha (unfold is_tail in ground (arith, h))

  module _ (letter : u.is_letter b'"' ≡ false) (number : u.is_number b'"' ≡ false)
      (letter_zero : u.is_letter 0 ≡ false) (number_zero : u.is_number 0 ≡ false) where
    enquote_identifier-IsQuoted :
        (identifier : Runes) → Ensures IsQuoted (enquote_identifier u identifier)
    unfolding enquote_identifier
    enquote_identifier-IsQuoted identifier = elim (Bool-cases (has_bad_length identifier)) [
      | inl bad ↦ rw bad (ensures_err invalid_identifier)
      | inr good ↦ elim (Bool-cases (is_simple_identifier u identifier)) [
        | inl simple ↦
            rw (good, simple)
              (ensures_ok (b'"' ∷ (identifier ++ (b'"' ∷ []))) (
                identifier,
                refl,
                is_simple_identifier-contains_rune b'"' identifier letter number refl simple,
                is_simple_identifier-contains_rune 0 identifier letter_zero number_zero refl simple,
              ))
        | inr other ↦
            elim (Bool-cases
              (contains_rune b'"' (unquote identifier) || contains_rune 0 (unquote identifier))) [
                | inl inside ↦ rw (good, other, inside) (ensures_err invalid_identifier)
                | inr plain ↦
                    rw (good, other, plain)
                      (ensures_ok (b'"' ∷ (unquote identifier ++ (b'"' ∷ [])))
                        (unquote identifier, refl, ground (arith, plain), ground (arith, plain)))
              ]
      ]
    ]

    not_simple : (r : Runes) → is_simple_identifier u (b'"' ∷ r) ≡ false
    unfolding is_simple_identifier matches_simple
    not_simple r = ground (arith, letter)

    good_length : (c : ℕ) (r : Runes) → length (c ∷ r) ≤ 128 → has_bad_length (c ∷ r) ≡ false
    unfolding has_bad_length
    good_length c r h = ground (arith, h)

    enquote_quoted :
        (s : Runes)
        → contains_rune b'"' s ≡ false
        → contains_rune 0 s ≡ false
        → length (b'"' ∷ (s ++ (b'"' ∷ []))) ≤ 128
        → enquote_identifier u (b'"' ∷ (s ++ (b'"' ∷ []))) ≡ ok (b'"' ∷ (s ++ (b'"' ∷ [])))
    unfolding enquote_identifier
    enquote_quoted s h h' fits = rw (
      good_length b'"' (s ++ (b'"' ∷ [])) fits,
      not_simple (s ++ (b'"' ∷ [])),
      unquote_lem s,
      h,
      h',
    )

    -- An identifier that `EnquoteIdentifier` returned is returned as it is, unless the quotes make it longer
    -- than 128 runes, where a double quote and a zero are neither letters nor numbers.
    pub enquote_identifier_twice :
        (identifier quoted : Runes)
        → enquote_identifier u identifier ≡ ok quoted
        → length quoted ≤ 128
        → enquote_identifier u quoted ≡ ok quoted
    enquote_identifier_twice identifier quoted e fits =
        let (s, form, no_quote, no_zero) =
          Ensures-ok IsQuoted quoted (enquote_identifier-IsQuoted identifier) e in
        ap (enquote_identifier u) form
        ∙ enquote_quoted s no_quote no_zero (subst (λ q. length q ≤ 128) form fits)
        ∙ ap ok (sym form)
