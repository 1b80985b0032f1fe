-- ===== src/Sql/Skip.antt =====
-- What `skipCommentOrString` of internal/driver/ttc/sql_namedvalue_parser.go passes over: each comment
-- and literal as a whole, and never more than the text.
use go_oracledb.Base.{
  ℕ, ◌≤◌, ◌≡◌, refl, Bool, true, false, ◌||◌, ◌&&◌, Option, none, some, [], ◌∷◌, ◌++◌, length, ◌==◌,
  if◌then◌else◌, arith, Bool-cases, inl, inr, eq→==, ◌∙◌,
}
use native.Mathlib.Nat.{le_trans}
use go_oracledb.Base.Runes.{Runes}
use go_oracledb.Sql.Scan.{
  skip_line, skip_pair, skip_quoted, closing_of, starts, rest_of, alternative, skip_alternative,
  skip_plain_quote, skip_comment_or_string,
}

-- Some rune is `a`, and the next is `b`.
unfoldable pub has_pair : ℕ → ℕ → Runes → Bool
has_pair a b [] = false
has_pair a b (c ∷ []) = false
has_pair a b (c ∷ (d ∷ r)) = (c == a) && (d == b) || has_pair a b (d ∷ r)

unfoldable pub has_rune : ℕ → Runes → Bool
has_rune a [] = false
has_rune a (c ∷ r) = (c == a) || has_rune a r

-- A literal's text with its quotes doubled.
unfoldable pub double_quotes : ℕ → Runes → Runes
double_quotes q [] = []
double_quotes q (c ∷ r) = if c == q then q ∷ (q ∷ double_quotes q r) else c ∷ double_quotes q r

pub length-skip_line : (r : Runes) → length (skip_line r) ≤ length r
unfolding skip_line
length-skip_line [] = omega arith
length-skip_line (c ∷ r) = ground (arith, length-skip_line r)

pub length-skip_pair : (a b : ℕ) (r : Runes) → length (skip_pair a b r) ≤ length r
unfolding skip_pair
length-skip_pair a b [] = omega arith
length-skip_pair a b (c ∷ []) = omega arith
length-skip_pair a b (c ∷ (d ∷ r)) = ground (arith, length-skip_pair a b (d ∷ r))

pub length-skip_quoted : (q : ℕ) (r : Runes) → length (skip_quoted q r) ≤ length r
unfolding skip_quoted
length-skip_quoted q [] = omega arith
length-skip_quoted q (c ∷ []) = omega arith
length-skip_quoted q (c ∷ (d ∷ r)) =
    ground (arith, length-skip_quoted q (d ∷ r), length-skip_quoted q r)

length-rest_of : (r : Runes) → length (rest_of r) ≤ length r
unfolding rest_of
length-rest_of [] = omega arith
length-rest_of (c ∷ r) = omega arith

-- At most as many runes are left as `r` has.
data Within (r : Runes) : Option Runes → Type 0 where
  skips_none : Within r none
  skips_to : (rest : Runes) → length rest ≤ length r → Within r (some rest)

Within-some :
    (r : Runes) (o : Option Runes) (rest : Runes)
    → Within r o
    → o ≡ some rest
    → length rest ≤ length r
Within-some r _ rest skips_none e = absurd (cc)
Within-some r _ rest (skips_to s h) e = ground arith

Within-if :
    (r : Runes) (b : Bool) {x y : Option Runes}
    → Within r x
    → Within r y
    → Within r (if b then x else y)
Within-if r true h k = h
Within-if r false h k = k

skip_plain_quote-Within : (c : ℕ) (r : Runes) → Within r (skip_plain_quote c r)
unfolding skip_plain_quote
skip_plain_quote-Within c r =
    Within-if r (c == 39) (skips_to _ (length-skip_quoted 39 r))
      (Within-if r (c == b'"') (skips_to _ (length-skip_quoted b'"' r)) skips_none)

skip_alternative-Within : (d : ℕ) (r : Runes) → Within r (skip_alternative (d, r))
unfolding skip_alternative
skip_alternative-Within d r =
    elim (closing_of d)
      as (λ o. Within r (elim o [ none ↦ none | some closing ↦ some (skip_pair closing 39 r) ])) [
        | none ↦ skips_none
        | some closing ↦ skips_to _ (length-skip_pair closing 39 r)
      ]

alternative-Within :
    (r : Runes) → Within r (elim (alternative r) [ none ↦ none | some a ↦ skip_alternative a ])
unfolding alternative
alternative-Within [] = skips_none
alternative-Within (a ∷ []) = skips_none
alternative-Within (a ∷ (d ∷ r)) = elim (Bool-cases (a == 39)) [
  | inl e ↦ rw e (go (skip_alternative-Within d r))
  | inr e ↦ rw e skips_none
]
  where
    go : {o : Option Runes} → Within r o → Within (a ∷ (d ∷ r)) o
    go skips_none = skips_none
    go (skips_to rest h) = skips_to rest (omega arith)

skip-Within : (c : ℕ) (r : Runes) → Within r (skip_comment_or_string (c ∷ r))
unfolding skip_comment_or_string
skip-Within c r =
    Within-if r ((c == b'-') && starts b'-' r)
      (skips_to _ (le_trans (length-skip_line (rest_of r)) (length-rest_of r)))
      (Within-if r ((c == b'/') && starts b'*' r)
        (skips_to _ (le_trans (length-skip_pair b'*' b'/' (rest_of r)) (length-rest_of r)))
        (Within-if r ((c == b'q') || (c == b'Q')) (alternative-Within r)
          (skip_plain_quote-Within c r)))

-- What is skipped ends within the text, and is not empty.
pub length-skip_comment_or_string :
    (c : ℕ) (r rest : Runes) → skip_comment_or_string (c ∷ r) ≡ some rest → length rest ≤ length r
length-skip_comment_or_string c r rest h =
    Within-some r (skip_comment_or_string (c ∷ r)) rest (skip-Within c r) h

pub skip_line_lem :
    (s rest : Runes)
    → has_rune b'\n' s ≡ false
    → (length rest == 0) || starts b'\n' rest ≡ true
    → skip_line (s ++ rest) ≡ rest
unfolding skip_line has_rune starts
skip_line_lem [] [] h e = refl
skip_line_lem [] (c ∷ r) h e = ground arith
skip_line_lem (c ∷ s) rest h e = ground (arith, skip_line_lem s rest)

pub skip_pair_lem :
    (a b : ℕ) (s rest : Runes)
    → has_pair a b (s ++ (a ∷ [])) ≡ false
    → skip_pair a b (s ++ (a ∷ (b ∷ rest))) ≡ rest
unfolding skip_pair has_pair
skip_pair_lem a b [] rest h = ground arith
skip_pair_lem a b (c ∷ []) rest h = ground arith
skip_pair_lem a b (c ∷ (d ∷ s)) rest h = ground (arith, skip_pair_lem a b (d ∷ s) rest)

skip_quoted_inside :
    (q c : ℕ) (r : Runes) → (c == q) ≡ false → skip_quoted q (c ∷ r) ≡ skip_quoted q r
unfolding skip_quoted
skip_quoted_inside q c [] e = refl
skip_quoted_inside q c (d ∷ r) e = rw e

pub skip_quoted_lem :
    (q : ℕ) (s rest : Runes)
    → starts q rest ≡ false
    → skip_quoted q (double_quotes q s ++ (q ∷ rest)) ≡ rest
unfolding skip_quoted double_quotes starts
skip_quoted_lem q [] [] h = refl
skip_quoted_lem q [] (c ∷ r) h = ground arith
skip_quoted_lem q (c ∷ s) rest h = elim (Bool-cases (c == q)) [
  | inl e ↦ rw e (rw (eq→== q q refl) (skip_quoted_lem q s rest h))
  | inr e ↦ rw e (skip_quoted_inside q c _ e ∙ skip_quoted_lem q s rest h)
]
