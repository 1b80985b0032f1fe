-- ===== src/Sql/Text.antt =====
-- SQL texts as their pieces, and the placeholders that `parsePlaceholders` of
-- internal/driver/ttc/sql_namedvalue_parser.go finds in them.
use go_oracledb.Base.{
  ℕ, zero, suc, ◌≤◌, ◌<◌, ◌≡◌, refl, ap, ◌∙◌, Bool, true, false, not, ◌||◌, ◌&&◌, none, some, List,
  [], ◌∷◌, ◌++◌, length, length-append, All, ◌==◌, arith, Bool-cases, ==_iff, ne→==_false, inl, inr,
}
use go_oracledb.Base.Outcome.{Outcome, ok, ◌>>=◌}
use go_oracledb.Base.Runes.{Runes}
use go_oracledb.Sql.Scan.{
  Unicode, Error, BindDetails, add_name, skip_comment_or_string, alternative, skip_alternative,
  skip_plain_quote, skip_quoted, closing_of, starts, is_name_rune, name_at, scan,
}
use mathlib.Core.Path.{fun_ext}
use go_oracledb.Sql.Skip.{
  has_pair, has_rune, double_quotes, skip_line_lem, skip_pair_lem, skip_quoted_lem,
}

-- The pieces of a text: a rune of its own, `:=`, the two kinds of comment, a quoted literal or
-- identifier, `q'…'` with its two delimiters, and a placeholder.
pub data Piece : Type 0 where
  rune : ℕ → Piece
  assign : Piece
  line : Runes → Piece
  block : Runes → Piece
  quoted : ℕ → Runes → Piece
  alternative_quoted : ℕ → ℕ → Runes → Piece
  placeholder : Runes → Piece

-- The text of a piece, in front of what follows.
abbrev pub text_of : Piece → Runes → Runes
text_of (rune c) rest = c ∷ rest
text_of assign rest = b':' ∷ (b'=' ∷ rest)
text_of (line s) rest = b'-' ∷ (b'-' ∷ (s ++ rest))
text_of (block s) rest = b'/' ∷ (b'*' ∷ (s ++ (b'*' ∷ (b'/' ∷ rest))))
text_of (quoted q s) rest = q ∷ (double_quotes q s ++ (q ∷ rest))
text_of (alternative_quoted d closing s) rest = b'q' ∷ (39 ∷ (d ∷ (s ++ (closing ∷ (39 ∷ rest)))))
text_of (placeholder name) rest = b':' ∷ (name ++ rest)

abbrev pub render : List Piece → Runes
render [] = []
render (p ∷ ps) = text_of p (render ps)

abbrev pub names_of : List Piece → List Runes
names_of [] = []
names_of (placeholder name ∷ ps) = name ∷ names_of ps
names_of (_ ∷ ps) = names_of ps

-- A rune that starts neither a placeholder nor anything that is skipped.
unfoldable pub is_plain : ℕ → Runes → Bool
unfolding starts
is_plain c rest =
    not (c == b':')
    && not (c == 39)
    && not (c == b'"')
    && not (c == b'-' && starts b'-' rest)
    && not (c == b'/' && starts b'*' rest)
    && not ((c == b'q' || c == b'Q') && starts 39 rest)

skip_plain :
    (c : ℕ) (rest : Runes) → is_plain c rest ≡ true → skip_comment_or_string (c ∷ rest) ≡ none
unfolding skip_comment_or_string is_plain alternative skip_plain_quote starts
skip_plain c [] h = ground arith
skip_plain c (a ∷ []) h = ground arith
skip_plain c (a ∷ (d ∷ r)) h = ground arith

no_colon : (c : ℕ) (rest : Runes) → is_plain c rest ≡ true → (c == b':') ≡ false
unfolding is_plain
no_colon c rest h = ground arith

skip_line_piece :
    (s rest : Runes)
    → has_rune b'\n' s ≡ false
    → (length rest == 0) || starts b'\n' rest ≡ true
    → skip_comment_or_string (b'-' ∷ (b'-' ∷ (s ++ rest))) ≡ some rest
unfolding skip_comment_or_string
skip_line_piece s rest h e = ap some (skip_line_lem s rest h e)

skip_block_piece :
    (s rest : Runes)
    → has_pair b'*' b'/' (s ++ (b'*' ∷ [])) ≡ false
    → skip_comment_or_string (b'/' ∷ (b'*' ∷ (s ++ (b'*' ∷ (b'/' ∷ rest))))) ≡ some rest
unfolding skip_comment_or_string
skip_block_piece s rest h = ap some (skip_pair_lem b'*' b'/' s rest h)

skip_quote :
    (q : ℕ) (r : Runes)
    → (q == 39) || (q == b'"') ≡ true
    → skip_comment_or_string (q ∷ r) ≡ some (skip_quoted q r)
unfolding skip_comment_or_string skip_plain_quote
skip_quote q r h = elim (Bool-cases (q == 39)) [
  | inl e ↦ rw ((==_iff q 39).0 e)
  | inr e ↦ rw ((==_iff q b'"').0 (ground arith))
]

pub skip_quoted_piece :
    (q : ℕ) (s rest : Runes)
    → (q == 39) || (q == b'"') ≡ true
    → starts q rest ≡ false
    → skip_comment_or_string (q ∷ (double_quotes q s ++ (q ∷ rest))) ≡ some rest
skip_quoted_piece q s rest h e = skip_quote q _ h ∙ ap some (skip_quoted_lem q s rest e)

skip_alternative_piece :
    (d closing : ℕ) (s rest : Runes)
    → closing_of d ≡ some closing
    → has_pair closing 39 (s ++ (closing ∷ [])) ≡ false
    → skip_comment_or_string (b'q' ∷ (39 ∷ (d ∷ (s ++ (closing ∷ (39 ∷ rest)))))) ≡ some rest
unfolding skip_comment_or_string skip_alternative
skip_alternative_piece d closing s rest e h =
    rw (e, skip_alternative) (ap some (skip_pair_lem closing 39 s rest h))

module _ (u : Unicode) where
  unfoldable pub starts_name : Runes → Bool
  starts_name [] = false
  starts_name (c ∷ r) = is_name_rune u c

  -- What may follow a piece, so that the next one starts where it ends.
  abbrev pub Fits : Piece → Runes → Type 0
  Fits (rune c) rest = is_plain c rest ≡ true
  Fits assign rest = Unit
  Fits (line s) rest = (has_rune b'\n' s ≡ false) × ((length rest == 0) || starts b'\n' rest ≡ true)
  Fits (block s) rest = has_pair b'*' b'/' (s ++ (b'*' ∷ [])) ≡ false
  Fits (quoted q s) rest = ((q == 39) || (q == b'"') ≡ true) × (starts q rest ≡ false)
  Fits (alternative_quoted d closing s) rest =
      (closing_of d ≡ some closing) × (has_pair closing 39 (s ++ (closing ∷ [])) ≡ false)
  Fits (placeholder name) rest =
      All (λ c. is_name_rune u c ≡ true) name
      × (starts_name rest ≡ false)
      × (starts b'=' (name ++ rest) ≡ false)
      × (1 ≤ length (name ++ rest))

  abbrev pub IsText : List Piece → Type 0
  IsText [] = Unit
  IsText (p ∷ ps) = Fits p (render ps) × IsText ps

  unfoldable pub add_names : List Runes → BindDetails → Outcome Error BindDetails
  add_names [] d = ok d
  add_names (name ∷ names) d = add_name d name >>= add_names names

  name_at_lem :
      (name rest : Runes)
      → All (λ c. is_name_rune u c ≡ true) name
      → starts_name rest ≡ false
      → name_at u (name ++ rest) ≡ (name, rest)
  unfolding name_at starts_name
  name_at_lem [] [] h e = refl
  name_at_lem [] (c ∷ r) h e = rw e
  name_at_lem (c ∷ name) rest h e = rw (h.0, name_at_lem name rest h.1 e)

  scan_skip :
      (fuel c : ℕ) (r rest : Runes) (d : BindDetails)
      → skip_comment_or_string (c ∷ r) ≡ some rest
      → scan u (suc fuel) (c ∷ r) d ≡ scan u fuel rest d
  unfolding scan
  scan_skip fuel c r rest d e = rw (e, scan)

  scan_plain :
      (fuel c : ℕ) (r : Runes) (d : BindDetails)
      → is_plain c r ≡ true
      → scan u (suc fuel) (c ∷ r) d ≡ scan u fuel r d
  unfolding scan
  scan_plain fuel c r d e = rw (skip_plain c r e, scan, no_colon c r e)

  scan_assign :
      (fuel : ℕ) (r : Runes) (d : BindDetails)
      → scan u (suc (suc fuel)) (b':' ∷ (b'=' ∷ r)) d ≡ scan u fuel r d
  unfolding scan skip_comment_or_string starts skip_plain_quote
  scan_assign fuel r d = rw (ne→==_false (suc (length r)) 0 (λ e. omega arith))

  scan_placeholder :
      (fuel : ℕ) (name rest : Runes) (d : BindDetails)
      → Fits (placeholder name) rest
      → scan u (suc fuel) (b':' ∷ (name ++ rest)) d
        ≡ (add_name d name >>= λ d'. scan u fuel rest d')
  unfolding scan skip_comment_or_string skip_plain_quote
  scan_placeholder fuel name rest d h = rw (
    name_at_lem name rest h.0 h.1,
    h.2,
    ne→==_false (length (name ++ rest)) 0 (λ e. omega (arith, h.3)),
  )

  -- The scan of a text is the names of its pieces, added one after the other.
  pub scan_text :
      (ps : List Piece) (fuel : ℕ) (d : BindDetails)
      → IsText ps
      → length (render ps) < fuel
      → scan u fuel (render ps) d ≡ add_names (names_of ps) d
  unfolding add_names
  scan_text ps zero d h enough = absurd (omega arith)
  scan_text [] (suc fuel) d h enough = unfold scan in refl
  scan_text (rune c ∷ ps) (suc fuel) d h enough =
      scan_plain fuel c (render ps) d h.0 ∙ scan_text ps fuel d h.1 (omega arith)
  scan_text (assign ∷ ps) (suc zero) d h enough = absurd (omega arith)
  scan_text (assign ∷ ps) (suc (suc fuel)) d h enough =
      scan_assign fuel (render ps) d ∙ scan_text ps fuel d h.1 (omega arith)
  scan_text (line s ∷ ps) (suc fuel) d h enough =
      scan_skip fuel b'-' (b'-' ∷ (s ++ render ps)) (render ps) d
        (skip_line_piece s (render ps) h.0.0 h.0.1)
      ∙ scan_text ps fuel d h.1 (omega (arith, length-append {0} s (render ps)))
  scan_text (block s ∷ ps) (suc fuel) d h enough =
      scan_skip fuel b'/' (b'*' ∷ (s ++ (b'*' ∷ (b'/' ∷ render ps)))) (render ps) d
        (skip_block_piece s (render ps) h.0)
      ∙ scan_text ps fuel d h.1 (omega (arith, length-append {0} s (b'*' ∷ (b'/' ∷ render ps))))
  scan_text (quoted q s ∷ ps) (suc fuel) d h enough =
      scan_skip fuel q (double_quotes q s ++ (q ∷ render ps)) (render ps) d
        (skip_quoted_piece q s (render ps) h.0.0 h.0.1)
      ∙ scan_text ps fuel d h.1
          (omega (arith, length-append {0} (double_quotes q s) (q ∷ render ps)))
  scan_text (alternative_quoted c closing s ∷ ps) (suc fuel) d h enough =
      scan_skip fuel b'q' (39 ∷ (c ∷ (s ++ (closing ∷ (39 ∷ render ps))))) (render ps) d
        (skip_alternative_piece c closing s (render ps) h.0.0 h.0.1)
      ∙ scan_text ps fuel d h.1 (omega (arith, length-append {0} s (closing ∷ (39 ∷ render ps))))
  scan_text (placeholder name ∷ ps) (suc fuel) d h enough =
      scan_placeholder fuel name (render ps) d h.0
      ∙ ap (λ k. add_name d name >>= k)
          (fun_ext
            (λ d'. scan_text ps fuel d' h.1 (omega (arith, length-append {0} name (render ps)))))
