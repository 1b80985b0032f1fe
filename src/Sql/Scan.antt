-- ===== src/Sql/Scan.antt =====
-- `skipCommentOrString` and `parsePlaceholders` of internal/driver/ttc/sql_namedvalue_parser.go. A
-- position in the text is the list of the runes from there on, so that Go's bounds tests are matches.
use go_oracledb.Base.{
  ℕ, zero, suc, ◌+◌, ◌%◌, ◌^◌, ◌-◌, Bool, false, ◌||◌, ◌&&◌, Option, none, some, List, [], ◌∷◌,
  ◌++◌, length, ltb, ◌==◌, if◌then◌else◌,
}
use go_oracledb.Base.Runes.{Runes, runes_eq}
use go_oracledb.Base.Int.{ℤ}
use go_oracledb.Base.Dict.{find, insert}
use go_oracledb.Base.Outcome.{Outcome, ok, err, stuck, ◌>>=◌}

-- The part of the `unicode` package that the scanner calls.
pub record Unicode : Type 0 where
  pub is_letter : ℕ → Bool
  pub is_digit : ℕ → Bool

pub data Error : Type 0 where
  dangling_colon invalid_arg_count placeholders_args_mismatch : Error
  name_not_found : Runes → Error
  duplicate_arg : Runes → ℕ → Error
  invalid_ordinal : ℤ → Error

-- Up to the newline, which stays.
unfoldable pub skip_line : Runes → Runes
skip_line [] = []
skip_line (c ∷ r) = if c == b'\n' then c ∷ r else skip_line r

-- Behind the first `a` that `b` follows, or the end: the search for the end of a block comment and of
-- an alternative-quoted literal.
unfoldable pub skip_pair : ℕ → ℕ → Runes → Runes
skip_pair a b [] = []
skip_pair a b (c ∷ []) = []
skip_pair a b (c ∷ (d ∷ r)) =
    let rest = skip_pair a b (d ∷ r) in if (c == a) && (d == b) then r else rest

-- Behind the closing quote `q`, where `q` twice stands for itself.
unfoldable pub skip_quoted : ℕ → Runes → Runes
skip_quoted q [] = []
skip_quoted q (c ∷ []) = []
skip_quoted q (c ∷ (d ∷ r)) =
    let inside = skip_quoted q (d ∷ r) in
    let escaped = skip_quoted q r in if c == q then (if d == q then escaped else d ∷ r) else inside

-- The closing delimiter of an alternative-quoted literal.
unfoldable pub closing_of : ℕ → Option ℕ
closing_of d =
    if (d == b' ') || (d == 9) || (d == 13)
    then none
    else if d == b'['
    then some b']'
    else if d == b'{'
    then some b'}'
    else if d == b'<'
    then some b'>'
    else if d == b'('
    then some b')'
    else some d

-- Whether the next rune is `c`.
unfoldable pub starts : ℕ → Runes → Bool
starts c [] = false
starts c (d ∷ r) = d == c

unfoldable pub rest_of : Runes → Runes
rest_of [] = []
rest_of (c ∷ r) = r

-- `'` and a delimiter, behind a `q`.
unfoldable pub alternative : Runes → Option (ℕ × Runes)
alternative (a ∷ (d ∷ r)) = if a == 39 then some (d, r) else none
alternative _ = none

unfoldable pub skip_alternative : ℕ × Runes → Option Runes
unfolding closing_of skip_pair
skip_alternative (d, r) = elim (closing_of d) [
  | none ↦ none
  | some closing ↦ some (skip_pair closing 39 r)
]

-- The single- and double-quoted forms.
unfoldable pub skip_plain_quote : ℕ → Runes → Option Runes
unfolding skip_quoted
skip_plain_quote c r =
    if c == 39
    then some (skip_quoted 39 r)
    else if c == b'"'
    then some (skip_quoted b'"' r)
    else none

-- `skipCommentOrString`: `none` where nothing is skipped, else the runes behind what is.
unfoldable pub skip_comment_or_string : Runes → Option Runes
unfolding starts rest_of skip_line skip_pair alternative skip_alternative skip_plain_quote
skip_comment_or_string [] = none
skip_comment_or_string (c ∷ r) =
    if (c == b'-') && starts b'-' r
    then some (skip_line (rest_of r))
    else if (c == b'/') && starts b'*' r
    then some (skip_pair b'*' b'/' (rest_of r))
    else if (c == b'q') || (c == b'Q')
    then elim (alternative r) [ none ↦ none | some a ↦ skip_alternative a ]
    else skip_plain_quote c r

-- `bindDetails`.
pub record BindDetails : Type 0 where
  pub bind_names : List Runes
  pub bind_map : List (Runes × List ℕ)
  pub unique_names : List (Runes × ℕ)

abbrev pub no_details : BindDetails
no_details = record { bind_names = []; bind_map = []; unique_names = [] }

abbrev pub max_bind_index : ℕ
max_bind_index = 2 ^ 16 - 1

-- The details with one more name. `occIndex`, a uint16, counts the names before it.
unfoldable pub appended : BindDetails → Runes → List (Runes × ℕ) → List ℕ → BindDetails
unfolding insert runes_eq
appended d name unique old = record {
  bind_names = d.bind_names ++ (name ∷ []);
  bind_map = insert runes_eq name (old ++ ((length d.bind_names % 2 ^ 16) ∷ [])) d.bind_map;
  unique_names = unique;
}

-- What `parsePlaceholders` does with a name behind the test whether it is new.
unfoldable pub append_name :
    BindDetails → Runes → List (Runes × ℕ) → List ℕ → Outcome Error BindDetails
unfolding appended
append_name d name unique old =
    if ltb (max_bind_index + 1) (length (d.bind_names ++ (name ∷ [])))
    then err placeholders_args_mismatch
    else ok (appended d name unique old)

-- The same, with what `occ` has for the name.
unfoldable pub record_name : BindDetails → Runes → Option (List ℕ) → Outcome Error BindDetails
unfolding append_name insert runes_eq
record_name d name none =
    if ltb max_bind_index (length d.unique_names)
    then err invalid_arg_count
    else append_name d name (insert runes_eq name (length d.unique_names % 2 ^ 16) d.unique_names)
        []
record_name d name (some old) = append_name d name d.unique_names old

unfoldable pub add_name : BindDetails → Runes → Outcome Error BindDetails
unfolding find runes_eq record_name
add_name d name = record_name d name (find runes_eq name d.bind_map)

module _ (u : Unicode) where
  unfoldable pub is_name_rune : ℕ → Bool
  is_name_rune c =
      u.is_letter c || u.is_digit c || (c == b'_') || (c == b'$') || (c == b'#') || (c == b'@')

  -- The longest name at the front, and what follows it.
  unfoldable pub name_at : Runes → Runes × Runes
  unfolding is_name_rune
  name_at [] = ([], [])
  name_at (c ∷ r) =
      let (name, rest) = name_at r in if is_name_rune c then (c ∷ name, rest) else ([], c ∷ r)

  -- The loop of `parsePlaceholders`, with fuel.
  unfoldable pub scan : ℕ → Runes → BindDetails → Outcome Error BindDetails
  unfolding skip_comment_or_string name_at add_name
  scan zero runes d = stuck
  scan (suc fuel) [] d = ok d
  scan (suc fuel) (c ∷ r) d = elim (skip_comment_or_string (c ∷ r)) [
    | some rest ↦ scan fuel rest d
    | none ↦
        let next = scan fuel r d in
        let (name, rest) = name_at r in
        let placeholder : Outcome Error BindDetails =
          (add_name d name >>= λ d'. scan fuel rest d') in
        if c == b':'
        then (if length r == 0
            then err dangling_colon
            else if starts b'=' r
            then next
            else placeholder)
        else next
  ]

  -- `parsePlaceholders`. A round passes a rune at least.
  unfoldable pub parse_placeholders : Runes → Outcome Error BindDetails
  unfolding scan
  parse_placeholders sql = scan (suc (length sql)) sql no_details
