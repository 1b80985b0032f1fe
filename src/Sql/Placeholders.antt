-- ===== src/Sql/Placeholders.antt =====
-- The placeholders that `parsePlaceholders` of internal/driver/ttc/sql_namedvalue_parser.go finds in a
-- text of pieces.
use go_oracledb.Base.{
  ℕ, suc, ◌+◌, ◌%◌, ◌^◌, ◌≤◌, ◌<◌, ◌≡◌, refl, sym, ap, ◌∙◌, Option, none, some, List, [], ◌∷◌, ◌++◌,
  append-nil, append_assoc, length, length-append, arith, le→ltb_false,
}
use go_oracledb.Base.Dict.{find, insert}
use go_oracledb.Base.Outcome.{ok, Ensures-ok}
use go_oracledb.Base.Runes.{Runes, runes_eq}
use go_oracledb.Sql.Scan.{
  Unicode, BindDetails, no_details, max_bind_index, appended, append_name, record_name, add_name,
  parse_placeholders,
}
use go_oracledb.Sql.Names.{IsBindDetails, index_from, add_new, distinct_from}
use go_oracledb.Sql.Details.{Added, add_name-Added}
use go_oracledb.Sql.Totality.{no_details-IsBindDetails}
use go_oracledb.Sql.Text.{Piece, render, names_of, IsText, add_names, scan_text}

length-add_new : (seen : List Runes) (name : Runes) → length (add_new seen name) ≤ suc (length seen)
length-add_new seen name = go (index_from name 0 seen)
  where
    go :
        (o : Option ℕ)
        → length (elim o as (λ x. List Runes) [ none ↦ seen ++ (name ∷ []) | some i ↦ seen ])
          ≤ suc (length seen)
    go none = omega (arith, length-append {0} seen (name ∷ []))
    go (some i) = omega arith

length-distinct_from :
    (seen ns : List Runes) → length (distinct_from seen ns) ≤ length seen + length ns
unfolding distinct_from
length-distinct_from seen [] = omega arith
length-distinct_from seen (n ∷ ns) =
    omega (arith, length-distinct_from (add_new seen n) ns, length-add_new seen n)

append_name_room :
    (d : BindDetails) (name : Runes) (unique : List (Runes × ℕ)) (old : List ℕ)
    → length d.bind_names < 2 ^ 16
    → append_name d name unique old ≡ ok (appended d name unique old)
unfolding append_name
append_name_room d name unique old room = rw (
    le→ltb_false (2 ^ 16) (length (d.bind_names ++ (name ∷ [])))
      (omega (arith, length-append {0} d.bind_names (name ∷ []))))

-- There is room for 65536 names.
add_name_room :
    (d : BindDetails) (name : Runes)
    → IsBindDetails d
    → length d.bind_names < 2 ^ 16
    → (d' : BindDetails) × (add_name d name ≡ ok d') × Added d name d'
unfolding add_name record_name
add_name_room d name h room =
    let (d', e) = go (find runes_eq name d.bind_map) in
    (d', e, Ensures-ok (Added d name) d' (add_name-Added d name h) e)
  where
    go : (o : Option (List ℕ)) → (d' : BindDetails) × (record_name d name o ≡ ok d')
    go (some old) = (_, append_name_room d name d.unique_names old room)
    go none = (
      appended d name (insert runes_eq name (length d.unique_names % 2 ^ 16) d.unique_names) [],
      rw
          (le→ltb_false max_bind_index (length d.unique_names)
            (omega (arith, h.count, length-distinct_from [] d.bind_names)))
          (append_name_room d name _ [] room),
    )

add_names_room :
    (u : Unicode) (names : List Runes) (d : BindDetails)
    → IsBindDetails d
    → length d.bind_names + length names ≤ 2 ^ 16
    → (d' : BindDetails) × (add_names u names d ≡ ok d')
      × IsBindDetails d'
      × (d'.bind_names ≡ d.bind_names ++ names)
unfolding add_names
add_names_room u [] d h room = (d, refl, h, sym (append-nil _))
add_names_room u (name ∷ names) d h room =
    let (d', e, a) = add_name_room d name h (omega arith) in
    let (d'', e', v', n') =
      add_names_room u names d' a.0
        (omega (arith, ap length a.1, length-append {0} d.bind_names (name ∷ []))) in
    (d'', rw e e', v', n' ∙ rw a.1 (append_assoc d.bind_names (name ∷ []) names))

-- A text of pieces with at most 65536 placeholders is parsed into the names of the placeholders in
-- their order, and details that are in order: nothing in a comment, a literal or a quoted name counts.
pub parse_placeholders-render :
    (u : Unicode) (ps : List Piece)
    → IsText u ps
    → length (names_of ps) ≤ 2 ^ 16
    → (d : BindDetails) × (parse_placeholders u (render ps) ≡ ok d)
      × IsBindDetails d
      × (d.bind_names ≡ names_of ps)
unfolding parse_placeholders
parse_placeholders-render u ps h room =
    let (d, e, v, n) =
      add_names_room u (names_of ps) no_details no_details-IsBindDetails (omega arith) in
    (d, scan_text u ps (suc (length (render ps))) no_details h (omega arith) ∙ e, v, n)
