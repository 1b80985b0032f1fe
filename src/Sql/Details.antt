-- ===== src/Sql/Details.antt =====
-- What `parsePlaceholders` of internal/driver/ttc/sql_namedvalue_parser.go keeps of the names: where
-- each one stands, and the numbers of the different ones.
use go_oracledb.Base.{
  ℕ, suc, ◌+◌, ◌%◌, ◌^◌, ◌≤◌, ◌<◌, ◌≡◌, ◌≢◌, refl, sym, ap, ◌∙◌, true, false, Option, none, some,
  List, [], ◌∷◌, ◌++◌, append-nil, length, length-append, ltb, arith, Bool-cases, inl, inr,
  ltb_false→le,
}
use go_oracledb.Base.Dict.{find, insert, find-insert, length-insert_new}
use go_oracledb.Base.Outcome.{Ensures, ensures_ok, ensures_err}
use go_oracledb.Base.Runes.{Runes, runes_eq}
use go_oracledb.Sql.Scan.{
  invalid_arg_count, placeholders_args_mismatch, BindDetails, max_bind_index, append_name,
  record_name, add_name,
}
use mathlib.Core.Logic.{ite, if_pos, if_neg}
use go_oracledb.Sql.Names.{
  positions, non_empty, index_from, add_new, distinct, is_none, IsBindDetails, positions-append,
  or_else, index_from-append, distinct_from-append, non_empty-append,
}

-- What `record_name` is given: the places of the name so far.
abbrev Old : BindDetails → Runes → List ℕ → Type 0
Old d name old = old ≡ positions name 0 d.bind_names

map_step :
    (d : BindDetails) (name : Runes) (old : List ℕ)
    → IsBindDetails d
    → Old d name old
    → length d.bind_names < 2 ^ 16
    → (k : Runes)
    → find runes_eq k
        (insert runes_eq name (old ++ ((length d.bind_names % 2 ^ 16) ∷ [])) d.bind_map)
      ≡ non_empty (positions k 0 (d.bind_names ++ (name ∷ [])))
unfolding positions
map_step d name old h o small k = elim (runes_eq name k) [
  | yes e ↦
      rw (find-insert, if_pos _ e, positions-append, if_pos _ e)
        (rw (← e, o, non_empty-append)
          (ap (λ (t : ℕ). some (positions name 0 d.bind_names ++ (t ∷ []))) (omega arith)))
  | no e ↦
      rw (find-insert, if_neg _ e, positions-append, if_neg _ e)
        (h.map k ∙ ap non_empty (sym (append-nil _)))
]

abbrev pub Added : BindDetails → Runes → BindDetails → Type 0
Added d name d' = IsBindDetails d' × (d'.bind_names ≡ d.bind_names ++ (name ∷ []))

-- The numbers of the different names once `name` is added.
record Numbered (d : BindDetails) (name : Runes) (unique : List (Runes × ℕ)) : Type 0 where
  numbers :
      (k : Runes) → find runes_eq k unique ≡ index_from k 0 (distinct (d.bind_names ++ (name ∷ [])))
  here : is_none (index_from name 0 (distinct (d.bind_names ++ (name ∷ [])))) ≡ false
  others :
      (k : Runes)
      → name ≢ k
      → is_none (index_from k 0 (distinct (d.bind_names ++ (name ∷ []))))
        ≡ is_none (index_from k 0 (distinct d.bind_names))
  size : length unique ≡ length (distinct (d.bind_names ++ (name ∷ [])))

append_name-Added :
    (d : BindDetails) (name : Runes) (unique : List (Runes × ℕ)) (old : List ℕ)
    → IsBindDetails d
    → Old d name old
    → Numbered d name unique
    → Ensures (Added d name) (append_name d name unique old)
unfolding append_name
append_name-Added d name unique old h o n =
    elim (Bool-cases (ltb (2 ^ 16) (length (d.bind_names ++ (name ∷ []))))) [
      | inl e ↦ rw e (ensures_err placeholders_args_mismatch)
      | inr e ↦
          let small : suc (length d.bind_names) ≤ 2 ^ 16 =
            omega (arith, ltb_false→le _ _ e, length-append {0} d.bind_names (name ∷ [])) in
          rw e (
            ensures_ok _ (
              record {
                map = map_step d name old h o small;
                unique = n.numbers;
                known = λ k. known k;
                count = n.size;
                fits = ltb_false→le _ _ e;
              },
              refl,
            ))
    ]
  where
    known :
        (k : Runes)
        → is_none (
            find runes_eq k
              (insert runes_eq name (old ++ ((length d.bind_names % 2 ^ 16) ∷ [])) d.bind_map))
          ≡ is_none (index_from k 0 (distinct (d.bind_names ++ (name ∷ []))))
    known k = elim (runes_eq name k) [
      | yes e ↦ rw (find-insert, if_pos _ e, ← e) (sym n.here)
      | no e ↦ rw (find-insert, if_neg _ e) (h.known k ∙ sym (n.others k e))
    ]

non_empty-eq-none : (l : List ℕ) → non_empty l ≡ none → [] ≡ l
non_empty-eq-none [] e = refl
non_empty-eq-none (i ∷ l) e = absurd (cc)

non_empty-eq-some : (l old : List ℕ) → non_empty l ≡ some old → old ≡ l
non_empty-eq-some [] old e = absurd (cc)
non_empty-eq-some (i ∷ l) old e = cc

none_of_is_none : (o : Option ℕ) → is_none o ≡ true → o ≡ none
none_of_is_none none e = refl
none_of_is_none (some i) e = absurd (cc)

or_else-none : (o : Option ℕ) → or_else o none ≡ o
unfolding or_else
or_else-none none = refl
or_else-none (some i) = refl

is_none-or_else : (o : Option ℕ) (i : ℕ) → is_none (or_else o (some i)) ≡ false
unfolding or_else
is_none-or_else none i = refl
is_none-or_else (some j) i = refl

distinct_old :
    (names : List Runes) (name : Runes)
    → is_none (index_from name 0 (distinct names)) ≡ false
    → distinct (names ++ (name ∷ [])) ≡ distinct names
distinct_old names name e =
    distinct_from-append name [] names ∙ go (index_from name 0 (distinct names)) refl
  where
    go :
        (o : Option ℕ)
        → index_from name 0 (distinct names) ≡ o
        → add_new (distinct names) name ≡ distinct names
    go none f = absurd (cc (e, ap is_none f))
    go (some i) f = rw (f, add_new)

distinct_new :
    (names : List Runes) (name : Runes)
    → index_from name 0 (distinct names) ≡ none
    → distinct (names ++ (name ∷ [])) ≡ distinct names ++ (name ∷ [])
distinct_new names name e = distinct_from-append name [] names ∙ rw (e, add_new)

unique_kept :
    (d : BindDetails) (name : Runes)
    → IsBindDetails d
    → is_none (index_from name 0 (distinct d.bind_names)) ≡ false
    → Numbered d name d.unique_names
unique_kept d name h e =
    let same = distinct_old d.bind_names name e in
    record {
      numbers = λ k. rw same (h.unique k);
      here = rw same e;
      others = λ k f. rw same;
      size = rw same h.count;
    }

unique_added :
    (d : BindDetails) (name : Runes)
    → IsBindDetails d
    → index_from name 0 (distinct d.bind_names) ≡ none
    → length d.unique_names < 2 ^ 16
    → Numbered d name (insert runes_eq name (length d.unique_names % 2 ^ 16) d.unique_names)
unfolding index_from
unique_added d name h e small = record {
  numbers = λ k. rw (more, find-insert, index_from-append) (number k);
  here = rw (more, index_from-append, if_pos (runes_eq name name) refl) (is_none-or_else _ _);
  others = λ k f. rw (more, index_from-append, if_neg (runes_eq name k) f, or_else-none);
  size =
      length-insert_new runes_eq name _ d.unique_names (h.unique name ∙ e)
      ∙ omega
          (arith, h.count, ap length more, length-append {0} (distinct d.bind_names) (name ∷ []));
}
  where
    more : distinct (d.bind_names ++ (name ∷ [])) ≡ distinct d.bind_names ++ (name ∷ [])
    more = distinct_new d.bind_names name e

    number :
        (k : Runes)
        → ite
            (runes_eq name k)
            (some (length d.unique_names % 2 ^ 16))
            (find runes_eq k d.unique_names)
          ≡ or_else
              (index_from k 0 (distinct d.bind_names))
              (index_from k (0 + length (distinct d.bind_names)) (name ∷ []))
    number k = elim (runes_eq name k) [
      | yes f ↦
          rw (if_pos _ f, if_pos (runes_eq name k) f, ← f, e)
            (unfold or_else in ap some (omega (arith, h.count)))
      | no f ↦ rw (if_neg _ f, if_neg (runes_eq name k) f, or_else-none) (h.unique k)
    ]

-- Adding a name keeps the details in order, or there are more than 65536.
pub add_name-Added :
    (d : BindDetails) (name : Runes) → IsBindDetails d → Ensures (Added d name) (add_name d name)
unfolding add_name record_name
add_name-Added d name h = go (find runes_eq name d.bind_map) refl
  where
    go :
        (o : Option (List ℕ))
        → find runes_eq name d.bind_map ≡ o
        → Ensures (Added d name) (record_name d name o)
    go none e = elim (Bool-cases (ltb max_bind_index (length d.unique_names))) [
      | inl f ↦ rw f (ensures_err invalid_arg_count)
      | inr f ↦ rw f (
          append_name-Added d name _ [] h (non_empty-eq-none _ (sym (h.map name) ∙ e)) (
            unique_added d name h (none_of_is_none _ (sym (h.known name) ∙ ap is_none e))
              (omega (arith, ltb_false→le _ _ f))))
    ]
    go (some old) e =
        append_name-Added d name d.unique_names old h
          (non_empty-eq-some _ old (sym (h.map name) ∙ e))
          (unique_kept d name h (sym (h.known name) ∙ ap is_none e))
