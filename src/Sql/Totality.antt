-- ===== src/Sql/Totality.antt =====
-- `parsePlaceholders` of internal/driver/ttc/sql_namedvalue_parser.go returns on every text, with
-- details that are in order.
use go_oracledb.Base.{
  ℕ, zero, suc, ◌≤◌, ◌<◌, ◌≡◌, refl, Bool, true, false, Option, none, some, [], ◌∷◌, length, ◌==◌,
  if◌then◌else◌, arith,
}
use go_oracledb.Base.Outcome.{Outcome, ◌>>=◌, Ensures, ensures_ok, ensures_err, Ensures-bind}
use go_oracledb.Base.Runes.{Runes}
use go_oracledb.Sql.Scan.{
  Unicode, dangling_colon, BindDetails, no_details, add_name, skip_comment_or_string, starts,
  name_at, scan, parse_placeholders,
}
use go_oracledb.Sql.Skip.{length-skip_comment_or_string}
use go_oracledb.Sql.Names.{IsBindDetails, positions, index_from, distinct_from}
use go_oracledb.Sql.Details.{add_name-Added}
use go_oracledb.Base.Dict.{find}
use native.Mathlib.Nat.{le_refl}

pub no_details-IsBindDetails : IsBindDetails no_details
unfolding positions index_from distinct_from find
no_details-IsBindDetails = record {
  map = λ k. refl;
  unique = λ k. refl;
  known = λ k. refl;
  count = refl;
  fits = omega arith;
}

Ensures-if {ℓ κ ι} :
    {E : Type ℓ} {A : Type κ} (P : A → Type ι) (b : Bool) {x y : Outcome E A}
    → Ensures P x
    → Ensures P y
    → Ensures P (if b then x else y)
Ensures-if P true h k = h
Ensures-if P false h k = k

module _ (u : Unicode) where
  length-name_at : (r : Runes) → length (name_at u r).1 ≤ length r
  unfolding name_at
  length-name_at [] = omega arith
  length-name_at (c ∷ r) = ground (arith, length-name_at r)

  -- One round of the loop, where the rounds behind it are in order.
  scan_step :
      (fuel c : ℕ) (r : Runes) (d : BindDetails)
      → IsBindDetails d
      → ((rest : Runes) (d' : BindDetails)
          → length rest ≤ length r
          → IsBindDetails d'
          → Ensures IsBindDetails (scan u fuel rest d'))
      → Ensures IsBindDetails (scan u (suc fuel) (c ∷ r) d)
  unfolding scan
  scan_step fuel c r d h later = go (skip_comment_or_string (c ∷ r)) refl
    where
      placeholder :
          Ensures IsBindDetails
            (add_name d (name_at u r).0 >>= λ d'. scan u fuel (name_at u r).1 d')
      placeholder =
          Ensures-bind _ IsBindDetails _ (add_name-Added d (name_at u r).0 h)
            (λ d' h'. later (name_at u r).1 d' (length-name_at r) h'.0)

      go :
          (o : Option Runes)
          → skip_comment_or_string (c ∷ r) ≡ o
          → Ensures IsBindDetails (scan u (suc fuel) (c ∷ r) d)
      go (some rest) e = rw (e, scan) (later rest d (length-skip_comment_or_string c r rest e) h)
      go none e =
          rw (e, scan)
            (Ensures-if IsBindDetails (c == b':')
              (Ensures-if IsBindDetails (length r == 0) (ensures_err dangling_colon)
                (Ensures-if IsBindDetails (starts b'=' r) (later r d (le_refl _) h) placeholder))
              (later r d (le_refl _) h))

  scan-IsBindDetails :
      (fuel : ℕ) (runes : Runes) (d : BindDetails)
      → length runes < fuel
      → IsBindDetails d
      → Ensures IsBindDetails (scan u fuel runes d)
  scan-IsBindDetails zero runes d enough h = absurd (omega arith)
  scan-IsBindDetails (suc fuel) [] d enough h = unfold scan in ensures_ok d h
  scan-IsBindDetails (suc fuel) (c ∷ r) d enough h =
      scan_step fuel c r d h (λ rest d' short h'. scan-IsBindDetails fuel rest d' (omega arith) h')

  pub parse_placeholders-IsBindDetails :
      (sql : Runes) → Ensures IsBindDetails (parse_placeholders u sql)
  unfolding parse_placeholders
  parse_placeholders-IsBindDetails sql =
      scan-IsBindDetails (suc (length sql)) sql no_details (omega arith) no_details-IsBindDetails
