-- ===== src/Base/Dict.antt =====
-- Go's maps as association lists. The order of the list is the order in which `range` visits the map.
use go_oracledb.Base.{
  suc, ◌≤◌, ◌<◌, ◌≡◌, ◌≢◌, refl, sym, ◌∙◌, Option, none, some, List, [], ◌∷◌, length, arith, All,
}
use mathlib.Core.Logic.{ite, if_pos, if_neg}
use mathlib.Core.Path.{subst}

module _ {ℓ} {K V : Type ℓ} (dec : Discrete K) where
  -- `m[k]` with its second result.
  unfoldable pub find : K → List (K × V) → Option V
  find k [] = none
  find k ((j, v) ∷ m) = ite (dec j k) (some v) (find k m)

  -- `delete(m, k)`.
  unfoldable pub delete : K → List (K × V) → List (K × V)
  delete k [] = []
  delete k ((j, v) ∷ m) = ite (dec j k) (delete k m) ((j, v) ∷ delete k m)

  -- `m[k] = v`.
  unfoldable pub insert : K → V → List (K × V) → List (K × V)
  insert k v [] = (k, v) ∷ []
  insert k v ((j, w) ∷ m) = ite (dec j k) ((k, v) ∷ m) ((j, w) ∷ insert k v m)

  pub find-delete_self : (k : K) (m : List (K × V)) → find k (delete k m) ≡ none
  unfolding find delete
  find-delete_self k [] = refl
  find-delete_self k ((j, v) ∷ m) = elim (dec j k) [
    | yes e ↦ rw (if_pos _ e) (find-delete_self k m)
    | no e ↦ rw (if_neg _ e, if_neg (dec j k) e) (find-delete_self k m)
  ]

  pub find-delete_ne : (k i : K) (m : List (K × V)) → k ≢ i → find i (delete k m) ≡ find i m
  unfolding find delete
  find-delete_ne k i [] h = refl
  find-delete_ne k i ((j, v) ∷ m) h = elim (dec j k) [
    | yes e ↦ rw (if_pos _ e, if_neg (dec j i) (λ f. h (sym e ∙ f))) (find-delete_ne k i m h)
    | no e ↦ rw (if_neg _ e, find-delete_ne k i m h)
  ]

  pub find-insert_self : (k : K) (v : V) (m : List (K × V)) → find k (insert k v m) ≡ some v
  unfolding find insert
  find-insert_self k v [] = rw (if_pos (dec k k) refl)
  find-insert_self k v ((j, w) ∷ m) = elim (dec j k) [
    | yes e ↦ rw (if_pos (dec j k) e, if_pos (dec k k) refl)
    | no e ↦ rw (if_neg _ e, if_neg (dec j k) e) (find-insert_self k v m)
  ]

  pub find-insert_ne :
      (k i : K) (v : V) (m : List (K × V)) → k ≢ i → find i (insert k v m) ≡ find i m
  unfolding find insert
  find-insert_ne k i v [] h = rw (if_neg (dec k i) h)
  find-insert_ne k i v ((j, w) ∷ m) h = elim (dec j k) [
    | yes e ↦ rw (if_pos (dec j k) e, if_neg (dec k i) h, if_neg (dec j i) (λ f. h (sym e ∙ f)))
    | no e ↦ rw (if_neg _ e, find-insert_ne k i v m h)
  ]

  pub find-insert :
      (k j : K) (x : V) (m : List (K × V))
      → find j (insert k x m) ≡ ite (dec k j) (some x) (find j m)
  find-insert k j x m = elim (dec k j) [
    | yes e ↦ rw (if_pos _ e, ← e) (find-insert_self k x m)
    | no e ↦ rw (if_neg _ e) (find-insert_ne k j x m e)
  ]

  pub find-delete :
      (k j : K) (m : List (K × V)) → find j (delete k m) ≡ ite (dec k j) none (find j m)
  find-delete k j m = elim (dec k j) [
    | yes e ↦ rw (if_pos _ e, ← e) (find-delete_self k m)
    | no e ↦ rw (if_neg _ e) (find-delete_ne k j m e)
  ]

  pub length-delete : (k : K) (m : List (K × V)) → length (delete k m) ≤ length m
  unfolding delete
  length-delete k [] = omega arith
  length-delete k ((j, v) ∷ m) = ground (arith, length-delete k m)

  pub length-delete_found :
      (k : K) (v : V) (m : List (K × V)) → find k m ≡ some v → length (delete k m) < length m
  unfolding delete find
  length-delete_found k v [] h = cc
  length-delete_found k v ((j, w) ∷ m) h =
      ground (arith, length-delete k m, length-delete_found k v m)

  pub length-insert : (k : K) (v : V) (m : List (K × V)) → length (insert k v m) ≤ suc (length m)
  unfolding insert
  length-insert k v [] = omega arith
  length-insert k v ((j, w) ∷ m) = ground (arith, length-insert k v m)

  pub length-insert_new :
      (k : K) (v : V) (m : List (K × V)) → find k m ≡ none → length (insert k v m) ≡ suc (length m)
  unfolding insert find
  length-insert_new k v [] h = refl
  length-insert_new k v ((j, u) ∷ m) h = ground (arith, length-insert_new k v m)

  pub length-insert_found :
      (k : K) (v w : V) (m : List (K × V)) → find k m ≡ some w → length (insert k v m) ≡ length m
  unfolding insert find
  length-insert_found k v w [] h = cc
  length-insert_found k v w ((j, u) ∷ m) h = ground (arith, length-insert_found k v w m)

  pub All-delete {κ} :
      (P : K × V → Type κ) (k : K) (m : List (K × V)) → All P m → All P (delete k m)
  unfolding delete
  All-delete P k [] h = h
  All-delete P k ((j, v) ∷ m) h = elim (dec j k) [
    | yes e ↦ rw (if_pos _ e) (All-delete P k m h.1)
    | no e ↦ rw (if_neg _ e) (h.0, All-delete P k m h.1)
  ]

  pub All-insert {κ} :
      (P : K × V → Type κ) (k : K) (v : V) (m : List (K × V))
      → P (k, v)
      → All P m
      → All P (insert k v m)
  unfolding insert
  All-insert P k v [] p h = (p, h)
  All-insert P k v ((j, w) ∷ m) p h = elim (dec j k) [
    | yes e ↦ rw (if_pos _ e) (p, h.1)
    | no e ↦ rw (if_neg _ e) (h.0, All-insert P k v m p h.1)
  ]

  -- What holds of every entry holds of one that is found.
  pub All-find {κ} :
      (P : V → Type κ) (k : K) (v : V) (m : List (K × V))
      → All (λ e. P e.1) m
      → find k m ≡ some v
      → P v
  unfolding find
  All-find P k v [] h f = absurd (cc)
  All-find P k v ((j, w) ∷ m) h f = elim (dec j k) [
    | yes e ↦ let same : some w ≡ some v = rw (if_pos _ e) at f in subst P (cc) h.0
    | no e ↦ All-find P k v m h.1 (rw (if_neg _ e) at f)
  ]
