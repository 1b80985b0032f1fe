-- ===== src/Cache/Lru/Order.antt =====
-- The elements of the list of `LRUCache` (internal/common/caches.go), by number and by key.
use go_oracledb.Base.{
  ◌≤◌, ◌<◌, ℕ, suc, ◌≡◌, ◌≢◌, refl, sym, ap, ◌∙◌, Option, none, some, List, [], ◌∷◌, length, All,
  arith,
}
use go_oracledb.Base.Dict.{find, delete}
use go_oracledb.Cache.Lru.{Element, unlink, element_value, back}
use native.Mathlib.Decide.{ℕ_discrete}
use mathlib.Core.Logic.{ite, if_pos, if_neg}
use mathlib.Core.Path.{subst}
use mathlib.Core.Option.{some-injective}

none_ne_some : {i : ℕ} → some i ≢ none
none_ne_some h = absurd (cc)

module _ {K V : Type 0} where
  -- No element of the list has the number or the key.
  abbrev pub Fresh : ℕ → K → List (Element K V) → Type 0
  Fresh i k l = All (λ e. (e.0 ≢ i) × (e.1.0 ≢ k)) l

  abbrev pub Distinct : List (Element K V) → Type 0
  Distinct [] = Unit
  Distinct ((i, (k, v)) ∷ l) = Fresh i k l × Distinct l

  -- The entries in order, without their elements.
  abbrev pub view : List (Element K V) → List (K × V)
  view [] = []
  view ((i, kv) ∷ l) = kv ∷ view l

  -- The list without its last entry.
  abbrev pub drop_last : List (K × V) → List (K × V)
  drop_last [] = []
  drop_last (kv ∷ []) = []
  drop_last (kv ∷ (kv' ∷ l)) = kv ∷ drop_last (kv' ∷ l)

  pub All-unlink {κ} :
      (P : Element K V → Type κ) (i : ℕ) (l : List (Element K V)) → All P l → All P (unlink i l)
  unfolding unlink delete
  All-unlink P i [] h = h
  All-unlink P i ((j, kv) ∷ l) h = elim (ℕ_discrete j i) [
    | yes e ↦ rw (if_pos _ e) (All-unlink P i l h.1)
    | no e ↦ rw (if_neg _ e) (h.0, All-unlink P i l h.1)
  ]

  pub Distinct-unlink : (i : ℕ) (l : List (Element K V)) → Distinct l → Distinct (unlink i l)
  unfolding unlink delete
  Distinct-unlink i [] h = h
  Distinct-unlink i ((j, (k, v)) ∷ l) h = elim (ℕ_discrete j i) [
    | yes e ↦ rw (if_pos _ e) (Distinct-unlink i l h.1)
    | no e ↦
        rw (if_neg _ e) (All-unlink (λ e. (e.0 ≢ j) × (e.1.0 ≢ k)) i l h.0, Distinct-unlink i l h.1)
  ]

  unlink_none : (i : ℕ) (l : List (Element K V)) → All (λ e. e.0 ≢ i) l → unlink i l ≡ l
  unfolding unlink delete
  unlink_none i [] h = refl
  unlink_none i ((j, kv) ∷ l) h = rw (if_neg (ℕ_discrete j i) h.0, unlink_none i l h.1)

  Fresh-number : (i : ℕ) (k : K) (l : List (Element K V)) → Fresh i k l → All (λ e. e.0 ≢ i) l
  Fresh-number i k [] h = tt
  Fresh-number i k (e ∷ l) h = (h.0.0, Fresh-number i k l h.1)

  module _ (dec : Discrete K) where
    -- The number of the first element of a key.
    unfoldable pub id_of : K → List (Element K V) → Option ℕ
    id_of k [] = none
    id_of k ((i, (j, v)) ∷ l) = ite (dec j k) (some i) (id_of k l)

    delete_none :
        (i : ℕ) (k : K) (l : List (Element K V)) → Fresh i k l → delete dec k (view l) ≡ view l
    unfolding delete
    delete_none i k [] h = refl
    delete_none i k ((j, (k', v)) ∷ l) h = rw (if_neg (dec k' k) h.0.1, delete_none i k l h.1)

    pub id_of-Fresh : (i : ℕ) (k : K) (l : List (Element K V)) → Fresh i k l → id_of k l ≡ none
    unfolding id_of
    id_of-Fresh i k [] h = refl
    id_of-Fresh i k ((j, (k', v)) ∷ l) h = rw (if_neg (dec k' k) h.0.1) (id_of-Fresh i k l h.1)

    -- An element of the list holds what holds of all.
    pub id_of-All :
        (P : ℕ → Type 0) (i : ℕ) (k : K) (l : List (Element K V))
        → All (λ e. P e.0) l
        → id_of k l ≡ some i
        → P i
    unfolding id_of
    id_of-All P i k [] h f = absurd (cc)
    id_of-All P i k ((j, (k', v)) ∷ l) h f = elim (dec k' k) [
      | yes e ↦ subst P (some-injective j i (rw (if_pos _ e) at f)) h.0
      | no e ↦ id_of-All P i k l h.1 (rw (if_neg _ e) at f)
    ]

    -- What the list has at the number that it has for a key.
    pub record Found (i : ℕ) (k : K) (l : List (Element K V)) : Type 0 where
      pub value : V
      pub at_number : element_value i l ≡ some (k, value)
      pub at_key : find dec k (view l) ≡ some value
      pub others_fresh : Fresh i k (unlink i l)
      pub view_unlink : view (unlink i l) ≡ delete dec k (view l)
      pub id_unlink : (j : K) → k ≢ j → id_of j (unlink i l) ≡ id_of j l
      pub length_unlink : suc (length (unlink i l)) ≡ length l

    unlink_front :
        (i : ℕ) (kv : K × V) (l : List (Element K V))
        → All (λ e. e.0 ≢ i) l
        → unlink i ((i, kv) ∷ l) ≡ l
    unfolding unlink delete
    unlink_front i kv l h = rw (if_pos (ℕ_discrete i i) refl) (unlink_none i l h)

    unlink_behind :
        (i j : ℕ) (kv : K × V) (l : List (Element K V))
        → j ≢ i
        → unlink i ((j, kv) ∷ l) ≡ (j, kv) ∷ unlink i l
    unfolding unlink delete
    unlink_behind i j kv l h = rw (if_neg (ℕ_discrete j i) h)

    Found-front :
        (i : ℕ) (k : K) (v : V) (l : List (Element K V)) → Fresh i k l → Found i k ((i, (k, v)) ∷ l)
    unfolding id_of element_value find delete
    Found-front i k v l h =
        let front = unlink_front i (k, v) l (Fresh-number i k l h) in
        record {
          value = v;
          at_number = rw (if_pos (ℕ_discrete i i) refl);
          at_key = rw (if_pos (dec k k) refl);
          others_fresh = rw front h;
          view_unlink = rw (front, if_pos (dec k k) refl) (sym (delete_none i k l h));
          id_unlink = λ j ne. rw (front, if_neg (dec k j) ne);
          length_unlink = rw front;
        }

    Found-behind :
        (i j : ℕ) (k k' : K) (v : V) (l : List (Element K V))
        → j ≢ i
        → k' ≢ k
        → Found i k l
        → Found i k ((j, (k', v)) ∷ l)
    unfolding id_of element_value find delete
    Found-behind i j k k' v l h h' f =
        let behind = unlink_behind i j (k', v) l h in
        record {
          value = f.value;
          at_number = rw (if_neg (ℕ_discrete j i) h) f.at_number;
          at_key = rw (if_neg (dec k' k) h') f.at_key;
          others_fresh = rw behind ((h, h'), f.others_fresh);
          view_unlink = rw (behind, if_neg (dec k' k) h', f.view_unlink);
          id_unlink = λ m ne. rw (behind, f.id_unlink m ne);
          length_unlink = rw behind (ap suc f.length_unlink);
        }

    pub id_of-Found :
        (i : ℕ) (k : K) (l : List (Element K V)) → Distinct l → id_of k l ≡ some i → Found i k l
    unfolding id_of
    id_of-Found i k [] d f = absurd (cc)
    id_of-Found i k ((j, (k', v)) ∷ l) d f = elim (dec k' k) [
      | yes e ↦
          let same : j ≡ i = some-injective j i (rw (if_pos _ e) at f) in
          subst (λ x. Found x k ((j, (k', v)) ∷ l)) same
            (subst (λ y. Found j y ((j, (k', v)) ∷ l)) e (Found-front j k' v l d.0))
      | no e ↦
          let behind : id_of k l ≡ some i = rw (if_neg _ e) at f in
          Found-behind i j k k' v l
            (λ p. id_of-All (λ x. x ≢ j) i k l (Fresh-number j k' l d.0) behind (sym p)) e
            (id_of-Found i k l d.1 behind)
    ]

    -- A key that has no number has no entry.
    pub id_of-none :
        (k : K) (l : List (Element K V))
        → id_of k l ≡ none
        → (find dec k (view l) ≡ none) × (delete dec k (view l) ≡ view l)
    unfolding id_of find delete
    id_of-none k [] f = (refl, refl)
    id_of-none k ((j, (k', v)) ∷ l) f = elim (dec k' k) [
      | yes e ↦ absurd (none_ne_some (rw (if_pos _ e) at f))
      | no e ↦
          let (a, b) = id_of-none k l (rw (if_neg _ e) at f) in
          (rw (if_neg (dec k' k) e) a, rw (if_neg (dec k' k) e, b))
    ]

    unlink_only : (i j : ℕ) (kv : K × V) → j ≡ i → unlink i ((j, kv) ∷ []) ≡ []
    unfolding unlink delete
    unlink_only i j kv e = rw (if_pos (ℕ_discrete j i) e)

    back-All :
        (P : Element K V → Type 0) (x : Element K V) (l : List (Element K V))
        → All P l
        → back l ≡ some x
        → P x
    unfolding back
    back-All P x [] h f = absurd (cc)
    back-All P x (y ∷ []) h f = subst P (some-injective y x f) h.0
    back-All P x (y ∷ (z ∷ l)) h f = back-All P x (z ∷ l) h.1 f

    -- The last element is the one of its key.
    pub id_of-back :
        (i : ℕ) (k : K) (v : V) (l : List (Element K V))
        → Distinct l
        → back l ≡ some (i, (k, v))
        → (id_of k l ≡ some i) × (view (unlink i l) ≡ drop_last (view l))
    unfolding id_of back
    id_of-back i k v [] d f = absurd (cc)
    id_of-back i k v ((j, (k', w)) ∷ []) d f =
        let same = some-injective (j, (k', w)) (i, (k, v)) f in
        (
          if_pos (dec k' k) (ap (λ e. e.1.0) same) (some j) none ∙ ap (λ e. some e.0) same,
          ap view (unlink_only i j (k', w) (ap (λ e. e.0) same)),
        )
    id_of-back i k v ((j, (k', w)) ∷ (e ∷ l)) d f =
        let (number, key) = back-All (λ e. (e.0 ≢ j) × (e.1.0 ≢ k')) (i, (k, v)) (e ∷ l) d.0 f in
        let (at_key, rest) = id_of-back i k v (e ∷ l) d.1 f in
        (
          if_neg (dec k' k) (λ p. key (sym p)) (some j) (id_of k (e ∷ l)) ∙ at_key,
          ap view (unlink_behind i j (k', w) (e ∷ l) (λ p. number (sym p)))
              ∙ ap (λ t. (k', w) ∷ t) rest,
        )

    -- A new number and a key without a number are fresh.
    pub id_of-Fresh_new :
        (n : ℕ) (k : K) (l : List (Element K V))
        → All (λ e. e.0 < n) l
        → id_of k l ≡ none
        → Fresh n k l
    unfolding id_of
    id_of-Fresh_new n k [] h f = tt
    id_of-Fresh_new n k ((j, (k', v)) ∷ l) h f = elim (dec k' k) [
      | yes e ↦ absurd (none_ne_some (rw (if_pos _ e) at f))
      | no e ↦ ((λ p. omega (arith, h.0, p), e), id_of-Fresh_new n k l h.1 (rw (if_neg _ e) at f))
    ]

  pub back-some : (l : List (Element K V)) → 1 ≤ length l → (x : Element K V) × (back l ≡ some x)
  unfolding back
  back-some [] h = absurd (omega arith)
  back-some (x ∷ []) h = (x, refl)
  back-some (x ∷ (y ∷ l)) h = back-some (y ∷ l) (omega arith)
