-- ===== src/Cache/Lru/Invariant.antt =====
-- The invariant of `LRUCache` (internal/common/caches.go), and what each change of the list does to it.
use go_oracledb.Base.{
  ℕ, suc, ◌≤◌, ◌<◌, ◌≡◌, refl, sym, ap, ◌∙◌, none, some, List, [], ◌∷◌, length, All, arith,
}
use go_oracledb.Base.Dict.{find, delete, find-insert, find-delete}
use go_oracledb.Cache.Lru.{
  Element, LruCache, unlink, move_to_front, back, push_front, remove_oldest,
}
use go_oracledb.Cache.Lru.Order.{
  Distinct, view, All-unlink, Distinct-unlink, id_of, id_of-All, id_of-Fresh, id_of-Found,
  id_of-back, id_of-Fresh_new, back-some, drop_last,
}
use mathlib.Core.Logic.{ite, if_pos, if_neg}

delete_still_none :
    {K : Type 0} (dec : Discrete K) (k j : K) (m : List (K × ℕ))
    → find dec j m ≡ none
    → find dec j (delete dec k m) ≡ none
delete_still_none dec k j m f = find-delete dec k j m ∙ elim (dec k j) [
  | yes e ↦ if_pos (dec k j) e none (find dec j m)
  | no e ↦ if_neg (dec k j) e none (find dec j m) ∙ f
]

module _ {K V : Type 0} (dec : Discrete K) where
  -- The list has no more elements than the size, with different numbers and keys, and the map has the
  -- number of each key.
  pub record IsValid (c : LruCache K V) : Type 0 where
    pub positive : 1 ≤ c.max_size
    pub bounded : length c.order ≤ c.max_size
    pub numbers : All (λ e. e.0 < c.next_id) c.order
    pub distinct : Distinct c.order
    pub agrees : (k : K) → find dec k c.entries ≡ id_of dec k c.order

  -- The cache with an element moved to the front.
  abbrev pub promoted : LruCache K V → ℕ → K → V → LruCache K V
  promoted c i k v = record c { order = move_to_front i (k, v) c.order }

  -- The cache without an element.
  abbrev pub forgotten : LruCache K V → ℕ → K → LruCache K V
  forgotten c i k = record c { entries = delete dec k c.entries; order = unlink i c.order }

  pub promoted-IsValid :
      (c : LruCache K V) (i : ℕ) (k : K) (v : V)
      → IsValid c
      → id_of dec k c.order ≡ some i
      → IsValid (promoted c i k v)
  unfolding id_of move_to_front
  promoted-IsValid c i k v h f =
      let there = id_of-Found dec i k c.order h.distinct f in
      record {
        positive = h.positive;
        bounded = omega (arith, h.bounded, there.length_unlink);
        numbers = (
          id_of-All dec (λ x. x < c.next_id) i k c.order h.numbers f,
          All-unlink (λ e. e.0 < c.next_id) i c.order h.numbers,
        );
        distinct = (there.others_fresh, Distinct-unlink i c.order h.distinct);
        agrees = λ j. elim (dec k j) [
          | yes e ↦
              rw (if_pos (dec k j) e) (ap (λ x. find dec x c.entries) (sym e) ∙ h.agrees k ∙ f)
          | no e ↦ rw (if_neg (dec k j) e) (h.agrees j ∙ sym (there.id_unlink j e))
        ];
      }

  pub forgotten-IsValid :
      (c : LruCache K V) (i : ℕ) (k : K)
      → IsValid c
      → id_of dec k c.order ≡ some i
      → IsValid (forgotten c i k)
  forgotten-IsValid c i k h f =
      let there = id_of-Found dec i k c.order h.distinct f in
      record {
        positive = h.positive;
        bounded = omega (arith, h.bounded, there.length_unlink);
        numbers = All-unlink (λ e. e.0 < c.next_id) i c.order h.numbers;
        distinct = Distinct-unlink i c.order h.distinct;
        agrees = λ j. find-delete dec k j c.entries ∙ elim (dec k j) [
          | yes e ↦
              if_pos (dec k j) e none (find dec j c.entries)
              ∙ sym (
                  ap (λ x. id_of dec x (unlink i c.order)) (sym e)
                  ∙ id_of-Fresh dec i k (unlink i c.order) there.others_fresh)
          | no e ↦
              if_neg (dec k j) e none (find dec j c.entries)
              ∙ h.agrees j
              ∙ sym (there.id_unlink j e)
        ];
      }

  below_next : (n : ℕ) (l : List (Element K V)) → All (λ e. e.0 < n) l → All (λ e. e.0 < suc n) l
  below_next n [] h = tt
  below_next n (e ∷ l) h = (omega (arith, h.0), below_next n l h.1)

  pub push_front-IsValid :
      (c : LruCache K V) (k : K) (v : V)
      → IsValid c
      → find dec k c.entries ≡ none
      → length c.order < c.max_size
      → IsValid (push_front dec k v c)
  unfolding push_front id_of
  push_front-IsValid c k v h f room = record {
    positive = h.positive;
    bounded = omega (arith, room);
    numbers = (omega arith, below_next c.next_id c.order h.numbers);
    distinct =
        (id_of-Fresh_new dec c.next_id k c.order h.numbers (sym (h.agrees k) ∙ f), h.distinct);
    agrees = λ j.
        find-insert dec k j c.next_id c.entries
        ∙ ap (λ t. ite (dec k j) (some c.next_id) t) (h.agrees j);
  }

  -- Without its oldest element a full cache is valid and has room.
  pub record Evicted (c c' : LruCache K V) : Type 0 where
    pub valid : IsValid c'
    pub same_size : c'.max_size ≡ c.max_size
    pub room : length c'.order < c'.max_size
    pub last_dropped : view c'.order ≡ drop_last (view c.order)
    pub still_none : (k : K) → find dec k c.entries ≡ none → find dec k c'.entries ≡ none

  remove_oldest-back :
      (c : LruCache K V) (i : ℕ) (k : K) (v : V)
      → back c.order ≡ some (i, (k, v))
      → remove_oldest dec c ≡ forgotten c i k
  unfolding remove_oldest
  remove_oldest-back c i k v f = rw (f, remove_oldest)

  pub remove_oldest-Evicted :
      (c : LruCache K V) → IsValid c → length c.order ≡ c.max_size → Evicted c (remove_oldest dec c)
  remove_oldest-Evicted c h full =
      let ((i, (k, v)), f) = back-some c.order (omega (arith, h.positive, full)) in
      let (number, dropped) = id_of-back dec i k v c.order h.distinct f in
      let there = id_of-Found dec i k c.order h.distinct number in
      rw (remove_oldest-back c i k v f) (record {
        valid = forgotten-IsValid c i k h number;
        same_size = refl;
        room = omega (arith, full, there.length_unlink);
        last_dropped = dropped;
        still_none = λ j g. delete_still_none dec k j c.entries g;
      })
