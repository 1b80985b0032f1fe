-- ===== src/Cache/Lru.antt =====
-- `LRUCache` of internal/common/caches.go. A `*list.Element` is a number: the list holds its elements,
-- each with the entry that is its value, the front first, and the map holds the numbers. An element that
-- has left the list is not reached again, which the invariant says.
pub mod Order
pub mod Invariant
pub mod Refinement
mod Runs
use go_oracledb.Base.{
  ℕ, zero, suc, ◌+◌, Bool, true, false, Option, none, some, List, [], ◌∷◌, length, ◌==◌,
  if◌then◌else◌,
}
use go_oracledb.Base.Int.{ℤ, pos}
use go_oracledb.Base.Dict.{find, delete, insert}
use native.Mathlib.Decide.{ℕ_discrete}

-- An element with its `lruCacheEntry`.
abbrev pub Element : Type 0 → Type 0 → Type 0
Element K V = ℕ × (K × V)

pub record LruCache (K V : Type 0) : Type 0 where
  pub max_size : ℕ
  pub entries : List (K × ℕ)
  pub order : List (Element K V)
  pub next_id : ℕ

-- `NewLRUCache`: no cache for a size that is not positive.
unfoldable pub new_lru_cache : {K V : Type 0} → ℤ → Option (LruCache K V)
new_lru_cache (pos (suc n)) =
    some (record { max_size = suc n; entries = []; order = []; next_id = 0 })
new_lru_cache _ = none

-- `Back`.
unfoldable pub back : {A : Type 0} → List A → Option A
back [] = none
back (x ∷ []) = some x
back (x ∷ (y ∷ l)) = back (y ∷ l)

module _ {K V : Type 0} where
  -- `list.Remove`.
  unfoldable pub unlink : ℕ → List (Element K V) → List (Element K V)
  unfolding delete ℕ_discrete
  unlink i l = delete ℕ_discrete i l

  -- `element.Value`.
  unfoldable pub element_value : ℕ → List (Element K V) → Option (K × V)
  unfolding find ℕ_discrete
  element_value i l = find ℕ_discrete i l

  -- `MoveToFront`, of an element whose value is `entry`.
  unfoldable pub move_to_front : ℕ → K × V → List (Element K V) → List (Element K V)
  unfolding unlink
  move_to_front i entry l = (i, entry) ∷ unlink i l

  module _ (dec : Discrete K) where
    -- `removeOldest`.
    unfoldable pub remove_oldest : LruCache K V → LruCache K V
    unfolding back unlink
    remove_oldest c = elim (back c.order) [
      | none ↦ c
      | some (i, (k, v)) ↦ record c { entries = delete dec k c.entries; order = unlink i c.order }
    ]

    -- `Get`.
    unfoldable pub get : K → LruCache K V → Option V × LruCache K V
    unfolding element_value move_to_front
    get key c = elim (find dec key c.entries) [
      | none ↦ (none, c)
      | some i ↦ elim (element_value i c.order) [
        | none ↦ (none, c)
        | some (k, v) ↦ (some v, record c { order = move_to_front i (k, v) c.order })
      ]
    ]

    -- What `Put` does with a key that is new, behind the eviction.
    unfoldable pub push_front : K → V → LruCache K V → LruCache K V
    push_front key value c = record c {
      entries = insert dec key c.next_id c.entries;
      order = (c.next_id, (key, value)) ∷ c.order;
      next_id = suc c.next_id;
    }

    -- `Put`; the previous value is `none` where Go returns the zero value of the type.
    unfoldable pub put : K → V → LruCache K V → Option V × LruCache K V
    unfolding element_value move_to_front remove_oldest push_front
    put key value c = elim (find dec key c.entries) [
      | none ↦
          let room = if length c.order == c.max_size then remove_oldest c else c in
          (none, push_front key value room)
      | some i ↦ elim (element_value i c.order) [
        | none ↦ (none, c)
        | some (k, previous) ↦
            (some previous, record c { order = move_to_front i (k, value) c.order })
      ]
    ]

    -- `Remove`.
    unfoldable pub remove : K → LruCache K V → Bool × LruCache K V
    unfolding unlink
    remove key c = elim (find dec key c.entries) [
      | none ↦ (false, c)
      | some i ↦ (true, record c { entries = delete dec key c.entries; order = unlink i c.order })
    ]

  -- `Clear`.
  unfoldable pub clear : LruCache K V → LruCache K V
  clear c = record c { entries = []; order = [] }
