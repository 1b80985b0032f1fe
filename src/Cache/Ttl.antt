-- ===== src/Cache/Ttl.antt =====
-- `TTLCache` of internal/common/caches.go. Instants are numbers of nanoseconds, read from a clock that
-- the caller passes in; a zero `time.Time` is `none`. The thread-safe wrapper takes a lock around each
-- call, so it runs these calls one after the other.
pub mod Invariant
pub mod Reads
pub mod Eviction
use go_oracledb.Base.{
  ℕ, zero, suc, ◌+◌, ◌≤◌, ◌<◌, Bool, true, false, not, Option, none, some, List, [], ◌∷◌, length,
  ltb, ◌==◌, if◌then◌else◌,
}
use go_oracledb.Base.Int.{ℤ, pos, negsuc}
use go_oracledb.Base.Dict.{find, delete, insert}

-- `ttlCacheEntry`.
pub record Entry {ℓ} (V : Type ℓ) : Type ℓ where
  pub value : V
  pub ctime : ℕ

pub record TtlCache {ℓ} (K V : Type ℓ) : Type ℓ where
  pub max_size : ℕ
  pub ttl : ℕ
  pub next_expiration : Option ℕ
  pub entries : List (K × Entry V)

-- `NewTTLCache`: no cache for a size or a time to live that is not positive.
unfoldable pub new_ttl_cache {ℓ} : {K V : Type ℓ} → ℤ → ℤ → Option (TtlCache K V)
new_ttl_cache (pos (suc n)) (pos (suc t)) =
    some (record { max_size = suc n; ttl = suc t; next_expiration = none; entries = [] })
new_ttl_cache _ _ = none

-- `if first || expiresAt.Before(next) { next = expiresAt; first = false }`.
unfoldable pub earlier : Option ℕ → ℕ → Option ℕ
earlier none t = some t
earlier (some n) t = if ltb t n then some t else some n

-- The value of an entry that was found.
abbrev pub value_of {ℓ} : {V : Type ℓ} → Option (Entry V) → Option V
value_of none = none
value_of (some e) = some e.value

module _ {ℓ} {K V : Type ℓ} where
  -- The loop of `recomputeNextExpiration`.
  unfoldable pub next_from : ℕ → Option ℕ → List (K × Entry V) → Option ℕ
  unfolding earlier
  next_from ttl next [] = next
  next_from ttl next ((k, e) ∷ m) = next_from ttl (earlier next (e.ctime + ttl)) m

  -- `recomputeNextExpiration`: `none` where no entry is left.
  unfoldable pub recompute_next_expiration : TtlCache K V → TtlCache K V
  unfolding next_from
  recompute_next_expiration c = record c { next_expiration = next_from c.ttl none c.entries }

  -- `shouldRemoveExpired`.
  unfoldable pub should_remove_expired : ℕ → TtlCache K V → Bool
  should_remove_expired now c = elim c.next_expiration [ none ↦ false | some t ↦ not (ltb now t) ]

  -- The entries that `removeExpired` leaves.
  unfoldable pub live : ℕ → ℕ → List (K × Entry V) → List (K × Entry V)
  live now ttl [] = []
  live now ttl ((k, e) ∷ m) =
      if ltb now (e.ctime + ttl) then (k, e) ∷ live now ttl m else live now ttl m

  -- `removeExpired`. Its loop looks at an entry for the next expiration exactly if it leaves it.
  unfoldable pub remove_expired : ℕ → TtlCache K V → TtlCache K V
  unfolding live next_from
  remove_expired now c =
      let kept = live now c.ttl c.entries in
      record c { entries = kept; next_expiration = next_from c.ttl none kept }

  -- The loop of `removeOldest`: the key and the creation time of the oldest entry so far.
  unfoldable pub oldest_from : Option (K × ℕ) → List (K × Entry V) → Option (K × ℕ)
  oldest_from best [] = best
  oldest_from none ((k, e) ∷ m) = oldest_from (some (k, e.ctime)) m
  oldest_from (some (j, t)) ((k, e) ∷ m) =
      oldest_from (if ltb e.ctime t then some (k, e.ctime) else some (j, t)) m

  module _ (dec : Discrete K) where
    -- `removeOldest`.
    unfoldable pub remove_oldest : TtlCache K V → TtlCache K V
    unfolding oldest_from recompute_next_expiration
    remove_oldest c = elim (oldest_from none c.entries) [
      | none ↦ c
      | some (k, t) ↦ recompute_next_expiration (record c { entries = delete dec k c.entries })
    ]

    -- `Get`. The clock is read twice: for `shouldRemoveExpired` and for `removeExpired`.
    unfoldable pub get : ℕ → ℕ → K → TtlCache K V → Option V × TtlCache K V
    unfolding should_remove_expired remove_expired
    get now later key c =
        let c' = if should_remove_expired now c then remove_expired later c else c in
        (value_of (find dec key c'.entries), c')

    -- What `Put` does behind its test for a full cache.
    unfoldable pub store : ℕ → K → V → TtlCache K V → TtlCache K V
    unfolding earlier
    store now key value c = record c {
      entries = insert dec key (record { value = value; ctime = now }) c.entries;
      next_expiration = earlier c.next_expiration (now + c.ttl);
    }

    -- `Put`; the previous value is `none` where Go returns the zero value of the type.
    unfoldable pub put : ℕ → K → V → TtlCache K V → Option V × TtlCache K V
    unfolding remove_oldest store
    put now key value c =
        let c' = if length c.entries == c.max_size then remove_oldest c else c in
        (value_of (find dec key c.entries), store now key value c')

    -- `Remove`.
    unfoldable pub remove : K → TtlCache K V → Bool × TtlCache K V
    unfolding recompute_next_expiration
    remove key c = elim (find dec key c.entries) [
      | none ↦ (false, c)
      | some e ↦ (true, recompute_next_expiration (record c { entries = delete dec key c.entries }))
    ]

  -- `Clear`.
  unfoldable pub clear : TtlCache K V → TtlCache K V
  clear c = record c { entries = []; next_expiration = none }
