-- ===== src/Cache/Ttl/Eviction.antt =====
-- What `Put` of `TTLCache` evicts (internal/common/caches.go).
use go_oracledb.Base.{
  ℕ, ◌≤◌, ◌<◌, ◌≡◌, ◌≢◌, ◌⊎◌, refl, sym, ◌∙◌, true, false, Option, none, some, List, [], ◌∷◌,
  length, ltb, ◌==◌, arith, All, Bool-cases, inl, inr, ltb→lt, ltb_false→le, ==_iff,
}
use go_oracledb.Base.Dict.{
  find, delete, find-delete_self, find-delete_ne, find-delete, find-insert, find-insert_ne,
  length-delete_found, length-insert_found,
}
use go_oracledb.Cache.Ttl.{
  Entry, TtlCache, recompute_next_expiration, oldest_from, remove_oldest, store, put,
}
use go_oracledb.Cache.Ttl.Invariant.{Distinct, IsValid, drop_key-IsValid, store-IsValid}
use mathlib.Core.Logic.{ite, if_pos, if_neg}

room_left : (a b : ℕ) → (a == b) ≡ false → a ≤ b → a < b
room_left a b e h = ground arith

module _ {K V : Type 0} (dec : Discrete K) where
  -- `k` stands in `m` with an entry made at `t`, and no entry is older.
  pub record IsOldest (k : K) (t : ℕ) (m : List (K × Entry V)) : Type 0 where
    pub entry : Entry V
    pub stands : find dec k m ≡ some entry
    pub made : entry.ctime ≡ t
    pub first : All (λ e. t ≤ e.1.ctime) m

  record Scan (j : K) (t : ℕ) (m : List (K × Entry V)) : Type 0 where
    key : K
    time : ℕ
    found : oldest_from (some (j, t)) m ≡ some (key, time)
    older : time ≤ t
    first : All (λ e. time ≤ e.1.ctime) m
    origin :
        ((key ≡ j) × (time ≡ t)) ⊎ ((e : Entry V) × (find dec key m ≡ some e) × (e.ctime ≡ time))

  skip_head :
      (i k : K) (e : Entry V) (m : List (K × Entry V))
      → find dec i m ≡ none
      → (u : ℕ) → (x : Entry V) × (find dec k m ≡ some x) × (x.ctime ≡ u)
      → (x : Entry V) × (find dec k ((i, e) ∷ m) ≡ some x) × (x.ctime ≡ u)
  unfolding find
  skip_head i k e m fresh u (x, f, h) = elim (dec i k) [
    | yes p ↦
        let clash : find dec i m ≡ some x = rw p f in
        absurd (let c : none ≡ some x = sym fresh ∙ clash in cc)
    | no p ↦ (x, rw (if_neg (dec i k) p) f, h)
  ]

  scan_step :
      (j i k : K) (e : Entry V) (t u : ℕ) (m : List (K × Entry V))
      → find dec i m ≡ none
      → ((k ≡ i) × (u ≡ e.ctime)) ⊎ ((x : Entry V) × (find dec k m ≡ some x) × (x.ctime ≡ u))
      → (x : Entry V) × (find dec k ((i, e) ∷ m) ≡ some x) × (x.ctime ≡ u)
  scan_step j i k e t u m fresh (inl (p, q)) =
      (e, unfold find in rw (if_pos (dec i k) (sym p)), sym q)
  scan_step j i k e t u m fresh (inr h) = skip_head i k e m fresh u h

  scan : (j : K) (t : ℕ) (m : List (K × Entry V)) → Distinct dec m → Scan j t m
  unfolding oldest_from
  scan j t [] d = record {
    key = j;
    time = t;
    found = refl;
    older = omega arith;
    first = tt;
    origin = inl (refl, refl);
  }
  scan j t ((i, e) ∷ m) d = elim (Bool-cases (ltb e.ctime t)) [
    | inl h ↦
        let s = scan i e.ctime m d.1 in
        record {
          key = s.key;
          time = s.time;
          found = rw h s.found;
          older = omega (arith, ltb→lt _ _ h, s.older);
          first = (s.older, s.first);
          origin = inr (scan_step j i s.key e t s.time m d.0 s.origin);
        }
    | inr h ↦
        let s = scan j t m d.1 in
        record {
          key = s.key;
          time = s.time;
          found = rw h s.found;
          older = s.older;
          first = (omega (arith, ltb_false→le _ _ h, s.older), s.first);
          origin = keep s.origin;
        }
  ]
    where
      keep :
          {k : K} {u : ℕ}
          → ((k ≡ j) × (u ≡ t)) ⊎ ((x : Entry V) × (find dec k m ≡ some x) × (x.ctime ≡ u))
          → ((k ≡ j) × (u ≡ t))
            ⊎ ((x : Entry V) × (find dec k ((i, e) ∷ m) ≡ some x) × (x.ctime ≡ u))
      keep (inl h) = inl h
      keep {k} {u} (inr h) = inr (skip_head i k e m d.0 u h)

  -- The scan of `removeOldest` finds an oldest entry in a cache that has one.
  pub oldest_from-IsOldest :
      (m : List (K × Entry V))
      → Distinct dec m
      → 0 < length m
      → (k : K) × (t : ℕ) × (oldest_from none m ≡ some (k, t)) × IsOldest k t m
  unfolding oldest_from
  oldest_from-IsOldest [] d h = absurd (omega arith)
  oldest_from-IsOldest ((i, e) ∷ m) d h =
      let s = scan i e.ctime m d.1 in
      let (x, stands, made) = scan_step i i s.key e e.ctime s.time m d.0 s.origin in
      (
        s.key,
        s.time,
        s.found,
        record { entry = x; stands = stands; made = made; first = (s.older, s.first) },
      )

  -- A full cache behind `removeOldest`.
  record Evicted (c : TtlCache K V) : Type 0 where
    key : K
    time : ℕ
    oldest : IsOldest key time c.entries
    removed :
        remove_oldest dec c
        ≡ recompute_next_expiration (record c { entries = delete dec key c.entries })

  evicted : (c : TtlCache K V) → IsValid dec c → length c.entries ≡ c.max_size → Evicted c
  unfolding remove_oldest
  evicted c v full =
      let (k, t, found, oldest) =
        oldest_from-IsOldest c.entries v.distinct (omega (arith, v.positive)) in
      record { key = k; time = t; oldest = oldest; removed = rw (found, remove_oldest) }

  -- `Put` keeps the invariant; so the cache never holds more than its size.
  pub put-IsValid :
      (now : ℕ) (key : K) (value : V) (c : TtlCache K V)
      → IsValid dec c
      → IsValid dec (put dec now key value c).1
  unfolding put recompute_next_expiration
  put-IsValid now key value c v = elim (Bool-cases (length c.entries == c.max_size)) [
    | inl full ↦
        let e = evicted c v ((==_iff _ _).0 full) in
        rw (full, e.removed)
          (store-IsValid dec now key value
            (recompute_next_expiration (record c { entries = delete dec e.key c.entries }))
            (drop_key-IsValid dec e.key c v)
            (omega (
              arith,
              length-delete_found dec e.key e.oldest.entry c.entries e.oldest.stands,
              v.bounded,
            )))
    | inr room ↦ rw room (
        store-IsValid dec now key value c v
          (room_left (length c.entries) c.max_size room v.bounded))
  ]

  -- `Put` into a full cache, whether or not its key is there: the key of an oldest entry is gone, the
  -- key that was put has the new value and the current time, and every other key has what it had.
  pub put_full :
      (now : ℕ) (key : K) (value : V) (c : TtlCache K V)
      → IsValid dec c
      → length c.entries ≡ c.max_size
      → (k : K) × (t : ℕ) × IsOldest k t c.entries
        × ((j : K)
            → find dec j (put dec now key value c).1.entries
              ≡ ite
                  (dec key j)
                  (some (record { value = value; ctime = now }))
                  (ite (dec k j) none (find dec j c.entries)))
  unfolding put recompute_next_expiration store
  put_full now key value c v full =
      let e = evicted c v full in
      let isFull : (length c.entries == c.max_size) ≡ true = ground arith in
      (e.key, e.time, e.oldest, λ j. rw (isFull, e.removed, find-insert dec, find-delete dec))

  -- `Put` into a cache that is not full: the key that was put has the new value and the current time,
  -- and every other key has what it had.
  pub put_room :
      (now : ℕ) (key : K) (value : V) (j : K) (c : TtlCache K V)
      → length c.entries < c.max_size
      → find dec j (put dec now key value c).1.entries
        ≡ ite (dec key j) (some (record { value = value; ctime = now })) (find dec j c.entries)
  unfolding put store
  put_room now key value j c room =
      let notFull : (length c.entries == c.max_size) ≡ false = ground arith in
      rw (notFull, find-insert dec)

  removed_of :
      (c : TtlCache K V) (k : K) (t : ℕ)
      → oldest_from none c.entries ≡ some (k, t)
      → remove_oldest dec c
        ≡ recompute_next_expiration (record c { entries = delete dec k c.entries })
  unfolding remove_oldest
  removed_of c k t first = rw (first, remove_oldest)

  -- Overwriting a key in a full cache needs no room, and still costs an entry: where the oldest entry
  -- that is evicted has another key, the cache is not full afterwards.
  pub put_overwrite_shrinks :
      (now : ℕ) (key k : K) (value : V) (t : ℕ) (old : Entry V) (c : TtlCache K V)
      → IsValid dec c
      → length c.entries ≡ c.max_size
      → find dec key c.entries ≡ some old
      → oldest_from none c.entries ≡ some (k, t)
      → k ≢ key
      → (length (put dec now key value c).1.entries < c.max_size)
        × (find dec k (put dec now key value c).1.entries ≡ none)
  unfolding put recompute_next_expiration store
  put_overwrite_shrinks now key k value t old c v full present first other =
      let e = oldest_from-IsOldest c.entries v.distinct (omega (arith, v.positive)) in
      let isFull : (length c.entries == c.max_size) ≡ true = ground arith in
      let same : ◌≡◌ {A = Option (K × ℕ)} (some (e.0, e.1)) (some (k, t)) = sym e.2 ∙ first in
      let at : e.0 ≡ k = cc in
      rw (isFull, removed_of c k t first)
        (
          omega (
            arith,
            length-insert_found dec key (record { value = value; ctime = now }) old
                (delete dec k c.entries) (find-delete_ne dec k key c.entries other ∙ present),
            length-delete_found dec k e.3.entry c.entries (rw at at e.3.stands),
          ),
          find-insert_ne dec key k (record { value = value; ctime = now }) (delete dec k c.entries)
                (λ p. other (sym p))
              ∙ find-delete_self dec k c.entries,
        )
