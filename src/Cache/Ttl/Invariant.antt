-- ===== src/Cache/Ttl/Invariant.antt =====
-- The invariant of `TTLCache` (internal/common/caches.go): its size, its distinct keys, and a next
-- expiration that no entry's expiration comes before.
use go_oracledb.Base.{
  ℕ, ◌+◌, ◌≤◌, ◌<◌, ◌≡◌, refl, sym, ◌∙◌, Option, none, some, List, [], ◌∷◌, length, ltb, arith, All,
  Bool-cases, inl, inr,
}
use go_oracledb.Base.Dict.{
  find, delete, insert, find-delete_self, find-delete_ne, find-insert_ne, length-delete,
  length-insert, All-insert,
}
use go_oracledb.Cache.Ttl.{
  Entry, TtlCache, earlier, next_from, recompute_next_expiration, should_remove_expired, live,
  remove_expired, get, store, remove,
}
use mathlib.Core.Logic.{if_pos, if_neg}

-- A scan is due no later than `x`.
abbrev pub Due : Option ℕ → ℕ → Type 0
Due none x = ⊥
Due (some n) x = n ≤ x

Due-earlier_new : (n : Option ℕ) (t : ℕ) → Due (earlier n t) t
unfolding earlier
Due-earlier_new none t = omega arith
Due-earlier_new (some n) t = ground arith

Due-earlier : (n : Option ℕ) (t x : ℕ) → Due n x → Due (earlier n t) x
unfolding earlier
Due-earlier none t x h = absurd h
Due-earlier (some n) t x h = ground arith

module _ {K V : Type 0} where
  -- Every entry expires when a scan is due, or later.
  abbrev pub Covered : Option ℕ → ℕ → List (K × Entry V) → Type 0
  Covered next ttl m = All (λ e. Due next (e.1.ctime + ttl)) m

  Due-next_from :
      (ttl : ℕ) (n : Option ℕ) (x : ℕ) (m : List (K × Entry V))
      → Due n x
      → Due (next_from ttl n m) x
  unfolding next_from
  Due-next_from ttl n x [] h = h
  Due-next_from ttl n x ((k, e) ∷ m) h =
      Due-next_from ttl (earlier n (e.ctime + ttl)) x m (Due-earlier n (e.ctime + ttl) x h)

  pub next_from-Covered :
      (ttl : ℕ) (n : Option ℕ) (m : List (K × Entry V)) → Covered (next_from ttl n m) ttl m
  unfolding next_from
  next_from-Covered ttl n [] = tt
  next_from-Covered ttl n ((k, e) ∷ m) = (
    Due-next_from ttl (earlier n (e.ctime + ttl)) (e.ctime + ttl) m
        (Due-earlier_new n (e.ctime + ttl)),
    next_from-Covered ttl (earlier n (e.ctime + ttl)) m,
  )

  Covered-earlier :
      (next : Option ℕ) (t ttl : ℕ) (m : List (K × Entry V))
      → Covered next ttl m
      → Covered (earlier next t) ttl m
  Covered-earlier next t ttl [] h = tt
  Covered-earlier next t ttl ((k, e) ∷ m) h =
      (Due-earlier next t (e.ctime + ttl) h.0, Covered-earlier next t ttl m h.1)

  length-live : (now ttl : ℕ) (m : List (K × Entry V)) → length (live now ttl m) ≤ length m
  unfolding live
  length-live now ttl [] = omega arith
  length-live now ttl ((k, e) ∷ m) = ground (arith, length-live now ttl m)

  module _ (dec : Discrete K) where
    -- No key stands twice.
    abbrev pub Distinct : List (K × Entry V) → Type 0
    Distinct [] = Unit
    Distinct ((k, e) ∷ m) = (find dec k m ≡ none) × Distinct m

    find-delete-none :
        (k i : K) (m : List (K × Entry V))
        → find dec i m ≡ none
        → find dec i (delete dec k m) ≡ none
    find-delete-none k i m h = elim (dec k i) [
      | yes e ↦ rw (← e) (find-delete_self dec k m)
      | no e ↦ find-delete_ne dec k i m e ∙ h
    ]

    Distinct-delete : (k : K) (m : List (K × Entry V)) → Distinct m → Distinct (delete dec k m)
    unfolding delete
    Distinct-delete k [] h = tt
    Distinct-delete k ((j, e) ∷ m) h = elim (dec j k) [
      | yes p ↦ rw (if_pos _ p) (Distinct-delete k m h.1)
      | no p ↦ rw (if_neg _ p) (find-delete-none k j m h.0, Distinct-delete k m h.1)
    ]

    Distinct-insert :
        (k : K) (v : Entry V) (m : List (K × Entry V)) → Distinct m → Distinct (insert dec k v m)
    unfolding insert
    Distinct-insert k v [] h = (unfold find in refl, tt)
    Distinct-insert k v ((j, e) ∷ m) h = elim (dec j k) [
      | yes p ↦ rw (if_pos (dec j k) p) (rw (← p) h.0, h.1)
      | no p ↦
          rw (if_neg (dec j k) p)
            (find-insert_ne dec k j v m (λ q. p (sym q)) ∙ h.0, Distinct-insert k v m h.1)
    ]

    find-live-none :
        (k : K) (now ttl : ℕ) (m : List (K × Entry V))
        → find dec k m ≡ none
        → find dec k (live now ttl m) ≡ none
    unfolding live find
    find-live-none k now ttl [] h = refl
    find-live-none k now ttl ((j, e) ∷ m) h = elim (dec j k) [
      | yes p ↦ let clash : some e ≡ none = rw (if_pos (dec j k) p) at h in cc
      | no p ↦
          let rest = find-live-none k now ttl m (rw (if_neg (dec j k) p) at h) in
          elim (Bool-cases (ltb now (e.ctime + ttl))) [
            | inl t ↦ rw (t, if_neg (dec j k) p) rest
            | inr t ↦ rw t rest
          ]
    ]

    pub Distinct-live :
        (now ttl : ℕ) (m : List (K × Entry V)) → Distinct m → Distinct (live now ttl m)
    unfolding live
    Distinct-live now ttl [] h = tt
    Distinct-live now ttl ((k, e) ∷ m) h = elim (Bool-cases (ltb now (e.ctime + ttl))) [
      | inl t ↦ rw t (find-live-none k now ttl m h.0, Distinct-live now ttl m h.1)
      | inr t ↦ rw t (Distinct-live now ttl m h.1)
    ]

    pub record IsValid (c : TtlCache K V) : Type 0 where
      pub positive : 0 < c.max_size
      pub bounded : length c.entries ≤ c.max_size
      pub distinct : Distinct c.entries
      pub covered : Covered c.next_expiration c.ttl c.entries

    remove_expired-IsValid :
        (now : ℕ) (c : TtlCache K V) → IsValid c → IsValid (remove_expired now c)
    unfolding remove_expired
    remove_expired-IsValid now c v = record {
      positive = v.positive;
      bounded = omega (arith, length-live now c.ttl c.entries, v.bounded);
      distinct = Distinct-live now c.ttl c.entries v.distinct;
      covered = next_from-Covered c.ttl none (live now c.ttl c.entries);
    }

    -- `Get` keeps the invariant, whether or not it sweeps expired entries.
    pub get-IsValid :
        (now later : ℕ) (key : K) (c : TtlCache K V)
        → IsValid c
        → IsValid (get dec now later key c).1
    unfolding get
    get-IsValid now later key c v = elim (Bool-cases (should_remove_expired now c)) [
      | inl e ↦ rw e (remove_expired-IsValid later c v)
      | inr e ↦ rw e v
    ]

    -- Deleting a key and looking for the next expiration anew.
    pub drop_key-IsValid :
        (key : K) (c : TtlCache K V)
        → IsValid c
        → IsValid (recompute_next_expiration (record c { entries = delete dec key c.entries }))
    unfolding recompute_next_expiration
    drop_key-IsValid key c v = record {
      positive = v.positive;
      bounded = omega (arith, length-delete dec key c.entries, v.bounded);
      distinct = Distinct-delete key c.entries v.distinct;
      covered = next_from-Covered c.ttl none (delete dec key c.entries);
    }

    -- `Remove` keeps the invariant, whether or not the key is there.
    pub remove-IsValid : (key : K) (c : TtlCache K V) → IsValid c → IsValid (remove dec key c).1
    unfolding remove
    remove-IsValid key c v = go (find dec key c.entries) refl
      where
        go : (o : Option (Entry V)) → find dec key c.entries ≡ o → IsValid (remove dec key c).1
        go none e = rw (e, remove) v
        go (some x) e = rw (e, remove) (drop_key-IsValid key c v)

    pub store-IsValid :
        (now : ℕ) (key : K) (value : V) (c : TtlCache K V)
        → IsValid c
        → length c.entries < c.max_size
        → IsValid (store dec now key value c)
    unfolding store
    store-IsValid now key value c v room = record {
      positive = v.positive;
      bounded =
          omega (arith, length-insert dec key (record { value = value; ctime = now }) c.entries);
      distinct = Distinct-insert key (record { value = value; ctime = now }) c.entries v.distinct;
      covered =
          All-insert dec (λ e. Due (earlier c.next_expiration (now + c.ttl)) (e.1.ctime + c.ttl))
            key (record { value = value; ctime = now }) c.entries
            (Due-earlier_new c.next_expiration (now + c.ttl))
            (Covered-earlier c.next_expiration (now + c.ttl) c.ttl c.entries v.covered);
    }
