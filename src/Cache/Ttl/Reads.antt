-- ===== src/Cache/Ttl/Reads.antt =====
-- What `Get` of `TTLCache` returns (internal/common/caches.go).
use go_oracledb.Base.{
  ℕ, ◌+◌, ◌≤◌, ◌<◌, ◌≡◌, refl, sym, ap, ◌∙◌, true, false, Option, none, some, List, [], ◌∷◌, length,
  ltb, ◌==◌, arith, Bool-cases, inl, inr, ltb→lt, lt→ltb,
}
use go_oracledb.Base.Dict.{find, All-find, find-insert_self}
use go_oracledb.Cache.Ttl.{
  Entry, TtlCache, value_of, live, should_remove_expired, remove_oldest, store,
  recompute_next_expiration, get, put,
}
use go_oracledb.Cache.Ttl.Invariant.{Due, Distinct, IsValid}
use mathlib.Core.Logic.{if_pos, if_neg}

value_of-inv :
    {V : Type 0} (o : Option (Entry V)) (v : V)
    → value_of o ≡ some v
    → (e : Entry V) × (o ≡ some e) × (e.value ≡ v)
value_of-inv none v h = absurd (cc)
value_of-inv (some e) v h = (e, refl, cc)

module _ {K V : Type 0} (dec : Discrete K) where
  -- A sweep keeps an entry that has not expired, and no other.
  find-live :
      (k : K) (now ttl : ℕ) (m : List (K × Entry V)) (e : Entry V)
      → find dec k m ≡ some e
      → now < e.ctime + ttl
      → find dec k (live now ttl m) ≡ some e
  unfolding find live
  find-live k now ttl [] e f h = cc
  find-live k now ttl ((j, x) ∷ m) e f h = elim (dec j k) [
    | yes p ↦
        let same : some x ≡ some e = rw (if_pos (dec j k) p) at f in
        let at : x ≡ e = cc in rw (lt→ltb now (x.ctime + ttl) (rw at h), if_pos (dec j k) p) same
    | no p ↦
        let rest = find-live k now ttl m e (rw (if_neg (dec j k) p) at f) h in
        elim (Bool-cases (ltb now (x.ctime + ttl))) [
          | inl t ↦ rw (t, if_neg (dec j k) p) rest
          | inr t ↦ rw t rest
        ]
  ]

  live-find :
      (k : K) (now ttl : ℕ) (m : List (K × Entry V)) (e : Entry V)
      → Distinct dec m
      → find dec k (live now ttl m) ≡ some e
      → (find dec k m ≡ some e) × (now < e.ctime + ttl)
  unfolding find live
  live-find k now ttl [] e d f = cc
  live-find k now ttl ((j, x) ∷ m) e d f = elim (Bool-cases (ltb now (x.ctime + ttl))) [
    | inl t ↦
        let f' : find dec k ((j, x) ∷ live now ttl m) ≡ some e = rw t at f in
        elim (dec j k) [
          | yes p ↦
              let same : some x ≡ some e = rw (if_pos (dec j k) p) at f' in
              let at : x ≡ e = cc in (rw (if_pos (dec j k) p) same, rw (← at) (ltb→lt _ _ t))
          | no p ↦
              let (g, fresh) = live-find k now ttl m e d.1 (rw (if_neg (dec j k) p) at f') in
              (rw (if_neg (dec j k) p) g, fresh)
        ]
    | inr t ↦
        let (g, fresh) = live-find k now ttl m e d.1 (rw t at f) in
        elim (dec j k) [
          | yes p ↦ absurd (let clash : none ≡ some e = sym d.0 ∙ rw p g in cc)
          | no p ↦ (rw (if_neg (dec j k) p) g, fresh)
        ]
  ]

  -- A scan that is not due yet has nothing to remove.
  live_all :
      (now : ℕ) (c : TtlCache K V) (x : ℕ)
      → should_remove_expired now c ≡ false
      → Due c.next_expiration x
      → now < x
  unfolding should_remove_expired
  live_all now c x idle due = go c.next_expiration refl
    where
      go : (o : Option ℕ) → c.next_expiration ≡ o → now < x
      go none e = absurd (rw e at due)
      go (some t) e = omega (arith, before t e, let d : t ≤ x = rw e at due in d)
        where
          before : (t : ℕ) → c.next_expiration ≡ some t → now < t
          before t e = ground arith

  get_due :
      (now later : ℕ) (key : K) (c : TtlCache K V)
      → should_remove_expired now c ≡ true
      → (get dec now later key c).0 ≡ value_of (find dec key (live later c.ttl c.entries))
  unfolding get
  get_due now later key c due = rw due

  get_idle :
      (now later : ℕ) (key : K) (c : TtlCache K V)
      → should_remove_expired now c ≡ false
      → (get dec now later key c).0 ≡ value_of (find dec key c.entries)
  unfolding get
  get_idle now later key c idle = rw idle

  -- `Get` never returns an entry that had expired when the call began: what it returns is the value
  -- that the cache had for the key, and its time to live had not run out. The clock does not go back
  -- between its two readings.
  pub get_fresh :
      (now later : ℕ) (key : K) (c : TtlCache K V) (v : V)
      → IsValid dec c
      → now ≤ later
      → (get dec now later key c).0 ≡ some v
      → (e : Entry V) × (find dec key c.entries ≡ some e) × (e.value ≡ v) × (now < e.ctime + c.ttl)
  get_fresh now later key c v valid clock got = elim (Bool-cases (should_remove_expired now c)) [
    | inl due ↦
        let (e, f, h) =
          value_of-inv (find dec key (live later c.ttl c.entries)) v
            (sym (get_due now later key c due) ∙ got) in
        let (g, fresh) = live-find key later c.ttl c.entries e valid.distinct f in
        (e, g, h, omega arith)
    | inr idle ↦
        let (e, f, h) =
          value_of-inv (find dec key c.entries) v (sym (get_idle now later key c idle) ∙ got) in
        (
          e,
          f,
          h,
          live_all now c (e.ctime + c.ttl) idle (
              All-find dec (λ x. Due c.next_expiration (x.ctime + c.ttl)) key e c.entries
                valid.covered f),
        )
  ]

  -- `Get` finds an entry whose time to live has not run out at its second clock reading.
  pub get_hit :
      (now later : ℕ) (key : K) (c : TtlCache K V) (e : Entry V)
      → find dec key c.entries ≡ some e
      → later < e.ctime + c.ttl
      → (get dec now later key c).0 ≡ some e.value
  get_hit now later key c e f fresh = elim (Bool-cases (should_remove_expired now c)) [
    | inl due ↦
        get_due now later key c due ∙ ap value_of (find-live key later c.ttl c.entries e f fresh)
    | inr idle ↦ get_idle now later key c idle ∙ ap value_of f
  ]

  ttl-remove_oldest : (c : TtlCache K V) → (remove_oldest dec c).ttl ≡ c.ttl
  unfolding remove_oldest recompute_next_expiration
  ttl-remove_oldest c = ground arith

  ttl-put :
      (now : ℕ) (key : K) (value : V) (c : TtlCache K V) → (put dec now key value c).1.ttl ≡ c.ttl
  unfolding put store
  ttl-put now key value c = elim (Bool-cases (length c.entries == c.max_size)) [
    | inl full ↦ rw full (ttl-remove_oldest c)
    | inr room ↦ rw room
  ]

  find-put_self :
      (now : ℕ) (key : K) (value : V) (c : TtlCache K V)
      → find dec key (put dec now key value c).1.entries
        ≡ some (record { value = value; ctime = now })
  unfolding put store
  find-put_self now key value c = rw find-insert_self

  -- `Get` returns what `Put` stored under the key, whatever was evicted, until the time to live has
  -- run out since.
  pub get-put :
      (now then_now later : ℕ) (key : K) (value : V) (c : TtlCache K V)
      → later < now + c.ttl
      → (get dec then_now later key (put dec now key value c).1).0 ≡ some value
  get-put now then_now later key value c fresh =
      get_hit then_now later key (put dec now key value c).1 (record { value = value; ctime = now })
        (find-put_self now key value c) (omega (arith, ttl-put now key value c))
