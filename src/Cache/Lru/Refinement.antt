-- ===== src/Cache/Lru/Refinement.antt =====
-- `LRUCache` of internal/common/caches.go does what a list of entries ordered by their last use does.
use go_oracledb.Base.{
  ℕ, zero, suc, ◌≡◌, refl, sym, ap, ◌∙◌, inl, inr, Bool, true, false, Bool-cases, Option,
  Option-cases, none, some, List, [], ◌∷◌, length, ◌==◌, ==_iff, if◌then◌else◌, arith,
}
use go_oracledb.Base.Int.{ℤ, pos, negsuc}
use mathlib.Core.Path.{subst}
use mathlib.Core.Option.{some-injective}
use go_oracledb.Base.Dict.{find, delete}
use go_oracledb.Cache.Lru.{
  Element, LruCache, new_lru_cache, move_to_front, push_front, remove_oldest, get, put, remove,
  clear,
}
use go_oracledb.Cache.Lru.Order.{view, id_of, id_of-Found, id_of-none, drop_last}
use go_oracledb.Cache.Lru.Invariant.{
  IsValid, promoted-IsValid, forgotten-IsValid, push_front-IsValid, remove_oldest-Evicted,
}

-- A call, and what it gives back.
pub data Call (K V : Type 0) : Type 0 where
  calls_get calls_remove : K → Call K V
  calls_put : K → V → Call K V
  calls_clear : Call K V

pub data Result (V : Type 0) : Type 0 where
  looked_up previous : Option V → Result V
  removed : Bool → Result V
  cleared : Result V

length-view : {K V : Type 0} (l : List (Element K V)) → length (view l) ≡ length l
length-view [] = refl
length-view (e ∷ l) = ap suc (length-view l)

module _ {K V : Type 0} (dec : Discrete K) where
  -- A call of the cache.
  unfoldable pub step : Call K V → LruCache K V → Result V × LruCache K V
  unfolding get put remove clear
  step (calls_get k) c = let (v, c') = get dec k c in (looked_up v, c')
  step (calls_remove k) c = let (b, c') = remove dec k c in (removed b, c')
  step (calls_put k v) c = let (old, c') = put dec k v c in (previous old, c')
  step calls_clear c = (cleared, clear c)

  -- A call of a list of at most `n` entries, the last used first.
  unfoldable pub step_recent : ℕ → Call K V → List (K × V) → Result V × List (K × V)
  unfolding find delete
  step_recent n (calls_get k) l = elim (find dec k l) [
    | none ↦ (looked_up none, l)
    | some v ↦ (looked_up (some v), (k, v) ∷ delete dec k l)
  ]
  step_recent n (calls_remove k) l = elim (find dec k l) [
    | none ↦ (removed false, l)
    | some v ↦ (removed true, delete dec k l)
  ]
  step_recent n (calls_put k v) l = elim (find dec k l) [
    | none ↦ (previous none, (k, v) ∷ (if length l == n then drop_last l else l))
    | some old ↦ (previous (some old), (k, v) ∷ delete dec k l)
  ]
  step_recent n calls_clear l = (cleared, [])

  unfoldable pub run : List (Call K V) → LruCache K V → List (Result V)
  unfolding step
  run [] c = []
  run (call ∷ calls) c = let (r, c') = step call c in r ∷ run calls c'

  unfoldable pub run_recent : ℕ → List (Call K V) → List (K × V) → List (Result V)
  unfolding step_recent
  run_recent n [] l = []
  run_recent n (call ∷ calls) l = let (r, l') = step_recent n call l in r ∷ run_recent n calls l'

  -- A call that ends in a valid cache of the same size, with the result and the entries of the list.
  pub record Refines (call : Call K V) (c : LruCache K V) (after : Result V × LruCache K V)
      : Type 0 where
    pub valid : IsValid dec after.1
    pub same_size : after.1.max_size ≡ c.max_size
    pub same_result : (after.0, view after.1.order) ≡ step_recent c.max_size call (view c.order)

  get_Refines :
      (c : LruCache K V) (k : K) → IsValid dec c → Refines (calls_get k) c (step (calls_get k) c)
  unfolding step get step_recent move_to_front
  get_Refines c k h = elim (Option-cases (find dec k c.entries)) [
    | inl e ↦
        let (absent, kept) = id_of-none dec k c.order (sym (h.agrees k) ∙ e) in
        rw (e, get) (record { valid = h; same_size = refl; same_result = rw (absent, step_recent) })
    | inr (i, e) ↦
        let number = sym (h.agrees k) ∙ e in
        let there = id_of-Found dec i k c.order h.distinct number in
        rw (e, there.at_number, get)
          (record {
            valid = promoted-IsValid dec c i k there.value h number;
            same_size = refl;
            same_result =
                rw (there.at_key, step_recent)
                  (ap (λ l. (looked_up (some there.value), (k, there.value) ∷ l))
                    there.view_unlink);
          })
  ]

  remove_Refines :
      (c : LruCache K V) (k : K)
      → IsValid dec c
      → Refines (calls_remove k) c (step (calls_remove k) c)
  unfolding step remove step_recent
  remove_Refines c k h = elim (Option-cases (find dec k c.entries)) [
    | inl e ↦
        let (absent, kept) = id_of-none dec k c.order (sym (h.agrees k) ∙ e) in
        rw (e, remove)
          (record { valid = h; same_size = refl; same_result = rw (absent, step_recent) })
    | inr (i, e) ↦
        let number = sym (h.agrees k) ∙ e in
        let there = id_of-Found dec i k c.order h.distinct number in
        rw (e, remove)
          (record {
            valid = forgotten-IsValid dec c i k h number;
            same_size = refl;
            same_result =
                rw (there.at_key, step_recent) (ap (λ l. (removed true, l)) there.view_unlink);
          })
  ]

  put_Refines :
      (c : LruCache K V) (k : K) (v : V)
      → IsValid dec c
      → Refines (calls_put k v) c (step (calls_put k v) c)
  unfolding step put step_recent move_to_front
  put_Refines c k v h = elim (Option-cases (find dec k c.entries)) [
    | inl e ↦
        let (absent, kept) = id_of-none dec k c.order (sym (h.agrees k) ∙ e) in
        elim (Bool-cases (length c.order == c.max_size)) [
          | inl full ↦
              let evicted =
                remove_oldest-Evicted dec c h ((==_iff (length c.order) c.max_size).0 full) in
              rw (e, full, put)
                (record {
                  valid =
                      push_front-IsValid dec (remove_oldest dec c) k v evicted.valid
                        (evicted.still_none k e) evicted.room;
                  same_size = unfold push_front in evicted.same_size;
                  same_result =
                      rw (absent, step_recent, length-view, full)
                        (unfold push_front in
                          ap (λ l. (previous none, (k, v) ∷ l)) evicted.last_dropped);
                })
          | inr free ↦
              rw (e, free, put)
                (record {
                  valid = push_front-IsValid dec c k v h e (ground (arith, h.bounded, free));
                  same_size = unfold push_front in refl;
                  same_result =
                      rw (absent, step_recent, length-view, free) (unfold push_front in refl);
                })
        ]
    | inr (i, e) ↦
        let number = sym (h.agrees k) ∙ e in
        let there = id_of-Found dec i k c.order h.distinct number in
        rw (e, there.at_number, put)
          (record {
            valid = promoted-IsValid dec c i k v h number;
            same_size = refl;
            same_result =
                rw (there.at_key, step_recent)
                  (ap (λ l. (previous (some there.value), (k, v) ∷ l)) there.view_unlink);
          })
  ]

  clear_Refines : (c : LruCache K V) → IsValid dec c → Refines calls_clear c (step calls_clear c)
  unfolding step clear step_recent id_of find
  clear_Refines c h = record {
    valid = record {
      positive = h.positive;
      bounded = omega arith;
      numbers = tt;
      distinct = tt;
      agrees = λ k. refl;
    };
    same_size = refl;
    same_result = refl;
  }

  -- A call of a valid cache gives the result of the same call of the list of its entries in the order of
  -- their last use, leaves the entries of that list in that order, and leaves the cache valid, within its
  -- size.
  pub step-Refines :
      (c : LruCache K V) (call : Call K V) → IsValid dec c → Refines call c (step call c)
  step-Refines c (calls_get k) h = get_Refines c k h
  step-Refines c (calls_remove k) h = remove_Refines c k h
  step-Refines c (calls_put k v) h = put_Refines c k v h
  step-Refines c calls_clear h = clear_Refines c h

  run-run_recent :
      (c : LruCache K V) (calls : List (Call K V))
      → IsValid dec c
      → run calls c ≡ run_recent c.max_size calls (view c.order)
  unfolding run run_recent
  run-run_recent c [] h = refl
  run-run_recent c (call ∷ calls) h =
      let refines = step-Refines c call h in
      ap (λ t. (step call c).0 ∷ t)
        (run-run_recent (step call c).1 calls refines.valid
          ∙ ap (λ n. run_recent n calls (view (step call c).1.order)) refines.same_size)
      ∙ ap (λ t. t.0 ∷ run_recent c.max_size calls t.1) refines.same_result

  pub new_IsValid :
      (size : ℤ) (c : LruCache K V)
      → new_lru_cache size ≡ some c
      → IsValid dec c × (view c.order ≡ [])
  unfolding new_lru_cache id_of find
  new_IsValid (negsuc n) c h = absurd (cc)
  new_IsValid (pos zero) c h = absurd (cc)
  new_IsValid (pos (suc n)) c h =
      subst (λ x. IsValid dec x × (view x.order ≡ []))
        (some-injective (record { max_size = suc n; entries = []; order = []; next_id = 0 }) c h)
        (
          record {
            positive = omega arith;
            bounded = omega arith;
            numbers = tt;
            distinct = tt;
            agrees = λ k. refl;
          },
          refl,
        )

  -- Calls one after the other of a new cache give the results of the same calls of a list, empty at first,
  -- that keeps as many entries as the size, the last used first, and drops its last where a new key finds it
  -- full.
  pub run_new-run_recent :
      (size : ℤ) (c : LruCache K V) (calls : List (Call K V))
      → new_lru_cache size ≡ some c
      → run calls c ≡ run_recent c.max_size calls []
  run_new-run_recent size c calls h =
      let (valid, empty) = new_IsValid size c h in
      run-run_recent c calls valid ∙ ap (run_recent c.max_size calls) empty
