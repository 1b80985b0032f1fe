-- ===== src/Cache/Runs.antt =====
-- Concrete runs of the caches, and their theorems at concrete inputs.
use go_oracledb.Base.{ℕ, ◌+◌, ◌<◌, ◌≡◌, refl, none, some, [], ◌∷◌, length, arith}
use go_oracledb.Base.Dict.{find, delete, insert}
use go_oracledb.Cache.Ttl.{
  Entry, TtlCache, earlier, next_from, recompute_next_expiration, oldest_from, remove_oldest, store,
  live, remove_expired, should_remove_expired, get, put, remove,
}
use go_oracledb.Cache.Ttl.Invariant.{IsValid, get-IsValid}
use go_oracledb.Cache.Ttl.Eviction.{IsOldest, put-IsValid, put_full, put_overwrite_shrinks}
use go_oracledb.Cache.Ttl.Reads.{get_fresh, get-put}
use mathlib.Core.Logic.{ite}
use native.Mathlib.Decide.{ℕ_discrete}

program : Unit {0}
unfolding find delete insert earlier next_from recompute_next_expiration oldest_from remove_oldest
    store live remove_expired should_remove_expired get put remove ℕ_discrete
program = tt

abbrev entry : ℕ → ℕ → Entry ℕ
entry v t = record { value = v; ctime = t }

-- A full cache of two entries that live for 100.
abbrev two : TtlCache ℕ ℕ
two = record {
  max_size = 2;
  ttl = 100;
  next_expiration = some 110;
  entries = (1, entry 11 10) ∷ (2, entry 22 20) ∷ [];
}

two-IsValid : IsValid ℕ_discrete two
unfolding program
two-IsValid = record {
  positive = omega arith;
  bounded = omega arith;
  distinct = (refl, (refl, tt));
  covered = omega arith;
}

-- Overwriting key 2 drops key 1.
overwrite : (put ℕ_discrete 30 2 23 two).1.entries ≡ (2, entry 23 30) ∷ []
unfolding program
overwrite = refl

get_swept : (get ℕ_discrete 115 115 1 two).0 ≡ none
unfolding program
get_swept = refl

hit : (get ℕ_discrete 50 50 2 two).0 ≡ some 22
unfolding program
hit = refl

first_out : oldest_from none two.entries ≡ some (1, 10)
unfolding program
first_out = refl

held : find ℕ_discrete 2 two.entries ≡ some (entry 22 20)
unfolding program
held = refl

get-IsValid_example : IsValid ℕ_discrete (get ℕ_discrete 115 116 1 two).1
get-IsValid_example = get-IsValid ℕ_discrete 115 116 1 two two-IsValid

put-IsValid_example : IsValid ℕ_discrete (put ℕ_discrete 30 3 33 two).1
put-IsValid_example = put-IsValid ℕ_discrete 30 3 33 two two-IsValid

put_full_example :
    (k t : ℕ) × IsOldest ℕ_discrete k t two.entries
    × ((j : ℕ)
        → find ℕ_discrete j (put ℕ_discrete 30 3 33 two).1.entries
          ≡ ite
              (ℕ_discrete 3 j)
              (some (entry 33 30))
              (ite (ℕ_discrete k j) none (find ℕ_discrete j two.entries)))
put_full_example = put_full ℕ_discrete 30 3 33 two two-IsValid refl

put_overwrite_shrinks_example :
    (length (put ℕ_discrete 30 2 23 two).1.entries < 2)
    × (find ℕ_discrete 1 (put ℕ_discrete 30 2 23 two).1.entries ≡ none)
put_overwrite_shrinks_example =
    put_overwrite_shrinks ℕ_discrete 30 2 1 23 10 (entry 22 20) two two-IsValid refl held first_out
      (omega arith)

get_fresh_example :
    (e : Entry ℕ) × (find ℕ_discrete 2 two.entries ≡ some e) × (e.value ≡ 22) × (50 < e.ctime + 100)
get_fresh_example = get_fresh ℕ_discrete 50 50 2 two 22 two-IsValid (omega arith) hit

get-put_example : (get ℕ_discrete 40 41 3 (put ℕ_discrete 30 3 33 two).1).0 ≡ some 33
get-put_example = get-put ℕ_discrete 30 40 41 3 33 two (omega arith)
