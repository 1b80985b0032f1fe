-- ===== src/Cache/Lru/Runs.antt =====
-- Runs of the LRU cache (internal/common/caches.go), and its theorems at concrete inputs.
use go_oracledb.Base.{ℕ, ◌≡◌, refl, true, none, some, List, [], ◌∷◌}
use go_oracledb.Base.Int.{pos}
use go_oracledb.Base.Dict.{find, delete, insert}
use go_oracledb.Cache.Lru.{
  LruCache, new_lru_cache, unlink, element_value, move_to_front, push_front, remove_oldest, get,
  put, remove,
}
use go_oracledb.Cache.Lru.Invariant.{IsValid}
use go_oracledb.Cache.Lru.Refinement.{
  Call, calls_get, calls_put, calls_remove, Result, looked_up, previous, removed, step, run,
  step_recent, run_recent, Refines, new_IsValid, step-Refines, run_new-run_recent,
}
use native.Mathlib.Decide.{ℕ_discrete}

program : Unit {0}
unfolding find delete insert new_lru_cache unlink element_value move_to_front push_front
    remove_oldest get put remove step run step_recent run_recent ℕ_discrete
program = tt

abbrev empty : LruCache ℕ ℕ
empty = record { max_size = 2; entries = []; order = []; next_id = 0 }

empty-IsValid : IsValid ℕ_discrete empty
unfolding program
empty-IsValid = (new_IsValid ℕ_discrete (pos 2) empty refl).0

-- Key 1 is used again before key 3 finds the cache full, so key 2 is dropped.
abbrev calls : List (Call ℕ ℕ)
calls =
    calls_put 1 11
    ∷ calls_put 2 22
    ∷ calls_get 1
    ∷ calls_put 3 33
    ∷ calls_get 2
    ∷ calls_put 1 12
    ∷ calls_remove 3
    ∷ []

abbrev results : List (Result ℕ)
results =
    previous none
    ∷ previous none
    ∷ looked_up (some 11)
    ∷ previous none
    ∷ looked_up none
    ∷ previous (some 11)
    ∷ removed true
    ∷ []

called : run ℕ_discrete calls empty ≡ results
unfolding program
called = refl

abbrev full : LruCache ℕ ℕ
full = (step ℕ_discrete (calls_put 2 22) (step ℕ_discrete (calls_put 1 11) empty).1).1

full-IsValid : IsValid ℕ_discrete full
full-IsValid =
    let first = step-Refines ℕ_discrete empty (calls_put 1 11) empty-IsValid in
    (step-Refines ℕ_discrete (step ℕ_discrete (calls_put 1 11) empty).1 (calls_put 2 22)
      first.valid).valid

step-Refines_example :
    Refines ℕ_discrete (calls_put 3 33) full (step ℕ_discrete (calls_put 3 33) full)
step-Refines_example = step-Refines ℕ_discrete full (calls_put 3 33) full-IsValid

run_new-run_recent_example : run ℕ_discrete calls empty ≡ run_recent ℕ_discrete 2 calls []
unfolding program
run_new-run_recent_example = run_new-run_recent ℕ_discrete (pos 2) empty calls refl
