-- ===== src/Iterator/Pending.antt =====
-- The addresses that a `ConnectionIterator` of internal/driver/network/naming/iterator.go has yet to try.
use go_oracledb.Base.{
  ℕ, zero, suc, ◌+◌, ◌-◌, ◌≤◌, ◌<◌, ◌≡◌, refl, ◌∙◌, List, [], ◌∷◌, ◌++◌, length, drop, All,
  if◌then◌else◌, arith, Bool-cases, inl, inr, le→ltb_false,
}
use go_oracledb.Iterator.Partition.{
  stable_partition-Perm, round_robin-Perm, length-stable_partition, length-round_robin,
}
use go_oracledb.Iterator.Options.{Address}
use go_oracledb.Iterator.Attempts.{
  DescriptionAttempts, ConnectionIterator, Surroundings, is_load_balanced, is_down_host,
  reorder_addresses, next_addresses, start_cycle,
}
use mathlib.Core.List.{Perm}
use mathlib.Core.List.Perm

-- `n` times the addresses.
unfoldable pub copies : ℕ → List Address → List Address
copies zero addresses = []
copies (suc n) addresses = addresses ++ copies n addresses

-- The rest of the cycle, and the cycles behind it.
unfoldable pub pending_of : DescriptionAttempts → List Address
unfolding copies
pending_of d =
    drop d.current_addr_index d.addresses ++ copies (d.retry_count - d.current_cycle) d.addresses

unfoldable pub pendings : List DescriptionAttempts → List Address
unfolding pending_of
pendings [] = []
pendings (d ∷ rest) = pending_of d ++ pendings rest

unfoldable pub pending : ConnectionIterator → List Address
unfolding pendings
pending it = if it.exhausted then [] else pendings it.left

-- There are addresses, and the current one and the current cycle are within their bounds.
pub record IsReady (d : DescriptionAttempts) : Type 0 where
  pub some_addresses : 1 ≤ length d.addresses
  pub cycle_bound : d.current_cycle ≤ d.retry_count
  pub index_bound : d.current_addr_index ≤ length d.addresses

-- The first address of the first cycle is next.
pub record IsStart (d : DescriptionAttempts) : Type 0 where
  pub some_addresses : 1 ≤ length d.addresses
  pub no_cycle : d.current_cycle ≡ 0
  pub no_index : d.current_addr_index ≡ 0

-- The current description is ready, and those behind it are at their start.
abbrev pub AreReady : List DescriptionAttempts → Type 0
AreReady [] = Unit
AreReady (d ∷ rest) = IsReady d × All IsStart rest

abbrev pub IsValid : ConnectionIterator → Type 0
IsValid it = AreReady it.left

pub All-IsStart-AreReady : (l : List DescriptionAttempts) → All IsStart l → AreReady l
All-IsStart-AreReady [] h = tt
All-IsStart-AreReady (d ∷ rest) h = (
  record {
    some_addresses = h.0.some_addresses;
    cycle_bound = omega (arith, h.0.no_cycle);
    index_bound = omega (arith, h.0.no_index);
  },
  h.1,
)

pub copies-Perm : (n : ℕ) (xs ys : List Address) → Perm xs ys → Perm (copies n xs) (copies n ys)
unfolding copies
copies-Perm zero xs ys p = Perm.nil
copies-Perm (suc n) xs ys p = Perm.append p (copies-Perm n xs ys p)

pub next_addresses-Perm :
    (s : Surroundings) (d : DescriptionAttempts) (cycle : ℕ)
    → 1 ≤ cycle
    → Perm (next_addresses s d cycle) d.addresses
unfolding next_addresses reorder_addresses
next_addresses-Perm s d cycle later = elim (Bool-cases (is_load_balanced d.description)) [
  | inl e ↦
      rw (e, le→ltb_false cycle 1 later)
        (Perm.trans (stable_partition-Perm (is_down_host s) _) (round_robin-Perm d.addresses))
  | inr e ↦ rw e (stable_partition-Perm (is_down_host s) d.addresses)
]

pub length-next_addresses :
    (s : Surroundings) (d : DescriptionAttempts) (cycle : ℕ)
    → 1 ≤ cycle
    → length (next_addresses s d cycle) ≡ length d.addresses
unfolding next_addresses reorder_addresses
length-next_addresses s d cycle later = elim (Bool-cases (is_load_balanced d.description)) [
  | inl e ↦
      rw (e, le→ltb_false cycle 1 later)
        (length-stable_partition (is_down_host s) _ ∙ length-round_robin d.addresses)
  | inr e ↦ rw e (length-stable_partition (is_down_host s) d.addresses)
]

pub start_cycle-IsReady :
    (s : Surroundings) (d : DescriptionAttempts)
    → IsReady d
    → d.current_cycle < d.retry_count
    → IsReady (start_cycle s d)
unfolding start_cycle
start_cycle-IsReady s d h more =
    let same = length-next_addresses s d (d.current_cycle + 1) (omega arith) in
    record {
      some_addresses = omega (arith, h.some_addresses, same);
      cycle_bound = omega arith;
      index_bound = omega arith;
    }

drop_all : (n : ℕ) (xs : List Address) → length xs ≤ n → drop n xs ≡ []
drop_all zero [] h = refl
drop_all zero (x ∷ xs) h = absurd (omega arith)
drop_all (suc n) [] h = refl
drop_all (suc n) (x ∷ xs) h = drop_all n xs (omega arith)

-- A new cycle has what was left of the description, in another order.
pub pending_of-start_cycle :
    (s : Surroundings) (d : DescriptionAttempts)
    → length d.addresses ≤ d.current_addr_index
    → d.current_cycle < d.retry_count
    → Perm (pending_of (start_cycle s d)) (pending_of d)
unfolding pending_of start_cycle copies
pending_of-start_cycle s d done more =
    let k = d.retry_count - (d.current_cycle + 1) in
    let left : d.retry_count - d.current_cycle ≡ suc k = omega arith in
    let perm = next_addresses-Perm s d (d.current_cycle + 1) (omega arith) in
    rw (drop_all d.current_addr_index d.addresses done, left)
      (Perm.append perm (copies-Perm k _ _ perm))

-- Of a description that is done nothing is left.
pub pending_of_done :
    (d : DescriptionAttempts)
    → length d.addresses ≤ d.current_addr_index
    → d.retry_count ≤ d.current_cycle
    → pending_of d ≡ []
unfolding pending_of copies
pending_of_done d done last =
    let left : d.retry_count - d.current_cycle ≡ 0 = omega arith in
    rw (drop_all d.current_addr_index d.addresses done, left)
