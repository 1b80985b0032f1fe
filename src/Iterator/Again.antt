-- ===== src/Iterator/Again.antt =====
-- `Reset` of internal/driver/network/naming/iterator.go: the iterator starts again.
use go_oracledb.Base.{
  ◌+◌, ◌%◌, ◌^◌, ◌≤◌, ◌≡◌, refl, sym, ap, ◌∙◌, Bool, not, List, [], ◌∷◌, ◌++◌, length, map, All,
  ltb, arith, Bool-cases, inl, inr,
}
use go_oracledb.Iterator.Partition.{those, stable_partition, length-stable_partition}
use go_oracledb.Base.Int.{signed}
use go_oracledb.Iterator.Options.{Address}
use go_oracledb.Iterator.Attempts.{
  DescriptionAttempts, ConnectionIterator, Surroundings, is_load_balanced, is_down_host,
  is_down_description, reorder_addresses, reorder_descriptions, total_of, total, remaining,
  reset_attempts, reset,
}
use go_oracledb.Iterator.Pending.{IsStart, IsValid, All-IsStart-AreReady, pending}
use go_oracledb.Iterator.Counts.{remaining-pending, whole_total, total_of_zero, total_of-pendings}
use go_oracledb.Base.Perms.{length-Perm}
use mathlib.Core.List.{Perm}

-- The description has an address.
abbrev pub HasAddresses : DescriptionAttempts → Type 0
HasAddresses d = 1 ≤ length d.addresses

-- A test that gives other orders of a list.
abbrev pub Reorders : (List Address → List Address) → Type 0
Reorders f = (xs : List Address) → Perm (f xs) xs

All-those {ℓ κ} :
    {A : Type ℓ} (P : A → Type κ) (test : A → Bool) (xs : List A) → All P xs → All P (those test xs)
unfolding those
All-those P test [] h = tt
All-those P test (x ∷ xs) h = elim (Bool-cases (test x)) [
  | inl e ↦ rw e (h.0, All-those P test xs h.1)
  | inr e ↦ rw e (All-those P test xs h.1)
]

All-append {ℓ κ} :
    {A : Type ℓ} (P : A → Type κ) (xs ys : List A) → All P xs → All P ys → All P (xs ++ ys)
All-append P [] ys h k = k
All-append P (x ∷ xs) ys h k = (h.0, All-append P xs ys h.1 k)

pub All-stable_partition {ℓ κ} :
    {A : Type ℓ} (P : A → Type κ) (test : A → Bool) (xs : List A)
    → All P xs
    → All P (stable_partition test xs)
unfolding stable_partition
All-stable_partition P test xs h = elim (Bool-cases (ltb (length xs) 2)) [
  | inl e ↦ rw e h
  | inr e ↦ rw e (All-append P _ _ (All-those P _ xs h) (All-those P test xs h))
]

whole_total-append :
    (xs ys : List DescriptionAttempts) → whole_total (xs ++ ys) ≡ whole_total xs + whole_total ys
unfolding whole_total
whole_total-append [] ys = omega arith
whole_total-append (d ∷ xs) ys = omega (arith, whole_total-append xs ys)

whole_total-those :
    (test : DescriptionAttempts → Bool) (xs : List DescriptionAttempts)
    → whole_total (those (λ x. not (test x)) xs) + whole_total (those test xs) ≡ whole_total xs
unfolding whole_total those
whole_total-those test [] = omega arith
whole_total-those test (x ∷ xs) = elim (Bool-cases (test x)) [
  | inl e ↦ rw e (omega (arith, whole_total-those test xs))
  | inr e ↦ rw e (omega (arith, whole_total-those test xs))
]

whole_total-stable_partition :
    (test : DescriptionAttempts → Bool) (xs : List DescriptionAttempts)
    → whole_total (stable_partition test xs) ≡ whole_total xs
unfolding stable_partition
whole_total-stable_partition test xs = elim (Bool-cases (ltb (length xs) 2)) [
  | inl e ↦ rw e
  | inr e ↦ rw e (
      whole_total-append (those (λ x. not (test x)) xs) (those test xs) ∙ whole_total-those test xs)
]

length-reset_attempts :
    (s : Surroundings) (d : DescriptionAttempts)
    → Reorders s.shuffle
    → length (reset_attempts s d).addresses ≡ length d.addresses
unfolding reset_attempts reorder_addresses
length-reset_attempts s d h = elim (Bool-cases (is_load_balanced d.description)) [
  | inl e ↦ rw e (length-stable_partition (is_down_host s) _ ∙ length-Perm (h d.addresses))
  | inr e ↦ rw e (length-stable_partition (is_down_host s) d.addresses)
]

reset_attempts-IsStart :
    (s : Surroundings) (d : DescriptionAttempts)
    → Reorders s.shuffle
    → HasAddresses d
    → IsStart (reset_attempts s d)
reset_attempts-IsStart s d h has = record {
  some_addresses = omega (arith, length-reset_attempts s d h);
  no_cycle = unfold reset_attempts in refl;
  no_index = unfold reset_attempts in refl;
}

map-IsStart :
    (s : Surroundings) (l : List DescriptionAttempts)
    → Reorders s.shuffle
    → All HasAddresses l
    → All IsStart (map (reset_attempts s) l)
map-IsStart s [] h hs = tt
map-IsStart s (d ∷ l) h hs = (reset_attempts-IsStart s d h hs.0, map-IsStart s l h hs.1)

whole_total-map :
    (s : Surroundings) (l : List DescriptionAttempts)
    → Reorders s.shuffle
    → whole_total (map (reset_attempts s) l) ≡ whole_total l
unfolding whole_total
whole_total-map s [] h = refl
whole_total-map s (d ∷ l) h =
    let own = length-reset_attempts s d h in
    let others = whole_total-map s l h in
    let count : (reset_attempts s d).retry_count ≡ d.retry_count = unfold reset_attempts in refl in
    rw (own, count, others)

-- `Reset` keeps the number of attempts, and all of them remain.
pub reset-total :
    (s : Surroundings) (it : ConnectionIterator)
    → Reorders s.shuffle
    → All HasAddresses (it.passed ++ it.left)
    → IsValid (reset s it) × (total (reset s it) ≡ total it) × (remaining (reset s it) ≡ total it)
unfolding reset reorder_descriptions total
reset-total s it h hs =
    let all = it.passed ++ it.left in
    let again = reorder_descriptions s (map (reset_attempts s) all) in
    let starts = All-stable_partition IsStart (is_down_description s) _ (map-IsStart s all h hs) in
    let valid = All-IsStart-AreReady _ starts in
    let same : whole_total again ≡ whole_total all =
      whole_total-stable_partition (is_down_description s) (map (reset_attempts s) all)
      ∙ whole_total-map s all h in
    let wrapped : total_of 0 again ≡ total_of 0 all =
      total_of_zero again ∙ (ap (λ n. n % 2 ^ 64) same ∙ sym (total_of_zero all)) in
    (
      valid,
      ap (signed 64) wrapped,
      (remaining-pending (reset s it) valid).0
          ∙ (unfold pending in ap (signed 64) (total_of-pendings again starts ∙ wrapped)),
    )
