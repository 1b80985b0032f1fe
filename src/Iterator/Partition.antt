-- ===== src/Iterator/Partition.antt =====
-- `stablePartition` and `roundRobin` of internal/driver/network/naming/iterator.go.
use go_oracledb.Base.{
  ◌+◌, ◌≡◌, refl, ◌∙◌, Bool, not, List, [], ◌∷◌, ◌++◌, length, length-append, ltb, if◌then◌else◌,
  arith, Bool-cases, inl, inr,
}
use mathlib.Core.List.{Perm, perm_append_comm, perm_middle}
use mathlib.Core.List.Perm

module _ {ℓ} {A : Type ℓ} where
  -- The items that a test takes, in order: what each of the two loops appends.
  unfoldable pub those : (A → Bool) → List A → List A
  those test [] = []
  those test (x ∷ xs) = let rest = those test xs in if test x then x ∷ rest else rest

  -- `stablePartition`.
  unfoldable pub stable_partition : (A → Bool) → List A → List A
  unfolding those
  stable_partition is_last items =
      if ltb (length items) 2
      then items
      else those (λ x. not (is_last x)) items ++ those is_last items

  -- `roundRobin`.
  unfoldable pub round_robin : List A → List A
  round_robin [] = []
  round_robin (x ∷ []) = x ∷ []
  round_robin (x ∷ (y ∷ xs)) = (y ∷ xs) ++ (x ∷ [])

  those-Perm :
      (test : A → Bool) (xs : List A) → Perm (those (λ x. not (test x)) xs ++ those test xs) xs
  unfolding those
  those-Perm test [] = Perm.nil
  those-Perm test (x ∷ xs) = elim (Bool-cases (test x)) [
    | inl e ↦ rw e (
        Perm.trans (perm_middle (those (λ x. not (test x)) xs) (those test xs))
          (Perm.cons x (those-Perm test xs)))
    | inr e ↦ rw e (Perm.cons x (those-Perm test xs))
  ]

  pub stable_partition-Perm :
      (is_last : A → Bool) (items : List A) → Perm (stable_partition is_last items) items
  unfolding stable_partition
  stable_partition-Perm is_last items = elim (Bool-cases (ltb (length items) 2)) [
    | inl e ↦ rw e (Perm.refl items)
    | inr e ↦ rw e (those-Perm is_last items)
  ]

  pub round_robin-Perm : (items : List A) → Perm (round_robin items) items
  unfolding round_robin
  round_robin-Perm [] = Perm.nil
  round_robin-Perm (x ∷ []) = Perm.refl (x ∷ [])
  round_robin-Perm (x ∷ (y ∷ xs)) = perm_append_comm (y ∷ xs) (x ∷ [])

  pub length-round_robin : (items : List A) → length (round_robin items) ≡ length items
  unfolding round_robin
  length-round_robin [] = refl
  length-round_robin (x ∷ []) = refl
  length-round_robin (x ∷ (y ∷ xs)) = omega (arith, length-append {ℓ} (y ∷ xs) (x ∷ []))

  length-those :
      (test : A → Bool) (xs : List A)
      → length (those (λ x. not (test x)) xs) + length (those test xs) ≡ length xs
  unfolding those
  length-those test [] = omega arith
  length-those test (x ∷ xs) = elim (Bool-cases (test x)) [
    | inl e ↦ rw e (omega (arith, length-those test xs))
    | inr e ↦ rw e (omega (arith, length-those test xs))
  ]

  pub length-stable_partition :
      (is_last : A → Bool) (items : List A) → length (stable_partition is_last items) ≡ length items
  unfolding stable_partition
  length-stable_partition is_last items = elim (Bool-cases (ltb (length items) 2)) [
    | inl e ↦ rw e
    | inr e ↦ rw e (
        length-append {ℓ} (those (λ x. not (is_last x)) items) (those is_last items)
        ∙ length-those is_last items)
  ]
