-- ===== src/Iterator/Fresh.antt =====
-- A new `ConnectionIterator` of internal/driver/network/naming/iterator.go.
use go_oracledb.Base.{
  ℕ, zero, suc, ◌+◌, ◌≤◌, ◌<◌, ◌≡◌, refl, ap, ◌∙◌, Bool, true, false, ◌⊎◌, Option, none, some, List,
  [], ◌∷◌, take, length, get_elem?, All, ltb, ◌==◌, if◌then◌else◌, arith, Bool-cases, inl, inr,
  Option-cases,
}
use go_oracledb.Base.Int.{signed}
use go_oracledb.Base.Outcome.{Outcome, ok}
use go_oracledb.Naming.Node.{Error, Node}
use go_oracledb.Iterator.Partition.{length-stable_partition}
use go_oracledb.Iterator.Options.{Address, Description}
use go_oracledb.Iterator.Attempts.{
  DescriptionAttempts, ConnectionIterator, Surroundings, is_down_host, is_down_description,
  reorder_addresses, reorder_descriptions, total, remaining,
}
use go_oracledb.Iterator.Pending.{IsStart, IsValid, All-IsStart-AreReady, pending}
use go_oracledb.Iterator.Counts.{remaining-pending, total_of-pendings}
use go_oracledb.Iterator.Again.{Reorders, All-stable_partition}
use go_oracledb.Iterator.Build.{
  ConnectionContext, DescriptionList, Resolver, resolve_addresses, collect_all_addresses,
  find_description_node, build_from_addresses, indices_from, first_only, first_addresses,
  build_from_description, build_each, build_from_description_list, build_description_attempts,
  new_connection_iterator,
}
use go_oracledb.Base.Perms.{length-Perm}
use mathlib.Core.Path.{subst}
use mathlib.Core.List.{Perm}
use mathlib.Core.List.Perm
use go_oracledb.Iterator.Indices.{AreBelow, AreBelow-Perm, AreBelow-take, indices_from-AreBelow}

not_empty : (n : ℕ) → (n == 0) ≡ false → 1 ≤ n
not_empty n h = ground arith

found : {A : Type 0} (xs : List A) (i : ℕ) → i < length xs → (x : A) × (get_elem? xs i ≡ some x)
found [] i h = absurd (omega arith)
found (x ∷ xs) zero h = (x, refl)
found (x ∷ xs) (suc i) h = found xs i (omega arith)

-- What is chosen of a list that is not empty is there, and not empty.
first_or_all {ℓ} :
    {A : Type ℓ} (all : Bool) (xs : List A)
    → 1 ≤ length xs
    → (ys : List A) × ((if all then ok xs else first_only xs) ≡ ok ys)
      × (1 ≤ length ys)
      × ((ys ≡ xs) ⊎ (ys ≡ take 1 xs))
unfolding first_only
first_or_all true xs h = (xs, refl, h, inl refl)
first_or_all false [] h = absurd (omega arith)
first_or_all false (x ∷ xs) h = (x ∷ [], refl, omega arith, inr refl)

first_addresses_lem :
    (s : Surroundings) (d : Description) (resolved : List Address)
    → Reorders s.shuffle
    → 1 ≤ length resolved
    → (xs : List Address) × (first_addresses s d resolved ≡ ok xs) × (1 ≤ length xs)
unfolding first_addresses reorder_addresses
first_addresses_lem s d resolved h has =
    let (ys, e, some_left, _) =
      first_or_all d.failover (if d.load_balance then s.shuffle resolved else resolved) shuffled in
    (
      reorder_addresses s ys,
      rw e refl,
      omega (arith, some_left, length-stable_partition (is_down_host s) ys),
    )
  where
    shuffled : 1 ≤ length (if d.load_balance then s.shuffle resolved else resolved)
    shuffled = elim (Bool-cases d.load_balance) [
      | inl e ↦ rw e (omega (arith, length-Perm (h resolved)))
      | inr e ↦ rw e has
    ]

-- A description that is built starts at its first address.
build_from_description-IsStart :
    (to_upper : ℕ → ℕ) (s : Surroundings) (r : Resolver) (call : ℕ) (d : Description)
    (n : Option Node)
    → Reorders s.shuffle
    → (a : Option DescriptionAttempts) × (build_from_description to_upper s r call d n ≡ ok a)
      × All IsStart (elim a [ none ↦ [] | some x ↦ x ∷ [] ])
unfolding build_from_description
build_from_description-IsStart to_upper s r call d n h =
    let addresses = collect_all_addresses d in
    elim (Bool-cases (length addresses == 0)) [
      | inl e ↦ (none, rw e refl, tt)
      | inr e ↦ elim (Bool-cases (length (resolve_addresses r call addresses) == 0)) [
        | inl f ↦ (none, rw (e, f) refl, tt)
        | inr f ↦
            let (xs, chosen, some_left) =
              first_addresses_lem s d (resolve_addresses r call addresses) h (not_empty _ f) in
            rw (e, f, chosen)
              (
                _,
                refl,
                (record { some_addresses = some_left; no_cycle = refl; no_index = refl }, tt),
              )
      ]
    ]

build_from_addresses-IsStart :
    (s : Surroundings) (r : Resolver) (addresses : List Address)
    → All IsStart (build_from_addresses s r addresses)
unfolding build_from_addresses reorder_addresses
build_from_addresses-IsStart s r addresses = elim (Bool-cases (length addresses == 0)) [
  | inl e ↦ rw e tt
  | inr e ↦ elim (Bool-cases (length (resolve_addresses r 0 addresses) == 0)) [
    | inl f ↦ rw (e, f) tt
    | inr f ↦
        rw (e, f)
          (
            record {
              some_addresses =
                  unfold reorder_addresses in
                  omega (
                    arith,
                    not_empty _ f,
                    length-stable_partition (is_down_host s) (resolve_addresses r 0 addresses),
                  );
              no_cycle = refl;
              no_index = refl;
            },
            tt,
          )
  ]
]

length-indices_from : (start n : ℕ) → length (indices_from start n) ≡ n
unfolding indices_from
length-indices_from start zero = refl
length-indices_from start (suc n) = omega (arith, length-indices_from (suc start) n)

-- The attempts are there, and they start at their first addresses.
abbrev AreFresh : Outcome Error (List DescriptionAttempts) → Type 0
AreFresh r = (attempts : List DescriptionAttempts) × (r ≡ ok attempts) × All IsStart attempts

with_rest :
    (a : Option DescriptionAttempts) (rest : List DescriptionAttempts)
    → All IsStart (elim a [ none ↦ [] | some x ↦ x ∷ [] ])
    → All IsStart rest
    → All IsStart (elim a [ none ↦ rest | some x ↦ x ∷ rest ])
with_rest none rest h hs = hs
with_rest (some x) rest h hs = (h.0, hs)

build_each-AreFresh :
    (to_upper : ℕ → ℕ) (s : Surroundings) (r : Resolver) (root : Option Node)
    (ds : List Description) (call : ℕ) (is : List ℕ)
    → Reorders s.shuffle
    → AreBelow (length ds) is
    → AreFresh (build_each to_upper s r root ds call is)
unfolding build_each
build_each-AreFresh to_upper s r root ds call [] h below = ([], refl, tt)
build_each-AreFresh to_upper s r root ds call (i ∷ is) h below =
    elim (Option-cases (find_description_node root i)) [
      | inl e ↦ rw (e, build_each) (build_each-AreFresh to_upper s r root ds call is h below.1)
      | inr (n, e) ↦
          let (d, at) = found ds i below.0 in
          let (rest, made, starts) =
            build_each-AreFresh to_upper s r root ds (call + length (collect_all_addresses d)) is h
              below.1 in
          let (own, built, start) = build_from_description-IsStart to_upper s r call d (some n) h in
          (_, rw (e, build_each, at, built, made), with_rest own rest start starts)
    ]

build_from_description_list-AreFresh :
    (to_upper : ℕ → ℕ) (s : Surroundings) (r : Resolver) (root : Option Node) (dl : DescriptionList)
    → Reorders s.shuffle
    → ((xs : List ℕ) → Perm (r.shuffle_indices xs) xs)
    → AreFresh (build_from_description_list to_upper s r root dl)
unfolding build_from_description_list reorder_descriptions
build_from_description_list-AreFresh to_upper s r root dl h shuffles =
    elim (Bool-cases (length dl.descriptions == 0)) [
      | inl e ↦ rw e ([], refl, tt)
      | inr e ↦
          let (below, there) = ordered in
          let (js, picked, _, same) =
            first_or_all dl.failover order (omega (arith, there, not_empty _ e)) in
          let (attempts, made, starts) =
            build_each-AreFresh to_upper s r root dl.descriptions 0 js h (chosen js same below) in
          rw (e, picked, made)
            (_, refl, All-stable_partition IsStart (is_down_description s) attempts starts)
    ]
  where
    count : ℕ
    count = length dl.descriptions

    order : List ℕ
    order =
        if dl.load_balance then r.shuffle_indices (indices_from 0 count) else indices_from 0 count

    below_all : AreBelow count (indices_from 0 count)
    below_all =
        subst (λ n. AreBelow n (indices_from 0 count)) (omega arith) (indices_from-AreBelow 0 count)

    chosen :
        (js : List ℕ)
        → (js ≡ order) ⊎ (js ≡ take 1 order)
        → AreBelow count order
        → AreBelow count js
    chosen js (inl e) below = rw e below
    chosen js (inr e) below = rw e (AreBelow-take count 1 order below)

    ordered : AreBelow count order × (length order ≡ count)
    ordered = elim (Bool-cases dl.load_balance) [
      | inl e ↦
          let perm = shuffles (indices_from 0 count) in
          rw e (
            AreBelow-Perm count (Perm.symm perm) below_all,
            length-Perm perm ∙ length-indices_from 0 count,
          )
      | inr e ↦ rw e (below_all, length-indices_from 0 count)
    ]

build_description_attempts-AreFresh :
    (to_upper : ℕ → ℕ) (s : Surroundings) (r : Resolver) (root : Option Node)
    (c : ConnectionContext)
    → Reorders s.shuffle
    → ((xs : List ℕ) → Perm (r.shuffle_indices xs) xs)
    → AreFresh (build_description_attempts to_upper s r root c)
unfolding build_description_attempts
build_description_attempts-AreFresh to_upper s r root c h shuffles =
    elim (Option-cases c.description_list) [
      | inr (dl, e) ↦ rw e (build_from_description_list-AreFresh to_upper s r root dl h shuffles)
      | inl e ↦ elim (Option-cases c.description) [
        | inr (d, f) ↦
            let (own, built, start) = build_from_description-IsStart to_upper s r 0 d root h in
            rw (e, f) (_, rw built refl, start)
        | inl f ↦ elim (Bool-cases (ltb 0 (length c.addresses))) [
          | inl g ↦ rw (e, f, g) (_, refl, build_from_addresses-IsStart s r c.addresses)
          | inr g ↦ rw (e, f, g) (_, refl, tt)
        ]
      ]
    ]

-- `NewConnectionIterator` gives an iterator, which is valid and not at its end, and all of its attempts remain.
pub new_connection_iterator-IsValid :
    (to_upper : ℕ → ℕ) (s : Surroundings) (r : Resolver) (root : Option Node)
    (c : ConnectionContext)
    → Reorders s.shuffle
    → ((xs : List ℕ) → Perm (r.shuffle_indices xs) xs)
    → (it : ConnectionIterator) × (new_connection_iterator to_upper s r root c ≡ ok it)
      × IsValid it
      × (it.exhausted ≡ false)
      × (remaining it ≡ total it)
unfolding new_connection_iterator total
new_connection_iterator-IsValid to_upper s r root c h shuffles =
    let (attempts, made, starts) =
      build_description_attempts-AreFresh to_upper s r root c h shuffles in
    let it : ConnectionIterator = record { passed = []; left = attempts; exhausted = false } in
    let valid = All-IsStart-AreReady attempts starts in
    (
      it,
      rw made,
      valid,
      refl,
      (remaining-pending it valid).0
          ∙ (unfold pending in ap (signed 64) (total_of-pendings attempts starts)),
    )
