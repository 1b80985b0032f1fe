-- ===== src/Iterator/Counts.antt =====
-- `HasNext`, `Remaining`, `Total` and `Reset` of internal/driver/network/naming/iterator.go, against the addresses
-- that are pending.
use go_oracledb.Base.{
  ℕ, zero, suc, ◌+◌, ◌-◌, ◌*◌, ◌/◌, ◌%◌, ◌^◌, ◌≤◌, ◌<◌, ◌≡◌, refl, sym, ap, ◌∙◌, List, [], ◌∷◌,
  length, length-append, length-drop, drop, All, ltb, arith, Bool-cases, inl, inr, lt→ltb, ltb→lt,
  ltb_false→le,
}
use go_oracledb.Base.Int.{signed}
use go_oracledb.Iterator.Options.{Address}
use native.Mathlib.Nat.{add-mul-mod_self_left}
use go_oracledb.Iterator.Attempts.{
  DescriptionAttempts, ConnectionIterator, remaining_of, any_addresses, has_more, has_next,
  total_of, remaining, sub_int, add_int, mul_int,
}
use go_oracledb.Iterator.Pending.{
  copies, pending_of, pendings, pending, IsReady, IsStart, AreReady, IsValid, pending_of_done,
}

-- The number of attempts, without a bound.
unfoldable pub whole_total : List DescriptionAttempts → ℕ
whole_total [] = 0
whole_total (d ∷ rest) = length d.addresses * (d.retry_count + 1) + whole_total rest

mul_mod : (a r q : ℕ) → a * (r + 2 ^ 64 * q) % 2 ^ 64 ≡ a * r % 2 ^ 64
mul_mod a r q = rw same (add-mul-mod_self_left (a * r) (2 ^ 64) (a * q))
  where
    same : a * (r + 2 ^ 64 * q) ≡ a * r + 2 ^ 64 * (a * q)
    same = omega arith

mul_int-mod : (a b : ℕ) → mul_int a (b % 2 ^ 64) ≡ a * b % 2 ^ 64
mul_int-mod a b =
    let parts : b ≡ b % 2 ^ 64 + 2 ^ 64 * (b / 2 ^ 64) = omega arith in
    sym (ap (λ n. a * n % 2 ^ 64) parts ∙ mul_mod a (b % 2 ^ 64) (b / 2 ^ 64))

sub_int_lem : (a b : ℕ) → b ≤ a → sub_int a b ≡ (a - b) % 2 ^ 64
sub_int_lem a b h = omega arith

-- The loop of `Total` wraps what it counts.
total_of-whole_total :
    (count : ℕ) (l : List DescriptionAttempts)
    → total_of (count % 2 ^ 64) l ≡ (count + whole_total l) % 2 ^ 64
unfolding total_of whole_total
total_of-whole_total count [] = ap (λ n. n % 2 ^ 64) (omega arith)
total_of-whole_total count (d ∷ rest) =
    let own = length d.addresses * (d.retry_count + 1) in
    let product = mul_int-mod (length d.addresses) (d.retry_count + 1) in
    let step : add_int (count % 2 ^ 64) (mul_int (length d.addresses) (add_int d.retry_count 1))
        ≡ (count + own) % 2 ^ 64 =
      rw product (omega arith) in
    let grouped : count + own + whole_total rest ≡ count + whole_total (d ∷ rest) = omega arith in
    rw step (total_of-whole_total (count + own) rest ∙ ap (λ n. n % 2 ^ 64) grouped)

pub total_of_zero : (l : List DescriptionAttempts) → total_of 0 l ≡ whole_total l % 2 ^ 64
total_of_zero l =
    let start : 0 + whole_total l ≡ whole_total l = omega arith in
    total_of-whole_total 0 l ∙ ap (λ n. n % 2 ^ 64) start

length-copies : (n : ℕ) (xs : List Address) → length (copies n xs) ≡ length xs * n
unfolding copies
length-copies zero xs = omega arith
length-copies (suc n) xs = length-append xs (copies n xs) ∙ omega (arith, length-copies n xs)

length-pending_of :
    (d : DescriptionAttempts)
    → length (pending_of d)
      ≡ length d.addresses
        - d.current_addr_index
        + length d.addresses * (d.retry_count - d.current_cycle)
unfolding pending_of
length-pending_of d =
    let front = length-drop d.current_addr_index d.addresses in
    let cycles = length-copies (d.retry_count - d.current_cycle) d.addresses in
    length-append (drop d.current_addr_index d.addresses) _ ∙ cc

length-pendings :
    (l : List DescriptionAttempts) → All IsStart l → length (pendings l) ≡ whole_total l
unfolding pendings whole_total
length-pendings [] h = refl
length-pendings (d ∷ rest) h =
    let others = length-pendings rest h.1 in
    let own = length-pending_of d in
    let first = h.0.no_cycle in
    let start = h.0.no_index in
    let all : d.retry_count - d.current_cycle ≡ d.retry_count = omega arith in
    let cycles : length (pending_of d) ≡ length d.addresses + length d.addresses * d.retry_count =
      own ∙ (rw (all, start) (omega arith)) in
    length-append (pending_of d) (pendings rest) ∙ omega (arith, cycles, others)

pub total_of-pendings :
    (l : List DescriptionAttempts) → All IsStart l → length (pendings l) % 2 ^ 64 ≡ total_of 0 l
total_of-pendings l h = ap (λ n. n % 2 ^ 64) (length-pendings l h) ∙ sym (total_of_zero l)

-- Starts have addresses.
any_addresses-whole_total :
    (l : List DescriptionAttempts) → All IsStart l → any_addresses l ≡ ltb 0 (whole_total l)
unfolding any_addresses whole_total
any_addresses-whole_total [] h = refl
any_addresses-whole_total (d ∷ rest) h =
    let some_pending : 1 ≤ length d.addresses * (d.retry_count + 1) =
      omega (arith, h.0.some_addresses) in
    rw (lt→ltb 0 (length d.addresses) h.0.some_addresses)
      (sym (lt→ltb 0 _ (omega (arith, some_pending))))

has_more-pendings :
    (d : DescriptionAttempts) (rest : List DescriptionAttempts)
    → IsReady d
    → All IsStart rest
    → has_more (d ∷ rest) ≡ ltb 0 (length (pendings (d ∷ rest)))
unfolding has_more pendings
has_more-pendings d rest h hs =
    let size = length-append (pending_of d) (pendings rest) in
    elim (Bool-cases (ltb d.current_addr_index (length d.addresses))) [
      | inl more ↦
          rw more (sym (lt→ltb 0 _ (omega (arith, size, length-pending_of d, ltb→lt _ _ more))))
      | inr done ↦ elim (Bool-cases (ltb d.current_cycle d.retry_count)) [
        | inl again ↦ rw (done, again) (sym (lt→ltb 0 _ (again_pending (ltb→lt _ _ again))))
        | inr last ↦
            rw (done, last)
              (any_addresses-whole_total rest hs
                ∙ ap (ltb 0) (
                    sym (
                      rw (pending_of_done d (ltb_false→le _ _ done) (ltb_false→le _ _ last))
                        (length-pendings rest hs))))
      ]
    ]
  where
    again_pending : d.current_cycle < d.retry_count → 0 < length (pendings (d ∷ rest))
    again_pending more =
        let k = d.retry_count - (d.current_cycle + 1) in
        let cycles : d.retry_count - d.current_cycle ≡ suc k = omega arith in
        let own : length (pending_of d)
            ≡ length d.addresses - d.current_addr_index + length d.addresses * suc k =
          length-pending_of d ∙ rw cycles in
        omega (arith, length-append (pending_of d) (pendings rest), h.some_addresses, own)

remaining_of-pendings :
    (l : List DescriptionAttempts) → AreReady l → remaining_of l ≡ length (pendings l) % 2 ^ 64
unfolding pendings remaining_of
remaining_of-pendings [] h = refl
remaining_of-pendings (d ∷ rest) h =
    let here = length d.addresses - d.current_addr_index in
    let later = length d.addresses * (d.retry_count - d.current_cycle) in
    let index = sub_int_lem (length d.addresses) d.current_addr_index h.0.index_bound in
    let cycle = sub_int_lem d.retry_count d.current_cycle h.0.cycle_bound in
    let product = mul_int-mod (length d.addresses) (d.retry_count - d.current_cycle) in
    let step : ((0 + here % 2 ^ 64) % 2 ^ 64 + later % 2 ^ 64) % 2 ^ 64 ≡ (here + later) % 2 ^ 64 =
      omega arith in
    let size = length-append (pending_of d) (pendings rest) in
    let whole : here + later + whole_total rest ≡ length (pendings (d ∷ rest)) =
      omega (arith, size, length-pending_of d, length-pendings rest h.1) in
    rw (index, cycle, product, step)
      (total_of-whole_total (here + later) rest ∙ ap (λ n. n % 2 ^ 64) whole)

has_more_lem :
    (l : List DescriptionAttempts) → AreReady l → has_more l ≡ ltb 0 (length (pendings l))
unfolding pendings has_more
has_more_lem [] h = refl
has_more_lem (d ∷ rest) h = has_more-pendings d rest h.0 h.1

-- `Remaining` is the int that the number of pending addresses wraps to, which is that number below 2^63, and `HasNext`
-- is true where an address is pending.
pub remaining-pending :
    (it : ConnectionIterator)
    → IsValid it
    → (remaining it ≡ signed 64 (length (pending it) % 2 ^ 64))
      × ((has_next it).0 ≡ ltb 0 (length (pending it)))
unfolding remaining has_next pending
remaining-pending it h = elim (Bool-cases it.exhausted) [
  | inl e ↦ rw e (refl, refl)
  | inr e ↦
      let same = ap (signed 64) (remaining_of-pendings it.left h) in
      elim (Bool-cases (has_more it.left)) [
        | inl m ↦ rw (e, m) (same, sym m ∙ has_more_lem it.left h)
        | inr m ↦ rw (e, m) (same, sym m ∙ has_more_lem it.left h)
      ]
]
