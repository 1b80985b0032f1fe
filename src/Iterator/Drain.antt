-- ===== src/Iterator/Drain.antt =====
-- Calls of `Next` of internal/driver/network/naming/iterator.go one after the other.
use go_oracledb.Base.{
  ℕ, zero, suc, ◌+◌, ◌<◌, ◌≡◌, refl, sym, ap, ◌∙◌, Bool, true, false, ◌&&◌, Option, none, some,
  List, [], ◌∷◌, ◌++◌, length, drop, get_elem?, map, All, ltb, arith, Bool-cases, inl, inr,
  Option-cases, lt→ltb, ltb→lt, ltb_false→le,
}
use go_oracledb.Base.Outcome.{Outcome, ok, ◌>>=◌}
use go_oracledb.Naming.Node.{Error}
use go_oracledb.Iterator.Options.{Address, ConnectionOption}
use go_oracledb.Iterator.Attempts.{
  DescriptionAttempts, ConnectionIterator, Surroundings, build_option, start_cycle, next_loop,
  rounds, next,
}
use go_oracledb.Iterator.Pending.{
  pending_of, pendings, IsReady, IsStart, AreReady, IsValid, All-IsStart-AreReady,
  start_cycle-IsReady, pending_of-start_cycle, pending_of_done,
}
use go_oracledb.Base.Perms.{length-Perm}
use mathlib.Core.List.{Perm}
use mathlib.Core.List.Perm
use mathlib.Core.Path.{subst}

-- What `Next` gives where `left` is left: nil, with nothing pending, or an option for one of the pending
-- addresses, with the others pending behind it.
pub data Gives (left : List DescriptionAttempts)
    (r : Outcome Error (Option ConnectionOption × ConnectionIterator)) : Type 0 where
  nothing :
      (it : ConnectionIterator)
      → r ≡ ok (none, it)
      → it.exhausted ≡ true
      → pendings left ≡ []
      → Gives left r
  option :
      (o : ConnectionOption) (it : ConnectionIterator)
      → r ≡ ok (some o, it)
      → it.exhausted ≡ false
      → AreReady it.left
      → Perm (o.address ∷ pendings it.left) (pendings left)
      → Gives left r

build_option-address : (d : DescriptionAttempts) (a : Address) → (build_option d a).address ≡ a
unfolding build_option
build_option-address d a = elim (Option-cases d.description) [
  | inl e ↦ rw (e, build_option)
  | inr (desc, e) ↦ rw (e, build_option)
]

-- Other attempts with the same addresses pending give the same.
Gives-Perm :
    (left left' : List DescriptionAttempts)
    (r : Outcome Error (Option ConnectionOption × ConnectionIterator))
    → Perm (pendings left') (pendings left)
    → Gives left' r
    → Gives left r
Gives-Perm left left' r p (nothing it e x empty) =
    nothing it e x (sym (Perm.nil-eq (subst (λ l. Perm l (pendings left)) empty p)))
Gives-Perm left left' r p (option o it e x ready perm) = option o it e x ready (Perm.trans perm p)

and_false : (b : Bool) → (b && false) ≡ false
and_false true = refl
and_false false = refl

next_loop_cycle :
    (fuel : ℕ) (s : Surroundings) (passed rest : List DescriptionAttempts) (d : DescriptionAttempts)
    → s.cancelled ≡ false
    → ltb d.current_addr_index (length d.addresses) ≡ false
    → ltb d.current_cycle d.retry_count ≡ true
    → next_loop (suc fuel) s passed (d ∷ rest) ≡ next_loop fuel s passed (start_cycle s d ∷ rest)
unfolding next_loop
next_loop_cycle fuel s passed rest d c done again =
    rw (done, again, c, and_false (ltb 0 d.retry_delay))

next_loop_pass :
    (fuel : ℕ) (s : Surroundings) (passed rest : List DescriptionAttempts) (d : DescriptionAttempts)
    → ltb d.current_addr_index (length d.addresses) ≡ false
    → ltb d.current_cycle d.retry_count ≡ false
    → next_loop (suc fuel) s passed (d ∷ rest) ≡ next_loop fuel s (passed ++ (d ∷ [])) rest
unfolding next_loop
next_loop_pass fuel s passed rest d done last = rw (done, last)

drop_found :
    (n : ℕ) (xs : List Address)
    → n < length xs
    → (a : Address) × (get_elem? xs n ≡ some a) × (drop n xs ≡ a ∷ drop (suc n) xs)
drop_found n [] h = absurd (omega arith)
drop_found zero (x ∷ xs) h = (x, refl, refl)
drop_found (suc n) (x ∷ xs) h = drop_found n xs (omega arith)

-- The attempts behind the current address.
abbrev after : DescriptionAttempts → DescriptionAttempts
after d = record d { current_addr_index = d.current_addr_index + 1 }

pendings-after :
    (d : DescriptionAttempts) (rest : List DescriptionAttempts) (a : Address)
    → drop d.current_addr_index d.addresses ≡ a ∷ drop (d.current_addr_index + 1) d.addresses
    → pendings (d ∷ rest) ≡ a ∷ pendings (after d ∷ rest)
unfolding pendings pending_of
pendings-after d rest a split = rw split

-- The head of what is left gives its next address.
next_loop-address :
    (fuel : ℕ) (s : Surroundings) (passed rest : List DescriptionAttempts) (d : DescriptionAttempts)
    → IsReady d
    → All IsStart rest
    → d.current_addr_index < length d.addresses
    → Gives (d ∷ rest) (next_loop (suc fuel) s passed (d ∷ rest))
unfolding next_loop
next_loop-address fuel s passed rest d h hs more =
    let (a, found, split) = drop_found d.current_addr_index d.addresses more in
    let next_index : suc d.current_addr_index ≡ d.current_addr_index + 1 = omega arith in
    let behind = split ∙ ap (λ k. a ∷ drop k d.addresses) next_index in
    option (build_option d a) (record { passed = passed; left = after d ∷ rest; exhausted = false })
      (rw (lt→ltb _ _ more, found, next_loop)) refl
      (
        record {
          some_addresses = h.some_addresses;
          cycle_bound = h.cycle_bound;
          index_bound = omega (arith, more);
        },
        hs,
      )
      (rw (build_option-address d a) (
        subst (Perm (a ∷ pendings (after d ∷ rest))) (sym (pendings-after d rest a behind))
          (Perm.refl (a ∷ pendings (after d ∷ rest)))))

gives :
    (fuel : ℕ) (s : Surroundings) (passed left : List DescriptionAttempts)
    → s.cancelled ≡ false
    → AreReady left
    → rounds left < fuel
    → Gives left (next_loop fuel s passed left)
unfolding rounds
gives zero s passed left c h enough = absurd (omega arith)
gives (suc fuel) s passed [] c h enough =
    nothing (record { passed = passed; left = []; exhausted = true }) (unfold next_loop in refl)
      refl (unfold pendings in refl)
gives (suc fuel) s passed (d ∷ rest) c h enough =
    elim (Bool-cases (ltb d.current_addr_index (length d.addresses))) [
      | inl more ↦ next_loop-address fuel s passed rest d h.0 h.1 (ltb→lt _ _ more)
      | inr done ↦ elim (Bool-cases (ltb d.current_cycle d.retry_count)) [
        | inl again ↦
            let end = ltb_false→le _ _ done in
            let more = ltb→lt _ _ again in
            rw (next_loop_cycle fuel s passed rest d c done again) (
              Gives-Perm (d ∷ rest) (start_cycle s d ∷ rest) _
                (unfold pendings in
                  Perm.append_right (pendings rest) (pending_of-start_cycle s d end more))
                (gives fuel s passed (start_cycle s d ∷ rest) c
                  (start_cycle-IsReady s d h.0 more, h.1) (unfold start_cycle in omega arith)))
        | inr last ↦
            let end = ltb_false→le _ _ done in
            rw (next_loop_pass fuel s passed rest d done last) (
              Gives-Perm (d ∷ rest) rest _
                (unfold pendings in
                  rw (pending_of_done d end (ltb_false→le _ _ last)) (Perm.refl (pendings rest)))
                (gives fuel s (passed ++ (d ∷ [])) rest c (All-IsStart-AreReady rest h.1)
                  (omega arith)))
      ]
    ]

-- `Next` of a valid iterator gives nil at its end, and before it an option for a pending address.
next-Gives :
    (s : Surroundings) (it : ConnectionIterator)
    → s.cancelled ≡ false
    → IsValid it
    → it.exhausted ≡ false
    → Gives it.left (next s it)
unfolding next
next-Gives s it c h e = rw e (gives (suc (rounds it.left)) s it.passed it.left c h (omega arith))

-- `for opt := iter.Next(); opt != nil; opt = iter.Next()`, a call for each of the surroundings at most.
unfoldable pub drain :
    List Surroundings
    → ConnectionIterator
    → Outcome Error (List ConnectionOption × ConnectionIterator)
drain [] it = ok ([], it)
drain (s ∷ ss) it = do
  (o, it') ← next s it
  elim o [ none ↦ ok ([], it') | some x ↦ do (xs, it'') ← drain ss it'; ok (x ∷ xs, it'') ]

-- The calls end in nil, and the options before it are for the pending addresses.
abbrev pub Drains : List Surroundings → ConnectionIterator → Type 0
Drains ss it =
    (os : List ConnectionOption) × (it' : ConnectionIterator) × (drain ss it ≡ ok (os, it'))
    × (it'.exhausted ≡ true)
    × Perm (map (λ (o : ConnectionOption). o.address) os) (pendings it.left)

-- Calls of `Next` of a valid iterator, none of them cancelled in a delay, give in the end nil: as many calls as
-- there are addresses pending and one more are enough. The options before it are for the pending addresses, each as
-- often as it is pending.
pub drain-pending :
    (ss : List Surroundings) (it : ConnectionIterator)
    → All (λ s. s.cancelled ≡ false) ss
    → IsValid it
    → it.exhausted ≡ false
    → length (pendings it.left) < length ss
    → Drains ss it
unfolding drain
drain-pending [] it c h e enough = absurd (omega arith)
drain-pending (s ∷ ss) it c h e enough =
    go (next-Gives s it c.0 h e) (λ it' ready x fewer. drain-pending ss it' c.1 ready x fewer)
  where
    go :
        Gives it.left (next s it)
        → ((it' : ConnectionIterator)
            → IsValid it'
            → it'.exhausted ≡ false
            → length (pendings it'.left) < length ss
            → Drains ss it')
        → Drains (s ∷ ss) it
    go (nothing it' r x empty) others = ([], it', rw r, x, rw empty Perm.nil)
    go (option o it' r x ready perm) others =
        let (os, last, rest, x', perm') =
          others it' ready x (omega (arith, enough, length-Perm perm)) in
        (o ∷ os, last, rw (r, rest), x', Perm.trans (Perm.cons o.address perm') perm)
