-- ===== src/Marshal/Universal/Bounds.antt =====
-- What the numeric reads of internal/driver/ttc/marshal_engine.go do on any bytes.
use go_oracledb.Base.{
  ℕ, ◌+◌, ◌-◌, ◌≤◌, ◌≡◌, refl, Bool, true, false, [], ◌∷◌, ◌++◌, length, leb, ◌==◌, ◌&&◌, replicate,
  if◌then◌else◌, arith, Bool-cases, inl, inr, length-drop, length-take, leb→le,
}
use go_oracledb.Base.Int.{ℤ, pos, ◌≤ℤ◌}
use go_oracledb.Base.Bytes.{Bytes, be_value}
use Prim.Native.Nat.{bit_and}
use go_oracledb.Base.Outcome.{Outcome, ok, err, panic, stuck, map_err}
use go_oracledb.Marshal.Engine.{
  NumType, ub1, Config, Error, Label, engine_wrap, Stream, M, ◌>>=◌, continue, wrap_error,
  min_value, max_value, read_bytes, read_byte, read_first, pure, fail, num, unmarshal_num,
  engine_error, is_unsigned, lift, native, universal, Rep, nb_bytes,
}
use go_oracledb.Marshal.Universal.Carries.{padded_ok}
use go_oracledb.Marshal.Universal.{
  finish_universal, left_padded, decode_sized, decode_universal, read_native, unmarshal_numeric,
  validate_universal_byte_count,
}

-- The call returned, and on success it took at least `k` bytes and gave a value with `P`.
abbrev pub Reads {ℓ} : {A : Type ℓ} → ℕ → (A → Type 0) → Stream → Outcome Error A × Stream → Type 0
Reads k P s (ok a, s') = P a × (length s'.unread + k ≤ length s.unread)
Reads k P s (err e, s') = Unit
Reads k P s (panic, s') = ⊥
Reads k P s (stuck, s') = ⊥

pub Reads-bind {ℓ κ} :
    {A : Type ℓ} {B : Type κ} (k j n : ℕ) (P : A → Type 0) (Q : B → Type 0) (m : M A) (f : A → M B)
    (s : Stream)
    → n ≤ k + j
    → Reads k P s (m s)
    → ((a : A) (s' : Stream) → P a → length s'.unread + k ≤ length s.unread → Reads j Q s' (f a s'))
    → Reads n Q s ((m >>= f) s)
Reads-bind {A = A} {B = B} k j n P Q m f s total first next = go (m s).0 (m s).1 first
  where
    weaken :
        (r : Outcome Error B) (s' s'' : Stream)
        → length s'.unread + k ≤ length s.unread
        → Reads j Q s' (r, s'')
        → Reads n Q s (r, s'')
    weaken (ok b) s' s'' h (q, l) = (q, omega arith)
    weaken (err e) s' s'' h q = tt
    weaken panic s' s'' h q = q
    weaken stuck s' s'' h q = q

    go : (r : Outcome Error A) (s' : Stream) → Reads k P s (r, s') → Reads n Q s (continue r f s')
    go (ok a) s' (p, h) = weaken (f a s').0 s' (f a s').1 h (next a s' p h)
    go (err e) s' h = tt
    go panic s' h = h
    go stuck s' h = h

pub Reads-wrap {ℓ} :
    {A : Type ℓ} (k : ℕ) (P : A → Type 0) (l : Label) (m : M A) (s : Stream)
    → Reads k P s (m s)
    → Reads k P s (wrap_error l m s)
unfolding wrap_error
Reads-wrap {A = A} k P l m s h = go (m s).0 (m s).1 h
  where
    go :
        (r : Outcome Error A) (s' : Stream)
        → Reads k P s (r, s')
        → Reads k P s (map_err (λ e. engine_wrap e l) r, s')
    go (ok a) s' h = h
    go (err e) s' h = tt
    go panic s' h = h
    go stuck s' h = h

pub read_bytes-Reads : (n : ℕ) (s : Stream) → Reads n (λ bs. length bs ≡ n) s (read_bytes n s)
unfolding read_bytes
read_bytes-Reads n s = elim (Bool-cases (leb n (length s.unread))) [
  | inl e ↦ rw e (
    length-take n s.unread (leb→le _ _ e),
    omega (arith, length-drop {0} n s.unread, leb→le _ _ e),
  )
  | inr e ↦ rw e tt
]

pub read_byte-Reads : (s : Stream) → Reads 1 (λ b. Unit) s (read_byte s)
unfolding read_byte
read_byte-Reads s = go s.unread refl
  where
    go : (bs : Bytes) → s.unread ≡ bs → Reads 1 (λ b. Unit) s (read_first bs s)
    go [] e = tt
    go (b ∷ bs) e = (tt, rw e (omega arith))

-- Between the bounds of its type.
abbrev pub InRange : NumType → ℤ → Type 0
InRange t z = (min_value t ≤ℤ z) × (z ≤ℤ max_value t)

finish_universal-InRange :
    (t : NumType) (negative : Bool) (v : ℕ) (s : Stream)
    → Reads 0 (InRange t) s (finish_universal t negative v, s)
unfolding finish_universal
finish_universal-InRange ub1 true v s = ground arith
finish_universal-InRange _ _ v s = ground arith

pub zero-InRange : (t : NumType) → InRange t (pos 0)
unfolding min_value max_value
zero-InRange ub1 = omega arith
zero-InRange _ = omega arith

validate-Reads :
    (t : NumType) (n : ℕ) (s : Stream)
    → Reads 0 (λ u. n ≤ nb_bytes t) s (lift (validate_universal_byte_count t n) s)
unfolding validate_universal_byte_count
validate-Reads t n s = ground arith

padded-Reads :
    (t : NumType) (n : ℕ) (negative : Bool) (bytes : Bytes) (s : Stream)
    → n ≤ nb_bytes t
    → Reads 0 (InRange t) s (
        (lift (left_padded (nb_bytes t) n bytes) >>= λ padded.
        lift (finish_universal t negative (be_value padded)))
          s)
padded-Reads t n negative bytes s fits =
    rw (padded_ok (nb_bytes t) n bytes fits)
      (finish_universal-InRange t negative (be_value (replicate (nb_bytes t - n) 0 ++ bytes)) s)

sized_tail :
    (t : NumType) (n : ℕ) (negative unsigned : Bool) (s : Stream)
    → n ≤ nb_bytes t
    → Reads 0 (InRange t) s (
        (if unsigned
            then fail (engine_error (num t))
            else (read_bytes n >>= λ bytes. lift (left_padded (nb_bytes t) n bytes) >>= λ padded.
                lift (finish_universal t negative (be_value padded))))
          s)
sized_tail t n negative true s fits = tt
sized_tail t n negative false s fits =
    Reads-bind n 0 0 (λ bs. length bs ≡ n) (InRange t) (read_bytes n)
      (λ bytes. lift (left_padded (nb_bytes t) n bytes) >>= λ padded.
        lift (finish_universal t negative (be_value padded)))
      s (omega arith) (read_bytes-Reads n s)
      (λ bytes s' h _. padded-Reads t n negative bytes s' fits)

decode_sized-Reads :
    (t : NumType) (first : ℕ) (s : Stream) → Reads 0 (InRange t) s (decode_sized t first s)
unfolding decode_sized
decode_sized-Reads t first s =
    Reads-bind 0 0 0 (λ u. bit_and first 0x7f ≤ nb_bytes t) (InRange t)
      (lift (validate_universal_byte_count t (bit_and first 0x7f))) _ s (omega arith)
      (validate-Reads t (bit_and first 0x7f) s)
      (λ u s' fits _.
        sized_tail t (bit_and first 0x7f) (bit_and first 0x80 == 0x80)
          ((bit_and first 0x80 == 0x80) && is_unsigned t) s' fits)

decode_branch :
    (t : NumType) (first : ℕ) (isZero : Bool) (s : Stream)
    → Reads 0 (InRange t) s ((if isZero then pure (pos 0) else decode_sized t first) s)
decode_branch t first true s = (zero-InRange t, omega arith)
decode_branch t first false s = decode_sized-Reads t first s

-- The universal decoder returns on any bytes; a number that it gives lies within the bounds of its
-- type and took a byte at least.
pub decode_universal-InRange :
    (t : NumType) (s : Stream) → Reads 1 (InRange t) s (decode_universal t s)
unfolding decode_universal
decode_universal-InRange t s =
    Reads-bind 1 0 1 (λ b. Unit) (InRange t) read_byte _ s (omega arith) (read_byte-Reads s)
      (λ first s' h _. decode_branch t first (first == 0) s')

read_native-Reads :
    (m : Config) (t : NumType) (s : Stream) → Reads 1 (λ z. Unit {0}) s (read_native m t s)
unfolding read_native
read_native-Reads m t s =
    Reads-bind (nb_bytes t) 0 1 (λ bs. length bs ≡ nb_bytes t) (λ z. Unit)
      (wrap_error (unmarshal_num t) (read_bytes (nb_bytes t))) _ s (wide t)
      (Reads-wrap (nb_bytes t) (λ bs. length bs ≡ nb_bytes t) (unmarshal_num t)
        (read_bytes (nb_bytes t)) s (read_bytes-Reads (nb_bytes t) s))
      (λ bs s' h _. (tt, omega arith))
  where
    wide : (t : NumType) → 1 ≤ nb_bytes t + 0
    wide ub1 = omega arith
    wide _ = omega arith

pub unmarshal_numeric-Reads :
    (m : Config) (t : NumType) (s : Stream) → Reads 1 (λ z. Unit {0}) s (unmarshal_numeric m t s)
unfolding unmarshal_numeric
unmarshal_numeric-Reads m t s = choose (m.rep t) refl
  where
    forget : (x : Outcome Error ℤ × Stream) → Reads 1 (InRange t) s x → Reads 1 (λ z. Unit {0}) s x
    forget (ok z, s') h = (tt, h.1)
    forget (err e, s') h = tt
    forget (panic, s') h = h
    forget (stuck, s') h = h

    choose : (x : Rep) → m.rep t ≡ x → Reads 1 (λ z. Unit {0}) s (unmarshal_numeric m t s)
    choose native e =
        rw (e, unmarshal_numeric)
          (Reads-wrap 1 (λ z. Unit) (num t) (read_native m t) s (read_native-Reads m t s))
    choose universal e =
        rw (e, unmarshal_numeric)
          (Reads-wrap 1 (λ z. Unit) (num t) (decode_universal t) s
            (forget (decode_universal t s) (decode_universal-InRange t s)))
