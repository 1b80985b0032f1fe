-- ===== src/Marshal/Universal/RoundTrip.antt =====
-- What the numeric operations of internal/driver/ttc/marshal_engine.go write, they read back.
use go_oracledb.Base.{
  ℕ, zero, suc, ◌-◌, ◌^◌, ◌≤◌, ◌<◌, ◌≡◌, refl, true, false, [], ◌∷◌, ◌++◌, arith,
}
use go_oracledb.Base.Int.{ℤ, pos, negsuc, ◌≤ℤ◌, pattern_of}
use go_oracledb.Base.Bytes.{Bytes}
use go_oracledb.Base.Outcome.{ok}
use go_oracledb.Marshal.Engine.{
  NumType, ub1, ub2, ub4, ub8, sb4, nb_bytes, is_unsigned, Config, Stream, M, sent, wrap_error,
  Label, num, Rep, native, universal,
}
use go_oracledb.Marshal.UniversalCode.{get_absolute_value}
use go_oracledb.Marshal.Universal.{
  decode_universal, write_universal, of_word, unmarshal_numeric, unmarshal_sb4, marshal_unsigned,
  marshal_sb4,
}
use go_oracledb.Marshal.Universal.Carries.{
  write_universal_zero, decode_universal_zero, Carries, universal-Carries, finish_unsigned,
  nb_bytes-le_eight, finish_sb4, native-Carries,
}

zero-Carries : (t : NumType) → Carries (write_universal 0 false) (decode_universal t) (pos 0) 9
zero-Carries t = record {
  bytes = 0 ∷ [];
  short = omega arith;
  writes = λ s room. write_universal_zero s (omega arith);
  reads = λ r rest. decode_universal_zero t rest r;
}

unsigned_universal :
    (t : NumType) (v : ℕ)
    → is_unsigned t ≡ true
    → v < 256 ^ nb_bytes t
    → Carries (write_universal v false) (decode_universal t) (pos v) 9
unsigned_universal t zero u fits = zero-Carries t
unsigned_universal t (suc v) u fits =
    universal-Carries t (suc v) false (pos (suc v)) fits (nb_bytes-le_eight t)
      (finish_unsigned t (suc v) u fits) refl (omega arith)

sb4_universal :
    (z : ℤ)
    → negsuc (2 ^ 31 - 1) ≤ℤ z
    → z ≤ℤ pos (2 ^ 31 - 1)
    → Carries
        (write_universal (get_absolute_value z).0 (get_absolute_value z).1)
        (decode_universal sb4)
        z
        9
unfolding get_absolute_value nb_bytes is_unsigned
sb4_universal (pos zero) lo hi = zero-Carries sb4
sb4_universal (pos (suc n)) lo hi =
    universal-Carries sb4 (suc n) false (pos (suc n)) (omega arith) (omega arith)
      (finish_sb4 (pos (suc n)) lo hi) refl (omega arith)
sb4_universal (negsuc n) lo hi =
    universal-Carries sb4 (suc n) true (negsuc n) (omega arith) (omega arith)
      (finish_sb4 (negsuc n) lo hi) refl (omega arith)

-- `_wrapError` leaves a success alone.
wrapped-Carries :
    (l k : Label) {write : M (Unit {0})} {read : M ℤ} {z : ℤ} {bound : ℕ}
    → Carries write read z bound
    → Carries (wrap_error l write) (wrap_error k read) z bound
unfolding wrap_error
wrapped-Carries l k c = record {
  bytes = c.bytes;
  short = c.short;
  writes = λ s room. rw (c.writes s room);
  reads = λ r rest. rw (c.reads r rest);
}

read_wrapped :
    (k : Label) {write : M (Unit {0})} {read : M ℤ} {z : ℤ} {bound : ℕ}
    → Carries write read z bound
    → Carries write (wrap_error k read) z bound
unfolding wrap_error
read_wrapped k c = record {
  bytes = c.bytes;
  short = c.short;
  writes = c.writes;
  reads = λ r rest. rw (c.reads r rest);
}

of_word_unsigned : (t : NumType) (v : ℕ) → is_unsigned t ≡ true → of_word t v ≡ pos v
unfolding of_word is_unsigned
of_word_unsigned ub1 v u = refl
of_word_unsigned ub2 v u = refl
of_word_unsigned ub4 v u = refl
of_word_unsigned ub8 v u = refl
of_word_unsigned _ v u = cc

pub unsigned-Carries :
    (m : Config) (t : NumType) (v : ℕ)
    → is_unsigned t ≡ true
    → v < 256 ^ nb_bytes t
    → Carries (marshal_unsigned m t v) (unmarshal_numeric m t) (pos v) 9
unfolding marshal_unsigned unmarshal_numeric
unsigned-Carries m t v u fits = choose (m.rep t) refl
  where
    choose :
        (x : Rep) → m.rep t ≡ x → Carries (marshal_unsigned m t v) (unmarshal_numeric m t) (pos v) 9
    choose native e =
        rw (e, marshal_unsigned, unmarshal_numeric)
          (read_wrapped (num t) (native-Carries m t v (pos v) fits (of_word_unsigned t v u)))
    choose universal e =
        rw (e, marshal_unsigned, unmarshal_numeric)
          (wrapped-Carries (num t) (num t) (unsigned_universal t v u fits))

sb4_pattern :
    (z : ℤ)
    → negsuc (2 ^ 31 - 1) ≤ℤ z
    → z ≤ℤ pos (2 ^ 31 - 1)
    → (pattern_of 32 z < 2 ^ 32) × (of_word sb4 (pattern_of 32 z) ≡ z)
unfolding of_word
sb4_pattern (pos n) lo hi = ground arith
sb4_pattern (negsuc n) lo hi = ground arith

pub sb4-Carries :
    (m : Config) (z : ℤ)
    → negsuc (2 ^ 31 - 1) ≤ℤ z
    → z ≤ℤ pos (2 ^ 31 - 1)
    → Carries (marshal_sb4 m z) (unmarshal_sb4 m) z 9
unfolding marshal_sb4 unmarshal_sb4 nb_bytes
sb4-Carries m z lo hi = choose (m.rep sb4) refl
  where
    choose : (x : Rep) → m.rep sb4 ≡ x → Carries (marshal_sb4 m z) (unmarshal_sb4 m) z 9
    choose native e =
        rw (e, marshal_sb4, unmarshal_sb4, unmarshal_numeric)
          (read_wrapped (num sb4) (
            native-Carries m sb4 (pattern_of 32 z) z (omega (arith, (sb4_pattern z lo hi).0))
              (sb4_pattern z lo hi).1))
    choose universal e =
        rw (e, marshal_sb4, unmarshal_sb4, unmarshal_numeric)
          (wrapped-Carries (num sb4) (num sb4) (sb4_universal z lo hi))

-- Every unsigned TTC number is read back from the bytes that were written for it, in either
-- representation and byte order, and what follows those bytes stays unread; a stream with room for
-- nine bytes takes the write.
pub unmarshal_numeric-marshal_unsigned :
    (m : Config) (t : NumType) (v : ℕ) (rest : Bytes) (s r : Stream)
    → is_unsigned t ≡ true
    → v < 256 ^ nb_bytes t
    → 9 ≤ s.room
    → (bs : Bytes) × (marshal_unsigned m t v s ≡ (ok tt, sent bs s))
      × (unmarshal_numeric m t (record r { unread = bs ++ rest })
          ≡ (ok (pos v), record r { unread = rest }))
unmarshal_numeric-marshal_unsigned m t v rest s r u fits room =
    let c = unsigned-Carries m t v u fits in (c.bytes, c.writes s room, c.reads r rest)

-- Every SB4 from -2^31 to 2^31 - 1 is read back from the bytes that `MarshalSB4` wrote for it, in
-- either representation and byte order, and what follows those bytes stays unread; a stream with room
-- for nine bytes takes the write.
pub unmarshal_sb4-marshal_sb4 :
    (m : Config) (z : ℤ) (rest : Bytes) (s r : Stream)
    → negsuc (2 ^ 31 - 1) ≤ℤ z
    → z ≤ℤ pos (2 ^ 31 - 1)
    → 9 ≤ s.room
    → (bs : Bytes) × (marshal_sb4 m z s ≡ (ok tt, sent bs s))
      × (unmarshal_sb4 m (record r { unread = bs ++ rest }) ≡ (ok z, record r { unread = rest }))
unmarshal_sb4-marshal_sb4 m z rest s r lo hi room =
    let c = sb4-Carries m z lo hi in (c.bytes, c.writes s room, c.reads r rest)
