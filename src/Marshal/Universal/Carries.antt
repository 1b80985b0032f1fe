-- ===== src/Marshal/Universal/Carries.antt =====
-- What a number's marshal operation of internal/driver/ttc/marshal_engine.go writes and its unmarshal
-- operation reads, in the universal and in the native form.
use go_oracledb.Base.{
  ℕ, ◌+◌, ◌-◌, ◌^◌, ◌≤◌, ◌<◌, ◌≡◌, refl, Bool, true, false, ◌&&◌, [], ◌∷◌, ◌++◌, length, ◌==◌,
  arith, Bool-cases, inl, inr, replicate, le→ltb_false,
}
use go_oracledb.Base.Int.{ℤ, pos, negsuc, ◌≤ℤ◌}
use go_oracledb.Base.Bytes.{
  Bytes, be_value, be_value-zeros, le_bytes, be_bytes, le_value-le_bytes, be_value-be_bytes,
  length-le_bytes, length-be_bytes,
}
use go_oracledb.Base.Outcome.{ok}
use go_oracledb.Base.Tables.{mask_7f, mask_80, set_80}
use go_oracledb.Marshal.Engine.{
  NumType, ub1, ub2, ub4, ub8, sb4, nb_bytes, is_unsigned, Config, Stream, M, sent, wrap_error,
}
use go_oracledb.Marshal.Stream.{write_bytes_ok, read_bytes_ok, read_byte_ok}
use go_oracledb.Marshal.UniversalCode.{size_byte, encode_shape, get_absolute_value}
use go_oracledb.Marshal.Universal.{
  finish_universal, left_padded, decode_sized, decode_universal, write_universal, write_native,
  read_native, of_word, validate_universal_byte_count,
}
use Prim.Native.Nat.{bit_and}

size_byte_fields :
    (n : ℕ) (negative : Bool)
    → 1 ≤ n
    → n ≤ 8
    → ((size_byte n negative == 0) ≡ false)
      × (bit_and (size_byte n negative) 0x7f ≡ n)
      × ((bit_and (size_byte n negative) 0x80 == 0x80) ≡ negative)
size_byte_fields n true lo hi =
    rw (set_80 n (omega arith))
      (ground arith, omega (arith, mask_7f (n + 128)), ground (arith, mask_80 (n + 128)))
size_byte_fields n false lo hi = (ground arith, omega (arith, mask_7f n), ground (arith, mask_80 n))

pub validate_ok :
    (t : NumType) (n : ℕ) → 1 ≤ n → n ≤ nb_bytes t → validate_universal_byte_count t n ≡ ok tt
unfolding validate_universal_byte_count
validate_ok t n lo hi = ground arith

pub padded_ok :
    (width n : ℕ) (bytes : Bytes)
    → n ≤ width
    → left_padded width n bytes ≡ ok (replicate (width - n) 0 ++ bytes)
unfolding left_padded
padded_ok width n bytes fits = rw (le→ltb_false width n fits)

-- The bytes of a magnitude, read back by `decode_universal`.
decode_universal_digits :
    (t : NumType) (negative : Bool) (z : ℤ) (digits rest : Bytes) (s : Stream)
    → 1 ≤ length digits
    → length digits ≤ nb_bytes t
    → nb_bytes t ≤ 8
    → finish_universal t negative (be_value digits) ≡ ok z
    → (negative && is_unsigned t) ≡ false
    → decode_universal t (record s { unread = size_byte (length digits) negative ∷ digits ++ rest })
      ≡ (ok z, record s { unread = rest })
unfolding decode_universal decode_sized
decode_universal_digits t negative z digits rest s lo hi wide fin sign =
    let (nonzero, size, flag) = size_byte_fields (length digits) negative lo (omega arith) in
    rw
      (
        read_byte_ok,
        nonzero,
        size,
        flag,
        validate_ok t (length digits) lo hi,
        sign,
        read_bytes_ok (length digits) digits rest s refl,
        padded_ok (nb_bytes t) (length digits) digits hi,
        be_value-zeros,
        fin,
      )
      refl

pub write_universal_zero :
    (s : Stream) → 1 ≤ s.room → write_universal 0 false s ≡ (ok tt, sent (0 ∷ []) s)
unfolding write_universal
write_universal_zero s room = write_bytes_ok (0 ∷ []) s room

pub decode_universal_zero :
    (t : NumType) (rest : Bytes) (s : Stream)
    → decode_universal t (record s { unread = 0 ∷ rest }) ≡ (ok (pos 0), record s { unread = rest })
unfolding decode_universal
decode_universal_zero t rest s = rw read_byte_ok

-- One value, written on `s` and read back on `r`.
pub record Carries (write : M (Unit {0})) (read : M ℤ) (z : ℤ) (bound : ℕ) : Type 0 where
  pub bytes : Bytes
  pub short : length bytes ≤ bound
  pub writes : (s : Stream) → bound ≤ s.room → write s ≡ (ok tt, sent bytes s)
  pub reads :
      (r : Stream) (rest : Bytes)
      → read (record r { unread = bytes ++ rest }) ≡ (ok z, record r { unread = rest })

pub universal-Carries :
    (t : NumType) (v : ℕ) (negative : Bool) (z : ℤ)
    → v < 256 ^ nb_bytes t
    → nb_bytes t ≤ 8
    → finish_universal t negative v ≡ ok z
    → (negative && is_unsigned t) ≡ false
    → 0 < v
    → Carries (write_universal v negative) (decode_universal t) z 9
unfolding write_universal
universal-Carries t v negative z fits wide fin sign positive =
    let (digits, encoded, lo, hi, value) =
      encode_shape (nb_bytes t) v negative positive fits wide in
    record {
      bytes = size_byte (length digits) negative ∷ digits;
      short = omega arith;
      writes = λ s room.
          rw (encoded, nonzero)
            (write_bytes_ok (size_byte (length digits) negative ∷ digits) s (omega arith));
      reads = λ r rest.
          decode_universal_digits t negative z digits rest r lo hi wide (rw value fin) sign;
    }
  where
    nonzero : (v == 0) ≡ false
    nonzero = ground arith

pub finish_unsigned :
    (t : NumType) (v : ℕ)
    → is_unsigned t ≡ true
    → v < 256 ^ nb_bytes t
    → finish_universal t false v ≡ ok (pos v)
unfolding finish_universal nb_bytes is_unsigned
finish_unsigned ub1 v u h = ground arith
finish_unsigned ub2 v u h = ground arith
finish_unsigned ub4 v u h = ground arith
finish_unsigned ub8 v u h = ground arith
finish_unsigned _ v u h = cc

pub nb_bytes-le_eight : (t : NumType) → nb_bytes t ≤ 8
unfolding nb_bytes
nb_bytes-le_eight ub1 = omega arith
nb_bytes-le_eight _ = omega arith

-- An SB4 by its magnitude and sign.
pub finish_sb4 :
    (z : ℤ)
    → negsuc (2 ^ 31 - 1) ≤ℤ z
    → z ≤ℤ pos (2 ^ 31 - 1)
    → finish_universal sb4 (get_absolute_value z).1 (get_absolute_value z).0 ≡ ok z
unfolding finish_universal get_absolute_value
finish_sb4 (pos n) lo hi = ground arith
finish_sb4 (negsuc n) lo hi = ground arith

-- A fixed-width word in either byte order.
pub native-Carries :
    (m : Config) (t : NumType) (v : ℕ) (z : ℤ)
    → v < 256 ^ nb_bytes t
    → of_word t v ≡ z
    → Carries (write_native m t v) (read_native m t) z 9
unfolding write_native read_native wrap_error
native-Carries m t v z fits value = elim (Bool-cases m.little_endian) [
  | inl little ↦ record {
    bytes = le_bytes (nb_bytes t) v;
    short = omega (arith, length-le_bytes (nb_bytes t) v, nb_bytes-le_eight t);
    writes = λ s room. rw (
      little,
      write_bytes_ok (le_bytes (nb_bytes t) v) s
          (omega (arith, length-le_bytes (nb_bytes t) v, nb_bytes-le_eight t)),
    );
    reads = λ r rest. rw (
      read_bytes_ok (nb_bytes t) (le_bytes (nb_bytes t) v) rest r (length-le_bytes (nb_bytes t) v),
      little,
      le_value-le_bytes (nb_bytes t) v fits,
      value,
    );
  }
  | inr big ↦ record {
    bytes = be_bytes (nb_bytes t) v;
    short = omega (arith, length-be_bytes (nb_bytes t) v, nb_bytes-le_eight t);
    writes = λ s room. rw (
      big,
      write_bytes_ok (be_bytes (nb_bytes t) v) s
          (omega (arith, length-be_bytes (nb_bytes t) v, nb_bytes-le_eight t)),
    );
    reads = λ r rest. rw (
      read_bytes_ok (nb_bytes t) (be_bytes (nb_bytes t) v) rest r (length-be_bytes (nb_bytes t) v),
      big,
      be_value-be_bytes (nb_bytes t) v fits,
      value,
    );
  }
]
