-- ===== src/Marshal/Universal.antt =====
-- The numeric operations of internal/driver/ttc/marshal_engine.go, in both representations.
pub mod Carries
pub mod RoundTrip
pub mod Bounds
pub mod Decoded
use go_oracledb.Base.{
  ℕ, ◌+◌, ◌-◌, ◌^◌, ◌%◌, Bool, true, false, not, ◌&&◌, ◌||◌, [], ◌∷◌, ◌++◌, replicate, ltb, ◌==◌,
  if◌then◌else◌,
}
use go_oracledb.Base.Int.{ℤ, pos, negsuc, ltb_ℤ, signed, pattern_of}
use go_oracledb.Base.Bytes.{Bytes, le_bytes, be_bytes, le_value, be_value}
use go_oracledb.Base.Outcome.{Outcome, ok, err, panic, stuck}
use go_oracledb.Marshal.Engine.{
  NumType, ub1, ub2, ub4, ub8, sb1, sb2, sb4, Rep, native, universal, num, marshal_num,
  unmarshal_num, Error, engine_error, nb_bytes, is_unsigned, min_value, max_value, Config, Stream,
  M, ◌>>=◌, ◌>>◌, pure, lift, fail, wrap_error, write_bytes, read_bytes, read_byte, b1_array, ptr,
  null_ptr,
}
use go_oracledb.Marshal.UniversalCode.{encode_absolute_universal_value, get_absolute_value}
use Prim.Native.Nat.{bit_and}

-- Go's conversion `T(v)` of an unsigned word to the result type.
unfoldable pub of_word : NumType → ℕ → ℤ
of_word sb1 v = signed 8 v
of_word sb2 v = signed 16 v
of_word sb4 v = signed 32 v
of_word _ v = pos v

-- The `toNegative` callbacks: `T(-1) * T(value)` wraps at the width of the signed type.
unfoldable pub to_negative : NumType → ℕ → ℤ
to_negative sb1 v = signed 8 ((2 ^ 8 - v) % 2 ^ 8)
to_negative sb2 v = signed 16 ((2 ^ 16 - v) % 2 ^ 16)
to_negative sb4 v = signed 32 ((2 ^ 32 - v) % 2 ^ 32)
to_negative _ v = pos v

-- `_writeUniversal`.
unfoldable pub write_universal : ℕ → Bool → M (Unit {0})
write_universal v negative =
    if v == 0
    then write_bytes (0 ∷ [])
    else (lift (encode_absolute_universal_value v negative) >>= write_bytes)

-- `_validateUniversalByteCount`.
unfoldable pub validate_universal_byte_count : NumType → ℕ → Outcome Error (Unit {0})
validate_universal_byte_count t n =
    if n == 0
    then err (engine_error (num t))
    else if ltb (nb_bytes t) n
    then err (engine_error (num t))
    else ok tt

-- The last checks of `_decodeUniversal`, on the magnitude `v`. The words that `bigEndianFunc` returns
-- are unsigned, so its test `calculatedValue < 0` never holds.
unfoldable pub finish_universal : NumType → Bool → ℕ → Outcome Error ℤ
unfolding of_word to_negative min_value max_value
finish_universal t negative v =
    let value = if negative then to_negative t v else of_word t v in
    if (negative && (not (ltb_ℤ (min_value t) (pos 0)) || ltb_ℤ (pos 0) value))
      || ltb_ℤ (max_value t) value
      || (not negative && ltb_ℤ value (pos 0))
    then err (engine_error (num t))
    else ok value

-- `copy(bytesValues[width-n:], bytes)` into zeros. The slice panics if `n` is above the width.
unfoldable pub left_padded : ℕ → ℕ → Bytes → Outcome Error Bytes
left_padded width n bytes = if ltb width n then panic else ok (replicate (width - n) 0 ++ bytes)

-- `_decodeUniversal` behind a first byte that is not 0.
unfoldable pub decode_sized : NumType → ℕ → M ℤ
unfolding validate_universal_byte_count is_unsigned nb_bytes left_padded
decode_sized t first = do
  let n = bit_and first 0x7f
  let negative = bit_and first 0x80 == 0x80
  lift (validate_universal_byte_count t n)
  if negative && is_unsigned t then fail (engine_error (num t)) else do
    bytes ← read_bytes n
    padded ← lift (left_padded (nb_bytes t) n bytes)
    lift (finish_universal t negative (be_value padded))

-- `_decodeUniversal`.
unfoldable pub decode_universal : NumType → M ℤ
decode_universal t = do first ← read_byte; if first == 0 then pure (pos 0) else decode_sized t first

-- `_sequenceNumber++` on an int8.
abbrev pub next_int8 : ℤ → ℤ
next_int8 z = signed 8 ((pattern_of 8 z + 1) % 2 ^ 8)

-- `if m._sequenceNumber <= 0 { m._sequenceNumber = 1 }`.
abbrev pub seq_start : ℤ → ℤ
seq_start z = if ltb_ℤ (pos 0) z then z else pos 1

-- The number goes back to the caller as a UB1, unless the write failed.
abbrev written_number : ℤ → Outcome Error (Unit {0}) → Outcome Error ℕ
written_number n (ok _) = ok (pattern_of 8 n)
written_number n (err e) = err e
written_number n panic = panic
written_number n stuck = stuck

module _ (m : Config) where
  -- `_writeNative`.
  unfoldable pub write_native : NumType → ℕ → M (Unit {0})
  unfolding nb_bytes
  write_native t v =
      wrap_error (marshal_num t)
        (write_bytes (if m.little_endian then le_bytes (nb_bytes t) v else be_bytes (nb_bytes t) v))

  -- `_readNative`.
  unfoldable pub read_native : NumType → M ℤ
  unfolding nb_bytes of_word
  read_native t = do
    bytes ← wrap_error (unmarshal_num t) (read_bytes (nb_bytes t))
    pure (of_word t (if m.little_endian then le_value bytes else be_value bytes))

  -- `_unmarshalNumeric`.
  unfoldable pub unmarshal_numeric : NumType → M ℤ
  unmarshal_numeric t = elim (m.rep t) [
    | native ↦ wrap_error (num t) (read_native t)
    | universal ↦ wrap_error (num t) (decode_universal t)
  ]

  -- What `MarshalUB2`, `MarshalUB4` and `MarshalUB8` share.
  unfoldable pub marshal_unsigned : NumType → ℕ → M (Unit {0})
  marshal_unsigned t v = elim (m.rep t) [
    | native ↦ write_native t v
    | universal ↦ wrap_error (num t) (write_universal v false)
  ]

  unfoldable pub marshal_ub1 : ℕ → M (Unit {0})
  marshal_ub1 v = wrap_error (num ub1) (write_bytes (v ∷ []))

  unfoldable pub marshal_ub2 : ℕ → M (Unit {0})
  unfolding marshal_unsigned
  marshal_ub2 v = marshal_unsigned ub2 v

  unfoldable pub marshal_ub4 : ℕ → M (Unit {0})
  unfolding marshal_unsigned
  marshal_ub4 v = marshal_unsigned ub4 v

  unfoldable pub marshal_ub8 : ℕ → M (Unit {0})
  unfolding marshal_unsigned
  marshal_ub8 v = marshal_unsigned ub8 v

  unfoldable pub marshal_sb4 : ℤ → M (Unit {0})
  unfolding get_absolute_value
  marshal_sb4 z =
      let (magnitude, negative) = get_absolute_value z in
      elim (m.rep sb4) [
        | native ↦ write_native sb4 (pattern_of 32 z)
        | universal ↦ wrap_error (num sb4) (write_universal magnitude negative)
      ]

  unfoldable pub unmarshal_ub1 : M ℕ
  unmarshal_ub1 = wrap_error (num ub1) read_byte

  unfoldable pub unmarshal_ub2 : M ℤ
  unfolding unmarshal_numeric
  unmarshal_ub2 = unmarshal_numeric ub2

  unfoldable pub unmarshal_ub4 : M ℤ
  unfolding unmarshal_numeric
  unmarshal_ub4 = unmarshal_numeric ub4

  unfoldable pub unmarshal_ub8 : M ℤ
  unfolding unmarshal_numeric
  unmarshal_ub8 = unmarshal_numeric ub8

  unfoldable pub unmarshal_sb2 : M ℤ
  unfolding unmarshal_numeric
  unmarshal_sb2 = unmarshal_numeric sb2

  -- `SB1(value)` keeps the low byte of the SB2.
  unfoldable pub unmarshal_sb1 : M ℤ
  unmarshal_sb1 = do
    value ← wrap_error (num sb1) unmarshal_sb2
    pure (signed 8 (pattern_of 16 value % 2 ^ 8))

  unfoldable pub unmarshal_sb4 : M ℤ
  unfolding unmarshal_numeric
  unmarshal_sb4 = unmarshal_numeric sb4

  -- `MarshalB1Array`, `UnmarshalB1Array`.
  unfoldable pub marshal_b1_array : Bytes → M (Unit {0})
  marshal_b1_array bytes = wrap_error b1_array (write_bytes bytes)

  unfoldable pub unmarshal_b1_array : ℕ → M Bytes
  unmarshal_b1_array n = wrap_error b1_array (read_bytes n)

  -- `MarshalPTR`, `MarshalNullPTR`.
  unfoldable pub marshal_ptr : M (Unit {0})
  unfolding marshal_b1_array marshal_ub1
  marshal_ptr = elim m.ptr_rep [
    | native ↦ wrap_error ptr (marshal_b1_array (0x7f ∷ 0x7f ∷ 0x7f ∷ 0x7f ∷ []))
    | universal ↦ wrap_error ptr (marshal_ub1 1)
  ]

  unfoldable pub marshal_null_ptr : M (Unit {0})
  unfolding marshal_b1_array marshal_ub1
  marshal_null_ptr = elim m.ptr_rep [
    | native ↦ wrap_error null_ptr (marshal_b1_array (0 ∷ 0 ∷ 0 ∷ 0 ∷ []))
    | universal ↦ wrap_error null_ptr (marshal_ub1 0)
  ]

  -- `marshalSeqNo` stores the next number whether or not the write succeeds; its caller gets the
  -- number as a UB1.
  unfoldable pub marshal_seq_no : M ℕ
  unfolding marshal_ub1
  marshal_seq_no s =
      let n = seq_start s.sequence_number in
      let (r, s') = marshal_ub1 (pattern_of 8 n) s in
      (written_number n r, record s' { sequence_number = next_int8 n })

  -- `marshalTokenNo`.
  unfoldable pub marshal_token_no : M ℕ
  unfolding marshal_ub8
  marshal_token_no = marshal_ub8 0 >>= λ _. pure 0
