-- ===== src/Marshal/Clr.antt =====
-- CLR values, CHAR values and text of internal/driver/ttc/marshal_engine.go: byte strings in a short
-- form, or in chunks behind a marker.
pub mod Slices
pub mod Chunks
pub mod RoundTrip
pub mod Safety
use go_oracledb.Base.{
  ℕ, zero, suc, ◌+◌, ◌-◌, ◌*◌, ◌%◌, Bool, true, false, Option, none, some, [], ◌∷◌, ◌++◌, length,
  take, drop, replicate, leb, ltb, ◌==◌, if◌then◌else◌,
}
use go_oracledb.Base.Int.{ℤ, pos, negsuc}
use go_oracledb.Base.Bytes.{Bytes}
use go_oracledb.Base.Outcome.{Outcome, ok, panic, stuck}
use go_oracledb.Marshal.Engine.{
  Label, b1_array, char_text, text, clr, Error, protocol_violation, flush_failed, engine_error,
  engine_wrap, Config, Stream, M, ◌>>=◌, ◌>>◌, pure, lift, fail, wrap_error, write_bytes,
  read_bytes, read_byte,
}
use go_oracledb.Marshal.Universal.{marshal_sb4, unmarshal_sb4, unmarshal_ub1}
use Prim.Native.Nat.{max}

-- `_maximumShortValueLength`, `_checkSize`, `_maximumLongCLRChunkLength`,
-- `_maximumLongCLRAggregateLength`.
abbrev pub maximum_short_value_length : ℕ
maximum_short_value_length = 252

abbrev pub check_size : ℕ
check_size = 32767

abbrev pub maximum_long_clr_chunk_length : ℕ
maximum_long_clr_chunk_length = 32767 * 2

abbrev pub maximum_long_clr_aggregate_length : ℕ
maximum_long_clr_aggregate_length = 32 * 1024 * 1024 * 2

-- `xs[lo:hi]`, for a slice whose capacity is its length.
unfoldable pub slice : Bytes → ℕ → ℕ → Outcome Error Bytes
slice xs lo hi =
    if leb lo hi
    then (if leb hi (length xs) then ok (take (hi - lo) (drop lo xs)) else panic)
    else panic

-- `append(bytes, more...)`, where `none` is the nil slice.
unfoldable pub append_bytes : Option Bytes → Bytes → Option Bytes
append_bytes none [] = none
append_bytes none (x ∷ xs) = some (x ∷ xs)
append_bytes (some bytes) more = some (bytes ++ more)

-- `_unmarshalBuffer`: the bytes are read into `buffer[offset:offset+n]`; the result is the new buffer.
unfoldable pub unmarshal_buffer : Bytes → ℕ → ℕ → M Bytes
unmarshal_buffer buffer offset n =
    if n == 0
    then pure buffer
    else if ltb (length buffer) (offset + n)
    then fail (engine_error clr)
    else (read_bytes n >>= λ bytes.
        pure (take offset buffer ++ (bytes ++ drop (offset + n) buffer)))

-- A chunk is at most `check_size` bytes.
abbrev pub chunk_length : ℕ → ℕ
chunk_length left = if ltb check_size left then check_size else left

-- The loop of `UnmarshalText`: at most `n` bytes, up to a zero byte, which is read too.
text_loop : ℕ → Bytes → M Bytes
text_loop zero out = pure out
text_loop (suc n) out = do
  b ← wrap_error text read_byte
  if b == 0 then pure out else text_loop n (out ++ (b ∷ []))

unfoldable pub unmarshal_text : ℕ → M Bytes
unfolding text_loop
unmarshal_text n = text_loop n []

-- One chunk of `UnmarshalCLR`: what fits is kept, the rest is read and dropped.
unfoldable pub keep_chunk : Bytes → ℕ → ℕ → ℕ → M (Bytes × ℕ)
unfolding unmarshal_buffer
keep_chunk buffer size nb n = do
  let keep = if ltb (size - nb) n then size - nb else n
  buffer' ← wrap_error clr (unmarshal_buffer buffer nb keep)
  if ltb 0 (n - keep)
      then (wrap_error clr (read_bytes (n - keep)) >>= λ _. pure (buffer', nb + keep))
      else pure (buffer', nb + keep)

module _ (m : Config) where
  -- The loop of `MarshalCLR`, with fuel; `nb` bytes are written.
  unfoldable pub marshal_chunks : ℕ → Bytes → ℕ → ℕ → ℕ → M (Unit {0})
  marshal_chunks zero value offset total nb = lift stuck
  marshal_chunks (suc fuel) value offset total nb =
      let n = chunk_length (total - nb) in
      let step : M (Unit {0}) = (do
        wrap_error clr (marshal_sb4 m (pos n))
        chunk ← lift (slice value (offset + nb) (offset + nb + n))
        wrap_error clr (write_bytes chunk)
        marshal_chunks fuel value offset total (nb + n)) in
      if ltb nb total then step else pure tt

  -- `MarshalCLR`. A round of the loop writes a byte at least, so `total` rounds and the last test are
  -- enough.
  unfoldable pub marshal_clr : Bytes → ℕ → ℕ → M (Unit {0})
  unfolding slice
  marshal_clr value offset total =
      if ltb maximum_short_value_length total
      then (do
        wrap_error clr (write_bytes (0xfe ∷ []))
        marshal_chunks (suc total) value offset total 0
        wrap_error clr (marshal_sb4 m (pos 0)))
      else (do
        wrap_error clr (write_bytes ((total % 256) ∷ []))
        if length value == 0 then pure tt else do
          bytes ← lift (slice value offset (offset + total))
          wrap_error clr (write_bytes bytes))

  -- `MarshalChar`; `multi` says that the type representation's flags are TTCLXMULTI.
  unfoldable pub marshal_char : Bool → Bytes → M (Unit {0})
  unfolding marshal_clr
  marshal_char multi value =
      if ltb 0 (length value)
      then (if multi
          then wrap_error char_text (write_bytes value)
          else marshal_clr value 0 (length value))
      else pure tt

  -- The loop of `UnmarshalCLR`, with fuel.
  unfoldable pub clr_loop : ℕ → Bytes → ℕ → ℕ → M (Bytes × ℕ)
  unfolding keep_chunk
  clr_loop zero buffer size nb = lift stuck
  clr_loop (suc fuel) buffer size nb = do
    n ← wrap_error clr (unmarshal_sb4 m)
    elim n [
      | negsuc _ ↦ fail (engine_error clr)
      | pos zero ↦ pure (buffer, nb)
      | pos (suc k) ↦ do
        (buffer', nb') ← keep_chunk buffer size nb (suc k)
        clr_loop fuel buffer' size nb'
    ]

  -- `UnmarshalCLR`: the caller's buffer with what was read into it, and the count. Every chunk has a
  -- length byte at least, so the fuel of the bytes at hand and one is enough.
  unfoldable pub unmarshal_clr : Bytes → ℕ → M (Bytes × ℕ)
  unfolding clr_loop unmarshal_buffer
  unmarshal_clr buffer size = do
    flag ← wrap_error clr (unmarshal_ub1 m)
    if flag == 0xfd
        then fail (engine_wrap protocol_violation clr)
        else if flag == 0xff
        then pure (buffer, 0)
        else if leb flag maximum_short_value_length
        then (wrap_error clr (unmarshal_buffer buffer 0 flag) >>= λ filled. pure (filled, flag))
        else λ s. clr_loop (suc (length s.unread)) buffer size 0 s

  -- `maxAllowedCLRLength`. The code computes it in float64, which is exact below 2^52 bytes; a
  -- negative prefetch size has no effect, as 0 has none.
  abbrev pub max_allowed_clr_length : ℕ
  max_allowed_clr_length = max maximum_long_clr_aggregate_length (m.lob_prefetch * 2)

  -- One chunk of `UnmarshalCLRColumnData` of `n > 0` bytes.
  unfoldable pub column_chunk : Option Bytes → ℕ → ℕ → M (Option Bytes × ℕ)
  unfolding unmarshal_buffer append_bytes
  column_chunk bytes nb n =
      if ltb maximum_long_clr_chunk_length n then fail (engine_wrap protocol_violation clr) else do
        current ← wrap_error clr (unmarshal_buffer (replicate n 0) 0 n)
        if ltb max_allowed_clr_length (nb + n)
            then fail (engine_wrap protocol_violation clr)
            else pure (append_bytes bytes current, nb + n)

  -- The loop of `UnmarshalCLRColumnData`, with fuel.
  unfoldable pub column_loop : ℕ → Option Bytes → ℕ → M (Option Bytes × ℕ)
  unfolding column_chunk
  column_loop zero bytes nb = lift stuck
  column_loop (suc fuel) bytes nb = do
    n ← wrap_error clr (unmarshal_sb4 m)
    elim n [
      | negsuc _ ↦ fail (engine_wrap protocol_violation clr)
      | pos zero ↦ pure (bytes, nb)
      | pos (suc k) ↦ do (bytes', nb') ← column_chunk bytes nb (suc k); column_loop fuel bytes' nb'
    ]

  -- `UnmarshalCLRColumnData`: `none` is the nil slice of a NULL.
  unfoldable pub unmarshal_clr_column_data : M (Option Bytes × ℕ)
  unfolding column_loop unmarshal_buffer
  unmarshal_clr_column_data = do
    flag ← wrap_error clr (unmarshal_ub1 m)
    if flag == 0xfd
        then fail (engine_wrap protocol_violation clr)
        else if flag == 0xff
        then pure (none, 0)
        else if leb flag maximum_short_value_length
        then (wrap_error clr (unmarshal_buffer (replicate flag 0) 0 flag) >>= λ bytes.
            pure (some bytes, flag))
        else λ s. column_loop (suc (length s.unread)) none 0 s
