-- ===== src/Number/Wire.antt =====
-- Encoding and decoding of the wire bytes (internal/driver/ttc/converters/number.go). A byte slice is a
-- list of numbers below 256, and byte arithmetic wraps.
use go_oracledb.Base.{
  ℕ, zero, suc, ◌+◌, ◌-◌, ◌*◌, ◌/◌, ◌%◌, ◌^◌, Bool, true, false, ◌&&◌, ◌||◌, [], ◌∷◌, ◌++◌, length,
  take, leb, ltb, ◌==◌, if◌then◌else◌,
}
use go_oracledb.Base.Int.{ℤ, pos, negsuc, sub_ℕ, pos_part, neg_part, ltb_ℤ, pattern_of}
use go_oracledb.Base.Bytes.{Bytes}
use go_oracledb.Base.Outcome.{Outcome, ok, err, panic, ◌>>=◌, ◌>>◌}
use Prim.Native.Nat.{bit_and, bit_or, bit_xor}

-- The reasons of internal/driver/common/converter_reasons.go that this file gives.
pub data Reason : Type 0 where
  invalid_length out_of_range precision_exceeded invalid_format : Reason

-- `ConverterEmptyInput`, `ConverterExpectedFormat`, `ConverterRange`.
pub data Error : Type 0 where
  empty_input : Error
  expected_format converter_range : Reason → Error

-- What `FromNumber` returns beside a nil error.
pub record Number : Type 0 where
  pub mantissa : ℕ
  pub negative : Bool
  pub exponent : ℤ
  pub mantissa_digits : ℕ

abbrev pub number_wire_max_len : ℕ
number_wire_max_len = 21

abbrev pub zero_number : Number
zero_number = record { mantissa = 0; negative = false; exponent = pos 0; mantissa_digits = 0 }

-- `validateNumberWireLength`.
unfoldable pub validate_number_wire_length : Bytes → Outcome Error (Unit {0})
validate_number_wire_length bytes =
    if ltb number_wire_max_len (length bytes) then err (expected_format invalid_length) else ok tt

-- `validateNumberMetadata`.
unfoldable pub validate_number_metadata : ℤ → ℤ → Outcome Error (Unit {0})
validate_number_metadata precision scale =
    if ltb_ℤ precision (pos 0)
    then err (expected_format out_of_range)
    else if ltb_ℤ (pos 38) precision
    then err (expected_format precision_exceeded)
    else if ltb_ℤ scale (negsuc 83) || ltb_ℤ (pos 127) scale
    then err (expected_format out_of_range)
    else ok tt

-- `mantissa[i] - '0'` on bytes.
abbrev pub digit_of : ℕ → ℕ
digit_of d = (d + 256 - 48) % 256

-- One packed byte: the pair `b`, its complement to 100 for a negative number, and the bias.
abbrev pub packed_byte : Bool → ℕ → ℕ
packed_byte negative b = ((if negative then (100 + 256 - b) % 256 else b) + 1) % 256

-- The packing loop, two digits a byte.
unfoldable pub pack : Bool → Bytes → Bytes
pack negative [] = []
pack negative (a ∷ []) = packed_byte negative (10 * digit_of a % 256) ∷ []
pack negative (a ∷ (b ∷ rest)) =
    packed_byte negative ((10 * digit_of a % 256 + digit_of b) % 256) ∷ pack negative rest

-- The exponent in base 100, with its bias, as a byte: Go's division rounds towards zero.
unfoldable pub wire_exponent : ℤ → ℕ
wire_exponent (pos n) = pattern_of 8 (pos (n / 2 + 1 + 64))
wire_exponent (negsuc n) = pattern_of 8 (sub_ℕ (1 + 64) ((n + 2) / 2))

abbrev pub is_even : ℤ → Bool
is_even (pos n) = n % 2 == 0
is_even (negsuc n) = suc n % 2 == 0

-- What `_toNumberStrict` does with digits that are not empty.
unfoldable pub encode_digits : Bytes → Bool → ℤ → Bytes
unfolding pack wire_exponent
encode_digits mantissa negative exponent =
    let digits = if is_even exponent then 48 ∷ mantissa else mantissa in
    let payload = pack negative digits in
    let lead =
      if negative
      then bit_xor (wire_exponent exponent) 0x7f
      else bit_or (wire_exponent exponent) 0x80 in
    let base_len = 1 + (length digits + 1) / 2 in
    lead
    ∷ (if negative && leb (base_len + 1) number_wire_max_len
        then payload ++ (0x66 ∷ [])
        else payload)

-- `_toNumberStrict`.
unfoldable pub to_number_strict : Bytes → Bool → ℤ → Bytes
unfolding encode_digits
to_number_strict [] negative exponent = 0x80 ∷ []
to_number_strict (d ∷ ds) negative exponent = encode_digits (d ∷ ds) negative exponent

-- The number of '0' at the end, and what is left without them.
unfoldable pub trailing_zeros : Bytes → ℕ
trailing_zeros [] = 0
trailing_zeros (d ∷ ds) =
    let n = trailing_zeros ds in if n == length ds && d == 48 then suc n else n

unfoldable pub trim_zeros : Bytes → Bytes
unfolding trailing_zeros
trim_zeros ds = take (length ds - trailing_zeros ds) ds

-- `mantissa[i]`, which panics out of range.
unfoldable pub byte_at : Bytes → ℕ → Outcome Error ℕ
byte_at [] i = panic
byte_at (d ∷ ds) zero = ok d
byte_at (d ∷ ds) (suc i) = byte_at ds i

-- The loop of `ToNumber` that counts the zeros at the end, where `left` bytes are left in front.
unfoldable pub end_zero_count : Bytes → ℕ → Outcome Error ℕ
unfolding byte_at
end_zero_count mantissa zero = ok 0
end_zero_count mantissa (suc left) =
    let more = end_zero_count mantissa left >>= λ n. ok (suc n) in
    byte_at mantissa left >>= λ d. if d == 48 then more else ok 0

-- A round of the packing loop of `ToNumber`, at index `i`.
unfoldable pub packed_at : Bool → Bytes → ℕ → Outcome Error ℕ
unfolding byte_at
packed_at negative mantissa i = do
  high ← byte_at mantissa i
  let b = 10 * digit_of high % 256
  b' ←
      if ltb i (length mantissa - 1)
      then (byte_at mantissa (i + 1) >>= λ low. ok ((b + digit_of low) % 256))
      else ok b
  ok (((if negative then (100 + 256 - b') % 256 else b') + 1) % 256)

-- The packing loop of `ToNumber` from index `i` on, with the rounds that are left.
unfoldable pub pack_from : Bool → Bytes → ℕ → ℕ → Outcome Error Bytes
unfolding packed_at
pack_from negative mantissa i zero = ok []
pack_from negative mantissa i (suc rounds) = do
  b ← packed_at negative mantissa i
  rest ← pack_from negative mantissa (i + 2) rounds
  ok (b ∷ rest)

-- `exponent--` for a negative exponent, then `(exponent / 2) + 1` with a division towards zero, and the bias.
unfoldable pub biased_exponent : ℤ → ℤ
biased_exponent (pos n) = pos (n / 2 + 1 + 64)
biased_exponent (negsuc n) = sub_ℕ (1 + 64) ((n + 2) / 2)

-- `ToNumber` on the digits without the zeros at their end. The loop has a round for each packed byte.
unfoldable pub pack_number : Bytes → Bool → ℤ → Outcome Error Bytes
unfolding pack_from biased_exponent
pack_number mantissa negative exponent =
    let digits = if is_even exponent then 48 ∷ mantissa else mantissa in
    let packed_len = (length digits + 1) / 2 in
    let append_neg_term = negative && leb (1 + packed_len + 1) number_wire_max_len in
    let exponent_byte = pattern_of 8 (biased_exponent exponent) in
    if length mantissa == 0 then ok (0x80 ∷ []) else do
      payload ← pack_from negative digits 0 packed_len
      ok (
          (if negative then bit_xor exponent_byte 0x7f else bit_or exponent_byte 0x80)
          ∷ (if append_neg_term then payload ++ (0x66 ∷ []) else payload))

-- `ToNumber`.
unfoldable pub to_number : Bytes → Bool → ℤ → Outcome Error Bytes
unfolding end_zero_count pack_number
to_number mantissa negative exponent = do
  count ← end_zero_count mantissa (length mantissa)
  pack_number (take (length mantissa - count) mantissa) negative exponent

-- `encodeIntegerDigitsStrict`.
unfoldable pub encode_integer_digits_strict : Bytes → Bool → Bytes
unfolding trim_zeros to_number_strict
encode_integer_digits_strict mantissa negative =
    let trim = trailing_zeros mantissa in
    let trimmed = trim_zeros mantissa in
    if length trimmed == 0
    then 0x80 ∷ []
    else to_number_strict trimmed negative (pos (length trimmed - 1 + trim))

-- One payload byte as a pair below 100, in uint16 arithmetic.
unfoldable pub pair_of : Bool → ℕ → ℕ
pair_of negative b =
    let d = (b + 2 ^ 16 - 1) % 2 ^ 16 in if negative then (100 + 2 ^ 16 - d) % 2 ^ 16 else d

-- The loop of `FromNumber` over the payload.
unfoldable pub unpack : Bool → Bytes → ℕ → ℕ → Outcome Error (ℕ × ℕ)
unpack negative [] mantissa digits = ok (mantissa, digits)
unpack negative (b ∷ bs) mantissa digits =
    let d = pair_of negative b in
    let rest = unpack negative bs (mantissa * 100 + d) (digits + 2) in
    if ltb 99 d
    then err (expected_format invalid_format)
    else if ltb 9 (d / 10) || ltb 9 (d % 10)
    then err (expected_format invalid_format)
    else if ltb ((2 ^ 64 - 1 - d) / 100) mantissa
    then err (expected_format precision_exceeded)
    else rest

-- The base-100 exponent of a lead byte, and its adjustment to base 10.
abbrev pub lead_exponent : Bool → ℕ → ℤ
lead_exponent negative lead = sub_ℕ (if negative then bit_xor lead 0x7f else bit_and lead 0x7f) 64

abbrev pub adjust_exponent : ℤ → ℕ → ℤ
adjust_exponent e digits = sub_ℕ (pos_part e * 2) (neg_part e * 2 + digits)

-- `mantissaDigits + firstDigitWasZero`.
abbrev pub counted_digits : Bytes → ℕ → ℕ
counted_digits [] digits = digits
counted_digits (b ∷ bs) digits = digits - 1

-- Everything but the last byte, if that is the terminator of a negative number.
unfoldable pub drop_terminator : Bytes → Bytes
drop_terminator [] = []
drop_terminator (b ∷ []) = if b == 0x66 then [] else b ∷ []
drop_terminator (b ∷ (c ∷ bs)) = b ∷ drop_terminator (c ∷ bs)

-- The bytes behind the lead byte. A lone lead byte 0x66 is refused.
unfoldable pub payload_of : Bool → ℕ → Bytes → Outcome Error Bytes
unfolding drop_terminator
payload_of false lead rest = ok rest
payload_of true lead [] = if lead == 0x66 then err (expected_format invalid_format) else ok []
payload_of true lead (b ∷ bs) = ok (drop_terminator (b ∷ bs))

-- `FromNumber`.
unfoldable pub from_number : Bytes → Outcome Error Number
unfolding validate_number_wire_length payload_of unpack
from_number [] = err empty_input
from_number (lead ∷ rest) = do
  validate_number_wire_length (lead ∷ rest)
  if lead == 0x80 then ok zero_number else do
    let negative = bit_and lead 0x80 == 0
    payload ← payload_of negative lead rest
    (mantissa, digits) ← unpack negative payload 0 0
    ok (record {
      mantissa = mantissa;
      negative = negative;
      exponent = adjust_exponent (lead_exponent negative lead) digits;
      mantissa_digits = counted_digits payload digits;
    })

-- The pair of `_fromNumberBig`, in int arithmetic.
abbrev pub big_pair_of : Bool → ℕ → ℤ
big_pair_of negative b =
    let d = sub_ℕ b 1 in if negative then sub_ℕ (100 + neg_part d) (pos_part d) else d

-- The loop of `_fromNumberBig`: the mantissa is a `big.Int` and cannot overflow.
unfoldable pub unpack_big : Bool → Bytes → ℕ → ℕ → Outcome Error (ℕ × ℕ)
unpack_big negative [] mantissa digits = ok (mantissa, digits)
unpack_big negative (b ∷ bs) mantissa digits =
    let d = big_pair_of negative b in
    let n = pos_part d in
    let rest = unpack_big negative bs (mantissa * 100 + (n / 10 * 10 + n % 10)) (digits + 2) in
    if ltb_ℤ d (pos 0) || ltb_ℤ (pos 99) d
    then err (expected_format invalid_format)
    else if ltb 9 (n / 10) || ltb 9 (n % 10)
    then err (expected_format invalid_format)
    else rest

-- `_fromNumberBig`.
unfoldable pub from_number_big : Bytes → Outcome Error Number
unfolding validate_number_wire_length payload_of unpack_big
from_number_big [] = err empty_input
from_number_big (lead ∷ rest) = do
  validate_number_wire_length (lead ∷ rest)
  let negative = bit_and lead 0x80 == 0
  payload ← payload_of negative lead rest
  (mantissa, digits) ← unpack_big negative payload 0 0
  ok (record {
    mantissa = mantissa;
    negative = negative;
    exponent = adjust_exponent (lead_exponent negative lead) digits;
    mantissa_digits = counted_digits payload digits;
  })
