-- ===== src/Marshal/Engine.antt =====
-- The state of a `MarshalEngine` (internal/driver/ttc/marshal_engine.go) and the data buffer under it.
-- What a connection fixes is `Config`; what a call changes is `Stream`.
use go_oracledb.Base.{
  ℕ, ◌-◌, ◌^◌, Bool, true, false, [], ◌∷◌, ◌++◌, length, take, drop, leb, if◌then◌else◌,
}
use go_oracledb.Base.Int.{ℤ, pos, negsuc}
use go_oracledb.Base.Bytes.{Bytes}
use go_oracledb.Base.Outcome.{Outcome, ok, err, panic, stuck, map_err}

-- The indices of `_numericTypeRep`.
pub data NumType : Type 0 where
  ub1 ub2 ub4 ub8 sb1 sb2 sb4 : NumType

-- `Native` and `Universal` of typerep.go; every byte but `Universal` is treated as `Native`.
pub data Rep : Type 0 where
  native universal : Rep

-- What the error texts name.
pub data Label : Type 0 where
  num marshal_num unmarshal_num : NumType → Label
  b1_array ptr null_ptr char_text text clr : Label

-- `MarshalEngineError` with its type label, without and with a cause; `ProtocolViolation`; the error
-- of the data buffer itself; `MarshalEngineFlushError`.
pub data Error : Type 0 where
  io protocol_violation flush_failed : Error
  engine_error : Label → Error
  engine_wrap : Error → Label → Error

-- `defaultNumericTypeRep`: the widths and bounds of the numeric types.
unfoldable pub nb_bytes : NumType → ℕ
nb_bytes ub1 = 1
nb_bytes ub2 = 2
nb_bytes ub4 = 4
nb_bytes ub8 = 8
nb_bytes sb1 = 1
nb_bytes sb2 = 2
nb_bytes sb4 = 4

unfoldable pub is_unsigned : NumType → Bool
is_unsigned ub1 = true
is_unsigned ub2 = true
is_unsigned ub4 = true
is_unsigned ub8 = true
is_unsigned _ = false

unfoldable pub min_value : NumType → ℤ
min_value sb1 = negsuc (2 ^ 7 - 1)
min_value sb2 = negsuc (2 ^ 15 - 1)
min_value sb4 = negsuc (2 ^ 31 - 1)
min_value _ = pos 0

unfoldable pub max_value : NumType → ℤ
max_value ub1 = pos (2 ^ 8 - 1)
max_value ub2 = pos (2 ^ 16 - 1)
max_value ub4 = pos (2 ^ 32 - 1)
max_value ub8 = pos (2 ^ 64 - 1)
max_value sb1 = pos (2 ^ 7 - 1)
max_value sb2 = pos (2 ^ 15 - 1)
max_value sb4 = pos (2 ^ 31 - 1)

pub record Config : Type 0 where
  pub ptr_rep : Rep
  pub rep : NumType → Rep
  pub little_endian : Bool
  pub lob_prefetch : ℕ

-- `NewNativeMarshalEngine`.
unfoldable pub new_native_marshal_engine : Bool → Config
new_native_marshal_engine little = record {
  ptr_rep = native;
  rep = λ t. native;
  little_endian = little;
  lob_prefetch = 0;
}

-- The `types` array, indexed by `B1` to `PTR`.
pub record BasicTypes : Type 0 where
  pub b1 : Rep
  pub b2 : Rep
  pub b4 : Rep
  pub b8 : Rep
  pub ptr : Rep

unfoldable pub rep_of : BasicTypes → NumType → Rep
rep_of types ub1 = types.b1
rep_of types ub2 = types.b2
rep_of types ub4 = types.b4
rep_of types ub8 = types.b8
rep_of types sb1 = types.b1
rep_of types sb2 = types.b2
rep_of types sb4 = types.b4

-- `NewMarshalEngine`.
unfoldable pub new_marshal_engine : Bool → BasicTypes → Config
unfolding rep_of
new_marshal_engine little types = record {
  ptr_rep = types.ptr;
  rep = rep_of types;
  little_endian = little;
  lob_prefetch = 0;
}

-- `setDefaultLobPrefetchSize`.
unfoldable pub set_default_lob_prefetch_size : ℕ → Config → Config
set_default_lob_prefetch_size size m = record m { lob_prefetch = size }

-- The bytes still to be read, those written, how many more the transport takes before writes fail,
-- and `_sequenceNumber`, an int8.
pub record Stream : Type 0 where
  pub unread : Bytes
  pub written : Bytes
  pub room : ℕ
  pub sequence_number : ℤ

abbrev pub M {ℓ} : Type ℓ → Type ℓ
M A = Stream → Outcome Error A × Stream

abbrev pub continue {ℓ κ} : {A : Type ℓ} {B : Type κ} → Outcome Error A → (A → M B) → M B
continue (ok a) f s = f a s
continue (err e) f s = (err e, s)
continue panic f s = (panic, s)
continue stuck f s = (stuck, s)

infixl 5 ◌>>=◌ ◌>>◌
abbrev pub ◌>>=◌ {ℓ κ} : {A : Type ℓ} {B : Type κ} → M A → (A → M B) → M B
◌>>=◌ m f s = let (r, s') = m s in continue r f s'

abbrev pub ◌>>◌ {κ} : {B : Type κ} → M (Unit {0}) → M B → M B
m >> k = m >>= λ _. k

abbrev pub pure {ℓ} : {A : Type ℓ} → A → M A
pure a s = (ok a, s)

abbrev pub lift {ℓ} : {A : Type ℓ} → Outcome Error A → M A
lift r s = (r, s)

abbrev pub fail {ℓ} : {A : Type ℓ} → Error → M A
fail e s = (err e, s)

-- `_wrapError`.
unfoldable pub wrap_error {ℓ} : {A : Type ℓ} → Label → M A → M A
wrap_error l m s = let (r, s') = m s in (map_err (λ e. engine_wrap e l) r, s')

-- What `WriteBytesWithContext` leaves behind when it succeeds.
abbrev pub sent : Bytes → Stream → Stream
sent bs s = record s { written = s.written ++ bs; room = s.room - length bs }

-- The `DataBuffer` interface of internal/driver/common/interfaces.go over this stream.
unfoldable pub write_bytes : Bytes → M (Unit {0})
write_bytes bs s = if leb (length bs) s.room then (ok tt, sent bs s) else (err io, s)

unfoldable pub read_bytes : ℕ → M Bytes
read_bytes n s =
    if leb n (length s.unread)
    then (ok (take n s.unread), record s { unread = drop n s.unread })
    else (err io, s)

unfoldable pub read_first : Bytes → M ℕ
read_first [] s = (err io, s)
read_first (b ∷ bs) s = (ok b, record s { unread = bs })

unfoldable pub read_byte : M ℕ
unfolding read_first
read_byte s = read_first s.unread s
