-- ===== src/Marshal/Runs.antt =====
-- Concrete runs of the marshal engine, and its theorems at concrete inputs.
use go_oracledb.Base.{◌≡◌, refl, false, some, [], ◌∷◌, ◌++◌, arith}
use go_oracledb.Base.Int.{pos, negsuc}
use go_oracledb.Base.Bytes.{Bytes, be_bytes}
use go_oracledb.Base.Outcome.{ok, err}
use go_oracledb.Marshal.Engine.{
  ub4, sb4, num, engine_error, engine_wrap, Config, BasicTypes, native, universal,
  new_marshal_engine, Stream, sent, nb_bytes, is_unsigned, write_bytes, read_byte, wrap_error,
}
use go_oracledb.Marshal.UniversalCode.{encode_absolute_universal_value}
use go_oracledb.Marshal.Universal.{
  marshal_unsigned, unmarshal_numeric, marshal_sb4, unmarshal_sb4, decode_universal, decode_sized,
  write_universal, marshal_seq_no,
}
use go_oracledb.Marshal.Universal.RoundTrip.{
  unmarshal_numeric-marshal_unsigned, unmarshal_sb4-marshal_sb4,
}
use go_oracledb.Marshal.Universal.Bounds.{Reads, InRange, InRange}
use go_oracledb.Marshal.Universal.Decoded.{universal_value, decode_universal-universal_value}
use go_oracledb.Marshal.Sequence.{after, marshal_seq_no_cycle}
use go_oracledb.Marshal.Clr.{marshal_clr, unmarshal_clr, unmarshal_clr_column_data}
use go_oracledb.Marshal.Clr.RoundTrip.{unmarshal_clr_column_data-marshal_clr}
use go_oracledb.Marshal.Clr.Safety.{
  IsColumnData, IsFilled, unmarshal_clr_column_data-Reads, unmarshal_clr-Reads,
}

-- What TTC negotiates by default: bytes are native, all else is universal.
abbrev types : BasicTypes
types = record { b1 = native; b2 = universal; b4 = universal; b8 = universal; ptr = universal }

abbrev engine : Config
engine = new_marshal_engine false types

abbrev at : Bytes → Stream
at bs = record { unread = bs; written = []; room = 1000; sequence_number = pos 127 }

marshal_sb4_minus_300 :
    (marshal_sb4 engine (negsuc 299) (at [])).1.written ≡ 0x82 ∷ 0x01 ∷ 0x2c ∷ []
unfolding new_marshal_engine marshal_sb4 wrap_error write_universal encode_absolute_universal_value
    write_bytes be_bytes
marshal_sb4_minus_300 = refl

-- A negative zero is refused.
unmarshal_sb4_negative_zero :
    (unmarshal_sb4 engine (at (0x80 ∷ []))).0 ≡ err (engine_wrap (engine_error (num sb4)) (num sb4))
unfolding new_marshal_engine unmarshal_sb4 wrap_error decode_universal decode_sized read_byte
unmarshal_sb4_negative_zero = refl

unmarshal_numeric-marshal_unsigned_example :
    (bs : Bytes) × (marshal_unsigned engine ub4 70000 (at []) ≡ (ok tt, sent bs (at [])))
    × (unmarshal_numeric engine ub4 (record (at []) { unread = bs ++ (7 ∷ []) })
        ≡ (ok (pos 70000), record (at []) { unread = 7 ∷ [] }))
unfolding is_unsigned nb_bytes
unmarshal_numeric-marshal_unsigned_example =
    unmarshal_numeric-marshal_unsigned engine ub4 70000 (7 ∷ []) (at []) (at []) refl (omega arith)
      (omega arith)

unmarshal_sb4-marshal_sb4_example :
    (bs : Bytes) × (marshal_sb4 engine (negsuc 299) (at []) ≡ (ok tt, sent bs (at [])))
    × (unmarshal_sb4 engine (record (at []) { unread = bs ++ (7 ∷ []) })
        ≡ (ok (negsuc 299), record (at []) { unread = 7 ∷ [] }))
unmarshal_sb4-marshal_sb4_example =
    unmarshal_sb4-marshal_sb4 engine (negsuc 299) (7 ∷ []) (at []) (at []) (omega arith)
      (omega arith) (omega arith)

decode_universal-universal_value_example :
    Reads 1
      (λ z. InRange sb4 z × (z ≡ universal_value (0x82 ∷ 0x01 ∷ 0x2c ∷ [])))
      (at (0x82 ∷ 0x01 ∷ 0x2c ∷ []))
      (decode_universal sb4 (at (0x82 ∷ 0x01 ∷ 0x2c ∷ [])))
decode_universal-universal_value_example =
    decode_universal-universal_value sb4 (at (0x82 ∷ 0x01 ∷ 0x2c ∷ [])) (omega arith)

marshal_seq_no_cycle_example :
    ((marshal_seq_no engine (at [])).0 ≡ ok 127)
    × ((marshal_seq_no engine (marshal_seq_no engine (at [])).1).0 ≡ ok (after 127))
marshal_seq_no_cycle_example =
    marshal_seq_no_cycle engine 127 (at []) (omega arith) (omega arith) refl (omega arith)

unmarshal_clr_column_data-marshal_clr_example :
    (bs : Bytes) × (marshal_clr engine (1 ∷ 2 ∷ 3 ∷ 4 ∷ []) 1 2 (at []) ≡ (ok tt, sent bs (at [])))
    × (unmarshal_clr_column_data engine (record (at []) { unread = bs ++ (7 ∷ []) })
        ≡ (ok (some (2 ∷ 3 ∷ []), 2), record (at []) { unread = 7 ∷ [] }))
unmarshal_clr_column_data-marshal_clr_example =
    unmarshal_clr_column_data-marshal_clr engine (1 ∷ []) (2 ∷ 3 ∷ []) (4 ∷ []) (7 ∷ []) (at [])
      (at []) (omega arith) (omega arith)

unmarshal_clr_column_data-Reads_example :
    Reads 1
      (IsColumnData engine)
      (at (0xfe ∷ 1 ∷ 1 ∷ 65 ∷ 0 ∷ []))
      (unmarshal_clr_column_data engine (at (0xfe ∷ 1 ∷ 1 ∷ 65 ∷ 0 ∷ [])))
unmarshal_clr_column_data-Reads_example =
    unmarshal_clr_column_data-Reads engine (at (0xfe ∷ 1 ∷ 1 ∷ 65 ∷ 0 ∷ []))

unmarshal_clr-Reads_example :
    Reads 1
      (IsFilled engine 2)
      (at (0xfe ∷ 1 ∷ 3 ∷ 65 ∷ 66 ∷ 67 ∷ 0 ∷ []))
      (unmarshal_clr engine (0 ∷ 0 ∷ []) 2 (at (0xfe ∷ 1 ∷ 3 ∷ 65 ∷ 66 ∷ 67 ∷ 0 ∷ [])))
unmarshal_clr-Reads_example =
    unmarshal_clr-Reads engine (0 ∷ 0 ∷ []) 2 (at (0xfe ∷ 1 ∷ 3 ∷ 65 ∷ 66 ∷ 67 ∷ 0 ∷ []))
