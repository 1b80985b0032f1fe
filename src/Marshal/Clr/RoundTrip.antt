-- ===== src/Marshal/Clr/RoundTrip.antt =====
-- `UnmarshalCLRColumnData` on what `MarshalCLR` wrote (internal/driver/ttc/marshal_engine.go).
use go_oracledb.Base.{
  ℕ, suc, ◌+◌, ◌*◌, ◌%◌, ◌≤◌, ◌<◌, ◌≡◌, refl, ap, ◌∙◌, Option, none, some, [], ◌∷◌, ◌++◌, length,
  ltb, ◌==◌, arith, Bool-cases, inl, inr, append_assoc, length-append, le→leb, lt→ltb, le→ltb_false,
  ne→==_false, ltb→lt, ltb_false→le, ==_iff,
}
use go_oracledb.Base.Int.{pos}
use go_oracledb.Base.Bytes.{Bytes}
use go_oracledb.Base.Outcome.{Outcome, ok}
use go_oracledb.Marshal.Engine.{Config, Error, Stream, sent, wrap_error}
use go_oracledb.Marshal.Stream.{write_bytes_ok, sent-sent, read_byte_ok}
use go_oracledb.Marshal.Universal.{marshal_sb4, unmarshal_sb4, unmarshal_ub1}
use go_oracledb.Marshal.Universal.Carries.{Carries}
use go_oracledb.Marshal.Universal.RoundTrip.{sb4-Carries}
use go_oracledb.Marshal.Clr.{
  append_bytes, marshal_chunks, marshal_clr, column_loop, unmarshal_clr_column_data,
  max_allowed_clr_length,
}
use go_oracledb.Marshal.Clr.Slices.{slice_part, unmarshal_buffer_fill}
use go_oracledb.Marshal.Clr.Chunks.{Chunks, chunks}

module _ (m : Config) where
  -- A value and where it stands: `MarshalCLR(value, offset, totalLength)` on one side, what
  -- `UnmarshalCLRColumnData` returns on the other.
  record Clr (front xs back : Bytes) : Type 0 where
    bytes : Bytes
    writes :
        (s : Stream)
        → 10 * length xs + 20 ≤ s.room
        → marshal_clr m (front ++ (xs ++ back)) (length front) (length xs) s ≡ (ok tt, sent bytes s)
    reads :
        (r : Stream) (rest : Bytes)
        → length xs ≤ max_allowed_clr_length m
        → unmarshal_clr_column_data m (record r { unread = bytes ++ rest })
          ≡ (ok (some xs, length xs), record r { unread = rest })

  marshal_clr_short :
      (front xs back : Bytes) (s : Stream)
      → length xs ≤ 252
      → 1 + length xs ≤ s.room
      → marshal_clr m (front ++ (xs ++ back)) (length front) (length xs) s
        ≡ (ok tt, sent (length xs ∷ xs) s)
  unfolding marshal_clr wrap_error
  marshal_clr_short front xs back s small room =
      rw (le→ltb_false 252 (length xs) small, low, write_bytes_ok (length xs ∷ []) s (omega arith))
        (elim (Bool-cases (length (front ++ (xs ++ back)) == 0)) [
          | inl e ↦ rw e (empty xs ((==_iff _ _).0 e))
          | inr e ↦
              rw
                (
                  e,
                  slice_part front xs back (length front) (length front + length xs) refl refl,
                  write_bytes_ok xs (sent (length xs ∷ []) s) (omega arith),
                )
                (ap (λ (t : Stream). (ok tt, t)) (sent-sent (length xs ∷ []) xs s))
        ])
    where
      low : length xs % 256 ≡ length xs
      low = omega arith

      empty :
          (ys : Bytes)
          → length (front ++ (ys ++ back)) ≡ 0
          → ◌≡◌ {A = Outcome Error (Unit {0}) × Stream}
              (ok tt, sent (length ys ∷ []) s)
              (ok tt, sent (length ys ∷ ys) s)
      empty [] e = refl
      empty (y ∷ ys) e = absurd (omega (arith, length-append {0} front ((y ∷ ys) ++ back)))

  short-Clr : (front xs back : Bytes) → length xs ≤ 252 → Clr front xs back
  unfolding unmarshal_clr_column_data unmarshal_ub1 wrap_error
  short-Clr front xs back small = record {
    bytes = length xs ∷ xs;
    writes = λ s room. marshal_clr_short front xs back s small (omega arith);
    reads = λ r rest fits. rw (
      read_byte_ok,
      ne→==_false (length xs) 0xfd (omega arith),
      ne→==_false (length xs) 0xff (omega arith),
      le→leb (length xs) 252 small,
      unmarshal_buffer_fill (length xs) xs rest r refl,
    );
  }

  column_loop_end :
      (k n : ℕ) (acc : Option Bytes) (rest : Bytes) (r : Stream)
      (end : Carries (marshal_sb4 m (pos 0)) (unmarshal_sb4 m) (pos 0) 9)
      → column_loop m (suc k) acc n (record r { unread = end.bytes ++ rest })
        ≡ (ok (acc, n), record r { unread = rest })
  unfolding column_loop wrap_error
  column_loop_end k n acc rest r end = rw (end.reads r rest)

  column_data_long :
      (bs : Bytes) (r : Stream)
      → unmarshal_clr_column_data m (record r { unread = 0xfe ∷ bs })
        ≡ column_loop m (suc (length bs)) none 0 (record r { unread = bs })
  unfolding unmarshal_clr_column_data unmarshal_ub1 wrap_error
  column_data_long bs r = rw read_byte_ok

  append_bytes_whole : (xs : Bytes) → 0 < length xs → append_bytes none xs ≡ some xs
  unfolding append_bytes
  append_bytes_whole [] h = absurd (omega arith)
  append_bytes_whole (x ∷ xs) h = refl

  whole_result :
      (xs rest : Bytes) (r : Stream)
      → 0 < length xs
      → ◌≡◌ {A = Outcome Error (Option Bytes × ℕ) × Stream}
          (ok (append_bytes none xs, 0 + length xs), record r { unread = rest })
          (ok (some xs, length xs), record r { unread = rest })
  whole_result xs rest r h =
      let sum : 0 + length xs ≡ length xs = omega arith in rw (append_bytes_whole xs h, sum)

  marshal_clr_long :
      (front xs back body : Bytes) (s : Stream)
      (end : Carries (marshal_sb4 m (pos 0)) (unmarshal_sb4 m) (pos 0) 9)
      → 252 < length xs
      → 10 + length body ≤ s.room
      → marshal_chunks m
          (suc (length xs))
          (front ++ (xs ++ back))
          (length front)
          (length xs)
          0
          (sent (0xfe ∷ []) s)
        ≡ (ok tt, sent body (sent (0xfe ∷ []) s))
      → marshal_clr m (front ++ (xs ++ back)) (length front) (length xs) s
        ≡ (ok tt, sent (0xfe ∷ (body ++ end.bytes)) s)
  unfolding marshal_clr wrap_error
  marshal_clr_long front xs back body s end large room written =
      rw
        (
          lt→ltb 252 (length xs) large,
          write_bytes_ok (0xfe ∷ []) s (omega arith),
          written,
          end.writes (sent body (sent (0xfe ∷ []) s)) (omega arith),
        )
        (ap (λ (t : Stream). (ok tt, t))
          (sent-sent body end.bytes (sent (0xfe ∷ []) s)
            ∙ sent-sent (0xfe ∷ []) (body ++ end.bytes) s))

  long-Clr :
      (front xs back : Bytes) (end : Carries (marshal_sb4 m (pos 0)) (unmarshal_sb4 m) (pos 0) 9)
      → 252 < length xs
      → Chunks m (suc (length xs)) (front ++ (xs ++ back)) (length front) (length xs) 0 xs
      → Clr front xs back
  long-Clr front xs back end large body = record {
    bytes = 0xfe ∷ (body.bytes ++ end.bytes);
    writes = λ s room.
        marshal_clr_long front xs back body.bytes s end large (omega (arith, body.long))
          (body.writes (sent (0xfe ∷ []) s) (omega arith));
    reads = λ r rest fits.
        let (k, e) =
          body.reads (suc (length ((body.bytes ++ end.bytes) ++ rest))) none 0 (end.bytes ++ rest) r
            (omega (
              arith,
              length-append {0} body.bytes end.bytes,
              length-append {0} (body.bytes ++ end.bytes) rest,
            ))
            (omega arith) in
        column_data_long ((body.bytes ++ end.bytes) ++ rest) r
        ∙ ap
            (λ (t : Bytes).
              column_loop m (suc (length ((body.bytes ++ end.bytes) ++ rest))) none 0
                (record r { unread = t }))
            (append_assoc body.bytes end.bytes rest)
        ∙ e
        ∙ column_loop_end k (0 + length xs) (append_bytes none xs) rest r end
        ∙ whole_result xs rest r (omega arith);
  }

  Clr-of : (front xs back : Bytes) → Clr front xs back
  Clr-of front xs back = elim (Bool-cases (ltb 252 (length xs))) [
    | inl e ↦
        long-Clr front xs back (sb4-Carries m (pos 0) (omega arith) (omega arith)) (ltb→lt _ _ e) (
          chunks m (suc (length xs)) (front ++ (xs ++ back)) front xs back (length front)
            (length xs) 0 refl (omega arith) (omega arith) (omega arith))
    | inr e ↦ short-Clr front xs back (ltb_false→le _ _ e)
  ]

  -- `UnmarshalCLRColumnData` returns the bytes that `MarshalCLR` was given, in the short form and in
  -- chunks, whatever stands around them in the caller's array, and leaves what follows unread. The
  -- bytes fit the limit on long values, and the stream has room for their encoding.
  pub unmarshal_clr_column_data-marshal_clr :
      (front xs back rest : Bytes) (s r : Stream)
      → length xs ≤ max_allowed_clr_length m
      → 10 * length xs + 20 ≤ s.room
      → (bs : Bytes) × (marshal_clr m (front ++ (xs ++ back)) (length front) (length xs) s
          ≡ (ok tt, sent bs s))
        × (unmarshal_clr_column_data m (record r { unread = bs ++ rest })
            ≡ (ok (some xs, length xs), record r { unread = rest }))
  unmarshal_clr_column_data-marshal_clr front xs back rest s r fits room =
      let c = Clr-of front xs back in (c.bytes, c.writes s room, c.reads r rest fits)
