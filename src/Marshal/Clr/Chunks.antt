-- ===== src/Marshal/Clr/Chunks.antt =====
-- The chunks of a long CLR value (internal/driver/ttc/marshal_engine.go), as `MarshalCLR` writes them and
-- `UnmarshalCLRColumnData` reads them.
use go_oracledb.Base.{
  ℕ, zero, suc, ◌+◌, ◌-◌, ◌*◌, ◌≤◌, ◌<◌, ◌≡◌, refl, sym, ap, ◌∙◌, Option, [], ◌∷◌, ◌++◌, length,
  take, drop, arith, append-nil, append_assoc, length-append, lt→ltb, le→ltb_false,
  take-append_drop, length-take, length-drop,
}
use go_oracledb.Base.Int.{pos}
use go_oracledb.Base.Bytes.{Bytes}
use go_oracledb.Base.Outcome.{Outcome, ok}
use go_oracledb.Marshal.Engine.{Config, Error, Stream, sent, wrap_error}
use go_oracledb.Marshal.Stream.{write_bytes_ok, sent-sent}
use go_oracledb.Marshal.Universal.{marshal_sb4, unmarshal_sb4}
use go_oracledb.Marshal.Universal.Carries.{Carries}
use go_oracledb.Marshal.Universal.RoundTrip.{sb4-Carries}
use go_oracledb.Marshal.Clr.{
  slice, append_bytes, chunk_length, marshal_chunks, column_chunk, column_loop,
  max_allowed_clr_length,
}
use go_oracledb.Marshal.Clr.Slices.{
  slice_part, append_bytes-nil, append_bytes_assoc, unmarshal_buffer_fill,
}

module _ (m : Config) where
  column_chunk_ok :
      (acc : Option Bytes) (nb : ℕ) (bs rest : Bytes) (r : Stream)
      → length bs ≤ 32767
      → nb + length bs ≤ max_allowed_clr_length m
      → column_chunk m acc nb (length bs) (record r { unread = bs ++ rest })
        ≡ (ok (append_bytes acc bs, nb + length bs), record r { unread = rest })
  unfolding column_chunk wrap_error
  column_chunk_ok acc nb bs rest r small fits = rw (
    le→ltb_false (32767 * 2) (length bs) (omega arith),
    unmarshal_buffer_fill (length bs) bs rest r refl,
    le→ltb_false (max_allowed_clr_length m) (nb + length bs) fits,
  )

  -- The chunks of `xs`: how many bytes they take, that the loop writes them, and that the reading loop
  -- turns them back into `xs` and goes on with what follows.
  pub record Chunks (fuel : ℕ) (value : Bytes) (offset total nb : ℕ) (xs : Bytes) : Type 0 where
    pub bytes : Bytes
    pub long : length bytes ≤ 10 * length xs
    pub writes :
        (s : Stream)
        → 10 * length xs ≤ s.room
        → marshal_chunks m fuel value offset total nb s ≡ (ok tt, sent bytes s)
    pub reads :
        (k : ℕ) (acc : Option Bytes) (n : ℕ) (rest : Bytes) (r : Stream)
        → length bytes < k
        → n + length xs ≤ max_allowed_clr_length m
        → (k' : ℕ) × (column_loop m k acc n (record r { unread = bytes ++ rest })
            ≡ column_loop m
                (suc k')
                (append_bytes acc xs)
                (n + length xs)
                (record r { unread = rest }))

  -- One round of the reading loop on a chunk of `c` bytes.
  column_loop_chunk :
      (k n : ℕ) (acc : Option Bytes) (c rest : Bytes) (r : Stream)
      (header : Carries (marshal_sb4 m (pos (length c))) (unmarshal_sb4 m) (pos (length c)) 9)
      → 1 ≤ length c
      → length c ≤ 32767
      → n + length c ≤ max_allowed_clr_length m
      → column_loop m (suc k) acc n (record r { unread = header.bytes ++ (c ++ rest) })
        ≡ column_loop m k (append_bytes acc c) (n + length c) (record r { unread = rest })
  unfolding column_loop wrap_error
  column_loop_chunk k n acc [] rest r header lo hi fits = absurd (omega arith)
  column_loop_chunk k n acc (b ∷ c) rest r header lo hi fits =
      rw (header.reads r ((b ∷ c) ++ rest), column_chunk_ok acc n (b ∷ c) rest r hi fits)

  -- One round of the writing loop.
  marshal_chunks_step :
      (fuel : ℕ) (value front c back : Bytes) (offset total nb : ℕ) (s : Stream)
      (header : Carries (marshal_sb4 m (pos (length c))) (unmarshal_sb4 m) (pos (length c)) 9)
      → value ≡ front ++ (c ++ back)
      → length front ≡ offset + nb
      → nb < total
      → chunk_length (total - nb) ≡ length c
      → 9 + length c ≤ s.room
      → marshal_chunks m (suc fuel) value offset total nb s
        ≡ marshal_chunks m fuel value offset total (nb + length c) (sent c (sent header.bytes s))
  unfolding marshal_chunks wrap_error
  marshal_chunks_step fuel value front c back offset total nb s header whole at more size room =
      rw (
        lt→ltb nb total more,
        size,
        header.writes s (omega arith),
        ap (λ (v : Bytes). slice v (offset + nb) (offset + nb + length c)) whole,
        slice_part front c back (offset + nb) (offset + nb + length c) at refl,
        write_bytes_ok c (sent header.bytes s) (omega (arith, header.short)),
      )

  Chunks-nil :
      (fuel : ℕ) (value : Bytes) (offset total nb : ℕ)
      → total ≤ nb
      → Chunks (suc fuel) value offset total nb []
  unfolding marshal_chunks
  Chunks-nil fuel value offset total nb done = record {
    bytes = [];
    long = omega arith;
    writes = λ s room. rw (le→ltb_false nb total done) (same s);
    reads = λ k acc n rest r more fits. go k acc n rest r more;
  }
    where
      same :
          (s : Stream) → ◌≡◌ {A = Outcome Error (Unit {0}) × Stream} (ok tt, s) (ok tt, sent [] s)
      same s =
          λ i. (ok tt, record s { written = sym (append-nil s.written) i; room = minus s.room i })
        where
          minus : (n : ℕ) → n ≡ n - 0
          minus n = omega arith

      go :
          (k : ℕ) (acc : Option Bytes) (n : ℕ) (rest : Bytes) (r : Stream)
          → 0 < k
          → (k' : ℕ) × (column_loop m k acc n (record r { unread = rest })
              ≡ column_loop m (suc k') (append_bytes acc []) (n + 0) (record r { unread = rest }))
      go zero acc n rest r more = absurd (omega arith)
      go (suc k') acc n rest r more = (k', rw (append_bytes-nil acc, plus n))
        where
          plus : (n : ℕ) → n + 0 ≡ n
          plus n = omega arith

  Chunks-cons :
      (fuel : ℕ) (value front c d back : Bytes) (offset total nb : ℕ)
      → value ≡ front ++ (c ++ back)
      → length front ≡ offset + nb
      → nb < total
      → chunk_length (total - nb) ≡ length c
      → 1 ≤ length c
      → length c ≤ 32767
      → Chunks fuel value offset total (nb + length c) d
      → Chunks (suc fuel) value offset total nb (c ++ d)
  Chunks-cons fuel value front c d back offset total nb whole at more size lo hi next = record {
    bytes = header.bytes ++ (c ++ next.bytes);
    long = omega (
      arith,
      header.short,
      next.long,
      length-append {0} c d,
      length-append {0} header.bytes (c ++ next.bytes),
      length-append {0} c next.bytes,
    );
    writes = λ s room.
        marshal_chunks_step fuel value front c back offset total nb s header whole at more size
          (omega (arith, length-append {0} c d))
        ∙ next.writes (sent c (sent header.bytes s))
            (omega (arith, length-append {0} c d, header.short))
        ∙ ap (λ (t : Stream). (ok tt, t))
            (sent-sent c next.bytes (sent header.bytes s)
              ∙ sent-sent header.bytes (c ++ next.bytes) s);
    reads = λ k acc n rest r enough fits.
        go k acc n rest r
          (omega (
            arith,
            length-append {0} header.bytes (c ++ next.bytes),
            length-append {0} c next.bytes,
          ))
          (omega (arith, length-append {0} c d));
  }
    where
      header : Carries (marshal_sb4 m (pos (length c))) (unmarshal_sb4 m) (pos (length c)) 9
      header = sb4-Carries m (pos (length c)) (omega arith) (omega arith)

      go :
          (k : ℕ) (acc : Option Bytes) (n : ℕ) (rest : Bytes) (r : Stream)
          → length header.bytes + length c + length next.bytes < k
          → n + length c + length d ≤ max_allowed_clr_length m
          → (k' : ℕ) × (column_loop m k acc n
                (record r { unread = (header.bytes ++ (c ++ next.bytes)) ++ rest })
              ≡ column_loop m
                  (suc k')
                  (append_bytes acc (c ++ d))
                  (n + length (c ++ d))
                  (record r { unread = rest }))
      go zero acc n rest r enough fits = absurd (omega arith)
      go (suc k) acc n rest r enough fits =
          let (k', e) =
            next.reads k (append_bytes acc c) (n + length c) rest r (omega arith) fits in
          (
            k',
            rw (append_assoc, append_assoc)
                (column_loop_chunk k n acc c (next.bytes ++ rest) r header lo hi (omega arith)
                  ∙ e
                  ∙ rw (append_bytes_assoc acc c d, total_length n)),
          )
        where
          total_length : (n : ℕ) → n + length c + length d ≡ n + length (c ++ d)
          total_length n = omega (arith, length-append {0} c d)

  -- Every string has its chunks, whatever stands around it.
  pub chunks :
      (fuel : ℕ) (value front xs back : Bytes) (offset total nb : ℕ)
      → value ≡ front ++ (xs ++ back)
      → length front ≡ offset + nb
      → nb + length xs ≡ total
      → length xs < fuel
      → Chunks fuel value offset total nb xs
  chunks zero value front xs back offset total nb whole at size enough = absurd (omega arith)
  chunks (suc fuel) value front [] back offset total nb whole at size enough =
      Chunks-nil fuel value offset total nb (omega arith)
  chunks (suc fuel) value front (x ∷ xs) back offset total nb whole at size enough =
      rw (sym (take-append_drop n (x ∷ xs))) (
        Chunks-cons fuel value front c d (d ++ back) offset total nb
          (whole
            ∙ ap (λ (t : Bytes). front ++ t)
                (ap (λ (t : Bytes). t ++ back) (sym (take-append_drop n (x ∷ xs)))
                  ∙ append_assoc c d back))
          at (omega arith) length_c (omega (arith, n_bounds)) (omega (arith, n_bounds))
          (chunks fuel value (front ++ c) d back offset total (nb + length c)
            (whole
              ∙ ap (λ (t : Bytes). front ++ t)
                  (ap (λ (t : Bytes). t ++ back) (sym (take-append_drop n (x ∷ xs)))
                    ∙ append_assoc c d back)
              ∙ sym (append_assoc front c (d ++ back)))
            (omega (arith, length-append {0} front c))
            (omega (arith, length-drop {0} n (x ∷ xs), n_bounds))
            (omega (arith, length-drop {0} n (x ∷ xs), n_bounds))))
    where
      n : ℕ
      n = chunk_length (length (x ∷ xs))

      c : Bytes
      c = take n (x ∷ xs)

      d : Bytes
      d = drop n (x ∷ xs)

      n_facts : (1 ≤ n) × (n ≤ 32767) × (n ≤ length (x ∷ xs))
      n_facts = ground arith

      n_bounds : (1 ≤ length c) × (length c ≤ 32767) × (length c ≡ n) × (length c ≤ length (x ∷ xs))
      n_bounds = omega (arith, length-take {0} n (x ∷ xs), n_facts)

      length_c : chunk_length (total - nb) ≡ length c
      length_c = ap chunk_length left ∙ sym n_bounds.2
        where
          left : total - nb ≡ length (x ∷ xs)
          left = omega arith
