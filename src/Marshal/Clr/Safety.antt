-- ===== src/Marshal/Clr/Safety.antt =====
-- The CLR and text reads of internal/driver/ttc/marshal_engine.go on any bytes: they return, and stay
-- within their buffers and limits.
use go_oracledb.Base.{
  ℕ, zero, suc, ◌+◌, ◌-◌, ◌*◌, ◌≤◌, ◌<◌, ◌≡◌, refl, Option, none, some, [], ◌∷◌, ◌++◌, length, take,
  drop, replicate, ltb, leb, ◌==◌, if◌then◌else◌, arith, Bool-cases, inl, inr, ltb_false→le, leb→le,
  ==_iff, length-append, length-take, length-drop, length-replicate,
}
use go_oracledb.Base.Int.{pos, negsuc}
use go_oracledb.Base.Bytes.{Bytes}
use go_oracledb.Marshal.Engine.{
  Config, protocol_violation, engine_wrap, clr, num, Stream, ◌>>=◌, pure, fail, wrap_error,
  read_bytes, read_byte, sb4, ub1,
}
use go_oracledb.Marshal.Universal.{unmarshal_sb4, unmarshal_ub1}
use go_oracledb.Marshal.Universal.Bounds.{
  Reads, Reads-bind, Reads-wrap, read_bytes-Reads, read_byte-Reads, unmarshal_numeric-Reads,
}
use go_oracledb.Marshal.Clr.{
  append_bytes, unmarshal_buffer, keep_chunk, clr_loop, unmarshal_clr, column_chunk, column_loop,
  unmarshal_clr_column_data, max_allowed_clr_length, maximum_short_value_length,
}

unmarshal_sb4-Reads : (m : Config) (s : Stream) → Reads 1 (λ z. Unit {0}) s (unmarshal_sb4 m s)
unfolding unmarshal_sb4
unmarshal_sb4-Reads m s = unmarshal_numeric-Reads m sb4 s

unmarshal_ub1-Reads : (m : Config) (s : Stream) → Reads 1 (λ z. Unit {0}) s (unmarshal_ub1 m s)
unfolding unmarshal_ub1
unmarshal_ub1-Reads m s = Reads-wrap 1 (λ z. Unit) (num ub1) read_byte s (read_byte-Reads s)

-- A filled buffer keeps its length, and the bytes lie in it.
abbrev Fills : Bytes → ℕ → Bytes → Type 0
Fills buffer end buffer' = (length buffer' ≡ length buffer) × (end ≤ length buffer)

length-splice :
    (buffer bs : Bytes) (offset n : ℕ)
    → offset + n ≤ length buffer
    → length bs ≡ n
    → length (take offset buffer ++ (bs ++ drop (offset + n) buffer)) ≡ length buffer
length-splice buffer bs offset n fits size = omega (
  arith,
  length-append {0} (take offset buffer) (bs ++ drop (offset + n) buffer),
  length-append {0} bs (drop (offset + n) buffer),
  length-take {0} offset buffer,
  length-drop {0} (offset + n) buffer,
)

unmarshal_buffer-Fills :
    (buffer : Bytes) (offset n : ℕ) (s : Stream)
    → offset ≤ length buffer
    → Reads n (Fills buffer (offset + n)) s (unmarshal_buffer buffer offset n s)
unfolding unmarshal_buffer
unmarshal_buffer-Fills buffer offset n s fits = elim (Bool-cases (n == 0)) [
  | inl e ↦ rw e (let z : n ≡ 0 = (==_iff n 0).0 e in omega arith)
  | inr e ↦ rw e (elim (Bool-cases (ltb (length buffer) (offset + n))) [
    | inl long ↦ rw long tt
    | inr short ↦ rw short (
        Reads-bind n 0 n (λ bs. length bs ≡ n) (Fills buffer (offset + n)) (read_bytes n) _ s
          (omega arith) (read_bytes-Reads n s)
          (λ bs s' h _. (
            (length-splice buffer bs offset n (ltb_false→le _ _ short) h, ltb_false→le _ _ short),
            omega arith,
          )))
  ])
]

-- The data that was read has the length that is reported with it.
abbrev pub HasLength : Option Bytes → ℕ → Type 0
HasLength none n = n ≡ 0
HasLength (some bytes) n = length bytes ≡ n

append_bytes-HasLength :
    (acc : Option Bytes) (bs : Bytes) (nb n : ℕ)
    → HasLength acc nb
    → length bs ≡ n
    → HasLength (append_bytes acc bs) (nb + n)
unfolding append_bytes
append_bytes-HasLength none [] nb n h k = omega arith
append_bytes-HasLength none (b ∷ bs) nb n h k = omega arith
append_bytes-HasLength (some a) bs nb n h k = omega (arith, length-append {0} a bs)

module _ (m : Config) where
  abbrev pub IsColumnData : Option Bytes × ℕ → Type 0
  IsColumnData (bytes, n) = HasLength bytes n × (n ≤ max_allowed_clr_length m)

  column_chunk-Reads :
      (acc : Option Bytes) (nb n : ℕ) (s : Stream)
      → HasLength acc nb
      → Reads 0 IsColumnData s (column_chunk m acc nb n s)
  unfolding column_chunk
  column_chunk-Reads acc nb n s h = elim (Bool-cases (ltb (32767 * 2) n)) [
    | inl big ↦ rw big tt
    | inr small ↦ rw small (
        Reads-bind n 0 0 (Fills (replicate n 0) (0 + n)) IsColumnData
          (wrap_error clr (unmarshal_buffer (replicate n 0) 0 n)) _ s (omega arith)
          (Reads-wrap n (Fills (replicate n 0) (0 + n)) clr (unmarshal_buffer (replicate n 0) 0 n) s
            (unmarshal_buffer-Fills (replicate n 0) 0 n s (omega arith)))
          (λ bs s' f _. limit bs s' f.0))
  ]
    where
      limit :
          (bs : Bytes) (s' : Stream)
          → length bs ≡ length (replicate n zero)
          → Reads 0 IsColumnData s' (
              (if ltb (max_allowed_clr_length m) (nb + n)
                  then fail (engine_wrap protocol_violation clr)
                  else pure (append_bytes acc bs, nb + n))
                s')
      limit bs s' size = elim (Bool-cases (ltb (max_allowed_clr_length m) (nb + n))) [
        | inl over ↦ rw over tt
        | inr fits ↦ rw fits (
          (
            append_bytes-HasLength acc bs nb n h (omega (arith, length-replicate {0} n zero)),
            ltb_false→le _ _ fits,
          ),
          omega arith,
        )
      ]

  column_loop-Reads :
      (fuel : ℕ) (acc : Option Bytes) (nb : ℕ) (s : Stream)
      → length s.unread < fuel
      → IsColumnData (acc, nb)
      → Reads 0 IsColumnData s (column_loop m fuel acc nb s)
  unfolding column_loop
  column_loop-Reads zero acc nb s enough h = absurd (omega arith)
  column_loop-Reads (suc fuel) acc nb s enough h =
      Reads-bind 1 0 0 (λ z. Unit) IsColumnData (wrap_error clr (unmarshal_sb4 m)) _ s (omega arith)
        (Reads-wrap 1 (λ z. Unit) clr (unmarshal_sb4 m) s (unmarshal_sb4-Reads m s))
        (elim [
          | pos zero ↦ λ s' u shorter. (h, omega arith)
          | pos (suc k) ↦ λ s' u shorter.
              Reads-bind 0 0 0 IsColumnData IsColumnData (column_chunk m acc nb (suc k)) _ s'
                (omega arith) (column_chunk-Reads acc nb (suc k) s' h.0)
                (λ next s'' h' l. column_loop-Reads fuel next.0 next.1 s'' (omega arith) h')
          | negsuc k ↦ λ s' u shorter. tt
        ])

  column_start :
      (flag : ℕ) (s : Stream)
      → Reads 0 IsColumnData s (
          (if flag == 0xfd
              then fail (engine_wrap protocol_violation clr)
              else if flag == 0xff
              then pure (none, 0)
              else if leb flag maximum_short_value_length
              then (wrap_error clr (unmarshal_buffer (replicate flag 0) 0 flag) >>= λ bytes.
                  pure (some bytes, flag))
              else λ s. column_loop m (suc (length s.unread)) none 0 s)
            s)
  column_start flag s = elim (Bool-cases (flag == 0xfd)) [
    | inl e ↦ rw e tt
    | inr e ↦ rw e (elim (Bool-cases (flag == 0xff)) [
      | inl null ↦ rw null ((refl, omega arith), omega arith)
      | inr value ↦ rw value (elim (Bool-cases (leb flag maximum_short_value_length)) [
        | inl short ↦ rw short (
            Reads-bind flag 0 0 (Fills (replicate flag 0) (0 + flag)) IsColumnData
              (wrap_error clr (unmarshal_buffer (replicate flag 0) 0 flag)) _ s (omega arith)
              (Reads-wrap flag (Fills (replicate flag 0) (0 + flag)) clr
                (unmarshal_buffer (replicate flag 0) 0 flag) s
                (unmarshal_buffer-Fills (replicate flag 0) 0 flag s (omega arith)))
              (λ bs s' f _. (
                (omega (arith, length-replicate {0} flag zero), omega (arith, leb→le _ _ short)),
                omega arith,
              )))
        | inr long ↦
            rw long
              (column_loop-Reads (suc (length s.unread)) none 0 s (omega arith) (refl, omega arith))
      ])
    ])
  ]

  -- On any bytes `UnmarshalCLRColumnData` returns; the data that it gives has the length reported with
  -- it, which is within the limit for long values, and took a byte at least.
  pub unmarshal_clr_column_data-Reads :
      (s : Stream) → Reads 1 IsColumnData s (unmarshal_clr_column_data m s)
  unfolding unmarshal_clr_column_data
  unmarshal_clr_column_data-Reads s =
      Reads-bind 1 0 1 (λ b. Unit) IsColumnData (wrap_error clr (unmarshal_ub1 m)) _ s (omega arith)
        (Reads-wrap 1 (λ b. Unit) clr (unmarshal_ub1 m) s (unmarshal_ub1-Reads m s))
        (λ flag s' u l. column_start flag s')

  -- The caller's buffer keeps its length, and the count stays within it.
  abbrev pub IsFilled : ℕ → Bytes × ℕ → Type 0
  IsFilled size (buffer', n) = (length buffer' ≡ size) × (n ≤ size)

  keep_chunk-Reads :
      (buffer : Bytes) (size nb n : ℕ) (s : Stream)
      → nb ≤ length buffer
      → Reads 0 (IsFilled (length buffer)) s (keep_chunk buffer size nb n s)
  unfolding keep_chunk
  keep_chunk-Reads buffer size nb n s fits = go (if ltb (size - nb) n then size - nb else n)
    where
      go :
          (keep : ℕ)
          → Reads 0 (IsFilled (length buffer)) s (
              (wrap_error clr (unmarshal_buffer buffer nb keep) >>= λ buffer'.
              if ltb 0 (n - keep)
              then (wrap_error clr (read_bytes (n - keep)) >>= λ _. pure (buffer', nb + keep))
              else pure (buffer', nb + keep))
                s)
      go keep =
          Reads-bind keep 0 0 (Fills buffer (nb + keep)) (IsFilled (length buffer))
            (wrap_error clr (unmarshal_buffer buffer nb keep)) _ s (omega arith)
            (Reads-wrap keep (Fills buffer (nb + keep)) clr (unmarshal_buffer buffer nb keep) s
              (unmarshal_buffer-Fills buffer nb keep s fits))
            (λ buffer' s' f _. elim (Bool-cases (ltb 0 (n - keep))) [
              | inl more ↦ rw more (
                  Reads-bind (n - keep) 0 0 (λ bs. length bs ≡ n - keep) (IsFilled (length buffer))
                    (wrap_error clr (read_bytes (n - keep))) _ s' (omega arith)
                    (Reads-wrap (n - keep) (λ bs. length bs ≡ n - keep) clr (read_bytes (n - keep))
                      s' (read_bytes-Reads (n - keep) s'))
                    (λ bs s'' g _. (f, omega arith)))
              | inr all ↦ rw all (f, omega arith)
            ])

  clr_loop-Reads :
      (fuel : ℕ) (buffer : Bytes) (size nb : ℕ) (s : Stream)
      → length s.unread < fuel
      → nb ≤ length buffer
      → Reads 0 (IsFilled (length buffer)) s (clr_loop m fuel buffer size nb s)
  unfolding clr_loop
  clr_loop-Reads zero buffer size nb s enough fits = absurd (omega arith)
  clr_loop-Reads (suc fuel) buffer size nb s enough fits =
      Reads-bind 1 0 0 (λ z. Unit) (IsFilled (length buffer)) (wrap_error clr (unmarshal_sb4 m)) _ s
        (omega arith) (Reads-wrap 1 (λ z. Unit) clr (unmarshal_sb4 m) s (unmarshal_sb4-Reads m s))
        (elim [
          | pos zero ↦ λ s' u shorter. ((refl, fits), omega arith)
          | pos (suc k) ↦ λ s' u shorter.
              Reads-bind 0 0 0 (IsFilled (length buffer)) (IsFilled (length buffer))
                (keep_chunk buffer size nb (suc k)) _ s' (omega arith)
                (keep_chunk-Reads buffer size nb (suc k) s' fits)
                (λ next s'' h' l.
                  rw (← h'.0)
                    (clr_loop-Reads fuel next.0 size next.1 s'' (omega arith) (omega arith)))
          | negsuc k ↦ λ s' u shorter. tt
        ])

  -- `UnmarshalCLR` returns on any bytes and for any buffer and size: it keeps the buffer's length, the
  -- count that it gives is at most that length, and a byte at least was taken.
  pub unmarshal_clr-Reads :
      (buffer : Bytes) (size : ℕ) (s : Stream)
      → Reads 1 (IsFilled (length buffer)) s (unmarshal_clr m buffer size s)
  unfolding unmarshal_clr
  unmarshal_clr-Reads buffer size s =
      Reads-bind 1 0 1 (λ b. Unit) (IsFilled (length buffer)) (wrap_error clr (unmarshal_ub1 m)) _ s
        (omega arith) (Reads-wrap 1 (λ b. Unit) clr (unmarshal_ub1 m) s (unmarshal_ub1-Reads m s))
        (λ flag s' u l. start flag s')
    where
      start :
          (flag : ℕ) (s : Stream)
          → Reads 0 (IsFilled (length buffer)) s (
              (if flag == 0xfd
                  then fail (engine_wrap protocol_violation clr)
                  else if flag == 0xff
                  then pure (buffer, 0)
                  else if leb flag maximum_short_value_length
                  then (wrap_error clr (unmarshal_buffer buffer 0 flag) >>= λ filled.
                      pure (filled, flag))
                  else λ s. clr_loop m (suc (length s.unread)) buffer size 0 s)
                s)
      start flag s = elim (Bool-cases (flag == 0xfd)) [
        | inl e ↦ rw e tt
        | inr e ↦ rw e (elim (Bool-cases (flag == 0xff)) [
          | inl null ↦ rw null ((refl, omega arith), omega arith)
          | inr value ↦ rw value (elim (Bool-cases (leb flag maximum_short_value_length)) [
            | inl short ↦ rw short (
                Reads-bind flag 0 0 (Fills buffer (0 + flag)) (IsFilled (length buffer))
                  (wrap_error clr (unmarshal_buffer buffer 0 flag)) _ s (omega arith)
                  (Reads-wrap flag (Fills buffer (0 + flag)) clr (unmarshal_buffer buffer 0 flag) s
                    (unmarshal_buffer-Fills buffer 0 flag s (omega arith)))
                  (λ bs s' f _. ((f.0, omega arith), omega arith)))
            | inr long ↦
                rw long (
                  clr_loop-Reads (suc (length s.unread)) buffer size 0 s (omega arith)
                    (omega arith))
          ])
        ])
      ]
