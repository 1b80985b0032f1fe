-- ===== src/Marshal/Sequence.antt =====
-- The sequence numbers of internal/driver/ttc/marshal_engine.go.
use go_oracledb.Base.{
  ℕ, ◌+◌, ◌%◌, ◌^◌, ◌≤◌, ◌≡◌, refl, [], ◌∷◌, ◌==◌, if◌then◌else◌, arith, ◌∙◌, ap,
}
use go_oracledb.Base.Int.{ℤ, pos}
use go_oracledb.Base.Outcome.{ok}
use go_oracledb.Marshal.Engine.{Config, Stream, sent, wrap_error}
use go_oracledb.Marshal.Stream.{write_bytes_ok}
use go_oracledb.Marshal.Universal.{marshal_seq_no, seq_start, next_int8}

-- The number behind `n` in the cycle 1, 2, ..., 127, 1, ...
abbrev pub after : ℕ → ℕ
after n = if n == 127 then 1 else n + 1

module _ (m : Config) where
  -- One call: the number that it settles on is written and returned, and the counter moves on.
  marshal_seq_no_step :
      (z : ℤ) (n : ℕ) (s : Stream)
      → s.sequence_number ≡ z
      → seq_start z ≡ pos n
      → n ≤ 127
      → 1 ≤ s.room
      → marshal_seq_no m s
        ≡ (ok n, record (sent (n ∷ []) s) { sequence_number = next_int8 (pos n) })
  unfolding marshal_seq_no wrap_error
  marshal_seq_no_step z n s e start small room =
      rw (ap seq_start e ∙ start, low, write_bytes_ok (n ∷ []) s room, low)
    where
      low : n % 2 ^ 8 ≡ n
      low = omega arith

  seq_start-next :
      (n : ℕ) → 1 ≤ n → n ≤ 127 → (seq_start (next_int8 (pos n)) ≡ pos (after n)) × (after n ≤ 127)
  seq_start-next n lo hi = ground arith

  -- Two calls of `marshalSeqNo` in a row, from a counter at n in 1 to 127 and with room for two bytes,
  -- return n and then the number behind it: n + 1, or 1 after 127.
  pub marshal_seq_no_cycle :
      (n : ℕ) (s : Stream)
      → 1 ≤ n
      → n ≤ 127
      → s.sequence_number ≡ pos n
      → 2 ≤ s.room
      → ((marshal_seq_no m s).0 ≡ ok n)
        × ((marshal_seq_no m (marshal_seq_no m s).1).0 ≡ ok (after n))
  marshal_seq_no_cycle n s lo hi e room =
      let first = marshal_seq_no_step (pos n) n s e (ground arith) hi (omega arith) in
      let next = seq_start-next n lo hi in
      rw first (
        refl,
        rw (
            marshal_seq_no_step (next_int8 (pos n)) (after n)
              (record (sent (n ∷ []) s) { sequence_number = next_int8 (pos n) }) refl next.0 next.1
              (omega arith)),
      )
