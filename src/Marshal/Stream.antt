-- ===== src/Marshal/Stream.antt =====
-- What the data buffer of internal/driver/ttc/marshal_engine.go does on enough room and enough bytes.
use go_oracledb.Base.{
  ℕ, ◌-◌, ◌≤◌, ◌≡◌, refl, ◌∷◌, ◌++◌, length, le→leb, length-append, take-append, drop-append,
  append_assoc, arith,
}
use go_oracledb.Base.Bytes.{Bytes}
use go_oracledb.Base.Outcome.{ok}
use go_oracledb.Marshal.Engine.{Stream, sent, write_bytes, read_bytes, read_byte}

pub write_bytes_ok :
    (bs : Bytes) (s : Stream) → length bs ≤ s.room → write_bytes bs s ≡ (ok tt, sent bs s)
unfolding write_bytes
write_bytes_ok bs s h = rw (le→leb (length bs) s.room h)

pub sent-sent : (xs ys : Bytes) (s : Stream) → sent ys (sent xs s) ≡ sent (xs ++ ys) s
sent-sent xs ys s = λ i. record s { written = append_assoc s.written xs ys i; room = less i }
  where
    less : s.room - length xs - length ys ≡ s.room - length (xs ++ ys)
    less = omega (arith, length-append {0} xs ys)

pub read_bytes_ok :
    (n : ℕ) (bs rest : Bytes) (s : Stream)
    → length bs ≡ n
    → read_bytes n (record s { unread = bs ++ rest }) ≡ (ok bs, record s { unread = rest })
unfolding read_bytes
read_bytes_ok n bs rest s h = rw (
  le→leb n (length (bs ++ rest)) (omega (arith, length-append {0} bs rest)),
  take-append n bs rest h,
  drop-append n bs rest h,
)

pub read_byte_ok :
    (b : ℕ) (rest : Bytes) (s : Stream)
    → read_byte (record s { unread = b ∷ rest }) ≡ (ok b, record s { unread = rest })
unfolding read_byte
read_byte_ok b rest s = refl
