-- ===== src/Marshal/Clr/Slices.antt =====
-- Slices and buffers of the CLR operations (internal/driver/ttc/marshal_engine.go).
use go_oracledb.Base.{
  ℕ, zero, suc, ◌+◌, ◌-◌, ◌≡◌, refl, Option, none, some, [], ◌∷◌, ◌++◌, length, drop, replicate,
  arith, append-nil, append_assoc, length-append, take-append, drop-append, le→leb, le→ltb_false,
  ne→==_false, length-replicate,
}
use go_oracledb.Base.Bytes.{Bytes}
use go_oracledb.Base.Outcome.{ok}
use go_oracledb.Marshal.Engine.{Stream}
use go_oracledb.Marshal.Stream.{read_bytes_ok}
use go_oracledb.Marshal.Clr.{slice, append_bytes, unmarshal_buffer}

-- The part `c` of a longer byte string, by its position.
pub slice_part :
    (front c back : Bytes) (lo hi : ℕ)
    → length front ≡ lo
    → lo + length c ≡ hi
    → slice (front ++ (c ++ back)) lo hi ≡ ok c
unfolding slice
slice_part front c back lo hi at size = rw (
  le→leb lo hi (omega arith),
  le→leb hi (length (front ++ (c ++ back)))
      (omega (arith, length-append {0} front (c ++ back), length-append {0} c back)),
  drop-append lo front (c ++ back) at,
  take-append (hi - lo) c back (omega arith),
)

pub append_bytes-nil : (acc : Option Bytes) → append_bytes acc [] ≡ acc
unfolding append_bytes
append_bytes-nil none = refl
append_bytes-nil (some a) = rw append-nil

pub append_bytes_assoc :
    (acc : Option Bytes) (xs ys : Bytes)
    → append_bytes (append_bytes acc xs) ys ≡ append_bytes acc (xs ++ ys)
unfolding append_bytes
append_bytes_assoc none [] ys = refl
append_bytes_assoc none (x ∷ xs) ys = refl
append_bytes_assoc (some a) xs ys = rw append_assoc

drop-replicate : (n : ℕ) → drop n (replicate n (zero)) ≡ []
drop-replicate zero = refl
drop-replicate (suc n) = drop-replicate n

-- A whole buffer is filled from the front of the stream.
pub unmarshal_buffer_fill :
    (n : ℕ) (bs rest : Bytes) (r : Stream)
    → length bs ≡ n
    → unmarshal_buffer (replicate n 0) 0 n (record r { unread = bs ++ rest })
      ≡ (ok bs, record r { unread = rest })
unfolding unmarshal_buffer
unmarshal_buffer_fill zero [] rest r h = refl
unmarshal_buffer_fill zero (b ∷ bs) rest r h = absurd (omega arith)
unmarshal_buffer_fill (suc n) bs rest r h =
    let all : 0 + suc n ≡ suc n = omega arith in
    rw (
      all,
      ne→==_false (suc n) 0 (omega arith),
      le→ltb_false (suc (length (replicate n zero))) (suc n)
          (omega (arith, length-replicate {0} n zero)),
      read_bytes_ok (suc n) bs rest r h,
      drop-replicate n,
      append-nil,
    )
