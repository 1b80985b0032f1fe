-- ===== src/Base/Tables.antt =====
-- A property of all numbers below a bound, checked by evaluation, and the byte masks it gives.
use go_oracledb.Base.Tests.{◌==◌}
use Prim.Native.Nat.{ℕ, zero, suc, ◌+◌, ◌*◌, ◌/◌, ◌%◌, ◌<◌, bit_and, bit_or}
use mathlib.Core.Path.{◌≡◌, refl}
use mathlib.Core.Bool.{Bool, true, ◌&&◌}
use native.Mathlib.Omega.{arith}

abbrev equal_below : ℕ → (ℕ → ℕ) → (ℕ → ℕ) → Bool
equal_below zero f g = true
equal_below (suc n) f g = f n == g n && equal_below n f g

pub eq_of_table : (n : ℕ) (f g : ℕ → ℕ) → equal_below n f g ≡ true → (x : ℕ) → x < n → f x ≡ g x
eq_of_table zero f g e x h = absurd (omega arith)
eq_of_table (suc n) f g e x h = ground (arith, eq_of_table n f g (ground arith) x)

pub mask_7f : (b : ℕ) → b < 256 → bit_and b 0x7f ≡ b % 128
mask_7f = eq_of_table 256 (λ b. bit_and b 0x7f) (λ b. b % 128) refl

pub mask_80 : (b : ℕ) → b < 256 → bit_and b 0x80 ≡ b / 128 * 128
mask_80 = eq_of_table 256 (λ b. bit_and b 0x80) (λ b. b / 128 * 128) refl

pub set_80 : (b : ℕ) → b < 128 → bit_or b 0x80 ≡ b + 128
set_80 = eq_of_table 128 (λ b. bit_or b 0x80) (λ b. b + 128) refl
