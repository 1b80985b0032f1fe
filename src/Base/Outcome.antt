-- ===== src/Base/Outcome.antt =====
-- Go's (value, error) pairs. `panic` is a run-time panic, such as an index out of range, and `stuck`
-- is no Go value: a loop of the model ran out of fuel.
use mathlib.Core.Path.{◌≡◌, subst}

module _ {ℓ κ} where
  pub data Outcome (E : Type ℓ) (A : Type κ) : Type (ℓ ⊔ κ) where
    ok : A → Outcome E A
    err : E → Outcome E A
    panic : Outcome E A
    stuck : Outcome E A

infixl 5 ◌>>=◌ ◌>>◌
abbrev pub ◌>>=◌ {ℓ κ ι} :
    {E : Type ℓ} {A : Type κ} {B : Type ι} → Outcome E A → (A → Outcome E B) → Outcome E B
ok a >>= f = f a
err e >>= f = err e
panic >>= f = panic
stuck >>= f = stuck

abbrev pub ◌>>◌ {ℓ ι} : {E : Type ℓ} {B : Type ι} → Outcome E (Unit {0}) → Outcome E B → Outcome E B
m >> k = m >>= λ _. k

-- An error passes through `_wrapError`-like functions; every other outcome stays.
abbrev pub map_err {ℓ κ} : {E F : Type ℓ} {A : Type κ} → (E → F) → Outcome E A → Outcome F A
map_err f (ok a) = ok a
map_err f (err e) = err (f e)
map_err f panic = panic
map_err f stuck = stuck

-- Neither a panic nor a model that ran out of fuel.
pub data Returns {ℓ κ} {E : Type ℓ} {A : Type κ} : Outcome E A → Type (ℓ ⊔ κ) where
  returns_ok : (a : A) → Returns (ok a)
  returns_err : (e : E) → Returns (err e)

-- Neither a panic nor a model that ran out of fuel, and `P` of the value beside a nil error.
pub data Ensures {ℓ κ ι} {E : Type ℓ} {A : Type κ} (P : A → Type ι)
    : Outcome E A → Type (ℓ ⊔ κ ⊔ ι) where
  ensures_ok : (a : A) → P a → Ensures P (ok a)
  ensures_err : (e : E) → Ensures P (err e)

pub Ensures-bind {ℓ κ ι μ ν} :
    {E : Type ℓ} {A : Type κ} {B : Type ι} (P : A → Type μ) (Q : B → Type ν) {m : Outcome E A}
    (f : A → Outcome E B)
    → Ensures P m
    → ((a : A) → P a → Ensures Q (f a))
    → Ensures Q (m >>= f)
Ensures-bind P Q f (ensures_ok a h) k = k a h
Ensures-bind P Q f (ensures_err e) k = ensures_err e

pub Ensures-ok {ℓ κ ι} :
    {E : Type ℓ} {A : Type κ} (P : A → Type ι) {m : Outcome E A} (a : A)
    → Ensures P m
    → m ≡ ok a
    → P a
Ensures-ok P a (ensures_ok b h) e = subst P (cc) h
Ensures-ok P a (ensures_err x) e = absurd (cc)
