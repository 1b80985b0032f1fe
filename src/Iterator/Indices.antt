-- ===== src/Iterator/Indices.antt =====
-- The indices of the descriptions in internal/driver/network/naming/iterator.go, in any order.
use go_oracledb.Base.{ℕ, zero, suc, ◌+◌, ◌<◌, ◌≡◌, refl, List, [], ◌∷◌, take, All, arith}
use go_oracledb.Iterator.Build.{indices_from}
use native.Mathlib.Bridge.{le_prop}
use mathlib.Core.Path.{subst}
use mathlib.Core.Logic.{∥∥₁_elim}
use mathlib.Core.List.{Perm, Permᴰ}

-- Indices of a list of `n` items.
abbrev pub AreBelow : ℕ → List ℕ → Type 0
AreBelow n is = All (λ i. i < n) is

AreBelow-prop : (n : ℕ) (is : List ℕ) → IsProp (AreBelow n is)
AreBelow-prop n [] p q = refl
AreBelow-prop n (i ∷ is) p q = λ t. (le_prop p.0 q.0 t, AreBelow-prop n is p.1 q.1 t)

AreBelow-Permᴰ : (n : ℕ) {is js : List ℕ} → Permᴰ is js → AreBelow n is → AreBelow n js
AreBelow-Permᴰ n Permᴰ.nil h = tt
AreBelow-Permᴰ n (Permᴰ.cons e d) h = (subst (λ i. i < n) e h.0, AreBelow-Permᴰ n d h.1)
AreBelow-Permᴰ n (Permᴰ.swap e f) h =
    (subst (λ i. i < n) f h.1.0, (subst (λ i. i < n) e h.0, h.1.1))
AreBelow-Permᴰ n (Permᴰ.trans d d') h = AreBelow-Permᴰ n d' (AreBelow-Permᴰ n d h)

pub AreBelow-Perm : (n : ℕ) {is js : List ℕ} → Perm is js → AreBelow n is → AreBelow n js
AreBelow-Perm n {is} {js} p h = ∥∥₁_elim p (AreBelow-prop n js) (λ d. AreBelow-Permᴰ n d h)

pub AreBelow-take : (n k : ℕ) (is : List ℕ) → AreBelow n is → AreBelow n (take k is)
AreBelow-take n zero is h = tt
AreBelow-take n (suc k) [] h = tt
AreBelow-take n (suc k) (i ∷ is) h = (h.0, AreBelow-take n k is h.1)

pub indices_from-AreBelow : (start n : ℕ) → AreBelow (start + n) (indices_from start n)
unfolding indices_from
indices_from-AreBelow start zero = tt
indices_from-AreBelow start (suc n) =
    let same : suc start + n ≡ start + suc n = omega arith in
    (
      omega arith,
      subst (λ k. AreBelow k (indices_from (suc start) n)) same
          (indices_from-AreBelow (suc start) n),
    )
