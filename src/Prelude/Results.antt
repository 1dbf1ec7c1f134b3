-- ===== src/Prelude/Results.antt =====
-- What a function that may raise returns: its value, or the exception.
use mathlib.Core.Path.{◌≡◌, refl}
use mathlib.Core.Bool.{Bool, true, false}
use mathlib.Core.Logic.{◌⊎◌, inl, inr}
use native.Mathlib.Omega.{arith}

pub data Result {ℓ} (E A : Type ℓ) : Type ℓ where
  ok : A → Result E A
  err : E → Result E A

infixl 5 ◌>>=◌ ◌>>◌
abbrev pub ◌>>=◌ {ℓ} : {E A B : Type ℓ} → Result E A → (A → Result E B) → Result E B
ok a >>= f = f a
err e >>= f = err e

abbrev pub ◌>>◌ {ℓ} : {E A B : Type ℓ} → Result E A → Result E B → Result E B
m >> k = m >>= λ _. k

-- `if c: raise e`
abbrev pub raise_if : {E : Type 0} → Bool → E → Result E (Unit {0})
raise_if true e = err e
raise_if false e = ok tt

pub Result-cases {ℓ} :
    {E A : Type ℓ} (r : Result E A) → ((a : A) × (r ≡ ok a)) ⊎ ((e : E) × (r ≡ err e))
Result-cases (ok a) = inl (a, refl)
Result-cases (err e) = inr (e, refl)

-- A chain that succeeds has succeeded in its first step.
pub bind-ok {ℓ} :
    {E A B : Type ℓ} (r : Result E A) (f : A → Result E B) (b : B)
    → (r >>= f) ≡ ok b
    → (a : A) × (r ≡ ok a) × (f a ≡ ok b)
bind-ok (ok a) f b e = (a, refl, e)
bind-ok (err x) f b e = absurd (ground (arith, e))

module _ {E : Type 0} where
  -- A check that does not raise has found its condition false.
  pub raise_if-ok :
      {A : Type 0} (c : Bool) (e : E) (k : Result E A) (a : A)
      → (raise_if c e >> k) ≡ ok a
      → (c ≡ false) × (k ≡ ok a)
  raise_if-ok true e k a h = absurd (ground (arith, h))
  raise_if-ok false e k a h = (refl, h)
