-- ===== src/Common/Outcome.antt =====
-- The outcome of a Go call that returns `(value, error)`.
use mathlib.Core.Path.{◌≡◌, refl}
use mathlib.Core.Logic.{◌⊎◌, inl, inr}

-- `panic` is a run-time panic (an index or slice bound out of range). `stuck` is no Go value: a
-- loop ran out of fuel.
pub data Outcome {ℓ} (E : Type 0) (A : Type ℓ) : Type ℓ where
  ok : A → Outcome E A
  err : E → Outcome E A
  panic : Outcome E A
  stuck : Outcome E A

infixl 5 ◌>>=◌
abbrev pub ◌>>=◌ {ℓ κ} :
    {E : Type 0} {A : Type ℓ} {B : Type κ} → Outcome E A → (A → Outcome E B) → Outcome E B
ok a >>= f = f a
err e >>= f = err e
panic >>= f = panic
stuck >>= f = stuck

-- A call that also changes an object, followed by another if it gave a value.
abbrev pub bind_state {ℓ κ} :
    {E : Type 0} {S : Type 0} {A : Type ℓ} {B : Type κ}
    → Outcome E A × S
    → (A → S → Outcome E B × S)
    → Outcome E B × S
bind_state (ok a, s) f = f a s
bind_state (err e, s) f = (err e, s)
bind_state (panic, s) f = (panic, s)
bind_state (stuck, s) f = (stuck, s)

-- To split on a computed outcome and keep the equation.
pub Outcome-cases {ℓ} :
    {E : Type 0} {A : Type ℓ} (r : Outcome E A)
    → ((a : A) × (r ≡ ok a)) ⊎ (((e : E) × (r ≡ err e)) ⊎ ((r ≡ panic) ⊎ (r ≡ stuck)))
Outcome-cases (ok a) = inl (a, refl)
Outcome-cases (err e) = inr (inl (e, refl))
Outcome-cases panic = inr (inr (inl refl))
Outcome-cases stuck = inr (inr (inr refl))
