-- ===== src/Common/Keeps.antt =====
-- Actions that keep a property of the object that they change.
use mathlib.Core.Path.{◌≡◌, refl}
use mathlib.Core.Bool.{Bool, true, false}
use btrsync.Common.Tests.{if◌then◌else◌}
use btrsync.Common.Outcome.{Outcome, ok, err, panic, stuck, bind_state}
use btrsync.Common.Action.{Action, ◌>>=◌, lift}

module _ {E S : Type 0} (Inv : S → Type 0) where
  abbrev pub Keeps : {A : Type 0} → Action E S A → Type 0
  Keeps m = (s : S) → Inv s → Inv ((m s).1)

  bind_state-Inv :
      {A B : Type 0} (p : Outcome E A × S) (k : A → Action E S B)
      → Inv p.1
      → ((a : A) → Keeps (k a))
      → Inv ((bind_state p k).1)
  bind_state-Inv (ok a, s) k h keeps = keeps a s h
  bind_state-Inv (err e, s) k h keeps = h
  bind_state-Inv (panic, s) k h keeps = h
  bind_state-Inv (stuck, s) k h keeps = h

  pub bind-Keeps :
      {A B : Type 0} (m : Action E S A) (k : A → Action E S B)
      → Keeps m
      → ((a : A) → Keeps (k a))
      → Keeps (m >>= k)
  bind-Keeps m k hm hk s h = bind_state-Inv (m s) k (hm s h) hk

-- A property of the value that a call gives, if it gives one.
abbrev pub Holds : {E A : Type 0} → (A → Type 0) → Outcome E A → Type 0
Holds Q (ok a) = Q a
Holds Q (err e) = Unit
Holds Q panic = Unit
Holds Q stuck = Unit

-- Actions that keep a property of the object and give values with another.
module _ {E S : Type 0} (Inv : S → Type 0) where
  abbrev pub Gives : {A : Type 0} → (A → Type 0) → Action E S A → Type 0
  Gives Q m = (s : S) → Inv s → Inv ((m s).1) × Holds Q ((m s).0)

  bind_state-Gives :
      {A B : Type 0} (Q : A → Type 0) (R : B → Type 0) (p : Outcome E A × S) (k : A → Action E S B)
      → Inv p.1
      → Holds Q p.0
      → ((a : A) → Q a → Gives R (k a))
      → Inv ((bind_state p k).1) × Holds R ((bind_state p k).0)
  bind_state-Gives Q R (ok a, s) k h q gives = gives a q s h
  bind_state-Gives Q R (err e, s) k h q gives = (h, tt)
  bind_state-Gives Q R (panic, s) k h q gives = (h, tt)
  bind_state-Gives Q R (stuck, s) k h q gives = (h, tt)

  pub bind-Gives :
      {A B : Type 0} (Q : A → Type 0) (R : B → Type 0) (m : Action E S A) (k : A → Action E S B)
      → Gives Q m
      → ((a : A) → Q a → Gives R (k a))
      → Gives R (m >>= k)
  bind-Gives Q R m k hm hk s h = bind_state-Gives Q R (m s) k ((hm s h).0) ((hm s h).1) hk

  -- Either way of a test.
  pub if-Gives :
      {A : Type 0} (Q : A → Type 0) (b : Bool) (m n : Action E S A)
      → (b ≡ true → Gives Q m)
      → (b ≡ false → Gives Q n)
      → Gives Q (if b then m else n)
  if-Gives Q true m n hm hn = hm refl
  if-Gives Q false m n hm hn = hn refl

pub lift-Gives :
    (E : Type 0) {S A : Type 0} (Inv : S → Type 0) (Q : A → Type 0) (a : A)
    → Q a
    → Gives {E = E} Inv Q (lift (ok a))
lift-Gives E Inv Q a q s h = (h, q)
