-- ===== src/Common/Action.antt =====
-- Actions that change an object and return `(value, error)`, for `do` blocks.
use btrsync.Common.Outcome.{Outcome, bind_state}

abbrev pub Action : Type 0 → Type 0 → Type 0 → Type 0
Action E S A = S → Outcome E A × S

infixl 5 ◌>>=◌ ◌>>◌
abbrev pub ◌>>=◌ : {E S A B : Type 0} → Action E S A → (A → Action E S B) → Action E S B
◌>>=◌ m f c = bind_state (m c) f

abbrev pub ◌>>◌ : {E S B : Type 0} → Action E S (Unit {0}) → Action E S B → Action E S B
◌>>◌ m k c = bind_state (m c) (λ _. k)

-- A value, an error or a panic that does not touch the object.
abbrev pub lift : {E S A : Type 0} → Outcome E A → Action E S A
lift r c = (r, c)
