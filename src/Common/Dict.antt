-- ===== src/Common/Dict.antt =====
-- A Go map with numeric keys, as its entries in the order in which one iteration visits them. Go
-- leaves that order open, so a statement about every list with distinct keys is one about every order.
use Prim.Native.Nat.{ℕ}
use mathlib.Core.Path.{◌≡◌, refl}
use mathlib.Core.Option.{Option, none, some, or_else}
use mathlib.Core.List.{List, [], ◌∷◌, ◌++◌}
use native.Mathlib.Omega.{arith}
use btrsync.Common.Tests.{◌==◌, if◌then◌else◌}

module _ {ℓ} {V : Type ℓ} where
  unfoldable pub lookup : ℕ → List (ℕ × V) → Option V
  lookup key [] = none
  lookup key ((k, value) ∷ rest) = if k == key then some value else lookup key rest

  -- `m[k] = v`
  unfoldable pub insert : ℕ → V → List (ℕ × V) → List (ℕ × V)
  insert key new [] = (key, new) ∷ []
  insert key new ((k, value) ∷ rest) =
      if k == key then (key, new) ∷ rest else (k, value) ∷ insert key new rest

  -- The entries in order, inserted one after the other.
  unfoldable pub insert_all : List (ℕ × V) → List (ℕ × V) → List (ℕ × V)
  insert_all [] m = m
  insert_all ((k, v) ∷ es) m = insert_all es (insert k v m)

  -- No key is listed twice.
  abbrev pub NodupKeys : List (ℕ × V) → Type ℓ
  NodupKeys [] = Unit {ℓ}
  NodupKeys ((k, v) ∷ m) = (lookup k m ≡ none) × NodupKeys m

  pub lookup-insert :
      (key asked : ℕ) (new : V) (entries : List (ℕ × V))
      → lookup asked (insert key new entries)
        ≡ (if key == asked then some new else lookup asked entries)
  unfolding lookup insert
  lookup-insert key asked new [] = refl
  lookup-insert key asked new (e ∷ rest) = ground (arith, lookup-insert key asked new rest)

  pub lookup-append_absent :
      (k : ℕ) (m n : List (ℕ × V)) → lookup k m ≡ none → lookup k (m ++ n) ≡ lookup k n
  unfolding lookup
  lookup-append_absent k [] n h = refl
  lookup-append_absent k ((j, w) ∷ m) n h = ground (arith, lookup-append_absent k m n)

  pub insert-absent :
      (k : ℕ) (v : V) (m : List (ℕ × V)) → lookup k m ≡ none → insert k v m ≡ m ++ ((k, v) ∷ [])
  unfolding lookup insert
  insert-absent k v [] h = refl
  insert-absent k v ((j, w) ∷ m) h = ground (arith, insert-absent k v m)

  -- Entries with distinct keys, inserted in any order, stand before what was there.
  pub lookup-insert_all :
      (j : ℕ) (es m : List (ℕ × V))
      → NodupKeys es
      → lookup j (insert_all es m) ≡ or_else (lookup j es) (lookup j m)
  unfolding lookup insert_all or_else
  lookup-insert_all j [] m u = refl
  lookup-insert_all j ((k, v) ∷ es) m (absent, u) =
      ground (arith, lookup-insert_all j es (insert k v m) u, lookup-insert k j v m)
