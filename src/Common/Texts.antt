-- ===== src/Common/Texts.antt =====
-- A Go map with texts as keys, as its entries in the order of one iteration.
use mathlib.Core.Path.{◌≡◌, refl, ap, sym, ◌∙◌}
use mathlib.Core.Logic.{◌≢◌, inl, inr}
use mathlib.Core.Bool.{true, false}
use mathlib.Core.Option.{Option, none, some}
use mathlib.Core.List.{List, [], ◌∷◌}
use native.Mathlib.Omega.{arith}
use btrsync.Common.Tests.{Bool-cases, if◌then◌else◌}
use btrsync.Common.Bytes.{Bytes, bytes_eq, bytes_eq_iff}

module _ {V : Type 0} where
  unfoldable pub get_text : Bytes → List (Bytes × V) → Option V
  get_text key [] = none
  get_text key ((k, v) ∷ rest) = if bytes_eq k key then some v else get_text key rest

  -- `delete(m, key)`
  unfoldable pub delete_text : Bytes → List (Bytes × V) → List (Bytes × V)
  delete_text key [] = []
  delete_text key ((k, v) ∷ rest) =
      let others = delete_text key rest in if bytes_eq k key then others else (k, v) ∷ others

  -- `m[key] = v`
  unfoldable pub set_text : Bytes → V → List (Bytes × V) → List (Bytes × V)
  unfolding delete_text
  set_text key v m = (key, v) ∷ delete_text key m

true≢false : true ≢ false
true≢false h = cc

bytes_eq_trans : (a b c : Bytes) → bytes_eq a b ≡ true → bytes_eq a c ≡ bytes_eq b c
bytes_eq_trans a b c e = ap (λ x. bytes_eq x c) ((bytes_eq_iff a b).0 e)

bytes_eq_flip : (a b c : Bytes) → bytes_eq a b ≡ false → bytes_eq a c ≡ true → bytes_eq b c ≡ false
bytes_eq_flip a b c e f = elim (Bool-cases (bytes_eq b c)) [
  | inl g ↦ absurd (
      true≢false
        (sym ((bytes_eq_iff a b).1 ((bytes_eq_iff a c).0 f ∙ sym ((bytes_eq_iff b c).0 g))) ∙ e))
  | inr g ↦ g
]

module _ {V : Type 0} where
  pub get_text-delete_text :
      (key name : Bytes) (m : List (Bytes × V))
      → get_text name (delete_text key m) ≡ (if bytes_eq key name then none else get_text name m)
  unfolding get_text delete_text
  get_text-delete_text key name [] = elim (Bool-cases (bytes_eq key name)) [
    | inl e ↦ rw e refl
    | inr e ↦ rw e refl
  ]
  get_text-delete_text key name ((k, v) ∷ m) = elim (Bool-cases (bytes_eq k key)) [
    | inl e ↦ ground (arith, e, get_text-delete_text key name m, bytes_eq_trans k key name e)
    | inr e ↦ elim (Bool-cases (bytes_eq k name)) [
      | inl f ↦ ground (arith, e, f, get_text-delete_text key name m, bytes_eq_flip k key name e f)
      | inr f ↦ ground (arith, e, f, get_text-delete_text key name m)
    ]
  ]

  pub get_text-set_text :
      (key name : Bytes) (v : V) (m : List (Bytes × V))
      → get_text name (set_text key v m) ≡ (if bytes_eq key name then some v else get_text name m)
  unfolding get_text set_text
  get_text-set_text key name v m = ground (arith, get_text-delete_text key name m)
