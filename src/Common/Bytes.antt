-- ===== src/Common/Bytes.antt =====
-- Byte strings, and what `encoding/binary` does with `binary.LittleEndian` on unsigned integers.
use Prim.Native.Nat.{ℕ, zero, suc, ◌+◌, ◌*◌, ◌/◌, ◌%◌, ◌^◌, ◌<◌}
use mathlib.Core.Path.{◌≡◌, refl, ap}
use mathlib.Core.List.{List, [], ◌∷◌}
use native.Mathlib.Omega.{arith}
use native.Mathlib.Nat.{pow-suc}
use mathlib.Core.Bool.{Bool, true, false, ◌&&◌}
use mathlib.Core.Logic.{◌↔◌}
use btrsync.Common.Lists.{length, All}
use btrsync.Common.Tests.{◌==◌}

-- A Go string or byte slice: its bytes, each below 256.
abbrev pub Bytes : Type 0
Bytes = List ℕ

abbrev pub IsByte : ℕ → Type 0
IsByte b = b < 256

-- `PutUint16`, `PutUint32` and `PutUint64` write the `n` low bytes of a value, lowest first.
unfoldable pub put_uint : ℕ → ℕ → Bytes
put_uint zero v = []
put_uint (suc n) v = (v % 256) ∷ put_uint n (v / 256)

-- The number that bytes stand for, lowest first.
unfoldable pub le_value : Bytes → ℕ
le_value [] = 0
le_value (b ∷ bs) = b + 256 * le_value bs

pub length-put_uint : (n v : ℕ) → length (put_uint n v) ≡ n
unfolding put_uint
length-put_uint zero v = refl
length-put_uint (suc n) v = ap suc (length-put_uint n (v / 256))

pub put_uint-IsByte : (n v : ℕ) → All IsByte (put_uint n v)
unfolding put_uint
put_uint-IsByte zero v = tt
put_uint-IsByte (suc n) v = (omega arith, put_uint-IsByte n (v / 256))

-- Reading back what was written, for a value that fits in the bytes.
pub le_value-put_uint : (n v : ℕ) → v < 256 ^ n → le_value (put_uint n v) ≡ v
unfolding le_value put_uint
le_value-put_uint zero v h = omega arith
le_value-put_uint (suc n) v h =
    omega (arith, le_value-put_uint n (v / 256) (grind (arith, pow-suc 256 n)))

-- Go's `==` on strings and arrays of bytes.
unfoldable pub bytes_eq : Bytes → Bytes → Bool
bytes_eq [] [] = true
bytes_eq [] (b ∷ bs) = false
bytes_eq (a ∷ as') [] = false
bytes_eq (a ∷ as') (b ∷ bs) = a == b && bytes_eq as' bs

pub bytes_eq_iff : (xs ys : Bytes) → (bytes_eq xs ys ≡ true) ↔ (xs ≡ ys)
unfolding bytes_eq
bytes_eq_iff [] [] = ((λ h. refl), (λ h. refl))
bytes_eq_iff [] (b ∷ bs) = ((λ h. cc), (λ h. cc))
bytes_eq_iff (a ∷ xs) [] = ((λ h. cc), (λ h. cc))
bytes_eq_iff (a ∷ xs) (b ∷ ys) =
    ((λ h. ground (arith, bytes_eq_iff xs ys)), (λ h. ground (arith, bytes_eq_iff xs ys)))
