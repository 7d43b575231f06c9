-- ===== src/Common/Paths.antt =====
-- Text and paths: what the code uses of the packages `strings` and `path/filepath`.
use Prim.Native.Nat.{ℕ}
use mathlib.Core.Bool.{Bool, true, false, ◌&&◌, ◌||◌}
use mathlib.Core.List.{List, [], ◌∷◌}
use btrsync.Common.Tests.{◌==◌}
use btrsync.Common.Bytes.{Bytes, bytes_eq}

-- `filepath.Join`, `filepath.Base` and `filepath.Dir` of the standard library.
pub record Paths : Type 0 where
  pub join : List Bytes → Bytes
  pub base : Bytes → Bytes
  pub dir : Bytes → Bytes

-- `s == ""`
unfoldable pub is_empty : Bytes → Bool
is_empty [] = true
is_empty (b ∷ s) = false

-- `strings.Contains` of a text of one byte.
unfoldable pub contains_byte : Bytes → ℕ → Bool
contains_byte [] x = false
contains_byte (b ∷ s) x = b == x || contains_byte s x

-- `strings.HasPrefix`
unfoldable pub has_prefix : Bytes → Bytes → Bool
has_prefix s [] = true
has_prefix [] (p ∷ prefix) = false
has_prefix (b ∷ s) (p ∷ prefix) = b == p && has_prefix s prefix

-- Whether a text is one of a list, by a loop over it.
unfoldable pub contains_text : List Bytes → Bytes → Bool
contains_text [] name = false
contains_text (n ∷ names) name = bytes_eq n name || contains_text names name
