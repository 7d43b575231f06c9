-- ===== src/Common.antt =====
-- Names shared by all parts: the libraries', passed on, with tests on numbers, lists measured by
-- native numbers, byte strings, finite maps and the outcome of a Go call.
mod Tests
mod Lists
pub mod Bytes
pub mod Outcome
pub mod Action
pub mod Keeps
pub mod Dict
pub mod Texts
pub mod Bits
pub mod Int
pub mod Paths
pub use Tests.*
pub use Lists.*
pub use Prim.Native.Nat.{ℕ, zero, suc, ◌+◌, ◌-◌, ◌*◌, ◌/◌, ◌%◌, ◌^◌, ◌≤◌, ◌<◌}
pub use mathlib.Core.Path.{◌≡◌, refl, sym, ap, ◌∙◌, ◌≡⟨◌⟩◌, ◌∎}
pub use mathlib.Core.Logic.{◌≢◌, ◌↔◌, ◌⊎◌, inl, inr}
pub use mathlib.Core.Bool.{Bool, true, false, not, ◌&&◌, ◌||◌}
pub use mathlib.Core.Option.{Option, none, some}
pub use mathlib.Core.List.{List, [], ◌∷◌, ◌++◌, map, append-nil, append_assoc}
pub use native.Mathlib.Omega.{arith}
