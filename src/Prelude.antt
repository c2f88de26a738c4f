-- ===== src/Prelude.antt =====
-- The names that the components share: the libraries', passed on, and those of four children.
mod Tests
mod Lists
pub mod Bits
mod Fallible
mod Words
pub use Tests.*
pub use Lists.*
pub use Fallible.*
pub use Words.*
pub use Prim.Native.Nat.{ℕ, zero, suc, ◌+◌, ◌-◌, ◌*◌, ◌/◌, ◌%◌, ◌^◌, ◌≤◌, ◌<◌, bit_and, bit_or}
pub use mathlib.Core.Path.{◌≡◌, refl, sym, ap, ◌∙◌}
pub use mathlib.Core.Logic.{◌≢◌, ◌↔◌, ◌⊎◌, inl, inr}
pub use mathlib.Core.Bool.{Bool, true, false, not, ◌&&◌, ◌||◌}
pub use mathlib.Core.Option.{Option, none, some}
pub use mathlib.Core.List.{List, [], ◌∷◌, ◌++◌, map, flat_map, append_assoc, append-nil}
pub use native.Mathlib.Omega.{arith}
