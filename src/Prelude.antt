-- ===== src/Prelude.antt =====
-- Names and lemmas that the components share: the libraries' names, passed on, Boolean tests on
-- native numbers, and vectors as lists indexed by native numbers.
mod Tests
mod Lists
mod Ranges
pub mod Maps
pub mod Int
pub mod Bits
pub use Tests.*
pub use Lists.*
pub use Ranges.*
pub use Prim.Native.Nat.{ℕ, zero, suc, ◌+◌, ◌-◌, ◌*◌, ◌/◌, ◌%◌, ◌^◌, ◌≤◌, ◌<◌}
pub use mathlib.Core.Path.{◌≡◌, refl, sym, ap, subst, ◌∙◌}
pub use mathlib.Core.Logic.{◌≢◌, ◌↔◌, ◌⊎◌, inl, inr}
pub use mathlib.Core.Bool.{Bool, true, false, not, ◌&&◌, ◌||◌}
pub use mathlib.Core.Option.{Option, none, some}
pub use mathlib.Core.List.{List, [], ◌∷◌, ◌++◌, map}
pub use native.Mathlib.Omega.{arith}
