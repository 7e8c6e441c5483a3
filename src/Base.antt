-- ===== src/Base.antt =====
-- The names that every module of the library shares: those of the libraries, passed on, the tests
-- on numbers, Go's integers and byte strings.
mod Tests
mod Text
mod Lists
pub mod Split
pub mod Order
pub mod Suffix
pub mod Path
unfoldable pub use Tests.*
unfoldable pub use Text.*
unfoldable pub use Lists.*
unfoldable pub use Split.*
pub use Prim.Native.Nat.{ℕ, zero, suc, ◌+◌, ◌-◌, ◌*◌, ◌/◌, ◌%◌, ◌^◌, ◌≤◌, ◌<◌}
pub use Prim.Native.String.{String}
pub use mathlib.Core.Path.{◌≡◌, refl, sym, ap, subst, ◌∙◌}
pub use mathlib.Core.Logic.{◌≢◌, ◌↔◌, ◌⊎◌, inl, inr}
pub use mathlib.Core.Bool.{Bool, true, false, not, ◌&&◌, ◌||◌}
pub use mathlib.Core.Option.{Option, none, some}
pub use mathlib.Core.List.{List, [], ◌∷◌, ◌++◌, map}
pub use native.Mathlib.Omega.{arith}
