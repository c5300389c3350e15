-- ===== src/Common.antt =====
-- Names that every module shares: the libraries', passed on, and those of the children below.
-- `Tests` has Boolean tests and the conditional, `Lists` the lists over native numbers, `Text` the
-- byte strings, and `Decimal` the C++ library's `std::to_string` on unsigned numbers.
mod Tests
mod Lists
mod Text
pub mod Decimal
pub mod Order
pub mod Sort
pub use Tests.*
pub use Lists.*
unfoldable pub use Text.*
pub use Prim.Native.Nat.{ℕ, zero, suc, ◌+◌, ◌-◌, ◌*◌, ◌/◌, ◌%◌, ◌^◌, ◌≤◌, ◌<◌, min, max}
pub use mathlib.Core.Path.{◌≡◌, refl, sym, ap, ◌∙◌, subst}
pub use mathlib.Core.Logic.{◌≢◌, ◌↔◌, ◌⊎◌, inl, inr}
pub use mathlib.Core.Bool.{Bool, true, false, not, ◌&&◌, ◌||◌}
pub use mathlib.Core.Option.{Option, none, some}
pub use mathlib.Core.List.{List, [], ◌∷◌, ◌++◌, map, foldl, append-nil, append_assoc}
pub use native.Mathlib.Omega.{arith}
