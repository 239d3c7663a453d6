-- ===== src/Common.antt =====
-- The names that every component shares: those of the libraries, and those of the children.
mod Bools
mod Equality
mod Texts
mod Lists
mod Results
mod Int
pub mod Sets
pub mod Maps
pub mod Sorting
pub mod Permutation
pub mod TextOrder
pub use Prim.Native.Nat.{ℕ, zero, suc, ◌+◌, ◌-◌, ◌*◌, ◌/◌, ◌%◌, ◌^◌, ◌≤◌, ◌<◌, min, max}
pub use mathlib.Core.Path.{◌≡◌, refl, sym, ap, ◌∙◌}
pub use mathlib.Core.Logic.{◌≢◌, ◌↔◌, ◌⊎◌, inl, inr}
pub use mathlib.Core.Bool.{Bool, true, false, not, ◌&&◌, ◌||◌}
pub use mathlib.Core.Option.{Option, none, some}
pub use mathlib.Core.List.{List, [], ◌∷◌, ◌++◌, map, reverse}
pub use native.Mathlib.Omega.{arith}
pub use Bools.*
unfoldable pub use Int.*
pub use Results.*
pub use Equality.*
unfoldable pub use Texts.*
unfoldable pub use Lists.*
