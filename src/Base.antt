-- ===== src/Base.antt =====
-- Names that all modules share: the libraries' names, Boolean tests, lists measured by native
-- numbers, results, integers, little-endian bytes, and ordered keys.
mod Tests
mod Lists
pub mod Result
pub mod Maybe
pub mod Int
pub mod Ord
pub mod Bytes
pub mod Encoding
pub mod Powers
pub use Tests.*
pub use Lists.*
pub use Prim.Native.Nat.{ℕ, zero, suc, ◌+◌, ◌-◌, ◌*◌, ◌/◌, ◌%◌, ◌^◌, ◌≤◌, ◌<◌}
pub use mathlib.Core.Path.{◌≡◌, refl, sym, ap, ap₂, ◌∙◌, subst}
pub use mathlib.Core.Logic.{◌≢◌, ◌↔◌, ◌⊎◌, inl, inr}
pub use mathlib.Core.Bool.{Bool, true, false, not, ◌&&◌, ◌||◌}
pub use mathlib.Core.Option.{Option, none, some}
pub use mathlib.Core.List.{List, [], ◌∷◌, ◌++◌, map, reverse}
pub use mathlib.Core.List.{append-nil, append_assoc, map-append}
pub use native.Mathlib.Omega.{arith}
