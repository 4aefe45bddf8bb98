-- ===== src/Prelude.antt =====
-- The names that the other modules share: the libraries', passed on, and those of the children.
mod Tests
mod Equality
mod Lists
mod Selections
mod Membership
mod Results
mod Outcomes
mod Dict
mod Sorting
pub use Tests.*
pub use Equality.*
pub use Lists.*
pub use Selections.*
pub use Membership.*
pub use Results.*
pub use Outcomes.*
pub use Dict.*
pub use Sorting.*
pub use Prim.Native.Nat.{ℕ, zero, suc, ◌+◌, ◌-◌, ◌*◌, ◌/◌, ◌%◌, ◌≤◌, ◌<◌, min}
pub use Prim.Native.String.{String}
pub use mathlib.Core.Path.{◌≡◌, refl, sym, ap, ◌∙◌, subst}
pub use mathlib.Core.Logic.{◌≢◌, ◌↔◌, ◌⊎◌, inl, inr}
pub use mathlib.Core.Bool.{Bool, true, false, not, ◌&&◌, ◌||◌}
pub use mathlib.Core.Option.{Option, none, some}
pub use mathlib.Core.List.{List, [], ◌∷◌, ◌++◌, map, append_assoc, append-nil, map-append}
pub use native.Mathlib.Omega.{arith}
