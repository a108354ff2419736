-- ===== src/Common.antt =====
-- The names that every module shares: the libraries' own, passed on, and those of the children.
mod Tests
mod Lists
mod Tables
mod Results
mod Keys
mod Deletes
mod Unique
mod Found
mod Int
pub use Tests.*
pub use Lists.*
pub use Tables.*
pub use Results.*
pub use Keys.*
pub use Deletes.*
pub use Unique.*
pub use Found.*
pub use Int.*
pub use Prim.Native.Nat.{ℕ, zero, suc, ◌+◌, ◌-◌, ◌*◌, ◌/◌, ◌%◌, ◌^◌, ◌≤◌, ◌<◌, min, max}
pub use mathlib.Core.Path.{◌≡◌, refl, sym, ap, ◌∙◌, subst}
pub use mathlib.Core.Logic.{◌≢◌, ◌↔◌, ◌⊎◌, inl, inr}
pub use mathlib.Core.Bool.{Bool, true, false, ◌&&◌, ◌||◌, not}
pub use mathlib.Core.Option.{Option, none, some}
pub use mathlib.Core.List.{List, [], ◌∷◌, ◌++◌, map, Memᴰ}
pub use native.Mathlib.Omega.{arith}
