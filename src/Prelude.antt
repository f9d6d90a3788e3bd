-- ===== src/Prelude.antt =====
-- The names that the other modules share: the libraries', passed on, and those of the children.
mod Tests
mod Lists
mod Table
pub mod Int
pub mod Text
pub use Tests.*
pub use Lists.*
unfoldable pub use Table.*
pub use Prim.Native.Nat.{ℕ, zero, suc, ◌+◌, ◌-◌, ◌*◌, ◌/◌, ◌%◌, ◌^◌, ◌≤◌, ◌<◌, min, max}
pub use mathlib.Core.Path.{◌≡◌, refl, sym, ap, subst, ◌∙◌}
pub use mathlib.Core.Logic.{◌≢◌, ◌↔◌, ◌⊎◌, inl, inr}
pub use mathlib.Core.Bool.{Bool, true, false, not, ◌&&◌, ◌||◌}
pub use mathlib.Core.Option.{Option, none, some}
pub use mathlib.Core.List.{List, [], ◌∷◌, ◌++◌, map}
pub use native.Mathlib.Omega.{arith}
