-- ===== src/Base.antt =====
-- The names that the other modules share.
mod Equality
mod Tests
pub mod Dict
pub mod Select
pub mod Text
pub use Equality.{Eq, ◌==◌, ==_refl, eq-of-==, contains}
unfoldable pub use Equality.{option_eq, string_eq, nat_eq, bool_eq, string_discrete}
pub use Tests.*
pub use Prim.Native.Nat.{ℕ, zero, suc, ◌+◌, ◌-◌, ◌≤◌, ◌<◌}
pub use Prim.Native.String.{String, ◌++◌ as ◌<>◌}
pub use mathlib.Core.Path.{◌≡◌, refl, sym, ap, ◌∙◌}
pub use mathlib.Core.Logic.{◌≢◌, ◌↔◌, ◌⊎◌, inl, inr}
pub use mathlib.Core.Bool.{Bool, true, false, not, ◌&&◌, ◌||◌}
pub use mathlib.Core.Option.{Option, none, some}
pub use mathlib.Core.List.{List, [], ◌∷◌, ◌++◌, map}
pub use native.Mathlib.Omega.{arith}
