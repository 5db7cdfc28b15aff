-- ===== src/Base.antt =====
-- The names that the other modules share: library names passed on, Boolean tests on the native
-- numbers, signed integers, and the result of an action.
mod Tests
mod Int
mod Outcome
mod Parse
mod Print
mod Fields
mod Digits
pub use Tests.*
unfoldable pub use Int.*
pub use Outcome.*
unfoldable pub use Parse.*
unfoldable pub use Print.*
pub use Fields.*
pub use Digits.*
pub use Prim.Native.Nat.{ℕ, zero, suc, ◌+◌, ◌-◌, ◌*◌, ◌/◌, ◌%◌, ◌^◌, ◌≤◌, ◌<◌, min}
pub use mathlib.Core.Path.{◌≡◌, refl, sym, ap, ◌∙◌}
pub use mathlib.Core.Logic.{◌≢◌, ◌↔◌, ◌⊎◌, inl, inr}
pub use mathlib.Core.Bool.{Bool, true, false, not, ◌&&◌, ◌||◌}
pub use mathlib.Core.Option.{Option, none, some}
pub use mathlib.Core.List.{List, [], ◌∷◌, ◌++◌, map}
pub use native.Mathlib.Omega.{arith}
