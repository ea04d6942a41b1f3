-- ===== src/Common.antt =====
-- What the modules share: library names passed on, equality by instances, lists measured by the
-- native numbers, and results of fallible code.
mod Tests
mod Lists
mod Results
mod Traverse
pub mod Sort
pub mod Lex
pub mod Text
pub mod Arrays
pub mod Int
pub use Tests.*
unfoldable pub use Lists.*
unfoldable pub use Results.*
pub use Traverse.*
pub use Prim.Native.Nat.{ℕ, zero, suc, ◌+◌, ◌-◌, ◌*◌, ◌≤◌, ◌<◌, min, max}
pub use Prim.Native.String.{String}
pub use mathlib.Core.Path.{◌≡◌, refl, sym, ap, ◌∙◌, subst}
pub use mathlib.Core.Logic.{◌≢◌, ◌↔◌, ◌⊎◌, inl, inr}
pub use mathlib.Core.Bool.{Bool, true, false, not, ◌&&◌, ◌||◌}
pub use mathlib.Core.Option.{Option, none, some}
pub use mathlib.Core.List.{List, [], ◌∷◌, ◌++◌, map, Memᴰ, flatten}
pub use native.Mathlib.Omega.{arith}
