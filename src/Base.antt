-- ===== src/Base.antt =====
-- What the modules share: the libraries' names passed on, tests, C arrays as lists, C ints.
mod Tests
mod Lists
mod Int
mod Text
mod Tables
pub use Tests.*
pub use Lists.*
pub use Text.{codes}
unfoldable pub use Tables.{passes}
pub use Tables.{passes_below}
pub use Int.{ℤ, pos, negsuc, minus_one}
pub use Prim.Native.Nat.{ℕ, zero, suc, ◌+◌, ◌-◌, ◌*◌, ◌/◌, ◌%◌, ◌^◌, ◌≤◌, ◌<◌, min}
pub use mathlib.Core.Path.{◌≡◌, refl, sym, ap, ap₂, ◌∙◌}
pub use mathlib.Core.Logic.{◌≢◌, ◌↔◌, ◌⊎◌, inl, inr}
pub use mathlib.Core.Bool.{Bool, true, false, not, ◌&&◌, ◌||◌}
pub use mathlib.Core.Option.{Option, none, some}
pub use mathlib.Core.List.{List, [], ◌∷◌, ◌++◌, map, append-nil, append_assoc}
pub use native.Mathlib.Omega.{arith}
