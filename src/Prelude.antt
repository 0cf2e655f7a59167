-- ===== src/Prelude.antt =====
-- The names that every other module shares: the library's, passed on, and those of the children
-- (tests on numbers, lists measured by native numbers, dictionaries, text).
mod Tests
mod Lists
pub mod Cuts
pub mod Int
pub mod Dict
pub mod Exec
pub mod Chars
pub mod Text
pub mod Rows
pub mod Reversed
pub mod Groups
pub mod Selected
pub use Tests.*
pub use Lists.*
pub use Prim.Native.Nat.{ℕ, zero, suc, ◌+◌, ◌-◌, ◌*◌, ◌/◌, ◌%◌, ◌≤◌, ◌<◌}
pub use Prim.Native.String.{String}
pub use mathlib.Core.Path.{◌≡◌, refl, sym, ap, ◌∙◌}
pub use mathlib.Core.Logic.{◌≢◌, ◌↔◌, ◌⊎◌, inl, inr}
pub use mathlib.Core.Bool.{Bool, true, false, not, ◌&&◌, ◌||◌}
pub use mathlib.Core.Option.{Option, none, some}
pub use mathlib.Core.List.{List, [], ◌∷◌, ◌++◌, map}
pub use native.Mathlib.Omega.{arith}
pub use text.Mathlib.Text.{◌==◌ as str_eq}
pub use text.Mathlib.TextEquality.{eq_iff}
