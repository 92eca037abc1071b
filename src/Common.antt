-- ===== src/Common.antt =====
-- The names that every module shares: the libraries' names, and those of the child modules.
mod Tests
mod Lists
mod Chars
mod Sort
mod TextLaws
mod Effects
pub use Tests.*
pub use Lists.*
unfoldable pub use Chars.*
unfoldable pub use Sort.*
pub use TextLaws.*
pub use Effects.*
pub use Prim.Native.Nat.{ℕ, zero, suc, ◌+◌, ◌-◌, ◌*◌, ◌/◌, ◌%◌, ◌≤◌, ◌<◌}
pub use mathlib.Core.Path.{◌≡◌, refl, sym, ap, ◌∙◌}
pub use mathlib.Core.Logic.{◌≢◌, ◌↔◌, ◌⊎◌, inl, inr}
pub use mathlib.Core.Bool.{Bool, true, false, not, ◌&&◌, ◌||◌}
pub use mathlib.Core.Option.{Option, none, some}
pub use mathlib.Core.List.{List, [], ◌∷◌, ◌++◌, map}
pub use native.Mathlib.Omega.{arith}
