-- ===== src/Base.antt =====
-- The names that every module shares: the libraries', passed on, and those of the children:
-- Boolean tests (`Base.Tests`), lists measured by native numbers (`Base.Lists`) and byte strings,
-- the model of `std::string` (`Base.Text`), with the numbers in them (`Base.Numbers`).
mod Tests
mod Lists
mod Text
mod Numbers
pub use Tests.*
pub use Lists.*
unfoldable pub use Text.*
unfoldable pub use Numbers.*
pub use Prim.Native.Nat.{ℕ, zero, suc, ◌+◌, ◌-◌, ◌*◌, ◌/◌, ◌%◌, ◌^◌, ◌≤◌, ◌<◌}
pub use mathlib.Core.Path.{◌≡◌, refl, sym, ap, ◌∙◌}
pub use mathlib.Core.Logic.{◌≢◌, ◌↔◌, ◌⊎◌, inl, inr}
pub use mathlib.Core.Bool.{Bool, true, false, not, ◌&&◌, ◌||◌}
pub use mathlib.Core.Option.{Option, none, some}
pub use mathlib.Core.List.{List, [], ◌∷◌, ◌++◌, map}
pub use native.Mathlib.Omega.{arith}
