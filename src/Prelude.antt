-- ===== src/Prelude.antt =====
-- The names that all modules share: library names passed on, tests, lists, bytes and results.
pub mod Tests
pub mod Lists
pub mod ByteString
pub mod Outcome
pub mod Sort
pub mod Decimal
pub mod Strings
pub mod Search
pub mod Last
pub use Tests.*
pub use Lists.*
unfoldable pub use ByteString.*
unfoldable pub use Outcome.*
unfoldable pub use Sort.*
unfoldable pub use Decimal.*
unfoldable pub use Strings.*
unfoldable pub use Search.*
unfoldable pub use Last.*
pub use Prim.Native.Nat.{ℕ, zero, suc, ◌+◌, ◌-◌, ◌*◌, ◌/◌, ◌%◌, ◌^◌, ◌≤◌, ◌<◌}
pub use Prim.Native.String.{String}
pub use mathlib.Core.Path.{◌≡◌, refl, sym, ap, ap₂, ◌∙◌, subst}
pub use mathlib.Core.Logic.{◌≢◌, ◌↔◌, ◌⊎◌, inl, inr}
pub use mathlib.Core.Bool.{Bool, true, false, not, ◌&&◌, ◌||◌}
pub use mathlib.Core.Option.{Option, none, some}
pub use mathlib.Core.List.{List, [], ◌∷◌, ◌++◌, map}
pub use native.Mathlib.Omega.{arith}
