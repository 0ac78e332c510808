-- ===== src/Base.antt =====
-- The names that the modules share: the libraries', passed on, and those of the children.
-- Tests and the conditional (Tests), lists (Lists), string-keyed maps (Dict), machine words (Word),
-- the interface to `double` (Double), a carrier for it (Fixed), decimal digits (Decimal) and
-- counted identifiers (Fresh).
mod Tests
mod Lists
pub mod Selects
pub mod Dict
pub mod Word
pub mod Double
pub mod Decimal
pub mod Fresh
pub mod Fixed
pub mod Bytes
pub mod Ordered
pub mod Erase
pub use Tests.*
pub use Lists.*
pub use Prim.Native.Nat.{ℕ, zero, suc, ◌+◌, ◌-◌, ◌*◌, ◌/◌, ◌%◌, ◌^◌, ◌≤◌, ◌<◌, min}
pub use Prim.Native.String.{String}
pub use mathlib.Core.Path.{◌≡◌, refl, sym, ap, ◌∙◌}
pub use mathlib.Core.Logic.{◌≢◌, ◌↔◌, ◌⊎◌, inl, inr}
pub use mathlib.Core.Bool.{Bool, true, false, not, ◌&&◌, ◌||◌}
pub use mathlib.Core.Option.{Option, none, some}
pub use mathlib.Core.List.{List, [], ◌∷◌, ◌++◌, map}
pub use native.Mathlib.Omega.{arith}
pub use text.Mathlib.Text.{◌==◌ as str_eq}
pub use text.Mathlib.TextEquality.{eq_iff}
