-- ===== src/Prelude.antt =====
-- Names that the other modules share: the libraries' names passed on, Boolean tests, lists over
-- the native numbers, decidable equality of keys, and Python's `dict` and `set`.
pub mod Tests
pub mod Lists
pub mod Slices
pub mod Eq
pub mod Dict
pub mod Set
pub mod Texts
pub mod Regex
pub mod RegexChars
pub mod Decimal
pub mod Words
pub mod Segments
unfoldable pub use Tests.*
unfoldable pub use Lists.*
unfoldable pub use Eq.*
pub use Prim.Native.Nat.{ℕ, zero, suc, ◌+◌, ◌-◌, ◌*◌, ◌/◌, ◌%◌, ◌^◌, ◌≤◌, ◌<◌, min, max}
pub use Prim.Native.String.{String}
pub use mathlib.Core.Path.{◌≡◌, refl, sym, ap, ◌∙◌, fun_ext}
pub use mathlib.Core.Logic.{◌≢◌, ◌↔◌, ◌⊎◌, inl, inr}
pub use mathlib.Core.Bool.{Bool, true, false, not, ◌&&◌, ◌||◌}
pub use mathlib.Core.Option.{Option, none, some}
pub use mathlib.Core.List.{List, [], ◌∷◌, ◌++◌, map}
pub use native.Mathlib.Omega.{arith}
