-- ===== src/Prelude.antt =====
-- The names that every module shares: the libraries' names, passed on, Boolean tests on native
-- numbers and texts, lists measured by native numbers, and the monad of service methods.
pub mod Tests
pub mod Lists
pub mod Text
pub mod Exec
pub mod Total
pub mod Order
pub mod Sorting
pub mod Sets
pub use Prim.Native.Nat.{ℕ, zero, suc, ◌+◌, ◌-◌, ◌*◌, ◌/◌, ◌%◌, ◌^◌, ◌≤◌, ◌<◌, min}
pub use Prim.Native.String.{String}
pub use mathlib.Core.Path.{◌≡◌, refl, sym, ap, ◌∙◌}
pub use mathlib.Core.Logic.{◌≢◌, ◌↔◌, ◌⊎◌, inl, inr}
pub use mathlib.Core.Bool.{Bool, true, false, not, ◌&&◌, ◌||◌}
pub use mathlib.Core.Option.{Option, none, some}
pub use mathlib.Core.List.{List, [], ◌∷◌, ◌++◌, map}
pub use native.Mathlib.Omega.{arith}
pub use text.Mathlib.TextEquality.{eq_iff}
pub use text.Mathlib.TextPositions.{eq_refl}
pub use Tests.*
unfoldable pub use Lists.*
unfoldable pub use Text.{
  is_space, is_blank, lstrip, rstrip, strip, text_le, insert_by, sort_by, without_repeats,
  sorted_set,
}
unfoldable pub use Exec.*
pub use Total.*
pub use Sets.*
pub use Sorting.*
