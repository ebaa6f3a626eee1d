-- ===== src/Common.antt =====
-- What every part of the model shares: the libraries' names, Boolean tests on the native numbers,
-- lists over the native numbers, Go's `string` as a list of bytes, and Go's `int`.
mod Tests
mod Lists
mod Strings
mod Int
mod Partial
pub mod Trim
pub use Tests.*
pub use Lists.*
pub use Strings.*
unfoldable pub use Strings.{
  text_eq, has_prefix, has_suffix, trim_prefix, split_once, contains, split, to_lower,
}
pub use Int.*
pub use Partial.*
unfoldable pub use Partial.{◌>>=◌}
unfoldable pub use Int.{int_sub, sub_ℕ, wrap}
pub use Prim.Native.Nat.{ℕ, zero, suc, ◌+◌, ◌-◌, ◌*◌, ◌/◌, ◌%◌, ◌^◌, ◌≤◌, ◌<◌, Ordering, compare}
pub use Prim.Native.Nat.Ordering.{lt, eq, gt}
pub use mathlib.Core.Path.{◌≡◌, refl, sym, ap, ◌∙◌}
pub use mathlib.Core.Logic.{◌≢◌, ◌↔◌, ◌⊎◌, inl, inr}
pub use mathlib.Core.Bool.{Bool, true, false, not, ◌&&◌, ◌||◌}
pub use mathlib.Core.Option.{Option, none, some}
pub use mathlib.Core.List.{List, [], ◌∷◌, ◌++◌, append_assoc, append-nil, map}
pub use native.Mathlib.Omega.{arith}
