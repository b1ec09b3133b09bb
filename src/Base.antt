-- ===== src/Base.antt =====
-- The names that the other modules share: the libraries', passed on, and those of the children.
mod Tests
mod Lists
mod Int
mod Exceptions
mod Every
mod Text
mod Slices
mod Bits
pub use Every.*
pub use Text.{Bytes, codes, is_digit, is_space, bytes_equal_iff}
unfoldable pub use Text.{bytes_equal}
pub use Slices.*
pub use Bits.{bit_or-add, holds_below_at}
unfoldable pub use Bits.{holds_below}
pub use Tests.*
pub use Lists.*
pub use Int.*
pub use Exceptions.{
  Error, invalid_argument, out_of_range, length_error, runtime_error, Result, ok, err, ◌>>=◌, ◌>>◌,
  throw_if, ok-injective, >>=-regroup, >>=-eq-ok, >>-eq-ok, throw_if-eq-ok, map_result-range,
}
unfoldable pub use Exceptions.{map_result}
pub use Prim.Native.Nat.{ℕ, zero, suc, ◌+◌, ◌-◌, ◌*◌, ◌/◌, ◌%◌, ◌^◌, ◌≤◌, ◌<◌, min, max}
pub use mathlib.Core.Path.{◌≡◌, refl, sym, ap, subst, ◌∙◌}
pub use mathlib.Core.Logic.{◌≢◌, ◌↔◌, ◌⊎◌, inl, inr}
pub use mathlib.Core.Bool.{Bool, true, false, not, ◌&&◌, ◌||◌}
pub use mathlib.Core.Option.{Option, none, some}
pub use mathlib.Core.List.{List, [], ◌∷◌, ◌++◌, map}
pub use native.Mathlib.Omega.{arith}
