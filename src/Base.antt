-- ===== src/Base.antt =====
-- The names that the other modules share: those of the libraries, passed on, and those of the
-- modules below. The Go source's `string` is a `GoString`, a list of bytes.
mod Tests
mod Lists
pub mod Text
pub mod Number
pub use Tests.*
pub use Lists.*
pub use Prim.Native.Nat.{ℕ, zero, suc, ◌+◌, ◌-◌, ◌*◌, ◌/◌, ◌%◌, ◌^◌, ◌≤◌, ◌<◌}
pub use Prim.Native.String.{String}
pub use mathlib.Core.Path.{◌≡◌, refl, sym, ap, ◌∙◌}
pub use mathlib.Core.Logic.{◌≢◌, ◌↔◌, ◌⊎◌, inl, inr}
pub use mathlib.Core.Bool.{Bool, true, false, not, ◌&&◌, ◌||◌}
pub use mathlib.Core.Option.{Option, none, some}
pub use mathlib.Core.List.{List, [], ◌∷◌, ◌++◌, map}
pub use native.Mathlib.Omega.{arith}
unfoldable pub use Text.{
  str_eq, is_ascii_text, lower_byte, to_lower, is_space, trim_left, trim_right, trim_space,
  equal_fold, trim_suffix, has_prefix, drop, trim_prefix, contains_byte, split, replace_all, join,
}
pub use Text.Laws.{str_eq_refl, str_eq_iff, append-drop, trim_prefix-append}
unfoldable pub use Number.{
  decimal, show_int, is_digit, digits_value, parse_digits, parse_uint32, atoi,
}
pub use Text.{GoString, str, Unicode, cons_first}
pub use Number.{ℤ, pos, negsuc, is_positive, int_leb, int_eq, is_zero, to_nat, below}
