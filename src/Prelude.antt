-- ===== src/Prelude.antt =====
-- What the other modules share: names of the libraries, passed on, and those of the children.
mod Tests
mod Lists
mod Results
mod Strings
mod Maps
mod Int
mod Real
mod Wire
mod Sorted
mod Splits
unfoldable pub use Splits.{
  strip_prefix, split_once, split, trim_end_matches, join, to_string, parse_uint, decimal,
  parse_digits,
}
pub use Splits.{
  split-join, AllFree, parse_uint-to_string, Free, Free-append, split_once_found,
  split_once_missing, to_string-Free, strip_prefix-append, split_once_text,
}
pub use Tests.*
pub use Lists.*
unfoldable pub use Maps.{HashMap, lookup, insert, remove}
pub use Maps.{beq_refl, lookup-insert, lookup-remove}
unfoldable pub use Int.{int_eqb, int_Eq}
pub use Int.{int_eqb_iff}
pub use Int.{ℤ, pos, negsuc}
pub use Real.{Floats, Arithmetic}
pub use Wire.{Json, Frames}
unfoldable pub use Sorted.{BTreeMap, put}
pub use Sorted.{lookup-put, remove-put}
pub use Results.*
unfoldable pub use Strings.{
  Text, codes, text_eq, text_Eq, upper_code, to_ascii_uppercase, lower_code, to_ascii_lowercase,
  to_uppercase, trim_start, trim, is_white_space, is_empty,
}
pub use Strings.{text_eq_iff}
pub use Prim.Native.Nat.{ℕ, zero, suc, ◌+◌, ◌-◌, ◌*◌, ◌/◌, ◌%◌, ◌≤◌, ◌<◌}
pub use mathlib.Core.Path.{◌≡◌, refl, sym, ap, ◌∙◌}
pub use mathlib.Core.Logic.{◌≢◌, ◌↔◌, ◌⊎◌, inl, inr}
pub use mathlib.Core.Bool.{Bool, true, false, not, ◌&&◌, ◌||◌}
pub use mathlib.Core.Option.{Option, none, some}
pub use mathlib.Core.List.{List, [], ◌∷◌, ◌++◌, map, append_assoc, append-nil}
pub use native.Mathlib.Omega.{arith}
