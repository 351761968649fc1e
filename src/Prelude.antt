-- ===== src/Prelude.antt =====
-- The names that the other modules share: the libraries', passed on, and those of the children.
pub mod Tests
pub mod Lists
pub mod Str
pub mod StrLaws
pub mod Affix
pub mod Decimal
pub mod Int
pub use Tests.*
pub use Lists.*
pub use Str.{
  Text, codes, text_eq, to_ascii_lowercase, eq_ignore_ascii_case, is_dot, trim_dots, trim, split,
  split_whitespace, join, concat,
}
unfoldable pub use Str.{
  lower, is_whitespace, is_ascii_alphanumeric, trim_end_by, trim_start_by, strip_prefix,
  starts_with, strip_suffix, contains, split_once, split_from, words_from,
}
pub use Prim.Native.Nat.{ℕ, zero, suc, ◌+◌, ◌-◌, ◌*◌, ◌/◌, ◌%◌, ◌^◌, ◌≤◌, ◌<◌, min, max}
pub use Prim.Native.String.{String}
pub use mathlib.Core.Path.{◌≡◌, refl, sym, ap, ◌∙◌}
pub use mathlib.Core.Logic.{◌≢◌, ◌↔◌, ◌⊎◌, inl, inr}
pub use mathlib.Core.Bool.{Bool, true, false, not, ◌&&◌, ◌||◌}
pub use mathlib.Core.Option.{Option, none, some}
pub use mathlib.Core.List.{List, [], ◌∷◌, ◌++◌, map, append_assoc, append-nil}
pub use native.Mathlib.Omega.{arith}
