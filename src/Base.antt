-- ===== src/Base.antt =====
-- The names that every other file shares: the libraries', passed on, and those of the children
-- (Boolean tests, lists over the native numbers, results, signed numbers, texts as bytes, decimal numbers, white space).
mod Tests
mod Lists
mod Outcome
mod Integers
mod Texts
mod Decimal
mod Spaces
pub use Tests.*
pub use Lists.*
pub use Outcome.*
pub use Texts.{take, lacks, append_split, separator_split, bytes_eq_refl, eq_of_bytes_eq}
unfoldable pub use Texts.{bytes_eq}
unfoldable pub use Spaces.{is_whitespace, trim, trim_start, trim_end}
pub use Spaces.{is_solid, trim-solid}
pub use Decimal.{
  decimal, decimal-injective, is_digit, decimal-digits, digits_value, decimal-value,
  decimal-not_empty,
}
pub use Integers.{ℤ, pos, negsuc}
unfoldable pub use Integers.{neg, at_most}
pub use Prim.Native.Nat.{ℕ, zero, suc, ◌+◌, ◌-◌, ◌*◌, ◌/◌, ◌%◌, ◌^◌, ◌≤◌, ◌<◌}
pub use Prim.Native.String.{String}
pub use mathlib.Core.Path.{◌≡◌, refl, sym, ap, ◌∙◌}
pub use mathlib.Core.Logic.{◌≢◌, ◌↔◌, ◌⊎◌, inl, inr}
pub use mathlib.Core.Bool.{Bool, true, false, not, ◌&&◌, ◌||◌}
pub use mathlib.Core.Option.{Option, none, some}
pub use mathlib.Core.List.{List, [], ◌∷◌, ◌++◌, map, Memᴰ, append-nil, append_assoc}
pub use native.Mathlib.Omega.{arith}
unfoldable pub use native.Mathlib.Decide.{dec_lt, dec_le, ℕ_discrete}
