-- ===== src/Prelude.antt =====
-- The names that the other modules share: the libraries', passed on, and those of the children.
mod Tests
mod Lists
mod Texts
pub mod Int
mod Chars
mod Sets
mod Rounding
pub use Tests.*
pub use Lists.*
pub use Texts.{Text, txt, text_eq_iff, starts_with}
unfoldable pub use Texts.{text_eq, has_part}
unfoldable pub use Chars.{lower_text, lstrip, rstrip, strip}
pub use Sets.{mem_text_iff, sorted_set-In}
unfoldable pub use Sets.{sorted_set, mem_text, insert_text, text_compare}
unfoldable pub use Rounding.{round_div}
pub use Rounding.{mul_mono, round_div-le, round_div-ge, round_div-exact}
pub use Chars.{Unicode, ascii}
pub use Prim.Native.Nat.{ℕ, zero, suc, ◌+◌, ◌-◌, ◌*◌, ◌/◌, ◌%◌, ◌≤◌, ◌<◌, min}
pub use Prim.Native.String.{String}
pub use mathlib.Core.Path.{◌≡◌, refl, sym, ap, ◌∙◌, subst}
pub use mathlib.Core.Logic.{◌≢◌, ◌↔◌, ◌⊎◌, inl, inr}
pub use mathlib.Core.Bool.{Bool, true, false, not, ◌&&◌, ◌||◌}
pub use mathlib.Core.Option.{Option, none, some}
pub use mathlib.Core.List.{List, [], ◌∷◌, ◌++◌}
unfoldable pub use mathlib.Core.List.{map}
pub use native.Mathlib.Omega.{arith}
