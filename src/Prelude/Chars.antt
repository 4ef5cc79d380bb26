-- ===== src/Prelude/Chars.antt =====
-- What the program reads of Python's Unicode database: a parameter of the text functions.
use Prim.Native.Nat.{ℕ, ◌+◌, ◌-◌, ◌<◌}
use mathlib.Core.Path.{◌≡◌}
use mathlib.Core.Bool.{Bool, ◌&&◌, ◌||◌}
use mathlib.Core.List.{[], ◌∷◌, ◌++◌}
use mathlib.Core.Option.{Option, none, some}
use native.Mathlib.Omega.{arith}
use insyta_api.Prelude.Tests.{leb, ◌==◌, if◌then◌else◌, is_some}
use insyta_api.Prelude.Texts.{Text}

-- `decimal` gives the value of a character that `\d` matches and `int` reads; `is_word` is `\w`,
-- `is_space` is `str.isspace`, `lower` one character's `str.lower`.
pub record Unicode : Type 0 where
  pub decimal : ℕ → Option ℕ
  pub is_word : ℕ → Bool
  pub is_space : ℕ → Bool
  pub lower : ℕ → Text
  pub decimal-lt : (c d : ℕ) → decimal c ≡ some d → d < 10

abbrev ascii_decimal : ℕ → Option ℕ
ascii_decimal c = if leb b'0' c && leb c b'9' then some (c - b'0') else none

abbrev ascii_word : ℕ → Bool
ascii_word c =
    is_some (ascii_decimal c) || leb b'A' c && leb c b'Z' || leb b'a' c && leb c b'z' || c == b'_'

abbrev ascii_space : ℕ → Bool
ascii_space c = leb 9 c && leb c 13 || leb 28 c && leb c 32

abbrev ascii_lower : ℕ → Text
ascii_lower c = (if leb b'A' c && leb c b'Z' then c + 32 else c) ∷ []

pub ascii_decimal-lt : (c d : ℕ) → ascii_decimal c ≡ some d → d < 10
ascii_decimal-lt c d h = ground arith

-- The database restricted to ASCII.
abbrev pub ascii : Unicode
ascii = record {
  decimal = ascii_decimal;
  is_word = ascii_word;
  is_space = ascii_space;
  lower = ascii_lower;
  decimal-lt = ascii_decimal-lt;
}

module _ (u : Unicode) where
  -- `s.lower()`
  unfoldable pub lower_text : Text → Text
  lower_text [] = []
  lower_text (c ∷ s) = u.lower c ++ lower_text s

  unfoldable pub lstrip : Text → Text
  lstrip [] = []
  lstrip (c ∷ s) = if u.is_space c then lstrip s else c ∷ s

  -- A trailing run of spaces is dropped.
  unfoldable pub rstrip : Text → Text
  rstrip [] = []
  rstrip (c ∷ s) = elim (rstrip s) [ [] ↦ if u.is_space c then [] else c ∷ [] | d ∷ t ↦ c ∷ d ∷ t ]

  -- `s.strip()`
  unfoldable pub strip : Text → Text
  unfolding lstrip rstrip
  strip s = rstrip (lstrip s)
