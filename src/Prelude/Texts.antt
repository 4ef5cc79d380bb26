-- ===== src/Prelude/Texts.antt =====
-- Python's `str` as the list of its code points.
use Prim.Native.Nat.{ℕ, compare, Ordering}
use Prim.Native.Char.{code}
use Prim.Native.String.{String}
use mathlib.Core.Path.{◌≡◌}
use mathlib.Core.Logic.{◌↔◌}
use mathlib.Core.Bool.{Bool, true, false, ◌&&◌, ◌||◌}
use mathlib.Core.List.{List, [], ◌∷◌}
use native.Mathlib.Omega.{arith}
use insyta_api.Prelude.Tests.{◌==◌}

abbrev pub Text : Type 0
Text = List ℕ

-- A literal.
abbrev pub txt : String → Text
txt String.[] = []
txt (String.◌∷◌ c s) = code c ∷ txt s

-- `s == t`
unfoldable pub text_eq : Text → Text → Bool
text_eq [] [] = true
text_eq [] (d ∷ t) = false
text_eq (c ∷ s) [] = false
text_eq (c ∷ s) (d ∷ t) = elim (compare c d) [ Ordering.eq ↦ text_eq s t | _ ↦ false ]

pub text_eq_iff : (s t : Text) → (text_eq s t ≡ true) ↔ (s ≡ t)
unfolding text_eq
text_eq_iff [] [] = ground arith
text_eq_iff [] (d ∷ t) = ground arith
text_eq_iff (c ∷ s) [] = ground arith
text_eq_iff (c ∷ s) (d ∷ t) = ground (arith, text_eq_iff s t)

-- `s.startswith(p)`
abbrev pub starts_with : Text → Text → Bool
starts_with [] s = true
starts_with (c ∷ p) [] = false
starts_with (c ∷ p) (d ∷ s) = c == d && starts_with p s

-- `p in s`
unfoldable pub has_part : Text → Text → Bool
has_part p [] = starts_with p []
has_part p (c ∷ s) = starts_with p (c ∷ s) || has_part p s
