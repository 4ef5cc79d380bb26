-- ===== src/Grounding/Tokens.antt =====
-- What `cited_tokens` gives: codes and prices of the note, each once.
use insyta_api.Prelude.{
  ℕ, ◌≤◌, ◌≡◌, ◌⊎◌, true, Option, List, [], ◌∷◌, In, Text, any, length, Unicode,
}
use insyta_api.Regex.{Re}
use insyta_api.Regex.Relation.{Matches}
use insyta_api.Grounding.{code_re, price_re, is_digit, is_upper}

-- No text stands in the list twice, nor in the list of those seen.
abbrev pub Once : List Text → List Text → Type 0
Once seen [] = Unit
Once seen (t ∷ ts) = ¬ (In t seen) × Once (t ∷ seen) ts

-- The text is taken by the expression, between some characters.
abbrev pub Taken : Re → Text → Type 0
Taken r t = (prev : Option ℕ) × (rest : Text) × Matches r prev t rest

-- A code or a price.
abbrev pub IsCited : Unicode → Text → Type 0
IsCited u t =
    (Taken code_re t × (4 ≤ length t) × (any is_digit t ≡ true) × (any is_upper t ≡ true))
    ⊎ Taken (price_re u) t
