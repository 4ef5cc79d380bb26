-- ===== src/Regex/Build.antt =====
-- Expressions as the program writes them. `same c d` holds when `re.IGNORECASE` takes the characters
-- for the same; of an expression that keeps the case it is equality.
use insyta_api.Prelude.{
  ℕ, Bool, false, not, ◌&&◌, ◌||◌, ◌==◌, Option, none, some, List, [], ◌∷◌, Text, any, is_some,
  Unicode, leb, if◌then◌else◌, ◌+◌,
}
use insyta_api.Regex.{Re, one, empty, seq, alt, edge}

-- The relation of ASCII letters up to case.
abbrev pub ascii_same : ℕ → ℕ → Bool
ascii_same c d =
    let low : ℕ → ℕ = λ x. if leb b'A' x && leb x b'Z' then x + 32 else x in low c == low d

abbrev word_before : Unicode → Option ℕ → Bool
word_before u none = false
word_before u (some c) = u.is_word c

module _ (u : Unicode) where
  -- `\b`
  abbrev pub word_edge : Re
  word_edge = edge (λ prev next.
      let b = word_before u prev in let a = word_before u next in b && not a || a && not b)

  -- `\d`, `\w`, `\s`
  abbrev pub digit : Re
  digit = one (λ c. is_some (u.decimal c))

  abbrev pub word : Re
  word = one u.is_word

  abbrev pub space : Re
  space = one u.is_space

module _ (same : ℕ → ℕ → Bool) where
  -- A class of single characters, and a literal.
  abbrev pub one_of : Text → Re
  one_of s = one (λ c. any (same c) s)

  abbrev pub lit : Text → Re
  lit [] = empty
  lit (c ∷ []) = one (same c)
  lit (c ∷ d ∷ s) = seq (one (same c)) (lit (d ∷ s))

-- One of several.
abbrev pub either : List Re → Re
either [] = empty
either (r ∷ []) = r
either (r ∷ q ∷ rs) = alt r (either (q ∷ rs))
