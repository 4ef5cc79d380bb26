-- ===== src/Regex/Search.antt =====
-- `search`, `finditer` and `sub` against the relation of matches.
use insyta_api.Regex.{Re, last_of, ends, found_from, search_re}
use insyta_api.Regex.Relation.{Matches, ends-Sound, ends-Complete}
use insyta_api.Prelude.{
  ℕ, Bool, true, false, Option, none, some, List, [], ◌∷◌, ◌++◌, Text, length, ◌≡◌, refl, ap, sym,
  ◌⊎◌, inl, inr, ◌↔◌, In, arith, subst,
}

-- Somewhere in the text, the expression takes a part of it.
abbrev pub Occurs : Re → Option ℕ → Text → Type 0
Occurs r prev s =
    (b : Text) × (a : Text) × (t : Text) × (s ≡ b ++ (a ++ t)) × Matches r (last_of prev b) a t

-- The first match of a place, or else what is found later.
abbrev first_or : List (Text × Text) → Bool → Bool
first_or es later = elim es [ [] ↦ later | _ ∷ _ ↦ true ]

first_or_cases :
    (es : List (Text × Text)) (later : Bool)
    → first_or es later ≡ true
    → ((e : Text × Text) × In e es) ⊎ (later ≡ true)
first_or_cases [] later h = inr h
first_or_cases (e ∷ es) later h = inl (e, inl refl)

first_or-In :
    (e : Text × Text) (es : List (Text × Text)) (later : Bool) → In e es → first_or es later ≡ true
first_or-In e [] later i = absurd i
first_or-In e (x ∷ es) later i = refl

first_or_later : (es : List (Text × Text)) (later : Bool) → later ≡ true → first_or es later ≡ true
first_or_later [] later h = h
first_or_later (x ∷ es) later h = refl

found_from_sound :
    (r : Re) (prev : Option ℕ) (s : Text) → found_from r prev s ≡ true → Occurs r prev s
unfolding found_from
found_from_sound r prev [] h = elim (first_or_cases (ends r prev []) false h) [
  | inl (e, i) ↦ let (q, m) = ends-Sound r prev [] e.0 e.1 i in ([], e.0, e.1, q, m)
  | inr f ↦ absurd (ground arith)
]
found_from_sound r prev (c ∷ s) h =
    elim (first_or_cases (ends r prev (c ∷ s)) (found_from r (some c) s) h) [
      | inl (e, i) ↦ let (q, m) = ends-Sound r prev (c ∷ s) e.0 e.1 i in ([], e.0, e.1, q, m)
      | inr f ↦
          let (b, a, t, q, m) = found_from_sound r (some c) s f in
          (c ∷ b, a, t, ap (λ v. c ∷ v) q, m)
    ]

match-In :
    (r : Re) (prev : Option ℕ) (s a t : Text)
    → s ≡ a ++ t
    → Matches r prev a t
    → In (a, t) (ends r prev s)
match-In r prev s a t e m =
    subst (λ v. In (a, t) (ends r prev v)) (sym e) (ends-Complete r prev a t m)

found_from_complete :
    (r : Re) (prev : Option ℕ) (s b a t : Text)
    → s ≡ b ++ (a ++ t)
    → Matches r (last_of prev b) a t
    → found_from r prev s ≡ true
unfolding found_from
found_from_complete r prev [] [] a t e m =
    first_or-In (a, t) (ends r prev []) false (match-In r prev [] a t e m)
found_from_complete r prev [] (d ∷ b) a t e m = absurd (omega (arith, ap length e))
found_from_complete r prev (c ∷ s) [] a t e m =
    first_or-In (a, t) (ends r prev (c ∷ s)) (found_from r (some c) s)
      (match-In r prev (c ∷ s) a t e m)
found_from_complete r prev (c ∷ s) (d ∷ b) a t e m =
    let h : c ≡ d = cc in
    let q : s ≡ b ++ (a ++ t) = cc in
    let n = subst (λ x. Matches r (last_of (some x) b) a t) (sym h) m in
    first_or_later (ends r prev (c ∷ s)) (found_from r (some c) s)
      (found_from_complete r (some c) s b a t q n)

-- `search` finds exactly when the expression takes some part of the text.
pub search_re_iff : (r : Re) (s : Text) → (search_re r s ≡ true) ↔ Occurs r none s
unfolding search_re
search_re_iff r s =
    (found_from_sound r none s, λ (b, a, t, e, m). found_from_complete r none s b a t e m)
