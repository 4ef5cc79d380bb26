-- ===== src/Validators/Cbu/Alias.antt =====
-- The alias pattern against a grammar, and what `validate_alias` accepts.
use insyta_api.Prelude.{
  ℕ, ◌≤◌, ◌≡◌, inl, inr, ◌↔◌, Bool, true, false, [], ◌∷◌, length, arith, Bool-cases, Text, Unicode,
  strip,
}
use insyta_api.Validators.Cbu.{alias_char, alias_separator, alias_rest, validate_alias}

-- `[a-z0-9]+([.-][a-z0-9]+)*`, read from the front.
pub data Alias : Text → Type 0 where
  last : (c : ℕ) → alias_char c ≡ true → Alias (c ∷ [])
  more : (c : ℕ) {s : Text} → alias_char c ≡ true → Alias s → Alias (c ∷ s)
  separated :
      (c d : ℕ) {s : Text}
      → alias_char c ≡ true
      → alias_separator d ≡ true
      → Alias s
      → Alias (c ∷ d ∷ s)

-- What may follow an alias character.
data Rest : Text → Type 0 where
  end : Rest []
  on : {s : Text} → Alias s → Rest s
  after_separator : (d : ℕ) {s : Text} → alias_separator d ≡ true → Alias s → Rest (d ∷ s)

abbrev Expected : Bool → Text → Type 0
Expected true s = Rest s
Expected false s = Alias s

cons-Rest : (c : ℕ) {s : Text} → alias_char c ≡ true → Rest s → Alias (c ∷ s)
cons-Rest c h end = last c h
cons-Rest c h (on a) = more c h a
cons-Rest c h (after_separator d hd a) = separated c d h hd a

continued :
    (after : Bool) (c : ℕ) {s : Text} → alias_char c ≡ true → Rest s → Expected after (c ∷ s)
continued true c h r = on (cons-Rest c h r)
continued false c h r = cons-Rest c h r

alias_rest_sound : (after : Bool) (s : Text) → alias_rest after s ≡ true → Expected after s
unfolding alias_rest
alias_rest_sound true [] h = end
alias_rest_sound false [] h = absurd (cc)
alias_rest_sound false (c ∷ s) h = elim (Bool-cases (alias_char c)) [
  | inl a ↦ cons-Rest c a (alias_rest_sound true s (ground arith))
  | inr a ↦ absurd (ground arith)
]
alias_rest_sound true (c ∷ s) h = elim (Bool-cases (alias_char c)) [
  | inl a ↦ on (cons-Rest c a (alias_rest_sound true s (ground arith)))
  | inr a ↦ elim (Bool-cases (alias_separator c)) [
    | inl p ↦ after_separator c p (alias_rest_sound false s (ground arith))
    | inr p ↦ absurd (ground arith)
  ]
]

separator_not_char : (d : ℕ) → alias_separator d ≡ true → alias_char d ≡ false
separator_not_char d h = ground arith

alias_rest_complete : (after : Bool) {s : Text} → Alias s → alias_rest after s ≡ true
unfolding alias_rest
alias_rest_complete after (last c h) = ground arith
alias_rest_complete after (more c h a) = ground (arith, alias_rest_complete true a)
alias_rest_complete after (separated c d h p a) =
    ground (arith, separator_not_char d p, alias_rest_complete false a)

-- `validate_alias` accepts a text exactly when, stripped, it has 6 to 20 characters and is made of
-- runs of `[a-z0-9]` joined by single dots or dashes.
pub validate_alias_iff :
    (u : Unicode) (s : Text)
    → (validate_alias u s ≡ true)
      ↔ ((6 ≤ length (strip u s)) × (length (strip u s) ≤ 20) × Alias (strip u s))
unfolding validate_alias
validate_alias_iff u [] = (λ h. absurd (cc), λ (l, m, a). unfold strip in absurd (omega arith))
validate_alias_iff u (c ∷ s) =
    let a = strip u (c ∷ s) in
    (
      λ h. (ground arith, ground arith, alias_rest_sound false a (ground arith)),
      λ (l, m, g). ground (arith, alias_rest_complete false g),
    )
