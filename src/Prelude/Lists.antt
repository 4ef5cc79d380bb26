-- ===== src/Prelude/Lists.antt =====
-- Lists measured and indexed by native numbers, under the library's names.
use Prim.Native.Nat.{ℕ, zero, suc, ◌+◌, ◌-◌, min}
use mathlib.Core.Path.{◌≡◌, refl, ap, ◌∙◌}
use mathlib.Core.Logic.{◌⊎◌, inl, inr, ◌↔◌}
use mathlib.Core.Bool.{Bool, true, false, ◌||◌, ◌&&◌}
use mathlib.Core.List.{List, [], ◌∷◌, ◌++◌, map}
use mathlib.Core.Option.{Option, none, some}
use native.Mathlib.Omega.{arith}

module _ {ℓ} {A : Type ℓ} where
  abbrev pub length : List A → ℕ
  length [] = 0
  length (x ∷ xs) = suc (length xs)

  abbrev pub get_elem? : List A → ℕ → Option A
  get_elem? [] i = none
  get_elem? (x ∷ xs) zero = some x
  get_elem? (x ∷ xs) (suc i) = get_elem? xs i

  abbrev pub take : ℕ → List A → List A
  take zero xs = []
  take (suc n) [] = []
  take (suc n) (x ∷ xs) = x ∷ take n xs

  abbrev pub drop : ℕ → List A → List A
  drop zero xs = xs
  drop (suc n) [] = []
  drop (suc n) (x ∷ xs) = drop n xs

  -- Python's `any(p(x) for x in xs)` and `all(p(x) for x in xs)`.
  abbrev pub any : (A → Bool) → List A → Bool
  any p [] = false
  any p (x ∷ xs) = p x || any p xs

  abbrev pub all : (A → Bool) → List A → Bool
  all p [] = true
  all p (x ∷ xs) = p x && all p xs

  -- `xs[-1] if xs else None`
  abbrev pub last? : List A → Option A
  last? [] = none
  last? (x ∷ []) = some x
  last? (x ∷ y ∷ xs) = last? (y ∷ xs)

  pub length-append : (xs ys : List A) → length (xs ++ ys) ≡ length xs + length ys
  length-append [] ys = omega arith
  length-append (x ∷ xs) ys = omega (arith, length-append xs ys)

module _ {ℓ} {A : Type ℓ} where
  pub append_nil : (xs : List A) → xs ++ [] ≡ xs
  append_nil [] = refl
  append_nil (x ∷ xs) = ap (λ ys. x ∷ ys) (append_nil xs)

  pub append_assoc : (xs ys zs : List A) → (xs ++ ys) ++ zs ≡ xs ++ (ys ++ zs)
  append_assoc [] ys zs = refl
  append_assoc (x ∷ xs) ys zs = ap (λ ws. x ∷ ws) (append_assoc xs ys zs)

  pub length-take : (n : ℕ) (xs : List A) → length (take n xs) ≡ min n (length xs)
  length-take zero xs = omega arith
  length-take (suc n) [] = omega arith
  length-take (suc n) (x ∷ xs) = omega (arith, length-take n xs)

  pub length-drop : (n : ℕ) (xs : List A) → length (drop n xs) ≡ length xs - n
  length-drop zero xs = omega arith
  length-drop (suc n) [] = omega arith
  length-drop (suc n) (x ∷ xs) = omega (arith, length-drop n xs)

-- Every element satisfies the predicate, computed along the list.
abbrev pub All {ℓ κ} : {A : Type ℓ} → (A → Type κ) → List A → Type κ
All P [] = Unit
All P (x ∷ xs) = P x × All P xs

-- Membership, computed along the list.
abbrev pub In : {A : Type 0} → A → List A → Type 0
In a [] = ⊥
In a (x ∷ xs) = (a ≡ x) ⊎ In a xs

pub In-append_left : {A : Type 0} (a : A) (xs ys : List A) → In a xs → In a (xs ++ ys)
In-append_left a [] ys h = absurd h
In-append_left a (x ∷ xs) ys (inl e) = inl e
In-append_left a (x ∷ xs) ys (inr h) = inr (In-append_left a xs ys h)

pub In-append_right : {A : Type 0} (a : A) (xs ys : List A) → In a ys → In a (xs ++ ys)
In-append_right a [] ys h = h
In-append_right a (x ∷ xs) ys h = inr (In-append_right a xs ys h)

pub In-append : {A : Type 0} (a : A) (xs ys : List A) → In a (xs ++ ys) → In a xs ⊎ In a ys
In-append a [] ys h = inr h
In-append a (x ∷ xs) ys (inl e) = inl (inl e)
In-append a (x ∷ xs) ys (inr h) = elim (In-append a xs ys h) [ inl l ↦ inl (inr l) | inr r ↦ inr r ]

pub In_map_iff :
    {A B : Type 0} (f : A → B) (b : B) (xs : List A)
    → In b (map f xs) ↔ ((a : A) × In a xs × (b ≡ f a))
In_map_iff f b [] = (λ i. absurd i, λ (a, i, e). absurd i)
In_map_iff f b (x ∷ xs) =
    let (to, from) = In_map_iff f b xs in
    (
      λ i. elim i [ inl e ↦ (x, inl refl, e) | inr j ↦ let (a, k, e) = to j in (a, inr k, e) ],
      λ (a, i, e). elim i [ inl q ↦ inl (e ∙ ap f q) | inr j ↦ inr (from (a, j, e)) ],
    )
