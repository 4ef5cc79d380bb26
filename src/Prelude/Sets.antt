-- ===== src/Prelude/Sets.antt =====
-- Python sets of texts as sorted lists without repetition, which is what `sorted(set(xs))` gives.
use Prim.Native.Nat.{compare, Ordering}
use mathlib.Core.Path.{◌≡◌, refl, ◌∙◌}
use mathlib.Core.Logic.{◌⊎◌, inl, inr, ◌↔◌}
use mathlib.Core.Bool.{Bool, true, false, ◌||◌}
use mathlib.Core.List.{List, [], ◌∷◌}
use native.Mathlib.Omega.{arith}
use insyta_api.Prelude.Lists.{In}
use insyta_api.Prelude.Texts.{Text, text_eq, text_eq_iff}
use insyta_api.Prelude.Tests.{Bool-cases}

-- The order of `sorted` on texts: by code points.
unfoldable pub text_compare : Text → Text → Ordering
text_compare [] [] = Ordering.eq
text_compare [] (d ∷ t) = Ordering.lt
text_compare (c ∷ s) [] = Ordering.gt
text_compare (c ∷ s) (d ∷ t) = elim (compare c d) [
  | Ordering.lt ↦ Ordering.lt
  | Ordering.eq ↦ text_compare s t
  | Ordering.gt ↦ Ordering.gt
]

pub text_compare-eq : (s t : Text) → text_compare s t ≡ Ordering.eq → s ≡ t
unfolding text_compare
text_compare-eq [] [] h = refl
text_compare-eq [] (d ∷ t) h = absurd (ground arith)
text_compare-eq (c ∷ s) [] h = absurd (ground arith)
text_compare-eq (c ∷ s) (d ∷ t) h = ground (arith, text_compare-eq s t)

unfoldable pub insert_text : Text → List Text → List Text
unfolding text_compare
insert_text x [] = x ∷ []
insert_text x (y ∷ ys) =
    let later = insert_text x ys in
    elim (text_compare x y) [
      | Ordering.lt ↦ x ∷ y ∷ ys
      | Ordering.eq ↦ y ∷ ys
      | Ordering.gt ↦ y ∷ later
    ]

-- `sorted(set(xs))`
unfoldable pub sorted_set : List Text → List Text
unfolding insert_text
sorted_set [] = []
sorted_set (x ∷ xs) = insert_text x (sorted_set xs)

-- `x in xs`
unfoldable pub mem_text : Text → List Text → Bool
unfolding text_eq
mem_text x [] = false
mem_text x (y ∷ ys) = text_eq x y || mem_text x ys

pub mem_text_iff : (x : Text) (xs : List Text) → (mem_text x xs ≡ true) ↔ In x xs
unfolding mem_text
mem_text_iff x [] = (λ h. absurd (ground arith), λ i. absurd i)
mem_text_iff x (y ∷ ys) =
    let (to, from) = text_eq_iff x y in
    let (mem, in_list) = mem_text_iff x ys in
    (
      λ h. elim (Bool-cases (text_eq x y)) [
        | inl e ↦ inl (to e)
        | inr e ↦ inr (mem (ground arith))
      ],
      λ i. elim i [ inl e ↦ ground (arith, from e) | inr j ↦ ground (arith, in_list j) ],
    )

cases-Ordering : (o : Ordering) → (o ≡ Ordering.lt) ⊎ ((o ≡ Ordering.eq) ⊎ (o ≡ Ordering.gt))
cases-Ordering Ordering.lt = inl refl
cases-Ordering Ordering.eq = inr (inl refl)
cases-Ordering Ordering.gt = inr (inr refl)

pub insert_text-In : (x z : Text) (ys : List Text) → In z (insert_text x ys) ↔ ((z ≡ x) ⊎ In z ys)
unfolding insert_text
insert_text-In x z [] = (λ i. i, λ i. i)
insert_text-In x z (y ∷ ys) = elim (cases-Ordering (text_compare x y)) [
  | inl e ↦ rw (e, insert_text) (λ i. i, λ i. i)
  | inr (inl e) ↦
      let q = text_compare-eq x y e in
      rw (e, insert_text) (λ i. inr i, λ i. elim i [ inl p ↦ inl (p ∙ q) | inr j ↦ j ])
  | inr (inr e) ↦
      let (to, from) = insert_text-In x z ys in
      rw (e, insert_text)
        (
          λ i. elim i [
            | inl p ↦ inr (inl p)
            | inr j ↦ elim (to j) [ inl p ↦ inl p | inr k ↦ inr (inr k) ]
          ],
          λ i. elim i [
            | inl p ↦ inr (from (inl p))
            | inr (inl p) ↦ inl p
            | inr (inr k) ↦ inr (from (inr k))
          ],
        )
]

-- Sorting and removing repetitions keeps the members.
pub sorted_set-In : (z : Text) (xs : List Text) → In z (sorted_set xs) ↔ In z xs
unfolding sorted_set
sorted_set-In z [] = (λ i. i, λ i. i)
sorted_set-In z (x ∷ xs) =
    let (to, from) = insert_text-In x z (sorted_set xs) in
    let (out, back) = sorted_set-In z xs in
    (
      λ i. elim (to i) [ inl p ↦ inl p | inr j ↦ inr (out j) ],
      λ i. elim i [ inl p ↦ from (inl p) | inr j ↦ from (inr (back j)) ],
    )
