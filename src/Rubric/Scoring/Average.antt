-- ===== src/Rubric/Scoring/Average.antt =====
-- The weighted average: its bounds, and that it is renormalised over the categories present.
use insyta_api.Prelude.{
  ℕ, ◌+◌, ◌-◌, ◌*◌, ◌≤◌, ◌<◌, ◌≡◌, ap, inl, inr, true, some, List, [], ◌∷◌, ◌++◌, length,
  length-append, arith, All, Text, text_eq, is_some, round_div-le, round_div-exact, mul_mono,
  Bool-cases, Option-cases,
}
use insyta_api.Rubric.{RubricDimension, RubricResponse}
use insyta_api.Rubric.Scoring.{
  category_weight, norm, category_of, add_score, group_one, group_from, weight_or_zero,
  total_weight, sum_norm, weighted, bruto_of, compute_scores, truthy,
}

category_weight-pos : (c : Text) → is_some (category_weight c) ≡ true → 0 < weight_or_zero c
unfolding category_weight
category_weight-pos c h = ground arith

module _ (P : ℕ → Type 0) where
  -- A category with its scores, as the loop collects them.
  abbrev pub IsGroup : Text × List ℕ → Type 0
  IsGroup (c, ss) = (0 < weight_or_zero c) × (0 < length ss) × All P ss

  abbrev pub AreGroups : List (Text × List ℕ) → Type 0
  AreGroups = All IsGroup

  -- The score of a dimension, if it has one.
  abbrev pub HasScore : RubricDimension → Type 0
  HasScore d = (s : ℕ) → d.score ≡ some s → P s

  All-snoc : (ss : List ℕ) (s : ℕ) → All P ss → P s → All P (ss ++ s ∷ [])
  All-snoc [] s a p = (p, tt)
  All-snoc (x ∷ ss) s (q, a) p = (q, All-snoc ss s a p)

  add_score-AreGroups :
      (c : Text) (s : ℕ) (g : List (Text × List ℕ))
      → 0 < weight_or_zero c
      → P s
      → AreGroups g
      → AreGroups (add_score c s g)
  unfolding add_score
  add_score-AreGroups c s [] w p a = ((w, omega arith, (p, tt)), tt)
  add_score-AreGroups c s ((k, ss) ∷ g) w p ((wk, l, all), a) = elim (Bool-cases (text_eq k c)) [
    | inl e ↦ rw e ((wk, omega (arith, length-append ss (s ∷ [])), All-snoc ss s all p), a)
    | inr e ↦ rw e ((wk, l, all), add_score-AreGroups c s g w p a)
  ]

  group_one-AreGroups :
      (g : List (Text × List ℕ)) (d : RubricDimension)
      → HasScore d
      → AreGroups g
      → AreGroups (group_one g d)
  unfolding group_one
  group_one-AreGroups g d h a = elim (Option-cases d.score) [
    | inl e ↦ rw (e, group_one) a
    | inr (s, e) ↦ elim (Bool-cases (is_some (category_weight (category_of d.id)))) [
      | inl k ↦
          rw (e, group_one, k)
            (add_score-AreGroups (category_of d.id) s g (category_weight-pos _ k) (h s e) a)
      | inr k ↦ rw (e, group_one, k) a
    ]
  ]

  pub group_from-AreGroups :
      (g : List (Text × List ℕ)) (ds : List RubricDimension)
      → All HasScore ds
      → AreGroups g
      → AreGroups (group_from g ds)
  unfolding group_from
  group_from-AreGroups g [] h a = a
  group_from-AreGroups g (d ∷ ds) (h, hs) a =
      group_from-AreGroups (group_one g d) ds hs (group_one-AreGroups g d h a)

sum_norm-le : (ss : List ℕ) → All (λ s. s ≤ 5) ss → sum_norm ss ≤ 100 * length ss
unfolding sum_norm
sum_norm-le [] a = omega arith
sum_norm-le (s ∷ ss) (p, a) = omega (arith, sum_norm-le ss a)

sum_norm-uniform : (v : ℕ) (ss : List ℕ) → All (λ s. s ≡ v) ss → sum_norm ss ≡ norm v * length ss
unfolding sum_norm
sum_norm-uniform v [] a = omega arith
sum_norm-uniform v (s ∷ ss) (p, a) = omega (arith, sum_norm-uniform v ss a)

step-le :
    (n d t w s l k : ℕ) → n ≤ k * (d * t) → s ≤ k * l → n * l + w * s * d ≤ k * (d * l * (w + t))
step-le n d t w s l k h m =
    omega (arith, mul_mono n (k * (d * t)) l h, mul_mono s (k * l) (w * d) m)

step-eq :
    (n d t w s l k : ℕ) → n ≡ k * (d * t) → s ≡ k * l → n * l + w * s * d ≡ k * (d * l * (w + t))
step-eq n d t w s l k h m = omega (arith, ap (λ (x : ℕ). x * l) h, ap (λ (x : ℕ). x * (w * d)) m)

mul-pos : (a b : ℕ) → 0 < a → 0 < b → 0 < a * b
mul-pos a b h k = grind arith

weighted-le :
    (g : List (Text × List ℕ))
    → AreGroups (λ s. s ≤ 5) g
    → let (n, d) = weighted g in (n ≤ 100 * (d * total_weight g)) × (0 < d)
unfolding weighted total_weight
weighted-le [] a = (omega arith, omega arith)
weighted-le ((c, ss) ∷ g) ((w, l, all), a) =
    let (le, p) = weighted-le g a in
    (
      step-le (weighted g).0 (weighted g).1 (total_weight g) (weight_or_zero c) (sum_norm ss)
          (length ss) 100 le (sum_norm-le ss all),
      mul-pos (weighted g).1 (length ss) p l,
    )

weighted-uniform :
    (v : ℕ) (g : List (Text × List ℕ))
    → AreGroups (λ s. s ≡ v) g
    → let (n, d) = weighted g in (n ≡ norm v * (d * total_weight g)) × (0 < d)
unfolding weighted total_weight
weighted-uniform v [] a = (omega arith, omega arith)
weighted-uniform v ((c, ss) ∷ g) ((w, l, all), a) =
    let (e, p) = weighted-uniform v g a in
    (
      step-eq (weighted g).0 (weighted g).1 (total_weight g) (weight_or_zero c) (sum_norm ss)
          (length ss) (norm v) e (sum_norm-uniform v ss all),
      mul-pos (weighted g).1 (length ss) p l,
    )

total_weight-pos :
    (P : ℕ → Type 0) (g : List (Text × List ℕ))
    → AreGroups P g
    → truthy g ≡ true
    → 0 < total_weight g
unfolding total_weight
total_weight-pos P [] a t = absurd (cc)
total_weight-pos P ((c, ss) ∷ g) ((w, l, all), a) t = le-add w (total_weight g)
  where
    le-add : {x : ℕ} → 0 < x → (y : ℕ) → 0 < x + y
    le-add h y = omega arith

bruto_of-le :
    (g : List (Text × List ℕ)) → AreGroups (λ s. s ≤ 5) g → truthy g ≡ true → bruto_of g ≤ 100
unfolding bruto_of
bruto_of-le g a t =
    let (le, p) = weighted-le g a in
    round_div-le (weighted g).0 ((weighted g).1 * total_weight g) 100 le
      (mul-pos (weighted g).1 (total_weight g) p (total_weight-pos (λ s. s ≤ 5) g a t))

bruto_of-uniform :
    (v : ℕ) (g : List (Text × List ℕ))
    → AreGroups (λ s. s ≡ v) g
    → truthy g ≡ true
    → bruto_of g ≡ norm v
unfolding bruto_of
bruto_of-uniform v g a t =
    let (e, p) = weighted-uniform v g a in
    round_div-exact (weighted g).0 ((weighted g).1 * total_weight g) (norm v) e
      (mul-pos (weighted g).1 (total_weight g) p (total_weight-pos (λ s. s ≡ v) g a t))

module _ (r : RubricResponse) (extra det : List Text) (threshold : ℕ) where
  -- With dimension scores of at most 5, as pydantic enforces, the gross and the final score, where
  -- there is one, are at most 100.
  pub compute_scores-le :
      All (HasScore (λ s. s ≤ 5)) r.dimensiones
      → let result = compute_scores r extra det threshold in
        ((s : ℕ) → result.score_bruto ≡ some s → s ≤ 100)
        × ((s : ℕ) → result.score_final ≡ some s → s ≤ 100)
  unfolding compute_scores
  compute_scores-le h =
      let g = group_from [] r.dimensiones in
      let a : AreGroups (λ s. s ≤ 5) g = group_from-AreGroups (λ s. s ≤ 5) [] r.dimensiones h tt in
      elim (Bool-cases (truthy g)) [
        | inl t ↦
            let le = bruto_of-le g a t in (λ s e. ground (arith, le), λ s e. ground (arith, le))
        | inr t ↦ (λ s e. ground arith, λ s e. ground arith)
      ]

  -- If every scored dimension has the score `v` and some category is scored, the gross score is
  -- (v - 1) * 25, whichever categories are present: the weights are renormalised.
  pub compute_scores-uniform :
      (v s : ℕ)
      → All (HasScore (λ x. x ≡ v)) r.dimensiones
      → (compute_scores r extra det threshold).score_bruto ≡ some s
      → s ≡ (v - 1) * 25
  unfolding compute_scores
  compute_scores-uniform v s h e =
      let g = group_from [] r.dimensiones in
      let a : AreGroups (λ x. x ≡ v) g = group_from-AreGroups (λ x. x ≡ v) [] r.dimensiones h tt in
      elim (Bool-cases (truthy g)) [
        | inl t ↦ let q = bruto_of-uniform v g a t in ground arith
        | inr t ↦ absurd (ground arith)
      ]
