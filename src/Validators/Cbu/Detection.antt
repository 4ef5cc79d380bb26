-- ===== src/Validators/Cbu/Detection.antt =====
-- What the check digits of a CBU detect.
use insyta_api.Prelude.{
  ℕ, zero, suc, ◌+◌, ◌-◌, ◌*◌, ◌%◌, ◌<◌, ◌≡◌, ◌≢◌, refl, ap, ◌⊎◌, inl, inr, Bool, true, false, ◌&&◌,
  some, List, [], ◌∷◌, ◌++◌, length, get_elem?, take, drop, ◌==◌, arith, All, Text, Unicode,
  Bool-cases, Option-cases, length-append, length-take, length-drop,
}
use insyta_api.Validators.Cbu.{
  block1_weights, block2_weights, weighted_sum, block_ok, validate_digits, digits_of, validate_cbu,
}

-- One pass over weights and block, with the sum so far; the digit behind the weights is the check.
walk : ℕ → List ℕ → List ℕ → Bool
walk acc [] [] = false
walk acc [] (c ∷ ds) = (10 - acc % 10) % 10 == c
walk acc (w ∷ ws) [] = false
walk acc (w ∷ ws) (d ∷ ds) = walk (acc + d * w) ws ds

-- The weights that the two blocks use: those prime to ten.
abbrev IsUnit : ℕ → Type 0
IsUnit w = (w ≡ 1) ⊎ ((w ≡ 3) ⊎ ((w ≡ 7) ⊎ (w ≡ 9)))

weighted_sum-length :
    (ds ws : List ℕ) → length ds ≡ length ws → (s : ℕ) × (weighted_sum ds ws ≡ some s)
unfolding weighted_sum
weighted_sum-length [] [] h = (0, refl)
weighted_sum-length [] (w ∷ ws) h = absurd (omega arith)
weighted_sum-length (d ∷ ds) [] h = absurd (omega arith)
weighted_sum-length (d ∷ ds) (w ∷ ws) h =
    let (s, e) = weighted_sum-length ds ws (omega arith) in (d * w + s, ground arith)

-- The walk is the code's test of a block that has one digit more than there are weights.
walk-eq :
    (acc : ℕ) (ws ds : List ℕ) (s c : ℕ)
    → weighted_sum (take (length ws) ds) ws ≡ some s
    → get_elem? ds (length ws) ≡ some c
    → walk acc ws ds ≡ ((10 - (acc + s) % 10) % 10 == c)
unfolding walk weighted_sum
walk-eq acc [] [] s c hs hc = cc
walk-eq acc [] (d ∷ ds) s c hs hc = ground arith
walk-eq acc (w ∷ ws) [] s c hs hc = cc
walk-eq acc (w ∷ ws) (d ∷ ds) s c hs hc =
    elim (Option-cases (weighted_sum (take (length ws) ds) ws)) [
      | inl e ↦ ground arith
      | inr (r, e) ↦ ground (arith, walk-eq (acc + d * w) ws ds r c e hc)
    ]

walk-residue :
    (acc acc' : ℕ) (ws ds : List ℕ)
    → walk acc ws ds ≡ true
    → walk acc' ws ds ≡ true
    → acc % 10 ≡ acc' % 10
unfolding walk
walk-residue acc acc' [] [] h h' = cc
walk-residue acc acc' [] (c ∷ ds) h h' = ground arith
walk-residue acc acc' (w ∷ ws) [] h h' = cc
walk-residue acc acc' (w ∷ ws) (d ∷ ds) h h' =
    let e = walk-residue (acc + d * w) (acc' + d * w) ws ds h h' in omega arith

scaled : (w k d : ℕ) → w ≡ k → d * w ≡ d * k
scaled w k d e = ap (λ t. d * t) e

-- A changed digit changes the residue of the sum, whatever the unit that weighs it.
unit_change :
    (acc w d d' : ℕ)
    → IsUnit w
    → d < 10
    → d' < 10
    → (acc + d * w) % 10 ≡ (acc + d' * w) % 10
    → d ≡ d'
unit_change acc w d d' (inl e) hd hd' h = omega (arith, scaled w 1 d e, scaled w 1 d' e)
unit_change acc w d d' (inr (inl e)) hd hd' h = omega (arith, scaled w 3 d e, scaled w 3 d' e)
unit_change acc w d d' (inr (inr (inl e))) hd hd' h = omega (arith, scaled w 7 d e, scaled w 7 d' e)
unit_change acc w d d' (inr (inr (inr e))) hd hd' h = omega (arith, scaled w 9 d e, scaled w 9 d' e)

-- Two blocks that differ in one digit are not both accepted.
walk-change :
    (acc : ℕ) (ws pre : List ℕ) (d d' : ℕ) (post : List ℕ)
    → All IsUnit ws
    → length (pre ++ d ∷ post) ≡ suc (length ws)
    → d < 10
    → d' < 10
    → walk acc ws (pre ++ d ∷ post) ≡ true
    → walk acc ws (pre ++ d' ∷ post) ≡ true
    → d ≡ d'
unfolding walk
walk-change acc [] [] d d' post u l hd hd' h h' = ground arith
walk-change acc [] (x ∷ pre) d d' post u l hd hd' h h' =
    absurd (omega (arith, length-append pre (d ∷ post)))
walk-change acc (w ∷ ws) [] d d' post u l hd hd' h h' =
    unit_change acc w d d' u.0 hd hd' (walk-residue (acc + d * w) (acc + d' * w) ws post h h')
walk-change acc (w ∷ ws) (x ∷ pre) d d' post u l hd hd' h h' =
    walk-change (acc + x * w) ws pre d d' post u.1 (omega arith) hd hd' h h'

get_elem?-lt : (ds : List ℕ) (i : ℕ) → i < length ds → (c : ℕ) × (get_elem? ds i ≡ some c)
get_elem?-lt [] i h = absurd (omega arith)
get_elem?-lt (d ∷ ds) zero h = (d, refl)
get_elem?-lt (d ∷ ds) (suc i) h = get_elem?-lt ds i (omega arith)

-- On a block of the right length the code's test returns, with the walk's answer.
block_ok-eq :
    (ws ds : List ℕ)
    → length ds ≡ suc (length ws)
    → block_ok (length ws) ws ds ≡ some (walk 0 ws ds)
unfolding block_ok
block_ok-eq ws ds h =
    let (s, hs) =
      weighted_sum-length (take (length ws) ds) ws (omega (arith, length-take (length ws) ds)) in
    let (c, hc) = get_elem?-lt ds (length ws) (omega arith) in
    ground (arith, walk-eq 0 ws ds s c hs hc)

-- The whole test on twenty-two digits, as two walks.
validate_digits-eq :
    (ds : List ℕ)
    → length ds ≡ 22
    → validate_digits ds
      ≡ some (walk 0 block1_weights (take 8 ds) && walk 0 block2_weights (drop 8 ds))
unfolding validate_digits
validate_digits-eq ds h = ground (
  arith,
  block_ok-eq block1_weights (take 8 ds) (omega (arith, length-take 8 ds)),
  block_ok-eq block2_weights (drop 8 ds) (omega (arith, length-drop 8 ds)),
)

units1 : All IsUnit block1_weights
units1 = ground arith

units2 : All IsUnit block2_weights
units2 = ground arith

-- Where a cut at `k` leaves the element between `pre` and `post`: in the front part, or behind it.
abbrev CutFront : ℕ → List ℕ → List ℕ → Type 0
CutFront k pre post =
    (p q : List ℕ) × ((d : ℕ) → take k (pre ++ d ∷ post) ≡ pre ++ d ∷ p)
    × ((d : ℕ) → drop k (pre ++ d ∷ post) ≡ q)

abbrev CutBack : ℕ → List ℕ → List ℕ → Type 0
CutBack k pre post =
    (p q : List ℕ) × ((d : ℕ) → take k (pre ++ d ∷ post) ≡ p)
    × ((d : ℕ) → drop k (pre ++ d ∷ post) ≡ q ++ d ∷ post)

cut : (k : ℕ) (pre post : List ℕ) → CutFront k pre post ⊎ CutBack k pre post
cut zero pre post = inr ([], pre, λ d. refl, λ d. refl)
cut (suc k) [] post = inl (take k post, drop k post, λ d. refl, λ d. refl)
cut (suc k) (x ∷ pre) post = elim (cut k pre post) [
  | inl (p, q, t, r) ↦ inl (p, q, λ d. ap (λ l. x ∷ l) (t d), r)
  | inr (p, q, t, r) ↦ inr (x ∷ p, q, λ d. ap (λ l. x ∷ l) (t d), r)
]

-- Both blocks pass.
abbrev Passes : List ℕ → Type 0
Passes ds = (walk 0 block1_weights (take 8 ds) ≡ true) × (walk 0 block2_weights (drop 8 ds) ≡ true)

validate_digits-true : (ds : List ℕ) → validate_digits ds ≡ some true → (length ds ≡ 22) × Passes ds
validate_digits-true ds h =
    let l : length ds ≡ 22 = unfold validate_digits in ground arith in
    let e = validate_digits-eq ds l in (l, (ground arith, ground arith))

Passes-change :
    (pre : List ℕ) (d d' : ℕ) (post : List ℕ)
    → length (pre ++ d ∷ post) ≡ 22
    → d < 10
    → d' < 10
    → Passes (pre ++ d ∷ post)
    → Passes (pre ++ d' ∷ post)
    → d ≡ d'
Passes-change pre d d' post l hd hd' (h1, h2) (k1, k2) = elim (cut 8 pre post) [
  | inl (p, q, t, r) ↦
      walk-change 0 block1_weights pre d d' p units1
        (let e = length-take 8 (pre ++ d ∷ post) in
          let e' = ap (length {A = ℕ}) (t d) in omega arith)
        hd hd' (rw (t d) at h1) (rw (t d') at k1)
  | inr (p, q, t, r) ↦
      walk-change 0 block2_weights q d d' post units2
        (let e = length-drop 8 (pre ++ d ∷ post) in
          let e' = ap (length {A = ℕ}) (r d) in omega arith)
        hd hd' (rw (r d) at h2) (rw (r d') at k2)
]

digit-change :
    (pre : List ℕ) (d d' : ℕ) (post : List ℕ)
    → d < 10
    → d' < 10
    → d ≢ d'
    → validate_digits (pre ++ d ∷ post) ≡ some true
    → validate_digits (pre ++ d' ∷ post) ≡ some false
digit-change pre d d' post hd hd' ne h =
    let (l, passes) = validate_digits-true (pre ++ d ∷ post) h in
    let l' : length (pre ++ d' ∷ post) ≡ 22 =
      omega (arith, length-append pre (d ∷ post), length-append pre (d' ∷ post)) in
    let e = validate_digits-eq (pre ++ d' ∷ post) l' in
    elim (Bool-cases (walk 0 block1_weights (take 8 (pre ++ d' ∷ post)))) [
      | inr f ↦ ground arith
      | inl t ↦ elim (Bool-cases (walk 0 block2_weights (drop 8 (pre ++ d' ∷ post)))) [
        | inr f ↦ ground arith
        | inl t' ↦ absurd (ne (Passes-change pre d d' post l hd hd' passes (t, t')))
      ]
    ]

module _ (u : Unicode) where
  digits_of-append : (s t : Text) → digits_of u (s ++ t) ≡ digits_of u s ++ digits_of u t
  unfolding digits_of
  digits_of-append [] t = refl
  digits_of-append (c ∷ s) t = ground (arith, digits_of-append s t)

  digits_of-middle :
      (pre : Text) (c d : ℕ) (post : Text)
      → u.decimal c ≡ some d
      → digits_of u (pre ++ c ∷ post) ≡ digits_of u pre ++ d ∷ digits_of u post
  unfolding digits_of
  digits_of-middle pre c d post h = rw (digits_of-append pre (c ∷ post)) (ground arith)

  -- A CBU that `validate_cbu` accepts is rejected after any one of its digits is replaced by a
  -- digit of another value.
  pub validate_cbu-change :
      (pre : Text) (c c' d d' : ℕ) (post : Text)
      → u.decimal c ≡ some d
      → u.decimal c' ≡ some d'
      → d ≢ d'
      → validate_cbu u (pre ++ c ∷ post) ≡ some true
      → validate_cbu u (pre ++ c' ∷ post) ≡ some false
  unfolding validate_cbu
  validate_cbu-change pre c c' d d' post hc hc' ne h = rw (digits_of-middle pre c' d' post hc') (
      digit-change (digits_of u pre) d d' (digits_of u post) (u.decimal-lt c d hc)
        (u.decimal-lt c' d' hc') ne (rw (digits_of-middle pre c d post hc) at h))

  -- `validate_cbu` returns on every text: no slice is too short and no `zip` is uneven.
  pub validate_cbu_total : (cbu : Text) → (b : Bool) × (validate_cbu u cbu ≡ some b)
  unfolding validate_cbu
  validate_cbu_total cbu = elim (Bool-cases (length (digits_of u cbu) == 22)) [
    | inl l ↦ (_, validate_digits-eq (digits_of u cbu) (ground arith))
    | inr l ↦ (false, unfold validate_digits in ground arith)
  ]
