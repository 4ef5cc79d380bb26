-- ===== src/Spc/Rules.antt =====
-- Which violations `check_rules` returns, and what `detect_drift` makes of them.
use insyta_api.Prelude.{
  ℕ, ◌≤◌, ◌≡◌, ◌≢◌, refl, ap, ◌↔◌, ◌⊎◌, inl, inr, Bool, true, false, Option, none, some, List, [],
  ◌∷◌, ◌++◌, arith, leb, if◌then◌else◌, Bool-cases, any, In, In-append, In-append_left,
  In-append_right,
}
use insyta_api.Spc.{
  beyond_3sigma, same_side_8, trend_6, Direction, alto, bajo, SpcViolation, Baseline, Side, above,
  below, level, present, emit1, emit2, emit3, next2, next3, side_direction, rule1, rule2, rule3,
  check_rules, is_bajo, is_alto, drift_label, detect_drift, degradacion, mejora, estable,
}
use insyta_api.Spc.Loop.{history, loop-In}
use insyta_api.Spc.SameSide.{OnSide, sides, OnSide-iff, sides-level}
use insyta_api.Spc.Trending.{Rising, Falling, counts, counts-latest, Rising-iff, Falling-iff}

-- What rule 3 appends at an index, from the updated counts.
emission-In :
    (j up down : ℕ) (w : SpcViolation)
    → In w (
        (if leb 6 up then record { rule = trend_6; index = j; direction = alto } ∷ [] else [])
        ++ (if leb 6 down then record { rule = trend_6; index = j; direction = bajo } ∷ [] else []))
      ↔ (((w.index ≡ j) × (w.rule ≡ trend_6) × (w.direction ≡ alto) × (6 ≤ up))
          ⊎ ((w.index ≡ j) × (w.rule ≡ trend_6) × (w.direction ≡ bajo) × (6 ≤ down)))
emission-In j up down w = elim (Bool-cases (leb 6 up)) [
  | inl u ↦ elim (Bool-cases (leb 6 down)) [
    | inl d ↦ (λ m. ground arith, λ p. ground arith)
    | inr d ↦ (λ m. ground arith, λ p. ground arith)
  ]
  | inr u ↦ elim (Bool-cases (leb 6 down)) [
    | inl d ↦ (λ m. ground arith, λ p. ground arith)
    | inr d ↦ (λ m. ground arith, λ p. ground arith)
  ]
]

module _ {F : Type 0} (lt : F → F → Bool) (lt_asymm : (a b : F) → lt a b ≡ true → lt b a ≡ false)
    (b : Baseline F) where
  -- The latest point is above the upper limit, or else below the lower one.
  abbrev pub IsBeyond : SpcViolation → List F → Type 0
  IsBeyond w [] = ⊥
  IsBeyond w (x ∷ h) =
      (w.rule ≡ beyond_3sigma)
      × (((w.direction ≡ alto) × (lt b.ucl x ≡ true))
          ⊎ ((w.direction ≡ bajo) × (lt b.ucl x ≡ false) × (lt x b.lcl ≡ true)))

  -- The last eight points are on one side of the mean.
  abbrev pub IsOneSided : SpcViolation → List F → Type 0
  IsOneSided w g =
      (w.rule ≡ same_side_8)
      × (((w.direction ≡ alto) × OnSide lt b above 8 g)
          ⊎ ((w.direction ≡ bajo) × OnSide lt b below 8 g))

  -- The last six points rise, or fall.
  abbrev pub IsTrend : SpcViolation → List F → Type 0
  IsTrend w g =
      (w.rule ≡ trend_6)
      × (((w.direction ≡ alto) × Rising lt lt_asymm 6 g)
          ⊎ ((w.direction ≡ bajo) × Falling lt lt_asymm 6 g))

  emit1-In :
      (h : List F) (j : ℕ) (x : F) (w : SpcViolation)
      → In w (emit1 lt b tt j x) ↔ ((w.index ≡ j) × IsBeyond w (x ∷ h))
  emit1-In h j x w = elim (Bool-cases (lt b.ucl x)) [
    | inl u ↦ (λ m. ground arith, λ e. ground arith)
    | inr u ↦ elim (Bool-cases (lt x b.lcl)) [
      | inl l ↦ (λ m. ground arith, λ e. ground arith)
      | inr l ↦ (λ m. ground arith, λ e. ground arith)
    ]
  ]

  above≢level : above ≢ level
  above≢level e = cc

  below≢level : below ≢ level
  below≢level e = cc

  emit2-In :
      (h : List F) (j : ℕ) (x : F) (w : SpcViolation)
      → In w (emit2 lt b (sides lt b h) j x) ↔ ((w.index ≡ j) × IsOneSided w (x ∷ h))
  emit2-In h j x w =
      one_sided (sides lt b (x ∷ h)) (OnSide-iff lt b above 7 (x ∷ h) above≢level)
        (OnSide-iff lt b below 7 (x ∷ h) below≢level) level_zero
    where
      level_zero : (sides lt b (x ∷ h)).0 ≡ level → (sides lt b (x ∷ h)).1 ≡ 0
      level_zero = sides-level lt b x h

      one_sided :
          (st : Side × ℕ)
          → OnSide lt b above 8 (x ∷ h) ↔ ((st.0 ≡ above) × (8 ≤ st.1))
          → OnSide lt b below 8 (x ∷ h) ↔ ((st.0 ≡ below) × (8 ≤ st.1))
          → (st.0 ≡ level → st.1 ≡ 0)
          → In w (
              if leb 8 st.1
              then record { rule = same_side_8; index = j; direction = side_direction st.0 } ∷ []
              else [])
            ↔ ((w.index ≡ j) × IsOneSided w (x ∷ h))
      one_sided (above, run) (a, a') (c, c') z =
          (λ m. ground (arith, a' (refl, ground arith)), λ p. ground arith)
      one_sided (below, run) (a, a') (c, c') z =
          (λ m. ground (arith, c' (refl, ground arith)), λ p. ground arith)
      one_sided (level, run) (a, a') (c, c') z = (λ m. ground (arith, z refl), λ p. ground arith)

  emit3-In :
      (h : List F) (j : ℕ) (x : F) (w : SpcViolation)
      → In w (emit3 lt (counts lt lt_asymm h) j x) ↔ ((w.index ≡ j) × IsTrend w (x ∷ h))
  emit3-In [] j x w = (λ m. absurd m, λ p. ground arith)
  emit3-In (y ∷ h) j x w =
      trended (counts lt lt_asymm (y ∷ h)) (counts-latest lt lt_asymm y h)
        (Rising-iff lt lt_asymm 5 x (y ∷ h)) (Falling-iff lt lt_asymm 5 x (y ∷ h))
    where
      trended :
          (st : Option F × ℕ × ℕ)
          → st.0 ≡ some y
          → Rising lt lt_asymm 6 (x ∷ y ∷ h) ↔ (6 ≤ (next3 lt st x).1)
          → Falling lt lt_asymm 6 (x ∷ y ∷ h) ↔ (6 ≤ (next3 lt st x).2)
          → In w (emit3 lt st j x) ↔ ((w.index ≡ j) × IsTrend w (x ∷ y ∷ h))
      trended (none, u, d) e up down = absurd (cc)
      trended (some v, u, d) e (up, up') (down, down') =
          let t = next3 lt (some v, u, d) x in
          let (to, from) = emission-In j t.1 t.2 w in
          (
            λ m. elim (to m) [
              | inl (i, r, k, l) ↦ (i, (r, inl (k, up' l)))
              | inr (i, r, k, l) ↦ (i, (r, inr (k, down' l)))
            ],
            λ (i, (r, p)). elim p [
              | inl (k, c) ↦ from (inl (i, r, k, up c))
              | inr (k, c) ↦ from (inr (i, r, k, down c))
            ],
          )

  -- A violation is in `check_rules` exactly when its index is that of a point, and there, over the
  -- points up to it: rule 1, the point is above the upper limit (high), or else below the lower one
  -- (low); rule 2, the last eight points are all above the mean (high) or all below it (low);
  -- rule 3, the last six points rise (high) or fall (low) strictly. The order test is asymmetric.
  pub check_rules-In :
      (values : List (Option F)) (w : SpcViolation)
      → In w (check_rules lt values b) ↔ (
          (g : List F) × (history [] (present values) w.index ≡ some g)
          × (IsBeyond w g ⊎ (IsOneSided w g ⊎ IsTrend w g)))
  unfolding check_rules
  check_rules-In values w =
      let pts = present values in
      let r1 = loop-In (λ s v. s) (emit1 lt b) tt IsBeyond emit1-In w pts in
      let r2 = loop-In (next2 lt b) (emit2 lt b) (level, 0) IsOneSided emit2-In w pts in
      let r3 = loop-In (next3 lt) (emit3 lt) (none, 1, 1) IsTrend emit3-In w pts in
      (
        λ m. elim (In-append w (rule1 lt b pts) (rule2 lt b pts ++ rule3 lt pts) m) [
          | inl l ↦ let (g, k, p) = r1.0 l in (g, k, inl p)
          | inr r ↦ elim (In-append w (rule2 lt b pts) (rule3 lt pts) r) [
            | inl l ↦ let (g, k, p) = r2.0 l in (g, k, inr (inl p))
            | inr l ↦ let (g, k, p) = r3.0 l in (g, k, inr (inr p))
          ]
        ],
        λ (g, k, p). elim p [
          | inl p ↦
              In-append_left w (rule1 lt b pts) (rule2 lt b pts ++ rule3 lt pts) (r1.1 (g, k, p))
          | inr (inl p) ↦
              In-append_right w (rule1 lt b pts) (rule2 lt b pts ++ rule3 lt pts)
                (In-append_left w (rule2 lt b pts) (rule3 lt pts) (r2.1 (g, k, p)))
          | inr (inr p) ↦
              In-append_right w (rule1 lt b pts) (rule2 lt b pts ++ rule3 lt pts)
                (In-append_right w (rule2 lt b pts) (rule3 lt pts) (r3.1 (g, k, p)))
        ],
      )

-- The direction of a listed violation decides the label.
any-In :
    (p : SpcViolation → Bool) (vs : List SpcViolation)
    → any p vs ≡ true
    → (w : SpcViolation) × In w vs × (p w ≡ true)
any-In p [] h = absurd (cc)
any-In p (v ∷ vs) h = elim (Bool-cases (p v)) [
  | inl e ↦ (v, inl refl, e)
  | inr e ↦ let (w, i, q) = any-In p vs (ground arith) in (w, inr i, q)
]

In-any :
    (p : SpcViolation → Bool) (vs : List SpcViolation) (w : SpcViolation)
    → In w vs
    → p w ≡ true
    → any p vs ≡ true
In-any p [] w i e = absurd i
In-any p (v ∷ vs) w (inl q) e = ground (arith, ap p q)
In-any p (v ∷ vs) w (inr i) e = ground (arith, In-any p vs w i e)

abbrev pub Some : Direction → List SpcViolation → Type 0
Some d vs = (w : SpcViolation) × In w vs × (w.direction ≡ d)

any-bajo : (vs : List SpcViolation) → (any is_bajo vs ≡ true) ↔ Some bajo vs
any-bajo vs = (
  λ h. let (w, i, e) = any-In is_bajo vs h in (w, i, ground arith),
  λ (w, i, e). In-any is_bajo vs w i (ground arith),
)

any-alto : (vs : List SpcViolation) → (any is_alto vs ≡ true) ↔ Some alto vs
any-alto vs = (
  λ h. let (w, i, e) = any-In is_alto vs h in (w, i, ground arith),
  λ (w, i, e). In-any is_alto vs w i (ground arith),
)

drift_label-degradacion : (vs : List SpcViolation) → (drift_label vs ≡ degradacion) ↔ Some bajo vs
unfolding drift_label
drift_label-degradacion [] = (λ h. absurd (ground arith), λ (w, i, e). absurd i)
drift_label-degradacion (v ∷ vs) = (
  λ h. (any-bajo (v ∷ vs)).0 (ground arith),
  λ s. let e = (any-bajo (v ∷ vs)).1 s in ground arith,
)

drift_label-mejora :
    (vs : List SpcViolation) → (drift_label vs ≡ mejora) ↔ (Some alto vs × ¬ (Some bajo vs))
unfolding drift_label
drift_label-mejora [] = (λ h. absurd (ground arith), λ ((w, i, e), n). absurd i)
drift_label-mejora (v ∷ vs) = (
  λ h. ((any-alto (v ∷ vs)).0 (ground arith), λ s. let e = (any-bajo (v ∷ vs)).1 s in ground arith),
  λ (s, n).
      let e = (any-alto (v ∷ vs)).1 s in
      elim (Bool-cases (any is_bajo (v ∷ vs))) [
        | inl y ↦ absurd (n ((any-bajo (v ∷ vs)).0 y))
        | inr y ↦ ground arith
      ],
)

drift_label-estable : (vs : List SpcViolation) → (drift_label vs ≡ estable) ↔ (vs ≡ [])
unfolding drift_label
drift_label-estable [] = (λ _. refl, λ _. refl)
drift_label-estable (v ∷ vs) = (λ h. ground arith, λ e. absurd (cc))

module _ {F : Type 0} (lt : F → F → Bool) (values : List (Option F)) (b : Baseline F) where
  -- `detect_drift` answers "degradacion" exactly when some violation is low, "mejora" exactly when
  -- some is high and none is low, and "estable" exactly when there is no violation.
  pub detect_drift_lem :
      ((detect_drift lt values b ≡ degradacion) ↔ Some bajo (check_rules lt values b))
      × ((detect_drift lt values b ≡ mejora)
          ↔ (Some alto (check_rules lt values b) × ¬ (Some bajo (check_rules lt values b))))
      × ((detect_drift lt values b ≡ estable) ↔ (check_rules lt values b ≡ []))
  unfolding detect_drift
  detect_drift_lem =
      let vs = check_rules lt values b in
      (drift_label-degradacion vs, drift_label-mejora vs, drift_label-estable vs)

-- If the eight latest scores at some index are all below the mean, the agent's trend is
-- "degradacion", whatever the other scores are. The order test is asymmetric.
pub below_mean-degradacion :
    {F : Type 0} (lt : F → F → Bool)
    → ((a b : F) → lt a b ≡ true → lt b a ≡ false)
    → (b : Baseline F) (values : List (Option F)) (i : ℕ) (g : List F)
    → history [] (present values) i ≡ some g
    → OnSide lt b below 8 g
    → detect_drift lt values b ≡ degradacion
below_mean-degradacion lt asym b values i g k o =
    let w : SpcViolation = record { rule = same_side_8; index = i; direction = bajo } in
    (detect_drift_lem lt values b).0.1
      (w, (check_rules-In lt asym b values w).1 (g, k, inr (inl (refl, inr (refl, o)))), refl)
