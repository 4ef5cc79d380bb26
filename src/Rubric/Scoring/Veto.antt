-- ===== src/Rubric/Scoring/Veto.antt =====
-- When a veto is firm, and what a firm veto does to the score.
use insyta_api.Prelude.{
  ℕ, ◌≤◌, min, ◌≡◌, refl, ◌↔◌, ◌⊎◌, inl, inr, Bool, true, false, ◌&&◌, ◌||◌, Option, none, some,
  List, [], ◌∷◌, ◌++◌, leb, arith, In, In-append, In-append_left, In-append_right, Text, sorted_set,
  sorted_set-In, mem_text, mem_text_iff, Bool-cases,
}
use insyta_api.Rubric.{RubricResponse}
use insyta_api.Rubric.Scoring.{always_firm, inter, diff, truthy, final_of, compute_scores}

pub truthy_iff : {A : Type 0} (xs : List A) → (truthy xs ≡ true) ↔ ((x : A) × In x xs)
truthy_iff [] = (λ h. absurd (ground arith), λ (x, i). absurd i)
truthy_iff (x ∷ xs) = (λ _. (x, inl refl), λ _. refl)

inter-In : (z : Text) (xs ys : List Text) → In z (inter xs ys) ↔ (In z xs × In z ys)
unfolding inter
inter-In z [] ys = (λ i. absurd i, λ (i, _). absurd i)
inter-In z (x ∷ xs) ys =
    let (to, from) = inter-In z xs ys in
    elim (Bool-cases (mem_text x ys)) [
      | inl m ↦
          rw (m, inter)
            (
              λ i. elim i [
                | inl e ↦ (inl e, rw e ((mem_text_iff x ys).0 m))
                | inr j ↦ (inr (to j).0, (to j).1)
              ],
              λ (i, k). elim i [ inl e ↦ inl e | inr j ↦ inr (from (j, k)) ],
            )
      | inr m ↦
          rw (m, inter)
            (
              λ i. (inr (to i).0, (to i).1),
              λ (i, k). elim i [
                | inl e ↦ absurd (let q = (mem_text_iff x ys).1 (rw (← e) k) in cc)
                | inr j ↦ from (j, k)
              ],
            )
    ]

diff-In : (z : Text) (xs ys : List Text) → In z xs → mem_text z ys ≡ false → In z (diff xs ys)
unfolding diff
diff-In z [] ys i m = absurd i
diff-In z (x ∷ xs) ys (inl e) m =
    let m' : mem_text x ys ≡ false = rw (← e) m in rw (m', diff) (inl e)
diff-In z (x ∷ xs) ys (inr j) m = elim (Bool-cases (mem_text x ys)) [
  | inl n ↦ rw (n, diff) (diff-In z xs ys j m)
  | inr n ↦ rw (n, diff) (inr (diff-In z xs ys j m))
]

module _ (flags det : List Text) (confidence threshold : ℕ) where
  -- Why a veto is firm: a flag of the caller, a flag that is firm by nature, or enough confidence.
  abbrev pub FirmReason : Type 0
  FirmReason =
      ((f : Text) × In f det)
      ⊎ (((f : Text) × In f flags × In f always_firm)
          ⊎ (((f : Text) × In f (flags ++ det)) × (threshold ≤ confidence)))

  abbrev flag_set : List Text
  flag_set = sorted_set (flags ++ det)

  abbrev firm_flags : List Text
  firm_flags = det ++ inter flag_set always_firm

  firm_reason :
      (truthy flag_set
          && (truthy firm_flags || truthy (diff flag_set firm_flags) && leb threshold confidence))
        ≡ true
      → FirmReason
  firm_reason h = elim (Bool-cases (truthy firm_flags)) [
    | inl t ↦
        let (f, i) = (truthy_iff firm_flags).0 t in
        elim (In-append f det (inter flag_set always_firm) i) [
          | inl d ↦ inl (f, d)
          | inr k ↦
              let (s, a) = (inter-In f flag_set always_firm).0 k in
              elim (In-append f flags det ((sorted_set-In f (flags ++ det)).0 s)) [
                | inl g ↦ inr (inl (f, g, a))
                | inr d ↦ inl (f, d)
              ]
        ]
    | inr t ↦
        let (f, i) = (truthy_iff flag_set).0 (ground arith) in
        inr (inr ((f, (sorted_set-In f (flags ++ det)).0 i), ground arith))
  ]

  reason-firm :
      FirmReason
      → (truthy flag_set
          && (truthy firm_flags || truthy (diff flag_set firm_flags) && leb threshold confidence))
        ≡ true
  reason-firm (inl (f, d)) =
      let a =
        (truthy_iff flag_set).1
          (f, (sorted_set-In f (flags ++ det)).1 (In-append_right f flags det d)) in
      let b = (truthy_iff firm_flags).1 (f, In-append_left f det (inter flag_set always_firm) d) in
      ground arith
  reason-firm (inr (inl (f, g, n))) =
      let i = (sorted_set-In f (flags ++ det)).1 (In-append_left f flags det g) in
      let a = (truthy_iff flag_set).1 (f, i) in
      let b = (truthy_iff firm_flags).1 (
        f,
        In-append_right f det (inter flag_set always_firm)
            ((inter-In f flag_set always_firm).1 (i, n)),
      ) in
      ground arith
  reason-firm (inr (inr ((f, m), l))) =
      let i = (sorted_set-In f (flags ++ det)).1 m in
      let a = (truthy_iff flag_set).1 (f, i) in
      elim (Bool-cases (mem_text f firm_flags)) [
        | inl k ↦
            let b = (truthy_iff firm_flags).1 (f, (mem_text_iff f firm_flags).0 k) in ground arith
        | inr k ↦
            let b =
              (truthy_iff (diff flag_set firm_flags)).1 (f, diff-In f flag_set firm_flags i k) in
            ground arith
      ]

final_of-firm :
    (bruto : Option ℕ) (firm : Bool)
    → firm ≡ true
    → (f : ℕ) × (final_of bruto firm ≡ some f) × (f ≤ 20) × ((s : ℕ) → bruto ≡ some s → f ≤ s)
unfolding final_of
final_of-firm none firm h = (20, ground arith, omega arith, λ s e. absurd (cc))
final_of-firm (some b) firm h = (min b 20, ground arith, omega arith, λ s e. ground arith)

final_of-loose : (bruto : Option ℕ) (firm : Bool) → firm ≡ false → final_of bruto firm ≡ bruto
unfolding final_of
final_of-loose none firm h = ground arith
final_of-loose (some b) firm h = ground arith

module _ (r : RubricResponse) (extra det : List Text) (threshold : ℕ) where
  -- A veto is firm exactly when the caller passed a deterministic flag, or a flag of the rubric is
  -- firm by nature (invalid CBU, jailbreak), or there is some flag and the confidence reaches the
  -- threshold.
  pub veto_firm_iff :
      ((compute_scores r extra det threshold).veto_firm ≡ true)
      ↔ FirmReason r.veto_flags (det ++ extra) r.confidence threshold
  unfolding compute_scores
  veto_firm_iff = (
    firm_reason r.veto_flags (det ++ extra) r.confidence threshold,
    reason-firm r.veto_flags (det ++ extra) r.confidence threshold,
  )

  pub score_final_lem :
      let result = compute_scores r extra det threshold in
      (result.veto_firm ≡ true
        → (f : ℕ) × (result.score_final ≡ some f)
          × (f ≤ 20)
          × ((s : ℕ) → result.score_bruto ≡ some s → f ≤ s))
      × (result.veto_firm ≡ false → result.score_final ≡ result.score_bruto)
  unfolding compute_scores
  score_final_lem =
      let result = compute_scores r extra det threshold in
      (
        final_of-firm result.score_bruto result.veto_firm,
        final_of-loose result.score_bruto result.veto_firm,
      )
