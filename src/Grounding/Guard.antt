-- ===== src/Grounding/Guard.antt =====
-- What `guard_verdicts` does to the verdicts, and to the confidence of the rubric made of them.
use insyta_api.Prelude.{
  ℕ, ◌≤◌, ◌≡◌, refl, ap, subst, ◌⊎◌, inl, inr, Bool, true, false, ◌&&◌, ◌||◌, ◌∙◌, Option, none,
  some, List, [], ◌∷◌, ◌++◌, if◌then◌else◌, arith, In, Text, txt, text_eq, Bool-cases, Option-cases,
  length, length-take, take, Unicode,
}
use insyta_api.Prelude.Int.{ℤ}
use insyta_api.Rubric.Scoring.{truthy}
use insyta_api.Rubric.Mapping.{
  MessageVerdict, is_hallucination, first_hallucination, mapped_confidence,
}
use insyta_api.Judge.{join}
use insyta_api.Grounding.{
  ungrounded_tokens, downgrade_severity, marked_note, marked, guard_verdict, Guarded, guard_step,
  guard_verdicts,
}

-- A verdict whose note cites something that is not grounded.
abbrev pub Ungrounded : Unicode → Option Text → Option Text → MessageVerdict → Type 0
Ungrounded u evidence sources v =
    (note : Text) × (v.note ≡ some note)
    × (truthy note ≡ true)
    × (truthy (ungrounded_tokens u (some note) evidence sources) ≡ true)

-- The severities of the schema, and those that a marked verdict may keep.
abbrev pub severities : List Text
severities = txt "baja" ∷ txt "media" ∷ txt "alta" ∷ txt "critica" ∷ []

abbrev pub low_severities : List Text
low_severities = txt "baja" ∷ txt "media" ∷ []

-- The verdict `w` is the verdict `v` marked.
abbrev pub MarkedAs : MessageVerdict → MessageVerdict → Type 0
MarkedAs v w =
    (w.seq ≡ v.seq)
    × (w.label ≡ v.label)
    × (w.issue_type ≡ v.issue_type)
    × (w.issue_subtype ≡ v.issue_subtype)
    × (w.severity ≡ downgrade_severity v.severity)
    × ((note : Text) × (w.note ≡ some note) × (length note ≤ 400))

-- Each verdict in turn is marked, with its number among the numbers, or left as it is.
abbrev pub GuardedAs :
    Unicode
    → Option Text
    → Option Text
    → List MessageVerdict
    → List MessageVerdict
    → List ℤ
    → Type 0
GuardedAs u evidence sources [] [] seqs = seqs ≡ []
GuardedAs u evidence sources [] (w ∷ ws) seqs = ⊥
GuardedAs u evidence sources (v ∷ vs) [] seqs = ⊥
GuardedAs u evidence sources (v ∷ vs) (w ∷ ws) seqs =
    (Ungrounded u evidence sources v
      × MarkedAs v w
      × ((rest : List ℤ) × (seqs ≡ v.seq ∷ rest) × GuardedAs u evidence sources vs ws rest))
    ⊎ ((¬ (Ungrounded u evidence sources v)) × (w ≡ v) × GuardedAs u evidence sources vs ws seqs)

marked-MarkedAs :
    (v : MessageVerdict) (note : Text) (ung : List Text) → MarkedAs v (marked v note ung)
unfolding marked marked_note
marked-MarkedAs v note ung =
    let t = note ++ (txt " [⚠ dato no verificado: " ++ (join (txt ", ") ung ++ txt "]")) in
    (refl, refl, refl, refl, refl, (take 400 t, refl, omega (arith, length-take 400 t)))

module _ (u : Unicode) (evidence sources : Option Text) where
  guard_verdict-none :
      (v : MessageVerdict)
      → guard_verdict u evidence sources v ≡ none
      → ¬ (Ungrounded u evidence sources v)
  unfolding guard_verdict
  guard_verdict-none v h (note, e, t, q) = ground arith

  guard_verdict-some :
      (v w : MessageVerdict)
      → guard_verdict u evidence sources v ≡ some w
      → Ungrounded u evidence sources v × MarkedAs v w
  unfolding guard_verdict
  guard_verdict-some v w h = elim (Option-cases v.note) [
    | inl e ↦ absurd (ground arith)
    | inr (note, e) ↦
        let ung = ungrounded_tokens u (some note) evidence sources in
        elim (Bool-cases (truthy ung && truthy note)) [
          | inl b ↦
              let k : marked v note ung ≡ w = ground arith in
              (
                (note, e, ground arith, ground arith),
                subst (λ x. MarkedAs v x) k (marked-MarkedAs v note ung),
              )
          | inr b ↦ absurd (ground arith)
        ]
  ]

  -- After the guard, the verdict of a message.
  abbrev after : MessageVerdict → Option MessageVerdict → MessageVerdict
  after v none = v
  after v (some w) = w

  after-is_hallucination :
      (v : MessageVerdict) (o : Option MessageVerdict)
      → guard_verdict u evidence sources v ≡ o
      → is_hallucination (after v o) ≡ is_hallucination v
  after-is_hallucination v none e = refl
  after-is_hallucination v (some w) e =
      let (h, m) = guard_verdict-some v w e in
      unfold is_hallucination in
      ap (λ (t : Option Text). elim t [ none ↦ false | some s ↦ text_eq s (txt "alucinacion") ]) m.2

  first_hallucination-step :
      (v : MessageVerdict) (o : Option MessageVerdict) (rest : Guarded)
      → first_hallucination (guard_step v o rest).adjusted ≡ (
          if is_hallucination (after v o)
          then some (after v o)
          else first_hallucination rest.adjusted)
  unfolding first_hallucination
  first_hallucination-step v none rest = refl
  first_hallucination-step v (some w) rest = refl

  -- The first hallucination after the guard is the one before it, marked or not.
  first_hallucination-guarded :
      (vs : List MessageVerdict) (v : MessageVerdict)
      → first_hallucination vs ≡ some v
      → first_hallucination (guard_verdicts u vs evidence sources).adjusted
        ≡ some (after v (guard_verdict u evidence sources v))
  first_hallucination-guarded [] v h = absurd (unfold first_hallucination in ground arith)
  first_hallucination-guarded (x ∷ vs) v h =
      let o = guard_verdict u evidence sources x in
      let rest = guard_verdicts u vs evidence sources in
      let step : first_hallucination (guard_verdicts u (x ∷ vs) evidence sources).adjusted ≡ (
          if is_hallucination (after x o)
          then some (after x o)
          else first_hallucination rest.adjusted) =
        unfold guard_verdicts in first_hallucination-step x o rest in
      let same = after-is_hallucination x o refl in
      elim (Bool-cases (is_hallucination x)) [
        | inl e ↦
            let q : x ≡ v = unfold first_hallucination in ground arith in
            rw (step, same, e) (ap (λ y. some (after y (guard_verdict u evidence sources y))) q)
        | inr e ↦
            rw (step, same, e)
              (first_hallucination-guarded vs v (unfold first_hallucination in ground arith))
      ]

lowered :
    (w : MessageVerdict) (s : Text) (b : Bool)
    → w.severity ≡ downgrade_severity (some s)
    → In s severities
    → mapped_confidence (some w) b ≡ 40
unfolding mapped_confidence downgrade_severity text_eq
lowered w s b q i =
    let conf : Option Text → ℕ = λ o. elim o [
      | none ↦ 80
      | some t ↦ if text_eq t (txt "baja") || text_eq t (txt "media") then 40 else 80
    ] in
    let f = ap conf q in
    elim i [
      | inl p ↦ f ∙ ap (λ t. conf (downgrade_severity (some t))) p
      | inr (inl p) ↦ f ∙ ap (λ t. conf (downgrade_severity (some t))) p
      | inr (inr (inl p)) ↦ f ∙ ap (λ t. conf (downgrade_severity (some t))) p
      | inr (inr (inr (inl p))) ↦ f ∙ ap (λ t. conf (downgrade_severity (some t))) p
      | inr (inr (inr (inr j))) ↦ absurd j
    ]

-- If the first hallucination that the judge reports cites something that is not grounded and has a
-- severity of the schema, the guard brings the confidence of the rubric down to 0.4.
pub guard_verdicts-mapped_confidence :
    (u : Unicode) (evidence sources : Option Text) (vs : List MessageVerdict) (v : MessageVerdict)
    (s : Text) (b : Bool)
    → first_hallucination vs ≡ some v
    → Ungrounded u evidence sources v
    → v.severity ≡ some s
    → In s severities
    → mapped_confidence (first_hallucination (guard_verdicts u vs evidence sources).adjusted) b ≡ 40
guard_verdicts-mapped_confidence u evidence sources vs v s b h g e i =
    let q = first_hallucination-guarded u evidence sources vs v h in
    elim (Option-cases (guard_verdict u evidence sources v)) [
      | inl n ↦ absurd (guard_verdict-none u evidence sources v n g)
      | inr (w, k) ↦
          let (_, m) = guard_verdict-some u evidence sources v w k in
          let sev : w.severity ≡ downgrade_severity (some s) = m.4 ∙ ap downgrade_severity e in
          ap (λ o. mapped_confidence o b) (q ∙ ap (λ o. some (after u evidence sources v o)) k)
          ∙ lowered w s b sev i
    ]
