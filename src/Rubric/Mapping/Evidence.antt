-- ===== src/Rubric/Mapping/Evidence.antt =====
-- The mapping always gives a valid rubric, and what the flags do to the score downstream.
use insyta_api.Prelude.{
  ℕ, ◌≤◌, ◌≡◌, refl, ◌↔◌, inl, inr, Bool, true, false, ◌||◌, Option, none, some, List, [], ◌∷◌,
  ◌++◌, arith, All, In, In-append_left, Text, txt, text_eq, sorted_set, sorted_set-In, length,
  if◌then◌else◌, is_some,
}
use insyta_api.Prelude.Int.{ℤ, pos}
use insyta_api.Rubric.{
  RubricDimension, RubricResponse, EvaluationResponse, evaluation_fits, validate_rubric, Tone,
  positive, negative, validate_dimensions, dimension_fits,
}
use insyta_api.Rubric.Scoring.{always_firm, compute_scores}
use insyta_api.Rubric.Scoring.Veto.{veto_firm_iff, score_final_lem}
use insyta_api.Rubric.Mapping.{
  dim, tone_to_score, tone_name, MessageVerdict, first_hallucination, mapped_confidence,
  mapped_dimensions, mapped_rubric, map_eval_to_rubric,
}

abbrev IsValid : RubricDimension → Type 0
IsValid d = (dimension_fits d ≡ true) × (is_some d.turn_id ≡ true)

valid_dimensions : (ds : List RubricDimension) → All IsValid ds → validate_dimensions ds ≡ some ds
unfolding validate_dimensions
valid_dimensions [] a = refl
valid_dimensions (d ∷ ds) ((f, t), a) = ground (arith, valid_dimensions ds a)

tone_fits :
    (t : Tone)
    → dimension_fits (dim (txt "E1") (tone_to_score t) (pos 0) (txt "Tono " ++ tone_name t)) ≡ true
tone_fits positive = refl
tone_fits Tone.neutral = refl
tone_fits negative = refl

valid_rubric :
    (r : RubricResponse)
    → r.confidence ≤ 100
    → length r.resumen ≤ 2000
    → All IsValid r.dimensiones
    → validate_rubric r ≡ some r
unfolding validate_rubric
valid_rubric r c l a = ground (arith, valid_dimensions r.dimensiones a)

-- `severity == s`
abbrev pub has_severity : MessageVerdict → Text → Bool
has_severity v s = elim v.severity [ none ↦ false | some t ↦ text_eq t s ]

severity_confidence :
    (sev : Option Text)
    → (elim sev as (λ _. ℕ) [
      | none ↦ 80
      | some t ↦ if text_eq t (txt "baja") || text_eq t (txt "media") then 40 else 80
    ])
      ≡ (if elim sev as (λ _. Bool) [ none ↦ false | some t ↦ text_eq t (txt "baja") ]
            || elim sev as (λ _. Bool) [ none ↦ false | some t ↦ text_eq t (txt "media") ]
          then 40
          else 80)
severity_confidence none = refl
severity_confidence (some t) = refl

not_always_firm : (f : Text) → In f (txt "A1_alucinacion" ∷ []) → ¬ (In f always_firm)
not_always_firm f i a = ground arith

module _ (parsed : EvaluationResponse) (verdicts : List MessageVerdict) (last_turn : ℤ)
    (det_veto fraude_flags : List Text) where
  mapped_confidence-le : (aluc : Option MessageVerdict) (b : Bool) → mapped_confidence aluc b ≤ 100
  unfolding mapped_confidence
  mapped_confidence-le none b = ground arith
  mapped_confidence-le (some v) b = ground arith

  dims_fit :
      (aluc : Option MessageVerdict)
      → evaluation_fits parsed ≡ true
      → All IsValid (mapped_dimensions parsed aluc last_turn)
  unfolding mapped_dimensions evaluation_fits
  dims_fit none h = (
    (refl, refl),
    (
      (ground arith, refl),
      (
        (ground arith, refl),
        ((ground arith, refl), ((tone_fits parsed.tone, refl), ((ground arith, refl), tt))),
      ),
    ),
  )
  dims_fit (some v) h = (
    (refl, refl),
    (
      (ground arith, refl),
      (
        (ground arith, refl),
        ((ground arith, refl), ((tone_fits parsed.tone, refl), ((ground arith, refl), tt))),
      ),
    ),
  )

  -- On an evaluation within its field constraints the mapping never raises, and validation leaves
  -- the mapped rubric as it is.
  pub map_eval_to_rubric_total :
      evaluation_fits parsed ≡ true
      → map_eval_to_rubric parsed verdicts last_turn det_veto fraude_flags
        ≡ some (mapped_rubric parsed verdicts last_turn det_veto fraude_flags)
  unfolding map_eval_to_rubric
  map_eval_to_rubric_total h =
      let aluc = first_hallucination verdicts in
      valid_rubric (mapped_rubric parsed verdicts last_turn det_veto fraude_flags)
        (mapped_confidence-le aluc _) (unfold evaluation_fits in ground arith) (dims_fit aluc h)

  -- A deterministic flag that the caller passes both to the mapping and to the scoring, as the
  -- audit does, caps the score at 20 whatever the evaluation, the verdicts and the threshold say.
  pub det_flag-capped :
      (f : Text) (threshold : ℕ)
      → In f det_veto
      → let r = mapped_rubric parsed verdicts last_turn det_veto fraude_flags in
        (s : ℕ) × ((compute_scores r [] det_veto threshold).score_final ≡ some s) × (s ≤ 20)
  det_flag-capped f threshold i =
      let r = mapped_rubric parsed verdicts last_turn det_veto fraude_flags in
      let firm =
        (veto_firm_iff r [] det_veto threshold).1 (inl (f, In-append_left f det_veto [] i)) in
      let (s, e, le, _) = (score_final_lem r [] det_veto threshold).0 firm in (s, e, le)

-- Without deterministic flags, a hallucination verdict is a firm veto exactly when the confidence
-- that its severity maps to (0.4 for "baja" and "media", else 0.8) reaches the threshold.
pub hallucination-firm :
    (parsed : EvaluationResponse) (verdicts : List MessageVerdict) (last_turn : ℤ)
    (fraude_flags : List Text) (v : MessageVerdict) (threshold : ℕ)
    → first_hallucination verdicts ≡ some v
    → let r = mapped_rubric parsed verdicts last_turn [] fraude_flags in
      ((compute_scores r [] [] threshold).veto_firm ≡ true) ↔ (
        threshold
        ≤ (if has_severity v (txt "baja") || has_severity v (txt "media") then 40 else 80))
hallucination-firm parsed verdicts last_turn fraude_flags v threshold e =
    let r = mapped_rubric parsed verdicts last_turn [] fraude_flags in
    let (to, from) = veto_firm_iff r [] [] threshold in
    let flag = txt "A1_alucinacion" in
    let flags : r.veto_flags ≡ sorted_set (flag ∷ []) = unfold mapped_rubric in ground arith in
    let conf : r.confidence
        ≡ (if has_severity v (txt "baja") || has_severity v (txt "media") then 40 else 80) =
      unfold mapped_rubric in rw (e, mapped_confidence) (severity_confidence v.severity) in
    (
      λ h. elim (to h) [
        | inl (f, i) ↦ absurd i
        | inr (inl (f, i, a)) ↦
            absurd (not_always_firm f ((sorted_set-In f (flag ∷ [])).0 (rw (← flags) i)) a)
        | inr (inr (i, l)) ↦ rw (← conf) l
      ],
      λ l. from (
          inr (
            inr (
              (
                flag,
                In-append_left flag r.veto_flags []
                    (rw flags ((sorted_set-In flag (flag ∷ [])).1 (inl refl))),
              ),
              rw conf l,
            ))),
    )
