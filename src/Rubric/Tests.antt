-- ===== src/Rubric/Tests.antt =====
-- Tests of the rubric, its score and the segment, and the theorems at concrete rubrics.
use insyta_api.Prelude.{
  ℕ, ◌≤◌, ◌≡◌, refl, inl, inr, true, false, none, some, [], ◌∷◌, arith, txt, text_eq,
}
use insyta_api.Prelude.Int.{pos}
use insyta_api.Rubric.{RubricResponse, EvaluationResponse, Tone, positivo, evaluation_fits}
use insyta_api.Rubric.Scoring.{compute_scores}
use insyta_api.Rubric.Scoring.Average.{compute_scores-le}
use insyta_api.Rubric.Scoring.Veto.{veto_firm_iff}
use insyta_api.Rubric.Mapping.{dim, MessageVerdict, first_hallucination, mapped_rubric}
use insyta_api.Rubric.Mapping.Evidence.{det_flag-capped, hallucination-firm}
use insyta_api.Rubric.Segment.{problematico, cliente_ideal, derive_segment}
use insyta_api.Rubric.Segment.Priority.{derive_segment-problematico}

-- Two scores in category A and one in E, with the flag of an invalid CBU.
abbrev flagged : RubricResponse
flagged = record {
  dimensiones =
      dim (txt "A1") 5 (pos 1) [] ∷ dim (txt "A4") 2 (pos 1) [] ∷ dim (txt "E4") 3 (pos 2) [] ∷ [];
  veto_flags = txt "A5_cbu_invalido" ∷ [];
  confidence = 50;
  sentimiento_trayectoria = positivo ∷ [];
  fraude_flags = [];
  resumen = [];
  requiere_revision_humana = false;
}

-- (30 * 62.5 + 15 * 50) / 45 = 58.3…
flagged_score : compute_scores flagged [] [] 60 ≡ record {
  score_bruto = some 58;
  score_final = some 20;
  has_veto = true;
  veto_flags = txt "A5_cbu_invalido" ∷ [];
  confidence = 50;
  veto_firm = true;
}
unfolding compute_scores
flagged_score = refl

compute_scores-le_example : 20 ≤ 100
unfolding compute_scores
compute_scores-le_example =
    (compute_scores-le flagged [] [] 60
        ((λ s e. ground arith), ((λ s e. ground arith), ((λ s e. ground arith), tt)))).1
      20 refl

abbrev even : RubricResponse
even = record flagged {
  dimensiones = dim (txt "A1") 4 (pos 1) [] ∷ dim (txt "f3") 4 (pos 1) [] ∷ [];
  veto_flags = [];
}

even_bruto : (compute_scores even [] [] 60).score_bruto ≡ some 75
unfolding compute_scores
even_bruto = refl

veto_firm_iff_example : (compute_scores flagged [] [] 60).veto_firm ≡ true
veto_firm_iff_example =
    (veto_firm_iff flagged [] [] 60).1 (inr (inl (txt "A5_cbu_invalido", inl refl, inl refl)))

abbrev jailbroken : RubricResponse
jailbroken = record flagged { veto_flags = txt "B1_jailbreak" ∷ [] }

derive_segment-problematico_example :
    derive_segment jailbroken (compute_scores jailbroken [] [] 60) ≡ problematico
unfolding compute_scores
derive_segment-problematico_example =
    (derive_segment-problematico jailbroken (compute_scores jailbroken [] [] 60)).1 (inr (inl refl))

abbrev ideal : RubricResponse
ideal = record flagged {
  dimensiones = dim (txt "A1") 5 (pos 1) [] ∷ dim (txt "F1") 4 (pos 1) [] ∷ [];
  veto_flags = [];
}

ideal_segment : derive_segment ideal (compute_scores ideal [] [] 60) ≡ cliente_ideal
unfolding derive_segment compute_scores
ideal_segment = refl

abbrev evaluation : EvaluationResponse
evaluation = record {
  score = 90;
  resolution = true;
  satisfaction = 5;
  tone = Tone.positive;
  frustration = false;
  escalated = false;
  efficiency = 4;
  scope_violation = false;
  topic = txt "envíos";
  summary = txt "ok";
}

abbrev aluc : MessageVerdict
aluc = record {
  seq = pos 3;
  label = txt "error";
  issue_type = some (txt "alucinacion");
  issue_subtype = none;
  severity = some (txt "media");
  note = none;
}

evaluation_valid : evaluation_fits evaluation ≡ true
unfolding evaluation_fits
evaluation_valid = refl

det_flag-capped_example :
    let r = mapped_rubric evaluation [] (pos 7) (txt "B1_jailbreak" ∷ []) [] in
    (s : ℕ) × ((compute_scores r [] (txt "B1_jailbreak" ∷ []) 60).score_final ≡ some s) × (s ≤ 20)
det_flag-capped_example =
    det_flag-capped evaluation [] (pos 7) (txt "B1_jailbreak" ∷ []) [] (txt "B1_jailbreak") 60
      (inl refl)

first_aluc : first_hallucination (aluc ∷ []) ≡ some aluc
unfolding first_hallucination text_eq
first_aluc = refl

hallucination-firm_example :
    (compute_scores (mapped_rubric evaluation (aluc ∷ []) (pos 7) [] []) [] [] 40).veto_firm ≡ true
hallucination-firm_example =
    (hallucination-firm evaluation (aluc ∷ []) (pos 7) [] aluc 40 first_aluc).1
      (unfold text_eq in omega arith)
