-- ===== src/Rubric/Mapping.antt =====
-- app/services/rubric_mapping.py: the rubric of a conversation from its holistic evaluation, the
-- verdicts on its messages and the deterministic flags.
pub mod Evidence
use insyta_api.Prelude.{
  ℕ, Bool, true, false, ◌||◌, Option, none, some, List, [], ◌∷◌, ◌++◌, Text, txt, text_eq,
  if◌then◌else◌, sorted_set, is_some,
}
use insyta_api.Prelude.Int.{ℤ}
use insyta_api.Rubric.{
  RubricDimension, RubricResponse, Sentiment, positivo, neutral, negativo, Tone, positive, negative,
  EvaluationResponse, validate_rubric,
}
use insyta_api.Rubric.Scoring.{truthy}

-- A verdict of the message judge, as far as the mapping reads it (app/llm/audit_judge.py).
pub record MessageVerdict : Type 0 where
  pub seq : ℤ
  pub label : Text
  pub issue_type : Option Text
  pub issue_subtype : Option Text
  pub severity : Option Text
  pub note : Option Text

-- `_TONE_TO_SCORE`
abbrev pub tone_to_score : Tone → ℕ
tone_to_score positive = 5
tone_to_score Tone.neutral = 3
tone_to_score negative = 1

-- `_TONE_TO_SENT`
abbrev pub tone_to_sentiment : Tone → Sentiment
tone_to_sentiment positive = positivo
tone_to_sentiment Tone.neutral = neutral
tone_to_sentiment negative = negativo

abbrev pub tone_name : Tone → Text
tone_name positive = txt "positive"
tone_name Tone.neutral = txt "neutral"
tone_name negative = txt "negative"

-- `_dim`
abbrev pub dim : Text → ℕ → ℤ → Text → RubricDimension
dim dim_id score turn_id why = record {
  id = dim_id;
  score = some score;
  turn_id = some turn_id;
  justificacion = why;
}

-- `issue_type == "alucinacion"`
unfoldable pub is_hallucination : MessageVerdict → Bool
is_hallucination v = elim v.issue_type [ none ↦ false | some t ↦ text_eq t (txt "alucinacion") ]

-- `next((v for v in verdicts if …), None)`
unfoldable pub first_hallucination : List MessageVerdict → Option MessageVerdict
unfolding is_hallucination
first_hallucination [] = none
first_hallucination (v ∷ vs) = if is_hallucination v then some v else first_hallucination vs

-- `confidence`, in hundredths.
unfoldable pub mapped_confidence : Option MessageVerdict → Bool → ℕ
mapped_confidence none has_signal = if has_signal then 50 else 65
mapped_confidence (some aluc) has_signal = elim aluc.severity [
  | none ↦ 80
  | some sev ↦ if text_eq sev (txt "baja") || text_eq sev (txt "media") then 40 else 80
]

-- `dims`
unfoldable pub mapped_dimensions :
    EvaluationResponse → Option MessageVerdict → ℤ → List RubricDimension
mapped_dimensions parsed aluc last_turn =
    dim (txt "A1") (elim aluc [ none ↦ 5 | some _ ↦ 1 ])
      (elim aluc [ none ↦ last_turn | some v ↦ v.seq ])
      (elim aluc [ none ↦ txt "Sin invención vs fuente" | some _ ↦ txt "Alucinación detectada" ])
    ∷ dim (txt "A4") (if parsed.scope_violation then 1 else 5) last_turn (txt "Alcance/política")
    ∷ dim (txt "C2") (if parsed.resolution then 5 else 2) last_turn (txt "Resolución")
    ∷ dim (txt "C4") parsed.efficiency last_turn (txt "Comprensión/eficiencia")
    ∷ dim (txt "E1") (tone_to_score parsed.tone) last_turn (txt "Tono " ++ tone_name parsed.tone)
    ∷ dim (txt "E4") parsed.satisfaction last_turn (txt "Sentimiento del usuario")
    ∷ []

-- `trajectory`
abbrev mapped_trajectory : Tone → List Sentiment
mapped_trajectory Tone.neutral = neutral ∷ []
mapped_trajectory positive = neutral ∷ positivo ∷ []
mapped_trajectory negative = neutral ∷ negativo ∷ []

-- The dictionary that `map_eval_to_rubric` hands to `model_validate`.
unfoldable pub mapped_rubric :
    EvaluationResponse → List MessageVerdict → ℤ → List Text → List Text → RubricResponse
unfolding first_hallucination mapped_confidence mapped_dimensions sorted_set
mapped_rubric parsed verdicts last_turn det_veto fraude_flags =
    let aluc = first_hallucination verdicts in
    let veto = det_veto ++ (if is_some aluc then txt "A1_alucinacion" ∷ [] else []) in
    let has_signal = truthy veto || truthy fraude_flags in
    record {
      dimensiones = mapped_dimensions parsed aluc last_turn;
      veto_flags = sorted_set veto;
      confidence = mapped_confidence aluc has_signal;
      sentimiento_trayectoria = mapped_trajectory parsed.tone;
      fraude_flags = sorted_set fraude_flags;
      resumen = parsed.summary;
      requiere_revision_humana = has_signal;
    }

-- `map_eval_to_rubric`; `none` would be a `ValidationError`.
unfoldable pub map_eval_to_rubric :
    EvaluationResponse → List MessageVerdict → ℤ → List Text → List Text → Option RubricResponse
unfolding mapped_rubric validate_rubric
map_eval_to_rubric parsed verdicts last_turn det_veto fraude_flags =
    validate_rubric (mapped_rubric parsed verdicts last_turn det_veto fraude_flags)
