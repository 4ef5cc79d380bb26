-- ===== src/Rubric.antt =====
-- The rubric of a conversation (app/llm/schemas.py), its score, the mapping from the holistic
-- evaluation, and the segment derived from both.
pub mod Scoring
pub mod Mapping
pub mod Segment
mod Tests
use insyta_api.Prelude.{
  ℕ, ◌≡◌, Bool, true, false, ◌&&◌, Option, none, some, List, [], ◌∷◌, length, all, leb, Text,
  if◌then◌else◌, is_some,
}
use insyta_api.Prelude.Int.{ℤ}

-- `RubricDimension`
pub record RubricDimension : Type 0 where
  pub id : Text
  pub score : Option ℕ
  pub turn_id : Option ℤ
  pub justificacion : Text

-- The field constraints of `RubricDimension`.
abbrev pub dimension_fits : RubricDimension → Bool
dimension_fits d =
    leb 1 (length d.id)
    && leb (length d.id) 8
    && elim d.score [ none ↦ true | some s ↦ leb 1 s && leb s 5 ]
    && leb (length d.justificacion) 600

-- `_score_requires_evidence`: no turn, no score.
unfoldable pub score_requires_evidence : RubricDimension → RubricDimension
score_requires_evidence d = if is_some d.turn_id then d else record d { score = none }

-- Building a `RubricDimension`: the constraints, then the validator. `none` is a `ValidationError`.
unfoldable pub validate_dimension : RubricDimension → Option RubricDimension
unfolding score_requires_evidence
validate_dimension d = if dimension_fits d then some (score_requires_evidence d) else none

pub data Sentiment : Type 0 where
  positivo neutral negativo : Sentiment

-- `RubricResponse`; the confidence is in hundredths.
pub record RubricResponse : Type 0 where
  pub dimensiones : List RubricDimension
  pub veto_flags : List Text
  pub confidence : ℕ
  pub sentimiento_trayectoria : List Sentiment
  pub fraude_flags : List Text
  pub resumen : Text
  pub requiere_revision_humana : Bool

-- Validation of the dimensions of a `RubricResponse`, in order.
unfoldable pub validate_dimensions : List RubricDimension → Option (List RubricDimension)
unfolding validate_dimension
validate_dimensions [] = some []
validate_dimensions (d ∷ ds) = elim (validate_dimension d) [
  | none ↦ none
  | some e ↦ elim (validate_dimensions ds) [ none ↦ none | some es ↦ some (e ∷ es) ]
]

-- `RubricResponse.model_validate`
unfoldable pub validate_rubric : RubricResponse → Option RubricResponse
unfolding validate_dimensions
validate_rubric r =
    if leb r.confidence 100 && leb (length r.resumen) 2000
    then elim (validate_dimensions r.dimensiones) [
      | none ↦ none
      | some ds ↦ some (record r { dimensiones = ds })
    ]
    else none

pub data Tone : Type 0 where
  positive neutral negative : Tone

-- `EvaluationResponse`
pub record EvaluationResponse : Type 0 where
  pub score : ℕ
  pub resolution : Bool
  pub satisfaction : ℕ
  pub tone : Tone
  pub frustration : Bool
  pub escalated : Bool
  pub efficiency : ℕ
  pub scope_violation : Bool
  pub topic : Text
  pub summary : Text

-- The field constraints of `EvaluationResponse`; outside them pydantic raises.
unfoldable pub evaluation_fits : EvaluationResponse → Bool
evaluation_fits e =
    leb e.score 100
    && leb 1 e.satisfaction
    && leb e.satisfaction 5
    && leb 1 e.efficiency
    && leb e.efficiency 5
    && leb 1 (length e.topic)
    && leb (length e.topic) 128
    && leb 1 (length e.summary)
    && leb (length e.summary) 2000
