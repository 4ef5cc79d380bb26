-- ===== src/Rubric/Segment.antt =====
-- app/services/segmentation.py: the segment of a conversation.
pub mod Priority
use insyta_api.Prelude.{
  ℕ, ◌-◌, Bool, true, false, ◌&&◌, ◌||◌, Option, none, some, List, [], ◌∷◌, leb, Text, txt, text_eq,
  if◌then◌else◌, last?, mem_text, is_some,
}
use insyta_api.Rubric.{RubricDimension, RubricResponse, Sentiment, positivo, negativo}
use insyta_api.Rubric.Scoring.{ScoreResult, truthy}

pub data Segment : Type 0 where
  cliente_ideal satisfecho neutral insatisfecho potencial_lead problematico : Segment

-- `d.id.upper()` on ASCII identifiers.
unfoldable pub upper : Text → Text
upper [] = []
upper (c ∷ s) = (if leb b'a' c && leb c b'z' then c - 32 else c) ∷ upper s

-- `_dim`
unfoldable pub find_dim : List RubricDimension → Text → Option ℕ
unfolding upper
find_dim [] dim_id = none
find_dim (d ∷ ds) dim_id =
    if text_eq (upper d.id) dim_id && is_some d.score then d.score else find_dim ds dim_id

-- `x is not None and p(x)`, and `x is None or p(x)`.
abbrev pub holds : (ℕ → Bool) → Option ℕ → Bool
holds p none = false
holds p (some x) = p x

abbrev pub holds_or_none : (ℕ → Bool) → Option ℕ → Bool
holds_or_none p none = true
holds_or_none p (some x) = p x

abbrev pub ends_in : Sentiment → Option Sentiment → Bool
ends_in positivo (some positivo) = true
ends_in Sentiment.neutral (some Sentiment.neutral) = true
ends_in negativo (some negativo) = true
ends_in _ _ = false

-- The ladder of `derive_segment` on what it reads: the fraud signal, the last sentiment, the
-- dimensions E4, F1 and F3, and the final score.
unfoldable pub segment_of :
    Bool → Option Sentiment → Option ℕ → Option ℕ → Option ℕ → Option ℕ → Segment
segment_of problem end_sent e4 f1 f3 sf =
    if problem
    then problematico
    else if holds (λ x. leb x 2) e4 || ends_in negativo end_sent
    then insatisfecho
    else if holds (λ x. leb 80 x) sf && holds_or_none (λ x. leb 4 x) e4 && holds (λ x. leb 4 x) f1
    then cliente_ideal
    else if holds (λ x. leb 3 x) f3 || holds (λ x. leb 4 x) f1
    then potencial_lead
    else if holds (λ x. leb 4 x) e4 || ends_in positivo end_sent || holds (λ x. leb 70 x) sf
    then satisfecho
    else Segment.neutral

-- `derive_segment`
unfoldable pub derive_segment : RubricResponse → ScoreResult → Segment
unfolding find_dim segment_of mem_text
derive_segment rubric score =
    segment_of (truthy rubric.fraude_flags || mem_text (txt "B1_jailbreak") score.veto_flags)
      (last? rubric.sentimiento_trayectoria) (find_dim rubric.dimensiones (txt "E4"))
      (find_dim rubric.dimensiones (txt "F1")) (find_dim rubric.dimensiones (txt "F3"))
      score.score_final
