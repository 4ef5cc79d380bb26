-- ===== src/Audit/Review.antt =====
-- The deterministic review of a conversation in app/workers/audit.py: vetoes, attacks, rubric, score and segment.
pub mod Ceded
use insyta_api.Prelude.{
  ℕ, ltb, Bool, true, false, not, ◌&&◌, ◌||◌, Option, none, some, List, [], ◌∷◌, ◌++◌, map, Text,
  txt, text_eq, Unicode, if◌then◌else◌, sorted_set, mem_text,
}
use insyta_api.Prelude.Int.{ℤ, pos}
use insyta_api.Judge.{join}
use insyta_api.Rubric.{EvaluationResponse, RubricResponse}
use insyta_api.Rubric.Mapping.{MessageVerdict, map_eval_to_rubric}
use insyta_api.Rubric.Scoring.{ScoreResult, compute_scores, truthy}
use insyta_api.Rubric.Segment.{Segment, problematico, derive_segment}
use insyta_api.Validators.Cbu.{find_cbus}
use insyta_api.Validators.Amounts.{Floats, Json}
use insyta_api.Validators.Prices.{PriceCheck, check_prices}
use insyta_api.Signals.{Turn, turns}
use insyta_api.Signals.Fraud.{FraudFlag, invalid_cbus, truthy_json, detect_fraud, fraud_flag_names}
use insyta_api.Signals.Adversarial.{AdversarialResult, detect_adversarial}
use insyta_api.Audit.Tables.{AuditMessage, Reviewed}

-- What the detectors are given: the characters that count as the same, the digits beyond the
-- decimal ones, the decoding of Base64, and how a number is written.
pub record Readers : Type 0 where
  pub unicode : Unicode
  pub same : ℕ → ℕ → Bool
  pub other_digit : ℕ → Bool
  pub decode : Text → Option Text
  pub show : ℕ → Text

abbrev pub turn_of : AuditMessage → Turn
turn_of m = record { seq = some m.seq; role = m.role; content = m.content }

-- `msgs[-1]["seq"] if msgs else 0`
abbrev pub last_seq : List AuditMessage → ℤ
last_seq [] = pos 0
last_seq (m ∷ []) = m.seq
last_seq (m ∷ n ∷ ms) = last_seq (n ∷ ms)

-- The texts of the bot that are not empty, joined.
abbrev pub filled : List (ℤ × Text) → List Text
filled [] = []
filled ((n, t) ∷ ms) = if truthy t then t ∷ filled ms else filled ms

-- Whether some text of the bot has an invalid CBU; `none` is an exception.
unfoldable pub bad_cbu : Unicode → List (ℤ × Text) → Option Bool
unfolding invalid_cbus find_cbus
bad_cbu u [] = some false
bad_cbu u ((n, t) ∷ ms) = elim (invalid_cbus u (find_cbus u t)) [
  | none ↦ none
  | some k ↦ elim (bad_cbu u ms) [ none ↦ none | some b ↦ some (ltb 0 k || b) ]
]

-- `ceded`
abbrev pub gave_in : AdversarialResult → EvaluationResponse → Bool
gave_in a parsed = a.is_adversarial && (a.bot_ceded || parsed.scope_violation)

-- The flags with the one of a bot that gave in.
unfoldable pub with_jailbreak : Bool → List Text → List Text
unfolding sorted_set mem_text
with_jailbreak ceded veto =
    if ceded && not (mem_text (txt "B1_jailbreak") veto)
    then sorted_set (txt "B1_jailbreak" ∷ veto)
    else veto

-- The rubric, marked for a human if the judge cited something invented.
abbrev pub with_review : Bool → RubricResponse → RubricResponse
with_review low_confidence r =
    if low_confidence then record r { requiere_revision_humana = true } else r

-- What is written of a rubric, with all flags.
unfoldable pub reviewed_of :
    ℕ → Bool → AdversarialResult → Bool → List Text → RubricResponse → Reviewed
unfolding compute_scores derive_segment
reviewed_of threshold low_confidence a ceded veto mapped =
    let rubric = with_review low_confidence mapped in
    let score = compute_scores rubric [] veto threshold in
    record {
      rubric = rubric;
      score = score;
      segment = derive_segment rubric score;
      is_adversarial = a.is_adversarial;
      attack_type = a.attack_type;
      attack_repelled = if a.is_adversarial then some (not ceded) else none;
    }

-- The review once the flags are known; `none` is a `ValidationError`.
unfoldable pub reviewed_with :
    ℕ
    → EvaluationResponse
    → List MessageVerdict
    → Bool
    → ℤ
    → AdversarialResult
    → List Text
    → List Text
    → Option Reviewed
unfolding with_jailbreak map_eval_to_rubric reviewed_of
reviewed_with threshold parsed verdicts low_confidence last_turn a fraude_names flags =
    let ceded = gave_in a parsed in
    let veto = with_jailbreak ceded flags in
    elim (map_eval_to_rubric parsed verdicts last_turn veto fraude_names) [
      | none ↦ none
      | some mapped ↦ some (reviewed_of threshold low_confidence a ceded veto mapped)
    ]

module _ (rd : Readers) {F : Type 0} (o : Floats F) (precios : Json F) where
  -- The first test of `_det_veto`.
  unfoldable pub price_veto : Text → Option Bool
  unfolding check_prices
  price_veto bot_text =
      if truthy_json o precios
      then elim (check_prices rd.unicode rd.same rd.other_digit o 0 bot_text precios) [
        | none ↦ none
        | some r ↦ some (not r.ok)
      ]
      else some false

  -- `_det_veto`; `none` is an exception.
  unfoldable pub det_veto : List Turn → Option (List Text)
  unfolding price_veto bad_cbu turns sorted_set join
  det_veto ms =
      let bot = turns (txt "assistant") ms in
      elim (price_veto (join (txt " ") (filled bot))) [
        | none ↦ none
        | some invented ↦ elim (bad_cbu rd.unicode bot) [
          | none ↦ none
          | some bad ↦ some (
              sorted_set (
                (if invented then txt "A1_alucinacion" ∷ [] else [])
                ++ (if bad then txt "A5_cbu_invalido" ∷ [] else [])))
        ]
      ]

  -- The whole review: the flags of fraud, and what is written. `none` is an exception.
  unfoldable pub review :
      ℕ
      → List AuditMessage
      → EvaluationResponse
      → List MessageVerdict
      → Bool
      → Option (List FraudFlag × Reviewed)
  unfolding detect_fraud det_veto detect_adversarial fraud_flag_names reviewed_with
  review threshold msgs parsed verdicts low_confidence =
      let ms = map turn_of msgs in
      elim (detect_fraud rd.unicode rd.same rd.other_digit o precios rd.show ms) [
        | none ↦ none
        | some fraud ↦ elim (det_veto ms) [
          | none ↦ none
          | some flags ↦
              elim (reviewed_with threshold parsed verdicts low_confidence (last_seq msgs)
                (detect_adversarial rd.unicode rd.same rd.decode ms) (fraud_flag_names fraud)
                flags) [ none ↦ none | some r ↦ some (fraud, r) ]
        ]
      ]
