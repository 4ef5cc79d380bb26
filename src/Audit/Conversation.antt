-- ===== src/Audit/Conversation.antt =====
-- One conversation of an audit: the body of the loop of `_run` in app/workers/audit.py.
pub mod Examples
use insyta_api.Prelude.{
  ℕ, suc, ◌+◌, leb, ltb, Bool, true, false, not, ◌&&◌, ◌||◌, ◌==◌, Option, none, some, List, [],
  ◌∷◌, ◌++◌, map, Text, txt, text_eq, any, take, length, mem_text, if◌then◌else◌,
}
use insyta_api.Prelude.Int.{ℤ}
use insyta_api.Llm.{LlmUsage}
use insyta_api.Judge.{join, or_else}
use insyta_api.Grounding.{Guarded, guard_verdicts, or_blank}
use insyta_api.Rubric.{EvaluationResponse}
use insyta_api.Rubric.Mapping.{MessageVerdict}
use insyta_api.Rubric.Scoring.{truthy}
use insyta_api.Rubric.Segment.{Segment, problematico}
use insyta_api.Reputation.{
  hash_user_key, get_user_note, update_agent_reputation, update_user_reputation,
}
use insyta_api.Validators.Amounts.{Floats, Json}
use insyta_api.Signals.Fraud.{FraudFlag, fraud_flag_names}
use insyta_api.Audit.Counter.{Counter, count}
use insyta_api.Audit.Tables.{
  AuditMessage, Conversation, Reviewed, Evaluation, MessageEvaluation, AuditRow, Tables,
  find_conversation, has_evaluation, persist_conversation_eval, persist_rubric_columns, message_at,
  persist_message_evals,
}
use insyta_api.Audit.Context.{Setting, eval_context, conv_context, flow_context}
use insyta_api.Audit.Review.{Readers, review}

-- An exception: `FatalLLMError` with its text, or another with its name and text.
pub data Failure : Type 0 where
  fatal_llm : Text → Failure
  other_error : Text → Failure

pub data Attempt (A : Type 0) : Type 0 where
  gives : A → Attempt A
  fails : Failure → Attempt A

-- A value without an exception, then what is done with it.
abbrev pub then_do : {A B : Type 0} → Attempt A → (A → Attempt B) → Attempt B
then_do (gives a) f = f a
then_do (fails e) f = fails e

-- An item of `unhandled`, an example, and the examples of an issue.
pub record Unhandled : Type 0 where
  pub contact : Text
  pub preview : Text
  pub note : Text

pub record Example : Type 0 where
  pub note : Text
  pub snippet : Text

abbrev pub Examples : Type 0
Examples = List (Text × List Example)

-- The variables of the loop; those that only the log reads are left out.
pub record Totals : Type 0 where
  pub issue_counter : Counter
  pub critical_count : ℕ
  pub low_conf_verdicts : ℕ
  pub evaluated : ℕ
  pub msg_evals : ℕ
  pub unhandled : List Unhandled
  pub unhandled_seen : List ℕ
  pub examples : Examples
  pub agent_ids : List ℕ
  pub processed : ℕ
  pub seen_sigs : List Text

-- What a run is given: the audit, the outcome of the evaluation and of the judge for a conversation
-- and a context, the hash, the names of the settings, and the threshold for vetoes.
pub record Work (F : Type 0) : Type 0 where
  pub audit_id : ℕ
  pub setting : Setting
  pub precios : Json F
  pub floats : Floats F
  pub readers : Readers
  pub sha256_hex : Text → Text
  pub veto_threshold : ℕ
  pub evaluate : List AuditMessage → Option Text → Attempt (EvaluationResponse × LlmUsage)
  pub judge : List AuditMessage → Text → Attempt (List MessageVerdict)

-- `content_signature` of the contents (app/services/report_metrics.py).
unfoldable pub content_signature : (Text → Text) → List AuditMessage → Text
unfolding join
content_signature sha256_hex msgs =
    sha256_hex (join (txt "␟") (map (λ (m : AuditMessage). or_blank m.content) msgs))

-- `v.issue_type` as a condition.
abbrev pub issue_of : MessageVerdict → Option Text
issue_of v = elim v.issue_type [ none ↦ none | some [] ↦ none | some (c ∷ t) ↦ some (c ∷ t) ]

-- An example for an issue, if there is a snippet and fewer than two are kept; the list is made in
-- any case.
unfoldable pub add_example : Text → Text → Option Text → Examples → Examples
unfolding text_eq
add_example issue note snippet [] = elim snippet [
  | none ↦ (issue, []) ∷ []
  | some [] ↦ (issue, []) ∷ []
  | some (c ∷ s) ↦ (issue, record { note = note; snippet = take 240 (c ∷ s) } ∷ []) ∷ []
]
add_example issue note snippet ((k, es) ∷ rest) =
    let later = add_example issue note snippet rest in
    if text_eq k issue
    then elim snippet [
      | none ↦ (k, es) ∷ rest
      | some [] ↦ (k, es) ∷ rest
      | some (c ∷ s) ↦
          if ltb (length es) 2
          then (k, es ++ record { note = note; snippet = take 240 (c ∷ s) } ∷ []) ∷ rest
          else (k, es) ∷ rest
    ]
    else (k, es) ∷ later

-- `seq_to_anon.get(seq)`
abbrev pub anonymized_at : ℤ → List AuditMessage → Option Text
anonymized_at seq msgs = elim (message_at seq msgs) [ none ↦ none | some m ↦ m.content_anonymized ]

abbrev pub has_id : ℕ → List ℕ → Bool
has_id id ids = any (λ n. n == id) ids

-- An issue that no duplicate has counted already, with its example.
unfoldable pub tally_issue : Conversation → Bool → MessageVerdict → Text → Totals → Totals
unfolding count add_example message_at
tally_issue conv is_dup v issue t = if is_dup then t else record t {
  issue_counter = count issue t.issue_counter;
  examples = add_example issue (or_blank v.note) (anonymized_at v.seq conv.messages) t.examples;
}

-- An issue that the flow does not handle, once for a conversation.
unfoldable pub tally_unhandled : Conversation → MessageVerdict → Text → Totals → Totals
unfolding text_eq or_else
tally_unhandled conv v issue t =
    if (text_eq issue (txt "alcance")
        || (text_eq issue (txt "alucinacion") || text_eq issue (txt "contradiccion")))
      && not (has_id conv.id t.unhandled_seen)
    then record t {
      unhandled_seen = conv.id ∷ t.unhandled_seen;
      unhandled =
          t.unhandled
          ++ record {
            contact = or_else conv.contact_name conv.external_id;
            preview = or_blank conv.preview;
            note = or_else v.note issue;
          }
            ∷ [];
    }
    else t

-- The turn of a verdict.
unfoldable pub tally_verdict : Conversation → Bool → MessageVerdict → Option Text → Totals → Totals
unfolding tally_issue tally_unhandled
tally_verdict conv is_dup v none t = t
tally_verdict conv is_dup v (some issue) t =
    tally_unhandled conv v issue (tally_issue conv is_dup v issue t)

-- The loop over the verdicts.
unfoldable pub tally_verdicts : Conversation → Bool → List MessageVerdict → Totals → Totals
unfolding tally_verdict
tally_verdicts conv is_dup [] t = t
tally_verdicts conv is_dup (v ∷ vs) t =
    tally_verdicts conv is_dup vs (tally_verdict conv is_dup v (issue_of v) t)
