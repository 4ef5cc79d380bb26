-- ===== src/Audit/Step.antt =====
-- The turn of one conversation in the loop of `_run` (app/workers/audit.py), in one transaction.
pub mod Parts
pub mod Loop
pub mod Skipped
pub mod Rerun
pub mod Duplicates
pub mod Private
use insyta_api.Prelude.{
  ℕ, suc, ◌+◌, ◌*◌, leb, ltb, Bool, true, false, not, ◌&&◌, ◌||◌, Option, none, some, List, [], ◌∷◌,
  ◌++◌, map, Text, txt, mem_text, length, is_some, if◌then◌else◌,
}
use insyta_api.Llm.{LlmUsage}
use insyta_api.Judge.{join}
use insyta_api.Grounding.{Guarded, guard_verdicts, or_blank}
use insyta_api.Rubric.{EvaluationResponse}
use insyta_api.Rubric.Mapping.{MessageVerdict}
use insyta_api.Rubric.Scoring.{truthy}
use insyta_api.Rubric.Segment.{Segment, problematico}
use insyta_api.Reputation.{
  UserReputation, hash_user_key, get_user_note, update_agent_reputation, update_user_reputation,
}
use insyta_api.Signals.Fraud.{FraudFlag, fraud_flag_names}
use insyta_api.Audit.Counter.{Counter, count}
use insyta_api.Audit.Tables.{
  AuditMessage, Conversation, Reviewed, Evaluation, AuditRow, Tables, find_conversation,
  has_evaluation, persist_conversation_eval, persist_rubric_columns, persist_message_evals,
}
use insyta_api.Audit.Context.{Setting, eval_context, conv_context, flow_context}
use insyta_api.Audit.Review.{Readers, review}
use insyta_api.Audit.Conversation.{
  Failure, other_error, Attempt, gives, fails, then_do, Totals, Work, content_signature, has_id,
  tally_verdicts,
}

-- The note on the history of a user (`user_note` of app/services/reputation.py).
unfoldable pub history_text : (ℕ → Text) → Option ℕ → Option Text
history_text show none = none
history_text show (some n) = some (
    txt "HISTORIAL DEL USUARIO: marcado como riesgoso ("
    ++ (show n
        ++ txt
            " intento(s) de fraude previos). Leé sus mensajes con más suspicacia (comprobantes, CBU, presión por descuentos)."))

abbrev pub is_problem : Segment → Bool
is_problem problematico = true
is_problem _ = false

-- `issue_counter[f"fraude:{name}"] += 1`
unfoldable pub count_frauds : List Text → Counter → Counter
unfolding count
count_frauds [] c = c
count_frauds (name ∷ names) c = count_frauds names (count (txt "fraude:" ++ name) c)

abbrev pub add_id : ℕ → List ℕ → List ℕ
add_id id ids = if has_id id ids then ids else id ∷ ids

-- The tables with the row of an answer, and what it is read as.
unfoldable pub stored :
    {F : Type 0}
    → Conversation
    → Tables F
    → EvaluationResponse × LlmUsage
    → Tables F × Option EvaluationResponse
unfolding persist_conversation_eval
stored conv tables (parsed, usage) = (
  record tables {
    evaluations =
        persist_conversation_eval
          (record {
            conversation_id = conv.id;
            project_id = conv.project_id;
            org_id = conv.org_id;
            agent_id = conv.agent_id;
            parsed = parsed;
            usage = usage;
            reviewed = none;
          })
          tables.evaluations;
  },
  some parsed,
)

-- One more conversation is processed.
abbrev pub progress : {F : Type 0} → Tables F × Totals → Tables F × Totals
progress (tables, t) = (
  record tables { audit = record tables.audit { evaluated_count = suc t.processed } },
  record t { processed = suc t.processed },
)

module _ {F : Type 0} (w : Work F) where
  -- The evaluation of a conversation that has none; the second part is `new_parsed`.
  unfoldable pub evaluate_new :
      Conversation → Option Text → Tables F → Attempt (Tables F × Option EvaluationResponse)
  evaluate_new conv user_hist tables =
      if has_evaluation conv.id tables.evaluations
      then gives (tables, none)
      else then_do (w.evaluate conv.messages (conv_context (eval_context w.setting) user_hist))
          (λ (answer : EvaluationResponse × LlmUsage). gives (stored conv tables answer))

  -- What is written of a review: the columns and the reputations.
  unfoldable pub write_review :
      Conversation → EvaluationResponse → List FraudFlag → Reviewed → Tables F → Tables F
  unfolding persist_rubric_columns update_agent_reputation update_user_reputation hash_user_key
  write_review conv parsed fraud r tables = record tables {
    evaluations = persist_rubric_columns conv.id r tables.evaluations;
    agents =
        update_agent_reputation conv.agent_id conv.org_id conv.project_id
          (some (100 * parsed.score)) r.score.has_veto tables.agents;
    users =
        update_user_reputation conv.project_id (hash_user_key w.sha256_hex conv.external_id)
          conv.org_id (some (100 * parsed.satisfaction))
          (parsed.resolution && leb 4 parsed.satisfaction) (truthy fraud) tables.users;
  }

  -- The totals after a review.
  unfoldable pub tally_review : Bool → List FraudFlag → Reviewed → Totals → Totals
  unfolding count_frauds fraud_flag_names
  tally_review is_dup fraud r t = record t {
    issue_counter =
        if is_dup then t.issue_counter else count_frauds (fraud_flag_names fraud) t.issue_counter;
    critical_count =
        if r.score.has_veto || (truthy fraud || is_problem r.segment)
        then suc t.critical_count
        else t.critical_count;
  }

  -- The third part of the turn, on a new evaluation only.
  unfoldable pub review_new :
      Conversation
      → Bool
      → List MessageVerdict
      → Bool
      → Option EvaluationResponse
      → Tables F × Totals
      → Attempt (Tables F × Totals)
  unfolding review write_review tally_review
  review_new conv is_dup verdicts low none (tables, t) = gives (tables, t)
  review_new conv is_dup verdicts low (some parsed) (tables, t) =
      elim (review w.readers w.floats w.precios w.veto_threshold conv.messages parsed verdicts
        low) [
          | none ↦ fails (other_error (txt "ValueError"))
          | some (fraud, r) ↦
              gives (write_review conv parsed fraud r tables, tally_review is_dup fraud r t)
        ]

  -- The totals once the evaluation is there and the verdicts are guarded.
  unfoldable pub tally_guarded : Conversation → Bool → Bool → Guarded → ℕ → Totals → Totals
  unfolding tally_verdicts
  tally_guarded conv is_dup is_new g rows t =
      let counted = tally_verdicts conv is_dup g.adjusted t in
      record counted {
        evaluated = if is_new then suc counted.evaluated else counted.evaluated;
        low_conf_verdicts =
            if is_dup
            then counted.low_conf_verdicts
            else counted.low_conf_verdicts + length g.flagged_seqs;
        msg_evals = counted.msg_evals + rows;
      }

  -- The verdicts as the guard leaves them.
  abbrev pub guarded : Conversation → List MessageVerdict → Guarded
  guarded conv verdicts =
      let text = join (txt " ") (map (λ (m : AuditMessage). or_blank m.content) conv.messages) in
      guard_verdicts w.readers.unicode verdicts (some text) w.setting.source_of_truth

  -- The verdicts stored and counted.
  unfoldable pub tally_turn :
      Conversation → Bool → Bool → Guarded → Tables F × Totals → Tables F × Totals
  unfolding persist_message_evals tally_guarded
  tally_turn conv is_dup is_new g (tables, t) =
      let (rows, sent) =
        persist_message_evals w.audit_id conv g.adjusted tables.message_evaluations in
      (record tables { message_evaluations = rows }, tally_guarded conv is_dup is_new g sent t)

  -- The verdicts guarded, stored and counted, and the review; then the progress.
  unfoldable pub judge_turn :
      Conversation
      → Bool
      → Option EvaluationResponse
      → List MessageVerdict
      → Tables F × Totals
      → Attempt (Tables F × Totals)
  unfolding guard_verdicts tally_turn review_new join
  judge_turn conv is_dup parsed verdicts s =
      let g = guarded conv verdicts in
      then_do
        (review_new conv is_dup g.adjusted (truthy g.flagged_seqs) parsed
          (tally_turn conv is_dup (is_some parsed) g s))
        (λ (after : Tables F × Totals). gives (progress after))

  -- The turn of a conversation that is there.
  unfoldable pub turn_of : Conversation → Tables F × Totals → Attempt (Tables F × Totals)
  unfolding content_signature history_text get_user_note evaluate_new judge_turn flow_context
      mem_text
  turn_of conv (tables, t) =
      let sig = content_signature w.sha256_hex conv.messages in
      let is_dup = mem_text sig t.seen_sigs in
      let hist =
        history_text w.readers.show
          (get_user_note w.sha256_hex conv.project_id conv.external_id tables.users) in
      let t1 = record t {
        agent_ids = add_id conv.agent_id t.agent_ids;
        seen_sigs = if is_dup then t.seen_sigs else sig ∷ t.seen_sigs;
      } in
      then_do (evaluate_new conv hist tables) (λ (e : Tables F × Option EvaluationResponse).
        then_do (w.judge conv.messages (flow_context w.setting hist))
          (λ (verdicts : List MessageVerdict). judge_turn conv is_dup e.1 verdicts (e.0, t1)))

  -- The turn of an id; one without a conversation is passed over.
  unfoldable pub process_id : ℕ → Tables F × Totals → Attempt (Tables F × Totals)
  unfolding find_conversation turn_of
  process_id id (tables, t) = elim (find_conversation id tables.conversations) [
    | none ↦ gives (tables, t)
    | some conv ↦ turn_of conv (tables, t)
  ]

  -- The loop: the tables as far as they are committed, and the totals or the exception.
  unfoldable pub process_ids : List ℕ → Tables F × Totals → Tables F × Attempt Totals
  unfolding process_id
  process_ids [] (tables, t) = (tables, gives t)
  process_ids (id ∷ ids) (tables, t) = elim (process_id id (tables, t)) [
    | fails e ↦ (tables, fails e)
    | gives (tables', t') ↦ process_ids ids (tables', t')
  ]
