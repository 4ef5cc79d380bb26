-- ===== src/Audit/Step/Parts.antt =====
-- A turn that gives something, taken apart: the evaluation, the verdicts of the judge, and the rest.
use insyta_api.Prelude.{
  ◌≡◌, refl, Bool, Option, none, some, List, ◌∷◌, arith, Text, txt, mem_text, sym, is_some,
  if◌then◌else◌,
}
use insyta_api.Rubric.{EvaluationResponse}
use insyta_api.Rubric.Mapping.{MessageVerdict}
use insyta_api.Reputation.{get_user_note}
use insyta_api.Rubric.Scoring.{truthy}
use insyta_api.Signals.Fraud.{FraudFlag}
use insyta_api.Audit.Tables.{Conversation, Tables, Reviewed}
use insyta_api.Audit.Review.{review}
use insyta_api.Audit.Context.{flow_context}
use insyta_api.Audit.Conversation.{
  other_error, Attempt, gives, fails, then_do, Totals, Work, content_signature,
}
use insyta_api.Audit.Step.{
  history_text, add_id, evaluate_new, guarded, tally_turn, review_new, write_review, tally_review,
  progress, judge_turn, turn_of,
}

-- A sequence of two steps that gives something: both do.
pub then_do-gives :
    {A B : Type 0} (x : Attempt A) (f : A → Attempt B) (b : B)
    → then_do x f ≡ gives b
    → (a : A) × (x ≡ gives a) × (f a ≡ gives b)
then_do-gives (gives a) f b h = (a, refl, h)
then_do-gives (fails e) f b h = absurd (ground arith)

pub gives-inj : {A : Type 0} (a b : A) → gives a ≡ gives b → a ≡ b
gives-inj a b h = cc

module _ {F : Type 0} (w : Work F) (conv : Conversation) where
  abbrev pub is_duplicate : Totals → Bool
  is_duplicate t = mem_text (content_signature w.sha256_hex conv.messages) t.seen_sigs

  -- The totals with the agent and the signature of the conversation.
  abbrev pub noted : Totals → Totals
  noted t = record t {
    agent_ids = add_id conv.agent_id t.agent_ids;
    seen_sigs =
        if is_duplicate t
        then t.seen_sigs
        else content_signature w.sha256_hex conv.messages ∷ t.seen_sigs;
  }

  abbrev pub history : Tables F → Option Text
  history a =
      history_text w.readers.show
        (get_user_note w.sha256_hex conv.project_id conv.external_id a.users)

  pub turn_of-parts :
      (a : Tables F) (t : Totals) (after : Tables F × Totals)
      → turn_of w conv (a, t) ≡ gives after
      → (x : Tables F × Option EvaluationResponse) × (vs : List MessageVerdict) × (evaluate_new w
            conv
            (history a)
            a
          ≡ gives x)
        × (judge_turn w conv (is_duplicate t) x.1 vs (x.0, noted t) ≡ gives after)
  unfolding turn_of
  turn_of-parts a t after h =
      let (x, p, q) =
        then_do-gives (evaluate_new w conv (history a) a)
          (λ (e : Tables F × Option EvaluationResponse).
            then_do (w.judge conv.messages (flow_context w.setting (history a)))
              (λ (vs : List MessageVerdict).
                judge_turn w conv (is_duplicate t) e.1 vs (e.0, noted t)))
          after h in
      let (vs, _, r) =
        then_do-gives (w.judge conv.messages (flow_context w.setting (history a)))
          (λ (vs : List MessageVerdict). judge_turn w conv (is_duplicate t) x.1 vs (x.0, noted t))
          after q in
      (x, vs, p, r)

  pub judge_turn-parts :
      (dup : Bool) (parsed : Option EvaluationResponse) (vs : List MessageVerdict)
      (s after : Tables F × Totals)
      → judge_turn w conv dup parsed vs s ≡ gives after
      → let g = guarded w conv vs in
        (u : Tables F × Totals) × (review_new w conv dup g.adjusted
            (truthy g.flagged_seqs)
            parsed
            (tally_turn w conv dup (is_some parsed) g s)
          ≡ gives u)
        × (progress u ≡ after)
  unfolding judge_turn
  judge_turn-parts dup parsed vs s after h =
      let g = guarded w conv vs in
      let (u, p, q) =
        then_do-gives
          (review_new w conv dup g.adjusted (truthy g.flagged_seqs) parsed
            (tally_turn w conv dup (is_some parsed) g s))
          (λ (x : Tables F × Totals). gives (progress x)) after h in
      (u, p, gives-inj (progress u) after q)

  -- What a review that is made writes.
  pub review_new-parts :
      (dup : Bool) (vs : List MessageVerdict) (low : Bool) (parsed : EvaluationResponse)
      (s u : Tables F × Totals)
      → review_new w conv dup vs low (some parsed) s ≡ gives u
      → (fraud : List FraudFlag) × (r : Reviewed) × (review w.readers w.floats w.precios
            w.veto_threshold conv.messages parsed vs low
          ≡ some (fraud, r))
        × (u ≡ (write_review w conv parsed fraud r s.0, tally_review w dup fraud r s.1))
  unfolding review_new
  review_new-parts dup vs low parsed s u h =
      go (review w.readers w.floats w.precios w.veto_threshold conv.messages parsed vs low) refl h
    where
      go :
          (o : Option (List FraudFlag × Reviewed))
          → review w.readers w.floats w.precios w.veto_threshold conv.messages parsed vs low ≡ o
          → elim o as (λ _. Attempt (Tables F × Totals)) [
            | none ↦ fails (other_error (txt "ValueError"))
            | some (fraud, r) ↦
                gives (write_review w conv parsed fraud r s.0, tally_review w dup fraud r s.1)
          ]
            ≡ gives u
          → (fraud : List FraudFlag) × (r : Reviewed) × (review w.readers w.floats w.precios
                w.veto_threshold conv.messages parsed vs low
              ≡ some (fraud, r))
            × (u ≡ (write_review w conv parsed fraud r s.0, tally_review w dup fraud r s.1))
      go none e k = absurd (ground arith)
      go (some (fraud, r)) e k = (fraud, r, e, sym (gives-inj _ u k))
