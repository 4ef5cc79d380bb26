-- ===== src/Audit/Step/Skipped.antt =====
-- A conversation that has an evaluation already: its turn changes neither evaluations nor reputations.
use insyta_api.Prelude.{
  ℕ, ◌≡◌, refl, sym, ap, subst, ◌∙◌, inl, inr, Bool, true, false, ◌==◌, ==_iff, Option, none, some,
  List, [], ◌∷◌, In, arith, Text, Bool-cases,
}
use insyta_api.Llm.{LlmUsage}
use insyta_api.Rubric.{EvaluationResponse}
use insyta_api.Rubric.Mapping.{MessageVerdict}
use insyta_api.Audit.Tables.{
  Conversation, Reviewed, Evaluation, Tables, find_conversation, has_evaluation,
  persist_conversation_eval, persist_rubric_columns,
}
use insyta_api.Audit.Conversation.{Attempt, gives, Totals, Work}
use insyta_api.Audit.Context.{eval_context, conv_context}
use insyta_api.Rubric.Scoring.{truthy}
use insyta_api.Audit.Step.{
  stored, progress, guarded, tally_turn, evaluate_new, write_review, review_new, judge_turn,
  turn_of, process_id, process_ids,
}
use insyta_api.Audit.Step.Loop.{process_ids-Reaches}
use insyta_api.Audit.Step.Parts.{
  then_do-gives, gives-inj, history, noted, is_duplicate, turn_of-parts, judge_turn-parts,
  review_new-parts,
}

-- What a second run must leave alone.
abbrev pub Same : {F : Type 0} → Tables F → Tables F → Type 0
Same a b =
    (b.evaluations ≡ a.evaluations)
    × (b.agents ≡ a.agents)
    × (b.users ≡ a.users)
    × (b.conversations ≡ a.conversations)

Same-trans : {F : Type 0} (a b c : Tables F) → Same a b → Same b c → Same a c
Same-trans a b c (e, f, g, h) (e', f', g', h') = (e' ∙ e, f' ∙ f, g' ∙ g, h' ∙ h)

module _ {F : Type 0} (w : Work F) where
  judge_turn-Same :
      (conv : Conversation) (dup : Bool) (vs : List MessageVerdict) (a : Tables F) (t : Totals)
      (after : Tables F × Totals)
      → judge_turn w conv dup none vs (a, t) ≡ gives after
      → Same a after.0
  judge_turn-Same conv dup vs a t after h =
      let (u, p, q) = judge_turn-parts w conv dup none vs (a, t) after h in
      let r =
        gives-inj (tally_turn w conv dup false (guarded w conv vs) (a, t)) u
          (unfold review_new in p) in
      subst (λ (x : Tables F × Totals). Same a x.0) (ap progress r ∙ q)
        (unfold tally_turn in (refl, refl, refl, refl))

  pub evaluate_new_skips :
      (conv : Conversation) (hist : Option Text) (a : Tables F)
      (x : Tables F × Option EvaluationResponse)
      → has_evaluation conv.id a.evaluations ≡ true
      → evaluate_new w conv hist a ≡ gives x
      → x ≡ (a, none)
  unfolding evaluate_new
  evaluate_new_skips conv hist a x e h = gives-inj x (a, none) (sym h ∙ rw e refl)

  turn_of-Same :
      (conv : Conversation) (a : Tables F) (t : Totals) (after : Tables F × Totals)
      → has_evaluation conv.id a.evaluations ≡ true
      → turn_of w conv (a, t) ≡ gives after
      → Same a after.0
  turn_of-Same conv a t after e h =
      let (x, vs, p, q) = turn_of-parts w conv a t after h in
      let k = evaluate_new_skips conv (history w conv a) a x e p in
      judge_turn-Same conv (is_duplicate w conv t) vs a (noted w conv t) after (
        subst
          (λ (y : Tables F × Option EvaluationResponse).
            judge_turn w conv (is_duplicate w conv t) y.1 vs (y.0, noted w conv t) ≡ gives after)
          k q)

  -- The conversation of the id, if there is one, has an evaluation.
  abbrev pub Done : Tables F → ℕ → Type 0
  Done a id =
      (conv : Conversation)
      → find_conversation id a.conversations ≡ some conv
      → has_evaluation conv.id a.evaluations ≡ true

  found-Same :
      (id : ℕ) (a : Tables F) (t : Totals) (after : Tables F × Totals)
      → Done a id
      → (o : Option Conversation) → find_conversation id a.conversations ≡ o
      → elim o as (λ _. Attempt (Tables F × Totals)) [
        | none ↦ gives (a, t)
        | some conv ↦ turn_of w conv (a, t)
      ]
        ≡ gives after
      → Same a after.0
  found-Same id a t after d none e h =
      subst (λ (x : Tables F × Totals). Same a x.0) (gives-inj (a, t) after h)
        (refl, refl, refl, refl)
  found-Same id a t after d (some conv) e h = turn_of-Same conv a t after (d conv e) h

  process_id-Same :
      (id : ℕ) (a : Tables F) (t : Totals) (after : Tables F × Totals)
      → Done a id
      → process_id w id (a, t) ≡ gives after
      → Same a after.0
  unfolding process_id
  process_id-Same id a t after d h =
      found-Same id a t after d (find_conversation id a.conversations) refl h

  Done-Same : (a b : Tables F) (id : ℕ) → Same a b → Done a id → Done b id
  Done-Same a b id (e, _, _, c) d conv f =
      ap (λ es. has_evaluation conv.id es) e
      ∙ d conv (ap (λ cs. find_conversation id cs) (sym c) ∙ f)

  -- Over conversations that all have an evaluation, the loop leaves the evaluations and the
  -- reputations alone, whether or not it comes to its end.
  pub process_ids-Same :
      (ids : List ℕ) (a : Tables F) (t : Totals)
      → ((id : ℕ) → In id ids → Done a id)
      → Same a (process_ids w ids (a, t)).0
  process_ids-Same ids a t d =
      let (_, r, _) =
        process_ids-Reaches w (λ s. Same a s.0) ids a t
          (λ id s after i g h.
            Same-trans a s.0 after.0 g
              (process_id-Same id s.0 s.1 after (Done-Same a s.0 id g (d id i)) h))
          (refl, refl, refl, refl) in
      r

  -- Evaluations are added only, and the conversations stay.
  abbrev pub Grows : Tables F → Tables F → Type 0
  Grows a b =
      (b.conversations ≡ a.conversations)
      × ((i : ℕ) → has_evaluation i a.evaluations ≡ true → has_evaluation i b.evaluations ≡ true)

  persist_eval-has :
      (e : Evaluation) (es : List Evaluation)
      → (has_evaluation e.conversation_id (persist_conversation_eval e es) ≡ true)
        × ((i : ℕ)
            → has_evaluation i es ≡ true
            → has_evaluation i (persist_conversation_eval e es) ≡ true)
  unfolding persist_conversation_eval
  persist_eval-has e es = elim (Bool-cases (has_evaluation e.conversation_id es)) [
    | inl h ↦ rw h (h, λ i k. k)
    | inr h ↦ rw h (
      unfold has_evaluation in ground (arith, (==_iff e.conversation_id e.conversation_id).1 refl),
      λ i k. unfold has_evaluation in ground arith,
    )
  ]

  persist_columns-has :
      (id : ℕ) (r : Reviewed) (es : List Evaluation) (i : ℕ)
      → has_evaluation i (persist_rubric_columns id r es) ≡ has_evaluation i es
  unfolding persist_rubric_columns has_evaluation
  persist_columns-has id r [] i = refl
  persist_columns-has id r (e ∷ es) i = elim (Bool-cases (e.conversation_id == id)) [
    | inl h ↦ rw (h, persist_columns-has id r es i) refl
    | inr h ↦ rw (h, persist_columns-has id r es i) refl
  ]

  pub evaluate_new-stores :
      (conv : Conversation) (hist : Option Text) (a : Tables F)
      (x : Tables F × Option EvaluationResponse)
      → has_evaluation conv.id a.evaluations ≡ false
      → evaluate_new w conv hist a ≡ gives x
      → (answer : EvaluationResponse × LlmUsage) × (w.evaluate conv.messages
            (conv_context (eval_context w.setting) hist)
          ≡ gives answer)
        × (stored conv a answer ≡ x)
  unfolding evaluate_new
  evaluate_new-stores conv hist a x e h =
      let (answer, p, q) =
        then_do-gives (w.evaluate conv.messages (conv_context (eval_context w.setting) hist))
          (λ (y : EvaluationResponse × LlmUsage). gives (stored conv a y)) x (rw e at h) in
      (answer, p, gives-inj (stored conv a answer) x q)

  stored-Grows :
      (conv : Conversation) (a : Tables F) (answer : EvaluationResponse × LlmUsage)
      → (has_evaluation conv.id (stored conv a answer).0.evaluations ≡ true)
        × Grows a (stored conv a answer).0
  unfolding stored
  stored-Grows conv a answer = let (h, k) = persist_eval-has _ a.evaluations in (h, (refl, k))

  pub evaluate_new-Grows :
      (conv : Conversation) (hist : Option Text) (a : Tables F)
      (x : Tables F × Option EvaluationResponse)
      → evaluate_new w conv hist a ≡ gives x
      → (has_evaluation conv.id x.0.evaluations ≡ true) × Grows a x.0
  evaluate_new-Grows conv hist a x h = elim (Bool-cases (has_evaluation conv.id a.evaluations)) [
    | inl e ↦
        subst
          (λ (y : Tables F × Option EvaluationResponse).
            (has_evaluation conv.id y.0.evaluations ≡ true) × Grows a y.0)
          (sym (evaluate_new_skips conv hist a x e h)) (e, (refl, λ i k. k))
    | inr e ↦
        let (answer, _, q) = evaluate_new-stores conv hist a x e h in
        subst
          (λ (y : Tables F × Option EvaluationResponse).
            (has_evaluation conv.id y.0.evaluations ≡ true) × Grows a y.0)
          q (stored-Grows conv a answer)
  ]

  pub judge_turn-Grows :
      (conv : Conversation) (dup : Bool) (p : Option EvaluationResponse) (vs : List MessageVerdict)
      (a : Tables F) (t : Totals) (after : Tables F × Totals)
      → judge_turn w conv dup p vs (a, t) ≡ gives after
      → Grows a after.0
  judge_turn-Grows conv dup none vs a t after h =
      let (e, _, _, c) = judge_turn-Same conv dup vs a t after h in
      (c, λ i k. ap (λ es. has_evaluation i es) e ∙ k)
  judge_turn-Grows conv dup (some parsed) vs a t after h =
      let g = guarded w conv vs in
      let s = tally_turn w conv dup true g (a, t) in
      let (u, p, q) = judge_turn-parts w conv dup (some parsed) vs (a, t) after h in
      let (fraud, r, _, e) =
        review_new-parts w conv dup g.adjusted (truthy g.flagged_seqs) parsed s u p in
      subst (λ (x : Tables F × Totals). Grows a x.0) (ap progress (sym e) ∙ q)
        (
          unfold write_review tally_turn in refl,
          λ i k.
              unfold write_review tally_turn in persist_columns-has conv.id r a.evaluations i ∙ k,
        )
