-- ===== src/Audit/Run/Keys.antt =====
-- An audit keeps the unique constraints of the tables that it writes.
use insyta_api.Prelude.{
  ℕ, ltb, ◌≡◌, sym, subst, inl, inr, Bool, true, false, Option, none, some, List, [], ◌∷◌,
  Bool-cases, is_some,
}
use insyta_api.Rubric.{EvaluationResponse}
use insyta_api.Rubric.Mapping.{MessageVerdict}
use insyta_api.Rubric.Scoring.{truthy}
use insyta_api.Grounding.{Guarded}
use insyta_api.Audit.Suggestions.{Suggestion}
use insyta_api.Audit.Notices.{Notification, create_notification}
use insyta_api.Audit.Notices.Once.{same_notice, create_notification-Distinct}
use insyta_api.Audit.Tables.{Conversation, Tables, find_conversation, has_evaluation}
use insyta_api.Audit.Tables.Keys.{
  Distinct, same_conversation, persist_conversation_eval-Distinct, persist_rubric_columns-Distinct,
  persist_message_evals-Distinct,
}
use insyta_api.Audit.Tables.{same_target}
use insyta_api.Audit.Conversation.{Attempt, gives, fails, Totals, Work}
use insyta_api.Audit.Step.{
  stored, guarded, tally_turn, write_review, evaluate_new, review_new, turn_of, process_id,
  process_ids,
}
use insyta_api.Audit.Step.Parts.{
  gives-inj, history, noted, is_duplicate, turn_of-parts, judge_turn-parts, review_new-parts,
}
use insyta_api.Audit.Step.Skipped.{evaluate_new_skips, evaluate_new-stores}
use insyta_api.Audit.Step.Loop.{process_ids-Reaches}
use insyta_api.Audit.Plan.{Plan, Charts, no_totals, chart_agents}
use insyta_api.Audit.Run.{
  create_if, completed_notice, critical_notice, suggestions_notice, suggestions_for, notify, finish,
  run, run_audit,
}
use insyta_api.Audit.Run.Finishing.{closed, ended, run_lem, run_audit-closed}

-- One evaluation for a conversation, one verdict of an audit for a message, one notification of an
-- organisation for an event.
abbrev pub KeysUnique : {F : Type 0} → Tables F → Type 0
KeysUnique a =
    Distinct same_conversation a.evaluations
    × Distinct same_target a.message_evaluations
    × Distinct same_notice a.notifications

module _ {F : Type 0} (w : Work F) (conv : Conversation) where
  stored-KeysUnique :
      (a : Tables F) (answer : _) → KeysUnique a → KeysUnique (stored conv a answer).0
  unfolding stored
  stored-KeysUnique a answer (e, m, n) =
      (persist_conversation_eval-Distinct _ a.evaluations e, m, n)

  evaluate_new-KeysUnique :
      (hist : Option _) (a : Tables F) (x : Tables F × Option EvaluationResponse)
      → KeysUnique a
      → evaluate_new w conv hist a ≡ gives x
      → KeysUnique x.0
  evaluate_new-KeysUnique hist a x k h = elim (Bool-cases (has_evaluation conv.id a.evaluations)) [
    | inl e ↦
        subst (λ (y : Tables F × Option EvaluationResponse). KeysUnique y.0)
          (sym (evaluate_new_skips w conv hist a x e h)) k
    | inr e ↦
        let (answer, _, q) = evaluate_new-stores w conv hist a x e h in
        subst (λ (y : Tables F × Option EvaluationResponse). KeysUnique y.0) q
          (stored-KeysUnique a answer k)
  ]

  tally_turn-KeysUnique :
      (dup new : Bool) (g : Guarded) (s : Tables F × Totals)
      → KeysUnique s.0
      → KeysUnique (tally_turn w conv dup new g s).0
  unfolding tally_turn
  tally_turn-KeysUnique dup new g s (e, m, n) =
      (e, persist_message_evals-Distinct w.audit_id conv g.adjusted s.0.message_evaluations m, n)

  review_new-KeysUnique :
      (dup : Bool) (vs : List MessageVerdict) (low : Bool) (p : Option EvaluationResponse)
      (s u : Tables F × Totals)
      → KeysUnique s.0
      → review_new w conv dup vs low p s ≡ gives u
      → KeysUnique u.0
  review_new-KeysUnique dup vs low none s u k h =
      subst (λ (x : Tables F × Totals). KeysUnique x.0) (gives-inj s u (unfold review_new in h)) k
  review_new-KeysUnique dup vs low (some parsed) s u (e, m, n) h =
      let (fraud, r, _, q) = review_new-parts w conv dup vs low parsed s u h in
      subst (λ (x : Tables F × Totals). KeysUnique x.0) (sym q)
        (unfold write_review in (persist_rubric_columns-Distinct conv.id r s.0.evaluations e, m, n))

  turn_of-KeysUnique :
      (a : Tables F) (t : Totals) (after : Tables F × Totals)
      → KeysUnique a
      → turn_of w conv (a, t) ≡ gives after
      → KeysUnique after.0
  turn_of-KeysUnique a t after k h =
      let (x, vs, p, q) = turn_of-parts w conv a t after h in
      let n = noted w conv t in
      let dup = is_duplicate w conv t in
      let g = guarded w conv vs in
      let kx = evaluate_new-KeysUnique (history w conv a) a x k p in
      let (u, r, e) = judge_turn-parts w conv dup x.1 vs (x.0, n) after q in
      let ks = tally_turn-KeysUnique dup (is_some x.1) g (x.0, n) kx in
      subst (λ (y : Tables F × Totals). KeysUnique y.0) e
        (review_new-KeysUnique dup g.adjusted (truthy g.flagged_seqs) x.1
          (tally_turn w conv dup (is_some x.1) g (x.0, n)) u ks r)

found-KeysUnique :
    {F : Type 0} (w : Work F) (a : Tables F) (t : Totals) (after : Tables F × Totals)
    → KeysUnique a
    → (o : Option Conversation)
    → elim o as (λ _. Attempt (Tables F × Totals)) [
      | none ↦ gives (a, t)
      | some conv ↦ turn_of w conv (a, t)
    ]
      ≡ gives after
    → KeysUnique after.0
found-KeysUnique {F = F} w a t after k none h =
    subst (λ (x : Tables F × Totals). KeysUnique x.0) (gives-inj (a, t) after h) k
found-KeysUnique w a t after k (some conv) h = turn_of-KeysUnique w conv a t after k h

process_id-KeysUnique :
    {F : Type 0} (w : Work F) (id : ℕ) (s after : Tables F × Totals)
    → KeysUnique s.0
    → process_id w id s ≡ gives after
    → KeysUnique after.0
unfolding process_id
process_id-KeysUnique w id s after k h =
    found-KeysUnique w s.0 s.1 after k (find_conversation id s.0.conversations) h

chart_agents-KeysUnique :
    {F : Type 0} (c : Charts F) (agents : List ℕ) (a : Tables F)
    → KeysUnique a
    → KeysUnique (chart_agents c agents a)
unfolding chart_agents
chart_agents-KeysUnique c [] a k = k
chart_agents-KeysUnique c (x ∷ agents) a k = chart_agents-KeysUnique c agents _ k

if_create :
    (b : Bool) (n : Notification) (rows : List Notification)
    → Distinct same_notice rows
    → Distinct same_notice (create_if b n rows)
if_create true n rows d = create_notification-Distinct n rows d
if_create false n rows d = d

notify-Distinct :
    {F : Type 0} (p : Plan F) (t : Totals) (ss : List Suggestion) (rows : List Notification)
    → Distinct same_notice rows
    → Distinct same_notice (notify p t ss rows)
unfolding notify
notify-Distinct p t ss rows d =
    let first = create_notification (completed_notice p) rows in
    let second = create_if (ltb 0 t.critical_count) (critical_notice p t) first in
    if_create (truthy ss) (suggestions_notice p ss) second (
      if_create (ltb 0 t.critical_count) (critical_notice p t) first
        (create_notification-Distinct (completed_notice p) rows d))

finish-KeysUnique :
    {F : Type 0} (p : Plan F) (t : Totals) (a : Tables F) → KeysUnique a → KeysUnique (finish p t a)
unfolding finish
finish-KeysUnique p t a k =
    let (e, m, n) = chart_agents-KeysUnique p.charts t.agent_ids a k in
    (
      e,
      m,
      notify-Distinct p t (suggestions_for p t) (chart_agents p.charts t.agent_ids a).notifications
          n,
    )

-- From tables with one evaluation for a conversation, one verdict of an audit for a message and one
-- notification of an organisation for an event, an audit comes to such tables, however it ends and
-- whatever has run before.
pub run_audit-KeysUnique :
    {F : Type 0} (p : Plan F) (a : Tables F) → KeysUnique a → KeysUnique (run_audit p a)
run_audit-KeysUnique {F = F} p a k =
    let r = process_ids p.work p.conv_ids (a, no_totals) in
    let (t, kr, _) =
      process_ids-Reaches p.work (λ (s : Tables F × Totals). KeysUnique s.0) p.conv_ids a no_totals
        (λ id s after i j h. process_id-KeysUnique p.work id s after j h) k in
    let after_loop : (x : Tables F × Attempt Totals)
        → KeysUnique x.0
        → KeysUnique (closed p (ended p x)) =
      λ x j. elim x.1 as (λ o. KeysUnique (closed p (ended p (x.0, o)))) [
        | gives u ↦ finish-KeysUnique p u x.0 j
        | fails e ↦ j
      ] in
    let c : KeysUnique (closed p (run p a)) = elim (run_lem p a) [
      | inl e ↦
          subst (λ (x : Tables F × Attempt Totals). KeysUnique (closed p x)) (sym e)
            (after_loop r kr)
      | inr (f, e) ↦ subst (λ (x : Tables F × Attempt Totals). KeysUnique (closed p x)) (sym e) k
    ] in
    subst KeysUnique (sym (run_audit-closed p a)) c
