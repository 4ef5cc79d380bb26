-- ===== src/Audit/Step/Private.antt =====
-- What an audit hands to the generator of suggestions is anonymized.
use insyta_api.Prelude.{
  ℕ, ◌==◌, ◌≡◌, refl, sym, ap, subst, ◌∙◌, inl, inr, Bool, Option, none, some, List, [], ◌∷◌, In,
  Bool-cases, is_some, arith,
}
use insyta_api.Rubric.{EvaluationResponse}
use insyta_api.Rubric.Mapping.{MessageVerdict}
use insyta_api.Rubric.Scoring.{truthy}
use insyta_api.Audit.Tables.{Conversation, Tables, find_conversation}
use insyta_api.Audit.Conversation.{Failure, Attempt, gives, fails, Totals, Work}
use insyta_api.Audit.Conversation.Examples.{some-inj, AreAnonymized, tally_verdicts-AreAnonymized}
use insyta_api.Audit.Step.{
  guarded, tally_guarded, tally_turn, tally_review, review_new, turn_of, process_id, process_ids,
}
use insyta_api.Audit.Step.Loop.{process_ids-Reaches}
use insyta_api.Audit.Step.Parts.{
  gives-inj, noted, is_duplicate, turn_of-parts, judge_turn-parts, review_new-parts,
}
use insyta_api.Audit.Step.Rerun.{process_id-Done}

find_conversation-In :
    (id : ℕ) (cs : List Conversation) (conv : Conversation)
    → find_conversation id cs ≡ some conv
    → In conv cs
unfolding find_conversation
find_conversation-In id [] conv h = absurd (ground arith)
find_conversation-In id (c ∷ cs) conv h = elim (Bool-cases (c.id == id)) [
  | inl e ↦ inl (sym (some-inj c conv (rw e at h)))
  | inr e ↦ inr (find_conversation-In id cs conv (rw e at h))
]

module _ {F : Type 0} (w : Work F) (convs : List Conversation) where
  review_new-AreAnonymized :
      (conv : Conversation) (dup : Bool) (vs : List MessageVerdict) (low : Bool)
      (p : Option EvaluationResponse) (s u : Tables F × Totals)
      → review_new w conv dup vs low p s ≡ gives u
      → AreAnonymized convs s.1.examples
      → AreAnonymized convs u.1.examples
  review_new-AreAnonymized conv dup vs low none s u h k =
      subst (λ (x : Tables F × Totals). AreAnonymized convs x.1.examples)
        (gives-inj s u (unfold review_new in h)) k
  review_new-AreAnonymized conv dup vs low (some parsed) s u h k =
      let (fraud, r, _, e) = review_new-parts w conv dup vs low parsed s u h in
      subst (λ (x : Tables F × Totals). AreAnonymized convs x.1.examples) (sym e)
        (unfold tally_review in k)

  turn_of-AreAnonymized :
      (conv : Conversation)
      → In conv convs
      → (a : Tables F) (t : Totals) (after : Tables F × Totals)
      → turn_of w conv (a, t) ≡ gives after
      → AreAnonymized convs t.examples
      → AreAnonymized convs after.1.examples
  turn_of-AreAnonymized conv i a t after h k =
      let (x, vs, _, q) = turn_of-parts w conv a t after h in
      let n = noted w conv t in
      let dup = is_duplicate w conv t in
      let g = guarded w conv vs in
      let s = tally_turn w conv dup (is_some x.1) g (x.0, n) in
      let (u, p, e) = judge_turn-parts w conv dup x.1 vs (x.0, n) after q in
      let ks : AreAnonymized convs s.1.examples =
        unfold tally_turn tally_guarded in
        tally_verdicts-AreAnonymized convs conv i dup g.adjusted n k in
      subst (λ (y : Tables F × Totals). AreAnonymized convs y.1.examples) e
        (review_new-AreAnonymized conv dup g.adjusted (truthy g.flagged_seqs) x.1 s u p ks)

  found-AreAnonymized :
      (id : ℕ) (a : Tables F) (t : Totals) (after : Tables F × Totals) (o : Option Conversation)
      → find_conversation id convs ≡ o
      → elim o as (λ _. Attempt (Tables F × Totals)) [
        | none ↦ gives (a, t)
        | some conv ↦ turn_of w conv (a, t)
      ]
        ≡ gives after
      → AreAnonymized convs t.examples
      → AreAnonymized convs after.1.examples
  found-AreAnonymized id a t after none e h k =
      subst (λ (x : Tables F × Totals). AreAnonymized convs x.1.examples) (gives-inj (a, t) after h)
        k
  found-AreAnonymized id a t after (some conv) e h k =
      turn_of-AreAnonymized conv (find_conversation-In id convs conv e) a t after h k

  -- The tables have these conversations, and the examples are anonymized.
  abbrev Private : Tables F × Totals → Type 0
  Private s = (s.0.conversations ≡ convs) × AreAnonymized convs s.1.examples

  process_id-Private :
      (id : ℕ) (s after : Tables F × Totals)
      → Private s
      → process_id w id s ≡ gives after
      → Private after
  process_id-Private id s after (c, k) h =
      let (_, g) = process_id-Done w id s.0 s.1 after h in
      let found =
        found-AreAnonymized id s.0 s.1 after (find_conversation id s.0.conversations)
          (ap (λ cs. find_conversation id cs) (sym c)) in
      (g.0 ∙ c, found (unfold process_id in h) k)

gives-fails : {A : Type 0} (x : A) (f : Failure) → ¬ (gives x ≡ fails f)
gives-fails x f h = ground arith

-- Of the issues that the loop counts it keeps at most two examples each, and their texts are the
-- first 240 characters of the anonymized contents of messages of the conversations.
pub process_ids-AreAnonymized :
    {F : Type 0} (w : Work F) (ids : List ℕ) (a : Tables F) (t u : Totals)
    → AreAnonymized a.conversations t.examples
    → (process_ids w ids (a, t)).1 ≡ gives u
    → AreAnonymized a.conversations u.examples
process_ids-AreAnonymized w ids a t u k h =
    let (v, (_, kv), o) =
      process_ids-Reaches w (Private w a.conversations) ids a t
        (λ id s after i p e. process_id-Private w a.conversations id s after p e) (refl, k) in
    elim o [
      | inl e ↦
          subst (λ (x : Totals). AreAnonymized a.conversations x.examples)
            (gives-inj v u (sym e ∙ h)) kv
      | inr (f, e) ↦ absurd (gives-fails u f (sym h ∙ e))
    ]
