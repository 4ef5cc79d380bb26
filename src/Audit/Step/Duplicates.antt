-- ===== src/Audit/Step/Duplicates.antt =====
-- A conversation whose contents were seen earlier in the audit is counted once.
use insyta_api.Prelude.{
  ◌≡◌, refl, sym, subst, ◌∙◌, Bool, true, false, Option, none, some, List, [], ◌∷◌, Text, is_some,
  if◌then◌else◌,
}
use insyta_api.Grounding.{Guarded}
use insyta_api.Rubric.{EvaluationResponse}
use insyta_api.Rubric.Mapping.{MessageVerdict}
use insyta_api.Rubric.Scoring.{truthy}
use insyta_api.Audit.Tables.{Conversation, Tables}
use insyta_api.Audit.Conversation.{
  gives, Totals, Work, issue_of, tally_issue, tally_unhandled, tally_verdict, tally_verdicts,
}
use insyta_api.Audit.Step.{
  guarded, tally_guarded, tally_turn, tally_review, review_new, judge_turn, turn_of,
}
use insyta_api.Audit.Step.Parts.{
  gives-inj, noted, is_duplicate, turn_of-parts, judge_turn-parts, review_new-parts,
}

-- The counters of issues, their examples, and the verdicts of low confidence.
abbrev pub SameCounts : Totals → Totals → Type 0
SameCounts t u =
    (u.issue_counter ≡ t.issue_counter)
    × (u.examples ≡ t.examples)
    × (u.low_conf_verdicts ≡ t.low_conf_verdicts)

trans : (s t u : Totals) → SameCounts s t → SameCounts t u → SameCounts s u
trans s t u (a, b, c) (d, e, f) = (d ∙ a, e ∙ b, f ∙ c)

if-SameCounts : (b : Bool) (t x : Totals) → SameCounts t x → SameCounts t (if b then x else t)
if-SameCounts true t x h = h
if-SameCounts false t x h = (refl, refl, refl)

tally_unhandled-SameCounts :
    (conv : Conversation) (v : MessageVerdict) (issue : Text) (t : Totals)
    → SameCounts t (tally_unhandled conv v issue t)
unfolding tally_unhandled
tally_unhandled-SameCounts conv v issue t = if-SameCounts _ t _ (refl, refl, refl)

tally_verdict-SameCounts :
    (conv : Conversation) (v : MessageVerdict) (o : Option Text) (t : Totals)
    → SameCounts t (tally_verdict conv true v o t)
unfolding tally_verdict tally_issue
tally_verdict-SameCounts conv v none t = (refl, refl, refl)
tally_verdict-SameCounts conv v (some issue) t = tally_unhandled-SameCounts conv v issue t

tally_verdicts-SameCounts :
    (conv : Conversation) (vs : List MessageVerdict) (t : Totals)
    → SameCounts t (tally_verdicts conv true vs t)
unfolding tally_verdicts
tally_verdicts-SameCounts conv [] t = (refl, refl, refl)
tally_verdicts-SameCounts conv (v ∷ vs) t =
    let next = tally_verdict conv true v (issue_of v) t in
    trans t next (tally_verdicts conv true vs next) (tally_verdict-SameCounts conv v (issue_of v) t)
      (tally_verdicts-SameCounts conv vs next)

module _ {F : Type 0} (w : Work F) (conv : Conversation) where
  tally_turn-SameCounts :
      (new : Bool) (g : Guarded) (a : Tables F) (t : Totals)
      → SameCounts t (tally_turn w conv true new g (a, t)).1
  unfolding tally_turn tally_guarded
  tally_turn-SameCounts new g a t = tally_verdicts-SameCounts conv g.adjusted t

  review_new-SameCounts :
      (vs : List MessageVerdict) (low : Bool) (p : Option EvaluationResponse)
      (s u : Tables F × Totals)
      → review_new w conv true vs low p s ≡ gives u
      → SameCounts s.1 u.1
  review_new-SameCounts vs low none s u h =
      subst (λ (x : Tables F × Totals). SameCounts s.1 x.1) (gives-inj s u (unfold review_new in h))
        (refl, refl, refl)
  review_new-SameCounts vs low (some parsed) s u h =
      let (fraud, r, _, e) = review_new-parts w conv true vs low parsed s u h in
      subst (λ (x : Tables F × Totals). SameCounts s.1 x.1) (sym e)
        (unfold tally_review in (refl, refl, refl))

  -- The turn of a conversation whose contents were seen earlier in the audit leaves the counters of
  -- issues, their examples and the number of verdicts of low confidence as they are.
  pub turn_of-duplicate :
      (a : Tables F) (t : Totals) (after : Tables F × Totals)
      → is_duplicate w conv t ≡ true
      → turn_of w conv (a, t) ≡ gives after
      → SameCounts t after.1
  turn_of-duplicate a t after d h =
      let (x, vs, _, q) = turn_of-parts w conv a t after h in
      let n = noted w conv t in
      let q' = subst (λ b. judge_turn w conv b x.1 vs (x.0, n) ≡ gives after) d q in
      let g = guarded w conv vs in
      let s = tally_turn w conv true (is_some x.1) g (x.0, n) in
      let (u, p, e) = judge_turn-parts w conv true x.1 vs (x.0, n) after q' in
      subst (λ (y : Tables F × Totals). SameCounts t y.1) e
        (trans t s.1 u.1 (tally_turn-SameCounts (is_some x.1) g x.0 n)
          (review_new-SameCounts g.adjusted (truthy g.flagged_seqs) x.1 s u p))
