-- ===== src/Audit/Step/Rerun.antt =====
-- A second run over the conversations of an audit.
use insyta_api.Prelude.{
  ℕ, ◌≡◌, refl, sym, ap, subst, ◌∙◌, inl, inr, true, Option, none, some, List, [], ◌∷◌, In, arith,
}
use insyta_api.Audit.Tables.{Conversation, Tables, find_conversation, has_evaluation}
use insyta_api.Audit.Conversation.{Attempt, gives, fails, Totals, Work}
use insyta_api.Audit.Step.{turn_of, process_id, process_ids}
use insyta_api.Audit.Step.Loop.{continued, process_ids-cons}
use insyta_api.Audit.Step.Parts.{gives-inj, history, noted, is_duplicate, turn_of-parts}
use insyta_api.Audit.Step.Skipped.{
  Done, Grows, evaluate_new-Grows, judge_turn-Grows, process_ids-Same,
}

module _ {F : Type 0} (w : Work F) where
  Grows-trans : (a b c : Tables F) → Grows w a b → Grows w b c → Grows w a c
  Grows-trans a b c (e, f) (g, h) = (g ∙ e, λ i k. h i (f i k))

  turn_of-Grows :
      (conv : Conversation) (a : Tables F) (t : Totals) (after : Tables F × Totals)
      → turn_of w conv (a, t) ≡ gives after
      → (has_evaluation conv.id after.0.evaluations ≡ true) × Grows w a after.0
  turn_of-Grows conv a t after h =
      let (x, vs, p, q) = turn_of-parts w conv a t after h in
      let (e, g) = evaluate_new-Grows w conv (history w conv a) a x p in
      let k = judge_turn-Grows w conv (is_duplicate w conv t) x.1 vs x.0 (noted w conv t) after q in
      (k.1 conv.id e, Grows-trans a x.0 after.0 g k)

  found-Done :
      (id : ℕ) (a : Tables F) (t : Totals) (after : Tables F × Totals)
      → (o : Option Conversation) → find_conversation id a.conversations ≡ o
      → elim o as (λ _. Attempt (Tables F × Totals)) [
        | none ↦ gives (a, t)
        | some conv ↦ turn_of w conv (a, t)
      ]
        ≡ gives after
      → Done w after.0 id × Grows w a after.0
  found-Done id a t after none e h =
      subst (λ (x : Tables F × Totals). Done w x.0 id × Grows w a x.0) (gives-inj (a, t) after h)
        (λ conv f. absurd (ground arith), (refl, λ i k. k))
  found-Done id a t after (some conv) e h =
      let (k, g) = turn_of-Grows conv a t after h in
      (
        λ other f.
            let q : some conv ≡ some other =
              sym e ∙ ap (λ cs. find_conversation id cs) (sym g.0) ∙ f in
            let r : conv ≡ other = cc in
            subst (λ (c : Conversation). has_evaluation c.id after.0.evaluations ≡ true) r k,
        g,
      )

  pub process_id-Done :
      (id : ℕ) (a : Tables F) (t : Totals) (after : Tables F × Totals)
      → process_id w id (a, t) ≡ gives after
      → Done w after.0 id × Grows w a after.0
  unfolding process_id
  process_id-Done id a t after h =
      found-Done id a t after (find_conversation id a.conversations) refl h

  Done-Grows : (a b : Tables F) (id : ℕ) → Grows w a b → Done w a id → Done w b id
  Done-Grows a b id (c, g) d conv f =
      g conv.id (d conv (ap (λ cs. find_conversation id cs) (sym c) ∙ f))

  -- What holds at the end of a loop that gives totals.
  abbrev Over : List ℕ → Tables F → Tables F × Attempt Totals → Type 0
  Over ids a r =
      (u : Totals) → r.1 ≡ gives u → ((id : ℕ) → In id ids → Done w r.0 id) × Grows w a r.0

  continued-Over :
      (id : ℕ) (ids : List ℕ) (a : Tables F) (t : Totals) (o : Attempt (Tables F × Totals))
      → process_id w id (a, t) ≡ o
      → ((s : Tables F × Totals) → Over ids s.0 (process_ids w ids s))
      → Over (id ∷ ids) a (continued w ids a o)
  continued-Over id ids a t (fails e) h rest u k = absurd (ground arith)
  continued-Over id ids a t (gives (b, v)) h rest u k =
      let (d, g) = process_id-Done id a t (b, v) h in
      let (ds, gs) = rest (b, v) u k in
      let c = (process_ids w ids (b, v)).0 in
      (
        λ n i. elim i [
          | inl e ↦ subst (λ m. Done w c m) (sym e) (Done-Grows b c id gs d)
          | inr j ↦ ds n j
        ],
        Grows-trans a b c g gs,
      )

  process_ids-Over :
      (ids : List ℕ) (a : Tables F) (t : Totals) → Over ids a (process_ids w ids (a, t))
  process_ids-Over [] a t = unfold process_ids in (λ u k. (λ id i. absurd i, (refl, λ i h. h)))
  process_ids-Over (id ∷ ids) a t =
      let rest : (s : Tables F × Totals) → Over ids s.0 (process_ids w ids s) =
        λ s. process_ids-Over ids s.0 s.1 in
      subst (Over (id ∷ ids) a) (sym (process_ids-cons w id ids a t))
        (continued-Over id ids a t (process_id w id (a, t)) refl rest)

-- After a loop over conversations that comes to its end, any later loop over them, whatever the
-- models answer then and whether or not it comes to its end, leaves the evaluations, the reputations
-- of agents and those of users as they are.
pub process_ids-process_ids :
    {F : Type 0} (w later : Work F) (ids : List ℕ) (a b : Tables F) (t u v : Totals)
    → process_ids w ids (a, t) ≡ (b, gives u)
    → let c = (process_ids later ids (b, v)).0 in
      (c.evaluations ≡ b.evaluations) × (c.agents ≡ b.agents) × (c.users ≡ b.users)
process_ids-process_ids w later ids a b t u v h =
    let (d, _) = process_ids-Over w ids a t u (ap (λ r. r.1) h) in
    let e = ap (λ r. r.0) h in
    let (x, y, z, _) =
      process_ids-Same later ids b v (λ id i conv f. subst (λ c. Done w c id) e (d id i) conv f) in
    (x, y, z)
