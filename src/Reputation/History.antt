-- ===== src/Reputation/History.antt =====
-- What the rows of the reputation tables say after a sequence of audits.
use insyta_api.Prelude.{
  ℕ, ◌+◌, ◌≡◌, ◌≢◌, refl, ◌∙◌, Bool, Option, none, some, List, [], ◌∷◌, arith, All, ◌==◌,
  if◌then◌else◌, Bool-cases, inl, inr, is_some,
}
use insyta_api.Reputation.{
  AgentReputation, new_agent, bump_agent, update_agent_reputation, find_agent,
}
use insyta_api.Reputation.Averages.{InRange, bump_agent-InRange}

-- An audited conversation of an agent: its score, and whether it has a veto.
abbrev pub AgentEvent : Type 0
AgentEvent = Option ℕ × Bool

abbrev pub scored : List AgentEvent → ℕ
scored [] = 0
scored ((score, _) ∷ es) = (if is_some score then 1 else 0) + scored es

abbrev pub vetoed : List AgentEvent → ℕ
vetoed [] = 0
vetoed ((_, veto) ∷ es) = (if veto then 1 else 0) + vetoed es

module _ {F : Type 0} where
  bump_agent-id :
      (score : Option ℕ) (veto : Bool) (r : AgentReputation F)
      → (bump_agent score veto r).agent_id ≡ r.agent_id
  unfolding bump_agent
  bump_agent-id none veto r = ground arith
  bump_agent-id (some s) veto r = refl

  bump_agent-counts :
      (score : Option ℕ) (veto : Bool) (r : AgentReputation F)
      → ((bump_agent score veto r).score_count ≡ r.score_count + (if is_some score then 1 else 0))
        × ((bump_agent score veto r).veto_count ≡ r.veto_count + (if veto then 1 else 0))
  unfolding bump_agent
  bump_agent-counts none veto r = ground arith
  bump_agent-counts (some s) veto r = ground arith

module _ {F : Type 0} (id org project : ℕ) where
  abbrev pub row_or_new : Option (AgentReputation F) → AgentReputation F
  row_or_new none = new_agent id org project
  row_or_new (some r) = r

  find-update_self :
      (score : Option ℕ) (veto : Bool) (reps : List (AgentReputation F))
      → find_agent id (update_agent_reputation id org project score veto reps)
        ≡ some (bump_agent score veto (row_or_new (find_agent id reps)))
  unfolding find_agent update_agent_reputation
  find-update_self score veto [] =
      ground (arith, bump_agent-id score veto (new_agent {F = F} id org project))
  find-update_self score veto (r ∷ reps) = elim (Bool-cases (r.agent_id == id)) [
    | inl e ↦ ground (arith, bump_agent-id score veto r)
    | inr e ↦ ground (arith, find-update_self score veto reps)
  ]

  find-update_ne :
      (other : ℕ) (score : Option ℕ) (veto : Bool) (reps : List (AgentReputation F))
      → other ≢ id
      → find_agent other (update_agent_reputation id org project score veto reps)
        ≡ find_agent other reps
  unfolding find_agent update_agent_reputation
  find-update_ne other score veto [] ne =
      ground (arith, bump_agent-id score veto (new_agent {F = F} id org project))
  find-update_ne other score veto (r ∷ reps) ne = elim (Bool-cases (r.agent_id == id)) [
    | inl e ↦ ground (arith, bump_agent-id score veto r)
    | inr e ↦ ground (arith, find-update_ne other score veto reps)
  ]

  -- The updates of the agent's audits, in order.
  abbrev pub run_agent : List AgentEvent → List (AgentReputation F) → List (AgentReputation F)
  run_agent [] reps = reps
  run_agent ((score, veto) ∷ es) reps =
      run_agent es (update_agent_reputation id org project score veto reps)

  run_agent-others :
      (other : ℕ) (es : List AgentEvent) (reps : List (AgentReputation F))
      → other ≢ id
      → find_agent other (run_agent es reps) ≡ find_agent other reps
  run_agent-others other [] reps ne = refl
  run_agent-others other ((score, veto) ∷ es) reps ne =
      run_agent-others other es (update_agent_reputation id org project score veto reps) ne
      ∙ find-update_ne other score veto reps ne

  module _ (lo hi : ℕ) where
    record Extends (r s : AgentReputation F) (es : List AgentEvent) : Type 0 where
      scores : s.score_count ≡ r.score_count + scored es
      vetoes : s.veto_count ≡ r.veto_count + vetoed es
      average : InRange lo hi s.avg_score

    run_agent-Extends :
        (es : List AgentEvent) (reps : List (AgentReputation F))
        → All (λ e. InRange lo hi e.0) es
        → InRange lo hi (row_or_new (find_agent id reps)).avg_score
        → Extends
            (row_or_new (find_agent id reps))
            (row_or_new (find_agent id (run_agent es reps)))
            es
    run_agent-Extends [] reps a h = record {
      scores = omega arith;
      vetoes = omega arith;
      average = h;
    }
    run_agent-Extends ((score, veto) ∷ es) reps (p, a) h =
        let r = row_or_new (find_agent id reps) in
        let e = find-update_self score veto reps in
        let c = bump_agent-counts score veto r in
        let ih =
          run_agent-Extends es (update_agent_reputation id org project score veto reps) a
            (rw e (bump_agent-InRange lo hi score veto r p h)) in
        let ih' = rw e at ih in
        record {
          scores = omega (arith, c.0, ih'.scores);
          vetoes = omega (arith, c.1, ih'.vetoes);
          average = ih.average;
        }

  -- From a table without a row for the agent, after audits whose scores lie between two bounds, the
  -- agent's row counts the scored and the vetoed conversations, its average lies between the bounds,
  -- and every other agent's row is as it was.
  pub run_agent_lem :
      (lo hi other : ℕ) (es : List AgentEvent) (reps : List (AgentReputation F))
      → find_agent id reps ≡ none
      → All (λ e. InRange lo hi e.0) es
      → other ≢ id
      → let r = row_or_new (find_agent id (run_agent es reps)) in
        (r.score_count ≡ scored es)
        × (r.veto_count ≡ vetoed es)
        × InRange lo hi r.avg_score
        × (find_agent other (run_agent es reps) ≡ find_agent other reps)
  run_agent_lem lo hi other es reps new a ne =
      let x = rw new at (run_agent-Extends lo hi es reps a (rw new tt)) in
      (
        omega (arith, x.scores),
        omega (arith, x.vetoes),
        x.average,
        run_agent-others other es reps ne,
      )
