-- ===== src/Reputation/Tests.antt =====
-- The theorems on reputations at concrete histories.
use insyta_api.Prelude.{ℕ, ◌≡◌, refl, true, false, none, some, List, [], ◌∷◌, arith}
use insyta_api.Reputation.{find_agent, merge_avg}
use insyta_api.Reputation.History.{AgentEvent, run_agent, run_agent_lem, row_or_new}

abbrev audits : List AgentEvent
audits = (some 9000, false) ∷ (none, true) ∷ (some 2000, true) ∷ []

merged : merge_avg (some 9000) 2 2000 ≡ 6667
unfolding merge_avg
merged = refl

run_agent_lem_example :
    (row_or_new 1 2 3 (find_agent {F = ℕ} 1 (run_agent 1 2 3 audits []))).score_count ≡ 2
unfolding find_agent
run_agent_lem_example =
    (run_agent_lem 1 2 3 2000 9000 7 audits [] refl ((omega arith), (tt, ((omega arith), tt)))
      (omega arith)).0
