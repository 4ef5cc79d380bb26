-- ===== src/Reputation/Averages.antt =====
-- The running average stays between the values that it merges.
use insyta_api.Prelude.{
  ℕ, ◌+◌, ◌*◌, ◌≤◌, Bool, true, false, Option, none, some, arith, if◌then◌else◌, round_div-le,
  round_div-ge, mul_mono,
}
use insyta_api.Reputation.{AgentReputation, merge_avg, bump_agent}

-- A value, where there is one, lies in a range.
abbrev pub InRange : ℕ → ℕ → Option ℕ → Type 0
InRange lo hi none = Unit
InRange lo hi (some v) = (lo ≤ v) × (v ≤ hi)

merge_avg-InRange :
    (lo hi : ℕ) (avg : Option ℕ) (n v : ℕ)
    → InRange lo hi avg
    → lo ≤ v
    → v ≤ hi
    → (lo ≤ merge_avg avg n v) × (merge_avg avg n v ≤ hi)
unfolding merge_avg
merge_avg-InRange lo hi none n v a l h = (l, h)
merge_avg-InRange lo hi (some a) n v (la, ha) l h =
    let below =
      round_div-ge (a * n + v) (n + 1) lo (omega (arith, mul_mono lo a n la)) (omega arith) in
    let above =
      round_div-le (a * n + v) (n + 1) hi (omega (arith, mul_mono a hi n ha)) (omega arith) in
    ground arith

module _ {F : Type 0} (lo hi : ℕ) where
  pub bump_agent-InRange :
      (score : Option ℕ) (veto : Bool) (rep : AgentReputation F)
      → InRange lo hi score
      → InRange lo hi rep.avg_score
      → InRange lo hi (bump_agent score veto rep).avg_score
  unfolding bump_agent
  bump_agent-InRange none veto rep s a = kept veto
    where
      kept :
          (b : Bool)
          → InRange lo hi
              (if b then record rep { veto_count = rep.veto_count + 1 } else rep).avg_score
      kept true = a
      kept false = a
  bump_agent-InRange (some s) veto rep (l, h) a =
      merge_avg-InRange lo hi rep.avg_score rep.score_count s a l h
