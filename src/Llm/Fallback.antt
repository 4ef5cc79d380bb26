-- ===== src/Llm/Fallback.antt =====
-- When the router falls back, and how many requests it sends.
use insyta_api.Prelude.{ℕ, ◌+◌, ◌≤◌, Option, none, some, [], ◌∷◌, Text, arith, Unicode}
use insyta_api.Rubric.{EvaluationResponse}
use insyta_api.Llm.{Call, RawUsage, LlmUsage, Answer, provider_evaluate, router_evaluate}

-- A call sends at most `k` requests.
abbrev pub SendsAtMost : {A : Type 0} → ℕ → Call A → Type 0
SendsAtMost k call = (n : ℕ) → ((call n).1 ≤ n + k) × (n ≤ (call n).1)

pub router-SendsAtMost :
    {A : Type 0} (j k : ℕ) (primary fallback : Call A)
    → SendsAtMost j primary
    → SendsAtMost k fallback
    → SendsAtMost (j + k) (router_evaluate primary fallback)
unfolding router_evaluate
router-SendsAtMost j k primary fallback p f n =
    let a = p n in let b = f (primary n).1 in ground arith

module _ (u : Unicode) (load : Text → Option EvaluationResponse) where
  pub provider-SendsAtMost :
      (usage_of : RawUsage → LlmUsage) (key : Option Text) (answers : ℕ → Answer)
      → SendsAtMost 1 (provider_evaluate u load usage_of key answers)
  unfolding provider_evaluate
  provider-SendsAtMost usage_of none answers n = ground arith
  provider-SendsAtMost usage_of (some []) answers n = ground arith
  provider-SendsAtMost usage_of (some (c ∷ key)) answers n = ground arith
