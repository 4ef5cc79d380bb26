-- ===== src/Evaluator/Tests.antt =====
-- The theorems on evaluations at concrete answers of the two services.
use insyta_api.Prelude.{
  ℕ, ◌≡◌, refl, Bool, true, false, Option, none, some, [], ◌∷◌, Text, txt, ltb, arith, ascii,
  if◌then◌else◌,
}
use insyta_api.Rubric.{EvaluationResponse, positive}
use insyta_api.Llm.{
  Call, LlmUsage, RawUsage, Answer, message, rate_limit, status, anthropic_usage, openai_usage,
  provider_evaluate, router_evaluate,
}
use insyta_api.Evaluator.{evaluated, run_eval}
use insyta_api.Evaluator.Attempts.{run_eval-evaluated, at_once, again}

abbrev good : EvaluationResponse
good = record {
  score = 90;
  resolution = true;
  satisfaction = 5;
  tone = positive;
  frustration = false;
  escalated = false;
  efficiency = 4;
  scope_violation = false;
  topic = txt "compra";
  summary = txt "venta";
}

abbrev load : Text → Option EvaluationResponse
load [] = none
load (c ∷ t) = some good

abbrev haiku : RawUsage → LlmUsage
haiku = anthropic_usage (txt "claude-haiku-4-5-20251001")

abbrev gpt : RawUsage → LlmUsage
gpt = openai_usage (txt "gpt-4.1-mini")

abbrev counts : RawUsage
counts = record { input = 1000; output = 100; cached_read = 0; cached_write = 0 }

-- A service that is overloaded, and one that answers its fourth request.
abbrev overloaded : ℕ → Answer
overloaded n = status (some 529)

abbrev late : ℕ → Answer
late n = if ltb n 3 then rate_limit else message (txt "```json {} ```") counts

abbrev router : Call (EvaluationResponse × LlmUsage)
router n =
    router_evaluate (provider_evaluate ascii load haiku (some (txt "sk-ant")) overloaded)
      (provider_evaluate ascii load gpt (some (txt "sk")) late) n

retried : (run_eval router 7 0 []).0 ≡ evaluated good (gpt counts) true
unfolding run_eval router_evaluate provider_evaluate
retried = refl

run_eval-evaluated_example :
    (was_new : Bool) × ((run_eval router 7 0 []).0 ≡ evaluated good (gpt counts) was_new)
unfolding router_evaluate provider_evaluate
run_eval-evaluated_example =
    (run_eval-evaluated router 7 0 [] good (gpt counts)).1
      (1, 2, 4, again refl (at_once 2), omega arith, refl)
