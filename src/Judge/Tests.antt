-- ===== src/Judge/Tests.antt =====
-- The theorems on the judge at concrete engines.
use insyta_api.Prelude.{
  ℕ, ◌≡◌, refl, inl, inr, Option, none, some, List, [], ◌∷◌, Text, txt, ascii, map, arith, text_eq,
  if◌then◌else◌,
}
use insyta_api.Llm.{fatal, ok, anthropic}
use insyta_api.Judge.{JudgeMessage, Brief, Engines, ask, chain_of, parse_verdicts, judge_messages}
use insyta_api.Judge.Privacy.{with_content, judge_messages-with_content}
use insyta_api.Judge.Chain.{judge_messages-AnswersFirst}

abbrev greeting : JudgeMessage
greeting = record {
  seq = 1;
  role = txt "user";
  content = some (txt "soy Ana");
  content_anonymized = some (txt "soy [NAME_0001]");
}

abbrev brief : Brief
brief = record {
  emphasis = [];
  free_text = none;
  objective = some (txt "vender");
  flow_context = none;
}

-- No key for the first engine.
abbrev engines : Engines
engines = record {
  key = λ p. elim p [ anthropic ↦ none | _ ↦ some (txt "sk") ];
  answer = λ p prompt. some (txt "{}");
}

abbrev load : Text → Option (List ℕ)
load t = if text_eq t (txt "{}") then some (7 ∷ []) else none

judge_messages-with_content_example :
    judge_messages ascii
      (λ n. [])
      load
      engines
      brief
      none
      (map (with_content (λ m. none)) (greeting ∷ []))
    ≡ judge_messages ascii (λ n. []) load engines brief none (greeting ∷ [])
judge_messages-with_content_example =
    judge_messages-with_content ascii (λ n. []) load engines brief none (λ m. none) (greeting ∷ [])
      ((txt "soy [NAME_0001]", refl, λ e. ground (arith, e)), tt)

judge_messages-AnswersFirst_example :
    (judge_messages ascii (λ n. []) load engines brief none (greeting ∷ [])).0 ≡ ok (7 ∷ [])
unfolding ask chain_of parse_verdicts text_eq
judge_messages-AnswersFirst_example =
    (judge_messages-AnswersFirst ascii (λ n. []) load engines brief none (greeting ∷ []) (7 ∷ [])).1
      (txt "{}", inr ((fatal, refl), inl refl), refl)
