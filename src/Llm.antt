-- ===== src/Llm.antt =====
-- app/llm/router.py: one evaluation call to a provider, its cost, and the router with a fallback.
-- A call is a state transformer; the state counts the requests sent, and the n-th request to a
-- provider's service is answered by `answers n`.
pub mod Cost
pub mod Fallback
mod Tests
use insyta_api.Prelude.{
  starts_with, ℕ, suc, ◌+◌, ◌-◌, ◌*◌, Bool, true, false, ◌&&◌, Option, none, some, List, [], ◌∷◌,
  ◌++◌, leb, ltb, Text, txt, text_eq, take, drop, if◌then◌else◌, Unicode, strip, lstrip, round_div,
  ◌==◌,
}
use insyta_api.Rubric.{EvaluationResponse}

-- `TransientLLMError` and `FatalLLMError`.
pub data LlmError : Type 0 where
  transient fatal : LlmError

pub data Result {ℓ} (A : Type ℓ) : Type ℓ where
  ok : A → Result A
  err : LlmError → Result A

-- A call that sends requests: the state is the number of requests sent so far.
abbrev pub Call : Type 0 → Type 0
Call A = ℕ → Result A × ℕ

-- The prices of a model, in hundredths of a dollar per million tokens.
pub record Rates : Type 0 where
  pub input : ℕ
  pub cache_write : ℕ
  pub cache_read : ℕ
  pub output : ℕ

-- `PRICING.get(model)`
unfoldable pub pricing : Text → Option Rates
unfolding text_eq
pricing model =
    if text_eq model (txt "claude-haiku-4-5-20251001")
    then some (record { input = 100; cache_write = 125; cache_read = 10; output = 500 })
    else if text_eq model (txt "gpt-4.1-mini")
    then some (record { input = 40; cache_write = 40; cache_read = 10; output = 160 })
    else if text_eq model (txt "deepseek-chat")
    then some (record { input = 27; cache_write = 27; cache_read = 7; output = 110 })
    else none

-- `_calc_cost`, in millionths of a dollar: `quantize` rounds from the middle to even. On ℕ the
-- difference is the `max(0, …)` of the code.
unfoldable pub calc_cost : Text → ℕ → ℕ → ℕ → ℕ → ℕ
unfolding pricing round_div
calc_cost model input_tokens output_tokens cache_read cache_write = elim (pricing model) [
  | none ↦ 0
  | some r ↦
      let fresh_input = input_tokens - cache_read - cache_write in
      round_div
        (fresh_input * r.input
          + cache_write * r.cache_write
          + cache_read * r.cache_read
          + output_tokens * r.output)
        100
]

-- `LLMUsage`; the clock and the tracing span are left out.
pub record LlmUsage : Type 0 where
  pub input_tokens : ℕ
  pub output_tokens : ℕ
  pub cache_read_input_tokens : ℕ
  pub cache_creation_input_tokens : ℕ
  pub cost_usd : ℕ
  pub model : Text

-- What the SDK reports of a message; a missing count is 0, as `getattr(…, 0) or 0` has it.
pub record RawUsage : Type 0 where
  pub input : ℕ
  pub output : ℕ
  pub cached_read : ℕ
  pub cached_write : ℕ

-- How a request ends: a message, or one of the SDK's exceptions.
pub data Answer : Type 0 where
  message : Text → RawUsage → Answer
  rate_limit : Answer
  status : Option ℕ → Answer
  api_error : Answer

-- `_build_usage` of the Anthropic provider.
unfoldable pub anthropic_usage : Text → RawUsage → LlmUsage
unfolding calc_cost
anthropic_usage model u = record {
  input_tokens = u.input;
  output_tokens = u.output;
  cache_read_input_tokens = u.cached_read;
  cache_creation_input_tokens = u.cached_write;
  cost_usd = calc_cost model u.input u.output u.cached_read u.cached_write;
  model = model;
}

-- `_build_usage` of the OpenAI and DeepSeek providers: nothing is written to a cache.
unfoldable pub openai_usage : Text → RawUsage → LlmUsage
unfolding calc_cost
openai_usage model u = record {
  input_tokens = u.input;
  output_tokens = u.output;
  cache_read_input_tokens = u.cached_read;
  cache_creation_input_tokens = 0;
  cost_usd = calc_cost model u.input u.output u.cached_read 0;
  model = model;
}

-- `text.strip("`")`
abbrev pub strip_ticks_front : Text → Text
strip_ticks_front [] = []
strip_ticks_front (c ∷ s) = if c == b'`' then strip_ticks_front s else c ∷ s

abbrev pub strip_ticks_back : Text → Text
strip_ticks_back [] = []
strip_ticks_back (c ∷ s) = elim (strip_ticks_back s) [
  | [] ↦ if c == b'`' then [] else c ∷ []
  | d ∷ t ↦ c ∷ d ∷ t
]

-- The text that `_parse_evaluation` hands to `json.loads`, without Markdown fences.
unfoldable pub unfenced : Unicode → Text → Text
unfolding strip lstrip
unfenced u text =
    let t = strip u text in
    if starts_with (txt "```") t
    then (let s = strip_ticks_back (strip_ticks_front t) in
        if starts_with (txt "json") s then lstrip u (drop 4 s) else s)
    else t

module _ (u : Unicode) (load : Text → Option EvaluationResponse) where
  -- `_parse_evaluation`; `load` is `json.loads` followed by the validation of the schema.
  unfoldable pub parse_evaluation : Text → Result EvaluationResponse
  unfolding unfenced
  parse_evaluation text = elim (load (unfenced u text)) [ none ↦ err transient | some e ↦ ok e ]

  -- The exceptions of a request as the provider re-raises them.
  unfoldable pub read_answer :
      (RawUsage → LlmUsage) → Answer → Result (EvaluationResponse × LlmUsage)
  unfolding parse_evaluation
  read_answer usage_of (message text raw) = elim (parse_evaluation text) [
    | ok e ↦ ok (e, usage_of raw)
    | err x ↦ err x
  ]
  read_answer usage_of rate_limit = err transient
  read_answer usage_of (status none) = err fatal
  read_answer usage_of (status (some code)) =
      if leb 500 code && ltb code 600 then err transient else err fatal
  read_answer usage_of api_error = err transient

  -- `evaluate` of a provider: without the organisation's key nothing is sent.
  unfoldable pub provider_evaluate :
      (RawUsage → LlmUsage) → Option Text → (ℕ → Answer) → Call (EvaluationResponse × LlmUsage)
  unfolding read_answer
  provider_evaluate usage_of none answers n = (err fatal, n)
  provider_evaluate usage_of (some []) answers n = (err fatal, n)
  provider_evaluate usage_of (some (c ∷ key)) answers n = (read_answer usage_of (answers n), suc n)

  -- `AnthropicProvider.evaluate`
  unfoldable pub anthropic_evaluate :
      Option Text → (ℕ → Answer) → Call (EvaluationResponse × LlmUsage)
  unfolding provider_evaluate
  anthropic_evaluate key answers =
      provider_evaluate (anthropic_usage (txt "claude-haiku-4-5-20251001")) key answers

  -- `OpenAIProvider.evaluate`, for the model `gpt-4.1-mini` or, as DeepSeek, `deepseek-chat`
  unfoldable pub openai_evaluate :
      Text → Option Text → (ℕ → Answer) → Call (EvaluationResponse × LlmUsage)
  unfolding provider_evaluate
  openai_evaluate model key answers = provider_evaluate (openai_usage model) key answers

-- `LLMRouter.evaluate`
unfoldable pub router_evaluate : {A : Type 0} → Call A → Call A → Call A
router_evaluate primary fallback n =
    let (r, n') = primary n in
    elim r [
      | ok a ↦ (ok a, n')
      | err e ↦ elim e [ transient ↦ fallback n' | fatal ↦ (err fatal, n') ]
    ]

pub data Provider : Type 0 where
  anthropic openai deepseek : Provider

-- The two providers of `build_router`.
unfoldable pub build_router : Option Text → Provider × Provider
unfolding text_eq
build_router none = (anthropic, openai)
build_router (some p) =
    if text_eq p (txt "deepseek") then (deepseek, anthropic) else (anthropic, openai)
