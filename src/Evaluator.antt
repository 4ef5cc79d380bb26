-- ===== src/Evaluator.antt =====
-- app/workers/evaluator.py: one conversation's evaluation, with three attempts and an idempotent
-- insert.
pub mod Attempts
mod Tests
use insyta_api.Prelude.{
  ℕ, zero, suc, ◌+◌, Bool, true, false, Option, none, some, List, [], ◌∷◌, ◌++◌, ◌==◌,
  if◌then◌else◌,
}
use insyta_api.Rubric.{EvaluationResponse}
use insyta_api.Llm.{LlmError, transient, fatal, Result, ok, err, Call, LlmUsage}

-- A row of `evaluations`, by its conversation.
pub record Evaluation : Type 0 where
  pub conversation_id : ℕ
  pub parsed : EvaluationResponse
  pub usage : LlmUsage
  pub tokens_used : ℕ

unfoldable pub find_evaluation : ℕ → List Evaluation → Option Evaluation
find_evaluation conv [] = none
find_evaluation conv (e ∷ es) =
    if e.conversation_id == conv then some e else find_evaluation conv es

-- `_persist_evaluation`: INSERT … ON CONFLICT (conversation_id) DO NOTHING, and whether a row was
-- inserted.
unfoldable pub persist_evaluation :
    ℕ → EvaluationResponse → LlmUsage → List Evaluation → Bool × List Evaluation
unfolding find_evaluation
persist_evaluation conv parsed usage es = elim (find_evaluation conv es) [
  | some _ ↦ (false, es)
  | none ↦ (
    true,
    es
        ++ record {
          conversation_id = conv;
          parsed = parsed;
          usage = usage;
          tokens_used = usage.input_tokens + usage.output_tokens;
        }
          ∷ [],
  )
]

-- How `_run_eval` ends: a summary, a `FatalLLMError`, or the `RuntimeError` after three attempts.
pub data Outcome : Type 0 where
  evaluated : EvaluationResponse → LlmUsage → Bool → Outcome
  fatal_error exhausted : Outcome

-- The rounds left of `for attempt in range(3)`; `none` stands for no result after the last.
unfoldable pub attempts : {A : Type 0} → ℕ → Call A → ℕ → Result (Option A) × ℕ
attempts zero evaluate n = (ok none, n)
attempts (suc k) evaluate n =
    let (r, n') = evaluate n in
    let again = attempts k evaluate n' in
    elim r [
      | ok a ↦ (ok (some a), n')
      | err e ↦ elim e [ transient ↦ again | fatal ↦ (err fatal, n') ]
    ]

-- `_run_eval`
unfoldable pub run_eval :
    Call (EvaluationResponse × LlmUsage) → ℕ → ℕ → List Evaluation → Outcome × ℕ × List Evaluation
unfolding attempts persist_evaluation
run_eval evaluate conv n es =
    let (r, n') = attempts 3 evaluate n in
    elim r [
      | err _ ↦ (fatal_error, n', es)
      | ok none ↦ (exhausted, n', es)
      | ok (some (parsed, usage)) ↦
          let (was_new, es') = persist_evaluation conv parsed usage es in
          (evaluated parsed usage was_new, n', es')
    ]
