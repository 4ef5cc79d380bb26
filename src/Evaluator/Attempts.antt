-- ===== src/Evaluator/Attempts.antt =====
-- How `_run_eval` of app/workers/evaluator.py ends, what it sends and what it writes.
use insyta_api.Prelude.{
  ℕ, zero, suc, ◌+◌, ◌<◌, ◌≡◌, refl, ◌⊎◌, inl, inr, ◌↔◌, Bool, Option, none, some, List, [], ◌∷◌,
  ◌++◌, arith, ◌==◌, Bool-cases, Option-cases, ==_iff, ap,
}
use insyta_api.Rubric.{EvaluationResponse}
use insyta_api.Llm.{LlmError, transient, fatal, Result, ok, err, Call, LlmUsage}
use insyta_api.Evaluator.{
  Evaluation, find_evaluation, persist_evaluation, evaluated, attempts, run_eval,
}

-- `i` attempts in a row that fail for a transient reason, from `n` requests sent to `m`.
pub data Retries {A : Type 0} (evaluate : Call A) : ℕ → ℕ → ℕ → Type 0 where
  at_once : (n : ℕ) → Retries evaluate 0 n n
  again :
      {i n n' m : ℕ}
      → evaluate n ≡ (err transient, n')
      → Retries evaluate i n' m
      → Retries evaluate (suc i) n m

-- How an attempt ends.
attempt_cases :
    {A : Type 0} (r : Result A × ℕ)
    → ((a : A) × (m : ℕ) × (r ≡ (ok a, m)))
      ⊎ ((m : ℕ) × (r ≡ (err transient, m)))
      ⊎ ((m : ℕ) × (r ≡ (err fatal, m)))
attempt_cases (ok a, m) = inl (a, m, refl)
attempt_cases (err transient, m) = inr (inl (m, refl))
attempt_cases (err fatal, m) = inr (inr (m, refl))

attempts-Retries :
    {A : Type 0} (evaluate : Call A) (k i n m : ℕ) (a : A) (m' : ℕ)
    → Retries evaluate i n m
    → i < k
    → evaluate m ≡ (ok a, m')
    → attempts k evaluate n ≡ (ok (some a), m')
unfolding attempts
attempts-Retries evaluate zero i n m a m' rs lt e = ground arith
attempts-Retries evaluate (suc k) zero _ _ a m' (at_once n) lt e = ground (arith, e)
attempts-Retries evaluate (suc k) (suc i) n m a m' (again {n' = n'} h rs) lt e =
    let rest = attempts-Retries evaluate k i n' m a m' rs (omega arith) e in ground (arith, h, rest)

Retries-attempts :
    {A : Type 0} (evaluate : Call A) (k n : ℕ) (a : A) (m' : ℕ)
    → attempts k evaluate n ≡ (ok (some a), m')
    → (i : ℕ) × (m : ℕ) × Retries evaluate i n m × (i < k) × (evaluate m ≡ (ok a, m'))
unfolding attempts
Retries-attempts evaluate zero n a m' e = ground arith
Retries-attempts evaluate (suc k) n a m' e = elim (attempt_cases (evaluate n)) [
  | inl (b, m, h) ↦ (0, n, at_once n, omega arith, ground (arith, h, e))
  | inr (inl (n', h)) ↦
      let rest : attempts k evaluate n' ≡ (ok (some a), m') = ground (arith, h, e) in
      let (i, m, rs, lt, found) = Retries-attempts evaluate k n' a m' rest in
      (suc i, m, again h rs, omega arith, found)
  | inr (inr (n', h)) ↦ ground (arith, h, e)
]

-- How the rounds end.
rounds_cases :
    {A : Type 0} (r : Result (Option A) × ℕ)
    → ((a : A) × (m : ℕ) × (r ≡ (ok (some a), m)))
      ⊎ ((m : ℕ) × (r ≡ (ok none, m)))
      ⊎ ((x : LlmError) × (m : ℕ) × (r ≡ (err x, m)))
rounds_cases (ok (some a), m) = inl (a, m, refl)
rounds_cases (ok none, m) = inr (inl (m, refl))
rounds_cases (err x, m) = inr (inr (x, m, refl))

attempts-run_eval :
    (evaluate : Call (EvaluationResponse × LlmUsage)) (conv n : ℕ) (es : List Evaluation)
    (parsed : EvaluationResponse) (usage : LlmUsage) (m : ℕ)
    → attempts 3 evaluate n ≡ (ok (some (parsed, usage)), m)
    → run_eval evaluate conv n es ≡ (
      evaluated parsed usage (persist_evaluation conv parsed usage es).0,
      m,
      (persist_evaluation conv parsed usage es).1,
    )
unfolding run_eval
attempts-run_eval evaluate conv n es parsed usage m e = rw (e, run_eval) (ground (arith, e))

run_eval-attempts_some :
    (evaluate : Call (EvaluationResponse × LlmUsage)) (conv n : ℕ) (es : List Evaluation)
    (parsed : EvaluationResponse) (usage : LlmUsage) (was_new : Bool)
    → (run_eval evaluate conv n es).0 ≡ evaluated parsed usage was_new
    → (m : ℕ) × (attempts 3 evaluate n ≡ (ok (some (parsed, usage)), m))
unfolding run_eval
run_eval-attempts_some evaluate conv n es parsed usage was_new h =
    elim (rounds_cases (attempts 3 evaluate n)) [
      | inl (a, m, e) ↦ (m, ground (arith, e, h))
      | inr (inl (m, e)) ↦ ground (arith, e, h)
      | inr (inr (x, m, e)) ↦ ground (arith, e, h)
    ]

-- An evaluation ends with a result exactly if at most two transient failures come before an
-- attempt that gives it.
pub run_eval-evaluated :
    (evaluate : Call (EvaluationResponse × LlmUsage)) (conv n : ℕ) (es : List Evaluation)
    (parsed : EvaluationResponse) (usage : LlmUsage)
    → ((was_new : Bool) × ((run_eval evaluate conv n es).0 ≡ evaluated parsed usage was_new)) ↔ (
        (i : ℕ) × (m : ℕ) × (m' : ℕ) × Retries evaluate i n m
        × (i < 3)
        × (evaluate m ≡ (ok (parsed, usage), m')))
run_eval-evaluated evaluate conv n es parsed usage = (
  (λ (w, h).
      let (m', e) = run_eval-attempts_some evaluate conv n es parsed usage w h in
      let (i, m, rs, lt, found) = Retries-attempts evaluate 3 n (parsed, usage) m' e in
      (i, m, m', rs, lt, found)),
  (λ (i, m, m', rs, lt, found).
      let e = attempts-Retries evaluate 3 i n m (parsed, usage) m' rs lt found in
      (
        (persist_evaluation conv parsed usage es).0,
        ap (λ r. r.0) (attempts-run_eval evaluate conv n es parsed usage m' e),
      )),
)

find-append :
    (conv : ℕ) (e : Evaluation) (es : List Evaluation)
    → find_evaluation conv es ≡ none
    → e.conversation_id ≡ conv
    → find_evaluation conv (es ++ (e ∷ [])) ≡ some e
unfolding find_evaluation
find-append conv e [] h q = let same = (==_iff e.conversation_id conv).1 q in ground (arith, same)
find-append conv e (d ∷ es) h q =
    let rest = find-append conv e es in
    elim (Bool-cases (d.conversation_id == conv)) [
      | inl t ↦ ground (arith, t, h)
      | inr f ↦ rw (f, find_evaluation) (rest (ground (arith, f, h)) q)
    ]

find-persist :
    (conv : ℕ) (parsed : EvaluationResponse) (usage : LlmUsage) (es : List Evaluation)
    → (e : Evaluation) × (find_evaluation conv (persist_evaluation conv parsed usage es).1 ≡ some e)
unfolding persist_evaluation
find-persist conv parsed usage es = elim (Option-cases (find_evaluation conv es)) [
  | inl h ↦
      let row : Evaluation = record {
        conversation_id = conv;
        parsed = parsed;
        usage = usage;
        tokens_used = usage.input_tokens + usage.output_tokens;
      } in
      (row, rw (h, persist_evaluation) (find-append conv row es h refl))
  | inr (e, h) ↦ (e, rw (h, persist_evaluation) h)
]

persist-found :
    (conv : ℕ) (e : Evaluation) (es : List Evaluation)
    → find_evaluation conv es ≡ some e
    → (parsed : EvaluationResponse) (usage : LlmUsage)
    → (persist_evaluation conv parsed usage es).1 ≡ es
unfolding persist_evaluation
persist-found conv e es h parsed usage = rw (h, persist_evaluation) refl

run_eval-found :
    (evaluate : Call (EvaluationResponse × LlmUsage)) (conv n : ℕ) (e : Evaluation)
    (es : List Evaluation)
    → find_evaluation conv es ≡ some e
    → (run_eval evaluate conv n es).2 ≡ es
unfolding run_eval
run_eval-found evaluate conv n e es h = elim (rounds_cases (attempts 3 evaluate n)) [
  | inl ((parsed, usage), m, q) ↦ rw (q, run_eval) (persist-found conv e es h parsed usage)
  | inr (inl (m, q)) ↦ rw (q, run_eval) refl
  | inr (inr (x, m, q)) ↦ rw (q, run_eval) refl
]

-- After an evaluation of a conversation with a result, evaluating it again leaves the table as it
-- is.
pub run_eval-run_eval :
    (evaluate later : Call (EvaluationResponse × LlmUsage)) (conv n n' : ℕ) (es : List Evaluation)
    (parsed : EvaluationResponse) (usage : LlmUsage) (was_new : Bool)
    → (run_eval evaluate conv n es).0 ≡ evaluated parsed usage was_new
    → (run_eval later conv n' (run_eval evaluate conv n es).2).2 ≡ (run_eval evaluate conv n es).2
run_eval-run_eval evaluate later conv n n' es parsed usage was_new h =
    let (m, e) = run_eval-attempts_some evaluate conv n es parsed usage was_new h in
    let q = ap (λ r. r.2) (attempts-run_eval evaluate conv n es parsed usage m e) in
    let (row, found) = find-persist conv parsed usage es in
    rw q (run_eval-found later conv n' row (persist_evaluation conv parsed usage es).1 found)
