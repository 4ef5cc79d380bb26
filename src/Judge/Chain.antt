-- ===== src/Judge/Chain.antt =====
-- Which engine answers the judge of app/llm/audit_judge.py.
use insyta_api.Prelude.{
  ℕ, ◌≡◌, refl, ◌⊎◌, inl, inr, ◌↔◌, Option, List, [], ◌∷◌, Text, Unicode, arith,
}
use insyta_api.Llm.{LlmError, fatal, Result, ok, err, Provider}
use insyta_api.Judge.{
  JudgeMessage, Brief, Engines, ask, chain_of, first_answer, parse_verdicts, build_user_prompt,
  answer_prompt, judge_messages,
}

-- The first text of a chain comes from an engine before which all failed, for whatever reason.
abbrev pub AnswersFirst : Engines → Text → Text → List Provider → Type 0
AnswersFirst w prompt t [] = ⊥
AnswersFirst w prompt t (p ∷ ps) =
    (ask w p prompt ≡ ok t)
    ⊎ (((e : LlmError) × (ask w p prompt ≡ err e)) × AnswersFirst w prompt t ps)

Result-cases : {A : Type 0} (r : Result A) → ((a : A) × (r ≡ ok a)) ⊎ ((e : LlmError) × (r ≡ err e))
Result-cases (ok a) = inl (a, refl)
Result-cases (err e) = inr (e, refl)

first_answer-AnswersFirst :
    (w : Engines) (prompt t : Text) (last : LlmError) (ps : List Provider)
    → ((first_answer w prompt last ps).0 ≡ ok t) ↔ AnswersFirst w prompt t ps
unfolding first_answer
first_answer-AnswersFirst w prompt t last [] = (λ h. ground (arith, h), λ h. absurd h)
first_answer-AnswersFirst w prompt t last (p ∷ ps) = elim (Result-cases (ask w p prompt)) [
  | inl (a, q) ↦ (
    (λ h. inl (ground (arith, q, h))),
    (λ h. elim h [ inl r ↦ ground (arith, q, r) | inr ((e, r), later) ↦ ground (arith, q, r) ]),
  )
  | inr (e, q) ↦
      let rest = first_answer-AnswersFirst w prompt t e ps in
      (
        (λ h. inr ((e, q), rest.0 (ground (arith, q, h)))),
        (λ h. elim h [
          | inl r ↦ ground (arith, q, r)
          | inr (failed, later) ↦ let found = rest.1 later in ground (arith, q, found)
        ]),
      )
]

module _ {V : Type 0} (u : Unicode) (show : ℕ → Text) (load : Text → Option (List V))
    (w : Engines) where
  -- The judge has verdicts exactly if the first engine of the chain that gives a text, after
  -- failures of whatever kind, a missing key included, gives one that reads as these verdicts.
  pub judge_messages-AnswersFirst :
      (b : Brief) (provider : Option Text) (ms : List JudgeMessage) (vs : List V)
      → ((judge_messages u show load w b provider ms).0 ≡ ok vs) ↔ (
          (t : Text) × AnswersFirst w (build_user_prompt show b ms) t (chain_of provider)
          × (parse_verdicts u show load w t ≡ ok vs))
  unfolding judge_messages answer_prompt
  judge_messages-AnswersFirst b provider ms vs =
      let prompt = build_user_prompt show b ms in
      let found = first_answer w prompt fatal (chain_of provider) in
      elim (Result-cases found.0) [
        | inl (t, q) ↦ (
          (λ h. (
            t,
            (first_answer-AnswersFirst w prompt t fatal (chain_of provider)).0 q,
            ground (arith, q, h),
          )),
          (λ (t', first, h).
              let q' = (first_answer-AnswersFirst w prompt t' fatal (chain_of provider)).1 first in
              ground (arith, q', h)),
        )
        | inr (e, q) ↦ (
          (λ h. ground (arith, q, h)),
          (λ (t', first, h).
              let q' = (first_answer-AnswersFirst w prompt t' fatal (chain_of provider)).1 first in
              ground (arith, q', h)),
        )
      ]
