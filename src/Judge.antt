-- ===== src/Judge.antt =====
-- app/llm/audit_judge.py: the prompt for the judge of a conversation's messages, and the chain of
-- engines that answer it. A key and an engine's answer to a prompt are parameters; `none` is an
-- `APIError`. json.loads with the validation of the verdicts is `load`.
pub mod Privacy
pub mod Chain
mod Tests
use insyta_api.Prelude.{
  ℕ, Bool, true, false, Option, none, some, List, [], ◌∷◌, ◌++◌, Text, txt, text_eq, if◌then◌else◌,
  Unicode,
}
use insyta_api.Llm.{
  LlmError, transient, fatal, Result, ok, err, Provider, anthropic, openai, deepseek, unfenced,
}

pub record JudgeMessage : Type 0 where
  pub seq : ℕ
  pub role : Text
  pub content : Option Text
  pub content_anonymized : Option Text

-- `a or b` on texts that may be missing.
unfoldable pub or_else : Option Text → Text → Text
or_else none t = t
or_else (some []) t = t
or_else (some (c ∷ s)) t = c ∷ s

-- `m.get("content_anonymized") or m.get("content") or ""`
unfoldable pub content_of : JudgeMessage → Text
unfolding or_else
content_of m = or_else m.content_anonymized (or_else m.content [])

-- `separator.join(parts)`
unfoldable pub join : Text → List Text → Text
join separator [] = []
join separator (t ∷ []) = t
join separator (t ∷ s ∷ ts) = t ++ (separator ++ join separator (s ∷ ts))

-- A line that is there if the text is.
unfoldable pub line_if : Text → Option Text → List Text
line_if label none = []
line_if label (some []) = []
line_if label (some (c ∷ s)) = (label ++ (c ∷ s)) ∷ []

unfoldable pub message_line : (ℕ → Text) → JudgeMessage → Text
unfolding content_of
message_line show m =
    txt "[seq=" ++ (show m.seq ++ (txt "] " ++ (m.role ++ (txt ": " ++ content_of m))))

unfoldable pub message_lines : (ℕ → Text) → List JudgeMessage → List Text
unfolding message_line
message_lines show [] = []
message_lines show (m ∷ ms) = message_line show m ∷ message_lines show ms

-- The options of `judge_messages`.
pub record Brief : Type 0 where
  pub emphasis : List Text
  pub free_text : Option Text
  pub objective : Option Text
  pub flow_context : Option Text

unfoldable pub emphasis_line : List Text → List Text
unfolding join
emphasis_line [] = []
emphasis_line (e ∷ es) = (txt "Énfasis: " ++ join (txt ", ") (e ∷ es)) ∷ []

-- `_build_user_prompt`
unfoldable pub build_user_prompt : (ℕ → Text) → Brief → List JudgeMessage → Text
unfolding join line_if emphasis_line message_lines
build_user_prompt show b ms = join (10 ∷ []) (
    line_if (txt "Objetivo de la campaña: ") b.objective
    ++ (line_if (txt "Contexto (empresa + flujo esperado):" ++ (10 ∷ [])) b.flow_context
        ++ (emphasis_line b.emphasis
            ++ (line_if (txt "Instrucción del auditor: ") b.free_text
                ++ (txt
                      "Juzgá cada mensaje del asistente según si AYUDA a cumplir el objetivo y sigue el flujo/empresa; marcá error/warning cuando se desvía."
                    ∷ txt "Conversación:"
                    ∷ message_lines show ms)))))

-- The engines' keys and answers.
pub record Engines : Type 0 where
  pub key : Provider → Option Text
  pub answer : Provider → Text → Option Text

-- `_anthropic`, `_openai` and `_deepseek`
unfoldable pub ask : Engines → Provider → Text → Result Text
ask w p prompt = elim (w.key p) [
  | none ↦ err fatal
  | some k ↦ elim k [
    | [] ↦ err fatal
    | _ ∷ _ ↦ elim (w.answer p prompt) [ none ↦ err transient | some t ↦ ok t ]
  ]
]

-- `chain`
unfoldable pub chain_of : Option Text → List Provider
unfolding text_eq
chain_of none = anthropic ∷ openai ∷ []
chain_of (some p) =
    if text_eq p (txt "deepseek") then deepseek ∷ anthropic ∷ [] else anthropic ∷ openai ∷ []

-- The loop over the chain: the first text, or the last error; and the engines asked.
unfoldable pub first_answer :
    Engines → Text → LlmError → List Provider → Result Text × List Provider
unfolding ask
first_answer w prompt last [] = (err last, [])
first_answer w prompt last (p ∷ ps) = elim (ask w p prompt) [
  | ok t ↦ (ok t, p ∷ [])
  | err e ↦ let (r, asked) = first_answer w prompt e ps in (r, p ∷ asked)
]

module _ {V : Type 0} (u : Unicode) (show : ℕ → Text) (load : Text → Option (List V))
    (w : Engines) where
  -- `_parse`
  unfoldable pub parse_verdicts : Text → Result (List V)
  unfolding unfenced
  parse_verdicts t = elim (load (unfenced u t)) [ none ↦ err transient | some vs ↦ ok vs ]

  -- `judge_messages` after the prompt, with the engines asked; `FatalLLMError` stands for no last
  -- error.
  unfoldable pub answer_prompt : Option Text → Text → Result (List V) × List Provider
  unfolding first_answer parse_verdicts chain_of
  answer_prompt provider prompt =
      let (r, asked) = first_answer w prompt fatal (chain_of provider) in
      elim r [ ok t ↦ (parse_verdicts t, asked) | err e ↦ (err e, asked) ]

  unfoldable pub judge_messages :
      Brief → Option Text → List JudgeMessage → Result (List V) × List Provider
  unfolding answer_prompt build_user_prompt
  judge_messages b provider ms = answer_prompt provider (build_user_prompt show b ms)
