-- ===== src/Judge/Privacy.antt =====
-- What the judge of app/llm/audit_judge.py learns of the messages.
use insyta_api.Prelude.{
  ℕ, ◌≡◌, ◌≢◌, refl, ap, Option, none, some, List, [], ◌∷◌, Text, All, Unicode, arith, map,
}
use insyta_api.Judge.{
  JudgeMessage, Brief, Engines, or_else, content_of, message_line, message_lines, build_user_prompt,
  answer_prompt, judge_messages,
}

-- The message has an anonymized content that is not empty.
abbrev pub Anonymized : JudgeMessage → Type 0
Anonymized m = (s : Text) × (m.content_anonymized ≡ some s) × (s ≢ [])

-- The message with another raw content.
abbrev pub with_content : (JudgeMessage → Option Text) → JudgeMessage → JudgeMessage
with_content raw m = record m { content = raw m }

or_else-anonymized :
    (o : Option Text) (s t t' : Text) → o ≡ some s → s ≢ [] → or_else o t ≡ or_else o t'
unfolding or_else
or_else-anonymized none s t t' e n = ground (arith, e)
or_else-anonymized (some []) s t t' e n = let q : s ≡ [] = ground (arith, e) in absurd (n q)
or_else-anonymized (some (c ∷ r)) s t t' e n = refl

content_of-with_content :
    (raw : JudgeMessage → Option Text) (m : JudgeMessage)
    → Anonymized m
    → content_of (with_content raw m) ≡ content_of m
unfolding content_of
content_of-with_content raw m (s, e, n) =
    or_else-anonymized m.content_anonymized s (or_else (raw m) []) (or_else m.content []) e n

message_lines-with_content :
    (show : ℕ → Text) (raw : JudgeMessage → Option Text) (ms : List JudgeMessage)
    → All Anonymized ms
    → message_lines show (map (with_content raw) ms) ≡ message_lines show ms
unfolding message_lines message_line
message_lines-with_content show raw [] all = refl
message_lines-with_content show raw (m ∷ ms) (here, all) =
    let rest = message_lines-with_content show raw ms all in
    let same = content_of-with_content raw m here in rw (same, rest) refl

build_user_prompt-with_content :
    (show : ℕ → Text) (b : Brief) (raw : JudgeMessage → Option Text) (ms : List JudgeMessage)
    → All Anonymized ms
    → build_user_prompt show b (map (with_content raw) ms) ≡ build_user_prompt show b ms
unfolding build_user_prompt
build_user_prompt-with_content show b raw ms all =
    rw (message_lines-with_content show raw ms all, build_user_prompt) refl

-- If every message has an anonymized content that is not empty, what the judge answers and which
-- engines are asked do not depend on the raw contents.
pub judge_messages-with_content :
    {V : Type 0} (u : Unicode) (show : ℕ → Text) (load : Text → Option (List V)) (w : Engines)
    (b : Brief) (provider : Option Text) (raw : JudgeMessage → Option Text) (ms : List JudgeMessage)
    → All Anonymized ms
    → judge_messages u show load w b provider (map (with_content raw) ms)
      ≡ judge_messages u show load w b provider ms
unfolding judge_messages
judge_messages-with_content u show load w b provider raw ms all =
    ap (answer_prompt u show load w provider) (build_user_prompt-with_content show b raw ms all)
