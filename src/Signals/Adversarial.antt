-- ===== src/Signals/Adversarial.antt =====
-- app/services/validators/adversarial.py: attacks in the messages of a user, and a bot that gave in.
pub mod Shown
pub mod Precedence
use insyta_api.Prelude.{
  ℕ, ◌+◌, ◌%◌, ◌-◌, Bool, true, false, not, ◌&&◌, ◌||◌, ◌==◌, leb, any, Option, none, some, List,
  [], ◌∷◌, ◌++◌, map, Text, txt, text_eq, mem_text, length, Unicode, if◌then◌else◌, sorted_set,
  zero, suc, is_some,
}
use insyta_api.Prelude.Int.{ℤ}
use insyta_api.Regex.{Re, one, seq, many, up_to, exactly, search_re, find_iter, joined}
use insyta_api.Regex.Build.{either}
use insyta_api.Rubric.Scoring.{truthy}
use insyta_api.Signals.{Turn, turns}
use insyta_api.Signals.AttackPhrases.{
  jailbreak_re, injection_re, legal_re, price_lock_re, instruction_words_re, bot_cede_re,
}

-- `AttackSignal`
pub record AttackSignal : Type 0 where
  pub attack_type : Text
  pub turn_id : ℤ
  pub severity : Text
  pub detail : Text

-- `AdversarialResult`
pub record AdversarialResult : Type 0 where
  pub is_adversarial : Bool
  pub attack_type : Option Text
  pub bot_ceded : Bool
  pub signals : List AttackSignal

-- `_ATTACK_PRECEDENCE`
abbrev pub attack_precedence : List Text
attack_precedence =
    txt "manipulacion_legal"
    ∷ txt "manipulacion_precio"
    ∷ txt "prompt_injection"
    ∷ txt "jailbreak"
    ∷ txt "otro"
    ∷ []

-- `_SEVERITY_BY_TYPE`
unfoldable pub severity_by_type : Text → Text
unfolding text_eq
severity_by_type t =
    if text_eq t (txt "manipulacion_precio") || text_eq t (txt "otro")
    then txt "media"
    else txt "alta"

unfoldable pub signal_of : Text → ℤ → Text → AttackSignal
unfolding severity_by_type
signal_of t turn detail = record {
  attack_type = t;
  turn_id = turn;
  severity = severity_by_type t;
  detail = detail;
}

abbrev pub is_base64 : ℕ → Bool
is_base64 c =
    leb b'A' c && leb c b'Z'
    || leb b'a' c && leb c b'z'
    || leb b'0' c && leb c b'9'
    || c == b'+'
    || c == b'/'

-- `_BASE64_RE`
unfoldable pub base64_re : Re
base64_re =
    seq (exactly 24 (one is_base64)) (seq (many (one is_base64)) (up_to 2 (one (λ c. c == b'='))))

-- `-len(tok) % 4` signs of padding
abbrev pub padding : ℕ → Text
padding n =
    let r = n % 4 in
    if r == 0 then [] else if r == 1 then txt "===" else if r == 2 then txt "==" else txt "="

-- `next((t for t in _ATTACK_PRECEDENCE if t in present), "otro")`
abbrev pub first_present : List Text → List Text → Text
first_present [] present = txt "otro"
first_present (t ∷ ts) present = if mem_text t present then t else first_present ts present

-- `decode` is `base64.b64decode(…)`, where it does not raise, read as UTF-8 without what is malformed.
module _ (u : Unicode) (same : ℕ → ℕ → Bool) (decode : Text → Option Text) where
  unfoldable pub decodes_to_instructions : Text → Bool
  unfolding instruction_words_re search_re
  decodes_to_instructions tok = elim (decode (tok ++ padding (length tok))) [
    | none ↦ false
    | some t ↦ leb 8 (length t) && search_re (instruction_words_re u same) t
  ]

  -- `_has_encoded_instructions`
  unfoldable pub has_encoded_instructions : Text → Bool
  unfolding decodes_to_instructions base64_re find_iter
  has_encoded_instructions text =
      any decodes_to_instructions (map joined (find_iter (base64_re ∷ []) text))

  abbrev signal_if : Bool → AttackSignal → List AttackSignal
  signal_if b s = if b then s ∷ [] else []

  -- The signals of one message.
  unfoldable pub message_signals : ℤ → Text → List AttackSignal
  unfolding signal_of
  message_signals turn text =
      signal_if (search_re (legal_re u same) text) (
        signal_of (txt "manipulacion_legal") turn
          (txt "Intenta forzar un compromiso legalmente vinculante"))
      ++ (signal_if (search_re (price_lock_re u same) text) (
            signal_of (txt "manipulacion_precio") turn
              (txt "Intenta fijar un precio manipulado como pactado"))
          ++ (signal_if (search_re (injection_re u same) text || has_encoded_instructions text) (
                signal_of (txt "prompt_injection") turn
                  (txt "Inyección: pide revelar/repetir el system prompt o instrucciones"))
              ++ signal_if (search_re (jailbreak_re u same) text) (
                  signal_of (txt "jailbreak") turn
                    (txt "Jailbreak: intenta cambiar el rol o ignorar las reglas del agente"))))

  unfoldable pub all_signals : List (ℤ × Text) → List AttackSignal
  unfolding message_signals
  all_signals [] = []
  all_signals ((turn, text) ∷ ms) = message_signals turn text ++ all_signals ms

  -- `detect_adversarial`
  unfoldable pub detect_adversarial : List Turn → AdversarialResult
  unfolding all_signals mem_text
  detect_adversarial ms =
      let signals = all_signals (turns (txt "user") ms) in
      let present = map (λ (s : AttackSignal). s.attack_type) signals in
      let ceded =
        any (λ (m : ℤ × Text). search_re (bot_cede_re u same) m.1) (turns (txt "assistant") ms) in
      record {
        is_adversarial = truthy signals;
        attack_type =
            if truthy signals then some (first_present attack_precedence present) else none;
        bot_ceded = truthy signals && ceded;
        signals = signals;
      }

-- `attack_signal_names`
unfoldable pub attack_signal_names : AdversarialResult → List Text
unfolding sorted_set
attack_signal_names r = sorted_set (map (λ (s : AttackSignal). s.attack_type) r.signals)
