-- ===== src/Signals.antt =====
-- app/services/fraud.py and app/services/validators/adversarial.py: what the messages of a user say
-- of fraud and of attacks, and whether the bot gave in.
pub mod Phrases
pub mod AttackPhrases
pub mod Fraud
pub mod Adversarial
mod Tests
use insyta_api.Prelude.{
  ℕ, suc, ◌+◌, Bool, true, false, Option, none, some, List, [], ◌∷◌, Text, txt, text_eq,
  if◌then◌else◌,
}
use insyta_api.Prelude.Int.{ℤ, pos}

-- A message as the worker hands it to the detectors.
pub record Turn : Type 0 where
  pub seq : Option ℤ
  pub role : Text
  pub content : Option Text

-- The number and the text of the messages of a role; a missing number is the place in the list.
unfoldable pub turns_from : ℕ → Text → List Turn → List (ℤ × Text)
unfolding text_eq
turns_from i role [] = []
turns_from i role (m ∷ ms) =
    let rest = turns_from (suc i) role ms in
    if text_eq m.role role
    then (elim m.seq [ none ↦ pos i | some n ↦ n ], elim m.content [ none ↦ [] | some t ↦ t ])
      ∷ rest
    else rest

-- `_turns` and `_user_msgs`
unfoldable pub turns : Text → List Turn → List (ℤ × Text)
unfolding turns_from
turns role ms = turns_from 0 role ms
