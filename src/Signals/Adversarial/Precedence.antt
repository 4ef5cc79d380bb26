-- ===== src/Signals/Adversarial/Precedence.antt =====
-- When a conversation is an attack, of which type, and when the bot gave in.
use insyta_api.Prelude.{◌≡◌, ◌⊎◌, List, [], ◌∷◌, Text}
use insyta_api.Signals.Adversarial.Shown.{Shown}

-- The text is the first of the list for which the property holds.
abbrev pub First : (Text → Type 0) → List Text → Text → Type 0
First P [] t = ⊥
First P (x ∷ xs) t = ((t ≡ x) × P x) ⊎ ((¬ (P x)) × First P xs t)
