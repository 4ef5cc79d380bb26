-- ===== src/Validators/Cbu.antt =====
-- app/services/validators/cbu.py: the bank account number (CBU) with its two check digits, and the
-- alias that may stand in for it.
pub mod Detection
pub mod Alias
mod Tests
use insyta_api.Prelude.{
  ℕ, zero, suc, ◌+◌, ◌-◌, ◌*◌, ◌%◌, Bool, true, false, not, ◌&&◌, ◌||◌, Option, none, some, List,
  [], ◌∷◌, ◌++◌, length, get_elem?, take, drop, all, ◌==◌, leb, if◌then◌else◌, is_some, Text,
  Unicode, strip,
}

-- `_BLOCK1_WEIGHTS`, on the first seven digits of the first block.
abbrev pub block1_weights : List ℕ
block1_weights = 7 ∷ 1 ∷ 3 ∷ 9 ∷ 7 ∷ 1 ∷ 3 ∷ []

-- `_BLOCK2_WEIGHTS`, on the first thirteen digits of the second block.
abbrev pub block2_weights : List ℕ
block2_weights = 3 ∷ 9 ∷ 7 ∷ 1 ∷ 3 ∷ 9 ∷ 7 ∷ 1 ∷ 3 ∷ 9 ∷ 7 ∷ 1 ∷ 3 ∷ []

-- The sum over `zip(digits, weights, strict=True)`; `none` is its `ValueError` on two lengths.
unfoldable pub weighted_sum : List ℕ → List ℕ → Option ℕ
weighted_sum [] [] = some 0
weighted_sum [] (w ∷ ws) = none
weighted_sum (d ∷ ds) [] = none
weighted_sum (d ∷ ds) (w ∷ ws) = elim (weighted_sum ds ws) [
  | none ↦ none
  | some s ↦ some (d * w + s)
]

-- `_check_digit`
unfoldable pub check_digit : List ℕ → List ℕ → Option ℕ
check_digit digits weights = elim (weighted_sum digits weights) [
  | none ↦ none
  | some s ↦ some ((10 - s % 10) % 10)
]

-- One verifier: `_check_digit(block[:k], weights) == int(block[k])`, where a missing `block[k]`
-- and unequal lengths raise (`none`).
unfoldable pub block_ok : ℕ → List ℕ → List ℕ → Option Bool
unfolding check_digit
block_ok k weights block = elim (check_digit (take k block) weights) [
  | none ↦ none
  | some c ↦ elim (get_elem? block k) [ none ↦ none | some v ↦ some (c == v) ]
]

-- `and` on two tests that may raise, the second run only if the first holds.
abbrev pub and_then : Option Bool → Option Bool → Option Bool
and_then none y = none
and_then (some false) y = some false
and_then (some true) y = y

-- The tests of `validate_cbu` once the digits are read.
unfoldable pub validate_digits : List ℕ → Option Bool
unfolding block_ok
validate_digits digits =
    if length digits == 22
    then and_then (block_ok 7 block1_weights (take 8 digits))
        (block_ok 13 block2_weights (drop 8 digits))
    else some false

module _ (u : Unicode) where
  -- `re.sub(r"\D", "", s)`, read digit by digit.
  unfoldable pub digits_of : Text → List ℕ
  digits_of [] = []
  digits_of (c ∷ s) = elim (u.decimal c) [ none ↦ digits_of s | some d ↦ d ∷ digits_of s ]

  -- `validate_cbu`; `none` would be an exception.
  unfoldable pub validate_cbu : Text → Option Bool
  unfolding digits_of validate_digits
  validate_cbu cbu = validate_digits (digits_of cbu)

  -- A run of word characters that has ended is a match of `\b\d{22}\b` if it is 22 digits.
  abbrev flush : Text → List Text → List Text
  flush run rest =
      if length run == 22 && all (λ c. is_some (u.decimal c)) run then run ∷ rest else rest

  -- The scan of `find_cbus` with the current run of word characters.
  unfoldable pub scan_runs : Text → Text → List Text
  scan_runs run [] = flush run []
  scan_runs run (c ∷ s) =
      let longer = scan_runs (run ++ c ∷ []) s in
      let ended = flush run (scan_runs [] s) in if u.is_word c then longer else ended

  -- `find_cbus`
  unfoldable pub find_cbus : Text → List Text
  unfolding scan_runs
  find_cbus = scan_runs []

-- `[a-z0-9]`
abbrev pub alias_char : ℕ → Bool
alias_char c = leb b'a' c && leb c b'z' || leb b'0' c && leb c b'9'

abbrev pub alias_separator : ℕ → Bool
alias_separator c = c == b'.' || c == b'-'

-- `_ALIAS_RE` past its first character; `after` says that an alias character was read last.
unfoldable pub alias_rest : Bool → Text → Bool
alias_rest after [] = after
alias_rest after (c ∷ s) =
    let next = alias_rest true s in
    let separated = alias_rest false s in
    if alias_char c then next else if after && alias_separator c then separated else false

-- `_ALIAS_RE.match(a)`
unfoldable pub alias_matches : Text → Bool
unfolding alias_rest
alias_matches = alias_rest false

-- `validate_alias`
unfoldable pub validate_alias : Unicode → Text → Bool
unfolding alias_matches
validate_alias u [] = false
validate_alias u (c ∷ s) =
    let a = strip u (c ∷ s) in leb 6 (length a) && leb (length a) 20 && alias_matches a

-- The labels of a `CbuFinding`.
pub data CbuLabel : Type 0 where
  ok agente_cbu_invalido agente_no_detecta fraude_comprobante : CbuLabel

pub record CbuFinding : Type 0 where
  pub cbu : Text
  pub valid : Bool
  pub label : CbuLabel

pub data Sender : Type 0 where
  bot user : Sender

-- `classify_cbu`; `none` if `validate_cbu` raises.
unfoldable pub classify_cbu : Unicode → Text → Sender → Bool → Option CbuFinding
unfolding validate_cbu
classify_cbu u cbu sender bot_detected = elim (validate_cbu u cbu) [
  | none ↦ none
  | some true ↦ some (record { cbu = cbu; valid = true; label = ok })
  | some false ↦ elim sender [
    | bot ↦ some (record { cbu = cbu; valid = false; label = agente_cbu_invalido })
    | user ↦
        if bot_detected
        then some (record { cbu = cbu; valid = false; label = fraude_comprobante })
        else some (record { cbu = cbu; valid = false; label = agente_no_detecta })
  ]
]
