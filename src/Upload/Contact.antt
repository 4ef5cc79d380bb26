-- ===== src/Upload/Contact.antt =====
-- app/workers/processor.py: the phone number that an external identifier may be.
pub mod Phone
use insyta_api.Prelude.{
  ℕ, Bool, true, false, ◌&&◌, ◌||◌, Option, none, some, List, [], ◌∷◌, ◌==◌, leb, Text,
  if◌then◌else◌, Unicode, strip, length, is_some,
}

-- `_phone_from_external`; the expression is an optional plus, a digit, 6 to 18 characters of
-- `[\d\s().-]` and a digit, and the text is stripped.
module _ (u : Unicode) where
  abbrev pub is_digit : ℕ → Bool
  is_digit c = is_some (u.decimal c)

  abbrev pub phone_char : ℕ → Bool
  phone_char c =
      is_digit c || (u.is_space c || (c == b'(' || (c == b')' || (c == b'.' || c == b'-'))))

  -- The characters after the first digit: all but the last are of the class, the last is a digit.
  abbrev pub phone_tail : Text → Bool
  phone_tail [] = false
  phone_tail (c ∷ []) = is_digit c
  phone_tail (c ∷ d ∷ s) = phone_char c && phone_tail (d ∷ s)

  unfoldable pub matches_phone : Text → Bool
  matches_phone [] = false
  matches_phone (c ∷ s) = is_digit c && (phone_tail s && (leb 7 (length s) && leb (length s) 19))

  -- `raw.startswith("+")`, and the rest
  unfoldable pub split_plus : Text → Bool × Text
  split_plus [] = (false, [])
  split_plus (c ∷ s) = if c == b'+' then (true, s) else (false, c ∷ s)

  -- `re.sub(r"\D", "", raw)`
  unfoldable pub phone_digits : Text → Text
  phone_digits [] = []
  phone_digits (c ∷ s) = if is_digit c then c ∷ phone_digits s else phone_digits s

  unfoldable pub phone_from_external : Text → Option Text
  unfolding matches_phone split_plus phone_digits strip
  phone_from_external [] = none
  phone_from_external (c ∷ s) =
      let raw = strip u (c ∷ s) in
      let (plus, rest) = split_plus raw in
      let digits = phone_digits raw in
      if matches_phone rest && (leb 8 (length digits) && leb (length digits) 15)
      then some (if plus then b'+' ∷ digits else digits)
      else none
