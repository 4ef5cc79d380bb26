-- ===== src/Upload/Contact/Phone.antt =====
-- A normalized phone number is normalized (`_phone_from_external` of app/workers/processor.py).
use insyta_api.Prelude.{
  ℕ, ◌≤◌, ◌≡◌, refl, ap, subst, ◌⊎◌, inl, inr, Bool, true, false, ◌&&◌, some, [], ◌∷◌, ◌==◌, leb,
  Text, if◌then◌else◌, Unicode, lstrip, rstrip, strip, length, all, arith, Bool-cases, ==_iff,
}
use insyta_api.Upload.Contact.{
  is_digit, phone_tail, matches_phone, split_plus, phone_digits, phone_from_external,
}

-- No digit is a space, and the plus sign is neither.
pub record Regular (u : Unicode) : Type 0 where
  pub digit_graphic : (c : ℕ) → is_digit u c ≡ true → u.is_space c ≡ false
  pub plus_graphic : u.is_space b'+' ≡ false
  pub plus_digit : is_digit u b'+' ≡ false

module _ (u : Unicode) where
  abbrev visible_char : ℕ → Bool
  visible_char c = if u.is_space c then false else true

  phone_digits-all : (s : Text) → all (is_digit u) (phone_digits u s) ≡ true
  unfolding phone_digits
  phone_digits-all [] = refl
  phone_digits-all (c ∷ s) = let rest = phone_digits-all s in ground (arith, rest)

  phone_digits_same : (s : Text) → all (is_digit u) s ≡ true → phone_digits u s ≡ s
  unfolding phone_digits
  phone_digits_same [] h = refl
  phone_digits_same (c ∷ s) h =
      let rest = phone_digits_same s in
      elim (Bool-cases (is_digit u c)) [
        | inl t ↦ rw (t, phone_digits) (ap (λ r. c ∷ r) (rest (ground (arith, t, h))))
        | inr f ↦ ground (arith, f, h)
      ]

  rstrip_same : (s : Text) → all visible_char s ≡ true → rstrip u s ≡ s
  unfolding rstrip
  rstrip_same [] h = refl
  rstrip_same (c ∷ []) h = ground (arith, h)
  rstrip_same (c ∷ d ∷ s) h =
      let rest = rstrip_same (d ∷ s) (ground (arith, h)) in rw (rest, rstrip) refl

  strip_same : (s : Text) → all visible_char s ≡ true → strip u s ≡ s
  unfolding strip lstrip
  strip_same [] h = refl
  strip_same (c ∷ s) h =
      let first : u.is_space c ≡ false = ground (arith, h) in
      rw (first, strip) (rstrip_same (c ∷ s) h)

  phone_tail_digits :
      (c : ℕ) (s : Text) → all (is_digit u) (c ∷ s) ≡ true → phone_tail u (c ∷ s) ≡ true
  phone_tail_digits c [] h = ground (arith, h)
  phone_tail_digits c (d ∷ s) h = let rest = phone_tail_digits d s in ground (arith, h, rest)

  module _ (r : Regular u) where
    digits-visible_char : (s : Text) → all (is_digit u) s ≡ true → all visible_char s ≡ true
    digits-visible_char [] h = refl
    digits-visible_char (c ∷ s) h =
        let rest = digits-visible_char s in
        let first = r.digit_graphic c in ground (arith, h, rest, first)

    matches_digits :
        (s : Text)
        → all (is_digit u) s ≡ true
        → 8 ≤ length s
        → length s ≤ 15
        → matches_phone u s ≡ true
    unfolding matches_phone
    matches_digits [] h low high = ground (arith, low)
    matches_digits (c ∷ []) h low high = ground (arith, low)
    matches_digits (c ∷ d ∷ s) h low high =
        let tail = phone_tail_digits d s in ground (arith, h, tail, low, high)

    not_plus : (c : ℕ) → is_digit u c ≡ true → (c == b'+') ≡ false
    not_plus c h = elim (Bool-cases (c == b'+')) [
      | inl t ↦
          let e = (==_iff c b'+').0 t in
          let h' = subst (λ x. is_digit u x ≡ true) e h in
          let no = r.plus_digit in ground (arith, h', no)
      | inr f ↦ f
    ]

    phone-digits :
        (s : Text)
        → all (is_digit u) s ≡ true
        → 8 ≤ length s
        → length s ≤ 15
        → phone_from_external u s ≡ some s
    unfolding phone_from_external split_plus
    phone-digits [] h low high = ground (arith, low)
    phone-digits (c ∷ s) h low high =
        let raw = strip_same (c ∷ s) (digits-visible_char (c ∷ s) h) in
        let same = phone_digits_same (c ∷ s) h in
        let good = matches_digits (c ∷ s) h low high in
        let first : is_digit u c ≡ true = ground (arith, h) in
        let lone = not_plus c first in
        rw (raw, phone_from_external)
          (rw (same, lone, split_plus) (ground (arith, good, low, high)))

    phone-plus :
        (s : Text)
        → all (is_digit u) s ≡ true
        → 8 ≤ length s
        → length s ≤ 15
        → phone_from_external u (b'+' ∷ s) ≡ some (b'+' ∷ s)
    unfolding phone_from_external split_plus phone_digits
    phone-plus s h low high =
        let all_graphic = digits-visible_char s h in
        let plus = r.plus_graphic in
        let no = r.plus_digit in
        let raw = strip_same (b'+' ∷ s) (ground (arith, all_graphic, plus)) in
        let same = phone_digits_same s h in
        let good = matches_digits s h low high in
        rw (raw, phone_from_external)
          (rw (no, phone_digits) (rw (same, split_plus) (ground (arith, good, low, high))))

    -- If no digit is a space and the plus sign is neither, a phone number read from an external
    -- identifier is read from itself again, unchanged.
    pub phone_from_external_idem :
        (s p : Text) → phone_from_external u s ≡ some p → phone_from_external u p ≡ some p
    unfolding phone_from_external
    phone_from_external_idem [] p h = ground (arith, h)
    phone_from_external_idem (c ∷ s) p h =
        let raw = strip u (c ∷ s) in
        let digits = phone_digits u raw in
        let clean = phone_digits-all raw in
        elim (Bool-cases (leb 8 (length digits) && leb (length digits) 15)) [
          | inl t ↦
              let low : 8 ≤ length digits = ground (arith, t) in
              let high : length digits ≤ 15 = ground (arith, t) in
              let a = phone-digits digits clean low high in
              let b = phone-plus digits clean low high in
              let e : (p ≡ digits) ⊎ (p ≡ b'+' ∷ digits) = ground (arith, h) in
              elim e [ inl q ↦ rw q a | inr q ↦ rw q b ]
          | inr f ↦ ground (arith, f, h)
        ]
