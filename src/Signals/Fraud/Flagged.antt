-- ===== src/Signals/Fraud/Flagged.antt =====
-- Which flags of fraud a conversation gets.
use insyta_api.Prelude.{
  ℕ, zero, suc, ◌+◌, ◌≤◌, ◌≡◌, refl, sym, ap, subst, ◌∙◌, ◌⊎◌, inl, inr, ◌↔◌, Bool, true, ◌&&◌,
  none, some, List, [], ◌∷◌, ◌++◌, In, Text, txt, length, length-append, Option-cases, Unicode,
  arith, if◌then◌else◌,
}
use insyta_api.Prelude.Int.{ℤ}
use insyta_api.Regex.{Re, search_re}
use insyta_api.Regex.Search.{Occurs, search_re_iff}
use insyta_api.Rubric.Scoring.{truthy}
use insyta_api.Validators.Cbu.{find_cbus, validate_cbu}
use insyta_api.Validators.Amounts.{Floats, Json}
use insyta_api.Validators.Prices.{stated_prices, check_prices}
use insyta_api.Signals.{Turn, turns}
use insyta_api.Signals.Phrases.{off_channel_re, price_pressure_re, third_party_re}
use insyta_api.Signals.Fraud.{
  FraudFlag, invalid_cbus, copies, cbu_flag, truthy_json, pressure, message_flags, scan_users,
  detect_fraud,
}
use insyta_api.Signals.Fraud.Signs.{
  Flagged, both_or, Flagged-append, then_iff, some-inj, three_signs, pressed,
}

-- The texts that are rejected as a CBU, counted in a list and over the messages.
abbrev pub rejected : Unicode → List Text → ℕ
rejected u [] = 0
rejected u (c ∷ cs) = elim (validate_cbu u c) [
  | none ↦ rejected u cs
  | some ok ↦ if ok then rejected u cs else suc (rejected u cs)
]

abbrev pub all_rejected : Unicode → List (ℤ × Text) → ℕ
all_rejected u [] = 0
all_rejected u (m ∷ ms) = rejected u (find_cbus u m.1) + all_rejected u ms

-- The flag of that many invalid CBUs.
abbrev pub CbuSignal : Text → ℕ → Type 0
CbuSignal t n = ((t ≡ txt "cbu_invalido") × (n ≡ 1)) ⊎ ((t ≡ txt "cbu_invalido_repetido") × (2 ≤ n))

invalid_cbus-rejected :
    (u : Unicode) (cs : List Text) (n : ℕ) → invalid_cbus u cs ≡ some n → n ≡ rejected u cs
unfolding invalid_cbus
invalid_cbus-rejected u [] n h = ground arith
invalid_cbus-rejected u (c ∷ cs) n h = elim (Option-cases (validate_cbu u c)) [
  | inl e ↦ ground (arith, e, h)
  | inr (ok, e) ↦ elim (Option-cases (invalid_cbus u cs)) [
    | inl f ↦ ground (arith, e, f, h)
    | inr (m, f) ↦ let q = invalid_cbus-rejected u cs m f in ground (arith, e, f, h, q)
  ]
]

length-copies : (n : ℕ) (t : ℤ) → length (copies n t) ≡ n
length-copies zero t = refl
length-copies (suc n) t = ap suc (length-copies n t)

cbu_flag-CbuSignal :
    (show : ℕ → Text) (ts : List ℤ) (t : Text)
    → Flagged (cbu_flag show ts) t ↔ CbuSignal t (length ts)
unfolding cbu_flag
cbu_flag-CbuSignal show [] t = (λ (f, i, e). absurd i, λ x. ground arith)
cbu_flag-CbuSignal show (n ∷ []) t = (
  λ (f, i, e). elim i [
    | inl q ↦ inl (sym e ∙ ap (λ (x : FraudFlag). x.signal) q, refl)
    | inr j ↦ absurd j
  ],
  λ x. elim x [ inl (e, q) ↦ (_, inl refl, sym e) | inr (e, q) ↦ absurd (omega (arith, q)) ],
)
cbu_flag-CbuSignal show (n ∷ m ∷ ts) t = (
  λ (f, i, e). elim i [
    | inl q ↦ inr (sym e ∙ ap (λ (x : FraudFlag). x.signal) q, omega arith)
    | inr j ↦ absurd j
  ],
  λ x. elim x [ inl (e, q) ↦ absurd (omega (arith, q)) | inr (e, q) ↦ (_, inl refl, sym e) ],
)

module _ (u : Unicode) (same : ℕ → ℕ → Bool) where
  -- The message shows the sign of the name.
  abbrev pub Shows : Text → Text → Type 0
  Shows text t =
      ((t ≡ txt "pago_fuera_canal") × Occurs (off_channel_re u same) none text)
      ⊎ (((t ≡ txt "presion_precio") × Occurs (price_pressure_re u same) none text)
          ⊎ ((t ≡ txt "suplantacion") × Occurs (third_party_re u same) none text))

  abbrev pub Shown : List (ℤ × Text) → Text → Type 0
  Shown ms t = (m : ℤ × Text) × In m ms × Shows m.1 t

  searched :
      (r : Re) (text s t : Text)
      → ((t ≡ s) × (search_re r text ≡ true)) ↔ ((t ≡ s) × Occurs r none text)
  searched r text s t =
      let (to, from) = search_re_iff r text in (λ (e, h). (e, to h), λ (e, o). (e, from o))

module _ (u : Unicode) (same : ℕ → ℕ → Bool) where
  module _ (other_digit : ℕ → Bool) {F : Type 0} (o : Floats F) (precios : Json F) where
    pressure_signal :
        (turn : ℤ) (text : Text) (f : FraudFlag)
        → pressure u same other_digit o precios turn text ≡ some f
        → f.signal ≡ txt "presion_precio"
    unfolding pressure
    pressure_signal turn text f h =
        pressed (truthy_json o precios && truthy (stated_prices u same other_digit text))
          (check_prices u same other_digit o 0 text precios) _ _ f (txt "presion_precio") refl refl
          h

    message_flags-Shows :
        (turn : ℤ) (text : Text) (fs : List FraudFlag)
        → message_flags u same other_digit o precios turn text ≡ some fs
        → (t : Text) → Flagged fs t ↔ Shows u same text t
    unfolding message_flags
    message_flags-Shows turn text fs h t =
        then_iff
          (three_signs (search_re (off_channel_re u same) text)
            (search_re (price_pressure_re u same) text) (search_re (third_party_re u same) text)
            (pressure u same other_digit o precios turn text) _ _ fs (txt "presion_precio") h
            (pressure_signal turn text) t)
          (both_or (searched u same (off_channel_re u same) text (txt "pago_fuera_canal") t) (
            both_or (searched u same (price_pressure_re u same) text (txt "presion_precio") t)
              (searched u same (third_party_re u same) text (txt "suplantacion") t)))

    Shown-cons :
        (turn : ℤ) (text : Text) (ms : List (ℤ × Text)) (t : Text)
        → (Shows u same text t ⊎ Shown u same ms t) ↔ Shown u same ((turn, text) ∷ ms) t
    Shown-cons turn text ms t = (
      λ x. elim x [ inl h ↦ ((turn, text), inl refl, h) | inr (m, i, h) ↦ (m, inr i, h) ],
      λ (m, i, h). elim i [
        | inl e ↦ inl (subst (λ (x : ℤ × Text). Shows u same x.1 t) e h)
        | inr j ↦ inr (m, j, h)
      ],
    )

    scan_users-Shown :
        (ms : List (ℤ × Text)) (fs : List FraudFlag) (ts : List ℤ)
        → scan_users u same other_digit o precios ms ≡ some (fs, ts)
        → (length ts ≡ all_rejected u ms) × ((t : Text) → Flagged fs t ↔ Shown u same ms t)
    unfolding scan_users
    scan_users-Shown [] fs ts h =
        let e = some-inj ([], []) (fs, ts) h in
        (
          ap (λ (x : List FraudFlag × List ℤ). length x.1) (sym e),
          λ t.
              subst (λ (v : List FraudFlag). Flagged v t ↔ Shown u same [] t)
                (ap (λ (x : List FraudFlag × List ℤ). x.0) e)
                (λ (f, i, q). absurd i, λ (m, i, q). absurd i),
        )
    scan_users-Shown ((turn, text) ∷ ms) fs ts h =
        elim (Option-cases (invalid_cbus u (find_cbus u text))) [
          | inl e ↦ absurd (ground (arith, e, h))
          | inr (n, e) ↦
              elim (Option-cases (message_flags u same other_digit o precios turn text)) [
                | inl f ↦ absurd (ground (arith, e, f, h))
                | inr (gs, f) ↦ elim (Option-cases (scan_users u same other_digit o precios ms)) [
                  | inl g ↦ absurd (ground (arith, e, f, g, h))
                  | inr ((hs, us), g) ↦
                      let q : (gs ++ hs, copies n turn ++ us) ≡ (fs, ts) =
                        ground (arith, e, f, g, h) in
                      let (k, later) = scan_users-Shown ms hs us g in
                      let r : n ≡ rejected u (find_cbus u text) =
                        invalid_cbus-rejected u (find_cbus u text) n e in
                      (
                        ap (λ (x : List FraudFlag × List ℤ). length x.1) (sym q)
                            ∙ (length-append (copies n turn) us
                                ∙ omega (arith, length-copies n turn, k, r)),
                        λ t.
                            subst
                              (λ (v : List FraudFlag).
                                Flagged v t ↔ Shown u same ((turn, text) ∷ ms) t)
                              (ap (λ (x : List FraudFlag × List ℤ). x.0) q)
                              (then_iff (Flagged-append gs hs t) (
                                then_iff (both_or (message_flags-Shows turn text gs f t) (later t))
                                  (Shown-cons turn text ms t))),
                      )
                ]
              ]
        ]

-- A flag of a name is there, if the detection does not raise, exactly if some message of the user
-- shows the sign of that name, or it is the flag of one invalid CBU, or of two or more, that the
-- messages of the user have.
pub detect_fraud-Flagged :
    (u : Unicode) (same : ℕ → ℕ → Bool) (other_digit : ℕ → Bool) {F : Type 0} (o : Floats F)
    (precios : Json F) (show : ℕ → Text) (ms : List Turn) (fs : List FraudFlag)
    → detect_fraud u same other_digit o precios show ms ≡ some fs
    → let us = turns (txt "user") ms in
      (t : Text) → Flagged fs t ↔ (Shown u same us t ⊎ CbuSignal t (all_rejected u us))
unfolding detect_fraud
detect_fraud-Flagged u same other_digit o precios show ms fs h t =
    let us = turns (txt "user") ms in
    elim (Option-cases (scan_users u same other_digit o precios us)) [
      | inl e ↦ absurd (ground (arith, e, h))
      | inr ((gs, ts), e) ↦
          let q : gs ++ cbu_flag show ts ≡ fs = ground (arith, e, h) in
          let (k, shown) = scan_users-Shown u same other_digit o precios us gs ts e in
          subst (λ v. Flagged v t ↔ (Shown u same us t ⊎ CbuSignal t (all_rejected u us))) q
            (then_iff (Flagged-append gs (cbu_flag show ts) t) (
              both_or (shown t) (
                subst (λ n. Flagged (cbu_flag show ts) t ↔ CbuSignal t n) k
                  (cbu_flag-CbuSignal show ts t))))
    ]
