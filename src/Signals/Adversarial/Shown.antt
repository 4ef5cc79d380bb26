-- ===== src/Signals/Adversarial/Shown.antt =====
-- The attacks that messages show, and the signals of them.
use insyta_api.Prelude.{
  ℕ, ◌≡◌, refl, sym, ap, subst, ◌⊎◌, inl, inr, ◌↔◌, Bool, true, ◌||◌, Option, none, List, [], ◌∷◌,
  ◌++◌, map, In, In-append, In-append_left, In-append_right, In_map_iff, Text, txt, Bool-cases,
  Unicode, arith, if◌then◌else◌,
}
use insyta_api.Prelude.Int.{ℤ}
use insyta_api.Regex.{Re, search_re}
use insyta_api.Regex.Relation.{tested, tested-In}
use insyta_api.Regex.Search.{Occurs, search_re_iff}
use insyta_api.Signals.AttackPhrases.{jailbreak_re, injection_re, legal_re, price_lock_re}
use insyta_api.Signals.Adversarial.{
  AttackSignal, attack_precedence, signal_of, has_encoded_instructions, message_signals,
  all_signals,
}

module _ (u : Unicode) (same : ℕ → ℕ → Bool) (decode : Text → Option Text) where
  abbrev pub Somewhere : Re → Text → Type 0
  Somewhere r text = Occurs r none text

  -- The message shows an attack of the type.
  abbrev pub Shows : Text → Text → Type 0
  Shows text t =
      ((t ≡ txt "manipulacion_legal") × Somewhere (legal_re u same) text)
      ⊎ (((t ≡ txt "manipulacion_precio") × Somewhere (price_lock_re u same) text)
          ⊎ (((t ≡ txt "prompt_injection")
                × (Somewhere (injection_re u same) text
                    ⊎ (has_encoded_instructions u same decode text ≡ true)))
              ⊎ ((t ≡ txt "jailbreak") × Somewhere (jailbreak_re u same) text)))

  -- Some message shows an attack of the type.
  abbrev pub Shown : List (ℤ × Text) → Text → Type 0
  Shown ms t = (m : ℤ × Text) × In m ms × Shows m.1 t

  -- A signal that is there under a condition, before others.
  optional-In :
      (b : Bool) (x s : AttackSignal) (rest : List AttackSignal)
      → In s ((if b then x ∷ [] else []) ++ rest)
      → ((s ≡ x) × (b ≡ true)) ⊎ In s rest
  optional-In b x s rest i = elim (In-append s (if b then x ∷ [] else []) rest i) [
    | inl j ↦ inl (tested b s x j)
    | inr j ↦ inr j
  ]

  there :
      (b : Bool) (x : AttackSignal) (rest : List AttackSignal)
      → b ≡ true
      → In x ((if b then x ∷ [] else []) ++ rest)
  there b x rest h = In-append_left x (if b then x ∷ [] else []) rest (tested-In b x h)

  behind :
      (b : Bool) (x s : AttackSignal) (rest : List AttackSignal)
      → In s rest
      → In s ((if b then x ∷ [] else []) ++ rest)
  behind b x s rest i = In-append_right s (if b then x ∷ [] else []) rest i

  type_of :
      (s : AttackSignal) (turn : ℤ) (t detail : Text)
      → s ≡ signal_of t turn detail
      → s.attack_type ≡ t
  type_of s turn t detail e = unfold signal_of in ap (λ (x : AttackSignal). x.attack_type) e

  injected :
      (text : Text)
      → (search_re (injection_re u same) text || has_encoded_instructions u same decode text) ≡ true
      → Somewhere (injection_re u same) text ⊎ (has_encoded_instructions u same decode text ≡ true)
  injected text b = elim (Bool-cases (search_re (injection_re u same) text)) [
    | inl e ↦ inl ((search_re_iff (injection_re u same) text).0 e)
    | inr e ↦ inr (ground arith)
  ]

  injected-true :
      (text : Text)
      → Somewhere (injection_re u same) text ⊎ (has_encoded_instructions u same decode text ≡ true)
      → (search_re (injection_re u same) text || has_encoded_instructions u same decode text) ≡ true
  injected-true text (inl o) =
      let e = (search_re_iff (injection_re u same) text).1 o in ground arith
  injected-true text (inr e) = ground arith

  message_signals-Shows :
      (turn : ℤ) (text : Text) (s : AttackSignal)
      → In s (message_signals u same decode turn text)
      → Shows text s.attack_type
  message_signals-Shows turn text s i =
      unfold message_signals in
      elim (optional-In (search_re (legal_re u same) text) _ s _ i) [
        | inl (e, b) ↦ inl (type_of s turn _ _ e, (search_re_iff (legal_re u same) text).0 b)
        | inr j ↦ elim (optional-In (search_re (price_lock_re u same) text) _ s _ j) [
          | inl (e, b) ↦
              inr (inl (type_of s turn _ _ e, (search_re_iff (price_lock_re u same) text).0 b))
          | inr k ↦
              elim (optional-In
                (search_re (injection_re u same) text
                  || has_encoded_instructions u same decode text)
                _ s _ k) [
                  | inl (e, b) ↦ inr (inr (inl (type_of s turn _ _ e, injected text b)))
                  | inr l ↦
                      let (e, b) = tested (search_re (jailbreak_re u same) text) s _ l in
                      inr (
                        inr (
                          inr
                            (type_of s turn _ _ e, (search_re_iff (jailbreak_re u same) text).0 b)))
                ]
        ]
      ]

  Shows-message_signals :
      (turn : ℤ) (text t : Text)
      → Shows text t
      → (s : AttackSignal) × In s (message_signals u same decode turn text) × (s.attack_type ≡ t)
  Shows-message_signals turn text t h =
      unfold message_signals in
      let legal = search_re (legal_re u same) text in
      let lock = search_re (price_lock_re u same) text in
      let inject =
        search_re (injection_re u same) text || has_encoded_instructions u same decode text in
      elim h [
        | inl (e, o) ↦ (
          _,
          there legal _ _ ((search_re_iff (legal_re u same) text).1 o),
          unfold signal_of in sym e,
        )
        | inr (inl (e, o)) ↦ (
          _,
          behind legal _ _ _ (there lock _ _ ((search_re_iff (price_lock_re u same) text).1 o)),
          unfold signal_of in sym e,
        )
        | inr (inr (inl (e, o))) ↦ (
          _,
          behind legal _ _ _ (behind lock _ _ _ (there inject _ _ (injected-true text o))),
          unfold signal_of in sym e,
        )
        | inr (inr (inr (e, o))) ↦ (
          _,
          behind legal _ _ _ (
              behind lock _ _ _ (
                behind inject _ _ _
                  (tested-In _ _ ((search_re_iff (jailbreak_re u same) text).1 o)))),
          unfold signal_of in sym e,
        )
      ]

  pub all_signals-Shown :
      (ms : List (ℤ × Text)) (s : AttackSignal)
      → In s (all_signals u same decode ms)
      → Shown ms s.attack_type
  unfolding all_signals
  all_signals-Shown [] s i = absurd i
  all_signals-Shown ((turn, text) ∷ ms) s i =
      elim (In-append s (message_signals u same decode turn text) (all_signals u same decode ms)
        i) [
          | inl j ↦ ((turn, text), inl refl, message_signals-Shows turn text s j)
          | inr j ↦ let (m, k, h) = all_signals-Shown ms s j in (m, inr k, h)
        ]

  pub Shown-all_signals :
      (ms : List (ℤ × Text)) (t : Text)
      → Shown ms t
      → (s : AttackSignal) × In s (all_signals u same decode ms) × (s.attack_type ≡ t)
  unfolding all_signals
  Shown-all_signals [] t (m, i, h) = absurd i
  Shown-all_signals ((turn, text) ∷ ms) t (m, inl e, h) =
      let shows = subst (λ (x : ℤ × Text). Shows x.1 t) e h in
      let (s, i, q) = Shows-message_signals turn text t shows in
      (
        s,
        In-append_left s (message_signals u same decode turn text) (all_signals u same decode ms) i,
        q,
      )
  Shown-all_signals ((turn, text) ∷ ms) t (m, inr j, h) =
      let (s, i, q) = Shown-all_signals ms t (m, j, h) in
      (
        s,
        In-append_right s (message_signals u same decode turn text) (all_signals u same decode ms)
            i,
        q,
      )

  pub present_iff :
      (ms : List (ℤ × Text)) (t : Text)
      → In t (map (λ (s : AttackSignal). s.attack_type) (all_signals u same decode ms)) ↔ Shown ms t
  present_iff ms t =
      let (to, from) =
        In_map_iff (λ (s : AttackSignal). s.attack_type) t (all_signals u same decode ms) in
      (
        λ i. let (s, j, e) = to i in subst (λ v. Shown ms v) (sym e) (all_signals-Shown ms s j),
        λ h. let (s, j, e) = Shown-all_signals ms t h in from (s, j, sym e),
      )

  -- Whoever is present is one of the types of the list, so that none falls through.
  pub Shows-known : (text t : Text) → Shows text t → In t attack_precedence
  Shows-known text t (inl (e, o)) = inl e
  Shows-known text t (inr (inl (e, o))) = inr (inl e)
  Shows-known text t (inr (inr (inl (e, o)))) = inr (inr (inl e))
  Shows-known text t (inr (inr (inr (e, o)))) = inr (inr (inr (inl e)))
