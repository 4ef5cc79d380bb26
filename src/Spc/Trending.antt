-- ===== src/Spc/Trending.antt =====
-- Rule 3: what the variables `up` and `down` mean.
use insyta_api.Prelude.{
  ℕ, zero, suc, ◌+◌, ◌≤◌, ◌≡◌, refl, ◌↔◌, Bool, true, false, Option, none, some, List, [], ◌∷◌,
  arith, if◌then◌else◌, Bool-cases, inl, inr,
}
use insyta_api.Spc.{next3}
use insyta_api.Spc.Loop.{state_of, some_inj}

-- Of the points, the latest first, each of the last `k` is related to the one after it.
abbrev pub Chain : {F : Type 0} → (F → F → Bool) → ℕ → List F → Type 0
Chain r zero g = Unit
Chain r (suc k) [] = ⊥
Chain r (suc zero) (x ∷ g) = Unit
Chain r (suc (suc k)) (x ∷ []) = ⊥
Chain r (suc (suc k)) (x ∷ y ∷ g) = (r y x ≡ true) × Chain r (suc k) (y ∷ g)

module _ {F : Type 0} (lt : F → F → Bool)
    (lt_asymm : (a b : F) → lt a b ≡ true → lt b a ≡ false) where
  abbrev pub Rising : ℕ → List F → Type 0
  Rising = Chain lt

  abbrev pub Falling : ℕ → List F → Type 0
  Falling = Chain (λ w v. lt v w)

  abbrev pub counts : List F → Option F × ℕ × ℕ
  counts = state_of (next3 lt) (none, 1, 1)

  pub counts-latest : (x : F) (h : List F) → (counts (x ∷ h)).0 ≡ some x
  counts-latest x h = latest (counts h)
    where
      latest : (st : Option F × ℕ × ℕ) → (next3 lt st x).0 ≡ some x
      latest (none, u, d) = refl
      latest (some w, u, d) = ground arith

  next3_up :
      (st : Option F × ℕ × ℕ) (w x : F)
      → st.0 ≡ some w
      → (next3 lt st x).1 ≡ (if lt w x then st.1 + 1 else 1)
  next3_up (none, u, d) w x e = absurd (cc)
  next3_up (some v, u, d) w x e = rw (some_inj e) (ground arith)

  next3_down :
      (st : Option F × ℕ × ℕ) (w x : F)
      → st.0 ≡ some w
      → (next3 lt st x).2 ≡ (if lt x w then st.2 + 1 else 1)
  next3_down (none, u, d) w x e = absurd (cc)
  next3_down (some v, u, d) w x e = rw (some_inj e) (ground (arith, lt_asymm w x, lt_asymm x w))

  next3_pos : (st : Option F × ℕ × ℕ) (x : F) → (1 ≤ (next3 lt st x).1) × (1 ≤ (next3 lt st x).2)
  next3_pos (none, u, d) x = ground arith
  next3_pos (some w, u, d) x = ground arith

  pub Rising-iff :
      (k : ℕ) (x : F) (h : List F) → Rising (suc k) (x ∷ h) ↔ (suc k ≤ (counts (x ∷ h)).1)
  Rising-iff zero x h = (λ _. (next3_pos (counts h) x).0, λ _. tt)
  Rising-iff (suc k) x [] = (λ a. absurd a, λ l. absurd (omega arith))
  Rising-iff (suc k) x (y ∷ h) =
      let ih = Rising-iff k y h in
      let e = next3_up (counts (y ∷ h)) y x (counts-latest y h) in
      (
        λ (l, r). ground (arith, ih.0 r),
        λ m. elim (Bool-cases (lt y x)) [
          | inl l ↦ (l, ih.1 (ground arith))
          | inr l ↦ absurd (ground arith)
        ],
      )

  pub Falling-iff :
      (k : ℕ) (x : F) (h : List F) → Falling (suc k) (x ∷ h) ↔ (suc k ≤ (counts (x ∷ h)).2)
  Falling-iff zero x h = (λ _. (next3_pos (counts h) x).1, λ _. tt)
  Falling-iff (suc k) x [] = (λ a. absurd a, λ l. absurd (omega arith))
  Falling-iff (suc k) x (y ∷ h) =
      let ih = Falling-iff k y h in
      let e = next3_down (counts (y ∷ h)) y x (counts-latest y h) in
      (
        λ (l, r). ground (arith, ih.0 r),
        λ m. elim (Bool-cases (lt x y)) [
          | inl l ↦ (l, ih.1 (ground arith))
          | inr l ↦ absurd (ground arith)
        ],
      )
