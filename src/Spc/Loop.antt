-- ===== src/Spc/Loop.antt =====
-- Which violations a rule's loop appends, read off the points up to an index.
use insyta_api.Prelude.{
  ℕ, zero, suc, ◌+◌, ◌≡◌, refl, ◌↔◌, inl, inr, Option, none, some, List, [], ◌∷◌, arith, In,
  In-append, In-append_left, In-append_right, subst, sym,
}
use insyta_api.Spc.{SpcViolation, loop}

-- The points from the start up to index `i`, the latest first; `h` holds those before `xs`.
abbrev pub history : {F : Type 0} → List F → List F → ℕ → Option (List F)
history h [] i = none
history h (x ∷ xs) zero = some (x ∷ h)
history h (x ∷ xs) (suc i) = history (x ∷ h) xs i

-- The loop's variables after the points of a history.
abbrev pub state_of : {F S : Type 0} → (S → F → S) → S → List F → S
state_of next s [] = s
state_of next s (x ∷ h) = next (state_of next s h) x

pub some_inj : {A : Type 0} {a b : A} → some a ≡ some b → a ≡ b
some_inj h = cc

module _ {F S : Type 0} (next : S → F → S) (emit : S → ℕ → F → List SpcViolation) (start : S)
    (P : SpcViolation → List F → Type 0)
    (emits : (h : List F) (j : ℕ) (x : F) (w : SpcViolation)
      → In w (emit (state_of next start h) j x) ↔ ((w.index ≡ j) × P w (x ∷ h))) where
  abbrev Located : SpcViolation → List F → ℕ → List F → Type 0
  Located w h n xs = (i : ℕ) × (g : List F) × (w.index ≡ n + i) × (history h xs i ≡ some g) × P w g

  loop-Located :
      (w : SpcViolation) (h : List F) (n : ℕ) (xs : List F)
      → In w (loop next emit (state_of next start h) n xs)
      → Located w h n xs
  unfolding loop
  loop-Located w h n [] m = absurd m
  loop-Located w h n (x ∷ xs) m = elim (In-append w (emit (state_of next start h) n x) _ m) [
    | inl l ↦ let (e, p) = (emits h n x w).0 l in (0, x ∷ h, omega arith, refl, p)
    | inr r ↦
        let (i, g, e, k, p) = loop-Located w (x ∷ h) (suc n) xs r in (suc i, g, omega arith, k, p)
  ]

  Located-loop :
      (w : SpcViolation) (h : List F) (n : ℕ) (xs : List F) (i : ℕ) (g : List F)
      → w.index ≡ n + i
      → history h xs i ≡ some g
      → P w g
      → In w (loop next emit (state_of next start h) n xs)
  unfolding loop
  Located-loop w h n [] i g e k p = absurd (cc)
  Located-loop w h n (x ∷ xs) zero g e k p =
      In-append_left w _ _ ((emits h n x w).1 (omega arith, subst (P w) (sym (some_inj k)) p))
  Located-loop w h n (x ∷ xs) (suc i) g e k p =
      In-append_right w (emit (state_of next start h) n x) _
        (Located-loop w (x ∷ h) (suc n) xs i g (omega arith) k p)

  -- From the first point on, the violations are those that `P` holds of at their index.
  pub loop-In :
      (w : SpcViolation) (xs : List F)
      → In w (loop next emit start 0 xs) ↔ ((g : List F) × (history [] xs w.index ≡ some g) × P w g)
  loop-In w xs = (
    λ m. let (i, g, e, k, p) = loop-Located w [] 0 xs m in (g, rw (zero_add e) k, p),
    λ (g, k, p). Located-loop w [] 0 xs w.index g (omega arith) k p,
  )
    where
      zero_add : {i : ℕ} → w.index ≡ 0 + i → w.index ≡ i
      zero_add h = omega arith
