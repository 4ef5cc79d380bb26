-- ===== src/Spc/SameSide.antt =====
-- Rule 2: what the variables `side` and `run_side` mean.
use insyta_api.Prelude.{
  ℕ, zero, suc, ◌+◌, ◌≤◌, ◌≡◌, ◌≢◌, ◌↔◌, Bool, List, [], ◌∷◌, arith, if◌then◌else◌,
}
use insyta_api.Spc.{Side, above, below, level, Baseline, side_of, continues, next2}
use insyta_api.Spc.Loop.{state_of}

-- One round of the loop on `cur`, `side` and `run_side`.
abbrev round2 : Side → Side → ℕ → Side × ℕ
round2 cur side run_side =
    if continues cur side then (side, run_side + 1) else (cur, elim cur [ level ↦ 0 | _ ↦ 1 ])

round2_first :
    (cur side s : Side) (run : ℕ)
    → s ≢ level
    → (cur ≡ s) ↔ (((round2 cur side run).0 ≡ s) × (1 ≤ (round2 cur side run).1))
round2_first above above s run ne = ground arith
round2_first above below s run ne = ground arith
round2_first above level s run ne = ground arith
round2_first below above s run ne = ground arith
round2_first below below s run ne = ground arith
round2_first below level s run ne = ground arith
round2_first level side s run ne = (λ e. absurd (ne (cc)), λ (e, l). absurd (omega arith))

round2_longer :
    (cur side s : Side) (run k : ℕ)
    → s ≢ level
    → ((cur ≡ s) × (side ≡ s) × (suc k ≤ run))
      ↔ (((round2 cur side run).0 ≡ s) × (suc (suc k) ≤ (round2 cur side run).1))
round2_longer above above s run k ne = ground arith
round2_longer above below s run k ne = ground arith
round2_longer above level s run k ne = ground arith
round2_longer below above s run k ne = ground arith
round2_longer below below s run k ne = ground arith
round2_longer below level s run k ne = ground arith
round2_longer level side s run k ne = (λ e. absurd (ne (cc (e.0))), λ (e, l). absurd (omega arith))

round2_level :
    (cur side : Side) (run : ℕ) → (round2 cur side run).0 ≡ level → (round2 cur side run).1 ≡ 0
round2_level above side run e = ground arith
round2_level below side run e = ground arith
round2_level level side run e = omega arith

module _ {F : Type 0} (lt : F → F → Bool) (b : Baseline F) where
  -- The last `k` points lie on the side `s` of the mean.
  abbrev pub OnSide : Side → ℕ → List F → Type 0
  OnSide s zero g = Unit
  OnSide s (suc k) [] = ⊥
  OnSide s (suc k) (x ∷ g) = (side_of lt b.mean x ≡ s) × OnSide s k g

  abbrev pub sides : List F → Side × ℕ
  sides = state_of (next2 lt b) (level, 0)

  pub OnSide-iff :
      (s : Side) (k : ℕ) (h : List F)
      → s ≢ level
      → OnSide s (suc k) h ↔ (((sides h).0 ≡ s) × (suc k ≤ (sides h).1))
  OnSide-iff s k [] ne = (λ a. absurd a, λ (e, l). absurd (omega arith))
  OnSide-iff s zero (x ∷ h) ne =
      let r = round2_first (side_of lt b.mean x) (sides h).0 s (sides h).1 ne in
      (λ (e, _). r.0 e, λ p. (r.1 p, tt))
  OnSide-iff s (suc k) (x ∷ h) ne =
      let r = round2_longer (side_of lt b.mean x) (sides h).0 s (sides h).1 k ne in
      let ih = OnSide-iff s k h ne in
      (
        λ (e, o). let (a, l) = ih.0 o in r.0 (e, a, l),
        λ p. let (e, a, l) = r.1 p in (e, ih.1 (a, l)),
      )

  pub sides-level : (x : F) (h : List F) → (sides (x ∷ h)).0 ≡ level → (sides (x ∷ h)).1 ≡ 0
  sides-level x h = round2_level (side_of lt b.mean x) (sides h).0 (sides h).1
