-- ===== src/Spc/Tests.antt =====
-- Tests of the control charts, on scores as natural numbers, and their theorems at such scores.
use insyta_api.Prelude.{
  ℕ, ◌≡◌, refl, inl, inr, true, false, Option, none, some, List, [], ◌∷◌, ltb, arith, In,
}
use insyta_api.Spc.{
  SpcViolation, same_side_8, beyond_3sigma, trend_6, bajo, Baseline, below, present, check_rules,
  detect_drift, mejora,
}
use insyta_api.Spc.Loop.{history}
use insyta_api.Spc.SameSide.{OnSide}
use insyta_api.Spc.Rules.{check_rules-In}

abbrev baseline : Baseline ℕ
baseline = record { mean = 50; std = 5; ucl = 65; lcl = 35; n = 20 }

ltb_asymm : (a b : ℕ) → ltb a b ≡ true → ltb b a ≡ false
ltb_asymm a b h = ground arith

abbrev falling : List (Option ℕ)
falling =
    some 50
    ∷ some 49
    ∷ none
    ∷ some 48
    ∷ some 47
    ∷ some 46
    ∷ some 45
    ∷ some 44
    ∷ some 30
    ∷ some 40
    ∷ []

falling_violations :
    check_rules ltb falling baseline
    ≡ record { rule = beyond_3sigma; index = 7; direction = bajo }
      ∷ record { rule = same_side_8; index = 8; direction = bajo }
      ∷ record { rule = trend_6; index = 5; direction = bajo }
      ∷ record { rule = trend_6; index = 6; direction = bajo }
      ∷ record { rule = trend_6; index = 7; direction = bajo }
      ∷ []
unfolding check_rules
falling_violations = refl

rising_trend :
    detect_drift ltb
      (some 1 ∷ some 2 ∷ some 3 ∷ some 4 ∷ some 5 ∷ some 6 ∷ [])
      (record { mean = 3; std = 1; ucl = 9; lcl = 0; n = 6 })
    ≡ mejora
unfolding detect_drift
rising_trend = refl

abbrev eight_low : SpcViolation
eight_low = record { rule = same_side_8; index = 8; direction = bajo }

abbrev latest_first : List ℕ
latest_first = 40 ∷ 30 ∷ 44 ∷ 45 ∷ 46 ∷ 47 ∷ 48 ∷ 49 ∷ 50 ∷ []

history_8 : history [] (present falling) 8 ≡ some latest_first
unfolding present
history_8 = refl

low_side : OnSide ltb baseline below 8 latest_first
low_side = ground arith

check_rules-In_example : In eight_low (check_rules ltb falling baseline)
check_rules-In_example =
    (check_rules-In ltb ltb_asymm baseline falling eight_low).1
      (latest_first, history_8, inr (inl (refl, inr (refl, low_side))))
