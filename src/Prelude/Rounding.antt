-- ===== src/Prelude/Rounding.antt =====
-- Python's `round` of a quotient of natural numbers: to the nearest, and from the middle to even.
use Prim.Native.Nat.{ℕ, suc, ◌+◌, ◌*◌, ◌/◌, ◌%◌, ◌≤◌, ◌<◌}
use mathlib.Core.Path.{◌≡◌, ap}
use native.Mathlib.Omega.{arith}
use native.Mathlib.Decide.{dec_le, dec_lt}
use native.Mathlib.Nat.{mod-lt}
use insyta_api.Prelude.Tests.{ltb, ◌==◌, if◌then◌else◌}

-- `round(n / d)`
unfoldable pub round_div : ℕ → ℕ → ℕ
round_div n d =
    let q = n / d in
    let r = n % d in
    if ltb (2 * r) d then q else if ltb d (2 * r) then q + 1 else if q % 2 == 0 then q else q + 1

pub mul_mono : (a b d : ℕ) → a ≤ b → a * d ≤ b * d
mul_mono a b d h = grind arith

quotient-le : (q r d k : ℕ) → q * d + r ≤ k * d → 0 < d → q ≤ k
quotient-le q r d k h p = elim (dec_le q k) [
  | yes l ↦ l
  | no l ↦ absurd (omega (arith, mul_mono (suc k) q d (omega arith)))
]

quotient-lt : (q r d k : ℕ) → q * d + r ≤ k * d → 0 < r → q < k
quotient-lt q r d k h p = elim (dec_le (suc q) k) [
  | yes l ↦ l
  | no l ↦ absurd (omega (arith, mul_mono k q d (omega arith)))
]

quotient-ge : (q r d k : ℕ) → k * d ≤ q * d + r → r < d → k ≤ q
quotient-ge q r d k h p = elim (dec_le k q) [
  | yes l ↦ l
  | no l ↦ absurd (omega (arith, mul_mono (suc q) k d (omega arith)))
]

division : (n d : ℕ) → n ≡ n / d * d + n % d
division n d = omega arith

pub round_div-le : (n d k : ℕ) → n ≤ k * d → 0 < d → round_div n d ≤ k
unfolding round_div
round_div-le n d k h p =
    let e = division n d in
    let l = quotient-le (n / d) (n % d) d k (omega arith) p in
    elim (dec_lt 0 (n % d)) [
      | yes pos ↦ let m = quotient-lt (n / d) (n % d) d k (omega arith) pos in ground arith
      | no pos ↦ ground arith
    ]

pub round_div-exact : (n d k : ℕ) → n ≡ k * d → 0 < d → round_div n d ≡ k
unfolding round_div
round_div-exact n d k h p =
    let e = division n d in
    let r = mod-lt n p in
    let le = quotient-le (n / d) (n % d) d k (omega arith) p in
    let ge = quotient-ge (n / d) (n % d) d k (omega arith) r in
    let q : n / d ≡ k = omega arith in let m = ap (λ (t : ℕ). t * d) q in ground arith

pub round_div-ge : (n d k : ℕ) → k * d ≤ n → 0 < d → k ≤ round_div n d
unfolding round_div
round_div-ge n d k h p =
    let e = division n d in
    let r = mod-lt n p in let ge = quotient-ge (n / d) (n % d) d k (omega arith) r in ground arith
