-- ===== src/Llm/Cost.antt =====
-- The cost of a call.
use insyta_api.Prelude.{
  ℕ, ◌+◌, ◌-◌, ◌*◌, ◌≤◌, ◌≡◌, some, Text, arith, round_div, mul_mono, Option-cases, inl, inr,
}
use insyta_api.Llm.{Rates, pricing, calc_cost}

round_div_mono : (m n : ℕ) → m ≤ n → round_div m 100 ≤ round_div n 100
unfolding round_div
round_div_mono m n h = ground arith

pricing_cheaper : (model : Text) (r : Rates) → pricing model ≡ some r → r.cache_read ≤ r.input
unfolding pricing
pricing_cheaper model r h = ground arith

numerator-le : (k c i d : ℕ) → d ≤ i → k * i + c * d ≤ (k + c) * i
numerator-le k c i d h = omega (arith, mul_mono d i c h)

-- Tokens read from the cache never cost more than the same tokens sent fresh, on any model.
pub calc_cost-cached :
    (model : Text) (fresh cached output : ℕ)
    → calc_cost model (fresh + cached) output cached 0 ≤ calc_cost model (fresh + cached) output 0 0
unfolding calc_cost
calc_cost-cached model k c o = elim (Option-cases (pricing model)) [
  | inl e ↦ rw (e, calc_cost) (omega arith)
  | inr (r, e) ↦
      let le = pricing_cheaper model r e in
      let diff : k + c - c - 0 ≡ k = omega arith in
      let whole : k + c - 0 - 0 ≡ k + c = omega arith in
      rw (e, calc_cost)
        (round_div_mono
          ((k + c - c - 0) * r.input + 0 * r.cache_write + c * r.cache_read + o * r.output)
          ((k + c - 0 - 0) * r.input + 0 * r.cache_write + 0 * r.cache_read + o * r.output)
          (rw (diff, whole) (omega (arith, numerator-le k c r.input r.cache_read le))))
]
