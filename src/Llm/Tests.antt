-- ===== src/Llm/Tests.antt =====
-- A call priced at a concrete usage.
use insyta_api.Prelude.{◌≡◌, refl, txt}
use insyta_api.Llm.{calc_cost}

a_call : calc_cost (txt "claude-haiku-4-5-20251001") 10000 400 9000 0 ≡ 3900
unfolding calc_cost
a_call = refl
