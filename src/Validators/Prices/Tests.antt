-- ===== src/Validators/Prices/Tests.antt =====
-- A cart of the catalogue, an invented price, and an order number that is no price.
use insyta_api.Prelude.{ℕ, ◌≡◌, refl, true, false, some, [], ◌∷◌, Text, txt, ascii, ◌↔◌, Bool, ◌*◌}
use insyta_api.Prelude.Int.{ℤ, pos, ◌+ℤ◌, ltb_ℤ, pos_part}
use insyta_api.Regex.Build.{ascii_same}
use insyta_api.Validators.Amounts.{Floats, Json, integer, object, no_fields, field}
use insyta_api.Validators.Quotes.{derivables}
use insyta_api.Validators.Prices.{stated_prices, flatten_prices, check_prices, PriceCheck}
use insyta_api.Validators.Prices.Contradictions.{Reports, check_prices-Reports}

-- Integers in place of the floats.
abbrev whole : Floats ℤ
whole = record {
  of_int = λ n. n;
  add = λ a b. a +ℤ b;
  mul = λ a b. pos (pos_part a * pos_part b);
  less = ltb_ℤ;
  rounded = λ n. n;
}

abbrev catalogue : Json ℤ
catalogue = object (field (txt "jabon") (integer (pos 15700)) no_fields)

abbrev no_other : ℕ → Bool
no_other c = false

abbrev cart : Text
cart = txt "3 x $15.700, total $47.100, o $ 99 ars, pedido DO2260"

cart_prices : stated_prices ascii ascii_same no_other cart ≡ 15700 ∷ 47100 ∷ 99 ∷ []
unfolding stated_prices
cart_prices = refl

cart_check :
    check_prices ascii ascii_same no_other whole 0 cart catalogue
    ≡ some (record { contradicciones = 99 ∷ []; ok = false })
unfolding check_prices
cart_check = refl

check_prices-Reports_example :
    (r : PriceCheck) × (check_prices ascii ascii_same no_other whole 0 cart catalogue ≡ some r)
    × Reports 0
        (pos 15700 ∷ [])
        (derivables whole ascii ascii_same cart catalogue).derivables
        (stated_prices ascii ascii_same no_other cart)
        r.contradicciones
    × ((r.ok ≡ true) ↔ (r.contradicciones ≡ []))
check_prices-Reports_example =
    check_prices-Reports ascii ascii_same no_other whole 0 cart catalogue (pos 15700 ∷ [])
      (unfold flatten_prices in refl) refl
