-- ===== src/Validators/Prices.antt =====
-- app/services/validators/prices.py: the prices that a text states against a source of truth.
pub mod Sums
pub mod Contradictions
mod Tests
use insyta_api.Prelude.{
  ℕ, zero, suc, ◌+◌, ◌*◌, ◌/◌, ◌%◌, Bool, true, false, not, ◌&&◌, ◌||◌, ◌==◌, leb, ltb, any, all,
  Option, none, some, List, [], ◌∷◌, ◌++◌, Text, txt, is_some, Unicode, if◌then◌else◌, drop,
}
use insyta_api.Prelude.Int.{ℤ, pos}
use insyta_api.Regex.{
  Re, one, seq, alt, many, opt, up_to, exactly, some_of, seqs, alts, find_iter, flat,
}
use insyta_api.Regex.Build.{digit, space, lit, one_of}
use insyta_api.Rubric.Scoring.{truthy}
use insyta_api.Validators.Amounts.{
  Floats, Json, boolean, integer, float, string, array, object, null, Values, no_values, value,
  Fields, no_fields, field, number_from, has, union, near,
}
use insyta_api.Validators.Quotes.{derivables}

-- What `_normalize` does: no number, a number, or the `ValueError` of `int` on a character that
-- `isdigit` accepts and that is no decimal digit.
pub data Reading : Type 0 where
  no_number : Reading
  amount : ℕ → Reading
  value_error : Reading

abbrev pub is_separator : ℕ → Bool
is_separator c = c == b'.' || c == b','

module _ (u : Unicode) (same : ℕ → ℕ → Bool) (other_digit : ℕ → Bool) where
  -- `_SYM`, `_MILES`, `_PELADA`
  unfoldable pub symbol_re : Re
  symbol_re =
      alts (lit same (txt "$"))
        (lit same (txt "ars") ∷ seq (lit same (txt "peso")) (opt (lit same (txt "s"))) ∷ [])

  unfoldable pub thousands_re : Re
  thousands_re =
      seq (seq (digit u) (up_to 2 (digit u)))
        (some_of (seq (one is_separator) (exactly 3 (digit u))))

  unfoldable pub bare_re : Re
  bare_re = some_of (digit u)

  -- `_MONEY_RE`: the mark before, the number, the mark after.
  unfoldable pub money_re : List Re
  unfolding symbol_re thousands_re bare_re
  money_re =
      opt (seq symbol_re (many (space u)))
      ∷ alt thousands_re bare_re
      ∷ opt (seq (many (space u)) symbol_re)
      ∷ []

  -- `re.sub(r"[.,]", "", num)`
  abbrev pub without_separators : Text → Text
  without_separators [] = []
  without_separators (c ∷ s) =
      if is_separator c then without_separators s else c ∷ without_separators s

  -- `_normalize`
  unfoldable pub normalize : Text → Reading
  unfolding number_from
  normalize num =
      let digits = without_separators num in
      if truthy digits && all (λ c. is_some (u.decimal c) || other_digit c) digits
      then if all (λ c. is_some (u.decimal c)) digits
        then amount (number_from u 0 digits)
        else value_error
      else no_number

  -- The price of one match, if it has a mark or a separator.
  unfoldable pub price_of : List Text → Option ℕ
  unfolding normalize
  price_of (before ∷ num ∷ behind ∷ []) = elim (normalize num) [
    | amount n ↦ if truthy before || truthy behind || any is_separator num then some n else none
    | _ ↦ none
  ]
  price_of _ = none

  abbrev pub prices_of : List (List Text) → List ℕ
  prices_of [] = []
  prices_of (m ∷ ms) = elim (price_of m) [ none ↦ prices_of ms | some n ↦ n ∷ prices_of ms ]

  -- `stated_prices`; what the expression finds is made of decimal digits, so `int` does not raise.
  unfoldable pub stated_prices : Text → List ℕ
  unfolding money_re price_of find_iter
  stated_prices text = prices_of (find_iter money_re text)

  -- Two sets together, where both come without an error.
  abbrev pub both : Option (List ℤ) → Option (List ℤ) → Option (List ℤ)
  both none ys = none
  both (some xs) none = none
  both (some xs) (some ys) = some (xs ++ ys)

  -- `flatten_prices`; `none` is a `ValueError`.
  module _ {F : Type 0} (o : Floats F) where
    unfoldable mutual
      unfolding normalize

      pub flatten_prices : Json F → Option (List ℤ)
      flatten_prices Json.null = some []
      flatten_prices (Json.boolean b) = some []
      flatten_prices (Json.integer n) = some (n ∷ [])
      flatten_prices (Json.float x) = some (o.rounded x ∷ [])
      flatten_prices (Json.string s) = elim (normalize s) [
        | no_number ↦ some []
        | amount n ↦ some (pos n ∷ [])
        | value_error ↦ none
      ]
      flatten_prices (Json.array vs) = flatten_values vs
      flatten_prices (Json.object fs) = flatten_fields fs

      pub flatten_values : Values F → Option (List ℤ)
      flatten_values Values.no_values = some []
      flatten_values (Values.value v vs) = both (flatten_prices v) (flatten_values vs)

      pub flatten_fields : Fields F → Option (List ℤ)
      flatten_fields Fields.no_fields = some []
      flatten_fields (Fields.field k v fs) = both (flatten_prices v) (flatten_fields fs)

-- `nuevos`
abbrev pub new_sums : ℕ → List ℕ → List ℕ → List ℕ
new_sums monto validos alcanzables =
    flat (λ a. flat (λ p. if leb (a + p) monto then (a + p) ∷ [] else []) validos) alcanzables

-- The rounds of the search for a sum.
unfoldable pub reached : ℕ → ℕ → List ℕ → List ℕ → Bool
unfolding union
reached zero monto validos alcanzables = has monto alcanzables
reached (suc rounds) monto validos alcanzables =
    let nuevos = new_sums monto validos alcanzables in
    let todos = union alcanzables nuevos in
    let rest = reached rounds monto validos todos in
    if all (λ n. has n alcanzables) nuevos
    then has monto alcanzables
    else if has monto todos
    then true
    else rest

-- `p > 0 and monto % p == 0 and 2 <= monto // p <= _MAX_UNIDADES`
abbrev pub is_multiple : ℕ → ℕ → Bool
is_multiple monto p = ltb 0 p && (monto % p == 0 && (leb 2 (monto / p) && leb (monto / p) 100))

-- `_derivable`, with `_MAX_SUMANDOS`.
unfoldable pub derivable : ℕ → List ℕ → Bool
unfolding reached
derivable monto validos =
    truthy validos && (any (is_multiple monto) validos || reached 10 monto validos (0 ∷ []))

-- `PriceCheck`
pub record PriceCheck : Type 0 where
  pub contradicciones : List ℕ
  pub ok : Bool

abbrev pub keep_nums : (ℕ → Bool) → List ℕ → List ℕ
keep_nums p [] = []
keep_nums p (n ∷ ns) = if p n then n ∷ keep_nums p ns else keep_nums p ns

abbrev pub max_nat : ℕ → ℕ → ℕ
max_nat a b = if ltb a b then b else a

-- A stated price that the loop of `check_prices` lets pass.
abbrev pub is_explained : ℕ → List ℤ → List ℤ → List ℕ → ℕ → Bool
is_explained tolerance allowed cotizables en_catalogo p =
    any (near tolerance p) allowed
    || (any (near (max_nat tolerance 1) p) cotizables || derivable p en_catalogo)

-- The check once the set of allowed prices is known.
unfoldable pub check_against : ℕ → List ℤ → List ℤ → List ℕ → PriceCheck
unfolding derivable near
check_against tolerance allowed cotizables afirmados =
    let en_catalogo = keep_nums (λ p. any (near tolerance p) allowed) afirmados in
    let bad =
      keep_nums (λ p. not (is_explained tolerance allowed cotizables en_catalogo p)) afirmados in
    record { contradicciones = bad; ok = not (truthy bad) }

-- `check_prices`; `none` is a `ValueError`.
unfoldable pub check_prices :
    Unicode
    → (ℕ → ℕ → Bool)
    → (ℕ → Bool)
    → {F : Type 0} → Floats F
    → ℕ
    → Text
    → Json F
    → Option PriceCheck
unfolding flatten_prices check_against stated_prices derivables
check_prices u same other_digit o tolerance bot_text precios =
    elim (flatten_prices u same other_digit o precios) [
      | none ↦ none
      | some allowed ↦
          if not (truthy allowed)
          then some (record { contradicciones = []; ok = true })
          else some (
              check_against tolerance allowed (derivables o u same bot_text precios).derivables
                (stated_prices u same other_digit bot_text))
    ]
