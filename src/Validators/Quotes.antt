-- ===== src/Validators/Quotes.antt =====
-- app/services/validators/quotes.py: the amounts that a tariff gives for the surfaces of a text.
use insyta_api.Prelude.{
  ℕ, ◌+◌, ◌*◌, Bool, true, false, not, ◌&&◌, ◌||◌, ◌==◌, leb, ltb, Option, none, some, List, [],
  ◌∷◌, ◌++◌, map, Text, txt, starts_with, length, Unicode, if◌then◌else◌, round_div,
}
use insyta_api.Prelude.Int.{ℤ, pos}
use insyta_api.Regex.{Re, one, seq, alt, many, opt, up_to, some_of, seqs, find_iter, flat}
use insyta_api.Regex.Build.{digit, space, word_edge, lit, one_of}
use insyta_api.Validators.Amounts.{
  Floats, Json, Fields, no_fields, get, values, number_of, number_from,
}

-- `sorted(set(xs))` of natural numbers.
unfoldable pub insert_num : ℕ → List ℕ → List ℕ
insert_num n [] = n ∷ []
insert_num n (m ∷ ms) =
    let later = insert_num n ms in
    if ltb n m then n ∷ m ∷ ms else if n == m then m ∷ ms else m ∷ later

unfoldable pub sorted_nums : List ℕ → List ℕ
unfolding insert_num
sorted_nums [] = []
sorted_nums (n ∷ ns) = insert_num n (sorted_nums ns)

module _ (u : Unicode) (same : ℕ → ℕ → Bool) where
  -- `_SUPERFICIE_RE`: the whole meters of the group, its fraction, and the unit.
  unfoldable pub surface_re : List Re
  surface_re =
      let d = digit u in
      let ws = many (space u) in
      let ws1 = some_of (space u) in
      let square = seqs (lit same (txt "m") ∷ ws ∷ one_of same (txt "²2") ∷ word_edge u ∷ []) in
      let meters = seqs (
        lit same (txt "metro")
        ∷ opt (lit same (txt "s"))
        ∷ ws1
        ∷ lit same (txt "cuadrado")
        ∷ opt (lit same (txt "s"))
        ∷ []) in
      seq d (up_to 4 d)
      ∷ opt (seqs (one (λ c. c == b'.' || c == b',') ∷ d ∷ up_to 1 d ∷ []))
      ∷ seq ws (alt square meters)
      ∷ []

  -- The fraction in hundredths.
  unfoldable pub hundredths : Text → ℕ
  unfolding number_from
  hundredths [] = 0
  hundredths (mark ∷ ds) = if length ds == 1 then 10 * number_from u 0 ds else number_from u 0 ds

  -- `round(float(crudo))`
  unfoldable pub surface_of : List Text → Option ℕ
  unfolding hundredths
  surface_of (whole ∷ fraction ∷ unit ∷ []) =
      some (round_div (100 * number_from u 0 whole + hundredths fraction) 100)
  surface_of _ = none

  abbrev pub surfaces_of : List (List Text) → List ℕ
  surfaces_of [] = []
  surfaces_of (m ∷ ms) = elim (surface_of m) [
    | none ↦ surfaces_of ms
    | some v ↦ if ltb 0 v && leb v 100000 then v ∷ surfaces_of ms else surfaces_of ms
  ]

  -- `superficies_mencionadas`
  unfoldable pub superficies_mencionadas : Text → List ℕ
  unfolding surface_re surface_of find_iter sorted_nums
  superficies_mencionadas text = sorted_nums (surfaces_of (find_iter surface_re text))

-- `QuoteCheck`
pub record QuoteCheck : Type 0 where
  pub derivables : List ℤ
  pub superficies : List ℕ
  pub combinaciones : ℕ

module _ {F : Type 0} (o : Floats F) where
  -- `sorted(set(xs))` of floats
  unfoldable pub insert_float : F → List F → List F
  insert_float x [] = x ∷ []
  insert_float x (y ∷ ys) =
      let later = insert_float x ys in
      if o.less x y then x ∷ y ∷ ys else if o.less y x then y ∷ later else y ∷ ys

  unfoldable pub sorted_floats : List F → List F
  unfolding insert_float
  sorted_floats [] = []
  sorted_floats (x ∷ xs) = insert_float x (sorted_floats xs)

  abbrev pub int : ℕ → F
  int n = o.of_int (pos n)

  -- `_tarifas`
  unfoldable pub tarifas : Json F → Fields F
  unfolding get
  tarifas (Json.object fs) = elim (get (txt "servicios") fs) [
    | some (Json.object s) ↦ s
    | _ ↦ no_fields
  ]
  tarifas _ = no_fields

  -- The frequencies within bounds.
  abbrev pub factors : List (Json F) → List F
  factors [] = []
  factors (v ∷ vs) = elim (number_of o v) [
    | none ↦ factors vs
    | some x ↦ if o.less (int 0) x && not (o.less (int 2) x) then x ∷ factors vs else factors vs
  ]

  -- `_frecuencias`
  unfoldable pub frecuencias : Json F → List F
  unfolding get sorted_floats
  frecuencias (Json.object fs) = elim (get (txt "frecuencia") fs) [
    | some (Json.object s) ↦ sorted_floats (int 1 ∷ factors (values s))
    | _ ↦ int 1 ∷ []
  ]
  frecuencias _ = int 1 ∷ []

  -- The declared surcharges, as factors.
  unfoldable pub surcharges : Fields F → List F
  surcharges Fields.no_fields = []
  surcharges (Fields.field k v fs) =
      let rest = surcharges fs in
      if starts_with (txt "recargo_") k
      then elim (number_of o v) [
        | none ↦ rest
        | some x ↦
            if not (o.less x (int 0)) && not (o.less (int 5) x)
            then o.add (int 1) x ∷ rest
            else rest
      ]
      else rest

  -- `_recargos`
  unfoldable pub recargos : Fields F → List F
  unfolding surcharges sorted_floats
  recargos servicio = sorted_floats (int 1 ∷ surcharges servicio)

  abbrev pub numbers : List (Json F) → List F
  numbers [] = []
  numbers (v ∷ vs) = elim (number_of o v) [ none ↦ numbers vs | some x ↦ x ∷ numbers vs ]

  -- `max(a, b)`
  abbrev pub max_float : F → F → F
  max_float a b = if o.less a b then b else a

  -- The two readings of one combination.
  unfoldable pub amounts : F → F → F → F → ℕ → List ℤ
  amounts minimo tarifa recargo frec sup =
      let bruto = o.mul (o.mul tarifa (int sup)) recargo in
      o.rounded (o.mul (max_float bruto minimo) frec)
      ∷ o.rounded (max_float (o.mul bruto frec) minimo)
      ∷ []

  -- All combinations, in the order of `itertools.product`.
  unfoldable pub combinations : F → List F → List F → List F → List ℕ → List (List ℤ)
  unfolding amounts
  combinations minimo tarifas recargos frecs sups =
      flat (λ t. flat (λ r. flat (λ f. map (λ s. amounts minimo t r f s) sups) frecs) recargos)
        tarifas

  -- `minimo`
  unfoldable pub minimum_of : Fields F → F
  unfolding get
  minimum_of servicio = elim (get (txt "minimo") servicio) [
    | none ↦ int 0
    | some v ↦ elim (number_of o v) [ none ↦ int 0 | some x ↦ x ]
  ]

  -- One turn of the loop over the services.
  unfoldable pub service_amounts : List F → List ℕ → Json F → List (List ℤ)
  unfolding combinations minimum_of recargos get
  service_amounts frecs sups (Json.object servicio) = elim (get (txt "precio_m2") servicio) [
    | some (Json.object por_m2) ↦
        combinations (minimum_of servicio) (numbers (values por_m2)) (recargos servicio) frecs sups
    | _ ↦ []
  ]
  service_amounts frecs sups _ = []

  abbrev no_services : Fields F → Bool
  no_services Fields.no_fields = true
  no_services _ = false

  abbrev all_of : List (List ℤ) → List ℤ
  all_of [] = []
  all_of (x ∷ xs) = x ++ all_of xs

  -- `derivables`; the amounts are a set, here in the order of the loop.
  unfoldable pub derivables : Unicode → (ℕ → ℕ → Bool) → Text → Json F → QuoteCheck
  unfolding tarifas frecuencias superficies_mencionadas service_amounts
  derivables u same text precios =
      let t = tarifas precios in
      let sups = superficies_mencionadas u same text in
      if no_services t || not (ltb 0 (length sups))
      then record { derivables = []; superficies = sups; combinaciones = 0 }
      else (let found = flat (service_amounts (frecuencias precios) sups) (values t) in
          record { derivables = all_of found; superficies = sups; combinaciones = length found })
