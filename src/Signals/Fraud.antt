-- ===== src/Signals/Fraud.antt =====
-- app/services/fraud.py: the flags of fraud of the messages of a user, and coordinated scripts.
pub mod Signs
pub mod Flagged
use insyta_api.Prelude.{
  ℕ, zero, suc, Bool, true, false, ◌&&◌, ◌||◌, leb, ltb, Option, none, some, List, [], ◌∷◌, ◌++◌,
  map, Text, txt, text_eq, length, mem_text, Unicode, if◌then◌else◌, sorted_set, lower_text, strip,
}
use insyta_api.Prelude.Int.{ℤ, pos}
use insyta_api.Regex.{search_re, some_of, sub_re}
use insyta_api.Regex.Build.{space}
use insyta_api.Rubric.Scoring.{truthy}
use insyta_api.Validators.Cbu.{find_cbus, validate_cbu}
use insyta_api.Validators.Amounts.{Floats, Json, Values, Fields}
use insyta_api.Validators.Prices.{stated_prices, check_prices}
use insyta_api.Signals.{Turn, turns}
use insyta_api.Signals.Phrases.{off_channel_re, price_pressure_re, third_party_re}

-- `FraudFlag`
pub record FraudFlag : Type 0 where
  pub signal : Text
  pub turn_id : ℤ
  pub severity : Text
  pub detail : Text

-- How many of the texts are invalid CBUs; `none` would be an exception of `validate_cbu`.
unfoldable pub invalid_cbus : Unicode → List Text → Option ℕ
unfolding validate_cbu
invalid_cbus u [] = some 0
invalid_cbus u (c ∷ cs) = elim (validate_cbu u c) [
  | none ↦ none
  | some ok ↦ elim (invalid_cbus u cs) [ none ↦ none | some n ↦ some (if ok then n else suc n) ]
]

abbrev pub copies : ℕ → ℤ → List ℤ
copies zero t = []
copies (suc n) t = t ∷ copies n t

-- The flag of the invalid CBUs, by the messages they are in.
unfoldable pub cbu_flag : (ℕ → Text) → List ℤ → List FraudFlag
cbu_flag show [] = []
cbu_flag show (t ∷ ts) =
    let many_of = truthy ts in
    record {
      signal = if many_of then txt "cbu_invalido_repetido" else txt "cbu_invalido";
      turn_id = t;
      severity = if many_of then txt "critica" else txt "alta";
      detail = txt "CBU inválido enviado por el usuario x" ++ show (length (t ∷ ts));
    }
    ∷ []

module _ {F : Type 0} (o : Floats F) where
  -- `bool(precios)`
  abbrev pub truthy_json : Json F → Bool
  truthy_json Json.null = false
  truthy_json (Json.boolean b) = b
  truthy_json (Json.integer (pos n)) = ltb 0 n
  truthy_json (Json.integer _) = true
  truthy_json (Json.float x) = o.less x (o.of_int (pos 0)) || o.less (o.of_int (pos 0)) x
  truthy_json (Json.string s) = truthy s
  truthy_json (Json.array Values.no_values) = false
  truthy_json (Json.array _) = true
  truthy_json (Json.object Fields.no_fields) = false
  truthy_json (Json.object _) = true

module _ (u : Unicode) (same : ℕ → ℕ → Bool) (other_digit : ℕ → Bool) {F : Type 0} (o : Floats F)
    (precios : Json F) where
  abbrev flag : Bool → FraudFlag → List FraudFlag
  flag b f = if b then f ∷ [] else []

  -- The severity and detail of the pressure on prices; `none` is a `ValueError` of `check_prices`.
  unfoldable pub pressure : ℤ → Text → Option FraudFlag
  unfolding check_prices stated_prices
  pressure turn text =
      let mild : FraudFlag = record {
        signal = txt "presion_precio";
        turn_id = turn;
        severity = txt "media";
        detail = txt "Presiona por un precio/descuento no confirmado";
      } in
      let strong : FraudFlag = record {
        signal = txt "presion_precio";
        turn_id = turn;
        severity = txt "alta";
        detail = txt "Reclama un precio que no coincide con la lista oficial";
      } in
      if truthy_json o precios && truthy (stated_prices u same other_digit text)
      then elim (check_prices u same other_digit o 0 text precios) [
        | none ↦ none
        | some r ↦ some (if r.ok then mild else strong)
      ]
      else some mild

  -- The flags of one message, after the search for CBUs.
  unfoldable pub message_flags : ℤ → Text → Option (List FraudFlag)
  unfolding pressure off_channel_re price_pressure_re third_party_re search_re
  message_flags turn text =
      let off = flag (search_re (off_channel_re u same) text) (record {
        signal = txt "pago_fuera_canal";
        turn_id = turn;
        severity = txt "alta";
        detail = txt "Insiste en pago por fuera del canal oficial";
      }) in
      let third = flag (search_re (third_party_re u same) text) (record {
        signal = txt "suplantacion";
        turn_id = turn;
        severity = txt "media";
        detail = txt "Pide/usa datos de terceros";
      }) in
      if search_re (price_pressure_re u same) text
      then elim (pressure turn text) [ none ↦ none | some f ↦ some (off ++ f ∷ third) ]
      else some (off ++ third)

  -- The loop: the flags, and the message of each invalid CBU.
  unfoldable pub scan_users : List (ℤ × Text) → Option (List FraudFlag × List ℤ)
  unfolding message_flags invalid_cbus find_cbus
  scan_users [] = some ([], [])
  scan_users ((turn, text) ∷ ms) = elim (invalid_cbus u (find_cbus u text)) [
    | none ↦ none
    | some n ↦ elim (message_flags turn text) [
      | none ↦ none
      | some fs ↦ elim (scan_users ms) [
        | none ↦ none
        | some (gs, ts) ↦ some (fs ++ gs, copies n turn ++ ts)
      ]
    ]
  ]

  -- `detect_fraud`; `show` is the number in the last detail.
  unfoldable pub detect_fraud : (ℕ → Text) → List Turn → Option (List FraudFlag)
  unfolding scan_users turns cbu_flag
  detect_fraud show ms = elim (scan_users (turns (txt "user") ms)) [
    | none ↦ none
    | some (fs, ts) ↦ some (fs ++ cbu_flag show ts)
  ]

-- `fraud_flag_names`
unfoldable pub fraud_flag_names : List FraudFlag → List Text
unfolding sorted_set
fraud_flag_names flags = sorted_set (map (λ (f : FraudFlag). f.signal) flags)

-- The users seen with each text, in the order of the texts.
abbrev pub Seen : Type 0
Seen = List (Text × List Text)

unfoldable pub see : Text → Text → Seen → Seen
unfolding text_eq mem_text
see norm user [] = (norm, user ∷ []) ∷ []
see norm user ((t, users) ∷ rest) =
    let later = see norm user rest in
    if text_eq t norm
    then (t, if mem_text user users then users else users ++ user ∷ []) ∷ rest
    else (t, users) ∷ later

-- `norm`
unfoldable pub normal : Unicode → Option Text → Text
unfolding sub_re lower_text strip
normal u t =
    sub_re (some_of (space u) ∷ []) (λ m. txt " ")
      (lower_text u (strip u (elim t [ none ↦ [] | some s ↦ s ])))

unfoldable pub see_texts : Unicode → Text → List (Option Text) → Seen → Seen
unfolding see normal
see_texts u user [] seen = seen
see_texts u user (t ∷ ts) seen =
    let norm = normal u t in
    see_texts u user ts (if ltb (length norm) 12 then seen else see norm user seen)

unfoldable pub see_users : Unicode → List (Text × List (Option Text)) → Seen → Seen
unfolding see_texts
see_users u [] seen = seen
see_users u ((user, ts) ∷ rest) seen = see_users u rest (see_texts u user ts seen)

abbrev pub shared_by : ℕ → Seen → List Text
shared_by n [] = []
shared_by n ((t, users) ∷ rest) =
    if leb n (length users) then t ∷ shared_by n rest else shared_by n rest

-- `detect_script_pattern`
unfoldable pub detect_script_pattern : Unicode → ℕ → List (Text × List (Option Text)) → List Text
unfolding see_users
detect_script_pattern u min_users texts = shared_by min_users (see_users u texts [])
