-- ===== src/Audit/Context.antt =====
-- The context that app/workers/audit.py gives to the evaluation and to the judge.
use insyta_api.Prelude.{
  Option, none, some, List, [], ◌∷◌, ◌++◌, Text, txt, text_eq, take, if◌then◌else◌, sorted_set,
}
use insyta_api.Judge.{join, or_else}
use insyta_api.Validators.Amounts.{Json, Fields, get}

-- `OBJECTIVE_LABELS`
abbrev pub objective_labels : List (Text × Text)
objective_labels =
    (
      txt "leads",
      txt "Recaudar datos / generar leads (pedir y captar nombre, contacto, email/teléfono)",
    )
    ∷ (txt "ventas", txt "Vender / cerrar la conversión (avanzar la compra)")
    ∷ (txt "awareness", txt "Que conozcan la marca / reconocimiento")
    ∷ (txt "soporte", txt "Resolver soporte / atención al cliente")
    ∷ (txt "agendar", txt "Agendar / reservar (turno, demo, llamada)")
    ∷ (
      txt "todos",
      txt
          "Evaluá la conversación contra TODOS los objetivos posibles (recaudar datos/leads, vender, reconocimiento de marca, soporte y agendar). El score debe reflejar el desempeño GENERAL across objetivos; en el summary mencioná en cuáles cumplió y en cuáles no.",
    )
    ∷ []

unfoldable pub label_in : List (Text × Text) → Text → Option Text
unfolding text_eq
label_in [] t = none
label_in ((k, v) ∷ rest) t = if text_eq k t then some v else label_in rest t

-- `objective_label`
unfoldable pub objective_label : Option Text → Option Text
unfolding label_in or_else
objective_label objective = elim (label_in objective_labels (or_else objective [])) [
  | none ↦ objective
  | some label ↦ some label
]

-- A text that is there and not empty, with a label.
unfoldable pub labelled : Text → Option Text → List Text
labelled label none = []
labelled label (some []) = []
labelled label (some (c ∷ t)) = (label ++ (c ∷ t)) ∷ []

-- `"\n\n".join(parts) or None`
unfoldable pub paragraphs : List Text → Option Text
unfolding join
paragraphs [] = none
paragraphs (t ∷ ts) = some (join (10 ∷ 10 ∷ []) (t ∷ ts))

abbrev pub truth_heading : Text
truth_heading =
    txt
      "FUENTE DE VERDAD (datos autoritativos del negocio — verificá precios, stock, plazos y datos contra esto; NO marques como alucinación lo que coincide con estos datos; solo marcá alucinación si el bot afirma algo que CONTRADICE o que NO está respaldado por esta fuente ni por el flujo):"

module _ {F : Type 0} where
  abbrev pub keys : Fields F → List Text
  keys Fields.no_fields = []
  keys (Fields.field k v fs) = k ∷ keys fs

  -- The parts of the source of truth, by their keys; `dumps` is `json.dumps` as it is called.
  unfoldable pub truth_parts : (Json F → Text) → Fields F → List Text → List Text
  unfolding get
  truth_parts dumps attached [] = []
  truth_parts dumps attached (k ∷ ks) =
      let rest = truth_parts dumps attached ks in
      elim (get k attached) [
        | none ↦ rest
        | some v ↦ (txt "[" ++ (k ++ (txt "]" ++ (10 ∷ take 4000 (dumps v))))) ∷ rest
      ]

  -- `_format_source_of_truth`
  unfoldable pub format_source_of_truth : (Json F → Text) → Option (Fields F) → Option Text
  unfolding truth_parts join sorted_set
  format_source_of_truth dumps none = none
  format_source_of_truth dumps (some Fields.no_fields) = none
  format_source_of_truth dumps (some attached) = some (
      truth_heading
      ++ (10 ∷ join (10 ∷ 10 ∷ []) (truth_parts dumps attached (sorted_set (keys attached)))))

-- The texts that the audit hands on.
pub record Setting : Type 0 where
  pub objective : Option Text
  pub company_context : Option Text
  pub source_of_truth : Option Text
  pub flow_summary : Option Text

-- `eval_context`
unfoldable pub eval_context : Setting → Option Text
unfolding labelled paragraphs
eval_context s = paragraphs (
    labelled (txt "OBJETIVO DE LA CAMPAÑA: ") s.objective
    ++ (labelled (txt "DATOS DE LA EMPRESA:" ++ (10 ∷ [])) s.company_context
        ++ (labelled [] s.source_of_truth
            ++ labelled (txt "FLUJO ESPERADO (lo que el agente debería hacer):" ++ (10 ∷ []))
                s.flow_summary)))

-- `conv_context`
unfoldable pub conv_context : Option Text → Option Text → Option Text
unfolding labelled paragraphs
conv_context context user_hist = paragraphs (labelled [] context ++ labelled [] user_hist)

-- `flow_context`
unfoldable pub flow_context : Setting → Option Text → Text
unfolding labelled join
flow_context s user_hist = join (10 ∷ 10 ∷ []) (
    labelled (txt "Empresa: ") s.company_context
    ++ (labelled [] s.source_of_truth
        ++ (labelled [] user_hist ++ labelled (txt "Flujo esperado:" ++ (10 ∷ [])) s.flow_summary)))
