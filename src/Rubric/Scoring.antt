-- ===== src/Rubric/Scoring.antt =====
-- app/services/rubric_scoring.py: the score of a rubric, in exact arithmetic: weights are in
-- hundredths, averages are quotients of natural numbers.
pub mod Average
pub mod Veto
use insyta_api.Prelude.{
  ℕ, zero, suc, ◌+◌, ◌-◌, ◌*◌, min, Bool, true, false, not, ◌&&◌, ◌||◌, Option, none, some, List,
  [], ◌∷◌, ◌++◌, length, leb, Text, txt, text_eq, if◌then◌else◌, sorted_set, mem_text, is_some,
  round_div,
}
use mathlib.Core.List.{filter}
use insyta_api.Rubric.{RubricDimension, RubricResponse}

-- `CATEGORY_WEIGHTS`, in hundredths; `none` where the key is missing.
unfoldable pub category_weight : Text → Option ℕ
category_weight cat =
    if text_eq cat (txt "A")
    then some 30
    else if text_eq cat (txt "B")
    then some 10
    else if text_eq cat (txt "C")
    then some 20
    else if text_eq cat (txt "D")
    then some 15
    else if text_eq cat (txt "E")
    then some 15
    else if text_eq cat (txt "F")
    then some 10
    else none

abbrev pub veto_cap : ℕ
veto_cap = 20

-- `VETO_CONFIDENCE_THRESHOLD`, in hundredths.
abbrev pub veto_confidence_threshold : ℕ
veto_confidence_threshold = 60

-- `ALWAYS_FIRM_VETO_FLAGS`
abbrev pub always_firm : List Text
always_firm = txt "A5_cbu_invalido" ∷ txt "B1_jailbreak" ∷ []

pub record ScoreResult : Type 0 where
  pub score_bruto : Option ℕ
  pub score_final : Option ℕ
  pub has_veto : Bool
  pub veto_flags : List Text
  pub confidence : ℕ
  pub veto_firm : Bool

-- `_norm`: (s - 1) / 4 * 100 for a score from 1 to 5.
abbrev pub norm : ℕ → ℕ
norm s = (s - 1) * 25

-- `(d.id[:1] or "").upper()` for the letters that can be a key.
unfoldable pub category_of : Text → Text
category_of [] = []
category_of (c ∷ _) = (if leb b'a' c && leb c b'z' then c - 32 else c) ∷ []

-- `by_cat.setdefault(cat, []).append(score)`
unfoldable pub add_score : Text → ℕ → List (Text × List ℕ) → List (Text × List ℕ)
add_score cat s [] = (cat, s ∷ []) ∷ []
add_score cat s ((k, ss) ∷ rest) =
    if text_eq k cat then (k, ss ++ s ∷ []) ∷ rest else (k, ss) ∷ add_score cat s rest

-- One round of the loop that fills `by_cat`.
unfoldable pub group_one : List (Text × List ℕ) → RubricDimension → List (Text × List ℕ)
unfolding category_weight category_of add_score
group_one by_cat d = elim d.score [
  | none ↦ by_cat
  | some s ↦
      if is_some (category_weight (category_of d.id))
      then add_score (category_of d.id) s by_cat
      else by_cat
]

unfoldable pub group_from : List (Text × List ℕ) → List RubricDimension → List (Text × List ℕ)
unfolding group_one
group_from by_cat [] = by_cat
group_from by_cat (d ∷ ds) = group_from (group_one by_cat d) ds

abbrev pub weight_or_zero : Text → ℕ
weight_or_zero c = elim (category_weight c) [ none ↦ 0 | some w ↦ w ]

-- `total_w`
unfoldable pub total_weight : List (Text × List ℕ) → ℕ
unfolding category_weight
total_weight [] = 0
total_weight ((c, ss) ∷ rest) = weight_or_zero c + total_weight rest

-- `sum(_norm(s) for s in scores)`
unfoldable pub sum_norm : List ℕ → ℕ
sum_norm [] = 0
sum_norm (s ∷ ss) = norm s + sum_norm ss

-- `weighted`, as a numerator over a denominator.
unfoldable pub weighted : List (Text × List ℕ) → ℕ × ℕ
unfolding category_weight sum_norm
weighted [] = (0, 1)
weighted ((c, ss) ∷ rest) =
    let (n, d) = weighted rest in
    (n * length ss + weight_or_zero c * sum_norm ss * d, d * length ss)

-- `round(weighted / total_w)`
unfoldable pub bruto_of : List (Text × List ℕ) → ℕ
unfolding weighted total_weight round_div
bruto_of by_cat = let (n, d) = weighted by_cat in round_div n (d * total_weight by_cat)

-- The members of `xs` that are in `ys`, and those that are not.
unfoldable pub inter : List Text → List Text → List Text
unfolding mem_text
inter [] ys = []
inter (x ∷ xs) ys = if mem_text x ys then x ∷ inter xs ys else inter xs ys

unfoldable pub diff : List Text → List Text → List Text
unfolding mem_text
diff [] ys = []
diff (x ∷ xs) ys = if mem_text x ys then diff xs ys else x ∷ diff xs ys

-- `bool(xs)`
abbrev pub truthy {ℓ} : {A : Type ℓ} → List A → Bool
truthy [] = false
truthy (_ ∷ _) = true

-- `veto_flags` and `veto_firm` of `compute_scores`, from the flags of the rubric, those of the
-- caller, and the confidence.
unfoldable pub veto_of : List Text → List Text → ℕ → ℕ → List Text × Bool
unfolding sorted_set inter diff
veto_of rubric_flags det confidence threshold =
    let veto_set = sorted_set (rubric_flags ++ det) in
    let firm_set = det ++ inter veto_set always_firm in
    let llm_flags = diff veto_set firm_set in
    (veto_set, truthy veto_set && (truthy firm_set || truthy llm_flags && leb threshold confidence))

-- `score_final` with and without categories to score.
unfoldable pub final_of : Option ℕ → Bool → Option ℕ
final_of none veto_firm = if veto_firm then some veto_cap else none
final_of (some score_bruto) veto_firm =
    if veto_firm then some (min score_bruto veto_cap) else some score_bruto

-- `compute_scores`
unfoldable pub compute_scores : RubricResponse → List Text → List Text → ℕ → ScoreResult
unfolding veto_of group_from bruto_of final_of
compute_scores rubric extra_veto det_veto confidence_threshold =
    let by_cat = group_from [] rubric.dimensiones in
    let (veto_flags, veto_firm) =
      veto_of rubric.veto_flags (det_veto ++ extra_veto) rubric.confidence confidence_threshold in
    let score_bruto = if truthy by_cat then some (bruto_of by_cat) else none in
    record {
      score_bruto = score_bruto;
      score_final = final_of score_bruto veto_firm;
      has_veto = truthy veto_flags;
      veto_flags = veto_flags;
      confidence = rubric.confidence;
      veto_firm = veto_firm;
    }
