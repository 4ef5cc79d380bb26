-- ===== src/Spc.antt =====
-- app/services/spc.py: control charts for an agent's scores, with the Western Electric rules.
-- The rules only compare scores, so scores are any type with the order test `lt` of Python floats.
pub mod Loop
pub mod SameSide
pub mod Trending
pub mod Rules
mod Tests
use insyta_api.Prelude.{
  ℕ, zero, suc, ◌+◌, Bool, true, false, not, Option, none, some, List, [], ◌∷◌, ◌++◌, leb, ◌==◌,
  if◌then◌else◌, any, length, take,
}

pub data Rule : Type 0 where
  beyond_3sigma same_side_8 trend_6 : Rule

pub data Direction : Type 0 where
  alto bajo : Direction

pub record SpcViolation : Type 0 where
  pub rule : Rule
  pub index : ℕ
  pub direction : Direction

abbrev pub trend_len : ℕ
trend_len = 6

abbrev pub same_side_len : ℕ
same_side_len = 8

pub record Baseline (F : Type 0) : Type 0 where
  pub mean : F
  pub std : F
  pub ucl : F
  pub lcl : F
  pub n : ℕ

-- Where a point stands to the mean: the code's +1, -1 and 0.
pub data Side : Type 0 where
  above below level : Side

pub data Trend : Type 0 where
  degradacion mejora estable : Trend

module _ {F : Type 0} where
  -- `[float(v) for v in values if v is not None]`
  unfoldable pub present : List (Option F) → List F
  present [] = []
  present (none ∷ vs) = present vs
  present (some v ∷ vs) = v ∷ present vs

  -- `for i, v in enumerate(pts)` over the variables `S`, with what it appends to `out`.
  unfoldable pub loop {ℓ} :
      {S : Type ℓ}
      → (S → F → S)
      → (S → ℕ → F → List SpcViolation)
      → S
      → ℕ
      → List F
      → List SpcViolation
  loop next emit s i [] = []
  loop next emit s i (v ∷ vs) = emit s i v ++ loop next emit (next s v) (suc i) vs

-- `cur != 0 and cur == side`
abbrev pub continues : Side → Side → Bool
continues above above = true
continues below below = true
continues _ _ = false

-- `"alto" if side > 0 else "bajo"`
abbrev pub side_direction : Side → Direction
side_direction above = alto
side_direction below = bajo
side_direction level = bajo

module _ {F : Type 0} (lt : F → F → Bool) where
  -- Rule 1: one point outside three sigma.
  abbrev pub emit1 : Baseline F → Unit {0} → ℕ → F → List SpcViolation
  emit1 b s i v =
      if lt b.ucl v
      then record { rule = beyond_3sigma; index = i; direction = alto } ∷ []
      else if lt v b.lcl
      then record { rule = beyond_3sigma; index = i; direction = bajo } ∷ []
      else []

  -- `cur`
  abbrev pub side_of : F → F → Side
  side_of mean v = if lt mean v then above else if lt v mean then below else level

  -- The variables `side` and `run_side`.
  abbrev pub next2 : Baseline F → Side × ℕ → F → Side × ℕ
  next2 b (side, run_side) v =
      let cur = side_of b.mean v in
      if continues cur side then (side, run_side + 1) else (cur, elim cur [ level ↦ 0 | _ ↦ 1 ])

  -- Rule 2: eight points in a row on one side of the mean, tested on the updated variables.
  abbrev pub emit2 : Baseline F → Side × ℕ → ℕ → F → List SpcViolation
  emit2 b s i v =
      let (side, run_side) = next2 b s v in
      if leb same_side_len run_side
      then record { rule = same_side_8; index = i; direction = side_direction side } ∷ []
      else []

  -- The variables `up` and `down`, and `pts[i - 1]`; there is none before the first point, where
  -- the loop of the code has not begun.
  abbrev pub next3 : Option F × ℕ × ℕ → F → Option F × ℕ × ℕ
  next3 (none, up, down) v = (some v, 1, 1)
  next3 (some w, up, down) v =
      if lt w v
      then (some v, up + 1, 1)
      else if lt v w
      then (some v, 1, down + 1)
      else (some v, 1, 1)

  -- Rule 3: six consecutive points rising or falling.
  abbrev pub emit3 : Option F × ℕ × ℕ → ℕ → F → List SpcViolation
  emit3 (none, _, _) i v = []
  emit3 (some w, up, down) i v =
      let (_, up', down') = next3 (some w, up, down) v in
      (if leb trend_len up'
        then record { rule = trend_6; index = i; direction = alto } ∷ []
        else [])
      ++ (if leb trend_len down'
          then record { rule = trend_6; index = i; direction = bajo } ∷ []
          else [])

  unfoldable pub rule1 : Baseline F → List F → List SpcViolation
  unfolding loop
  rule1 b = loop (λ s v. s) (emit1 b) tt 0

  unfoldable pub rule2 : Baseline F → List F → List SpcViolation
  unfolding loop
  rule2 b = loop (next2 b) (emit2 b) (level, 0) 0

  unfoldable pub rule3 : List F → List SpcViolation
  unfolding loop
  rule3 = loop next3 emit3 (none, 1, 1) 0

  -- `check_rules`
  unfoldable pub check_rules : List (Option F) → Baseline F → List SpcViolation
  unfolding present rule1 rule2 rule3
  check_rules values b = let pts = present values in rule1 b pts ++ (rule2 b pts ++ rule3 pts)

-- `"bajo" in dirs` and `"alto" in dirs`
abbrev pub is_bajo : SpcViolation → Bool
is_bajo v = elim v.direction [ bajo ↦ true | alto ↦ false ]

abbrev pub is_alto : SpcViolation → Bool
is_alto v = elim v.direction [ alto ↦ true | bajo ↦ false ]

-- The label that `detect_drift` gives to a list of violations.
unfoldable pub drift_label : List SpcViolation → Trend
drift_label [] = estable
drift_label (v ∷ vs) =
    if any is_bajo (v ∷ vs) then degradacion else if any is_alto (v ∷ vs) then mejora else estable

-- `detect_drift`
unfoldable pub detect_drift : {F : Type 0} → (F → F → Bool) → List (Option F) → Baseline F → Trend
unfolding check_rules drift_label
detect_drift lt values b = drift_label (check_rules lt values b)

-- The float arithmetic of `compute_baseline`: `statistics.fmean`, `statistics.stdev`, and
-- `mean + 3 * std`, `mean - 3 * std`.
pub record FloatStats (F : Type 0) : Type 0 where
  pub fmean : List F → F
  pub stdev : List F → F
  pub plus_3 : F → F → F
  pub minus_3 : F → F → F

-- `compute_baseline`
unfoldable pub compute_baseline :
    {F : Type 0} → FloatStats F → List (Option F) → ℕ → Option (Baseline F)
unfolding present
compute_baseline fs values n =
    let sample = present (take n values) in
    if leb 2 (length sample)
    then some (record {
      mean = fs.fmean sample;
      std = fs.stdev sample;
      ucl = fs.plus_3 (fs.fmean sample) (fs.stdev sample);
      lcl = fs.minus_3 (fs.fmean sample) (fs.stdev sample);
      n = length sample;
    })
    else none

pub record SpcSummary (F : Type 0) : Type 0 where
  pub baseline : Baseline F
  pub trend : Trend
  pub violations : List SpcViolation

-- `spc_summary`
unfoldable pub spc_summary :
    {F : Type 0} → FloatStats F → (F → F → Bool) → List (Option F) → ℕ → Option (SpcSummary F)
unfolding compute_baseline detect_drift
spc_summary fs lt values baseline_n = elim (compute_baseline fs values baseline_n) [
  | none ↦ none
  | some b ↦ some (record {
    baseline = b;
    trend = detect_drift lt values b;
    violations = check_rules lt values b;
  })
]
