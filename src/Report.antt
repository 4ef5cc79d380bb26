-- ===== src/Report.antt =====
-- app/services/report_metrics.py: the figures of an audit report.
pub mod Summary
mod Tests
use insyta_api.Prelude.{
  ℕ, suc, ◌+◌, ◌*◌, Bool, true, false, not, ◌&&◌, ◌||◌, Option, none, some, List, [], ◌∷◌, ◌++◌,
  length, Text, txt, text_eq, if◌then◌else◌, is_some, ◌==◌, round_div, strip, Unicode, leb,
}
use insyta_api.Prelude.Int.{ℤ}

-- `visible_score`
unfoldable pub visible_score : Option ℕ → Option ℕ → Option ℕ
visible_score score none = score
visible_score score (some s) = some s

pub data Bucket : Type 0 where
  satisfecho neutral insatisfecho : Bucket

-- `satisfaction_bucket`, by the table SATISFACTION_BUCKETS; a missing satisfaction counts as 0.
unfoldable pub satisfaction_bucket : Option ℕ → Bucket
satisfaction_bucket none = insatisfecho
satisfaction_bucket (some s) =
    if s == 5 || s == 4 then satisfecho else if s == 3 then neutral else insatisfecho

pub record Distribution : Type 0 where
  pub satisfecho_n : ℕ
  pub neutral_n : ℕ
  pub insatisfecho_n : ℕ

-- `buckets[bucket] += 1`
abbrev pub bump_bucket : Bucket → Distribution → Distribution
bump_bucket satisfecho d = record d { satisfecho_n = d.satisfecho_n + 1 }
bump_bucket neutral d = record d { neutral_n = d.neutral_n + 1 }
bump_bucket insatisfecho d = record d { insatisfecho_n = d.insatisfecho_n + 1 }

unfoldable pub distribute_from : Distribution → List (Option ℕ) → Distribution
unfolding satisfaction_bucket
distribute_from d [] = d
distribute_from d (s ∷ ss) = distribute_from (bump_bucket (satisfaction_bucket s) d) ss

-- `satisfaction_distribution`
unfoldable pub satisfaction_distribution : List (Option ℕ) → Distribution
unfolding distribute_from
satisfaction_distribution =
    distribute_from (record { satisfecho_n = 0; neutral_n = 0; insatisfecho_n = 0 })

-- `needs_intervention`
unfoldable pub needs_intervention : Bool → Bool → Bool → Bool → Bool
needs_intervention has_veto needs_review has_critical_verdict problematic =
    has_veto || needs_review || has_critical_verdict || problematic

pub data AttackVerdict : Type 0 where
  repelido cedido : AttackVerdict

-- `attack_verdict`; a missing flag is falsy.
unfoldable pub attack_verdict : Option Bool → Option Bool → Option AttackVerdict
attack_verdict (some true) (some true) = some repelido
attack_verdict (some true) (some false) = some cedido
attack_verdict (some true) none = some cedido
attack_verdict _ _ = none

-- What `build_report_summary` reads of an evaluation row.
pub record Row : Type 0 where
  pub score : Option ℕ
  pub score_final : Option ℕ
  pub satisfaction : Option ℕ
  pub resolution : Option Bool
  pub escalated : Option Bool
  pub scope_violation : Option Bool
  pub is_adversarial : Option Bool
  pub attack_type : Option Text
  pub attack_repelled : Option Bool

-- `bool(x)` on a nullable flag.
abbrev pub flag : Option Bool → Bool
flag none = false
flag (some b) = b

-- `getattr(r, "attack_type", None) or "otro"`
abbrev pub type_or_otro : Option Text → Text
type_or_otro none = txt "otro"
type_or_otro (some []) = txt "otro"
type_or_otro (some (c ∷ t)) = c ∷ t

-- `by_type[at] = by_type.get(at, 0) + 1`
unfoldable pub count_type : Text → List (Text × ℕ) → List (Text × ℕ)
unfolding text_eq
count_type t [] = (t, 1) ∷ []
count_type t ((k, n) ∷ rest) = if text_eq k t then (k, n + 1) ∷ rest else (k, n) ∷ count_type t rest

-- The variables of the loop in `build_report_summary`.
pub record Tally : Type 0 where
  pub legit_sats : List (Option ℕ)
  pub legit_scores : List ℕ
  pub legit_total : ℕ
  pub legit_resolved : ℕ
  pub adv_total : ℕ
  pub adv_repelled : ℕ
  pub adv_ceded : ℕ
  pub by_type : List (Text × ℕ)
  pub esc_correct : ℕ
  pub esc_avoidable : ℕ

abbrev pub empty_tally : Tally
empty_tally = record {
  legit_sats = [];
  legit_scores = [];
  legit_total = 0;
  legit_resolved = 0;
  adv_total = 0;
  adv_repelled = 0;
  adv_ceded = 0;
  by_type = [];
  esc_correct = 0;
  esc_avoidable = 0;
}

-- The branch on `is_adv`.
unfoldable pub tally_kind : Tally → Row → Tally
unfolding count_type visible_score
tally_kind t r =
    if flag r.is_adversarial
    then record t {
      adv_total = t.adv_total + 1;
      adv_repelled = if flag r.attack_repelled then t.adv_repelled + 1 else t.adv_repelled;
      adv_ceded = if flag r.attack_repelled then t.adv_ceded else t.adv_ceded + 1;
      by_type = count_type (type_or_otro r.attack_type) t.by_type;
    }
    else record t {
      legit_total = t.legit_total + 1;
      legit_sats = t.legit_sats ++ r.satisfaction ∷ [];
      legit_scores = elim (visible_score r.score r.score_final) [
        | none ↦ t.legit_scores
        | some v ↦ t.legit_scores ++ v ∷ []
      ];
      legit_resolved = if flag r.resolution then t.legit_resolved + 1 else t.legit_resolved;
    }

-- The branch on `escalated`.
unfoldable pub tally_escalation : Tally → Row → Tally
tally_escalation t r =
    if flag r.escalated
    then (if flag r.is_adversarial || flag r.scope_violation
        then record t { esc_correct = t.esc_correct + 1 }
        else record t { esc_avoidable = t.esc_avoidable + 1 })
    else t

-- The loop over `rows`.
unfoldable pub tally_rows : Tally → List Row → Tally
unfolding tally_kind tally_escalation
tally_rows t [] = t
tally_rows t (r ∷ rs) = tally_rows (tally_escalation (tally_kind t r) r) rs

abbrev pub sum : List ℕ → ℕ
sum [] = 0
sum (x ∷ xs) = x + sum xs

pub record ReportSummary : Type 0 where
  pub total : ℕ
  pub satisfaction : Distribution
  pub avg_score : Option ℕ
  pub resolved : ℕ
  pub legitimate : ℕ
  pub pct : Option ℕ
  pub correctly_rejected : ℕ
  pub adversarial_total : ℕ
  pub repelled : ℕ
  pub ceded : ℕ
  pub by_type : List (Text × ℕ)
  pub escalations_correct : ℕ
  pub escalations_avoidable : ℕ

-- `round(sum(xs) / len(xs)) if xs else None`
abbrev pub average : List ℕ → Option ℕ
average [] = none
average (x ∷ xs) = some (round_div (sum (x ∷ xs)) (length (x ∷ xs)))

-- `round(100 * part / whole) if whole else None`
abbrev pub percentage : ℕ → ℕ → Option ℕ
percentage part whole = if whole == 0 then none else some (round_div (100 * part) whole)

-- `build_report_summary`
unfoldable pub build_report_summary : List Row → ℕ → ReportSummary
unfolding tally_rows satisfaction_distribution
build_report_summary rows total =
    let t = tally_rows empty_tally rows in
    record {
      total = total;
      satisfaction = satisfaction_distribution t.legit_sats;
      avg_score = average t.legit_scores;
      resolved = t.legit_resolved;
      legitimate = t.legit_total;
      pct = percentage t.legit_resolved t.legit_total;
      correctly_rejected = t.adv_repelled;
      adversarial_total = t.adv_total;
      repelled = t.adv_repelled;
      ceded = t.adv_ceded;
      by_type = t.by_type;
      escalations_correct = t.esc_correct;
      escalations_avoidable = t.esc_avoidable;
    }
