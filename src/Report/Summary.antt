-- ===== src/Report/Summary.antt =====
-- What the figures of a report count, and that they add up.
use insyta_api.Prelude.{
  ℕ, suc, ◌+◌, ◌*◌, ◌≤◌, ◌≡◌, Bool, ◌&&◌, ◌||◌, not, Option, some, List, [], ◌∷◌, length,
  length-append, arith, Text, if◌then◌else◌, ◌==◌, round_div-le, Bool-cases, inl, inr,
}
use insyta_api.Report.{
  Bucket, satisfecho, neutral, insatisfecho, type_or_otro, Row, Tally, Distribution, flag,
  empty_tally, tally_kind, tally_escalation, tally_rows, percentage, build_report_summary,
  satisfaction_distribution, distribute_from, satisfaction_bucket, bump_bucket, count_type,
}

-- How many rows pass a test.
abbrev pub count : (Row → Bool) → List Row → ℕ
count p [] = 0
count p (r ∷ rs) = (if p r then 1 else 0) + count p rs

abbrev pub is_attack : Row → Bool
is_attack r = flag r.is_adversarial

abbrev pub is_legit : Row → Bool
is_legit r = not (flag r.is_adversarial)

abbrev pub total_of : List (Text × ℕ) → ℕ
total_of [] = 0
total_of ((_, n) ∷ rest) = n + total_of rest

percentage-le : (part whole : ℕ) → part ≤ whole → (x : ℕ) → percentage part whole ≡ some x → x ≤ 100
percentage-le part whole h x e = elim (Bool-cases (whole == 0)) [
  | inl z ↦ absurd (ground arith)
  | inr n ↦
      let le = round_div-le (100 * part) whole 100 (omega arith) (ground arith) in ground arith
]

total_of-count_type : (t : Text) (m : List (Text × ℕ)) → total_of (count_type t m) ≡ total_of m + 1
unfolding count_type
total_of-count_type t [] = omega arith
total_of-count_type t ((k, n) ∷ m) = ground (arith, total_of-count_type t m)

-- What one row adds to each figure.
record Adds (t u : Tally) (r : Row) : Type 0 where
  legit : u.legit_total ≡ (if is_legit r then 1 else 0) + t.legit_total
  resolved :
      u.legit_resolved ≡ (if is_legit r && flag r.resolution then 1 else 0) + t.legit_resolved
  attacks : u.adv_total ≡ (if is_attack r then 1 else 0) + t.adv_total
  repelled :
      u.adv_repelled ≡ (if is_attack r && flag r.attack_repelled then 1 else 0) + t.adv_repelled
  ceded : u.adv_ceded ≡ (if is_attack r && not (flag r.attack_repelled) then 1 else 0) + t.adv_ceded
  correct :
      u.esc_correct
      ≡ (if flag r.escalated && (is_attack r || flag r.scope_violation) then 1 else 0)
        + t.esc_correct
  avoidable :
      u.esc_avoidable
      ≡ (if flag r.escalated && not (is_attack r || flag r.scope_violation) then 1 else 0)
        + t.esc_avoidable
  sats : length u.legit_sats ≡ (if is_legit r then 1 else 0) + length t.legit_sats
  types : total_of u.by_type ≡ (if is_attack r then 1 else 0) + total_of t.by_type

tally-Adds : (t : Tally) (r : Row) → Adds t (tally_escalation (tally_kind t r) r) r
unfolding tally_kind tally_escalation
tally-Adds t r = elim (Bool-cases (flag r.is_adversarial)) [
  | inl a ↦ record {
    legit = ground arith;
    resolved = ground arith;
    attacks = ground arith;
    repelled = ground arith;
    ceded = ground arith;
    correct = ground arith;
    avoidable = ground arith;
    sats = ground arith;
    types = ground (arith, total_of-count_type (type_or_otro r.attack_type) t.by_type);
  }
  | inr a ↦ record {
    legit = ground arith;
    resolved = ground arith;
    attacks = ground arith;
    repelled = ground arith;
    ceded = ground arith;
    correct = ground arith;
    avoidable = ground arith;
    sats = ground (arith, length-append t.legit_sats (r.satisfaction ∷ []));
    types = ground arith;
  }
]

-- What the rows add to each figure.
record AddsAll (t u : Tally) (rs : List Row) : Type 0 where
  legit : u.legit_total ≡ count is_legit rs + t.legit_total
  resolved : u.legit_resolved ≡ count (λ r. is_legit r && flag r.resolution) rs + t.legit_resolved
  attacks : u.adv_total ≡ count is_attack rs + t.adv_total
  repelled : u.adv_repelled ≡ count (λ r. is_attack r && flag r.attack_repelled) rs + t.adv_repelled
  ceded : u.adv_ceded ≡ count (λ r. is_attack r && not (flag r.attack_repelled)) rs + t.adv_ceded
  correct :
      u.esc_correct
      ≡ count (λ r. flag r.escalated && (is_attack r || flag r.scope_violation)) rs + t.esc_correct
  avoidable :
      u.esc_avoidable
      ≡ count (λ r. flag r.escalated && not (is_attack r || flag r.scope_violation)) rs
        + t.esc_avoidable
  sats : length u.legit_sats ≡ count is_legit rs + length t.legit_sats
  types : total_of u.by_type ≡ count is_attack rs + total_of t.by_type

tally_rows-AddsAll : (t : Tally) (rs : List Row) → AddsAll t (tally_rows t rs) rs
unfolding tally_rows
tally_rows-AddsAll t [] = record {
  legit = omega arith;
  resolved = omega arith;
  attacks = omega arith;
  repelled = omega arith;
  ceded = omega arith;
  correct = omega arith;
  avoidable = omega arith;
  sats = omega arith;
  types = omega arith;
}
tally_rows-AddsAll t (r ∷ rs) =
    let a = tally-Adds t r in
    let b = tally_rows-AddsAll (tally_escalation (tally_kind t r) r) rs in
    record {
      legit = omega (arith, a.legit, b.legit);
      resolved = omega (arith, a.resolved, b.resolved);
      attacks = omega (arith, a.attacks, b.attacks);
      repelled = omega (arith, a.repelled, b.repelled);
      ceded = omega (arith, a.ceded, b.ceded);
      correct = omega (arith, a.correct, b.correct);
      avoidable = omega (arith, a.avoidable, b.avoidable);
      sats = omega (arith, a.sats, b.sats);
      types = omega (arith, a.types, b.types);
    }

distribute_from-total :
    (d : Distribution) (ss : List (Option ℕ))
    → let e = distribute_from d ss in
      e.satisfecho_n + e.neutral_n + e.insatisfecho_n
      ≡ length ss + d.satisfecho_n + d.neutral_n + d.insatisfecho_n
unfolding distribute_from
distribute_from-total d [] = omega arith
distribute_from-total d (s ∷ ss) =
    let ih = distribute_from-total (bump_bucket (satisfaction_bucket s) d) ss in
    bumped (satisfaction_bucket s) ih
  where
    bumped :
        (b : Bucket) {x : ℕ}
        → x
          ≡ length ss
            + (bump_bucket b d).satisfecho_n
            + (bump_bucket b d).neutral_n
            + (bump_bucket b d).insatisfecho_n
        → x ≡ suc (length ss) + d.satisfecho_n + d.neutral_n + d.insatisfecho_n
    bumped satisfecho h = omega arith
    bumped neutral h = omega arith
    bumped insatisfecho h = omega arith

count_split :
    (p q : Row → Bool) (rs : List Row)
    → count (λ r. p r && q r) rs + count (λ r. p r && not (q r)) rs ≡ count p rs
count_split p q [] = omega arith
count_split p q (r ∷ rs) = ground (arith, count_split p q rs)

count_legit : (rs : List Row) → count is_legit rs + count is_attack rs ≡ length rs
count_legit [] = omega arith
count_legit (r ∷ rs) = ground (arith, count_legit rs)

module _ (rows : List Row) (total : ℕ) where
  -- The report counts the legitimate rows, those of them resolved, the attacks, those repelled and
  -- ceded, and the escalations: correct on an attack or out of scope, avoidable otherwise.
  pub build_report_summary_counts :
      let s = build_report_summary rows total in
      (s.legitimate ≡ count is_legit rows)
      × (s.resolved ≡ count (λ r. is_legit r && flag r.resolution) rows)
      × (s.adversarial_total ≡ count is_attack rows)
      × (s.repelled ≡ count (λ r. is_attack r && flag r.attack_repelled) rows)
      × (s.ceded ≡ count (λ r. is_attack r && not (flag r.attack_repelled)) rows)
      × (s.escalations_correct
          ≡ count (λ r. flag r.escalated && (is_attack r || flag r.scope_violation)) rows)
      × (s.escalations_avoidable
          ≡ count (λ r. flag r.escalated && not (is_attack r || flag r.scope_violation)) rows)
  unfolding build_report_summary
  build_report_summary_counts =
      let a = tally_rows-AddsAll empty_tally rows in
      (
        omega (arith, a.legit),
        omega (arith, a.resolved),
        omega (arith, a.attacks),
        omega (arith, a.repelled),
        omega (arith, a.ceded),
        omega (arith, a.correct),
        omega (arith, a.avoidable),
      )

  -- The figures add up: every row is legitimate or an attack, every attack is repelled or ceded and
  -- has one type, the satisfaction buckets hold the legitimate rows alone, every escalation is
  -- correct or avoidable, and the resolution percentage, where there is one, is at most 100.
  pub build_report_summary_adds_up :
      let s = build_report_summary rows total in
      let d = s.satisfaction in
      (s.legitimate + s.adversarial_total ≡ length rows)
      × (s.repelled + s.ceded ≡ s.adversarial_total)
      × (total_of s.by_type ≡ s.adversarial_total)
      × (d.satisfecho_n + d.neutral_n + d.insatisfecho_n ≡ s.legitimate)
      × (s.escalations_correct + s.escalations_avoidable ≡ count (λ r. flag r.escalated) rows)
      × ((x : ℕ) → s.pct ≡ some x → x ≤ 100)
  unfolding build_report_summary satisfaction_distribution
  build_report_summary_adds_up =
      let a = tally_rows-AddsAll empty_tally rows in
      let t = tally_rows empty_tally rows in
      let z : Distribution = record { satisfecho_n = 0; neutral_n = 0; insatisfecho_n = 0 } in
      let attacks = count_split is_attack (λ r. flag r.attack_repelled) rows in
      let escalated =
        count_split (λ r. flag r.escalated) (λ r. is_attack r || flag r.scope_violation) rows in
      let resolved = count_split is_legit (λ r. flag r.resolution) rows in
      let legit = count_legit rows in
      let d = distribute_from-total z t.legit_sats in
      (
        omega (arith, a.legit, a.attacks, legit),
        omega (arith, a.repelled, a.ceded, a.attacks, attacks),
        omega (arith, a.types, a.attacks),
        omega (arith, a.sats, a.legit, d),
        omega (arith, a.correct, a.avoidable, escalated),
        percentage-le t.legit_resolved t.legit_total (omega (arith, a.resolved, a.legit, resolved)),
      )
