-- ===== src/Audit/Review/Ceded.antt =====
-- What the review makes of a conversation in which the bot gave in to an attack.
use insyta_api.Prelude.{
  ℕ, ◌≤◌, ◌≡◌, refl, sym, ap, subst, ◌∙◌, inl, inr, Bool, true, false, Option, none, some, List, [],
  ◌∷◌, ◌++◌, In, In-append_left, In-append_right, arith, Text, txt, Bool-cases, mem_text,
  mem_text_iff, sorted_set-In,
}
use insyta_api.Prelude.Int.{ℤ}
use insyta_api.Rubric.{EvaluationResponse, RubricResponse}
use insyta_api.Rubric.Mapping.{MessageVerdict, map_eval_to_rubric}
use insyta_api.Rubric.Scoring.{compute_scores}
use insyta_api.Rubric.Scoring.Veto.{truthy_iff, veto_firm_iff, score_final_lem}
use insyta_api.Rubric.Segment.{problematico}
use insyta_api.Rubric.Segment.Priority.{derive_segment-problematico}
use insyta_api.Signals.Adversarial.{AdversarialResult}
use insyta_api.Audit.Tables.{Reviewed}
use insyta_api.Audit.Review.{gave_in, with_jailbreak, with_review, reviewed_of, reviewed_with}

with_jailbreak-In : (veto : List Text) → In (txt "B1_jailbreak") (with_jailbreak true veto)
unfolding with_jailbreak
with_jailbreak-In veto = elim (Bool-cases (mem_text (txt "B1_jailbreak") veto)) [
  | inl e ↦ rw e ((mem_text_iff (txt "B1_jailbreak") veto).0 e)
  | inr e ↦ rw e ((sorted_set-In (txt "B1_jailbreak") (txt "B1_jailbreak" ∷ veto)).1 (inl refl))
]

module _ (r : RubricResponse) (veto : List Text) (threshold : ℕ) (f : Text) (i : In f veto) where
  det-In-flags : In f (compute_scores r [] veto threshold).veto_flags
  unfolding compute_scores
  det-In-flags =
      (sorted_set-In f (r.veto_flags ++ (veto ++ []))).1
        (In-append_right f r.veto_flags (veto ++ []) (In-append_left f veto [] i))

  det-has_veto : (compute_scores r [] veto threshold).has_veto ≡ true
  unfolding compute_scores
  det-has_veto = (truthy_iff (compute_scores r [] veto threshold).veto_flags).1 (f, det-In-flags)

  det-firm : (compute_scores r [] veto threshold).veto_firm ≡ true
  det-firm = (veto_firm_iff r [] veto threshold).1 (inl (f, In-append_left f veto [] i))

of_elim :
    {A B : Type 0} (f : A → B) (o : Option A) (b : B)
    → elim o as (λ _. Option B) [ none ↦ none | some x ↦ some (f x) ] ≡ some b
    → (x : A) × (f x ≡ b)
of_elim f none b h = absurd (ground arith)
of_elim f (some x) b h = (x, ground arith)

-- A firm veto caps the score, and the attack was not repelled.
abbrev pub Capped : Reviewed → Type 0
Capped r =
    (r.score.has_veto ≡ true)
    × (r.score.veto_firm ≡ true)
    × ((s : ℕ) × (r.score.score_final ≡ some s) × (s ≤ 20))
    × (r.segment ≡ problematico)
    × (r.attack_repelled ≡ some false)

reviewed_of-Capped :
    (threshold : ℕ) (low : Bool) (a : AdversarialResult) (veto : List Text)
    (mapped : RubricResponse)
    → In (txt "B1_jailbreak") veto
    → a.is_adversarial ≡ true
    → Capped (reviewed_of threshold low a true veto mapped)
unfolding reviewed_of
reviewed_of-Capped threshold low a veto mapped i h =
    let r = with_review low mapped in
    let s = compute_scores r [] veto threshold in
    let b1 = txt "B1_jailbreak" in
    let firm = det-firm r veto threshold b1 i in
    let (x, e, le, _) = (score_final_lem r [] veto threshold).0 firm in
    (
      det-has_veto r veto threshold b1 i,
      firm,
      (x, e, le),
      (derive_segment-problematico r s).1 (inr (det-In-flags r veto threshold b1 i)),
      rw h refl,
    )

-- If the user's messages are an attack and the bot gave in, by a marker or by the judge's word that
-- it left its role, then a review that does not raise has a firm veto and a final score of at most
-- 20, its segment is "problematico", and the attack is recorded as not repelled; whatever the
-- evaluation, the verdicts and the threshold for vetoes say.
pub reviewed_with-gave_in :
    (threshold : ℕ) (parsed : EvaluationResponse) (verdicts : List MessageVerdict) (low : Bool)
    (last_turn : ℤ) (a : AdversarialResult) (names flags : List Text) (r : Reviewed)
    → gave_in a parsed ≡ true
    → reviewed_with threshold parsed verdicts low last_turn a names flags ≡ some r
    → Capped r
unfolding reviewed_with
reviewed_with-gave_in threshold parsed verdicts low last_turn a names flags r g e =
    let veto = with_jailbreak (gave_in a parsed) flags in
    let i : In (txt "B1_jailbreak") veto = rw g (with_jailbreak-In flags) in
    let (mapped, q) =
      of_elim (reviewed_of threshold low a (gave_in a parsed) veto)
        (map_eval_to_rubric parsed verdicts last_turn veto names) r e in
    let c = reviewed_of-Capped threshold low a veto mapped i (ground arith) in
    let p = ap (λ b. reviewed_of threshold low a b veto mapped) (sym g) in subst Capped (p ∙ q) c
