-- ===== src/Rubric/Segment/Priority.antt =====
-- What decides the segment, and what a veto does to it.
use insyta_api.Prelude.{
  ℕ, ◌≤◌, ◌≡◌, ◌≢◌, refl, ◌↔◌, ◌⊎◌, inl, inr, Bool, true, false, ◌||◌, Option, some, List, [], ◌∷◌,
  arith, In, Text, txt, mem_text, mem_text_iff, last?, Bool-cases,
}
use insyta_api.Rubric.{RubricResponse, Sentiment, negativo}
use insyta_api.Rubric.Scoring.{ScoreResult, compute_scores, truthy}
use insyta_api.Rubric.Scoring.Veto.{score_final_lem, truthy_iff}
use insyta_api.Rubric.Segment.{cliente_ideal, problematico, find_dim, segment_of, derive_segment}

problem_iff :
    (p : Bool) (last : Option Sentiment) (a b c d : Option ℕ)
    → (segment_of p last a b c d ≡ problematico) ↔ (p ≡ true)
unfolding segment_of
problem_iff true last a b c d = (λ _. refl, λ _. refl)
problem_iff false last a b c d = (λ h. absurd (ground arith), λ h. absurd (ground arith))

module _ (p : Bool) (last : Option Sentiment) (a b c d : Option ℕ)
    (h : segment_of p last a b c d ≡ cliente_ideal) where
  ideal_score : (f : ℕ) × (d ≡ some f) × (80 ≤ f)
  unfolding segment_of
  ideal_score = ground arith

  ideal_f1 : (x : ℕ) × (b ≡ some x) × (4 ≤ x)
  unfolding segment_of
  ideal_f1 = ground arith

  ideal_e4 : (x : ℕ) → a ≡ some x → 4 ≤ x
  unfolding segment_of
  ideal_e4 x e = ground arith

  ideal_calm : (p ≡ false) × (last ≢ some negativo)
  unfolding segment_of
  ideal_calm = (ground arith, λ e. ground arith)

module _ (r : RubricResponse) (s : ScoreResult) where
  abbrev pub e4 : Option ℕ
  e4 = find_dim r.dimensiones (txt "E4")

  abbrev pub f1 : Option ℕ
  f1 = find_dim r.dimensiones (txt "F1")

  -- The segment is "problematico" exactly when the rubric has a fraud flag or the score carries the
  -- jailbreak veto; whatever the score and the sentiment.
  pub derive_segment-problematico :
      (derive_segment r s ≡ problematico)
      ↔ (((f : Text) × In f r.fraude_flags) ⊎ In (txt "B1_jailbreak") s.veto_flags)
  unfolding derive_segment
  derive_segment-problematico =
      let last = last? r.sentimiento_trayectoria in
      let sig = truthy r.fraude_flags || mem_text (txt "B1_jailbreak") s.veto_flags in
      let (to, from) =
        problem_iff sig last e4 f1 (find_dim r.dimensiones (txt "F3")) s.score_final in
      (
        λ h. elim (Bool-cases (truthy r.fraude_flags)) [
          | inl t ↦ inl ((truthy_iff r.fraude_flags).0 t)
          | inr t ↦
              inr
                ((mem_text_iff (txt "B1_jailbreak") s.veto_flags).0 (let e = to h in ground arith))
        ],
        λ h. from (elim h [
          | inl k ↦ let e = (truthy_iff r.fraude_flags).1 k in ground arith
          | inr k ↦ let e = (mem_text_iff (txt "B1_jailbreak") s.veto_flags).1 k in ground arith
        ]),
      )

  -- A "cliente_ideal" has a final score of at least 80, F1 of at least 4, E4 missing or at least 4,
  -- and neither a fraud flag nor a negative last sentiment.
  pub cliente_ideal_lem :
      derive_segment r s ≡ cliente_ideal
      → ((f : ℕ) × (s.score_final ≡ some f) × (80 ≤ f))
        × ((x : ℕ) × (f1 ≡ some x) × (4 ≤ x))
        × ((x : ℕ) → e4 ≡ some x → 4 ≤ x)
        × (r.fraude_flags ≡ [])
        × (last? r.sentimiento_trayectoria ≢ some negativo)
  unfolding derive_segment
  cliente_ideal_lem h =
      let sig = truthy r.fraude_flags || mem_text (txt "B1_jailbreak") s.veto_flags in
      let last = last? r.sentimiento_trayectoria in
      let f3 = find_dim r.dimensiones (txt "F3") in
      (
        ideal_score sig last e4 f1 f3 s.score_final h,
        ideal_f1 sig last e4 f1 f3 s.score_final h,
        ideal_e4 sig last e4 f1 f3 s.score_final h,
        no_flags r.fraude_flags (ideal_calm sig last e4 f1 f3 s.score_final h).0,
        (ideal_calm sig last e4 f1 f3 s.score_final h).1,
      )
    where
      no_flags :
          (l : List Text)
          → (truthy l || mem_text (txt "B1_jailbreak") s.veto_flags) ≡ false
          → l ≡ []
      no_flags [] e = refl
      no_flags (f ∷ l) e = absurd (ground arith)

-- A conversation whose veto is firm is never a "cliente_ideal", whatever its dimensions.
pub firm_veto-not_ideal :
    (r : RubricResponse) (extra det : List Text) (threshold : ℕ)
    → (compute_scores r extra det threshold).veto_firm ≡ true
    → derive_segment r (compute_scores r extra det threshold) ≢ cliente_ideal
firm_veto-not_ideal r extra det threshold firm h =
    let (f, e, le) = (cliente_ideal_lem r (compute_scores r extra det threshold) h).0 in
    let (g, e', le', _) = (score_final_lem r extra det threshold).0 firm in ground arith
