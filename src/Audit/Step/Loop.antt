-- ===== src/Audit/Step/Loop.antt =====
-- What every turn preserves, the loop over the conversations does.
use insyta_api.Prelude.{ℕ, ◌≡◌, refl, sym, ◌⊎◌, inl, inr, List, [], ◌∷◌, In, subst}
use insyta_api.Audit.Tables.{Tables}
use insyta_api.Audit.Conversation.{Failure, Attempt, gives, fails, Totals, Work}
use insyta_api.Audit.Step.{process_id, process_ids}

module _ {F : Type 0} (w : Work F) where
  -- The loop after one turn.
  abbrev pub continued : List ℕ → Tables F → Attempt (Tables F × Totals) → Tables F × Attempt Totals
  continued ids a (fails e) = (a, fails e)
  continued ids a (gives (b, u)) = process_ids w ids (b, u)

  pub process_ids-cons :
      (id : ℕ) (ids : List ℕ) (a : Tables F) (t : Totals)
      → process_ids w (id ∷ ids) (a, t) ≡ continued ids a (process_id w id (a, t))
  unfolding process_ids
  process_ids-cons id ids a t = same (process_id w id (a, t))
    where
      same :
          (o : Attempt (Tables F × Totals))
          → elim o as (λ _. Tables F × Attempt Totals) [
            | fails e ↦ (a, fails e)
            | gives (b, u) ↦ process_ids w ids (b, u)
          ]
            ≡ continued ids a o
      same (fails e) = refl
      same (gives (b, u)) = refl

  module _ (Inv : Tables F × Totals → Type 0) where
    -- The tables at the end, with some totals, which are those given unless it fails.
    abbrev pub Reaches : Tables F × Attempt Totals → Type 0
    Reaches r = (t : Totals) × Inv (r.0, t) × ((r.1 ≡ gives t) ⊎ ((e : Failure) × (r.1 ≡ fails e)))

    continued-Reaches :
        (ids : List ℕ) (a : Tables F) (t : Totals) (o : Attempt (Tables F × Totals))
        → ((after : Tables F × Totals) → o ≡ gives after → Reaches (process_ids w ids after))
        → Inv (a, t)
        → Reaches (continued ids a o)
    continued-Reaches ids a t (fails e) rest i = (t, i, inr (e, refl))
    continued-Reaches ids a t (gives (b, u)) rest i = rest (b, u) refl

    pub process_ids-Reaches :
        (ids : List ℕ) (a : Tables F) (t : Totals)
        → ((id : ℕ) (s after : Tables F × Totals)
            → In id ids
            → Inv s
            → process_id w id s ≡ gives after
            → Inv after)
        → Inv (a, t)
        → Reaches (process_ids w ids (a, t))
    process_ids-Reaches [] a t step i = unfold process_ids in (t, i, inl refl)
    process_ids-Reaches (id ∷ ids) a t step i =
        let rest : (s : Tables F × Totals) → Inv s → Reaches (process_ids w ids s) =
          λ s j. process_ids-Reaches ids s.0 s.1 (λ n s after k. step n s after (inr k)) j in
        subst Reaches (sym (process_ids-cons id ids a t)) (
          continued-Reaches ids a t (process_id w id (a, t))
            (λ after e. rest after (step id (a, t) after (inl refl) i e)) i)
