-- ===== src/Audit/Run/Finishing.antt =====
-- How an audit ends.
use insyta_api.Prelude.{◌≤◌, ◌≡◌, refl, ◌⊎◌, inl, inr, some, [], ◌∷◌, Text, txt, length}
use insyta_api.Judge.{or_else}
use insyta_api.Audit.Tables.{active, failed, AuditRow, Tables}
use insyta_api.Audit.Conversation.{Failure, fatal_llm, Attempt, gives, fails, Totals}
use insyta_api.Audit.Step.{process_ids}
use insyta_api.Audit.Plan.{Plan, no_totals, missing_key_detail}
use insyta_api.Audit.Run.{required_key, suggestions_for, finish, run, mark_failed, run_audit}

-- The audit's row after a run with these totals, or after an exception.
abbrev pub FinishedWith : {F : Type 0} → Plan F → AuditRow → Attempt Totals → Type 0
FinishedWith p row (gives t) =
    (row.status ≡ active)
    × (row.conversation_count ≡ length p.conv_ids)
    × (row.evaluated_count ≡ length p.conv_ids)
    × (row.suggestions ≡ suggestions_for p t)
    × (row.finished_at ≡ some p.now)
FinishedWith p row (fails e) =
    (row.status ≡ failed) × ((m : Text) × (row.error_message ≡ some m) × (length m ≤ 1000))

module _ {F : Type 0} (p : Plan F) where
  -- `run_audit` after the result of `_run`.
  abbrev pub closed : Tables F × Attempt Totals → Tables F
  closed (a, gives t) = a
  closed (a, fails e) = mark_failed e a

  pub run_audit-closed : (a : Tables F) → run_audit p a ≡ closed (run p a)
  unfolding run_audit
  run_audit-closed a = go (run p a)
    where
      go :
          (r : Tables F × Attempt Totals)
          → elim r.1 as (λ _. Tables F) [ gives t ↦ r.0 | fails e ↦ mark_failed e r.0 ] ≡ closed r
      go (b, gives t) = refl
      go (b, fails e) = refl

  -- `_run` after the loop.
  abbrev pub ended : Tables F × Attempt Totals → Tables F × Attempt Totals
  ended (b, gives t) = (finish p t b, gives t)
  ended (b, fails e) = (b, fails e)

  Closed : Tables F × Attempt Totals → Type 0
  Closed r = FinishedWith p (closed r).audit r.1

  pub run_lem :
      (a : Tables F)
      → (run p a ≡ ended (process_ids p.work p.conv_ids (a, no_totals)))
        ⊎ ((e : Failure) × (run p a ≡ (a, fails e)))
  unfolding run
  run_lem a = go (or_else (required_key p) []) (process_ids p.work p.conv_ids (a, no_totals))
    where
      go :
          (key : Text) (r : Tables F × Attempt Totals)
          → (elim key as (λ _. Tables F × Attempt Totals) [
            | [] ↦
                (a, fails (fatal_llm (missing_key_detail (or_else p.provider (txt "anthropic")))))
            | c ∷ k ↦ elim r.1 as (λ _. Tables F × Attempt Totals) [
              | gives t ↦ (finish p t r.0, gives t)
              | fails e ↦ (r.0, fails e)
            ]
          ]
              ≡ ended r)
            ⊎ ((e : Failure) × (elim key as (λ _. Tables F × Attempt Totals) [
              | [] ↦
                  (a, fails (fatal_llm (missing_key_detail (or_else p.provider (txt "anthropic")))))
              | c ∷ k ↦ elim r.1 as (λ _. Tables F × Attempt Totals) [
                | gives t ↦ (finish p t r.0, gives t)
                | fails e ↦ (r.0, fails e)
              ]
            ]
                  ≡ (a, fails e)))
      go [] r = inr (_, refl)
      go (c ∷ k) (b, gives t) = inl refl
      go (c ∷ k) (b, fails e) = inl refl
