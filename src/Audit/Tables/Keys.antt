-- ===== src/Audit/Tables/Keys.antt =====
-- The unique constraints of the tables of evaluations are kept by what an audit inserts and updates.
use insyta_api.Prelude.{
  ℕ, ◌≡◌, refl, ◌∙◌, inl, inr, Bool, false, ◌==◌, List, [], ◌∷◌, any, Bool-cases, some,
}
use insyta_api.Rubric.Mapping.{MessageVerdict}
use insyta_api.Audit.Tables.{
  Conversation, Reviewed, Evaluation, MessageEvaluation, has_evaluation, persist_conversation_eval,
  persist_rubric_columns, rows_for, same_target, insert_rows, persist_message_evals,
}

-- No row has the key of a later one.
abbrev pub Distinct : {A : Type 0} → (A → A → Bool) → List A → Type 0
Distinct same [] = Unit
Distinct same (x ∷ xs) = (any (same x) xs ≡ false) × Distinct same xs

abbrev pub same_conversation : Evaluation → Evaluation → Bool
same_conversation a b = b.conversation_id == a.conversation_id

pub persist_conversation_eval-Distinct :
    (e : Evaluation) (es : List Evaluation)
    → Distinct same_conversation es
    → Distinct same_conversation (persist_conversation_eval e es)
unfolding persist_conversation_eval has_evaluation
persist_conversation_eval-Distinct e es d =
    elim (Bool-cases (has_evaluation e.conversation_id es)) [ inl h ↦ rw h d | inr h ↦ rw h (h, d) ]

columns_any :
    (id : ℕ) (r : Reviewed) (x : Evaluation) (es : List Evaluation)
    → any (same_conversation x) (persist_rubric_columns id r es) ≡ any (same_conversation x) es
unfolding persist_rubric_columns
columns_any id r x [] = refl
columns_any id r x (e ∷ es) = elim (Bool-cases (e.conversation_id == id)) [
  | inl h ↦ rw (h, columns_any id r x es) refl
  | inr h ↦ rw (h, columns_any id r x es) refl
]

pub persist_rubric_columns-Distinct :
    (id : ℕ) (r : Reviewed) (es : List Evaluation)
    → Distinct same_conversation es
    → Distinct same_conversation (persist_rubric_columns id r es)
unfolding persist_rubric_columns
persist_rubric_columns-Distinct id r [] d = tt
persist_rubric_columns-Distinct id r (e ∷ es) (h, d) = elim (Bool-cases (e.conversation_id == id)) [
  | inl k ↦ rw k (
    columns_any id r (record e { reviewed = some r }) es ∙ h,
    persist_rubric_columns-Distinct id r es d,
  )
  | inr k ↦ rw k (columns_any id r e es ∙ h, persist_rubric_columns-Distinct id r es d)
]

insert_rows-Distinct :
    (rows table : List MessageEvaluation)
    → Distinct same_target table
    → Distinct same_target (insert_rows rows table)
unfolding insert_rows
insert_rows-Distinct [] table d = d
insert_rows-Distinct (r ∷ rows) table d = elim (Bool-cases (any (same_target r) table)) [
  | inl h ↦ rw h (insert_rows-Distinct rows table d)
  | inr h ↦ rw h (insert_rows-Distinct rows (r ∷ table) (h, d))
]

pub persist_message_evals-Distinct :
    (audit_id : ℕ) (conv : Conversation) (vs : List MessageVerdict) (table : List MessageEvaluation)
    → Distinct same_target table
    → Distinct same_target (persist_message_evals audit_id conv vs table).0
unfolding persist_message_evals
persist_message_evals-Distinct audit_id conv vs table d =
    insert_rows-Distinct (rows_for audit_id conv vs) table d
