-- ===== src/Audit/Tables.antt =====
-- The rows that app/workers/audit.py reads and writes, and its two inserts.
pub mod Keys
use insyta_api.Prelude.{
  ℕ, suc, ◌+◌, Bool, true, false, ◌&&◌, ◌||◌, ◌==◌, Option, none, some, List, [], ◌∷◌, ◌++◌, Text,
  any, if◌then◌else◌, length,
}
use insyta_api.Prelude.Int.{ℤ, pos_part, neg_part}
use insyta_api.Llm.{LlmUsage}
use insyta_api.Rubric.{EvaluationResponse, RubricResponse}
use insyta_api.Rubric.Mapping.{MessageVerdict}
use insyta_api.Rubric.Scoring.{ScoreResult, truthy}
use insyta_api.Rubric.Segment.{Segment}
use insyta_api.Reputation.{AgentReputation, UserReputation}
use insyta_api.Report.{ReportSummary}
use insyta_api.Audit.Suggestions.{Suggestion}
use insyta_api.Audit.Notices.{Notification}

-- A message as `_load_messages` gives it, by its number.
pub record AuditMessage : Type 0 where
  pub id : ℕ
  pub seq : ℤ
  pub role : Text
  pub content : Option Text
  pub content_anonymized : Option Text

pub record Conversation : Type 0 where
  pub id : ℕ
  pub project_id : ℕ
  pub org_id : ℕ
  pub agent_id : ℕ
  pub external_id : Text
  pub contact_name : Option Text
  pub preview : Option Text
  pub messages : List AuditMessage

-- What `_persist_rubric_columns` writes; the columns that repeat fields of these are left out.
pub record Reviewed : Type 0 where
  pub rubric : RubricResponse
  pub score : ScoreResult
  pub segment : Segment
  pub is_adversarial : Bool
  pub attack_type : Option Text
  pub attack_repelled : Option Bool

pub record Evaluation : Type 0 where
  pub conversation_id : ℕ
  pub project_id : ℕ
  pub org_id : ℕ
  pub agent_id : ℕ
  pub parsed : EvaluationResponse
  pub usage : LlmUsage
  pub reviewed : Option Reviewed

pub record MessageEvaluation : Type 0 where
  pub message_id : ℕ
  pub conversation_id : ℕ
  pub audit_id : ℕ
  pub project_id : ℕ
  pub org_id : ℕ
  pub verdict : MessageVerdict

pub record Improvement : Type 0 where
  pub flow_id : ℕ
  pub audit_id : ℕ
  pub suggestion : Suggestion
  pub conversations : List ℕ

pub data AuditStatus : Type 0 where
  running active failed : AuditStatus

-- The columns of the audit's own row that the worker writes.
pub record AuditRow : Type 0 where
  pub status : AuditStatus
  pub conversation_count : ℕ
  pub evaluated_count : ℕ
  pub suggestions : List Suggestion
  pub report_summary : Option (ReportSummary × ℕ)
  pub finished_at : Option ℕ
  pub error_message : Option Text

-- The tables.
pub record Tables (F : Type 0) : Type 0 where
  pub audit : AuditRow
  pub conversations : List Conversation
  pub evaluations : List Evaluation
  pub message_evaluations : List MessageEvaluation
  pub agents : List (AgentReputation F)
  pub users : List UserReputation
  pub improvements : List Improvement
  pub notifications : List Notification

-- `session.get(Conversation, id)`
unfoldable pub find_conversation : ℕ → List Conversation → Option Conversation
find_conversation id [] = none
find_conversation id (c ∷ cs) = if c.id == id then some c else find_conversation id cs

-- `select(Evaluation.id).where(conversation_id == …)` finds a row.
unfoldable pub has_evaluation : ℕ → List Evaluation → Bool
has_evaluation id es = any (λ (e : Evaluation). e.conversation_id == id) es

-- The insert of `_persist_conversation_eval`, which does nothing on a conflict.
unfoldable pub persist_conversation_eval : Evaluation → List Evaluation → List Evaluation
unfolding has_evaluation
persist_conversation_eval e es = if has_evaluation e.conversation_id es then es else e ∷ es

-- The update of `_persist_rubric_columns`.
unfoldable pub persist_rubric_columns : ℕ → Reviewed → List Evaluation → List Evaluation
persist_rubric_columns id r [] = []
persist_rubric_columns id r (e ∷ es) =
    let rest = persist_rubric_columns id r es in
    if e.conversation_id == id then (record e { reviewed = some r }) ∷ rest else e ∷ rest

abbrev pub eq_ℤ : ℤ → ℤ → Bool
eq_ℤ a b = pos_part a + neg_part b == pos_part b + neg_part a

-- `{m["seq"]: m for m in msgs}.get(seq)`: the last message with the number.
unfoldable pub message_at : ℤ → List AuditMessage → Option AuditMessage
message_at seq [] = none
message_at seq (m ∷ ms) = elim (message_at seq ms) [
  | some later ↦ some later
  | none ↦ if eq_ℤ m.seq seq then some m else none
]

-- `rows`: the verdicts on messages of the conversation.
unfoldable pub rows_for : ℕ → Conversation → List MessageVerdict → List MessageEvaluation
unfolding message_at
rows_for audit_id conv [] = []
rows_for audit_id conv (v ∷ vs) =
    let rest = rows_for audit_id conv vs in
    elim (message_at v.seq conv.messages) [
      | none ↦ rest
      | some m ↦
          record {
            message_id = m.id;
            conversation_id = conv.id;
            audit_id = audit_id;
            project_id = conv.project_id;
            org_id = conv.org_id;
            verdict = v;
          }
          ∷ rest
    ]

-- The unique constraint on the audit and the message.
abbrev pub same_target : MessageEvaluation → MessageEvaluation → Bool
same_target a b = a.audit_id == b.audit_id && a.message_id == b.message_id

-- An insert of rows in turn, each unless it conflicts.
unfoldable pub insert_rows :
    List MessageEvaluation → List MessageEvaluation → List MessageEvaluation
insert_rows [] table = table
insert_rows (r ∷ rows) table =
    insert_rows rows (if any (same_target r) table then table else r ∷ table)

-- `_persist_message_evals`: the table, and how many rows were sent.
unfoldable pub persist_message_evals :
    ℕ → Conversation → List MessageVerdict → List MessageEvaluation → List MessageEvaluation × ℕ
unfolding insert_rows rows_for
persist_message_evals audit_id conv verdicts table =
    let rows = rows_for audit_id conv verdicts in (insert_rows rows table, length rows)
