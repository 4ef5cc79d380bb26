-- ===== src/Upload/Idempotency.antt =====
-- app/services/idempotency.py: a conversation is inserted once for each agent and external id.
pub mod Uniqueness
use insyta_api.Prelude.{
  ℕ, Bool, true, false, ◌&&◌, Option, none, some, List, [], ◌∷◌, ◌++◌, ◌==◌, Text, txt, text_eq,
  if◌then◌else◌,
}
use insyta_api.Upload.{Conversation}

-- The `extra` columns that the upload worker passes.
pub record Extra : Type 0 where
  pub preview : Text
  pub message_count : ℕ
  pub status : Text
  pub contact_name : Option Text
  pub contact_phone : Option Text
  pub ended_at : Option ℕ

-- The row built from `values`; a column that is not given has its default.
unfoldable pub values :
    (id agent_id : ℕ) (external_id : Text) (project_id org_id : ℕ) (platform : Text)
    (started_at upload_id : Option ℕ) (extra : Option Extra)
    → Conversation
values id agent_id external_id project_id org_id platform started_at upload_id none = record {
  id = id;
  agent_id = agent_id;
  external_id = external_id;
  project_id = project_id;
  org_id = org_id;
  platform = platform;
  started_at = started_at;
  upload_id = upload_id;
  preview = none;
  message_count = 0;
  status = txt "active";
  contact_name = none;
  contact_phone = none;
  ended_at = none;
}
values id agent_id external_id project_id org_id platform started_at upload_id (some e) = record {
  id = id;
  agent_id = agent_id;
  external_id = external_id;
  project_id = project_id;
  org_id = org_id;
  platform = platform;
  started_at = started_at;
  upload_id = upload_id;
  preview = some e.preview;
  message_count = e.message_count;
  status = e.status;
  contact_name = e.contact_name;
  contact_phone = e.contact_phone;
  ended_at = e.ended_at;
}

-- The key of `uq_conversations_agent_id_external_id`.
unfoldable pub same_key : Conversation → Conversation → Bool
unfolding text_eq
same_key a b = a.agent_id == b.agent_id && text_eq a.external_id b.external_id

-- The re-selection of the row with a key, deleted or not.
unfoldable pub find_existing : Conversation → List Conversation → Option Conversation
unfolding same_key
find_existing row [] = none
find_existing row (c ∷ cs) = if same_key row c then some c else find_existing row cs

-- The row that the caller gets, whether it is new, and the table.
unfoldable pub upsert_conversation_idempotent :
    Conversation → List Conversation → Conversation × Bool × List Conversation
unfolding find_existing
upsert_conversation_idempotent row rows = elim (find_existing row rows) [
  | none ↦ (row, true, rows ++ (row ∷ []))
  | some old ↦ (old, false, rows)
]
