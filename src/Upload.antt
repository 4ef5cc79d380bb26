-- ===== src/Upload.antt =====
-- app/models/uploads.py, app/models/tenancy.py and app/workers/parsers/base.py: uploads,
-- conversations and messages as the upload worker reads and writes them. Identifiers and instants
-- are numbers; `public_id` and columns that the worker does not write are left out.
pub mod Idempotency
pub mod Contact
pub mod Processor
pub mod Worker
mod Tests
use insyta_api.Prelude.{ℕ, Option, List, Text}

-- `Upload.status`
pub data UploadStatus : Type 0 where
  pending processing completed failed : UploadStatus

-- A row of `uploads`.
pub record Upload : Type 0 where
  pub id : ℕ
  pub org_id : ℕ
  pub project_id : ℕ
  pub agent_id : Option ℕ
  pub filename : Text
  pub raw_content : Option Text
  pub status : UploadStatus
  pub rows_total : Option ℕ
  pub rows_processed : Option ℕ
  pub error_message : Option Text
  pub started_at : Option ℕ
  pub finished_at : Option ℕ

-- A row of `conversations`.
pub record Conversation : Type 0 where
  pub id : ℕ
  pub agent_id : ℕ
  pub external_id : Text
  pub project_id : ℕ
  pub org_id : ℕ
  pub platform : Text
  pub started_at : Option ℕ
  pub upload_id : Option ℕ
  pub preview : Option Text
  pub message_count : ℕ
  pub status : Text
  pub contact_name : Option Text
  pub contact_phone : Option Text
  pub ended_at : Option ℕ

-- A row of `messages`.
pub record Message : Type 0 where
  pub conversation_id : ℕ
  pub project_id : ℕ
  pub org_id : ℕ
  pub seq : ℕ
  pub role : Text
  pub content : Text
  pub content_anonymized : Option Text
  pub timestamp : ℕ

pub record MessageDto : Type 0 where
  pub role : Text
  pub content : Text
  pub timestamp : ℕ

pub record ConversationDto : Type 0 where
  pub external_id : Text
  pub platform : Text
  pub started_at : Option ℕ
  pub contact_name : Option Text
  pub contact_phone : Option Text
  pub messages : List MessageDto

-- The tables that the worker writes.
pub record Store : Type 0 where
  pub uploads : List Upload
  pub conversations : List Conversation
  pub messages : List Message
