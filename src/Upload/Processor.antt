-- ===== src/Upload/Processor.antt =====
-- app/workers/processor.py: an uploaded file becomes conversations and messages. The parser, the
-- anonymizer and how an identifier prints are parameters; `crash i` is the error that the database
-- raises in the transaction of the i-th conversation, which is then rolled back.
pub mod Counting
pub mod Repetition
use insyta_api.Prelude.{
  ℕ, zero, suc, ◌+◌, ◌-◌, ◌%◌, Bool, true, false, ◌&&◌, ◌||◌, not, Option, none, some, List, [],
  ◌∷◌, ◌++◌, ◌==◌, leb, Text, txt, text_eq, if◌then◌else◌, Unicode, lower_text, strip, length, take,
  drop, last?, is_some, all, map,
}
use insyta_api.Upload.{
  Upload, Conversation, Message, MessageDto, ConversationDto, Store, UploadStatus, pending,
  processing, completed, failed,
}
use insyta_api.Upload.Contact.{phone_from_external}
use insyta_api.Upload.Idempotency.{Extra, values, upsert_conversation_idempotent}

-- A run that returns or raises.
pub data Run {ℓ} (A : Type ℓ) : Type ℓ where
  returned : A → Run A
  raised : Text → Run A

pub record Counters : Type 0 where
  pub new_conversations : ℕ
  pub duplicate_conversations : ℕ
  pub messages_persisted : ℕ

abbrev pub zero_counters : Counters
zero_counters = record {
  new_conversations = 0;
  duplicate_conversations = 0;
  messages_persisted = 0;
}

-- What a run returns: the counters, if there was a conversation to process, and how many.
pub record Summary : Type 0 where
  pub counters : Option Counters
  pub parsed_conversations : ℕ

abbrev pub nonempty : Text → Bool
nonempty [] = false
nonempty (c ∷ s) = true

-- `_preview`
unfoldable pub preview_user : List MessageDto → Option Text
preview_user [] = none
preview_user (m ∷ ms) =
    if text_eq m.role (txt "user") && nonempty m.content
    then some (take 160 m.content)
    else preview_user ms

unfoldable pub preview_any : List MessageDto → Text
preview_any [] = []
preview_any (m ∷ ms) = if nonempty m.content then take 160 m.content else preview_any ms

unfoldable pub preview : List MessageDto → Text
unfolding preview_user preview_any
preview ms = elim (preview_user ms) [ none ↦ preview_any ms | some t ↦ t ]

-- The rows of `_persist_messages`, numbered from `seq`.
unfoldable pub message_rows :
    (Text → Text) → (conversation_id project_id org_id seq : ℕ) → List MessageDto → List Message
message_rows anonymize conv project org seq [] = []
message_rows anonymize conv project org seq (m ∷ ms) =
    record {
      conversation_id = conv;
      project_id = project;
      org_id = org;
      seq = seq;
      role = m.role;
      content = m.content;
      content_anonymized = if nonempty m.content then some (anonymize m.content) else none;
      timestamp = m.timestamp;
    }
    ∷ message_rows anonymize conv project org (suc seq) ms

-- `_set_upload_status`: the fields of the upload with an id are rewritten.
unfoldable pub set_upload_status : ℕ → (Upload → Upload) → List Upload → List Upload
set_upload_status id fields [] = []
set_upload_status id fields (x ∷ xs) =
    (if x.id == id then fields x else x) ∷ set_upload_status id fields xs

unfoldable pub find_upload : ℕ → List Upload → Option Upload
find_upload id [] = none
find_upload id (x ∷ xs) = if x.id == id then some x else find_upload id xs

-- `dto.contact_phone or _phone_from_external(dto.external_id)`
unfoldable pub contact_phone_of : Unicode → ConversationDto → Option Text
unfolding phone_from_external
contact_phone_of u dto = elim dto.contact_phone [
  | none ↦ phone_from_external u dto.external_id
  | some t ↦ if nonempty t then some t else phone_from_external u dto.external_id
]

unfoldable pub ended_at_of : List MessageDto → Option ℕ
ended_at_of ms = elim (last? ms) [ none ↦ none | some m ↦ some m.timestamp ]

-- `platform` of `_load_upload_blob`: a name that ends in ".txt" is a WhatsApp export.
unfoldable pub platform_of : Unicode → Text → Text
unfolding lower_text text_eq
platform_of u filename =
    let name = lower_text u filename in
    if text_eq (drop (length name - 4) name) (txt ".txt") then txt "whatsapp" else txt "custom_sdk"

-- What the processor reads of an upload: `csv_bytes` and the metadata.
pub record Blob : Type 0 where
  pub csv_bytes : Text
  pub platform : Text
  pub project_id : ℕ
  pub org_id : ℕ
  pub agent_id : ℕ

-- What the worker is given: Python's character database, how an identifier prints, the anonymizer,
-- the parser of a platform, the identifier and the crash of the i-th conversation, the clock.
pub record Env : Type 0 where
  pub unicode : Unicode
  pub show : ℕ → Text
  pub anonymize : Text → Text
  pub parser : Text → Text → Run (List ConversationDto)
  pub fresh : ℕ → ℕ
  pub crash : ℕ → Option Text
  pub now : ℕ

module _ (env : Env) where
  -- `_load_upload_blob`
  unfoldable pub load_upload_blob : ℕ → List Upload → Run Blob
  unfolding find_upload platform_of
  load_upload_blob id uploads = elim (find_upload id uploads) [
    | none ↦ raised (txt "upload " ++ (env.show id ++ txt " not found"))
    | some x ↦ elim x.agent_id [
      | none ↦ raised (txt "upload " ++ (env.show id ++ txt " has no agent_id"))
      | some agent ↦ elim x.raw_content [
        | none ↦
            raised (
              txt "upload " ++ (env.show id ++ txt " has no raw_content (CSV vacío o ya limpiado)"))
        | some bytes ↦ returned (record {
          csv_bytes = bytes;
          platform = platform_of env.unicode x.filename;
          project_id = x.project_id;
          org_id = x.org_id;
          agent_id = agent;
        })
      ]
    ]
  ]

  -- The row that a parsed conversation asks for.
  unfoldable pub row_of : (id project org agent : ℕ) (upload : ℕ) → ConversationDto → Conversation
  unfolding values preview contact_phone_of ended_at_of
  row_of id project org agent upload dto =
      values id agent dto.external_id project org dto.platform dto.started_at (some upload) (
        some (record {
          preview = preview dto.messages;
          message_count = length dto.messages;
          status = txt "completed";
          contact_name = dto.contact_name;
          contact_phone = contact_phone_of env.unicode dto;
          ended_at = ended_at_of dto.messages;
        }))

  -- One conversation's transaction: the counters and the tables.
  unfoldable pub process_one :
      (id project org agent upload : ℕ) → ConversationDto → Counters → Store → Counters × Store
  unfolding row_of upsert_conversation_idempotent message_rows
  process_one id project org agent upload dto n s =
      let (conv, was_new, conversations) =
        upsert_conversation_idempotent (row_of id project org agent upload dto) s.conversations in
      if was_new
      then (
        record {
          new_conversations = suc n.new_conversations;
          duplicate_conversations = n.duplicate_conversations;
          messages_persisted = n.messages_persisted + length dto.messages;
        },
        record {
          uploads = s.uploads;
          conversations = conversations;
          messages = s.messages ++ message_rows env.anonymize conv.id project org 0 dto.messages;
        },
      )
      else (
        record {
          new_conversations = n.new_conversations;
          duplicate_conversations = suc n.duplicate_conversations;
          messages_persisted = n.messages_persisted;
        },
        record { uploads = s.uploads; conversations = conversations; messages = s.messages },
      )

  -- The progress that is written after every fifth conversation.
  unfoldable pub show_progress : (i upload : ℕ) → Counters → Store → Store
  unfolding set_upload_status
  show_progress i upload n s =
      if suc i % 5 == 0
      then record s {
        uploads =
            set_upload_status upload
              (λ x. record x {
                rows_processed = some (n.new_conversations + n.duplicate_conversations);
              })
              s.uploads;
      }
      else s

  -- `process_conversations`, from the i-th conversation on.
  unfoldable pub process_conversations :
      (project org agent upload i : ℕ)
      → List ConversationDto
      → Counters
      → Store
      → Run Counters × Store
  unfolding process_one show_progress
  process_conversations project org agent upload i [] n s = (returned n, s)
  process_conversations project org agent upload i (dto ∷ dtos) n s =
      let (n', s') = process_one (env.fresh i) project org agent upload dto n s in
      let rest =
        process_conversations project org agent upload (suc i) dtos n'
          (show_progress i upload n' s') in
      elim (env.crash i) [ none ↦ rest | some message ↦ (raised message, s) ]
