-- ===== src/Upload/Worker.antt =====
-- app/workers/processor.py: `_run` and `_run_and_dispose`, the statuses that an upload goes through.
-- The updates of the status are taken to succeed.
pub mod Finishing
use insyta_api.Prelude.{ℕ, ◌+◌, Option, none, some, List, [], ◌∷◌, Text, txt, Unicode, length, take}
use insyta_api.Upload.{Upload, ConversationDto, Store, UploadStatus, processing, completed, failed}
use insyta_api.Upload.Processor.{
  Run, returned, raised, Counters, zero_counters, Summary, Blob, Env, load_upload_blob,
  process_conversations, set_upload_status,
}

abbrev pub no_conversations : Text
no_conversations =
    txt
      "No se detectaron conversaciones. El CSV debe tener columnas: conversation_id, role, content, timestamp."

-- A status update of the upload in the tables.
unfoldable pub write_upload : ℕ → (Upload → Upload) → Store → Store
unfolding set_upload_status
write_upload id fields s = record s { uploads = set_upload_status id fields s.uploads }

-- The fields of the four updates.
abbrev pub mark_empty : ℕ → Upload → Upload
mark_empty now x = record x {
  status = failed;
  rows_total = some 0;
  rows_processed = some 0;
  error_message = some no_conversations;
  finished_at = some now;
}

abbrev pub mark_processing : ℕ → ℕ → Upload → Upload
mark_processing now total x = record x {
  status = processing;
  rows_total = some total;
  rows_processed = some 0;
  started_at = some now;
}

abbrev pub mark_completed : ℕ → Counters → Upload → Upload
mark_completed now n x = record x {
  status = completed;
  rows_processed = some (n.new_conversations + n.duplicate_conversations);
  finished_at = some now;
  raw_content = none;
}

abbrev pub mark_failed : ℕ → Text → Upload → Upload
mark_failed now message x = record x {
  status = failed;
  error_message = some (take 1000 message);
  finished_at = some now;
}

module _ (env : Env) where
  -- The end of `_run`, after the conversations.
  unfoldable pub complete : (id total : ℕ) → Run Counters × Store → Run Summary × Store
  unfolding write_upload
  complete id total (raised message, s) = (raised message, s)
  complete id total (returned n, s) = (
    returned (record { counters = some n; parsed_conversations = total }),
    write_upload id (mark_completed env.now n) s,
  )

  -- `_run` after the parsing.
  unfoldable pub run_parsed : ℕ → Blob → List ConversationDto → Store → Run Summary × Store
  unfolding process_conversations write_upload complete
  run_parsed id blob [] s = (
    returned (record { counters = none; parsed_conversations = 0 }),
    write_upload id (mark_empty env.now) s,
  )
  run_parsed id blob (dto ∷ dtos) s =
      let total = length (dto ∷ dtos) in
      complete id total (
        process_conversations env blob.project_id blob.org_id blob.agent_id id 0 (dto ∷ dtos)
          zero_counters (write_upload id (mark_processing env.now total) s))

  -- `_run`
  unfoldable pub run : ℕ → Store → Run Summary × Store
  unfolding load_upload_blob run_parsed
  run id s = elim (load_upload_blob env id s.uploads) [
    | raised message ↦ (raised message, s)
    | returned blob ↦ elim (env.parser blob.platform blob.csv_bytes) [
      | raised message ↦ (raised message, s)
      | returned dtos ↦ run_parsed id blob dtos s
    ]
  ]

  -- The handlers of `_run_and_dispose`.
  unfoldable pub dispose : ℕ → Run Summary × Store → Run Summary × Store
  unfolding write_upload
  dispose id (returned summary, s) = (returned summary, s)
  dispose id (raised message, s) = (raised message, write_upload id (mark_failed env.now message) s)

  -- `_run_and_dispose`
  unfoldable pub run_and_dispose : ℕ → Store → Run Summary × Store
  unfolding run dispose
  run_and_dispose id s = dispose id (run id s)
