-- ===== src/Upload/Tests.antt =====
-- The theorems on uploads at a concrete file of two conversations, one of which is known.
use insyta_api.Prelude.{arith, ◌+◌, ◌≡◌, refl, none, some, List, [], ◌∷◌, txt, ascii, length}
use insyta_api.Upload.{Upload, Conversation, ConversationDto, MessageDto, Store, pending}
use insyta_api.Upload.Idempotency.{upsert_conversation_idempotent, find_existing}
use insyta_api.Upload.Idempotency.Uniqueness.{Unique, upsert-Unique}
use insyta_api.Upload.Processor.{
  Env, Run, returned, Counters, zero_counters, process_conversations, find_upload,
}
use insyta_api.Upload.Processor.Counting.{process_conversations_counts}
use insyta_api.Upload.Processor.Repetition.{process_conversations-process_conversations}
use insyta_api.Upload.Contact.{phone_from_external}
use insyta_api.Upload.Contact.Phone.{Regular, phone_from_external_idem}
use insyta_api.Upload.Worker.{run_and_dispose}
use insyta_api.Upload.Worker.Finishing.{run_and_dispose-Finished, Finished}

abbrev known : Conversation
known = record {
  id = 1;
  agent_id = 7;
  external_id = txt "549";
  project_id = 3;
  org_id = 2;
  platform = txt "custom_sdk";
  started_at = none;
  upload_id = none;
  preview = none;
  message_count = 0;
  status = txt "active";
  contact_name = none;
  contact_phone = none;
  ended_at = none;
}

abbrev newer : Conversation
newer = record known { id = 2; project_id = 4; external_id = txt "550" }

upsert-Unique_example :
    let (got, was_new, cs) = upsert_conversation_idempotent newer (known ∷ []) in
    Unique cs × (find_existing newer cs ≡ some got)
unfolding find_existing
upsert-Unique_example = upsert-Unique newer (known ∷ []) (refl, tt)

abbrev greeting : MessageDto
greeting = record { role = txt "user"; content = txt "hola"; timestamp = 5 }

abbrev old_chat : ConversationDto
old_chat = record {
  external_id = txt "549";
  platform = txt "custom_sdk";
  started_at = some 5;
  contact_name = none;
  contact_phone = none;
  messages = greeting ∷ greeting ∷ [];
}

abbrev new_chat : ConversationDto
new_chat = record old_chat { external_id = txt "+54 9 11 5555-0000" }

abbrev chats : List ConversationDto
chats = old_chat ∷ new_chat ∷ []

abbrev env : Env
env = record {
  unicode = ascii;
  show = λ n. [];
  anonymize = λ t. txt "[X]";
  parser = λ platform bytes. returned chats;
  fresh = λ i. 10 + i;
  crash = λ i. none;
  now = 99;
}

abbrev a_file : Upload
a_file = record {
  id = 4;
  org_id = 2;
  project_id = 3;
  agent_id = some 7;
  filename = txt "chats.csv";
  raw_content = some (txt "csv");
  status = pending;
  rows_total = none;
  rows_processed = none;
  error_message = none;
  started_at = none;
  finished_at = none;
}

abbrev tables : Store
tables = record { uploads = a_file ∷ []; conversations = known ∷ []; messages = [] }

abbrev first_run : Run Counters × Store
first_run = process_conversations env 3 2 7 4 0 chats zero_counters tables

abbrev counted : Counters
counted = record { new_conversations = 1; duplicate_conversations = 1; messages_persisted = 2 }

process_conversations_counts_example :
    (length first_run.1.conversations ≡ 2)
    × (length first_run.1.messages ≡ 2)
    × (counted.new_conversations + counted.duplicate_conversations ≡ 2)
unfolding process_conversations
process_conversations_counts_example =
    process_conversations_counts env 3 2 7 4 chats tables counted first_run.1 refl

abbrev second_run : Run Counters × Store
second_run = process_conversations env 3 2 7 5 0 chats zero_counters first_run.1

abbrev all_known : Counters
all_known = record { new_conversations = 0; duplicate_conversations = 2; messages_persisted = 0 }

process_conversations-process_conversations_example :
    ((second_run.1.conversations ≡ first_run.1.conversations)
      × (second_run.1.messages ≡ first_run.1.messages))
    × (all_known.new_conversations ≡ 0)
    × (all_known.duplicate_conversations ≡ 2)
unfolding process_conversations
process_conversations-process_conversations_example =
    process_conversations-process_conversations env 7 3 2 4 3 2 5 chats tables first_run.1
      second_run.1 counted all_known refl refl

run_and_dispose-Finished_example :
    let (result, s) = run_and_dispose env 4 tables in
    (y : Upload) × (find_upload 4 s.uploads ≡ some y) × Finished a_file result y
unfolding find_upload
run_and_dispose-Finished_example = run_and_dispose-Finished env 4 tables a_file refl

ascii-Regular : Regular ascii
ascii-Regular = record {
  digit_graphic = λ c h. ground arith;
  plus_graphic = refl;
  plus_digit = refl;
}

phone_from_external_idem_example :
    phone_from_external ascii (txt "+5491155550000") ≡ some (txt "+5491155550000")
unfolding phone_from_external
phone_from_external_idem_example =
    phone_from_external_idem ascii ascii-Regular (txt " +54 9 (11) 5555-0000")
      (txt "+5491155550000") refl
