-- ===== src/Upload/Processor/Counting.antt =====
-- What a run over parsed conversations counts and writes.
use insyta_api.Prelude.{
  ℕ, suc, ◌+◌, ◌≡◌, refl, ap, subst, inl, inr, List, [], ◌∷◌, Text, if◌then◌else◌, length,
  length-append, arith, Bool-cases, Option-cases,
}
use insyta_api.Upload.{Conversation, ConversationDto, MessageDto, Store}
use insyta_api.Upload.Idempotency.{upsert_conversation_idempotent, find_existing}
use insyta_api.Upload.Processor.{
  Env, Run, returned, raised, Counters, zero_counters, message_rows, row_of, process_one,
  process_conversations, show_progress,
}

length-message_rows :
    (anonymize : Text → Text) (conv project org seq : ℕ) (ms : List MessageDto)
    → length (message_rows anonymize conv project org seq ms) ≡ length ms
unfolding message_rows
length-message_rows anonymize conv project org seq [] = refl
length-message_rows anonymize conv project org seq (m ∷ ms) =
    ap suc (length-message_rows anonymize conv project org (suc seq) ms)

length-upsert :
    (row : Conversation) (cs : List Conversation)
    → let (got, was_new, cs') = upsert_conversation_idempotent row cs in
      length cs' ≡ length cs + (if was_new then 1 else 0)
unfolding upsert_conversation_idempotent
length-upsert row cs = elim (Option-cases (find_existing row cs)) [
  | inl h ↦ rw (h, upsert_conversation_idempotent) (omega (arith, length-append cs (row ∷ [])))
  | inr (old, h) ↦ rw (h, upsert_conversation_idempotent) (omega arith)
]

-- What the counters say of the tables: how much they have grown since the tables were `s`.
abbrev pub Counted : Store → Counters → Store → Type 0
Counted s n s' =
    (length s'.conversations ≡ length s.conversations + n.new_conversations)
    × (length s'.messages ≡ length s.messages + n.messages_persisted)

module _ (env : Env) where
  abbrev go :
      (project org agent upload i : ℕ)
      → List ConversationDto
      → Counters
      → Store
      → Run Counters × Store
  go = process_conversations env

  pub show_progress-tables :
      (i upload : ℕ) (n : Counters) (s : Store)
      → ((show_progress env i upload n s).conversations ≡ s.conversations)
        × ((show_progress env i upload n s).messages ≡ s.messages)
  unfolding show_progress
  show_progress-tables i upload n s = ground arith

  process_one-Counted :
      (id project org agent upload : ℕ) (dto : ConversationDto) (n : Counters) (s₀ s : Store)
      → Counted s₀ n s
      → let (n', s') = process_one env id project org agent upload dto n s in
        Counted s₀ n' s'
        × (n'.new_conversations + n'.duplicate_conversations
            ≡ suc (n.new_conversations + n.duplicate_conversations))
  unfolding process_one
  process_one-Counted id project org agent upload dto n s₀ s (c, d) =
      let row = row_of env id project org agent upload dto in
      let grown = length-upsert row s.conversations in
      let conv = (upsert_conversation_idempotent row s.conversations).0 in
      let rows = message_rows env.anonymize conv.id project org 0 dto.messages in
      let added = length-append s.messages rows in
      let many = length-message_rows env.anonymize conv.id project org 0 dto.messages in
      elim (Bool-cases ((upsert_conversation_idempotent row s.conversations).1)) [
        | inl t ↦
            let grown' : length (upsert_conversation_idempotent row s.conversations).2
                ≡ suc (length s.conversations) =
              ground (arith, grown, t) in
            rw (t, process_one)
              ((omega (arith, grown', c), omega (arith, added, many, d)), omega arith)
        | inr f ↦
            let grown' : length (upsert_conversation_idempotent row s.conversations).2
                ≡ length s.conversations =
              ground (arith, grown, f) in
            rw (f, process_one) ((omega (arith, grown', c), omega (arith, d)), omega arith)
      ]

  -- The counters of a run that returned.
  abbrev outcome : Counters → Run Counters × Store → Counters × Store
  outcome n (returned n', s) = (n', s)
  outcome n (raised message, s) = (n, s)

  pub process_conversations-Counted :
      (project org agent upload i : ℕ) (dtos : List ConversationDto) (n : Counters) (s₀ s : Store)
      (n' : Counters) (s' : Store)
      → Counted s₀ n s
      → go project org agent upload i dtos n s ≡ (returned n', s')
      → Counted s₀ n' s'
        × (n'.new_conversations + n'.duplicate_conversations
            ≡ n.new_conversations + n.duplicate_conversations + length dtos)
  unfolding process_conversations
  process_conversations-Counted project org agent upload i [] n s₀ s n' s' c h =
      subst
        (λ (p : Counters × Store).
          Counted s₀ p.0 p.1
          × (p.0.new_conversations + p.0.duplicate_conversations
              ≡ n.new_conversations + n.duplicate_conversations + 0))
        (ap (outcome n) h) (c, omega arith)
  process_conversations-Counted project org agent upload i (dto ∷ dtos) n s₀ s n' s' c h =
      let (m, t) = process_one env (env.fresh i) project org agent upload dto n s in
      let (d, more) = process_one-Counted (env.fresh i) project org agent upload dto n s₀ s c in
      let (conversations, messages) = show_progress-tables i upload m t in
      let d' : Counted s₀ m (show_progress env i upload m t) = rw (conversations, messages) d in
      let rest =
        process_conversations-Counted project org agent upload (suc i) dtos m s₀
          (show_progress env i upload m t) n' s' d' in
      elim (Option-cases (env.crash i)) [
        | inl e ↦
            let (counted, total) = rest (ground (arith, e, h)) in
            (counted, omega (arith, more, total))
        | inr (message, e) ↦ ground (arith, e, h)
      ]

  -- A run over parsed conversations that returns has counted each of them, as new or as a
  -- duplicate; the table of conversations has grown by the new ones, and the table of messages by
  -- the messages persisted.
  pub process_conversations_counts :
      (project org agent upload : ℕ) (dtos : List ConversationDto) (s : Store) (n' : Counters)
      (s' : Store)
      → process_conversations env project org agent upload 0 dtos zero_counters s
        ≡ (returned n', s')
      → (length s'.conversations ≡ length s.conversations + n'.new_conversations)
        × (length s'.messages ≡ length s.messages + n'.messages_persisted)
        × (n'.new_conversations + n'.duplicate_conversations ≡ length dtos)
  process_conversations_counts project org agent upload dtos s n' s' h =
      let ((grown, more), all) =
        process_conversations-Counted project org agent upload 0 dtos zero_counters s s n' s'
          (omega arith, omega arith) h in
      (grown, more, omega (arith, all))
