-- ===== src/Upload/Processor/Repetition.antt =====
-- What a second run over the same conversations does (app/workers/processor.py).
use insyta_api.Prelude.{
  ℕ, suc, ◌≡◌, refl, sym, ap, subst, ◌∙◌, inl, inr, true, some, List, [], ◌∷◌, length, All, arith,
  Option-cases,
}
use insyta_api.Upload.{Conversation, ConversationDto, Store}
use insyta_api.Upload.Idempotency.{values, same_key, upsert_conversation_idempotent, find_existing}
use insyta_api.Upload.Idempotency.Uniqueness.{
  same_key_iff, find_existing-same_key, find_existing-skip, find_existing-upsert, upsert-found,
}
use insyta_api.Upload.Processor.{
  Env, Run, returned, Counters, zero_counters, row_of, process_one, process_conversations,
  show_progress,
}
use insyta_api.Upload.Processor.Counting.{show_progress-tables, process_conversations-Counted}

module _ (env : Env) (agent : ℕ) where
  same_key-row :
      (id id' project project' org org' upload upload' : ℕ) (dto : ConversationDto)
      → same_key
          (row_of env id project org agent upload dto)
          (row_of env id' project' org' agent upload' dto)
        ≡ true
  unfolding row_of values
  same_key-row id id' project project' org org' upload upload' dto =
      (same_key_iff (row_of env id project org agent upload dto)
          (row_of env id' project' org' agent upload' dto)).1
        (refl, refl)

  -- The table has a conversation with the key of a parsed one.
  abbrev pub Present : List Conversation → ConversationDto → Type 0
  Present cs dto =
      (old : Conversation) × (find_existing (row_of env 0 0 0 agent 0 dto) cs ≡ some old)

  Present-row :
      (id project org upload : ℕ) (dto : ConversationDto) (cs : List Conversation)
      → Present cs dto
      → (old : Conversation) × (find_existing (row_of env id project org agent upload dto) cs
          ≡ some old)
  Present-row id project org upload dto cs (old, h) = (
    old,
    find_existing-same_key (row_of env id project org agent upload dto)
          (row_of env 0 0 0 agent 0 dto) cs (same_key-row id 0 project 0 org 0 upload 0 dto)
        ∙ h,
  )

  upsert-Present :
      (row : Conversation) (dto : ConversationDto) (cs : List Conversation)
      → Present cs dto
      → Present (upsert_conversation_idempotent row cs).2 dto
  unfolding upsert_conversation_idempotent
  upsert-Present row dto cs (old, h) = elim (Option-cases (find_existing row cs)) [
    | inl e ↦
        rw (e, upsert_conversation_idempotent)
          (old, find_existing-skip (row_of env 0 0 0 agent 0 dto) row cs old h)
    | inr (kept, e) ↦ rw (e, upsert_conversation_idempotent) (old, h)
  ]

  process_one-conversations :
      (id project org upload : ℕ) (dto : ConversationDto) (n : Counters) (s : Store)
      → (process_one env id project org agent upload dto n s).1.conversations
        ≡ (upsert_conversation_idempotent
            (row_of env id project org agent upload dto)
            s.conversations).2
  unfolding process_one
  process_one-conversations id project org upload dto n s = ground arith

  process_one-Present :
      (id project org upload : ℕ) (dto : ConversationDto) (n : Counters) (s : Store)
      → Present (process_one env id project org agent upload dto n s).1.conversations dto
  process_one-Present id project org upload dto n s =
      let row = row_of env id project org agent upload dto in
      let (got, was_new, cs) = upsert_conversation_idempotent row s.conversations in
      rw (process_one-conversations id project org upload dto n s) (
        got,
        find_existing-same_key (row_of env 0 0 0 agent 0 dto) row cs
              (same_key-row 0 id 0 project 0 org 0 upload dto)
            ∙ find_existing-upsert row s.conversations,
      )

  process_one-found :
      (id project org upload : ℕ) (dto : ConversationDto) (n : Counters) (s : Store)
      → Present s.conversations dto
      → process_one env id project org agent upload dto n s
        ≡ (record n { duplicate_conversations = suc n.duplicate_conversations }, s)
  unfolding process_one
  process_one-found id project org upload dto n s here =
      let (old, h) = Present-row id project org upload dto s.conversations here in
      let e = upsert-found (row_of env id project org agent upload dto) s.conversations old h in
      rw (e, process_one) refl

  abbrev go :
      (project org upload i : ℕ) → List ConversationDto → Counters → Store → Run Counters × Store
  go project org upload i = process_conversations env project org agent upload i

  process_conversations-kept :
      (project org upload i : ℕ) (dtos : List ConversationDto) (n : Counters) (s : Store)
      (dto : ConversationDto)
      → Present s.conversations dto
      → Present (go project org upload i dtos n s).1.conversations dto
  unfolding process_conversations
  process_conversations-kept project org upload i [] n s dto h = h
  process_conversations-kept project org upload i (d ∷ dtos) n s dto h =
      let (m, t) = process_one env (env.fresh i) project org agent upload d n s in
      let tables = show_progress-tables env i upload m t in
      let row = row_of env (env.fresh i) project org agent upload d in
      let h' : Present (show_progress env i upload m t).conversations dto = rw (tables.0) (
        rw (process_one-conversations (env.fresh i) project org upload d n s)
          (upsert-Present row dto s.conversations h)) in
      let rest =
        process_conversations-kept project org upload (suc i) dtos m
          (show_progress env i upload m t) dto h' in
      elim (Option-cases (env.crash i)) [
        | inl e ↦ rw (e, process_conversations) rest
        | inr (message, e) ↦ rw (e, process_conversations) h
      ]

  process_conversations-Present :
      (project org upload i : ℕ) (dtos : List ConversationDto) (n : Counters) (s : Store)
      (n' : Counters) (s' : Store)
      → go project org upload i dtos n s ≡ (returned n', s')
      → All (Present s'.conversations) dtos
  unfolding process_conversations
  process_conversations-Present project org upload i [] n s n' s' h = tt
  process_conversations-Present project org upload i (d ∷ dtos) n s n' s' h =
      let (m, t) = process_one env (env.fresh i) project org agent upload d n s in
      let tables = show_progress-tables env i upload m t in
      let here : Present (show_progress env i upload m t).conversations d =
        rw (tables.0) (process_one-Present (env.fresh i) project org upload d n s) in
      let kept =
        process_conversations-kept project org upload (suc i) dtos m
          (show_progress env i upload m t) d here in
      let rest =
        process_conversations-Present project org upload (suc i) dtos m
          (show_progress env i upload m t) n' s' in
      elim (Option-cases (env.crash i)) [
        | inl e ↦
            let h' : go project org upload (suc i) dtos m (show_progress env i upload m t)
                ≡ (returned n', s') =
              ground (arith, e, h) in
            (subst (λ (p : Run Counters × Store). Present p.1.conversations d) h' kept, rest h')
        | inr (message, e) ↦ ground (arith, e, h)
      ]

  -- The tables of conversations and messages are the same in both.
  abbrev pub SameTables : Store → Store → Type 0
  SameTables s s' = (s'.conversations ≡ s.conversations) × (s'.messages ≡ s.messages)

  process_conversations-SameTables :
      (project org upload i : ℕ) (dtos : List ConversationDto) (n : Counters) (s : Store)
      → All (Present s.conversations) dtos
      → SameTables s (go project org upload i dtos n s).1
  unfolding process_conversations
  process_conversations-SameTables project org upload i [] n s all = (refl, refl)
  process_conversations-SameTables project org upload i (d ∷ dtos) n s (here, all) =
      let m : Counters = record n { duplicate_conversations = suc n.duplicate_conversations } in
      let found = process_one-found (env.fresh i) project org upload d n s here in
      let tables = show_progress-tables env i upload m s in
      let all' = subst (λ cs. All (Present cs) dtos) (sym tables.0) all in
      let rest =
        process_conversations-SameTables project org upload (suc i) dtos m
          (show_progress env i upload m s) all' in
      elim (Option-cases (env.crash i)) [
        | inl e ↦
            let step : go project org upload i (d ∷ dtos) n s
                ≡ go project org upload (suc i) dtos m (show_progress env i upload m s) =
              rw (e, process_conversations)
                (ap
                  (λ (p : Counters × Store).
                    go project org upload (suc i) dtos p.0 (show_progress env i upload p.0 p.1))
                  found) in
            rw step (rest.0 ∙ tables.0, rest.1 ∙ tables.1)
        | inr (message, e) ↦ rw (e, process_conversations) (refl, refl)
      ]

  -- After a run over parsed conversations that returned, a run over the same conversations that
  -- returns, for any upload and project of the agent, leaves the tables of conversations and
  -- messages as they are, and has counted no conversation as new and each one as a duplicate.
  pub process_conversations-process_conversations :
      (project org upload project' org' upload' : ℕ) (dtos : List ConversationDto)
      (s s' s'' : Store) (n' n'' : Counters)
      → go project org upload 0 dtos zero_counters s ≡ (returned n', s')
      → go project' org' upload' 0 dtos zero_counters s' ≡ (returned n'', s'')
      → SameTables s' s''
        × (n''.new_conversations ≡ 0)
        × (n''.duplicate_conversations ≡ length dtos)
  process_conversations-process_conversations project org upload project' org' upload' dtos s s' s''
        n' n'' h e =
      let here = process_conversations-Present project org upload 0 dtos zero_counters s n' s' h in
      let same =
        subst (λ (p : Run Counters × Store). SameTables s' p.1) e
          (process_conversations-SameTables project' org' upload' 0 dtos zero_counters s' here) in
      let ((grown, more), all) =
        process_conversations-Counted env project' org' agent upload' 0 dtos zero_counters s' s' n''
          s'' (omega arith, omega arith) e in
      let still = ap length same.0 in
      (same, omega (arith, grown, still), omega (arith, all, grown, still))
