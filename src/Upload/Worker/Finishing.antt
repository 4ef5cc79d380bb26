-- ===== src/Upload/Worker/Finishing.antt =====
-- The status in which the worker leaves an upload (`_run_and_dispose` of app/workers/processor.py).
use insyta_api.Prelude.{
  ℕ, suc, ◌+◌, ◌%◌, ◌≡◌, refl, ap, ◌⊎◌, inl, inr, true, Option, none, some, List, [], ◌∷◌, ◌==◌,
  Text, length, take, arith, Bool-cases, Option-cases,
}
use insyta_api.Upload.{Upload, ConversationDto, Store, completed, failed}
use insyta_api.Upload.Processor.{
  Env, Run, returned, raised, Counters, zero_counters, Summary, Blob, process_one,
  process_conversations, show_progress, set_upload_status, find_upload, load_upload_blob,
}
use insyta_api.Upload.Processor.Counting.{process_conversations-Counted}
use insyta_api.Upload.Worker.{
  no_conversations, complete, write_upload, mark_empty, mark_processing, mark_completed,
  mark_failed, run_parsed, run, dispose, run_and_dispose,
}

find_upload-set :
    (id : ℕ) (fields : Upload → Upload) (x : Upload) (us : List Upload)
    → ((y : Upload) → (fields y).id ≡ y.id)
    → find_upload id us ≡ some x
    → find_upload id (set_upload_status id fields us) ≡ some (fields x)
unfolding find_upload set_upload_status
find_upload-set id fields x [] same h = ground (arith, h)
find_upload-set id fields x (y ∷ us) same h =
    let rest = find_upload-set id fields x us same in
    elim (Bool-cases (y.id == id)) [
      | inl t ↦
          let e : y ≡ x = ground (arith, t, h) in
          let k = same y in
          let t' : ((fields y).id == id) ≡ true = rw k t in
          rw (t, find_upload, set_upload_status)
            (rw (t', find_upload) (ap (λ z. some (fields z)) e))
      | inr f ↦
          rw (f, find_upload, set_upload_status) (rw (f, find_upload) (rest (ground (arith, f, h))))
    ]

module _ (env : Env) where
  process_one-uploads :
      (id project org agent upload : ℕ) (dto : ConversationDto) (n : Counters) (s : Store)
      → (process_one env id project org agent upload dto n s).1.uploads ≡ s.uploads
  unfolding process_one
  process_one-uploads id project org agent upload dto n s = ground arith

  -- The upload is as it was but for its progress.
  abbrev Advanced : ℕ → Upload → Store → Type 0
  Advanced id x s =
      (r : Option ℕ) × (find_upload id s.uploads ≡ some (record x { rows_processed = r }))

  show_progress-Advanced :
      (i id : ℕ) (n : Counters) (x : Upload) (s : Store)
      → Advanced id x s
      → Advanced id x (show_progress env i id n s)
  unfolding show_progress
  show_progress-Advanced i id n x s (r, h) = elim (Bool-cases (suc i % 5 == 0)) [
    | inl t ↦ (
      some (n.new_conversations + n.duplicate_conversations),
      rw (t, show_progress)
          (find_upload-set id
            (λ y. record y {
              rows_processed = some (n.new_conversations + n.duplicate_conversations);
            })
            (record x { rows_processed = r }) s.uploads (λ y. refl) h),
    )
    | inr f ↦ (r, rw (f, show_progress) h)
  ]

  process_conversations-Advanced :
      (project org agent id i : ℕ) (dtos : List ConversationDto) (n : Counters) (x : Upload)
      (s : Store)
      → Advanced id x s
      → Advanced id x (process_conversations env project org agent id i dtos n s).1
  unfolding process_conversations
  process_conversations-Advanced project org agent id i [] n x s h = h
  process_conversations-Advanced project org agent id i (dto ∷ dtos) n x s h =
      let (m, t) = process_one env (env.fresh i) project org agent id dto n s in
      let same = process_one-uploads (env.fresh i) project org agent id dto n s in
      let h' : Advanced id x t = rw same h in
      let rest =
        process_conversations-Advanced project org agent id (suc i) dtos m x
          (show_progress env i id m t) (show_progress-Advanced i id m x t h') in
      elim (Option-cases (env.crash i)) [
        | inl e ↦ rw (e, process_conversations) rest
        | inr (message, e) ↦ rw (e, process_conversations) h
      ]

-- How an upload `x` is left, as `y`, by a run that returned.
abbrev pub Processed : Summary → Upload → Type 0
Processed summary y = elim summary.counters [
  | none ↦ (y.status ≡ failed) × (y.rows_total ≡ some 0) × (y.error_message ≡ some no_conversations)
  | some n ↦
      (y.status ≡ completed)
      × (y.raw_content ≡ none)
      × (y.rows_total ≡ some summary.parsed_conversations)
      × (y.rows_processed ≡ some summary.parsed_conversations)
]

-- How an upload `x` is left, as `y`, by the worker.
abbrev pub Finished : Upload → Run Summary → Upload → Type 0
Finished x (returned summary) y = Processed summary y
Finished x (raised message) y =
    (y.status ≡ failed)
    × (y.error_message ≡ some (take 1000 message))
    × (y.raw_content ≡ x.raw_content)

-- What `_run` leaves for `_run_and_dispose`.
abbrev Ran : Upload → Run Summary → Upload → Type 0
Ran x (returned summary) y = Processed summary y
Ran x (raised message) y = y.raw_content ≡ x.raw_content

Run-cases :
    {A : Type 0} (r : Run A)
    → ((a : A) × (r ≡ returned a)) ⊎ ((message : Text) × (r ≡ raised message))
Run-cases (returned a) = inl (a, refl)
Run-cases (raised message) = inr (message, refl)

module _ (env : Env) where
  -- The table holds the upload as a run left it.
  abbrev Holds :
      (Upload → Run Summary → Upload → Type 0) → ℕ → Upload → Run Summary × Store → Type 0
  Holds P id x (result, s) = (y : Upload) × (find_upload id s.uploads ≡ some y) × P x result y

  complete-Ran :
      (id total : ℕ) (x x' : Upload) (r : Run Counters × Store)
      → x'.raw_content ≡ x.raw_content
      → x'.rows_total ≡ some total
      → Advanced env id x' r.1
      → ((n : Counters) (s : Store)
          → r ≡ (returned n, s)
          → n.new_conversations + n.duplicate_conversations ≡ total)
      → Holds Ran id x (complete env id total r)
  unfolding complete write_upload
  complete-Ran id total x x' (raised message, s) bytes rows (r, found) counted =
      (record x' { rows_processed = r }, found, bytes)
  complete-Ran id total x x' (returned n, s) bytes rows (r, found) counted = (
    mark_completed env.now n (record x' { rows_processed = r }),
    find_upload-set id (mark_completed env.now n) (record x' { rows_processed = r }) s.uploads
        (λ y. refl) found,
    (refl, refl, rows, ap some (counted n s refl)),
  )

  run_parsed-Ran :
      (id : ℕ) (blob : Blob) (dtos : List ConversationDto) (s : Store) (x : Upload)
      → find_upload id s.uploads ≡ some x
      → Holds Ran id x (run_parsed env id blob dtos s)
  unfolding run_parsed write_upload
  run_parsed-Ran id blob [] s x h = (
    mark_empty env.now x,
    find_upload-set id (mark_empty env.now) x s.uploads (λ y. refl) h,
    (refl, refl, refl),
  )
  run_parsed-Ran id blob (dto ∷ dtos) s x h =
      let total = length (dto ∷ dtos) in
      let x' = mark_processing env.now total x in
      let started = write_upload id (mark_processing env.now total) s in
      let h' = find_upload-set id (mark_processing env.now total) x s.uploads (λ y. refl) h in
      let r =
        process_conversations env blob.project_id blob.org_id blob.agent_id id 0 (dto ∷ dtos)
          zero_counters started in
      let (rows, advanced) =
        process_conversations-Advanced env blob.project_id blob.org_id blob.agent_id id 0
          (dto ∷ dtos) zero_counters x' started (some 0, h') in
      complete-Ran id total x x' r refl refl (rows, advanced)
        (λ n t e.
          let (counted, all) =
            process_conversations-Counted env blob.project_id blob.org_id blob.agent_id id 0
              (dto ∷ dtos) zero_counters started started n t (omega arith, omega arith) e in
          omega (arith, all))

  run-Ran :
      (id : ℕ) (s : Store) (x : Upload)
      → find_upload id s.uploads ≡ some x
      → Holds Ran id x (run env id s)
  unfolding run
  run-Ran id s x h = elim (Run-cases (load_upload_blob env id s.uploads)) [
    | inr (message, e) ↦ rw (e, run) (x, h, refl)
    | inl (blob, e) ↦ elim (Run-cases (env.parser blob.platform blob.csv_bytes)) [
      | inr (message, q) ↦ rw (e, run) (rw (q, run) (x, h, refl))
      | inl (dtos, q) ↦ rw (e, run) (rw (q, run) (run_parsed-Ran id blob dtos s x h))
    ]
  ]

  dispose-Finished :
      (id : ℕ) (x : Upload) (r : Run Summary × Store)
      → Holds Ran id x r
      → Holds Finished id x (dispose env id r)
  unfolding dispose write_upload
  dispose-Finished id x (returned summary, s) h = h
  dispose-Finished id x (raised message, s) (y, found, bytes) = (
    mark_failed env.now message y,
    find_upload-set id (mark_failed env.now message) y s.uploads (λ z. refl) found,
    (refl, refl, bytes),
  )

  -- Whatever the parser and the transactions of the conversations do, the worker leaves an upload of the
  -- table completed or failed. It is completed if the run returned counters: then the file's
  -- bytes are gone and the processed rows are all the parsed conversations. It is failed if the
  -- run found no conversation or raised: then it has the error, and after a raise still the bytes.
  pub run_and_dispose-Finished :
      (id : ℕ) (s : Store) (x : Upload)
      → find_upload id s.uploads ≡ some x
      → let (result, s') = run_and_dispose env id s in
        (y : Upload) × (find_upload id s'.uploads ≡ some y) × Finished x result y
  unfolding run_and_dispose
  run_and_dispose-Finished id s x h = dispose-Finished id x (run env id s) (run-Ran id s x h)
