-- ===== src/Lib.antt =====
-- insyta-api, a back end that audits the conversations of LLM agents with their clients.
--
-- The parts and how they interact. A bearer token is turned into a user and an organisation
-- (app/core/auth.py). A file of conversations is uploaded; a worker parses it and writes
-- conversations and messages once for each agent and external id (app/workers/processor.py,
-- app/services/idempotency.py). An LLM judges conversations through a router with a fallback, and
-- a worker retries and stores the answer once (app/llm/router.py, app/workers/evaluator.py). The
-- answer is mapped to a rubric, the rubric to a score with vetoes, the score and the flags to a
-- segment (app/services/rubric_mapping.py, rubric_scoring.py, segmentation.py). An audit
-- (app/workers/audit.py) puts these together: for each conversation it evaluates, judges each
-- message, guards the verdicts against invented facts (verdict_grounding.py), looks for frauds,
-- attacks, invented prices and invalid CBUs (fraud.py, validators/), scores, and updates the
-- reputations; then it draws the control charts, the report, the suggestions and the notifications
-- (reputation.py, spc.py, report_metrics.py, notifications.py). The deterministic validators supply
-- the flags that no confidence can waive.
-- Deleting marks rows and cascades by hand (app/services/soft_delete.py).
--
-- Which file models what:
-- - Prelude: lists, texts, tests and rounding that the other files share. `round_div` is
--   Python's and Decimal's rounding of the middle to even; `Unicode` is what the program reads of
--   the character database; `strip` and `lower_text` are the methods of str.
-- - Validators/Cbu: validate_cbu, find_cbus, has_invalid_cbu, validate_alias of
--   app/services/validators/cbu.py.
-- - Spc: compute_baseline, check_rules, detect_drift and trend of app/services/spc.py. The floats
--   are an ordered type with the statistics as parameters; each rule is one loop over the points.
-- - Rubric: the schemas of app/llm/schemas.py and the verdict of app/llm/audit_judge.py;
--   Rubric/Scoring: compute_scores; Rubric/Mapping: map_eval_to_rubric; Rubric/Segment:
--   derive_segment.
-- - Report: build_report_summary of app/services/report_metrics.py.
-- - Regex: expressions of the re module as trees, with a matcher that gives the ends of a match in
--   the order of preference; the expressions of the program are values of it. Regex/Relation has
--   the matches as a relation, Regex/Search what a search and a scan find.
-- - Grounding: app/services/verdict_grounding.py.
-- - Validators/Amounts: the JSON values and floats that the price validators read;
--   Validators/Quotes: validators/quotes.py; Validators/Prices: validators/prices.py.
-- - Signals: the turns of one side; Signals/Phrases, Signals/Fraud: app/services/fraud.py;
--   Signals/AttackPhrases, Signals/Adversarial: validators/adversarial.py.
-- - Audit: app/workers/audit.py. Audit/Tables: the rows and the inserts; Audit/Context: the texts
--   for the models; Audit/Review: _det_veto and the deterministic part of a turn;
--   Audit/Conversation: the counters and examples; Audit/Step: one conversation and the loop;
--   Audit/Plan: what a run is given, and the reads and writes in bulk; Audit/Run: _run and
--   run_audit; Audit/Counter: Counter; Audit/Suggestions: _build_suggestions and _flowless_stats;
--   Audit/Notices: app/services/notifications.py.
-- - Reputation: the updates of app/services/reputation.py on lists of rows; SHA-256 is a parameter.
-- - Llm: app/llm/router.py. A call is a state transformer that counts the requests sent; the n-th
--   request to a service is answered by `answers n`. Costs are integers in millionths of a dollar.
-- - Judge: _build_user_prompt, the engines, the chain and _parse of app/llm/audit_judge.py.
-- - Evaluator: _persist_evaluation and _run_eval of app/workers/evaluator.py.
-- - Upload: the tables; Upload/Idempotency: upsert_conversation_idempotent; Upload/Contact:
--   _phone_from_external; Upload/Processor: the load, the rows and process_conversations;
--   Upload/Worker: _run and _run_and_dispose. State is passed as the tables `Store`.
-- - Parsers: wati.py, respondio.py and custom.py of app/workers/parsers, from the rows of the csv
--   module on; an error is `none`. Parsers/Instants, Parsers/WhatsApp: whatsapp.py, from the decoded
--   text on. Any such parser is an argument of Upload/Worker.
-- - SoftDelete: the cascades over one list of rows of all tables.
-- - Auth: the claims; Auth/Token: the decoding and the cache of keys; Auth/User:
--   get_current_user and get_token_identity. The state is the cache of keys.
--
-- Numbers. Scores are integers, averages of dimension scores and confidences are in hundredths,
-- and so are reputations; where Python computes with floats that have these values exactly or
-- rounds to them, the model rounds once, from the middle to even. Identifiers and instants are
-- natural numbers, and a new identifier is an argument.
--
-- Loops are structural recursions over the points, rows, conversations or digits; the three attempts
-- of an evaluation and the ten rounds of the search for a sum are counters. The matcher and the scan
-- of Regex have the length of the text for fuel: each round takes a character, so no more rounds can
-- do anything. An exception is a value: `Result` in Llm, `Run` in Upload, `Outcome` and
-- `Step` in Auth, `Attempt` in Audit, `Option` elsewhere.
--
-- Parameters, for code outside the repository: the answers of the LLM services and of the key
-- service, json.loads with the schema validation, the verification of a token, the hash and float
-- functions, uuid.UUID, datetime.fromisoformat, the cells of the csv module, failing transactions.
-- The parser of a platform and the anonymizer are arguments of the upload worker. The letters that
-- IGNORECASE takes for the same, the digits of isdigit that are not decimal, the decoding of Base64,
-- json.dumps and str of a number are parameters; floats are taken finite. An audit is given the
-- outcomes of the evaluation, the judge and the two generators of suggestions, the keys, the flow
-- and the company texts it has read.
--
-- Not modelled: the HTTP routers, the anonymizer, the prompts and the merge of the flow audit, the
-- SLA and multimodal validators, the client profile, the text of reports, tracing, logs and the
-- figures that only they read, sessions and row-level security, errors of the database, the cipher
-- of the stored keys, migrations. Rows marked deleted are not seen by a query, so outside
-- SoftDelete the tables are those of the rows that are not.
pub mod Prelude
pub mod Regex
pub mod Validators
pub mod Signals
pub mod Spc
pub mod Rubric
pub mod Report
pub mod Reputation
pub mod Llm
pub mod Evaluator
pub mod Upload
pub mod SoftDelete
pub mod Audit
pub mod Auth
pub mod Parsers
pub mod Judge
pub mod Grounding
