-- ===== src/SoftDelete/Tests.antt =====
-- The theorems on soft deletes at a concrete set of rows.
use insyta_api.Prelude.{ℕ, false, Option, none, some, List, [], ◌∷◌}
use insyta_api.SoftDelete.{Table, project, conversation, message, upload, notification, Row}

abbrev row : Table → ℕ → Option ℕ → Option ℕ → Option ℕ → Row
row table id project_id conversation_id upload_id = record {
  key = record {
    table = table;
    id = id;
    project_id = project_id;
    conversation_id = conversation_id;
    upload_id = upload_id;
    flow_id = none;
    improvement_id = none;
  };
  is_deleted = false;
  deleted_at = none;
}

abbrev rows : List Row
rows =
    row project 1 none none none
    ∷ row upload 2 (some 1) none none
    ∷ row conversation 3 (some 1) none (some 2)
    ∷ row message 4 (some 1) (some 3) none
    ∷ row notification 5 (some 1) none none
    ∷ row message 6 (some 9) (some 8) none
    ∷ []
