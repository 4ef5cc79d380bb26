-- ===== src/SoftDelete.antt =====
-- app/services/soft_delete.py and `SoftDeleteMixin` of app/models/base.py: deleting marks rows. The
-- rows of all tables are one list; a row keeps the columns that the cascades read.
pub mod Cascade
mod Tests
use insyta_api.Prelude.{
  ℕ, Bool, true, false, ◌&&◌, ◌||◌, not, Option, none, some, List, [], ◌∷◌, ◌==◌, if◌then◌else◌,
  any,
}

-- The models that have `SoftDeleteMixin`.
pub data Table : Type 0 where
  project agent conversation message evaluation upload flow flow_version audit : Table
  audit_conversation message_evaluation improvement improvement_conversation supervisor : Table
  agent_reputation user_reputation notification : Table

abbrev pub table_no : Table → ℕ
table_no project = 0
table_no agent = 1
table_no conversation = 2
table_no message = 3
table_no evaluation = 4
table_no upload = 5
table_no flow = 6
table_no flow_version = 7
table_no audit = 8
table_no audit_conversation = 9
table_no message_evaluation = 10
table_no improvement = 11
table_no improvement_conversation = 12
table_no supervisor = 13
table_no agent_reputation = 14
table_no user_reputation = 15
table_no notification = 16

-- The columns of a row that deleting does not change; a column that the table has not is `none`.
pub record Key : Type 0 where
  pub table : Table
  pub id : ℕ
  pub project_id : Option ℕ
  pub conversation_id : Option ℕ
  pub upload_id : Option ℕ
  pub flow_id : Option ℕ
  pub improvement_id : Option ℕ

pub record Row : Type 0 where
  pub key : Key
  pub is_deleted : Bool
  pub deleted_at : Option ℕ

abbrev pub is_table : Table → Key → Bool
is_table t k = table_no k.table == table_no t

-- `column == id` and `column.in_(ids)` in SQL: NULL is never equal.
abbrev pub is_id : Option ℕ → ℕ → Bool
is_id none id = false
is_id (some c) id = c == id

abbrev pub is_in : Option ℕ → List ℕ → Bool
is_in c ids = any (is_id c) ids

-- `_PROJECT_CHILDREN`
abbrev pub project_children : List Table
project_children =
    agent ∷ conversation ∷ message ∷ evaluation ∷ upload ∷ flow ∷ flow_version ∷ audit
    ∷ audit_conversation ∷ message_evaluation ∷ improvement ∷ improvement_conversation ∷ supervisor
    ∷ agent_reputation ∷ user_reputation ∷ []

-- `_CONVERSATION_CHILDREN`
abbrev pub conversation_children : List Table
conversation_children =
    message ∷ evaluation ∷ audit_conversation ∷ message_evaluation ∷ improvement_conversation ∷ []

abbrev pub mark : ℕ → Row → Row
mark now r = record r { is_deleted = true; deleted_at = some now }

-- `_flag`, on the rows of the given table.
unfoldable pub flag_where : ℕ → (Key → Bool) → List Row → List Row
flag_where now p [] = []
flag_where now p (r ∷ rs) =
    (if p r.key && not r.is_deleted then mark now r else r) ∷ flag_where now p rs

unfoldable pub flag_rows : ℕ → Table → (Key → Bool) → List Row → List Row
unfolding flag_where
flag_rows now t p rs = flag_where now (λ k. is_table t k && p k) rs

-- `for model in …: await _flag(…)`
unfoldable pub flag_tables : ℕ → List Table → (Key → Bool) → List Row → List Row
unfolding flag_rows
flag_tables now [] p rs = rs
flag_tables now (t ∷ ts) p rs = flag_tables now ts p (flag_rows now t p rs)

unfoldable pub soft_delete_project : ℕ → ℕ → List Row → List Row
unfolding flag_tables flag_rows
soft_delete_project now id rs =
    flag_rows now project (λ k. k.id == id)
      (flag_tables now project_children (λ k. is_id k.project_id id) rs)

unfoldable pub soft_delete_conversations : ℕ → List ℕ → List Row → List Row
unfolding flag_tables flag_rows
soft_delete_conversations now [] rs = rs
soft_delete_conversations now (id ∷ ids) rs =
    flag_rows now conversation (λ k. is_in (some k.id) (id ∷ ids))
      (flag_tables now conversation_children (λ k. is_in k.conversation_id (id ∷ ids)) rs)

-- `select(model.id).where(…)`, deleted rows included
unfoldable pub select_ids : Table → (Key → Bool) → List Row → List ℕ
select_ids t p [] = []
select_ids t p (r ∷ rs) =
    let rest = select_ids t p rs in if is_table t r.key && p r.key then r.key.id ∷ rest else rest

unfoldable pub soft_delete_upload : ℕ → ℕ → List Row → List Row
unfolding soft_delete_conversations select_ids flag_rows
soft_delete_upload now id rs =
    flag_rows now upload (λ k. k.id == id)
      (soft_delete_conversations now (select_ids conversation (λ k. is_id k.upload_id id) rs) rs)

unfoldable pub soft_delete_supervisor : ℕ → ℕ → List Row → List Row
unfolding flag_rows
soft_delete_supervisor now id rs = flag_rows now supervisor (λ k. k.id == id) rs

-- `if impr_ids:` and its two updates
unfoldable pub flag_improvements : ℕ → List ℕ → List Row → List Row
unfolding flag_rows
flag_improvements now [] rs = rs
flag_improvements now (id ∷ ids) rs =
    flag_rows now improvement (λ k. is_in (some k.id) (id ∷ ids))
      (flag_rows now improvement_conversation (λ k. is_in k.improvement_id (id ∷ ids)) rs)

unfoldable pub soft_delete_flow : ℕ → ℕ → List Row → List Row
unfolding flag_improvements select_ids flag_rows
soft_delete_flow now id rs =
    flag_rows now flow (λ k. k.id == id)
      (flag_rows now flow_version (λ k. is_id k.flow_id id)
        (flag_improvements now (select_ids improvement (λ k. is_id k.flow_id id) rs) rs))
