-- ===== src/SoftDelete/Cascade.antt =====
-- The cascades of app/services/soft_delete.py as one pass each.
use insyta_api.Prelude.{
  ℕ, ◌≡◌, refl, sym, ap, ◌∙◌, Bool, false, ◌&&◌, ◌||◌, some, List, [], ◌∷◌, ◌==◌, any, arith,
}
use insyta_api.SoftDelete.{
  Table, project, conversation, message, evaluation, upload, flow, flow_version, audit_conversation,
  message_evaluation, improvement, improvement_conversation, notification, Key, Row, is_table,
  is_id, is_in, project_children, conversation_children, flag_where, flag_rows, flag_tables,
  soft_delete_project, soft_delete_conversations, select_ids, soft_delete_upload, flag_improvements,
  soft_delete_flow,
}

flag_where-ap :
    (now : ℕ) (p q : Key → Bool) (rs : List Row)
    → ((k : Key) → p k ≡ q k)
    → flag_where now p rs ≡ flag_where now q rs
unfolding flag_where
flag_where-ap now p q [] h = refl
flag_where-ap now p q (r ∷ rs) h =
    let e = h r.key in let rest = flag_where-ap now p q rs h in rw (e, rest) refl

-- Two updates at one instant are one.
flag_where-flag_where :
    (now : ℕ) (p q : Key → Bool) (rs : List Row)
    → flag_where now q (flag_where now p rs) ≡ flag_where now (λ k. p k || q k) rs
unfolding flag_where
flag_where-flag_where now p q [] = refl
flag_where-flag_where now p q (r ∷ rs) =
    let rest = flag_where-flag_where now p q rs in ground (arith, rest)

flag_where-none : (now : ℕ) (rs : List Row) → flag_where now (λ k. false) rs ≡ rs
unfolding flag_where
flag_where-none now [] = refl
flag_where-none now (r ∷ rs) = ap (λ x. r ∷ x) (flag_where-none now rs)

distribute : (a b c : Bool) → (a && c || b && c) ≡ ((a || b) && c)
distribute a b c = ground arith

flag_tables_once :
    (now : ℕ) (ts : List Table) (p : Key → Bool) (rs : List Row)
    → flag_tables now ts p rs ≡ flag_where now (λ k. any (λ t. is_table t k) ts && p k) rs
unfolding flag_tables flag_rows
flag_tables_once now [] p rs = sym (flag_where-none now rs)
flag_tables_once now (t ∷ ts) p rs =
    flag_tables_once now ts p (flag_rows now t p rs)
    ∙ flag_where-flag_where now (λ k. is_table t k && p k) (λ k. any (λ x. is_table x k) ts && p k)
        rs
    ∙ flag_where-ap now (λ k. is_table t k && p k || any (λ x. is_table x k) ts && p k)
        (λ k. any (λ x. is_table x k) (t ∷ ts) && p k) rs
        (λ k. distribute (is_table t k) (any (λ x. is_table x k) ts) (p k))

-- The rows that belong to a project.
unfoldable pub belongs : ℕ → Key → Bool
belongs id k = elim k.table [
  | project ↦ k.id == id
  | notification ↦ false
  | _ ↦ is_id k.project_id id
]

belongs_cases :
    (id : ℕ) (k : Key)
    → (any (λ t. is_table t k) project_children && is_id k.project_id id
        || is_table project k && k.id == id)
      ≡ belongs id k
unfolding belongs
belongs_cases id k = ground arith

pub soft_delete_project_once :
    (now id : ℕ) (rs : List Row) → soft_delete_project now id rs ≡ flag_where now (belongs id) rs
unfolding soft_delete_project
soft_delete_project_once now id rs =
    ap (λ x. flag_rows now project (λ k. k.id == id) x)
      (flag_tables_once now project_children (λ k. is_id k.project_id id) rs)
    ∙ flag_where-flag_where now
        (λ k. any (λ t. is_table t k) project_children && is_id k.project_id id)
        (λ k. is_table project k && k.id == id) rs
    ∙ flag_where-ap now
        (λ k.
          any (λ t. is_table t k) project_children && is_id k.project_id id
          || is_table project k && k.id == id)
        (belongs id) rs (belongs_cases id)

-- The rows that hang from one of the conversations, and these.
unfoldable pub hangs : List ℕ → Key → Bool
hangs ids k = elim k.table [
  | conversation ↦ is_in (some k.id) ids
  | message ↦ is_in k.conversation_id ids
  | evaluation ↦ is_in k.conversation_id ids
  | audit_conversation ↦ is_in k.conversation_id ids
  | message_evaluation ↦ is_in k.conversation_id ids
  | improvement_conversation ↦ is_in k.conversation_id ids
  | _ ↦ false
]

hangs_none : (k : Key) → false ≡ hangs [] k
unfolding hangs
hangs_none k = ground arith

hangs_cases :
    (ids : List ℕ) (k : Key)
    → (any (λ t. is_table t k) conversation_children && is_in k.conversation_id ids
        || is_table conversation k && is_in (some k.id) ids)
      ≡ hangs ids k
unfolding hangs
hangs_cases ids k = ground arith

soft_delete_conversations_once :
    (now : ℕ) (ids : List ℕ) (rs : List Row)
    → soft_delete_conversations now ids rs ≡ flag_where now (hangs ids) rs
unfolding soft_delete_conversations flag_rows
soft_delete_conversations_once now [] rs =
    sym (flag_where-none now rs) ∙ flag_where-ap now (λ k. false) (hangs []) rs hangs_none
soft_delete_conversations_once now (id ∷ ids) rs =
    ap (λ x. flag_rows now conversation (λ k. is_in (some k.id) (id ∷ ids)) x)
      (flag_tables_once now conversation_children (λ k. is_in k.conversation_id (id ∷ ids)) rs)
    ∙ flag_where-flag_where now
        (λ k. any (λ t. is_table t k) conversation_children && is_in k.conversation_id (id ∷ ids))
        (λ k. is_table conversation k && is_in (some k.id) (id ∷ ids)) rs
    ∙ flag_where-ap now
        (λ k.
          any (λ t. is_table t k) conversation_children && is_in k.conversation_id (id ∷ ids)
          || is_table conversation k && is_in (some k.id) (id ∷ ids))
        (hangs (id ∷ ids)) rs (hangs_cases (id ∷ ids))

-- The rows that deleting an upload reaches, if its conversations have the identifiers `ids`.
unfoldable pub under_upload : ℕ → List ℕ → Key → Bool
unfolding hangs
under_upload id ids k = elim k.table [ upload ↦ k.id == id | _ ↦ hangs ids k ]

under_upload_cases :
    (id : ℕ) (ids : List ℕ) (k : Key)
    → (hangs ids k || is_table upload k && k.id == id) ≡ under_upload id ids k
unfolding hangs under_upload
under_upload_cases id ids k = ground arith

-- Deleting an upload marks, with the instant of the deletion, the rows not yet deleted among the
-- upload, the conversations that have its id, deleted or not, and the messages, evaluations,
-- verdicts and links of these conversations.
pub soft_delete_upload_once :
    (now id : ℕ) (rs : List Row)
    → soft_delete_upload now id rs
      ≡ flag_where now (under_upload id (select_ids conversation (λ k. is_id k.upload_id id) rs)) rs
unfolding soft_delete_upload flag_rows
soft_delete_upload_once now id rs =
    let ids = select_ids conversation (λ k. is_id k.upload_id id) rs in
    ap (λ x. flag_rows now upload (λ k. k.id == id) x) (soft_delete_conversations_once now ids rs)
    ∙ flag_where-flag_where now (hangs ids) (λ k. is_table upload k && k.id == id) rs
    ∙ flag_where-ap now (λ k. hangs ids k || is_table upload k && k.id == id) (under_upload id ids)
        rs (under_upload_cases id ids)

-- An update of rows that an earlier update marked changes nothing.
flag_where_idem :
    (now now' : ℕ) (p : Key → Bool) (rs : List Row)
    → flag_where now' p (flag_where now p rs) ≡ flag_where now p rs
unfolding flag_where
flag_where_idem now now' p [] = refl
flag_where_idem now now' p (r ∷ rs) =
    let rest = flag_where_idem now now' p rs in ground (arith, rest)

-- Deleting a project again, at any instant, changes nothing: the first instant is kept.
pub soft_delete_project_idem :
    (now now' id : ℕ) (rs : List Row)
    → soft_delete_project now' id (soft_delete_project now id rs) ≡ soft_delete_project now id rs
soft_delete_project_idem now now' id rs =
    let once = soft_delete_project_once now id rs in
    soft_delete_project_once now' id (soft_delete_project now id rs)
    ∙ ap (λ x. flag_where now' (belongs id) x) once
    ∙ flag_where_idem now now' (belongs id) rs
    ∙ sym once

-- The rows that deleting a flow reaches, if its improvements have the identifiers `ids`.
unfoldable pub under_flow : ℕ → List ℕ → Key → Bool
under_flow id ids k = elim k.table [
  | flow ↦ k.id == id
  | flow_version ↦ is_id k.flow_id id
  | improvement ↦ is_in (some k.id) ids
  | improvement_conversation ↦ is_in k.improvement_id ids
  | _ ↦ false
]

abbrev improved : List ℕ → Key → Bool
improved ids k =
    is_table improvement_conversation k && is_in k.improvement_id ids
    || is_table improvement k && is_in (some k.id) ids

flag_improvements_once :
    (now : ℕ) (ids : List ℕ) (rs : List Row)
    → flag_improvements now ids rs ≡ flag_where now (improved ids) rs
unfolding flag_improvements flag_rows
flag_improvements_once now [] rs =
    sym (flag_where-none now rs)
    ∙ flag_where-ap now (λ k. false) (improved []) rs (λ k. ground arith)
flag_improvements_once now (id ∷ ids) rs =
    flag_where-flag_where now
      (λ k. is_table improvement_conversation k && is_in k.improvement_id (id ∷ ids))
      (λ k. is_table improvement k && is_in (some k.id) (id ∷ ids)) rs

under_flow_cases :
    (id : ℕ) (ids : List ℕ) (k : Key)
    → ((improved ids k || is_table flow_version k && is_id k.flow_id id)
        || is_table flow k && k.id == id)
      ≡ under_flow id ids k
unfolding under_flow
under_flow_cases id ids k = ground arith

-- Deleting a flow marks, with the instant of the deletion, the rows not yet deleted among the flow,
-- its versions, the improvements that have its id, deleted or not, and the conversations of these
-- improvements.
pub soft_delete_flow_once :
    (now id : ℕ) (rs : List Row)
    → soft_delete_flow now id rs
      ≡ flag_where now (under_flow id (select_ids improvement (λ k. is_id k.flow_id id) rs)) rs
unfolding soft_delete_flow flag_rows
soft_delete_flow_once now id rs =
    let ids = select_ids improvement (λ k. is_id k.flow_id id) rs in
    ap
      (λ x.
        flag_rows now flow (λ k. k.id == id)
          (flag_rows now flow_version (λ k. is_id k.flow_id id) x))
      (flag_improvements_once now ids rs)
    ∙ ap (λ x. flag_rows now flow (λ k. k.id == id) x)
        (flag_where-flag_where now (improved ids)
          (λ k. is_table flow_version k && is_id k.flow_id id) rs)
    ∙ flag_where-flag_where now
        (λ k. improved ids k || is_table flow_version k && is_id k.flow_id id)
        (λ k. is_table flow k && k.id == id) rs
    ∙ flag_where-ap now
        (λ k.
          (improved ids k || is_table flow_version k && is_id k.flow_id id)
          || is_table flow k && k.id == id)
        (under_flow id ids) rs (under_flow_cases id ids)
