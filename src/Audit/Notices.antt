-- ===== src/Audit/Notices.antt =====
-- app/services/notifications.py: notifications, at most one for each event of an organisation.
pub mod Once
use insyta_api.Prelude.{
  ℕ, suc, ◌+◌, Bool, true, false, not, ◌&&◌, ◌==◌, Option, none, some, List, [], ◌∷◌, ◌++◌, Text,
  text_eq, if◌then◌else◌, any, take, leb,
}

pub record Notification : Type 0 where
  pub org_id : ℕ
  pub project_id : Option ℕ
  pub kind : Text
  pub title : Text
  pub detail : Option Text
  pub link : Option Text
  pub event_key : Option Text
  pub is_read : Bool
  pub created_at : ℕ

-- The unique constraint on the organisation and the key of the event.
abbrev pub same_event : ℕ → Text → Notification → Bool
same_event org_id key n =
    n.org_id == org_id && elim n.event_key [ none ↦ false | some k ↦ text_eq k key ]

-- `create_notification`; without a key a row is always inserted.
unfoldable pub create_notification : Notification → List Notification → List Notification
unfolding text_eq
create_notification n rows = elim n.event_key [
  | none ↦ n ∷ rows
  | some key ↦ if any (same_event n.org_id key) rows then rows else n ∷ rows
]

-- `unread_count`
unfoldable pub unread_count : List Notification → ℕ
unread_count [] = 0
unread_count (n ∷ rows) = if n.is_read then unread_count rows else suc (unread_count rows)

-- `mark_all_read`: the rows, and how many were changed.
unfoldable pub mark_all_read : List Notification → List Notification × ℕ
mark_all_read [] = ([], 0)
mark_all_read (n ∷ rows) =
    let (rest, k) = mark_all_read rows in
    if n.is_read then (n ∷ rest, k) else ((record n { is_read = true }) ∷ rest, suc k)

-- The newest first.
unfoldable pub insert_newest : Notification → List Notification → List Notification
insert_newest n [] = n ∷ []
insert_newest n (m ∷ rows) =
    let later = insert_newest n rows in
    if leb m.created_at n.created_at then n ∷ m ∷ rows else m ∷ later

unfoldable pub newest_first : List Notification → List Notification
unfolding insert_newest
newest_first [] = []
newest_first (n ∷ rows) = insert_newest n (newest_first rows)

-- `list_notifications`
unfoldable pub list_notifications : ℕ → List Notification → List Notification
unfolding newest_first
list_notifications limit rows = take limit (newest_first rows)
