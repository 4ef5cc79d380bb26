-- ===== src/Audit/Notices/Once.antt =====
-- An organisation is notified of an event once.
use insyta_api.Prelude.{
  ◌≡◌, refl, ◌∙◌, inl, inr, Bool, false, Option, none, some, List, [], ◌∷◌, any, Text, Bool-cases,
  if◌then◌else◌,
}
use insyta_api.Audit.Notices.{
  Notification, same_event, create_notification, unread_count, mark_all_read,
}
use insyta_api.Audit.Tables.Keys.{Distinct}

-- The rows have the organisation and the key in common.
abbrev pub same_notice : Notification → Notification → Bool
same_notice a b = elim a.event_key [ none ↦ false | some key ↦ same_event a.org_id key b ]

unkeyed_any :
    (n : Notification) (rows : List Notification)
    → n.event_key ≡ none
    → any (same_notice n) rows ≡ false
unkeyed_any n [] e = refl
unkeyed_any n (m ∷ rows) e = rw e (unkeyed_any n rows e)

keyed_any :
    (n : Notification) (key : Text) (rows : List Notification)
    → n.event_key ≡ some key
    → any (same_notice n) rows ≡ any (same_event n.org_id key) rows
keyed_any n key [] e = refl
keyed_any n key (m ∷ rows) e = rw (keyed_any n key rows e, e) refl

keyed :
    (n : Notification) (rows : List Notification) (o : Option Text)
    → n.event_key ≡ o
    → Distinct same_notice rows
    → Distinct same_notice (elim o as (λ _. List Notification) [
      | none ↦ n ∷ rows
      | some key ↦ if any (same_event n.org_id key) rows then rows else n ∷ rows
    ])
keyed n rows none e d = (unkeyed_any n rows e, d)
keyed n rows (some key) e d = elim (Bool-cases (any (same_event n.org_id key) rows)) [
  | inl h ↦ rw h d
  | inr h ↦ rw h (keyed_any n key rows e ∙ h, d)
]

-- Creating a notification keeps the rows of an event to one.
pub create_notification-Distinct :
    (n : Notification) (rows : List Notification)
    → Distinct same_notice rows
    → Distinct same_notice (create_notification n rows)
unfolding create_notification
create_notification-Distinct n rows d = keyed n rows n.event_key refl d

-- Reading all: none is unread afterwards, and as many rows were changed as were unread.
pub mark_all_read-unread_count :
    (rows : List Notification)
    → (unread_count (mark_all_read rows).0 ≡ 0) × ((mark_all_read rows).1 ≡ unread_count rows)
unfolding mark_all_read unread_count
mark_all_read-unread_count [] = (refl, refl)
mark_all_read-unread_count (n ∷ rows) =
    let (e, f) = mark_all_read-unread_count rows in
    elim (Bool-cases n.is_read) [
      | inl h ↦ rw (h, e, f) (refl, refl)
      | inr h ↦ rw (h, e, f) (refl, refl)
    ]
