-- ===== src/Upload/Idempotency/Uniqueness.antt =====
-- The key that upserts keep unique, and what a repeated upsert does (app/services/idempotency.py).
use insyta_api.Prelude.{
  ◌≡◌, refl, sym, ◌∙◌, inl, inr, ◌↔◌, true, false, none, some, List, [], ◌∷◌, ◌++◌, text_eq_iff,
  ==_iff, if◌then◌else◌, arith, Option-cases, Bool-cases,
}
use insyta_api.Upload.{Conversation}
use insyta_api.Upload.Idempotency.{same_key, find_existing, upsert_conversation_idempotent}

-- No two rows have the same agent and external id.
abbrev pub Unique : List Conversation → Type 0
Unique [] = Unit
Unique (c ∷ cs) = (find_existing c cs ≡ none) × Unique cs

pub same_key_iff :
    (a b : Conversation)
    → (same_key a b ≡ true) ↔ ((a.agent_id ≡ b.agent_id) × (a.external_id ≡ b.external_id))
unfolding same_key
same_key_iff a b =
    ground (arith, text_eq_iff a.external_id b.external_id, ==_iff a.agent_id b.agent_id)

pub same_key_refl : (a : Conversation) → same_key a a ≡ true
same_key_refl a = (same_key_iff a a).1 (refl, refl)

same_key_comm : (a b : Conversation) → same_key a b ≡ true → same_key b a ≡ true
same_key_comm a b h = let (p, q) = (same_key_iff a b).0 h in (same_key_iff b a).1 (sym p, sym q)

same_key_trans :
    (a b c : Conversation) → same_key a b ≡ true → same_key b c ≡ true → same_key a c ≡ true
same_key_trans a b c h k =
    let (p, q) = (same_key_iff a b).0 h in
    let (p', q') = (same_key_iff b c).0 k in (same_key_iff a c).1 (p ∙ p', q ∙ q')

pub find_existing-same_key :
    (a b : Conversation) (cs : List Conversation)
    → same_key a b ≡ true
    → find_existing a cs ≡ find_existing b cs
unfolding find_existing
find_existing-same_key a b [] h = refl
find_existing-same_key a b (c ∷ cs) h =
    let rest = find_existing-same_key a b cs h in
    let forth = same_key_trans b a c (same_key_comm a b h) in
    let back = same_key_trans a b c h in ground (arith, rest, forth, back)

find_existing-append :
    (a row : Conversation) (cs : List Conversation)
    → find_existing a cs ≡ none
    → find_existing a (cs ++ (row ∷ [])) ≡ (if same_key a row then some row else none)
unfolding find_existing
find_existing-append a row [] h = refl
find_existing-append a row (c ∷ cs) h =
    let rest = find_existing-append a row cs in ground (arith, rest, h)

pub find_existing-skip :
    (a row : Conversation) (cs : List Conversation) (old : Conversation)
    → find_existing a cs ≡ some old
    → find_existing a (cs ++ (row ∷ [])) ≡ some old
unfolding find_existing
find_existing-skip a row [] old h = ground (arith, h)
find_existing-skip a row (c ∷ cs) old h =
    let rest = find_existing-skip a row cs old in ground (arith, rest, h)

append-Unique :
    (row : Conversation) (cs : List Conversation)
    → find_existing row cs ≡ none
    → Unique cs
    → Unique (cs ++ (row ∷ []))
unfolding find_existing
append-Unique row [] h us = (refl, tt)
append-Unique row (c ∷ cs) h (first, us) = elim (Bool-cases (same_key row c)) [
  | inl t ↦ ground (arith, t, h)
  | inr f ↦
      let back = same_key_comm c row in
      let rest : find_existing row cs ≡ none = ground (arith, f, h) in
      (ground (arith, f, back, find_existing-append c row cs first), append-Unique row cs rest us)
]

pub upsert-found :
    (row : Conversation) (cs : List Conversation) (old : Conversation)
    → find_existing row cs ≡ some old
    → upsert_conversation_idempotent row cs ≡ (old, false, cs)
unfolding upsert_conversation_idempotent
upsert-found row cs old h = rw (h, upsert_conversation_idempotent) (ground (arith, h))

pub find_existing-upsert :
    (row : Conversation) (cs : List Conversation)
    → let (got, was_new, cs') = upsert_conversation_idempotent row cs in
      find_existing row cs' ≡ some got
unfolding upsert_conversation_idempotent
find_existing-upsert row cs = elim (Option-cases (find_existing row cs)) [
  | inl h ↦
      rw (h, upsert_conversation_idempotent)
        (ground (arith, find_existing-append row row cs h, same_key_refl row))
  | inr (old, h) ↦ rw (h, upsert_conversation_idempotent) h
]

-- If no two conversations of the table share an agent and an external id, none do after an upsert,
-- and the row the caller gets has the key asked for and is the one that the table now holds.
pub upsert-Unique :
    (row : Conversation) (cs : List Conversation)
    → Unique cs
    → let (got, was_new, cs') = upsert_conversation_idempotent row cs in
      Unique cs' × (find_existing row cs' ≡ some got)
unfolding upsert_conversation_idempotent
upsert-Unique row cs us = elim (Option-cases (find_existing row cs)) [
  | inl h ↦ (
    rw (h, upsert_conversation_idempotent) (append-Unique row cs h us),
    find_existing-upsert row cs,
  )
  | inr (old, h) ↦ (rw (h, upsert_conversation_idempotent) us, find_existing-upsert row cs)
]

-- An upsert of a key that an earlier upsert used gives the earlier row, says that it is not new
-- and leaves the table as it is.
pub upsert-upsert :
    (row again : Conversation) (cs : List Conversation)
    → same_key again row ≡ true
    → let (got, was_new, cs') = upsert_conversation_idempotent row cs in
      upsert_conversation_idempotent again cs' ≡ (got, false, cs')
upsert-upsert row again cs same =
    let (got, was_new, cs') = upsert_conversation_idempotent row cs in
    upsert-found again cs' got
      (find_existing-same_key again row cs' same ∙ find_existing-upsert row cs)
