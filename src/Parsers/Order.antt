-- ===== src/Parsers/Order.antt =====
-- The sort of a conversation's messages by instant.
use insyta_api.Prelude.{
  ℕ, ◌+◌, ◌≤◌, ◌≡◌, refl, sym, ap, ◌∙◌, inl, inr, Bool, Option, none, some, List, [], ◌∷◌, ◌++◌,
  ltb, if◌then◌else◌, arith, Bool-cases,
}
use insyta_api.Upload.{MessageDto}
use insyta_api.Parsers.{earlier}
use insyta_api.Parsers.Export.{insert_message, sort_messages}

-- Each instant is at most the next.
abbrev pub Sorted : List MessageDto → Type 0
Sorted [] = Unit
Sorted (m ∷ []) = Unit
Sorted (m ∷ n ∷ ns) = (m.timestamp ≤ n.timestamp) × Sorted (n ∷ ns)

insert_message-Sorted :
    (m : MessageDto) (ms : List MessageDto) → Sorted ms → Sorted (insert_message m ms)
unfolding insert_message
insert_message-Sorted m [] s = tt
insert_message-Sorted m (n ∷ []) s = elim (Bool-cases (ltb n.timestamp m.timestamp)) [
  | inl t ↦ rw (t, insert_message) (ground (arith, t), tt)
  | inr f ↦ rw (f, insert_message) (ground (arith, f), tt)
]
insert_message-Sorted m (n ∷ k ∷ ms) (le, s) =
    let rest = insert_message-Sorted m (k ∷ ms) s in
    elim (Bool-cases (ltb n.timestamp m.timestamp)) [
      | inr f ↦ rw (f, insert_message) (ground (arith, f), (le, s))
      | inl t ↦ elim (Bool-cases (ltb k.timestamp m.timestamp)) [
        | inl t' ↦
            let rest' : Sorted (k ∷ insert_message m ms) = rw (t', insert_message) at rest in
            rw (t, t', insert_message) (le, rest')
        | inr f ↦ rw (t, f, insert_message) (ground (arith, t), (ground (arith, f), s))
      ]
    ]

pub sort_messages-Sorted : (ms : List MessageDto) → Sorted (sort_messages ms)
unfolding sort_messages
sort_messages-Sorted [] = tt
sort_messages-Sorted (m ∷ ms) = insert_message-Sorted m (sort_messages ms) (sort_messages-Sorted ms)

-- How many messages of a list have a property.
abbrev pub count : (MessageDto → Bool) → List MessageDto → ℕ
count p [] = 0
count p (m ∷ ms) = (if p m then 1 else 0) + count p ms

insert_message-count :
    (p : MessageDto → Bool) (m : MessageDto) (ms : List MessageDto)
    → count p (insert_message m ms) ≡ (if p m then 1 else 0) + count p ms
unfolding insert_message
insert_message-count p m [] = refl
insert_message-count p m (n ∷ ms) = let rest = insert_message-count p m ms in ground (arith, rest)

pub sort_messages-count :
    (p : MessageDto → Bool) (ms : List MessageDto) → count p (sort_messages ms) ≡ count p ms
unfolding sort_messages
sort_messages-count p [] = refl
sort_messages-count p (m ∷ ms) =
    let rest = sort_messages-count p ms in
    omega (arith, insert_message-count p m (sort_messages ms), rest)

-- The instant of the first message.
abbrev pub first_instant : List MessageDto → Option ℕ
first_instant [] = none
first_instant (m ∷ ms) = some m.timestamp

abbrev earliest : ℕ → Option ℕ → Option ℕ
earliest t none = some t
earliest t (some s) = some (if ltb s t then s else t)

first_instant-insert_message :
    (m : MessageDto) (ms : List MessageDto)
    → first_instant (insert_message m ms) ≡ earliest m.timestamp (first_instant ms)
unfolding insert_message
first_instant-insert_message m [] = refl
first_instant-insert_message m (n ∷ ms) = ground arith

earliest-earlier : (t s : ℕ) (o : Option ℕ) → earliest t (earlier o s) ≡ earlier (earliest t o) s
earliest-earlier t s none = ground arith
earliest-earlier t s (some r) = ground arith

-- The first instant after one more message.
pub first_instant-sort_messages :
    (ms : List MessageDto) (m : MessageDto)
    → first_instant (sort_messages (ms ++ (m ∷ [])))
      ≡ earlier (first_instant (sort_messages ms)) m.timestamp
unfolding sort_messages insert_message
first_instant-sort_messages [] m = refl
first_instant-sort_messages (n ∷ ms) m =
    first_instant-insert_message n (sort_messages (ms ++ (m ∷ [])))
    ∙ ap (earliest n.timestamp) (first_instant-sort_messages ms m)
    ∙ earliest-earlier n.timestamp m.timestamp (first_instant (sort_messages ms))
    ∙ ap (λ o. earlier o m.timestamp) (sym (first_instant-insert_message n (sort_messages ms)))
