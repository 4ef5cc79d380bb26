-- ===== src/Parsers/Start.antt =====
-- When a parsed conversation starts (app/workers/parsers/wati.py and respondio.py).
use insyta_api.Prelude.{
  ◌≡◌, refl, sym, ap, subst, ◌∙◌, inl, inr, some, List, [], ◌∷◌, arith, Bool-cases, Option-cases,
  Text, text_eq, map, All,
}
use insyta_api.Upload.{ConversationDto}
use insyta_api.Parsers.{
  Python, Format, Entry, read_row, earlier, add_entry, new_bucket, add_to_buckets, read_rows,
}
use insyta_api.Parsers.Export.{sort_messages, sorted_bucket, parse, field_name, has_required}
use insyta_api.Parsers.Order.{
  Sorted, sort_messages-Sorted, first_instant, first_instant-sort_messages,
}
use insyta_api.Parsers.Grouping.{row_cases}

-- The start of a bucket is the first instant of its messages once they are sorted.
abbrev Started : ConversationDto → Type 0
Started b = b.started_at ≡ first_instant (sort_messages b.messages)

add_entry-Started : (e : Entry) (b : ConversationDto) → Started b → Started (add_entry e b)
unfolding add_entry
add_entry-Started e b s =
    ap (λ o. earlier o e.message.timestamp) s
    ∙ sym (first_instant-sort_messages b.messages e.message)

new_bucket-Started : (platform id : Text) → Started (new_bucket platform id)
unfolding sort_messages
new_bucket-Started platform id = refl

add_to_buckets-Started :
    (platform : Text) (e : Entry) (bs : List ConversationDto)
    → All Started bs
    → All Started (add_to_buckets platform e bs)
unfolding add_to_buckets
add_to_buckets-Started platform e [] all = (
  add_entry-Started e (new_bucket platform e.conv_id) (new_bucket-Started platform e.conv_id),
  tt,
)
add_to_buckets-Started platform e (b ∷ bs) (s, all) =
    let rest = add_to_buckets-Started platform e bs all in
    elim (Bool-cases (text_eq b.external_id e.conv_id)) [
      | inl t ↦ rw (t, add_to_buckets) (add_entry-Started e b s, all)
      | inr f ↦ rw (f, add_to_buckets) (s, rest)
    ]

read_rows-Started :
    (p : Python) (f : Format) (names : List Text) (rows : List (List Text))
    (bs bs' : List ConversationDto)
    → All Started bs
    → read_rows p f names rows bs ≡ some bs'
    → All Started bs'
unfolding read_rows
read_rows-Started p f names [] bs bs' all h =
    let e : bs ≡ bs' = ground (arith, h) in subst (All Started) e all
read_rows-Started p f names ([] ∷ rows) bs bs' all h = read_rows-Started p f names rows bs bs' all h
read_rows-Started p f names ((c ∷ cs) ∷ rows) bs bs' all h =
    elim (row_cases (read_row p f names (c ∷ cs))) [
      | inl q ↦ read_rows-Started p f names rows bs bs' all (ground (arith, q, h))
      | inr (inl q) ↦ ground (arith, q, h)
      | inr (inr (e, q)) ↦
          read_rows-Started p f names rows (add_to_buckets f.platform e bs) bs'
            (add_to_buckets-Started f.platform e bs all) (ground (arith, q, h))
    ]

-- The messages of a conversation are sorted, and it starts at the first of them.
abbrev pub Ordered : ConversationDto → Type 0
Ordered c = Sorted c.messages × (c.started_at ≡ first_instant c.messages)

sorted_buckets-Ordered :
    (bs : List ConversationDto) → All Started bs → All Ordered (map sorted_bucket bs)
sorted_buckets-Ordered [] all = tt
sorted_buckets-Ordered (b ∷ bs) (s, all) =
    ((sort_messages-Sorted b.messages, s), sorted_buckets-Ordered bs all)

-- Every conversation that is read from a file has its messages sorted by instant and starts at the
-- instant of the first of them.
pub parse-Ordered :
    (p : Python) (f : Format) (rows : List (List Text)) (cs : List ConversationDto)
    → parse p f rows ≡ some cs
    → All Ordered cs
unfolding parse
parse-Ordered p f [] cs h = let e : [] ≡ cs = ground (arith, h) in subst (All Ordered) e tt
parse-Ordered p f (header ∷ rows) cs h =
    let names = map (field_name p.unicode) header in
    elim (Bool-cases (has_required f names)) [
      | inr n ↦ let e : [] ≡ cs = ground (arith, n, h) in subst (All Ordered) e tt
      | inl r ↦ elim (Option-cases (read_rows p f names rows [])) [
        | inl q ↦ ground (arith, q, r, h)
        | inr (bs, q) ↦
            let e : map sorted_bucket bs ≡ cs = ground (arith, q, r, h) in
            subst (All Ordered) e
              (sorted_buckets-Ordered bs (read_rows-Started p f names rows [] bs tt q))
      ]
    ]
