-- ===== src/Parsers/Export.antt =====
-- `parse` of app/workers/parsers/wati.py, respondio.py and custom.py: the header, the rows, the sort.
use insyta_api.Prelude.{
  Bool, Option, none, some, List, [], ◌∷◌, ◌==◌, ltb, Text, txt, text_eq, if◌then◌else◌, Unicode,
  lower_text, strip, any, all, map,
}
use insyta_api.Upload.{MessageDto, ConversationDto}
use insyta_api.Parsers.{Python, Format, wati, read_rows}

-- `f.lstrip("\ufeff")`
unfoldable pub lstrip_bom : Text → Text
lstrip_bom [] = []
lstrip_bom (c ∷ s) = if c == 65279 then lstrip_bom s else c ∷ s

unfoldable pub field_name : Unicode → Text → Text
unfolding strip lower_text lstrip_bom
field_name u f = lower_text u (lstrip_bom (strip u f))

-- `missing` is empty.
unfoldable pub has_required : Format → List Text → Bool
unfolding text_eq
has_required f names =
    all (λ r. any (text_eq r) names)
      (f.id_column ∷ f.role_column ∷ f.content_column ∷ f.time_column ∷ [])

-- `messages.sort(key=lambda m: m.timestamp)`, which is stable.
unfoldable pub insert_message : MessageDto → List MessageDto → List MessageDto
insert_message m [] = m ∷ []
insert_message m (n ∷ ns) =
    if ltb n.timestamp m.timestamp then n ∷ insert_message m ns else m ∷ n ∷ ns

unfoldable pub sort_messages : List MessageDto → List MessageDto
unfolding insert_message
sort_messages [] = []
sort_messages (m ∷ ms) = insert_message m (sort_messages ms)

abbrev pub sorted_bucket : ConversationDto → ConversationDto
sorted_bucket b = record b { messages = sort_messages b.messages }

-- `parse` on the rows of the file, the header first.
unfoldable pub parse : Python → Format → List (List Text) → Option (List ConversationDto)
unfolding read_rows has_required field_name sort_messages
parse p f [] = some []
parse p f (header ∷ rows) =
    let names = map (field_name p.unicode) header in
    if has_required f names
    then elim (read_rows p f names rows []) [ none ↦ none | some bs ↦ some (map sorted_bucket bs) ]
    else some []

-- `parse` of custom.py
unfoldable pub parse_custom : Python → List (List Text) → Option (List ConversationDto)
unfolding parse
parse_custom p rows = elim (parse p wati rows) [
  | none ↦ none
  | some cs ↦ some (map (λ (c : ConversationDto). record c { platform = txt "custom_sdk" }) cs)
]
