-- ===== src/Parsers.antt =====
-- app/workers/parsers/wati.py, respondio.py, custom.py: rows of a CSV file become conversations. The
-- decoded rows of the csv module and `datetime.fromisoformat` are parameters; an instant is a
-- number of microseconds since the year 1, in UTC.
pub mod Export
pub mod Grouping
pub mod Order
pub mod Start
pub mod Instants
pub mod WhatsApp
mod Tests
use insyta_api.Prelude.{
  ℕ, zero, suc, ◌+◌, Bool, true, false, ◌&&◌, ◌||◌, not, Option, none, some, List, [], ◌∷◌, ◌++◌,
  ◌==◌, ltb, leb, Text, txt, text_eq, if◌then◌else◌, Unicode, lower_text, strip, any, all, map,
}
use insyta_api.Upload.{MessageDto, ConversationDto}

-- What the parsers use of Python: characters, and ISO 8601 instants, a naive one read as UTC.
pub record Python : Type 0 where
  pub unicode : Unicode
  pub from_iso : Text → Option ℕ

-- The columns of a platform's export.
pub record Format : Type 0 where
  pub platform : Text
  pub id_column : Text
  pub role_column : Text
  pub content_column : Text
  pub time_column : Text
  pub named : Bool

abbrev pub wati : Format
wati = record {
  platform = txt "wati";
  id_column = txt "conversation_id";
  role_column = txt "role";
  content_column = txt "content";
  time_column = txt "timestamp";
  named = true;
}

abbrev pub respondio : Format
respondio = record {
  platform = txt "respondio";
  id_column = txt "chat_id";
  role_column = txt "sender_type";
  content_column = txt "message";
  time_column = txt "sent_at";
  named = false;
}

-- datetime(1970, 1, 1)
abbrev pub epoch : ℕ
epoch = 62135596800000000

-- `row.get(name)` on a row of `csv.DictReader`: of two columns with a name the last one counts; a
-- short row has `None` for its last columns.
unfoldable pub cell : Text → List Text → List Text → Option Text
unfolding text_eq
cell name [] cells = none
cell name (f ∷ fs) [] = none
cell name (f ∷ fs) (c ∷ cs) = elim (cell name fs cs) [
  | some t ↦ some t
  | none ↦ if text_eq f name && not (any (text_eq name) fs) then some c else none
]

-- `(value or "").strip()`
unfoldable pub text_of : Unicode → Option Text → Text
unfolding strip
text_of u none = []
text_of u (some t) = strip u t

-- `raw.replace("Z", "+00:00")`
unfoldable pub replace_z : Text → Text
replace_z [] = []
replace_z (c ∷ s) = if c == b'Z' then txt "+00:00" ++ replace_z s else c ∷ replace_z s

-- `_parse_timestamp`; `none` is the `AttributeError` of `None.strip()`.
unfoldable pub parse_timestamp : Python → Option Text → Option ℕ
unfolding strip replace_z
parse_timestamp p none = none
parse_timestamp p (some raw) = elim (strip p.unicode raw) [
  | [] ↦ some epoch
  | c ∷ s ↦ elim (p.from_iso (replace_z (c ∷ s))) [ none ↦ some epoch | some t ↦ some t ]
]

abbrev pub one_of : List Text → Text → Bool
one_of ts t = any (text_eq t) ts

-- `_normalize_role`
unfoldable pub normalize_role : Unicode → Option Text → Text
unfolding text_of lower_text
normalize_role u raw =
    let r = lower_text u (text_of u raw) in
    if one_of (txt "user" ∷ txt "customer" ∷ txt "client" ∷ txt "cliente" ∷ txt "u" ∷ []) r
    then txt "user"
    else if one_of (txt "bot" ∷ txt "agent" ∷ txt "assistant" ∷ txt "a" ∷ []) r
    then txt "assistant"
    else if one_of (txt "system" ∷ txt "s" ∷ []) r
    then txt "system"
    else txt "user"

-- A row with an identifier: what the loop reads of it.
pub record Entry : Type 0 where
  pub conv_id : Text
  pub message : MessageDto
  pub name : Text

-- A row: skipped, an error, or an entry.
pub data ReadRow : Type 0 where
  skipped no_instant : ReadRow
  entry : Entry → ReadRow

unfoldable pub read_row : Python → Format → List Text → List Text → ReadRow
unfolding cell text_of parse_timestamp normalize_role
read_row p f names cells = elim (text_of p.unicode (cell f.id_column names cells)) [
  | [] ↦ skipped
  | c ∷ s ↦ elim (parse_timestamp p (cell f.time_column names cells)) [
    | none ↦ no_instant
    | some t ↦ entry (record {
      conv_id = c ∷ s;
      message = record {
        role = normalize_role p.unicode (cell f.role_column names cells);
        content = text_of p.unicode (cell f.content_column names cells);
        timestamp = t;
      };
      name = if f.named then text_of p.unicode (cell (txt "contact_name") names cells) else [];
    })
  ]
]

abbrev pub first_name : Option Text → Text → Option Text
first_name none [] = none
first_name none (c ∷ s) = some (c ∷ s)
first_name (some []) [] = some []
first_name (some []) (c ∷ s) = some (c ∷ s)
first_name (some (d ∷ t)) name = some (d ∷ t)

abbrev pub earlier : Option ℕ → ℕ → Option ℕ
earlier none t = some t
earlier (some s) t = if ltb t s then some t else some s

-- The updates of `bucket` by an entry.
unfoldable pub add_entry : Entry → ConversationDto → ConversationDto
add_entry e b = record b {
  external_id = e.conv_id;
  contact_name = first_name b.contact_name e.name;
  messages = b.messages ++ (e.message ∷ []);
  started_at = earlier b.started_at e.message.timestamp;
}

abbrev pub new_bucket : Text → Text → ConversationDto
new_bucket platform id = record {
  external_id = id;
  platform = platform;
  started_at = none;
  contact_name = none;
  contact_phone = none;
  messages = [];
}

-- `buckets[conv_id]` and its updates, in the order in which the identifiers came up.
unfoldable pub add_to_buckets : Text → Entry → List ConversationDto → List ConversationDto
unfolding add_entry text_eq
add_to_buckets platform e [] = add_entry e (new_bucket platform e.conv_id) ∷ []
add_to_buckets platform e (b ∷ bs) =
    if text_eq b.external_id e.conv_id then add_entry e b ∷ bs else b ∷ add_to_buckets platform e bs

-- The loop over the rows; a row of no cells is not there for `DictReader`.
unfoldable pub read_rows :
    Python
    → Format
    → List Text
    → List (List Text)
    → List ConversationDto
    → Option (List ConversationDto)
unfolding read_row add_to_buckets
read_rows p f names [] bs = some bs
read_rows p f names ([] ∷ rows) bs = read_rows p f names rows bs
read_rows p f names ((c ∷ cs) ∷ rows) bs = elim (read_row p f names (c ∷ cs)) [
  | skipped ↦ read_rows p f names rows bs
  | no_instant ↦ none
  | entry e ↦ read_rows p f names rows (add_to_buckets f.platform e bs)
]
