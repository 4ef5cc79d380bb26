-- ===== src/Parsers/WhatsApp.antt =====
-- app/workers/parsers/whatsapp.py: the export of a chat, from the decoded text on.
pub mod Spoken
mod Tests
use insyta_api.Prelude.{
  ℕ, zero, suc, ◌+◌, ◌%◌, Bool, true, false, not, ◌||◌, ◌&&◌, ◌==◌, ltb, any, Option, none, some,
  List, [], ◌∷◌, ◌++◌, map, take, Text, txt, text_eq, Unicode, strip, lstrip, lower_text,
  if◌then◌else◌,
}
use insyta_api.Upload.{MessageDto, ConversationDto}
use insyta_api.Regex.{
  Re, one, seq, many, lazy, edge, opt, up_to, exactly, some_of, seqs, match_parts,
}
use insyta_api.Regex.Build.{digit, space, lit, one_of}
use insyta_api.Validators.Amounts.{number_from}
use insyta_api.Parsers.Export.{sort_messages}
use insyta_api.Parsers.Instants.{Moment, instant, value_error, overflow_error, utc_of}

-- The line boundaries of `str.splitlines`; a line feed behind a carriage return belongs to it.
abbrev pub is_break : ℕ → Bool
is_break c = any (λ d. c == d) (10 ∷ 11 ∷ 12 ∷ 13 ∷ 28 ∷ 29 ∷ 30 ∷ 133 ∷ 8232 ∷ 8233 ∷ [])

abbrev pub push : ℕ → List Text → List Text
push c [] = (c ∷ []) ∷ []
push c (l ∷ ls) = (c ∷ l) ∷ ls

unfoldable pub split_lines : Bool → Text → List Text
split_lines after_return [] = []
split_lines after_return (c ∷ s) =
    let rest = split_lines (c == 13) s in
    if after_return && c == 10 then rest else if is_break c then [] ∷ rest else push c rest

-- `_normalize_line`
unfoldable pub normalize_line : Text → Text
normalize_line [] = []
normalize_line (c ∷ s) =
    let rest = normalize_line s in
    if c == 8206 || c == 8207 then rest else if c == 8239 then b' ' ∷ rest else c ∷ rest

-- A part of a match by its number.
abbrev pub part : ℕ → List Text → Text
part n [] = []
part zero (t ∷ ts) = t
part (suc n) (t ∷ ts) = part n ts

-- What a line is: a message with its sender, instant and content, a system message, a line of text,
-- or an exception.
pub data Line : Type 0 where
  message : Text → ℕ → Text → Line
  system : Line
  plain : Text → Line
  fatal : Line

-- An item of `raw_msgs`.
pub record Raw : Type 0 where
  pub sender : Text
  pub ts : ℕ
  pub content : Text

module _ (u : Unicode) (same : ℕ → ℕ → Bool) where
  abbrev sign : ℕ → Re
  sign c = one (λ d. d == c)

  -- `\d{1,2}`, `\d{2}`, `\d{2,4}`, `,?\s+`, `(?::(\d{2}))?`, `:\s?`, `(.*)$`
  abbrev short : Re
  short = seq (digit u) (up_to 1 (digit u))

  abbrev two : Re
  two = exactly 2 (digit u)

  abbrev year : Re
  year = seq two (up_to 2 (digit u))

  abbrev comma : Re
  comma = seq (opt (sign b',')) (some_of (space u))

  abbrev seconds : Re
  seconds = opt (seq (sign b':') two)

  abbrev colon : Re
  colon = seq (sign b':') (opt (space u))

  abbrev to_end : Re
  to_end =
      seq (many (one (λ c. not (c == 10))))
        (edge (λ before after. elim after [ none ↦ true | some c ↦ false ]))

  -- `[^:]+?`
  abbrev name : Re
  name = let r = one (λ c. not (c == b':')) in seq r (lazy r)

  -- `_HEADER`
  unfoldable pub header_re : List Re
  header_re =
      sign b'['
      ∷ short
      ∷ sign b'/'
      ∷ short
      ∷ sign b'/'
      ∷ year
      ∷ comma
      ∷ short
      ∷ sign b':'
      ∷ two
      ∷ seconds
      ∷ seq (sign b']') (some_of (space u))
      ∷ name
      ∷ colon
      ∷ to_end
      ∷ []

  -- `_HEADER_ANDROID`
  unfoldable pub header_android_re : List Re
  header_android_re =
      short
      ∷ sign b'/'
      ∷ short
      ∷ sign b'/'
      ∷ year
      ∷ comma
      ∷ short
      ∷ sign b':'
      ∷ two
      ∷ seconds
      ∷ opt (
          seqs (
            many (space u)
            ∷ one_of same (txt "ap")
            ∷ opt (sign b'.')
            ∷ opt (space u)
            ∷ lit same (txt "m")
            ∷ opt (sign b'.')
            ∷ []))
      ∷ seqs (some_of (space u) ∷ sign b'-' ∷ space u ∷ [])
      ∷ to_end
      ∷ []

  -- `_ANDROID_SENDER`
  unfoldable pub android_sender_re : List Re
  android_sender_re = name ∷ colon ∷ to_end ∷ []

  -- `int` of a part, and of the digits behind a colon.
  abbrev number : Text → ℕ
  number t = number_from u 0 t

  abbrev seconds_of : Text → ℕ
  seconds_of [] = 0
  seconds_of (c ∷ t) = number t

  abbrev full_year : ℕ → ℕ
  full_year y = if ltb y 100 then y + 2000 else y

  -- `_detect_day_first`, with `saw_second_gt_12`.
  unfoldable pub day_first_from : Bool → List Text → Bool
  unfolding match_parts header_android_re number_from
  day_first_from saw [] = not saw
  day_first_from saw (line ∷ lines) = elim (match_parts header_android_re line) [
    | none ↦ day_first_from saw lines
    | some (ps, rest) ↦
        let later = day_first_from (saw || ltb 12 (number (part 2 ps))) lines in
        if ltb 12 (number (part 0 ps)) then true else later
  ]

  -- `_parse_dt`
  unfoldable pub parse_dt : List Text → Moment
  unfolding utc_of number_from
  parse_dt ps =
      utc_of (full_year (number (part 5 ps))) (number (part 3 ps)) (number (part 1 ps))
        (number (part 7 ps)) (number (part 9 ps)) (seconds_of (part 10 ps))

  -- The hour with the letter of its half of the day.
  unfoldable pub hour_of : ℕ → Text → ℕ
  unfolding lstrip lower_text text_eq
  hour_of h t = elim (lstrip u t) [
    | [] ↦ h
    | c ∷ s ↦ if text_eq (lower_text u (c ∷ [])) (txt "p") then h % 12 + 12 else h % 12
  ]

  -- `_parse_android_dt`
  unfoldable pub parse_android_dt : Bool → List Text → Moment
  unfolding utc_of hour_of number_from
  parse_android_dt day_first ps =
      let first = number (part 0 ps) in
      let second = number (part 2 ps) in
      utc_of (full_year (number (part 4 ps))) (if day_first then second else first)
        (if day_first then first else second) (hour_of (number (part 6 ps)) (part 10 ps))
        (number (part 8 ps)) (seconds_of (part 9 ps))

  -- A line that is no header of iOS.
  unfoldable pub read_android : Bool → Text → Line
  unfolding match_parts header_android_re android_sender_re parse_android_dt strip
  read_android day_first line = elim (match_parts header_android_re line) [
    | none ↦ plain line
    | some (ps, rest) ↦ elim (parse_android_dt day_first ps) [
      | value_error ↦ plain line
      | overflow_error ↦ fatal
      | instant t ↦ elim (match_parts android_sender_re (part 12 ps)) [
        | none ↦ system
        | some (qs, end) ↦ message (strip u (part 0 qs)) t (part 2 qs)
      ]
    ]
  ]

  -- A line of the loop.
  unfoldable pub read_line : Bool → Text → Line
  unfolding match_parts header_re parse_dt strip read_android
  read_line day_first line = elim (match_parts header_re line) [
    | none ↦ read_android day_first line
    | some (ps, rest) ↦ elim (parse_dt ps) [
      | instant t ↦ message (strip u (part 12 ps)) t (part 14 ps)
      | value_error ↦ fatal
      | overflow_error ↦ fatal
    ]
  ]

  -- `lines`, read one by one.
  unfoldable pub chat_lines : Text → List Line
  unfolding split_lines normalize_line day_first_from read_line
  chat_lines text =
      let lines = map normalize_line (split_lines false text) in
      map (read_line (day_first_from false lines)) lines

module _ (u : Unicode) where
  -- `(c + "\n" + line).strip()`
  abbrev pub extended : Text → Raw → Raw
  extended line m = record m { content = strip u (m.content ++ (10 ∷ line)) }

  -- `raw_msgs[-1]` with one more line, if there is one.
  unfoldable pub continue_last : Text → List Raw → List Raw
  unfolding strip
  continue_last line [] = []
  continue_last line (m ∷ []) = extended line m ∷ []
  continue_last line (m ∷ n ∷ ms) = m ∷ continue_last line (n ∷ ms)

  -- The loop, with `raw_msgs` and `skip_continuation`; `none` is an exception.
  unfoldable pub collect : List Line → List Raw → Bool → Option (List Raw)
  unfolding continue_last
  collect [] raw skip = some raw
  collect (message s t c ∷ ls) raw skip =
      collect ls (raw ++ record { sender = s; ts = t; content = c } ∷ []) false
  collect (system ∷ ls) raw skip = collect ls raw true
  collect (plain l ∷ ls) raw true = collect ls raw true
  collect (plain l ∷ ls) raw false = collect ls (continue_last l raw) false
  collect (fatal ∷ ls) raw skip = none

-- `customer`: the first sender that is not the agent, if there is one.
unfoldable pub customer_of : Text → List Raw → Text
unfolding text_eq
customer_of agent [] = agent
customer_of agent (m ∷ ms) =
    let later = customer_of agent ms in if text_eq m.sender agent then later else m.sender

abbrev pub dto_of : Text → Raw → MessageDto
dto_of agent m = record {
  role = if text_eq m.sender agent then txt "assistant" else txt "user";
  content = m.content;
  timestamp = m.ts;
}

-- The conversation of the messages, if there are some; the first sender is the agent.
unfoldable pub chat_of : Text → List Raw → List ConversationDto
unfolding customer_of sort_messages text_eq
chat_of external_id [] = []
chat_of external_id (m ∷ ms) =
    record {
      external_id = external_id;
      platform = txt "whatsapp";
      started_at = some m.ts;
      contact_name = some (customer_of m.sender (m ∷ ms));
      contact_phone = none;
      messages = sort_messages (map (dto_of m.sender) (m ∷ ms));
    }
    ∷ []

-- `parse`; `sha1_hex` is the digest of the text.
unfoldable pub parse_whatsapp :
    Unicode → (ℕ → ℕ → Bool) → (Text → Text) → Text → Option (List ConversationDto)
unfolding chat_lines collect chat_of
parse_whatsapp u same sha1_hex text = elim (collect u (chat_lines u same text) [] false) [
  | none ↦ none
  | some raw ↦ some (chat_of (txt "wa-" ++ take 16 (sha1_hex text)) raw)
]
