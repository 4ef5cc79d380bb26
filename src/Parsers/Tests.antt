-- ===== src/Parsers/Tests.antt =====
-- The theorems on parsers at a concrete file.
use insyta_api.Prelude.{◌≡◌, refl, none, some, List, [], ◌∷◌, Text, txt, ascii, text_eq, All}
use insyta_api.Upload.{ConversationDto}
use insyta_api.Parsers.{Python, wati}
use insyta_api.Parsers.Export.{parse}
use insyta_api.Parsers.Start.{Ordered, parse-Ordered}

-- Instants of one letter.
abbrev python : Python
python = record { unicode = ascii; from_iso = λ t. elim t [ [] ↦ none | c ∷ s ↦ some c ] }

abbrev header : List Text
header = txt " Role" ∷ txt "conversation_id" ∷ txt "content" ∷ txt "timestamp" ∷ []

abbrev rows : List (List Text)
rows =
    (txt "bot" ∷ txt "549" ∷ txt "hola" ∷ txt "b" ∷ [])
    ∷ (txt "cliente" ∷ txt " 549" ∷ txt "buenas" ∷ txt "a" ∷ [])
    ∷ []
    ∷ (txt "u" ∷ txt "" ∷ txt "x" ∷ [])
    ∷ []

abbrev chat : ConversationDto
chat = record {
  external_id = txt "549";
  platform = txt "wati";
  started_at = some b'a';
  contact_name = none;
  contact_phone = none;
  messages =
      record { role = txt "user"; content = txt "buenas"; timestamp = b'a' }
      ∷ record { role = txt "assistant"; content = txt "hola"; timestamp = b'b' }
      ∷ [];
}

parsed : parse python wati (header ∷ rows) ≡ some (chat ∷ [])
unfolding parse text_eq
parsed = refl

-- A row that ends before its timestamp is an error.
short_row : parse python wati (header ∷ (txt "u" ∷ txt "549" ∷ txt "x" ∷ []) ∷ []) ≡ none
unfolding parse text_eq
short_row = refl

parse-Ordered_example : All Ordered (chat ∷ [])
parse-Ordered_example = parse-Ordered python wati (header ∷ rows) (chat ∷ []) parsed
