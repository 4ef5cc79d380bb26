-- ===== src/Parsers/WhatsApp/Tests.antt =====
-- Exports of both dialects.
use insyta_api.Prelude.{
  ◌≡◌, refl, some, none, [], ◌∷◌, ◌++◌, Text, txt, ascii, List, if◌then◌else◌, any, take,
}
use insyta_api.Regex.Build.{ascii_same}
use insyta_api.Upload.{ConversationDto}
use insyta_api.Parsers.WhatsApp.{chat_lines, chat_of, parse_whatsapp}
use insyta_api.Parsers.WhatsApp.Spoken.{is_fatal, spoken, parse_whatsapp-spoken}

abbrev digest : Text → Text
digest t = txt "0123456789abcdef0123"

abbrev lines : List Text → Text
lines [] = []
lines (l ∷ ls) = l ++ (10 ∷ lines ls)

-- A line before the first message, a system message with a line behind it, and a message of two
-- lines.
abbrev android : Text
android = lines (
    txt "sin header"
    ∷ txt "1/3/2025 14:05 - Cifrado"
    ∷ txt "de extremo a extremo"
    ∷ txt "1/3/2025 14:05 - Local: hola"
    ∷ txt "otra linea"
    ∷ txt "1/3/2025, 2:04 p. m. - Ana: si"
    ∷ [])

abbrev chat : ConversationDto
chat = record {
  external_id = txt "wa-0123456789abcdef";
  platform = txt "whatsapp";
  started_at = some 63876445500000000;
  contact_name = some (txt "Ana");
  contact_phone = none;
  messages =
      record { role = txt "user"; content = txt "si"; timestamp = 63876445440000000 }
      ∷ record {
        role = txt "assistant";
        content = txt "hola" ++ (10 ∷ txt "otra linea");
        timestamp = 63876445500000000;
      }
      ∷ [];
}

parsed : parse_whatsapp ascii ascii_same digest android ≡ some (chat ∷ [])
unfolding parse_whatsapp
parsed = refl

-- A header of iOS with a month 22 raises.
ios_month : parse_whatsapp ascii ascii_same digest (txt "[03/22/25, 6:11] Local: hola") ≡ none
unfolding parse_whatsapp
ios_month = refl

-- A blank line inside a message is lost.
blank_line :
    spoken ascii
      (chat_lines ascii ascii_same (lines (txt "[3/2/25, 6:11] A: x" ∷ [] ∷ txt "y" ∷ [])))
    ≡ spoken ascii (chat_lines ascii ascii_same (lines (txt "[3/2/25, 6:11] A: x" ∷ txt "y" ∷ [])))
unfolding chat_lines
blank_line = refl

parse_whatsapp-spoken_example : some (chat ∷ []) ≡ (
    if any is_fatal (chat_lines ascii ascii_same android)
    then none
    else some (
        chat_of
          (txt "wa-" ++ take 16 (digest android))
          (spoken ascii (chat_lines ascii ascii_same android))))
unfolding parse_whatsapp
parse_whatsapp-spoken_example = parse_whatsapp-spoken ascii ascii_same digest android
