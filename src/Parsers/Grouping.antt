-- ===== src/Parsers/Grouping.antt =====
-- The conversations that the parsers build, by identifier.
use insyta_api.Prelude.{◌≡◌, refl, ◌⊎◌, inl, inr, List, [], ◌∷◌, if◌then◌else◌, Text, text_eq}
use insyta_api.Upload.{MessageDto, ConversationDto}
use insyta_api.Parsers.{Python, Format, Entry, ReadRow, skipped, no_instant, entry, read_row}

-- The messages of a conversation among some.
abbrev pub messages_of : Text → List ConversationDto → List MessageDto
messages_of id [] = []
messages_of id (b ∷ bs) = if text_eq b.external_id id then b.messages else messages_of id bs

-- The messages of the rows with an identifier, in their order.
abbrev pub messages_with : Python → Format → List Text → Text → List (List Text) → List MessageDto
messages_with p f names id [] = []
messages_with p f names id ([] ∷ rows) = messages_with p f names id rows
messages_with p f names id ((c ∷ cs) ∷ rows) =
    let rest = messages_with p f names id rows in
    elim (read_row p f names (c ∷ cs)) as (λ _. List MessageDto) [
      | entry e ↦ if text_eq e.conv_id id then e.message ∷ rest else rest
      | _ ↦ rest
    ]

-- What a row can be.
pub row_cases : (r : ReadRow) → (r ≡ skipped) ⊎ ((r ≡ no_instant) ⊎ ((e : Entry) × (r ≡ entry e)))
row_cases skipped = inl refl
row_cases no_instant = inr (inl refl)
row_cases (entry e) = inr (inr (e, refl))
