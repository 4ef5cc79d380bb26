-- ===== src/Parsers/WhatsApp/Spoken.antt =====
-- What the loop of app/workers/parsers/whatsapp.py collects.
use insyta_api.Prelude.{
  ◌≡◌, refl, sym, ap, ◌∙◌, Bool, true, false, any, Option, none, some, List, [], ◌∷◌, ◌++◌, Text,
  txt, take, Unicode, if◌then◌else◌, Bool-cases, append_assoc, append_nil, inl, inr, ℕ,
}
use insyta_api.Parsers.WhatsApp.{
  Line, message, system, plain, fatal, Raw, chat_lines, extended, continue_last, collect, chat_of,
  parse_whatsapp,
}

abbrev pub is_fatal : Line → Bool
is_fatal fatal = true
is_fatal _ = false

-- The plain lines that a list of lines begins with.
abbrev pub leading : List Line → List Text
leading (plain l ∷ ls) = l ∷ leading ls
leading _ = []

module _ (u : Unicode) where
  -- A message with more lines, one after the other.
  abbrev pub with_lines : Raw → List Text → Raw
  with_lines m [] = m
  with_lines m (l ∷ ls) = with_lines (extended u l m) ls

  -- Every message of the lines, with the plain lines directly behind it.
  abbrev pub spoken : List Line → List Raw
  spoken [] = []
  spoken (message s t c ∷ ls) =
      with_lines (record { sender = s; ts = t; content = c }) (leading ls) ∷ spoken ls
  spoken (_ ∷ ls) = spoken ls

  -- The lines, unless one of them raises.
  abbrev checked : List Line → List Raw → Option (List Raw)
  checked ls ms = if any is_fatal ls then none else some ms

  continue_last-append :
      (l : Text) (ms : List Raw) (m : Raw)
      → continue_last u l (ms ++ m ∷ []) ≡ ms ++ extended u l m ∷ []
  unfolding continue_last
  continue_last-append l [] m = refl
  continue_last-append l (n ∷ []) m = refl
  continue_last-append l (n ∷ k ∷ ms) m = ap (λ v. n ∷ v) (continue_last-append l (k ∷ ms) m)

  -- What the loop comes to after a system message, and after a message that goes on.
  abbrev Skipping : List Line → Type 0
  Skipping ls = (ms : List Raw) → collect u ls ms true ≡ checked ls (ms ++ spoken ls)

  abbrev Open : List Line → Type 0
  Open ls =
      (ms : List Raw) (m : Raw)
      → collect u ls (ms ++ m ∷ []) false ≡ checked ls (ms ++ with_lines m (leading ls) ∷ spoken ls)

  collect_going : (ls : List Line) → Skipping ls × Open ls
  unfolding collect
  collect_going [] = (λ ms. ap (λ v. some v) (sym (append_nil ms)), λ ms m. refl)
  collect_going (message s t c ∷ ls) =
      let next : Raw = record { sender = s; ts = t; content = c } in
      let (_, going) = collect_going ls in
      (
        λ ms. going ms next,
        λ ms m.
            going (ms ++ m ∷ []) next
            ∙ ap (λ v. checked ls v)
                (append_assoc ms (m ∷ []) (with_lines next (leading ls) ∷ spoken ls)),
      )
  collect_going (system ∷ ls) =
      let (skipping, _) = collect_going ls in
      (
        skipping,
        λ ms m.
            skipping (ms ++ m ∷ []) ∙ ap (λ v. checked ls v) (append_assoc ms (m ∷ []) (spoken ls)),
      )
  collect_going (plain l ∷ ls) =
      let (skipping, going) = collect_going ls in
      (
        skipping,
        λ ms m.
            ap (λ v. collect u ls v false) (continue_last-append l ms m)
            ∙ going ms (extended u l m),
      )
  collect_going (fatal ∷ ls) = (λ ms. refl, λ ms m. refl)

  -- Before the first message.
  collect-spoken : (ls : List Line) → collect u ls [] false ≡ checked ls (spoken ls)
  unfolding collect continue_last
  collect-spoken [] = refl
  collect-spoken (message s t c ∷ ls) =
      (collect_going ls).1 [] (record { sender = s; ts = t; content = c })
  collect-spoken (system ∷ ls) = (collect_going ls).0 []
  collect-spoken (plain l ∷ ls) = collect-spoken ls
  collect-spoken (fatal ∷ ls) = refl

-- The parser raises exactly if some line is a header with an invalid date that is not one of
-- Android's, or an instant past the year 9999. Otherwise the chat is the one of the messages of the
-- file, each with the plain lines directly behind it: no line behind a system message and none
-- before the first message is in it.
pub parse_whatsapp-spoken :
    (u : Unicode) (same : ℕ → ℕ → Bool) (sha1_hex : Text → Text) (text : Text)
    → let ls = chat_lines u same text in
      parse_whatsapp u same sha1_hex text ≡ (
        if any is_fatal ls
        then none
        else some (chat_of (txt "wa-" ++ take 16 (sha1_hex text)) (spoken u ls)))
unfolding parse_whatsapp
parse_whatsapp-spoken u same sha1_hex text =
    let ls = chat_lines u same text in
    elim (Bool-cases (any is_fatal ls)) [
      | inl e ↦ rw (parse_whatsapp, collect-spoken u ls, e) refl
      | inr e ↦ rw (parse_whatsapp, collect-spoken u ls, e) refl
    ]
