-- ===== src/Grounding.antt =====
-- app/services/verdict_grounding.py: verdicts of the judge whose note cites a code or a price that
-- neither the conversation nor the sources contain.
pub mod Tokens
pub mod Guard
mod Tests
use insyta_api.Prelude.{
  ℕ, Bool, true, false, not, ◌&&◌, ◌||◌, ◌==◌, leb, Option, none, some, List, [], ◌∷◌, ◌++◌, map,
  Text, txt, text_eq, mem_text, has_part, take, any, length, is_some, lower_text, Unicode,
  if◌then◌else◌,
}
use insyta_api.Prelude.Int.{ℤ}
use insyta_api.Regex.{Re, one, empty, seq, alt, many, opt, some_of, seqs, joined, find_iter, sub_re}
use insyta_api.Rubric.Scoring.{truthy}
use insyta_api.Rubric.Mapping.{MessageVerdict}
use insyta_api.Judge.{join}

abbrev pub is_upper : ℕ → Bool
is_upper c = leb b'A' c && leb c b'Z'

abbrev pub is_digit : ℕ → Bool
is_digit c = leb b'0' c && leb c b'9'

abbrev pub is_code_char : ℕ → Bool
is_code_char c = is_upper c || is_digit c

-- `_CODE_RE`
unfoldable pub code_re : Re
code_re =
    let two_or_more = seq (one is_code_char) (some_of (one is_code_char)) in
    let tail = seq (one (λ c. c == b'_' || c == b'-')) (some_of (one is_code_char)) in
    seq two_or_more (many tail)

-- What `_CODE_RE` finds is of ASCII, where `isdigit` and `isalpha` are these.
abbrev pub is_code : Text → Bool
is_code t = leb 4 (length t) && (any is_digit t && any is_upper t)

abbrev pub keep_if : (Text → Bool) → List Text → List Text
keep_if p [] = []
keep_if p (t ∷ ts) = if p t then t ∷ keep_if p ts else keep_if p ts

-- The tokens not seen, in order.
unfoldable pub unseen : List Text → List Text → List Text
unseen seen [] = []
unseen seen (t ∷ ts) = if mem_text t seen then unseen seen ts else t ∷ unseen (t ∷ seen) ts

-- `s or ""`
abbrev pub or_blank : Option Text → Text
or_blank none = []
or_blank (some s) = s

module _ (u : Unicode) where
  -- `_PRICE_RE`
  unfoldable pub price_re : Re
  price_re =
      let digit = one (λ c. is_some (u.decimal c)) in
      let more = one (λ c. is_some (u.decimal c) || (c == b'.' || c == b',')) in
      seqs (one (λ c. c == b'$') ∷ opt (one u.is_space) ∷ digit ∷ many more ∷ [])

  -- `_norm`
  unfoldable pub norm : Option Text → Text
  unfolding sub_re lower_text
  norm s = sub_re (some_of (one u.is_space) ∷ []) (λ m. []) (lower_text u (or_blank s))

  -- `cited_tokens`
  unfoldable pub cited_tokens : Option Text → List Text
  unfolding code_re price_re find_iter unseen
  cited_tokens note =
      let codes = keep_if is_code (map joined (find_iter (code_re ∷ []) (or_blank note))) in
      let prices = map joined (find_iter (price_re ∷ []) (or_blank note)) in
      unseen [] (codes ++ prices)

  -- `haystack`
  unfoldable pub haystack : Option Text → Option Text → Text
  unfolding norm
  haystack evidence sources = norm evidence ++ (txt "␟" ++ norm sources)

  abbrev pub is_ungrounded : Text → Text → Bool
  is_ungrounded hay t = truthy (norm (some t)) && not (has_part (norm (some t)) hay)

  -- `ungrounded_tokens`
  unfoldable pub ungrounded_tokens : Option Text → Option Text → Option Text → List Text
  unfolding cited_tokens haystack
  ungrounded_tokens note evidence sources =
      keep_if (is_ungrounded (haystack evidence sources)) (cited_tokens note)

-- `_downgrade_severity`
unfoldable pub downgrade_severity : Option Text → Option Text
downgrade_severity none = none
downgrade_severity (some s) =
    if text_eq s (txt "critica") || text_eq s (txt "alta") then some (txt "media") else some s

-- `new_note`
unfoldable pub marked_note : Text → List Text → Text
unfolding join
marked_note note ung =
    take 400 (note ++ (txt " [⚠ dato no verificado: " ++ (join (txt ", ") ung ++ txt "]")))

-- The copy of a verdict that is marked.
unfoldable pub marked : MessageVerdict → Text → List Text → MessageVerdict
unfolding downgrade_severity marked_note
marked v note ung = record {
  seq = v.seq;
  label = v.label;
  issue_type = v.issue_type;
  issue_subtype = v.issue_subtype;
  severity = downgrade_severity v.severity;
  note = some (marked_note note ung);
}

-- The copy, if the note cites something that is not grounded.
unfoldable pub guard_verdict :
    Unicode → Option Text → Option Text → MessageVerdict → Option MessageVerdict
unfolding ungrounded_tokens marked
guard_verdict u evidence sources v = elim v.note [
  | none ↦ none
  | some note ↦
      let ung = ungrounded_tokens u (some note) evidence sources in
      if truthy ung && truthy note then some (marked v note ung) else none
]

-- `guard_verdicts`: the verdicts adjusted, how many are marked, and their numbers.
pub record Guarded : Type 0 where
  pub adjusted : List MessageVerdict
  pub flagged_seqs : List ℤ

-- The verdict's turn in the loop.
abbrev pub guard_step : MessageVerdict → Option MessageVerdict → Guarded → Guarded
guard_step v none rest = record { adjusted = v ∷ rest.adjusted; flagged_seqs = rest.flagged_seqs }
guard_step v (some w) rest = record {
  adjusted = w ∷ rest.adjusted;
  flagged_seqs = v.seq ∷ rest.flagged_seqs;
}

unfoldable pub guard_verdicts : Unicode → List MessageVerdict → Option Text → Option Text → Guarded
unfolding guard_verdict
guard_verdicts u [] evidence sources = record { adjusted = []; flagged_seqs = [] }
guard_verdicts u (v ∷ vs) evidence sources =
    guard_step v (guard_verdict u evidence sources v) (guard_verdicts u vs evidence sources)
