-- ===== src/Audit/Conversation/Examples.antt =====
-- The examples that are kept for the generator of suggestions come from anonymized contents.
use insyta_api.Prelude.{
  ◌≤◌, ltb, ◌≡◌, refl, sym, ap, ◌∙◌, inl, inr, Bool, true, false, Option, none, some, List, [], ◌∷◌,
  ◌++◌, All, In, Text, take, length, length-append, text_eq, Bool-cases, Option-cases, arith,
  if◌then◌else◌,
}
use insyta_api.Prelude.Int.{ℤ}
use insyta_api.Grounding.{or_blank}
use insyta_api.Rubric.Mapping.{MessageVerdict}
use insyta_api.Audit.Tables.{AuditMessage, Conversation, message_at, eq_ℤ}
use insyta_api.Audit.Conversation.{
  Example, Examples, Totals, issue_of, add_example, anonymized_at, tally_issue, tally_unhandled,
  tally_verdict, tally_verdicts,
}

-- The text is the start of the anonymized content of a message of the conversations.
abbrev pub IsAnonymized : List Conversation → Text → Type 0
IsAnonymized convs snippet =
    (conv : Conversation) × In conv convs
    × ((m : AuditMessage) × In m conv.messages
        × ((s : Text) × (m.content_anonymized ≡ some s) × (snippet ≡ take 240 s)))

-- At most two examples for an issue, all of them anonymized.
abbrev pub AreAnonymized : List Conversation → Examples → Type 0
AreAnonymized convs ex =
    All
      (λ (p : Text × List Example).
        (length p.1 ≤ 2) × All (λ (e : Example). IsAnonymized convs e.snippet) p.1)
      ex

none-some : {A : Type 0} (x : A) → ¬ (none ≡ some x)
none-some x h = ground arith

module _ (seq : ℤ) (x : AuditMessage) (ms : List AuditMessage) where
  here : message_at seq ms ≡ none → eq_ℤ x.seq seq ≡ true → message_at seq (x ∷ ms) ≡ some x
  unfolding message_at
  here e f = rw (e, f) refl

  nowhere : message_at seq ms ≡ none → eq_ℤ x.seq seq ≡ false → message_at seq (x ∷ ms) ≡ none
  unfolding message_at
  nowhere e f = rw (e, f) refl

  later : (y : AuditMessage) → message_at seq ms ≡ some y → message_at seq (x ∷ ms) ≡ some y
  unfolding message_at
  later y e = rw e refl

pub some-inj : {A : Type 0} (x y : A) → some x ≡ some y → x ≡ y
some-inj x y h = cc

message_at-In :
    (seq : ℤ) (ms : List AuditMessage) (m : AuditMessage) → message_at seq ms ≡ some m → In m ms
message_at-In seq [] m h = absurd (unfold message_at in ground arith)
message_at-In seq (x ∷ ms) m h =
    let rest = message_at-In seq ms in
    elim (Option-cases (message_at seq ms)) [
      | inl e ↦ elim (Bool-cases (eq_ℤ x.seq seq)) [
        | inl f ↦ inl (sym (some-inj x m (sym (here seq x ms e f) ∙ h)))
        | inr f ↦ absurd (none-some m (sym (nowhere seq x ms e f) ∙ h))
      ]
      | inr (y, e) ↦ inr (rest m (e ∙ sym (later seq x ms y e) ∙ h))
    ]

All-snoc :
    (P : Example → Type 0) (es : List Example) (e : Example) → All P es → P e → All P (es ++ e ∷ [])
All-snoc P [] e h p = (p, tt)
All-snoc P (x ∷ es) e (q, h) p = (q, All-snoc P es e h p)

-- One more example, from a content with what is there.
add_example-AreAnonymized :
    (convs : List Conversation) (issue note : Text) (o : Option Text)
    → ((s : Text) → o ≡ some s → IsAnonymized convs (take 240 s))
    → (ex : Examples) → AreAnonymized convs ex
    → AreAnonymized convs (add_example issue note o ex)
unfolding add_example
add_example-AreAnonymized convs issue note none f [] h = ((omega arith, tt), tt)
add_example-AreAnonymized convs issue note (some []) f [] h = ((omega arith, tt), tt)
add_example-AreAnonymized convs issue note (some (c ∷ s)) f [] h =
    ((omega arith, (f (c ∷ s) refl, tt)), tt)
add_example-AreAnonymized convs issue note none f ((k, es) ∷ rest) ((l, a), h) =
    let more = add_example-AreAnonymized convs issue note none f rest h in
    elim (Bool-cases (text_eq k issue)) [ inl e ↦ rw e ((l, a), h) | inr e ↦ rw e ((l, a), more) ]
add_example-AreAnonymized convs issue note (some []) f ((k, es) ∷ rest) ((l, a), h) =
    let more = add_example-AreAnonymized convs issue note (some []) f rest h in
    elim (Bool-cases (text_eq k issue)) [ inl e ↦ rw e ((l, a), h) | inr e ↦ rw e ((l, a), more) ]
add_example-AreAnonymized convs issue note (some (c ∷ s)) f ((k, es) ∷ rest) ((l, a), h) =
    let more = add_example-AreAnonymized convs issue note (some (c ∷ s)) f rest h in
    let new : Example = record { note = note; snippet = take 240 (c ∷ s) } in
    let two = length-append es (new ∷ []) in
    let all_of =
      All-snoc (λ (e : Example). IsAnonymized convs e.snippet) es new a (f (c ∷ s) refl) in
    elim (Bool-cases (text_eq k issue)) [
      | inl e ↦ elim (Bool-cases (ltb (length es) 2)) [
        | inl g ↦ let le : length (es ++ new ∷ []) ≤ 2 = ground arith in rw (e, g) ((le, all_of), h)
        | inr g ↦ rw (e, g) ((l, a), h)
      ]
      | inr e ↦ rw e ((l, a), more)
    ]

module _ (convs : List Conversation) (conv : Conversation) (i : In conv convs) where
  anonymized_at-IsAnonymized :
      (v : MessageVerdict) (s : Text)
      → anonymized_at v.seq conv.messages ≡ some s
      → IsAnonymized convs (take 240 s)
  anonymized_at-IsAnonymized v s h = elim (Option-cases (message_at v.seq conv.messages)) [
    | inl e ↦ absurd (
        none-some s (
          ap (λ o. elim o as (λ _. Option Text) [ none ↦ none | some m ↦ m.content_anonymized ])
            (sym e)
          ∙ h))
    | inr (m, e) ↦ (
      conv,
      i,
      (
        m,
        message_at-In v.seq conv.messages m e,
        (
          s,
          ap (λ o. elim o as (λ _. Option Text) [ none ↦ none | some n ↦ n.content_anonymized ])
                (sym e)
              ∙ h,
          refl,
        ),
      ),
    )
  ]

  tally_issue-AreAnonymized :
      (dup : Bool) (v : MessageVerdict) (issue : Text) (t : Totals)
      → AreAnonymized convs t.examples
      → AreAnonymized convs (tally_issue conv dup v issue t).examples
  unfolding tally_issue
  tally_issue-AreAnonymized true v issue t h = h
  tally_issue-AreAnonymized false v issue t h =
      add_example-AreAnonymized convs issue (or_blank v.note) (anonymized_at v.seq conv.messages)
        (anonymized_at-IsAnonymized v) t.examples h

  if-AreAnonymized :
      (b : Bool) (x t : Totals)
      → AreAnonymized convs x.examples
      → AreAnonymized convs t.examples
      → AreAnonymized convs (if b then x else t).examples
  if-AreAnonymized true x t h k = h
  if-AreAnonymized false x t h k = k

  tally_unhandled-AreAnonymized :
      (v : MessageVerdict) (issue : Text) (t : Totals)
      → AreAnonymized convs t.examples
      → AreAnonymized convs (tally_unhandled conv v issue t).examples
  unfolding tally_unhandled
  tally_unhandled-AreAnonymized v issue t h = if-AreAnonymized _ _ t h h

  tally_verdict-AreAnonymized :
      (dup : Bool) (v : MessageVerdict) (o : Option Text) (t : Totals)
      → AreAnonymized convs t.examples
      → AreAnonymized convs (tally_verdict conv dup v o t).examples
  unfolding tally_verdict
  tally_verdict-AreAnonymized dup v none t h = h
  tally_verdict-AreAnonymized dup v (some issue) t h =
      tally_unhandled-AreAnonymized v issue (tally_issue conv dup v issue t)
        (tally_issue-AreAnonymized dup v issue t h)

  pub tally_verdicts-AreAnonymized :
      (dup : Bool) (vs : List MessageVerdict) (t : Totals)
      → AreAnonymized convs t.examples
      → AreAnonymized convs (tally_verdicts conv dup vs t).examples
  unfolding tally_verdicts
  tally_verdicts-AreAnonymized dup [] t h = h
  tally_verdicts-AreAnonymized dup (v ∷ vs) t h =
      tally_verdicts-AreAnonymized dup vs (tally_verdict conv dup v (issue_of v) t)
        (tally_verdict-AreAnonymized dup v (issue_of v) t h)
