-- ===== src/Grounding/Tests.antt =====
-- A verdict that cites a code found nowhere, and one that is left as it is.
use insyta_api.Prelude.{
  ◌≡◌, refl, inl, inr, true, Option, none, some, [], ◌∷◌, Text, txt, ascii, mem_text, has_part,
  text_eq,
}
use insyta_api.Prelude.Int.{pos}
use insyta_api.Rubric.Mapping.{MessageVerdict, first_hallucination, mapped_confidence}
use insyta_api.Grounding.{cited_tokens, ungrounded_tokens, guard_verdicts}
use insyta_api.Grounding.Guard.{Ungrounded, guard_verdicts-mapped_confidence}

abbrev note_text : Text
note_text = txt "Inventa LOC_D073 a $45.990 y AB-12, de nuevo LOC_D073"

abbrev fine : MessageVerdict
fine = record {
  seq = pos 1;
  label = txt "ok";
  issue_type = none;
  issue_subtype = none;
  severity = none;
  note = none;
}

abbrev invented : MessageVerdict
invented = record {
  seq = pos 2;
  label = txt "issue";
  issue_type = some (txt "alucinacion");
  issue_subtype = none;
  severity = some (txt "critica");
  note = some note_text;
}

abbrev talk : Option Text
talk = some (txt "cuesta $ 45.990")

cited : cited_tokens ascii (some note_text) ≡ txt "LOC_D073" ∷ txt "AB-12" ∷ txt "$45.990" ∷ []
unfolding cited_tokens mem_text
cited = refl

ungrounded : ungrounded_tokens ascii (some note_text) talk none ≡ txt "LOC_D073" ∷ txt "AB-12" ∷ []
unfolding ungrounded_tokens mem_text has_part
ungrounded = refl

invented-Ungrounded : Ungrounded ascii talk none invented
unfolding ungrounded_tokens mem_text has_part
invented-Ungrounded = (note_text, refl, refl, refl)

guard_verdicts-mapped_confidence_example :
    mapped_confidence
      (first_hallucination (guard_verdicts ascii (fine ∷ invented ∷ []) talk none).adjusted)
      true
    ≡ 40
unfolding text_eq
guard_verdicts-mapped_confidence_example =
    guard_verdicts-mapped_confidence ascii talk none (fine ∷ invented ∷ []) invented (txt "critica")
      true (unfold first_hallucination in refl) invented-Ungrounded refl
      (inr (inr (inr (inl refl))))
