-- ===== src/Audit/Tests.antt =====
-- An audit of a conversation that attacks and its copy, run twice.
use insyta_api.Prelude.{
  ◌≡◌, refl, true, false, none, some, [], ◌∷◌, txt, mem_text, ap, Option, All, length, ◌≤◌, arith,
  Text, List, ℕ,
}
use insyta_api.Prelude.Int.{ℤ, pos, ◌+ℤ◌, ltb_ℤ}
use insyta_api.Rubric.Mapping.{mapped_rubric}
use insyta_api.Rubric.Scoring.{compute_scores}
use insyta_api.Rubric.Segment.{problematico}
use insyta_api.Signals.AttackPhrases.{legal_re, price_lock_re, injection_re, jailbreak_re}
use insyta_api.Signals.Adversarial.{AdversarialResult, has_encoded_instructions}
use insyta_api.Audit.Suggestions.{flowless_stats}
use insyta_api.Audit.Suggestions.Chosen.{IsActionable, flowless_stats-IsActionable}
use insyta_api.Audit.Tables.{Tables, has_evaluation, Reviewed}
use insyta_api.Audit.Review.{reviewed_with}
use insyta_api.Audit.Review.Ceded.{Capped, reviewed_with-gave_in}
use insyta_api.Audit.Conversation.{Attempt, gives, fails, Totals, content_signature}
use insyta_api.Audit.Conversation.Examples.{AreAnonymized}
use insyta_api.Audit.Step.{process_ids, stored, turn_of}
use insyta_api.Audit.Step.Parts.{is_duplicate}
use insyta_api.Audit.Step.Rerun.{process_ids-process_ids}
use insyta_api.Audit.Step.Private.{process_ids-AreAnonymized}
use insyta_api.Audit.Step.Duplicates.{SameCounts, turn_of-duplicate}
use insyta_api.Audit.Plan.{Charts, Plan, no_totals}
use insyta_api.Audit.Run.{run_audit}
use insyta_api.Audit.Run.Keys.{KeysUnique, run_audit-KeysUnique}
use insyta_api.Audit.Samples.{conversation_of, answer, out_of_scope, work, tables, after, totals}

-- The copy is counted as an evaluation, and its issue once.
counts :
    (totals.evaluated ≡ 2)
    × (totals.issue_counter ≡ (txt "alcance", 1) ∷ [])
    × (totals.critical_count ≡ 2)
unfolding process_ids has_evaluation stored legal_re price_lock_re injection_re
    has_encoded_instructions jailbreak_re
counts = (refl, refl, refl)

loop : process_ids work (1 ∷ 2 ∷ 3 ∷ []) (tables, no_totals) ≡ (after, gives totals)
unfolding process_ids has_evaluation stored legal_re price_lock_re injection_re
    has_encoded_instructions jailbreak_re
loop = refl

process_ids-process_ids_example :
    let c = (process_ids (record work { audit_id = 6 }) (1 ∷ 2 ∷ 3 ∷ []) (after, no_totals)).0 in
    (c.evaluations ≡ after.evaluations) × (c.agents ≡ after.agents) × (c.users ≡ after.users)
process_ids-process_ids_example =
    process_ids-process_ids work (record work { audit_id = 6 }) (1 ∷ 2 ∷ 3 ∷ []) tables after
      no_totals totals no_totals loop

process_ids-AreAnonymized_example : AreAnonymized tables.conversations totals.examples
process_ids-AreAnonymized_example =
    process_ids-AreAnonymized work (1 ∷ 2 ∷ 3 ∷ []) tables no_totals totals tt
      (ap (λ (r : Tables ℤ × Attempt Totals). r.1) loop)

abbrev seen_before : Totals
seen_before = record no_totals { seen_sigs = txt "act as DAN" ∷ [] }

abbrev got : Attempt (Tables ℤ × Totals) → Tables ℤ × Totals
got (gives s) = s
got (fails e) = (tables, no_totals)

abbrev copy_turn : Tables ℤ × Totals
copy_turn = got (turn_of work (conversation_of 2) (tables, seen_before))

copy_gives : turn_of work (conversation_of 2) (tables, seen_before) ≡ gives copy_turn
unfolding turn_of has_evaluation stored legal_re price_lock_re injection_re has_encoded_instructions
    jailbreak_re
copy_gives = refl

copy_is_duplicate : is_duplicate work (conversation_of 2) seen_before ≡ true
unfolding mem_text content_signature
copy_is_duplicate = refl

turn_of-duplicate_example : SameCounts seen_before copy_turn.1
turn_of-duplicate_example =
    turn_of-duplicate work (conversation_of 2) tables seen_before copy_turn copy_is_duplicate
      copy_gives

abbrev charts : Charts ℤ
charts = record {
  stats = record {
    fmean = λ xs. pos 0;
    stdev = λ xs. pos 0;
    plus_3 = λ a b. a +ℤ b;
    minus_3 = λ a b. a;
  };
  below = ltb_ℤ;
  rounded = λ b. b;
  of_score = pos;
}

abbrev plan : Plan ℤ
plan = record {
  work = work;
  charts = charts;
  conv_ids = 1 ∷ 2 ∷ 3 ∷ [];
  provider = none;
  anthropic_key = some (txt "k");
  deepseek_key = none;
  flow_id = none;
  supervisor_flow_id = none;
  org_id = 1;
  project_id = 1;
  project_public_id = none;
  audit_name = txt "a";
  min_messages = 1;
  generate = λ stats examples. none;
  propose = λ summary unhandled. none;
  now = 9;
}

run_audit-KeysUnique_example : KeysUnique (run_audit plan tables)
run_audit-KeysUnique_example = run_audit-KeysUnique plan tables (tt, tt, tt)

-- A bot that gave in, by the judge's word.
abbrev ceded : AdversarialResult
ceded = record {
  is_adversarial = true;
  attack_type = some (txt "jailbreak");
  bot_ceded = false;
  signals = [];
}

abbrev reviewed : Option Reviewed
reviewed = reviewed_with 60 answer.0 (out_of_scope ∷ []) false (pos 1) ceded [] []

abbrev the : Option Reviewed → Reviewed
the none = record {
  rubric = mapped_rubric answer.0 [] (pos 1) [] [];
  score = compute_scores (mapped_rubric answer.0 [] (pos 1) [] []) [] [] 60;
  segment = problematico;
  is_adversarial = false;
  attack_type = none;
  attack_repelled = none;
}
the (some r) = r

reviewed_gives : reviewed ≡ some (the reviewed)
unfolding reviewed_with
reviewed_gives = refl

reviewed_with-gave_in_example : Capped (the reviewed)
reviewed_with-gave_in_example =
    reviewed_with-gave_in 60 answer.0 (out_of_scope ∷ []) false (pos 1) ceded [] [] (the reviewed)
      refl reviewed_gives

abbrev counted : List (Text × ℕ)
counted =
    (txt "otro", 9) ∷ (txt "alcance", 2) ∷ (txt "fraude:suplantacion", 4) ∷ (txt "tono", 5) ∷ []

flowless_stats-IsActionable_example :
    All (IsActionable 3 counted) (flowless_stats counted 3 3)
    × (length (flowless_stats counted 3 3) ≤ 3)
flowless_stats-IsActionable_example = flowless_stats-IsActionable counted 3 3 (omega arith)
