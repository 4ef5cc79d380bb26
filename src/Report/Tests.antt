-- ===== src/Report/Tests.antt =====
-- A test of the report, and its theorems on concrete rows.
use insyta_api.Prelude.{◌+◌, ◌≡◌, refl, true, false, none, some, List, [], ◌∷◌, txt, round_div}
use insyta_api.Report.{Row, build_report_summary}
use insyta_api.Report.Summary.{
  count, is_legit, build_report_summary_counts, build_report_summary_adds_up,
}

abbrev plain : Row
plain = record {
  score = some 90;
  score_final = none;
  satisfaction = some 5;
  resolution = some true;
  escalated = some false;
  scope_violation = none;
  is_adversarial = none;
  attack_type = none;
  attack_repelled = none;
}

abbrev capped : Row
capped = record plain {
  score_final = some 20;
  satisfaction = some 3;
  resolution = some false;
  escalated = some true;
}

abbrev attack : Row
attack = record capped {
  is_adversarial = some true;
  attack_type = some (txt "jailbreak");
  attack_repelled = some true;
}

abbrev rows : List Row
rows = plain ∷ capped ∷ attack ∷ []

rows_summary : build_report_summary rows 3 ≡ record {
  total = 3;
  satisfaction = record { satisfecho_n = 1; neutral_n = 1; insatisfecho_n = 0 };
  avg_score = some 55;
  resolved = 1;
  legitimate = 2;
  pct = some 50;
  correctly_rejected = 1;
  adversarial_total = 1;
  repelled = 1;
  ceded = 0;
  by_type = (txt "jailbreak", 1) ∷ [];
  escalations_correct = 1;
  escalations_avoidable = 1;
}
unfolding build_report_summary round_div
rows_summary = refl

build_report_summary_counts_example : (build_report_summary rows 3).legitimate ≡ count is_legit rows
build_report_summary_counts_example = (build_report_summary_counts rows 3).0

build_report_summary_adds_up_example :
    (build_report_summary rows 3).legitimate + (build_report_summary rows 3).adversarial_total ≡ 3
build_report_summary_adds_up_example = (build_report_summary_adds_up rows 3).0
