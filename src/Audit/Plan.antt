-- ===== src/Audit/Plan.antt =====
-- What a run of app/workers/audit.py is given, and the parts of `_run` that read and write the tables in bulk.
use insyta_api.Prelude.{
  ℕ, Bool, false, ◌==◌, Option, none, some, List, [], ◌∷◌, ◌++◌, Text, txt, text_eq, length,
  if◌then◌else◌,
}
use insyta_api.Spc.{Baseline, FloatStats}
use insyta_api.Report.{Row, ReportSummary, build_report_summary}
use insyta_api.Reputation.{update_agent_spc}
use insyta_api.Audit.Suggestions.{Suggestion, Stat}
use insyta_api.Audit.Tables.{Evaluation, Improvement, Tables}
use insyta_api.Audit.Conversation.{Unhandled, Examples, Totals, Work, has_id}

-- The control charts of an agent: the statistics, and a score as a float.
pub record Charts (F : Type 0) : Type 0 where
  pub stats : FloatStats F
  pub below : F → F → Bool
  pub rounded : Baseline F → Baseline F
  pub of_score : ℕ → F

-- What a run reads of the audit, its organisation and its project. `generate` and `propose` are
-- generate_flowless_suggestions and propose_flow_changes, `none` an exception of theirs.
pub record Plan (F : Type 0) : Type 0 where
  pub work : Work F
  pub charts : Charts F
  pub conv_ids : List ℕ
  pub provider : Option Text
  pub anthropic_key : Option Text
  pub deepseek_key : Option Text
  pub flow_id : Option ℕ
  pub supervisor_flow_id : Option ℕ
  pub org_id : ℕ
  pub project_id : ℕ
  pub project_public_id : Option Text
  pub audit_name : Text
  pub min_messages : ℕ
  pub generate : List Stat → Examples → Option (List Suggestion)
  pub propose : Text → List Unhandled → Option (List Suggestion)
  pub now : ℕ

-- The totals before the loop.
abbrev pub no_totals : Totals
no_totals = record {
  issue_counter = [];
  critical_count = 0;
  low_conf_verdicts = 0;
  evaluated = 0;
  msg_evals = 0;
  unhandled = [];
  unhandled_seen = [];
  examples = [];
  agent_ids = [];
  processed = 0;
  seen_sigs = [];
}

-- The scores of an agent, the oldest first; the table has the newest first.
unfoldable pub scores_of : {F : Type 0} → (ℕ → F) → ℕ → List Evaluation → List F
scores_of of_score agent [] = []
scores_of of_score agent (e ∷ es) =
    let older = scores_of of_score agent es in
    if e.agent_id == agent then older ++ of_score e.parsed.score ∷ [] else older

-- The loop over the agents of the audit.
unfoldable pub chart_agents : {F : Type 0} → Charts F → List ℕ → Tables F → Tables F
unfolding update_agent_spc scores_of
chart_agents c [] tables = tables
chart_agents c (a ∷ agents) tables = chart_agents c agents (record tables {
  agents =
      update_agent_spc c.stats c.below c.rounded a (scores_of c.of_score a tables.evaluations)
        tables.agents;
})

-- The columns that `_compute_report_summary` selects.
abbrev pub row_of : Evaluation → Row
row_of e = record {
  score = some e.parsed.score;
  score_final = elim e.reviewed [ none ↦ none | some r ↦ r.score.score_final ];
  satisfaction = some e.parsed.satisfaction;
  resolution = some e.parsed.resolution;
  escalated = some e.parsed.escalated;
  scope_violation = some e.parsed.scope_violation;
  is_adversarial = elim e.reviewed [ none ↦ some false | some r ↦ some r.is_adversarial ];
  attack_type = elim e.reviewed [ none ↦ none | some r ↦ r.attack_type ];
  attack_repelled = elim e.reviewed [ none ↦ none | some r ↦ r.attack_repelled ];
}

abbrev pub rows_in : List ℕ → List Evaluation → List Row
rows_in ids [] = []
rows_in ids (e ∷ es) =
    if has_id e.conversation_id ids then row_of e ∷ rows_in ids es else rows_in ids es

-- `_compute_report_summary`
unfoldable pub compute_report_summary : List ℕ → List Evaluation → ReportSummary
unfolding build_report_summary
compute_report_summary ids es = build_report_summary (rows_in ids es) (length ids)

-- `_persist_improvements`: one for each suggestion, the last one first.
unfoldable pub persist_improvements :
    ℕ → ℕ → List Suggestion → List ℕ → List Improvement → List Improvement
persist_improvements flow_id audit_id [] ids table = table
persist_improvements flow_id audit_id (s ∷ ss) ids table =
    persist_improvements flow_id audit_id ss ids (
      record { flow_id = flow_id; audit_id = audit_id; suggestion = s; conversations = ids }
      ∷ table)

-- `missing_key_detail` (app/services/llm_keys.py).
unfoldable pub missing_key_detail : Text → Text
unfolding text_eq
missing_key_detail provider =
    let label =
      if text_eq provider (txt "anthropic")
      then txt "Anthropic"
      else if text_eq provider (txt "deepseek")
      then txt "DeepSeek"
      else provider in
    txt "Tu organización no tiene API key de "
    ++ (label ++ txt " configurada. Cargala en Configuración → API keys.")
