-- ===== src/Audit/Run.antt =====
-- `_run` and `run_audit` of app/workers/audit.py: the loop, the control charts, the suggestions, the report, the
-- notifications and the status of the audit.
pub mod Finishing
pub mod Keys
use insyta_api.Prelude.{
  ℕ, ◌+◌, ltb, Bool, true, false, not, ◌&&◌, ◌||◌, ◌==◌, Option, none, some, List, [], ◌∷◌, ◌++◌,
  map, Text, txt, text_eq, take, length, is_some, if◌then◌else◌,
}
use insyta_api.Spc.{Baseline, FloatStats}
use insyta_api.Judge.{or_else}
use insyta_api.Rubric.Scoring.{truthy}
use insyta_api.Report.{Row, ReportSummary, build_report_summary}
use insyta_api.Reputation.{AgentReputation, update_agent_spc}
use insyta_api.Audit.Suggestions.{Suggestion, Stat, build_suggestions, flowless_stats}
use insyta_api.Audit.Notices.{Notification, create_notification}
use insyta_api.Audit.Tables.{
  Reviewed, Evaluation, Improvement, AuditStatus, running, active, failed, AuditRow, Tables,
}
use insyta_api.Audit.Context.{Setting}
use insyta_api.Audit.Review.{Readers}
use insyta_api.Audit.Conversation.{
  Failure, fatal_llm, other_error, Attempt, gives, fails, Unhandled, Examples, Totals, Work, has_id,
}
use insyta_api.Audit.Step.{process_ids}
use insyta_api.Audit.Plan.{
  Charts, Plan, no_totals, scores_of, chart_agents, row_of, rows_in, compute_report_summary,
  persist_improvements, missing_key_detail,
}

abbrev pub create_if : Bool → Notification → List Notification → List Notification
create_if b n rows = if b then create_notification n rows else rows

module _ {F : Type 0} (p : Plan F) where
  -- `required_key`
  unfoldable pub required_key : Option Text
  unfolding text_eq
  required_key =
      if text_eq (or_else p.provider (txt "anthropic")) (txt "deepseek")
      then p.deepseek_key
      else p.anthropic_key

  -- `effective_flow_id`
  abbrev pub effective_flow_id : Option ℕ
  effective_flow_id = elim p.flow_id [ none ↦ p.supervisor_flow_id | some f ↦ some f ]

  -- The suggestions: with no flow the generated ones if there are some, with a flow the proposed
  -- changes before the counted ones; a failure leaves the counted ones.
  unfoldable pub suggestions_for : Totals → List Suggestion
  unfolding build_suggestions flowless_stats
  suggestions_for t =
      let counted = build_suggestions p.work.readers.show t.issue_counter p.min_messages in
      elim effective_flow_id [
        | none ↦ elim (p.generate (flowless_stats t.issue_counter p.min_messages 3) t.examples) [
          | none ↦ counted
          | some [] ↦ counted
          | some (r ∷ rich) ↦ r ∷ rich
        ]
        | some _ ↦
            let summary = or_else p.work.setting.flow_summary [] in
            if is_some p.flow_id && (truthy summary && truthy t.unhandled)
            then elim (p.propose summary t.unhandled) [
              | none ↦ counted
              | some structural ↦ structural ++ counted
            ]
            else counted
      ]

  abbrev pub notice : Text → Text → Text → Text → Notification
  notice kind title detail event = record {
    org_id = p.org_id;
    project_id = some p.project_id;
    kind = kind;
    title = title;
    detail = some detail;
    link = elim p.project_public_id [ none ↦ none | some id ↦ some (txt "/projects/" ++ id) ];
    event_key = some (event ++ (txt ":" ++ p.work.readers.show p.work.audit_id));
    is_read = false;
    created_at = p.now;
  }

  -- The title of the notice on critical conversations, as the code builds it.
  unfoldable pub critical_title : ℕ → Text
  critical_title n =
      p.work.readers.show n
      ++ (txt " conversaci"
          ++ ((if n == 1 then txt "ón" else txt "ones")
              ++ (txt " crítica" ++ (if n == 1 then [] else txt "es"))))

  unfoldable pub suggestions_title : ℕ → Text
  suggestions_title n =
      let plural = if n == 1 then [] else txt "s" in
      p.work.readers.show n ++ (txt " sugerencia" ++ (plural ++ (txt " nueva" ++ plural)))

  abbrev pub completed_notice : Notification
  completed_notice =
      notice (txt "audit") (txt "Auditoría completada")
        (p.audit_name
          ++ (txt " · "
              ++ (p.work.readers.show (length p.conv_ids) ++ txt " conversaciones analizadas.")))
        (txt "audit_completed")

  abbrev pub critical_notice : Totals → Notification
  critical_notice t =
      notice (txt "suspicious") (critical_title t.critical_count)
        (txt "VETO, fraude o experiencia problemática detectados.") (txt "audit_critical")

  abbrev pub suggestions_notice : List Suggestion → Notification
  suggestions_notice suggestions =
      notice (txt "improvement") (suggestions_title (length suggestions))
        (p.audit_name ++ txt " · mejoras propuestas.") (txt "audit_suggestions")

  -- The notices of a finished audit.
  unfoldable pub notify : Totals → List Suggestion → List Notification → List Notification
  unfolding create_notification critical_title suggestions_title
  notify t suggestions rows = create_if (truthy suggestions) (suggestions_notice suggestions) (
      create_if (ltb 0 t.critical_count) (critical_notice t)
        (create_notification completed_notice rows))

  -- The last transaction of `_run`, after the control charts.
  unfoldable pub finish : Totals → Tables F → Tables F
  unfolding chart_agents suggestions_for compute_report_summary persist_improvements notify
  finish t before =
      let tables = chart_agents p.charts t.agent_ids before in
      let suggestions = suggestions_for t in
      record tables {
        audit = record tables.audit {
          status = active;
          conversation_count = length p.conv_ids;
          evaluated_count = length p.conv_ids;
          suggestions = suggestions;
          report_summary =
              some (compute_report_summary p.conv_ids tables.evaluations, t.low_conf_verdicts);
          finished_at = some p.now;
        };
        improvements = elim p.flow_id [
          | none ↦ tables.improvements
          | some flow ↦
              persist_improvements flow p.work.audit_id suggestions p.conv_ids tables.improvements
        ];
        notifications = notify t suggestions tables.notifications;
      }

  -- `_run`: the tables as they are committed, and the totals or the exception.
  unfoldable pub run : Tables F → Tables F × Attempt Totals
  unfolding required_key process_ids finish missing_key_detail
  run tables = elim (or_else required_key []) [
    | [] ↦ (tables, fails (fatal_llm (missing_key_detail (or_else p.provider (txt "anthropic")))))
    | c ∷ key ↦
        let (after, outcome) = process_ids p.work p.conv_ids (tables, no_totals) in
        elim outcome [ gives t ↦ (finish t after, gives t) | fails e ↦ (after, fails e) ]
  ]

-- `msg`
abbrev pub error_text : Failure → Text
error_text (fatal_llm t) = txt "Falta la API key del motor: " ++ t
error_text (other_error t) = t

-- `_fail`
abbrev pub mark_failed : {F : Type 0} → Failure → Tables F → Tables F
mark_failed e tables = record tables {
  audit = record tables.audit { status = failed; error_message = some (take 1000 (error_text e)) };
}

-- `run_audit`
unfoldable pub run_audit : {F : Type 0} → Plan F → Tables F → Tables F
unfolding run
run_audit p tables =
    let (after, outcome) = run p tables in
    elim outcome [ gives t ↦ after | fails e ↦ mark_failed e after ]
