-- ===== src/Reports/Service.antt =====
-- ReportService (app/domain/reports.py): generation, review and submission. The methods run without
-- interruption; what the report system answers is a parameter, and `calls` lists the idempotency
-- keys that it has been given.
use Prim.Native.String.{◌++◌ as join_text}
use office_mult_agent.Base.{
  String, Bool, true, false, not, Option, none, some, List, [], ◌∷◌, ◌++◌, ◌==◌, string_eq, or_else,
  if◌then◌else◌, key_error, value_error, Result, ok, err, Exec, lift, gets, or_raise, raise_if,
  ◌>>=◌, ◌>>◌,
}
use office_mult_agent.Base.Dict.{Dict, lookup, insert}
use office_mult_agent.Value.{Fields, field, end, str, get_field, as_str}
use office_mult_agent.Context.{RequestContext, AuditRecord, require, audit_record}
use office_mult_agent.SensitiveData.{Patterns, require_shareable}
use office_mult_agent.Idempotency.{Results, recall, remember}
use office_mult_agent.Events.{WorkEvent}
use office_mult_agent.Reports.Draft.{
  Letters, ReportDraft, ReportStatus, approved, rejected, submitted, daily_draft, as_weekly,
}

pub record ReportSubmission : Type 0 where
  pub report_id : String
  pub submission_id : String

-- What the service calls and this repository does not implement.
pub record Outside : Type 0 where
  pub letters : Letters
  pub patterns : Patterns
  -- `str(draft.model_dump(mode="json"))`
  pub render : ReportDraft → String
  -- the dict that the report system answers, by the report, the key and the calls before
  pub submit_report : ReportDraft → String → List String → Result Fields

pub record Reports : Type 0 where
  pub reports : Dict String ReportDraft
  pub results : Results
  pub audit : List AuditRecord
  pub calls : List String

-- InMemoryReportRepository.save and .get: the context is not read.
unfoldable pub save_report : ReportDraft → RequestContext → Exec Reports ReportDraft
save_report d context s = (ok d, record s { reports = insert d.report_id d s.reports })

unfoldable pub get_report : String → RequestContext → Reports → Option ReportDraft
get_report report_id context s = lookup report_id s.reports

abbrev pub log_audit : String → RequestContext → String → Exec Reports (Unit {0})
log_audit action context target_id s =
    (ok tt, record s { audit = audit_record action context target_id s.audit })

-- An action on the idempotency records alone.
abbrev pub on_results : {A : Type 0} → Exec Results A → Exec Reports A
on_results m s = let (r, results) = m s.results in (r, record s { results = results })

-- `submission.model_dump(mode="json")` and `ReportSubmission.model_validate`
abbrev pub dump_submission : ReportSubmission → Fields
dump_submission x =
    field "report_id" (str x.report_id)
      (field "submission_id" (str x.submission_id) (field "status" (str "submitted") end))

abbrev pub text_field : String → Fields → Option String
text_field key d = elim (get_field key d) [ none ↦ none | some v ↦ as_str v ]

-- `result[key]`, which a model then validates as a text
abbrev pub id_in : String → Fields → Result String
id_in key d = elim (get_field key d) [
  | none ↦ err (key_error key)
  | some v ↦ elim (as_str v) [ none ↦ err (value_error key) | some id ↦ ok id ]
]

abbrev pub build_submission :
    Option String → Option String → Option String → Result ReportSubmission
build_submission (some report_id) (some submission_id) (some status) =
    if status == "submitted"
    then ok (record { report_id = report_id; submission_id = submission_id })
    else err (value_error "status")
build_submission _ _ _ = err (value_error "missing field")

unfoldable pub validate_submission : Fields → Result ReportSubmission
validate_submission d =
    build_submission (text_field "report_id" d) (text_field "submission_id" d)
      (text_field "status" d)

abbrev pub is_approved : ReportStatus → Bool
is_approved approved = true
is_approved _ = false

-- `f"{tenant_id}:{employee_id}:{report_date}:{report_id}"`; an absent employee reads "None".
abbrev pub submission_key : RequestContext → ReportDraft → String → String
submission_key context d report_id = join_text context.tenant_id (
    join_text ":" (
      join_text (or_else context.employee_id "None")
        (join_text ":" (join_text d.report_date (join_text ":" report_id)))))

module _ (o : Outside) where
  unfoldable pub generate_daily :
      String → String → List WorkEvent → RequestContext → List String → Exec Reports ReportDraft
  unfolding save_report
  generate_daily uuid report_date events context source_warnings =
      save_report (daily_draft o.letters uuid report_date events source_warnings) context

  unfoldable pub generate_weekly :
      String → String → List WorkEvent → RequestContext → List String → Exec Reports ReportDraft
  unfolding generate_daily
  generate_weekly uuid week_start events context source_warnings = do
    daily ← generate_daily uuid week_start events context source_warnings
    save_report (as_weekly o.letters daily) context

  unfoldable pub review : String → Bool → Option String → RequestContext → Exec Reports ReportDraft
  unfolding save_report get_report require
  review report_id granted comment context = do
    require context "report:review"
    found ← gets (get_report report_id context)
    d ← or_raise found (key_error report_id)
    let reviewed : ReportDraft = record d {
      status = if granted then approved else rejected;
      review_comment = comment;
    }
    log_audit "report.review" context report_id
    save_report reviewed context

  -- `await connector.submit_report(...)`
  unfoldable pub call_connector : ReportDraft → String → Exec Reports Fields
  call_connector d key s = (o.submit_report d key s.calls, record s { calls = s.calls ++ key ∷ [] })

  -- The part of submit behind its guards.
  unfoldable pub send_report : String → ReportDraft → RequestContext → Exec Reports ReportSubmission
  unfolding call_connector save_report
  send_report report_id d context = do
    answer ← call_connector d (submission_key context d report_id)
    save_report (record d { status = submitted }) context
    log_audit "report.submit" context report_id
    submission_id ← lift (id_in "submission_id" answer)
    let submission : ReportSubmission = record {
      report_id = report_id;
      submission_id = submission_id;
    }
    stored ← on_results (remember "report.submit" report_id (dump_submission submission) context)
    lift (validate_submission stored)

  unfoldable pub submit : String → RequestContext → Exec Reports ReportSubmission
  unfolding get_report require require_shareable
  submit report_id context = do
    require context "report:submit"
    found ← gets (get_report report_id context)
    d ← or_raise found (key_error report_id)
    existing ← gets (λ s. recall "report.submit" report_id context s.results)
    elim existing [
      | some stored ↦ lift (validate_submission stored)
      | none ↦ do
        raise_if (not (is_approved d.status))
            (value_error "report must be approved before submission")
        require_shareable o.patterns (o.render d)
        send_report report_id d context
    ]
