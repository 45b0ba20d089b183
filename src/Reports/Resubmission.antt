-- ===== src/Reports/Resubmission.antt =====
-- A second call of ReportService.submit (app/domain/reports.py) after one that succeeded.
use office_mult_agent.Base.{
  ok-ne-err, sym, ap, ◌∙◌, contains, String, true, some, ◌≡◌, arith, string_eq, triple_eq, is_some,
  ok,
}
use office_mult_agent.Base.Dict.{lookup, lookup-insert, lookup-insert_self}
use office_mult_agent.Value.{Fields}
use office_mult_agent.Context.{RequestContext, require}
use office_mult_agent.Idempotency.{recall}
use office_mult_agent.Reports.Draft.{ReportDraft, submitted}
use office_mult_agent.Reports.Service.{
  Outside, Reports, ReportSubmission, submit, get_report, dump_submission, validate_submission,
}
use office_mult_agent.Reports.Submission.{
  refused, repeated, called, submit-Submits, receipt, settled, send_report-Answers, unanswered,
  nameless, named, validate-dump,
}

module _ (o : Outside) (report_id : String) (context : RequestContext) (s : Reports) where
  submit_on_record :
      (stored : Fields)
      → recall "report.submit" report_id context s.results ≡ some stored
      → is_some (lookup report_id s.reports) ≡ true
      → contains context.permission_scopes "report:submit" ≡ true
      → submit o report_id context s ≡ (validate_submission stored, s)
  unfolding submit require get_report
  submit_on_record stored h known scope = ground arith

module _ (o : Outside) (report_id : String) (context : RequestContext) (s : Reports) where
  settled_on_record :
      (d : ReportDraft) (submission_id : String)
      → lookup report_id s.reports ≡ some d
      → contains context.permission_scopes "report:submit" ≡ true
      → submit o report_id context (settled o report_id d context s submission_id) ≡ (
        ok (receipt o report_id d context s submission_id),
        settled o report_id d context s submission_id,
      )
  unfolding recall
  settled_on_record d submission_id found scope =
      let after : Reports = settled o report_id d context s submission_id in
      let scoped : String × String × String = (context.tenant_id, "report.submit", report_id) in
      submit_on_record o report_id context after
        (dump_submission (receipt o report_id d context s submission_id))
        (lookup-insert_self scoped (dump_submission (receipt o report_id d context s submission_id))
          s.results)
        (ground (
          arith,
          found,
          lookup-insert d.report_id report_id (record d { status = submitted }) s.reports,
        ))
        scope
      ∙ ap (λ r. (r, after)) (validate-dump (receipt o report_id d context s submission_id))

  -- After a submission that succeeded, the same call again returns the same submission, changes
  -- nothing, and does not call the report system.
  pub submit-submit :
      (x : ReportSubmission)
      → (submit o report_id context s).0 ≡ ok x
      → submit o report_id context (submit o report_id context s).1
        ≡ (ok x, (submit o report_id context s).1)
  submit-submit x h = elim (submit-Submits o report_id context s) [
    | refused e is ↦ absurd (ok-ne-err (sym h ∙ ap (λ r. r.0) is))
    | repeated stored on_record known scope is ↦
        ap (λ t. submit o report_id context t) (ap (λ r. r.1) is)
        ∙ is
        ∙ ap (λ r. (r, s)) (sym (ap (λ r. r.0) is) ∙ h)
        ∙ ap (λ t. (ok x, t)) (sym (ap (λ r. r.1) is))
    | called d found reviewed safe scope fresh is ↦
        elim (send_report-Answers o report_id d context s fresh) [
          | unanswered c a ↦ absurd (ok-ne-err (sym h ∙ ap (λ r. r.0) (is ∙ a)))
          | nameless c a ↦ absurd (ok-ne-err (sym h ∙ ap (λ r. r.0) (is ∙ a)))
          | named submission_id a ↦
              let all = is ∙ a in
              ap (λ r. submit o report_id context r.1) all
              ∙ settled_on_record d submission_id found scope
              ∙ sym all
              ∙ ap (λ r. (r, (submit o report_id context s).1)) h
        ]
  ]
