-- ===== src/Reports/Submission.antt =====
-- What ReportService.submit (app/domain/reports.py) guarantees of one call.
use office_mult_agent.Base.{
  Result-cases, ok-ne-err, sym, ap, ◌∙◌, permission_error, key_error, value_error,
  sensitive_data_error, contains, String, true, none, some, [], ◌∷◌, ◌++◌, ◌≡◌, ◌⊎◌, inl, inr, refl,
  arith, string_eq, triple_eq, Bool-cases, Option-cases, is_some, Error, Result, ok, err,
}
use office_mult_agent.Base.Dict.{lookup, insert}
use office_mult_agent.Value.{Fields}
use office_mult_agent.Context.{RequestContext, require, audit_record}
use office_mult_agent.SensitiveData.{blocked_message, findings, require_shareable, is_nil}
use office_mult_agent.Idempotency.{recall, remember}
use office_mult_agent.Reports.Draft.{ReportDraft, ReportStatus, approved, submitted}
use office_mult_agent.Reports.Service.{
  Outside, Reports, ReportSubmission, submit, send_report, call_connector, save_report, get_report,
  dump_submission, validate_submission, is_approved, submission_key, id_in,
}

pub validate-dump : (x : ReportSubmission) → validate_submission (dump_submission x) ≡ ok x
unfolding validate_submission
validate-dump x = ground arith

is_approved_only : (status : ReportStatus) → is_approved status ≡ true → status ≡ approved
is_approved_only status h = ground arith

module _ (o : Outside) (report_id : String) (context : RequestContext) (s : Reports) where
  -- What a call of `submit` may come to.
  pub data Submits (out : Result ReportSubmission × Reports) : Type 0 where
    -- a guard raises, and nothing has been touched
    refused : (e : Error) → out ≡ (err e, s) → Submits out
    -- the submission is on record, and is returned
    repeated :
        (stored : Fields)
        → recall "report.submit" report_id context s.results ≡ some stored
        → is_some (lookup report_id s.reports) ≡ true
        → contains context.permission_scopes "report:submit" ≡ true
        → out ≡ (validate_submission stored, s)
        → Submits out
    -- the report system is called
    called :
        (d : ReportDraft)
        → lookup report_id s.reports ≡ some d
        → d.status ≡ approved
        → is_nil (findings o.patterns (o.render d)) ≡ true
        → contains context.permission_scopes "report:submit" ≡ true
        → recall "report.submit" report_id context s.results ≡ none
        → out ≡ send_report o report_id d context s
        → Submits out

  pub submit-Submits : Submits (submit o report_id context s)
  unfolding submit require require_shareable get_report
  submit-Submits = elim (Bool-cases (contains context.permission_scopes "report:submit")) [
    | inr denied ↦ refused (permission_error "report:submit") (ground arith)
    | inl scope ↦ elim (Option-cases (lookup report_id s.reports)) [
      | inl missing ↦ refused (key_error report_id) (ground arith)
      | inr (d, found) ↦ elim (Option-cases (recall "report.submit" report_id context s.results)) [
        | inr (stored, on_record) ↦ repeated stored on_record (ground arith) scope (ground arith)
        | inl fresh ↦ elim (Bool-cases (is_approved d.status)) [
          | inr unapproved ↦
              refused (value_error "report must be approved before submission") (ground arith)
          | inl is ↦ elim (Bool-cases (is_nil (findings o.patterns (o.render d)))) [
            | inr unsafe ↦
                refused (sensitive_data_error (blocked_message (findings o.patterns (o.render d))))
                  (ground arith)
            | inl safe ↦
                called d found (is_approved_only d.status is) safe scope fresh (ground arith)
          ]
        ]
      ]
    ]
  ]

-- What the report system's answer leaves.
module _ (o : Outside) (report_id : String) (d : ReportDraft) (context : RequestContext)
    (s : Reports) where
  abbrev pub asked : Reports
  asked = record s { calls = s.calls ++ submission_key context d report_id ∷ [] }

  abbrev pub answer : Result Fields
  answer = o.submit_report d (submission_key context d report_id) s.calls

  abbrev pub receipt : String → ReportSubmission
  receipt submission_id = record { report_id = report_id; submission_id = submission_id }

  abbrev pub settled : String → Reports
  settled submission_id = record {
    reports = insert d.report_id (record d { status = submitted }) s.reports;
    results =
        insert (context.tenant_id, "report.submit", report_id)
          (dump_submission (receipt submission_id)) s.results;
    audit = audit_record "report.submit" context report_id s.audit;
    calls = s.calls ++ submission_key context d report_id ∷ [];
  }

  -- The draft is saved, and then the answer has no id: nothing goes on record.
  abbrev pub unrecorded : Reports
  unrecorded = record {
    reports = insert d.report_id (record d { status = submitted }) s.reports;
    results = s.results;
    audit = audit_record "report.submit" context report_id s.audit;
    calls = s.calls ++ submission_key context d report_id ∷ [];
  }

  send_report_err :
      (e : Error) → answer ≡ err e → send_report o report_id d context s ≡ (err e, asked)
  unfolding send_report call_connector save_report
  send_report_err e h = ground arith

  send_report_lost :
      (fields : Fields) (e : Error)
      → answer ≡ ok fields
      → id_in "submission_id" fields ≡ err e
      → send_report o report_id d context s ≡ (err e, unrecorded)
  unfolding send_report call_connector save_report
  send_report_lost fields e h no_id = ground (arith, h, no_id)

  send_report_ok :
      (fields : Fields) (submission_id : String)
      → answer ≡ ok fields
      → id_in "submission_id" fields ≡ ok submission_id
      → recall "report.submit" report_id context s.results ≡ none
      → send_report o report_id d context s ≡ (ok (receipt submission_id), settled submission_id)
  unfolding send_report call_connector save_report remember recall
  send_report_ok fields submission_id h has_id fresh =
      ground (arith, h, has_id, validate-dump (receipt submission_id))

  -- What a call behind the guards may come to.
  pub data Answers (out : Result ReportSubmission × Reports) : Type 0 where
    unanswered : (e : Error) → out ≡ (err e, asked) → Answers out
    nameless : (e : Error) → out ≡ (err e, unrecorded) → Answers out
    named :
        (submission_id : String)
        → out ≡ (ok (receipt submission_id), settled submission_id)
        → Answers out

  pub send_report-Answers :
      recall "report.submit" report_id context s.results ≡ none
      → Answers (send_report o report_id d context s)
  send_report-Answers fresh = elim (Result-cases answer) [
    | inr (e, h) ↦ unanswered e (send_report_err e h)
    | inl (fields, h) ↦ elim (Result-cases (id_in "submission_id" fields)) [
      | inr (e, no_id) ↦ nameless e (send_report_lost fields e h no_id)
      | inl (id, has_id) ↦ named id (send_report_ok fields id h has_id fresh)
    ]
  ]

-- How the report system comes to be called, and with what.
pub record MaySend (o : Outside) (report_id : String) (context : RequestContext) (s : Reports)
    : Type 0 where
  pub report : ReportDraft
  pub found : lookup report_id s.reports ≡ some report
  pub reviewed : report.status ≡ approved
  pub shareable : is_nil (findings o.patterns (o.render report)) ≡ true
  pub permitted : contains context.permission_scopes "report:submit" ≡ true
  pub first : recall "report.submit" report_id context s.results ≡ none

module _ (o : Outside) (report_id : String) (context : RequestContext) (s : Reports) where
  send_report-calls :
      (d : ReportDraft)
      → recall "report.submit" report_id context s.results ≡ none
      → (send_report o report_id d context s).1.calls
        ≡ s.calls ++ submission_key context d report_id ∷ []
  send_report-calls d fresh = elim (send_report-Answers o report_id d context s fresh) [
    | unanswered e is ↦ ap (λ r. r.1.calls) is
    | nameless e is ↦ ap (λ r. r.1.calls) is
    | named id is ↦ ap (λ r. r.1.calls) is
  ]

  -- The report system is called at most once by a call of `submit`, and then the caller has the
  -- scope "report:submit", the report exists and has been approved, none of the sensitive patterns
  -- is found in it, and no submission of it is on record for the tenant.
  pub submit-MaySend :
      ((submit o report_id context s).1.calls ≡ s.calls)
      ⊎ ((may : MaySend o report_id context s) × ((submit o report_id context s).1.calls
            ≡ s.calls ++ submission_key context may.report report_id ∷ []))
  submit-MaySend = elim (submit-Submits o report_id context s) [
    | refused e is ↦ inl (ap (λ r. r.1.calls) is)
    | repeated stored on_record known scope is ↦ inl (ap (λ r. r.1.calls) is)
    | called d found reviewed safe scope fresh is ↦ inr (
      record {
        report = d;
        found = found;
        reviewed = reviewed;
        shareable = safe;
        permitted = scope;
        first = fresh;
      },
      ap (λ r. r.1.calls) is ∙ send_report-calls d fresh,
    )
  ]

  -- A call of `submit` that fails leaves the idempotency records as they were. It leaves the drafts and the
  -- audit trail as they were too, unless the report system has been called.
  pub submit_fails :
      (e : Error)
      → (submit o report_id context s).0 ≡ err e
      → ((submit o report_id context s).1.results ≡ s.results)
        × ((((submit o report_id context s).1.reports ≡ s.reports)
              × ((submit o report_id context s).1.audit ≡ s.audit))
            ⊎ ((may : MaySend o report_id context s) × ((submit o report_id context s).1
                  ≡ unrecorded o report_id may.report context s)))
  submit_fails e h = elim (submit-Submits o report_id context s) [
    | refused c is ↦ rw is (refl, inl (refl, refl))
    | repeated stored on_record known scope is ↦ rw is (refl, inl (refl, refl))
    | called d found reviewed safe scope fresh is ↦
        elim (send_report-Answers o report_id d context s fresh) [
          | named id a ↦ absurd (ok-ne-err (sym (ap (λ r. r.0) (is ∙ a)) ∙ h))
          | nameless c a ↦ rw (is ∙ a) (
            refl,
            inr (
              record {
                report = d;
                found = found;
                reviewed = reviewed;
                shareable = safe;
                permitted = scope;
                first = fresh;
              },
              refl,
            ),
          )
          | unanswered c a ↦ rw (is ∙ a) (refl, inl (refl, refl))
        ]
  ]
