-- ===== src/Reports/History.antt =====
-- ReportService (app/domain/reports.py) over every sequence of calls.
use office_mult_agent.Base.{
  ℕ, ◌+◌, ◌-◌, ◌≤◌, String, Bool, true, false, Option, List, [], ◌∷◌, ◌≡◌, ◌∙◌, arith, length,
  length-append, ◌==◌, pair_eq, string_eq, triple_eq, ==_iff, is_some, if◌then◌else◌, eq_iff,
  Result, ok, err,
}
use office_mult_agent.Base.Dict.{lookup, lookup-insert}
use office_mult_agent.Context.{RequestContext, require}
use office_mult_agent.Idempotency.{recall}
use office_mult_agent.Delivery.{Ledger, sends, sends-le-one}
use office_mult_agent.Events.{WorkEvent}
use office_mult_agent.Reports.Draft.{ReportDraft}
use office_mult_agent.Reports.Service.{
  Outside, save_report, get_report, Reports, ReportSubmission, submission_key, generate_daily,
  generate_weekly, review, submit, dump_submission,
}
use office_mult_agent.Reports.Submission.{
  submit-Submits, refused, repeated, called, receipt, settled, send_report-Answers, unanswered,
  nameless, named,
}

-- A call of the service.
pub data Call : Type 0 where
  daily_call weekly_call :
      (uuid report_date : String) (events : List WorkEvent) (context : RequestContext)
      (source_warnings : List String)
      → Call
  review_call :
      (report_id : String) (granted : Bool) (comment : Option String) (context : RequestContext)
      → Call
  submit_call : (report_id : String) (context : RequestContext) → Call

abbrev pub is_ok : Result ReportSubmission → Bool
is_ok (ok x) = true
is_ok (err e) = false

-- Whether a submission is on record.
abbrev pub recorded : String × String → Reports → ℕ
recorded (tenant_id, report_id) s =
    if is_some (lookup (tenant_id, "report.submit", report_id) s.results) then 1 else 0

pub recorded-le-one : (k : String × String) (s : Reports) → recorded k s ≤ 1
recorded-le-one k s = ground arith

module _ (o : Outside) where
  abbrev pub after : Call → Reports → Reports
  after (daily_call uuid report_date events context warnings) s =
      (generate_daily o uuid report_date events context warnings s).1
  after (weekly_call uuid report_date events context warnings) s =
      (generate_weekly o uuid report_date events context warnings s).1
  after (review_call report_id granted comment context) s =
      (review o report_id granted comment context s).1
  after (submit_call report_id context) s = (submit o report_id context s).1

  -- The calls of the report system in a call of `submit` that succeeds, by tenant and report.
  abbrev pub sent : String × String → Call → Reports → ℕ
  sent k (submit_call report_id context) s =
      if (context.tenant_id, report_id) == k
      then if is_ok (submit o report_id context s).0
        then length (submit o report_id context s).1.calls - length s.calls
        else 0
      else 0
  sent k _ s = 0

  -- What a settled submission leaves, of this report and of any other.
  recorded-settled :
      (k : String × String) (report_id : String) (context : RequestContext) (s : Reports)
      (d : ReportDraft) (submission_id : String)
      → recorded k (settled o report_id d context s submission_id)
        ≡ (if (context.tenant_id, report_id) == k then 1 else recorded k s)
  recorded-settled (tenant_id, id) report_id context s d submission_id = ground (
    arith,
    lookup-insert (context.tenant_id, "report.submit", report_id) (tenant_id, "report.submit", id)
        (dump_submission (receipt o report_id d context s submission_id)) s.results,
    eq_iff context.tenant_id tenant_id,
    eq_iff report_id id,
    eq_iff "report.submit" "report.submit",
  )

  one_call :
      (report_id : String) (context : RequestContext) (s : Reports) (d : ReportDraft)
      (submission_id : String)
      → length (settled o report_id d context s submission_id).calls - length s.calls ≡ 1
  one_call report_id context s d submission_id =
      omega (arith, length-append s.calls (submission_key context d report_id ∷ []))

  recorded-submit :
      (k : String × String) (report_id : String) (context : RequestContext) (s : Reports)
      → sent k (submit_call report_id context) s + recorded k s
        ≤ recorded k (submit o report_id context s).1
  unfolding recall
  recorded-submit k report_id context s = elim (submit-Submits o report_id context s) [
    | refused e is ↦ ground (arith, is)
    | repeated stored on_record known scope is ↦ ground (arith, is)
    | called d found reviewed safe scope fresh is ↦
        elim (send_report-Answers o report_id d context s fresh) [
          | unanswered c a ↦ rw (is ∙ a) (ground arith)
          | nameless c a ↦ rw (is ∙ a) (ground arith)
          | named submission_id a ↦ rw (is ∙ a) (
              ground (
                arith,
                recorded-settled k report_id context s d submission_id,
                one_call report_id context s d submission_id,
                ==_iff (context.tenant_id, report_id) k,
                fresh,
              ))
        ]
  ]

  pub recorded-after :
      (k : String × String) (c : Call) (s : Reports)
      → sent k c s + recorded k s ≤ recorded k (after c s)
  unfolding generate_daily generate_weekly review save_report require get_report
  recorded-after k (daily_call uuid report_date events context warnings) s = omega arith
  recorded-after k (weekly_call uuid report_date events context warnings) s = omega arith
  recorded-after k (review_call report_id granted comment context) s = ground arith
  recorded-after k (submit_call report_id context) s = recorded-submit k report_id context s

  abbrev pub report_ledger : String × String → Ledger
  report_ledger k = record {
    State = Reports;
    Call = Call;
    after = after;
    sent = sent k;
    recorded = recorded k;
    recorded_at_most = recorded-le-one k;
    records = recorded-after k;
  }

  -- Over any sequence of generations, reviews and submissions, and whatever the report system
  -- answers, it is called at most once for a tenant's report in the submissions that succeed, and
  -- not at all if a submission was on record at the start. A regeneration or another review of the
  -- report does not open it again.
  pub submit_once :
      (k : String × String) (calls : List Call) (s : Reports)
      → sends (report_ledger k) calls s + recorded k s ≤ 1
  submit_once k = sends-le-one (report_ledger k)
