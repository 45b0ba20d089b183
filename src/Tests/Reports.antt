-- ===== src/Tests/Reports.antt =====
-- Reports from events to submission (app/domain/reports.py).
use office_mult_agent.Base.{
  ◌+◌, ◌≤◌, true, false, none, List, [], ◌∷◌, ◌≡◌, ◌⊎◌, inl, inr, refl, In, ok, err, timeout_error,
  string_eq, triple_eq, pair_eq, option_eq, ◌==◌, ◌++◌,
}
use office_mult_agent.Value.{field, str, end}
use office_mult_agent.Context.{RequestContext, require}
use office_mult_agent.Base.Dict.{lookup, insert}
use office_mult_agent.Idempotency.{recall, remember}
use office_mult_agent.SensitiveData.{Patterns, findings, require_shareable}
use office_mult_agent.Events.{WorkEvent, work_event, completed}
use office_mult_agent.Delivery.{after_all, sends}
use office_mult_agent.Reports.Draft.{Letters, ReportDraft, daily, approved, event_key, deduplicate}
use office_mult_agent.Reports.Service.{
  Outside, Reports, ReportSubmission, submission_key, submit, send_report, get_report, save_report,
  call_connector, dump_submission, validate_submission,
}
use office_mult_agent.Reports.Dedup.{deduplicate-covers}
use office_mult_agent.Reports.Submission.{MaySend, submit-MaySend}
use office_mult_agent.Reports.History.{
  Call, daily_call, review_call, submit_call, report_ledger, recorded, after, submit_once,
}
use office_mult_agent.Reports.Resubmission.{submit-submit}
use office_mult_agent.Reports.Reviewed.{AllReviewed, after_all-AllReviewed}
use office_mult_agent.Tests.Samples.{ann}

abbrev pub letters : Letters
letters = record { lower = λ s. s; decimal = λ n. "n" }

abbrev pub no_patterns : Patterns
no_patterns = record {
  credential = λ t. false;
  national_id = λ t. false;
  phone = λ t. t == "13800000000";
}

abbrev pub report_system : Outside
report_system = record {
  letters = letters;
  patterns = no_patterns;
  render = λ d. d.overview;
  submit_report = λ d key calls. ok (field "submission_id" (str "s1") end);
}

abbrev down : Outside
down = record report_system { submit_report = λ d key calls. err timeout_error }

abbrev pub reviewer : RequestContext
reviewer = record ann { permission_scopes = "report:review" ∷ "report:submit" ∷ [] }

abbrev pub fix : WorkEvent
fix = work_event "e1" "fix  login" completed

abbrev pub fix_again : WorkEvent
fix_again = record (work_event "e2" "fix login" completed) { confidence = 1 }

abbrev pub draft_one : ReportDraft
draft_one = record {
  report_id = "r1";
  report_date = "2026-01-05";
  completed = [];
  in_progress = [];
  risks = [];
  evidence_event_ids = [];
  status = approved;
  review_comment = none;
  report_type = daily;
  overview = "all fine";
  plans = [];
  coordination_items = [];
  source_warnings = [];
  version = 1;
}

abbrev pub nothing : Reports
nothing = record { reports = []; results = []; audit = []; calls = [] }

abbrev pub one_approved : Reports
one_approved = record nothing { reports = ("r1", draft_one) ∷ [] }

abbrev day : List Call
day =
    daily_call "r1" "2026-01-05" (fix ∷ []) reviewer []
    ∷ review_call "r1" true none reviewer
    ∷ submit_call "r1" reviewer
    ∷ submit_call "r1" reviewer
    ∷ []

deduplicate-covers_example :
    (kept : WorkEvent) × In kept (deduplicate letters (fix ∷ fix_again ∷ []))
    × (event_key letters kept ≡ event_key letters fix_again)
    × (1 ≤ kept.confidence)
deduplicate-covers_example =
    deduplicate-covers letters (fix ∷ fix_again ∷ []) fix_again (inr (inl refl))

submit-MaySend_example :
    ((submit report_system "r1" reviewer one_approved).1.calls ≡ [])
    ⊎ ((may : MaySend report_system "r1" reviewer one_approved) × ((submit report_system "r1"
            reviewer one_approved).1.calls
          ≡ [] ++ submission_key reviewer may.report "r1" ∷ []))
submit-MaySend_example = submit-MaySend report_system "r1" reviewer one_approved

abbrev submission : ReportSubmission
submission = record { report_id = "r1"; submission_id = "s1" }

first_submission : (submit report_system "r1" reviewer one_approved).0 ≡ ok submission
unfolding submit send_report require require_shareable findings get_report recall remember
    save_report lookup insert call_connector dump_submission validate_submission
first_submission = refl

submit-submit_example :
    let after = (submit report_system "r1" reviewer one_approved).1 in
    submit report_system "r1" reviewer after ≡ (ok submission, after)
submit-submit_example =
    submit-submit report_system "r1" reviewer one_approved submission first_submission

submit_once_example :
    sends (report_ledger report_system ("acme", "r1")) day nothing + recorded ("acme", "r1") nothing
    ≤ 1
submit_once_example = submit_once report_system ("acme", "r1") day nothing

after_all-AllReviewed_example : AllReviewed (after_all (after report_system) day nothing)
after_all-AllReviewed_example = after_all-AllReviewed report_system day nothing tt
