-- ===== src/Api.antt =====
-- The HTTP routes (app/api/routes.py) of the assistant, and how the routes of reports and meetings
-- answer an error. The context that the middleware builds of a request is an input.
pub mod Assistant
pub mod Resume
pub mod Tasks
pub mod Records
pub mod Uploads
pub mod Guards
pub mod Gateway
pub mod Startup
pub mod Threads
pub mod Responses
use office_mult_agent.Base.{
  ℕ, String, Bool, true, false, ◌||◌, if◌then◌else◌, Error, key_error, permission_error,
  connector_unavailable, is_value_error, Result, ok, err, Exec,
}
use office_mult_agent.Context.{RequestContext}
use office_mult_agent.Reports.Service.{Outside, Reports, ReportSubmission, submit}
use office_mult_agent.Meetings.Service.{Outside as MailOutside, Minutes, MeetingEmailStatus, send}

-- The answer to a request: a value, or an HTTP status. An exception that no route handles is a 500.
pub data Http (A : Type 0) : Type 0 where
  answered : A → Http A
  refused : (status : ℕ) → Http A

-- The except clauses of submit_report and of send_minutes, in their order.
abbrev pub delivery_status : Error → ℕ
delivery_status (key_error m) = 404
delivery_status (permission_error m) = 403
delivery_status (connector_unavailable m) = 503
delivery_status e = if is_value_error e then 409 else 500

abbrev pub answer_with : {A S : Type 0} → (Error → ℕ) → Result A × S → Http A × S
answer_with status (ok a, s) = (answered a, s)
answer_with status (err e, s) = (refused (status e), s)

unfoldable pub submit_route :
    Outside → String → RequestContext → Reports → Http ReportSubmission × Reports
submit_route o report_id context s = answer_with delivery_status (submit o report_id context s)

unfoldable pub send_route :
    MailOutside → String → RequestContext → Minutes → Http MeetingEmailStatus × Minutes
send_route o meeting_id context s = answer_with delivery_status (send o meeting_id context s)
