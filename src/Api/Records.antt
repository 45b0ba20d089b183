-- ===== src/Api/Records.antt =====
-- The routes that generate and review reports and minutes (app/api/routes.py).
use office_mult_agent.Base.{
  ℕ, String, Bool, Option, List, [], ◌∷◌, string_eq, if◌then◌else◌, Error, Result, ok, err, Exec,
  lift, ◌>>=◌,
}
use office_mult_agent.Context.{RequestContext}
use office_mult_agent.Events.{WorkEvent}
use office_mult_agent.Reports.Draft.{ReportDraft, ReportType, daily, weekly}
use office_mult_agent.Reports.Service.{Outside, Reports, generate_daily, generate_weekly, review}
use office_mult_agent.Meetings.Draft.{TranscriptSegment, MeetingMinutesDraft}
use office_mult_agent.Meetings.Service.{Outside as MailOutside, Minutes, generate, review_minutes}
use office_mult_agent.Collector.Merge.{Sources, collect}
use office_mult_agent.Api.{Http, answer_with}
use office_mult_agent.Api.Tasks.{guarded_status}

pub record ReportGenerateRequest : Type 0 where
  pub report_date : String
  pub report_type : ReportType
  pub events : List WorkEvent
  pub use_mock_sources : Bool

-- No exception of these routes is handled.
abbrev pub unhandled_status : Error → ℕ
unhandled_status e = 500

-- What the routes take from outside: the demonstration events, and the date six days after one in ISO
-- format, which raises a ValueError for any other text.
pub record Almanac : Type 0 where
  pub mock_events : List WorkEvent
  pub week_end : String → Result String

module _ (almanac : Almanac) (sources : Sources) (o : Outside) (minutes : Minutes) where
  abbrev pub last_day : ReportGenerateRequest → Result String
  last_day payload = elim payload.report_type [
    | daily ↦ ok payload.report_date
    | weekly ↦ almanac.week_end payload.report_date
  ]

  abbrev pub collected :
      String → RequestContext → Result String → Result (List WorkEvent × List String)
  collected date_from context (err e) = err e
  collected date_from context (ok date_to) =
      elim (collect sources date_from date_to context minutes) [
        | err e ↦ err e
        | ok c ↦ ok (c.events, c.source_warnings)
      ]

  -- The events of the request, the demonstration's, or those of the sources, with their warnings.
  unfoldable pub gather_events :
      ReportGenerateRequest → RequestContext → Result (List WorkEvent × List String)
  gather_events payload context = elim payload.events [
    | e ∷ events ↦ ok (e ∷ events, [])
    | [] ↦
        if payload.use_mock_sources
        then ok (almanac.mock_events, [])
        else collected payload.report_date context (last_day payload)
  ]

  abbrev pub write_draft :
      String
      → ReportGenerateRequest
      → RequestContext
      → List WorkEvent × List String
      → Exec Reports ReportDraft
  write_draft uuid payload context (events, source_warnings) = elim payload.report_type [
    | weekly ↦ generate_weekly o uuid payload.report_date events context source_warnings
    | daily ↦ generate_daily o uuid payload.report_date events context source_warnings
  ]

  unfoldable pub generate_report :
      String → ReportGenerateRequest → RequestContext → Reports → Http ReportDraft × Reports
  unfolding gather_events
  generate_report uuid payload context s =
      answer_with unhandled_status
        ((lift (gather_events payload context) >>= write_draft uuid payload context) s)

unfoldable pub review_report :
    Outside → String → Bool → Option String → RequestContext → Reports → Http ReportDraft × Reports
review_report o report_id granted comment context s =
    answer_with guarded_status (review o report_id granted comment context s)

module _ (o : MailOutside) where
  unfoldable pub generate_minutes :
      String
      → String
      → List TranscriptSegment
      → Option String
      → RequestContext
      → Minutes
      → Http MeetingMinutesDraft × Minutes
  generate_minutes meeting_id title segments meeting_date context s =
      answer_with unhandled_status (generate o meeting_id title segments context meeting_date s)

  unfoldable pub review_minutes_route :
      String → Bool → Option String → RequestContext → Minutes → Http MeetingMinutesDraft × Minutes
  review_minutes_route meeting_id granted comment context s =
      answer_with guarded_status (review_minutes o meeting_id granted comment context s)
