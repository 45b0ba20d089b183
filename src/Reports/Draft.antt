-- ===== src/Reports/Draft.antt =====
-- How ReportService (app/domain/reports.py) turns work events into a draft.
use Prim.Native.String.{◌++◌ as join_text}
use office_mult_agent.Base.{
  ℕ, String, Bool, true, ◌||◌, Option, none, some, List, [], ◌∷◌, ◌++◌, map, filter, length, ltb,
  or_else, option_eq, pair_eq, string_eq, if◌then◌else◌,
}
use office_mult_agent.Base.Dict.{Dict, lookup, insert, values}
use office_mult_agent.Base.Text.{is_empty, strip, split, join, take_chars, contains_text}
use office_mult_agent.Events.{
  WorkEvent, WorkStatus, is_low, is_completed, is_in_progress, is_blocked, is_planned, is_unknown,
}

pub data ReportStatus : Type 0 where
  draft approved rejected submitted : ReportStatus

pub data ReportType : Type 0 where
  daily weekly : ReportType

pub record ReportDraft : Type 0 where
  pub report_id : String
  pub report_date : String
  pub completed : List String
  pub in_progress : List String
  pub risks : List String
  pub evidence_event_ids : List String
  pub status : ReportStatus
  pub review_comment : Option String
  pub report_type : ReportType
  pub overview : String
  pub plans : List String
  pub coordination_items : List String
  pub source_warnings : List String
  pub version : ℕ

-- What the drafts take from outside: `str.lower`, and the decimal text of a number.
pub record Letters : Type 0 where
  pub lower : String → String
  pub decimal : ℕ → String

-- `(project_id, " ".join(title.lower().split()))`
abbrev pub EventKey : Type 0
EventKey = Option String × String

unfoldable pub event_key : Letters → WorkEvent → EventKey
event_key l event = (event.project_id, join " " (split (l.lower event.title)))

-- `current is None or event.confidence > current.confidence`
abbrev pub improves : Option WorkEvent → WorkEvent → Bool
improves none event = true
improves (some current) event = ltb current.confidence event.confidence

-- The loop of _deduplicate over the events that are left.
unfoldable pub select_from :
    Letters → Dict EventKey WorkEvent → List WorkEvent → Dict EventKey WorkEvent
select_from l selected [] = selected
select_from l selected (event ∷ events) =
    let key = event_key l event in
    select_from l
      (if improves (lookup key selected) event then insert key event selected else selected) events

unfoldable pub deduplicate : Letters → List WorkEvent → List WorkEvent
unfolding select_from
deduplicate l events = values (select_from l [] events)

-- `(event.result or event.description or "").strip()`
abbrev pub detail_of : WorkEvent → String
detail_of event =
    let result = or_else event.result "" in
    strip (if is_empty result then or_else event.description "" else result)

unfoldable pub report_line : WorkEvent → String
report_line event =
    let detail = detail_of event in
    if is_empty detail || contains_text detail event.title
    then event.title
    else join_text event.title (join_text "：" (take_chars 200 detail))

-- The events of one status, as lines.
abbrev pub lines_of : (WorkStatus → Bool) → List WorkEvent → List String
lines_of test events = map report_line (filter (λ e. test e.status) events)

abbrev pub needs_check : WorkEvent → Bool
needs_check event = is_unknown event.status || is_low event.confidence

abbrev pub check_warning : WorkEvent → String
check_warning event = join_text "事件 " (join_text event.event_id " 状态或证据可信度需要确认")

-- The ReportDraft that generate_daily builds, under the id that `uuid4()` gave.
unfoldable pub daily_draft : Letters → String → String → List WorkEvent → List String → ReportDraft
unfolding deduplicate report_line
daily_draft l report_id report_date all_events source_warnings =
    let events = deduplicate l all_events in
    record {
      report_id = report_id;
      report_date = report_date;
      completed = lines_of is_completed events;
      in_progress = lines_of is_in_progress events;
      risks = lines_of is_blocked events;
      evidence_event_ids = map (λ e. e.event_id) events;
      status = draft;
      review_comment = none;
      report_type = daily;
      overview = join_text "共汇总 " (join_text (l.decimal (length events)) " 项有证据的工作事件。");
      plans = lines_of is_planned events;
      coordination_items = [];
      source_warnings = source_warnings ++ map check_warning (filter needs_check events);
      version = 1;
    }

-- What generate_weekly changes in it.
unfoldable pub as_weekly : Letters → ReportDraft → ReportDraft
as_weekly l d = record d {
  report_type = weekly;
  overview = join_text "本周共汇总 " (join_text (l.decimal (length d.evidence_event_ids)) " 项去重后的工作事件。");
}
