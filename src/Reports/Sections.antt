-- ===== src/Reports/Sections.antt =====
-- No event is lost between _deduplicate and the sections of the draft (app/domain/reports.py).
use office_mult_agent.Base.{
  ℕ, ◌+◌, ◌≤◌, String, Bool, List, [], ◌∷◌, map, filter, length, length-append, length-map, ◌≡◌,
  refl, arith,
}
use office_mult_agent.Events.{
  WorkEvent, WorkStatus, is_completed, is_in_progress, is_blocked, is_planned, is_unknown,
}
use office_mult_agent.Reports.Draft.{
  Letters, daily_draft, deduplicate, report_line, needs_check, check_warning,
}

-- The events of one status.
abbrev count_of : (WorkStatus → Bool) → List WorkEvent → ℕ
count_of test events = length (filter (λ e. test e.status) events)

counts :
    (es : List WorkEvent)
    → length es
      ≡ count_of is_completed es
        + count_of is_in_progress es
        + count_of is_blocked es
        + count_of is_planned es
        + count_of is_unknown es
counts [] = refl
counts (e ∷ es) = ground (arith, counts es)

unknown_warned : (es : List WorkEvent) → count_of is_unknown es ≤ length (filter needs_check es)
unknown_warned [] = omega arith
unknown_warned (e ∷ es) = ground (arith, unknown_warned es)

-- No event is lost on the way into a daily draft: the events that its evidence names are no more
-- than the lines of its four sections and the warnings that it adds to the given ones.
pub daily_draft_complete :
    (l : Letters) (report_id report_date : String) (events : List WorkEvent)
    (source_warnings : List String)
    → let d = daily_draft l report_id report_date events source_warnings in
      length d.evidence_event_ids + length source_warnings
      ≤ length d.completed
        + length d.in_progress
        + length d.risks
        + length d.plans
        + length d.source_warnings
unfolding daily_draft
daily_draft_complete l report_id report_date events source_warnings =
    let kept = deduplicate l events in
    omega (
      arith,
      counts kept,
      unknown_warned kept,
      length-map (λ e. e.event_id) kept,
      length-map report_line (filter (λ e. is_completed e.status) kept),
      length-map report_line (filter (λ e. is_in_progress e.status) kept),
      length-map report_line (filter (λ e. is_blocked e.status) kept),
      length-map report_line (filter (λ e. is_planned e.status) kept),
      length-map check_warning (filter needs_check kept),
      length-append source_warnings (map check_warning (filter needs_check kept)),
    )
