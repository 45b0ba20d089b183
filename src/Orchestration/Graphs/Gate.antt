-- ===== src/Orchestration/Graphs/Gate.antt =====
-- Controlled actions wait for a person (app/orchestration/worker_graphs.py).
use office_mult_agent.Base.{ℕ, String, Bool, false, Option, none, some, ◌≡◌, ◌≢◌, arith, string_eq}
use office_mult_agent.Value.{Value}
use office_mult_agent.Context.{RequestContext}
use office_mult_agent.Meetings.Service.{Minutes, generate, save_minutes}
use office_mult_agent.Reports.Service.{Reports, generate_daily, generate_weekly, save_report}
use office_mult_agent.Orchestration.Approval.{decision_approved}
use office_mult_agent.Orchestration.Graphs.Report.{
  ReportDependencies, ReportTaskSpec, draft_op, prepare_draft, review_node, submit_node,
  report_graph,
}
use office_mult_agent.Orchestration.Graphs.Meeting.{
  MeetingDependencies, MeetingTaskSpec, MeetingWorld, meeting_graph, transcribe_node, generate_node,
  review_minutes_node, send_node,
}

-- The resume value, if there is one, approves.
abbrev pub is_approving : Option Value → Bool
is_approving none = false
is_approving (some decision) = decision_approved decision

module _ (d : ReportDependencies) (uuid : String) (minutes : Minutes) (spec : ReportTaskSpec)
    (resume : Option Value) (context : RequestContext) (s : Reports) where
  -- Without an approving decision a run of the report graph, whatever its operation, submits nothing
  -- and reviews nothing: the calls of the report system, the idempotency records and the audit trail
  -- are as before.
  pub report_graph-gate :
      is_approving resume ≡ false
      → let after = (report_graph d uuid minutes spec resume context s).1 in
        (after.calls ≡ s.calls) × (after.results ≡ s.results) × (after.audit ≡ s.audit)
  unfolding report_graph prepare_draft review_node submit_node generate_daily generate_weekly
      save_report
  report_graph-gate h = ground (arith, h)

  -- Without an approving decision only a run that drafts changes anything at all.
  pub report_graph_idle :
      is_approving resume ≡ false
      → spec.operation ≢ draft_op
      → (report_graph d uuid minutes spec resume context s).1 ≡ s
  unfolding report_graph review_node submit_node
  report_graph_idle h other = ground (arith, h, other)

module _ (d : MeetingDependencies) (uuid : String) (now : ℕ) (spec : MeetingTaskSpec)
    (resume : Option Value) (context : RequestContext) (s : MeetingWorld) where
  -- Without an approving decision a run of the meeting graph, whatever its operation, sends nothing
  -- and reviews nothing: the calls of the mail system, the idempotency records and the audit trail
  -- are as before.
  pub meeting_graph-gate :
      is_approving resume ≡ false
      → let after = (meeting_graph d uuid now spec resume context s).1 in
        (after.minutes.calls ≡ s.minutes.calls)
        × (after.minutes.results ≡ s.minutes.results)
        × (after.minutes.audit ≡ s.minutes.audit)
  unfolding meeting_graph transcribe_node generate_node review_minutes_node send_node generate
      save_minutes
  meeting_graph-gate h = ground (arith, h)
