-- ===== src/Orchestration/Resume.antt =====
-- From a request for approval to the decision on it and back (app/orchestration/supervisor.py and
-- app/orchestration/worker_graphs.py).
use office_mult_agent.Base.{
  ℕ, zero, suc, max, ◌≤◌, String, Bool, true, false, Option, some, List, [], ◌∷◌, length, ◌≡◌, refl,
  ap, ◌∙◌, arith, Option-cases, inl, inr, string_eq, ok,
}
use office_mult_agent.Value.{Value, Fields, str, bool, obj, field, end, item, nil, get_field}
use office_mult_agent.Context.{RequestContext}
use office_mult_agent.Meetings.Service.{Minutes}
use office_mult_agent.Reports.Service.{Reports}
use office_mult_agent.Orchestration.Approval.{
  approval_request, decision_approved, first_approved, one_decision, copies, pending_action_names,
  resume_value, adapt_resume, required_scope, tool_scope,
}
use office_mult_agent.Orchestration.Graphs.{waiting}
use office_mult_agent.Orchestration.Graphs.Report.{
  ReportDependencies, ReportOperation, ReportTaskSpec, draft_op, review_op, submit_op,
  prepare_draft, review_node, submit_node, report_graph, given,
}

first_approved-copies :
    (n : ℕ) (decision : Fields)
    → 1 ≤ n
    → first_approved (copies n (obj decision)) ≡ first_approved (item (obj decision) nil)
first_approved-copies zero decision h = absurd (omega (arith, h))
first_approved-copies (suc n) decision h = refl

one_decision_lem :
    (repr : Value → String) (granted : Bool) (comment : Option Value)
    → first_approved (item (obj (one_decision repr granted comment)) nil) ≡ granted
one_decision_lem repr true comment = ground arith
one_decision_lem repr false comment = ground arith

decision_approved-resume_value :
    (repr : Value → String) (granted : Bool) (comment : Option Value) (interrupts : List Value)
    → decision_approved (resume_value repr granted comment interrupts) ≡ granted
unfolding decision_approved resume_value
decision_approved-resume_value repr granted comment interrupts =
    first_approved-copies (max 1 (length (pending_action_names interrupts)))
      (one_decision repr granted comment) (omega arith)
    ∙ one_decision_lem repr granted comment

-- A resume that says whether the action is approved reaches the graph as a decision that the graph
-- reads in the same way: a node goes on exactly if the resume says so. Whatever interrupts are
-- pending, there is a decision to read.
pub decision_approved-adapt_resume :
    (repr : Value → String) (resume : Fields) (granted : Bool) (interrupts : List Value)
    → get_field "approved" resume ≡ some (bool granted)
    → decision_approved (adapt_resume repr (obj resume) interrupts) ≡ granted
unfolding adapt_resume
decision_approved-adapt_resume repr resume granted interrupts h =
    rw (h, adapt_resume)
      (decision_approved-resume_value repr granted (get_field "comment" resume) interrupts)

request_lem :
    (name scope : String) (arguments : Fields)
    → tool_scope name ≡ some scope
    → required_scope (pending_action_names (approval_request name arguments ∷ [])) ≡ scope
unfolding required_scope pending_action_names approval_request
request_lem name scope arguments h = ground (arith, h)

-- The scope by operation.
abbrev pub operation_scope : ReportOperation → String
operation_scope submit_op = "report:submit"
operation_scope _ = "report:review"

-- A run that waits shows a request, for an action by operation.
abbrev action_of : ReportOperation → String
action_of submit_op = "submit_report"
action_of _ = "review_report"

module _ (d : ReportDependencies) (context : RequestContext) (spec : ReportTaskSpec)
    (s : Reports) where
  review_waits :
      (resume : Option Value) (request : Value)
      → (review_node d context spec resume s).0 ≡ ok (waiting request)
      → (arguments : Fields) × (request ≡ approval_request "review_report" arguments)
  unfolding review_node
  review_waits resume request h = elim (Option-cases (given spec.report_id)) [
    | inl missing ↦ absurd (ground (arith, h, missing))
    | inr (report_id, there) ↦ (
      field "report_id" (str report_id) (field "approved" (bool spec.approved) end),
      ground (arith, h, there),
    )
  ]

  submit_waits :
      (resume : Option Value) (request : Value)
      → (submit_node d context spec resume s).0 ≡ ok (waiting request)
      → (arguments : Fields) × (request ≡ approval_request "submit_report" arguments)
  unfolding submit_node
  submit_waits resume request h = elim (Option-cases (given spec.report_id)) [
    | inl missing ↦ absurd (ground (arith, h, missing))
    | inr (report_id, there) ↦ (field "report_id" (str report_id) end, ground (arith, h, there))
  ]

  draft_never_waits :
      (uuid : String) (minutes : Minutes) (request : Value)
      → ¬ ((prepare_draft d uuid minutes context spec s).0 ≡ ok (waiting request))
  unfolding prepare_draft
  draft_never_waits uuid minutes request h = ground (arith, h)

  asks :
      (name scope : String) (request : Value)
      → tool_scope name ≡ some scope
      → ((arguments : Fields) × (request ≡ approval_request name arguments))
      → required_scope (pending_action_names (request ∷ [])) ≡ scope
  asks name scope request known (arguments, is) =
      ap (λ v. required_scope (pending_action_names (v ∷ []))) is
      ∙ request_lem name scope arguments known

module _ (d : ReportDependencies) (uuid : String) (minutes : Minutes) (spec : ReportTaskSpec)
    (context : RequestContext) (s : Reports) where
  -- A run of the report graph that waits shows a request for which the supervisor asks the caller
  -- for the very scope that the report service demands for the action: "report:review" of a review,
  -- "report:submit" of a submission.
  pub required_scope-report_graph :
      (resume : Option Value) (request : Value)
      → (report_graph d uuid minutes spec resume context s).0 ≡ ok (waiting request)
      → required_scope (pending_action_names (request ∷ [])) ≡ operation_scope spec.operation
  unfolding report_graph
  required_scope-report_graph resume request h = by_operation spec.operation refl h
    where
      by_operation :
          (op : ReportOperation)
          → spec.operation ≡ op
          → (report_graph d uuid minutes spec resume context s).0 ≡ ok (waiting request)
          → required_scope (pending_action_names (request ∷ [])) ≡ operation_scope spec.operation
      by_operation draft_op is h =
          absurd
            (draft_never_waits d context spec s uuid minutes request (rw (is, report_graph) at h))
      by_operation review_op is h = rw is (
          asks d context spec s "review_report" "report:review" request (ground arith)
            (review_waits d context spec s resume request (rw (is, report_graph) at h)))
      by_operation submit_op is h = rw is (
          asks d context spec s "submit_report" "report:submit" request (ground arith)
            (submit_waits d context spec s resume request (rw (is, report_graph) at h)))
