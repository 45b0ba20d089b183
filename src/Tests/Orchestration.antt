-- ===== src/Tests/Orchestration.antt =====
-- The budget, the approval gates and the assistant's routes (app/orchestration and app/api/routes.py).
use office_mult_agent.Base.{
  ℕ, ◌+◌, ◌<◌, String, true, false, Option, none, some, List, [], ◌∷◌, ◌≡◌, inl, inr, refl, sym,
  subst, arith, In, ok, string_eq, triple_eq, option_eq,
}
use office_mult_agent.Base.Dict.{lookup, insert}
use office_mult_agent.Value.{Value, Fields, bool, obj, field, end}
use office_mult_agent.Approvals.{ApprovalRecord, pending, get_pending, decide}
use office_mult_agent.Orchestration.Planning.{
  Message, ai, tool, Tool, base_tool, ModelRequest, PlanningBudget, count_tool_calls, tool_name,
  is_failure, requires_replan, limited_request,
}
use office_mult_agent.Orchestration.Planning.Replan.{failed_since, requires_replan-failed_since}
use office_mult_agent.Orchestration.Planning.Budget.{offers, limited_request-no_task}
use office_mult_agent.Orchestration.Planning.Conversation.{start, reply, delegations-lt}
use office_mult_agent.Orchestration.Approval.{decision_approved, adapt_resume}
use office_mult_agent.Orchestration.Resume.{decision_approved-adapt_resume}
use office_mult_agent.Orchestration.Graphs.Report.{
  ReportDependencies, ReportTaskSpec, submit_op, report_graph,
}
use office_mult_agent.Orchestration.Graphs.Meeting.{
  MeetingDependencies, MeetingTaskSpec, MeetingWorld, send_op,
}
use office_mult_agent.Orchestration.Graphs.Gate.{report_graph-gate}
use office_mult_agent.Reports.Draft.{daily}
use office_mult_agent.Api.{refused}
use office_mult_agent.Api.Assistant.{
  AssistantRuntime, AssistantInvokeResponse, GraphResult, Desk, resume_assistant, thread_type,
}
use office_mult_agent.Context.{RequestContext}
use office_mult_agent.Api.Resume.{resume_assistant_once}
use office_mult_agent.Tests.Samples.{empty}
use office_mult_agent.Tests.Reports.{report_system, reviewer, one_approved}
use office_mult_agent.Tests.Meetings.{mail_system, one_held, sources}

abbrev same : String → String
same s = s

abbrev budget : PlanningBudget
budget = record { max_delegations = 1; max_plan_updates = 1 }

-- One delegation, which comes back failed.
abbrev failed_talk : List Message
failed_talk = ai "" (some "task" ∷ []) ∷ tool "error_code" ∷ []

abbrev both_tools : List Tool
both_tools = base_tool "task" ∷ base_tool "write_todos" ∷ base_tool "ls" ∷ []

abbrev asking : List Message → ModelRequest
asking messages = record { messages = messages; tools = both_tools; system_message = none }

abbrev planned : List Message
planned = ai "" (some "write_todos" ∷ []) ∷ []

limited_request-no_task_example :
    offers "task" (limited_request same budget (asking failed_talk)).tools ≡ false
unfolding count_tool_calls
limited_request-no_task_example =
    limited_request-no_task same budget (asking failed_talk) (inl (omega arith))

requires_replan-failed_since_example :
    requires_replan same failed_talk ≡ failed_since same failed_talk
requires_replan-failed_since_example = requires_replan-failed_since same failed_talk

-- Two delegations in the first message: one more than the budget.
abbrev twice : List (Option String)
twice = some "task" ∷ some "task" ∷ []

offers_task :
    (name : String)
    → name ≡ "task"
    → offers name (limited_request same budget (asking [])).tools ≡ true
unfolding limited_request count_tool_calls tool_name requires_replan is_failure
offers_task name is =
    subst (λ n. offers n (limited_request same budget (asking [])).tools ≡ true) (sym is) refl

offered_at_first :
    (name : String)
    → In (some name) twice
    → offers name (limited_request same budget (asking [])).tools ≡ true
offered_at_first name (inl is) = offers_task name (ground (arith, is))
offered_at_first name (inr (inl is)) = offers_task name (ground (arith, is))
offered_at_first name (inr (inr h)) = absurd h

delegations-lt_example : count_tool_calls (ai "" twice ∷ []) "task" < 1 + 2
delegations-lt_example =
    delegations-lt same budget both_tools 2 (ai "" twice ∷ []) (omega arith)
      (reply [] "" twice none start offered_at_first (omega arith))

-- Two delegations, over a budget of one.
over_budget : count_tool_calls (ai "" twice ∷ []) "task" ≡ 2
unfolding count_tool_calls
over_budget = refl

abbrev report_parts : ReportDependencies
report_parts = record {
  service = report_system;
  sources = sources;
  dump = λ d. end;
  six_days_on = λ day. ok day;
}

abbrev submit_task : ReportTaskSpec
submit_task = record {
  operation = submit_op;
  report_date = none;
  report_type = daily;
  events = [];
  report_id = some "r1";
  approved = true;
  comment = none;
}

abbrev rejection : Option Value
rejection = some (obj end)

report_graph-gate_example :
    let after =
      (report_graph report_parts "u" one_held submit_task rejection reviewer one_approved).1 in
    (after.calls ≡ []) × (after.results ≡ []) × (after.audit ≡ [])
unfolding decision_approved
report_graph-gate_example =
    report_graph-gate report_parts "u" one_held submit_task rejection reviewer one_approved refl

abbrev meeting_parts : MeetingDependencies
meeting_parts = record {
  service = mail_system;
  get_meeting = λ meeting_id context. ok end;
  dump = λ d. end;
  repr = λ v. "?";
}

abbrev send_task : MeetingTaskSpec
send_task = record {
  operation = send_op;
  meeting_id = "k1";
  title = none;
  meeting_date = none;
  segments = [];
  approved = true;
  comment = none;
}

abbrev held_world : MeetingWorld
held_world = record { minutes = one_held; tasks = empty }

abbrev yes_please : Fields
yes_please = field "approved" (bool true) end

decision_approved-adapt_resume_example :
    decision_approved (adapt_resume (λ v. "?") (obj yes_please) []) ≡ true
decision_approved-adapt_resume_example =
    decision_approved-adapt_resume (λ v. "?") yes_please true [] refl

-- A runtime whose state counts the resumes.
abbrev ran : GraphResult
ran = record {
  interrupted = false;
  intent = "report_submission";
  status = "completed";
  message = "ok";
  warnings = [];
  result = end;
  subagent_result = end;
}

abbrev counter : AssistantRuntime
counter = record {
  State = ℕ;
  invoke = λ message task_input context n. (ok ran, n + 1);
  resume = λ thread_id value context n. (ok ran, n + 1);
  intent = λ thread_id n. "report_submission";
  subagent_result = λ thread_id n. none;
  required_scope = λ thread_id n. some "report:submit";
}

abbrev waiting_approval : ApprovalRecord
waiting_approval = record {
  target_type = thread_type;
  target_id = "th";
  tenant_id = "acme";
  status = pending;
  comment = none;
}

abbrev desk : Desk counter
desk = (((("acme", thread_type, "th"), waiting_approval) ∷ []), 0)

abbrev answer_to_ran : AssistantInvokeResponse
answer_to_ran = record {
  request_id = "";
  thread_id = "th";
  intent = "report_submission";
  status = "completed";
  message = "ok";
  warnings = [];
  awaiting_approval = false;
  result = some end;
}

abbrev desk_after : Desk counter
desk_after = (resume_assistant counter "th" true none reviewer desk).1

-- Another user of the tenant, in another request.
abbrev colleague : RequestContext
colleague = record reviewer { request_id = "r2"; operator_id = "cora"; trace_id = "t2" }

resume_assistant_once_example :
    resume_assistant counter "th" false none colleague desk_after ≡ (refused 404, desk_after)
unfolding resume_assistant get_pending decide lookup insert
resume_assistant_once_example =
    resume_assistant_once counter "th" true false none none reviewer colleague desk answer_to_ran
      desk_after refl refl refl
