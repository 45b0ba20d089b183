-- ===== src/Api/Assistant.antt =====
-- invoke_assistant and resume_assistant (app/api/routes.py). The runtime of the assistant is a
-- parameter; each route runs without interruption.
use office_mult_agent.Base.{
  String, Bool, true, Option, none, some, List, [], or_else, contains, string_eq, if◌then◌else◌,
  Result, ok, err,
}
use office_mult_agent.Value.{Value, Fields, str, bool, null, obj, field, end}
use office_mult_agent.Context.{RequestContext}
use office_mult_agent.Approvals.{Approvals, ApprovalRecord, create_pending, get_pending, decide}
use office_mult_agent.Api.{Http, answered, refused}

-- What a run of the graph gives back, and whether it has an "__interrupt__".
pub record GraphResult : Type 0 where
  pub interrupted : Bool
  pub intent : String
  pub status : String
  pub message : String
  pub warnings : List String
  pub result : Fields
  pub subagent_result : Fields

pub record AssistantRuntime : Type 1 where
  pub State : Type 0
  pub invoke : String → Fields → RequestContext → State → Result GraphResult × State
  pub resume : String → Value → RequestContext → State → Result GraphResult × State
  -- of the state's snapshot of a thread: the intent, the subagent_result, and the required_scope
  pub intent : String → State → String
  pub subagent_result : String → State → Option Fields
  pub required_scope : String → State → Option String

pub record AssistantInvokeResponse : Type 0 where
  pub request_id : String
  pub thread_id : String
  pub intent : String
  pub status : String
  pub message : String
  pub warnings : List String
  pub awaiting_approval : Bool
  pub result : Option Fields

-- `result.get("result") or result.get("subagent_result")`
abbrev pub or_fields : Fields → Fields → Fields
or_fields end other = other
or_fields (field k v rest) other = field k v rest

-- `payload.model_dump()`
abbrev pub comment_value : Option String → Value
comment_value none = null
comment_value (some text) = str text

abbrev pub resume_payload : Bool → Option String → Value
resume_payload approved comment =
    obj (field "approved" (bool approved) (field "comment" (comment_value comment) end))

abbrev pub thread_type : String
thread_type = "assistant_thread"

abbrev pub response_of : RequestContext → String → GraphResult → AssistantInvokeResponse
response_of context thread_id g = record {
  request_id = context.request_id;
  thread_id = thread_id;
  intent = g.intent;
  status = g.status;
  message = g.message;
  warnings = g.warnings;
  awaiting_approval = g.interrupted;
  result = some (or_fields g.result g.subagent_result);
}

module _ (rt : AssistantRuntime) where
  -- The approval records, and the runtime's own state.
  abbrev pub Desk : Type 0
  Desk = Approvals × rt.State

  -- The answer to a run that has ended in an interrupt.
  abbrev pub waiting_response : RequestContext → rt.State → AssistantInvokeResponse
  waiting_response context r = record {
    request_id = context.request_id;
    thread_id = context.thread_id;
    intent = rt.intent context.thread_id r;
    status = "awaiting_approval";
    message = "draft is awaiting human approval";
    warnings = [];
    awaiting_approval = true;
    result = rt.subagent_result context.thread_id r;
  }

  abbrev pub after_invoke :
      RequestContext
      → Approvals
      → Result GraphResult × rt.State
      → Http AssistantInvokeResponse × Desk
  after_invoke context approvals (err e, r) = (refused 500, (approvals, r))
  after_invoke context approvals (ok g, r) =
      if g.interrupted
      then (
        answered (waiting_response context r),
        ((create_pending thread_type context.thread_id context approvals).1, r),
      )
      else (answered (response_of context context.thread_id g), (approvals, r))

  -- The task's input comes with the flag "require_approval" in it.
  unfoldable pub invoke_assistant :
      String → Fields → RequestContext → Desk → Http AssistantInvokeResponse × Desk
  invoke_assistant message task_input context (approvals, r) =
      after_invoke context approvals (rt.invoke message task_input context r)

  abbrev pub scope_needed : String → rt.State → String
  scope_needed thread_id r = or_else (rt.required_scope thread_id r) "report:review"

  -- The decision on the approval, and a new request where the graph is interrupted again.
  abbrev pub settle :
      String
      → Bool
      → Option String
      → RequestContext
      → GraphResult
      → rt.State
      → Result ApprovalRecord × Approvals
      → Http AssistantInvokeResponse × Desk
  settle thread_id granted comment context g r (err e, approvals) = (refused 500, (approvals, r))
  settle thread_id granted comment context g r (ok decided, approvals) =
      if g.interrupted
      then (
        answered (response_of context thread_id g),
        ((create_pending thread_type thread_id context approvals).1, r),
      )
      else (answered (response_of context thread_id g), (approvals, r))

  abbrev pub after_resume :
      String
      → Bool
      → Option String
      → RequestContext
      → Approvals
      → Result GraphResult × rt.State
      → Http AssistantInvokeResponse × Desk
  after_resume thread_id granted comment context approvals (err e, r) =
      (refused 500, (approvals, r))
  after_resume thread_id granted comment context approvals (ok g, r) =
      settle thread_id granted comment context g r
        (decide thread_type thread_id granted comment context approvals)

  unfoldable pub resume_assistant :
      String → Bool → Option String → RequestContext → Desk → Http AssistantInvokeResponse × Desk
  resume_assistant thread_id granted comment context (approvals, r) =
      elim (get_pending thread_type thread_id context approvals) [
        | none ↦ (refused 404, (approvals, r))
        | some pending ↦
            if contains context.permission_scopes (scope_needed thread_id r)
            then after_resume thread_id granted comment context approvals
                (rt.resume thread_id (resume_payload granted comment) context r)
            else (refused 403, (approvals, r))
      ]
