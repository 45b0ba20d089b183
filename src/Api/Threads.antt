-- ===== src/Api/Threads.antt =====
-- The assistant's routes over the supervisor (app/api/routes.py, app/orchestration/supervisor.py), and
-- the route that shows the state of a thread.
pub mod Shown
use office_mult_agent.Base.{
  String, Bool, true, false, Option, none, some, List, [], ◌∷◌, contains, string_eq, if◌then◌else◌,
  Result, ok, err,
}
use office_mult_agent.Base.Text.{is_empty}
use office_mult_agent.Context.{RequestContext}
use office_mult_agent.Approvals.{Approvals, get_pending}
use office_mult_agent.Orchestration.Replies.{Printing, intent_name}
use office_mult_agent.Orchestration.Supervisor.{
  AgentGraph, Runtime, StateView, invoke_message, invoke_resume, get_state,
}
use office_mult_agent.Api.{Http, answered, refused}
use office_mult_agent.Api.Assistant.{AssistantRuntime, Desk, thread_type, scope_needed}

pub record AssistantStateResponse : Type 0 where
  pub thread_id : String
  pub status : String
  pub awaiting_approval : Bool
  pub next_nodes : List String
  pub pending_actions : List String
  pub required_scope : Option String

-- `bool(snapshot.next)`
abbrev pub has_nodes : List String → Bool
has_nodes [] = false
has_nodes (n ∷ next) = true

module _ (p : Printing) (g : AgentGraph) where
  -- The supervisor behind the routes. The values of its state have no "subagent_result".
  abbrev pub supervisor_runtime : AssistantRuntime
  supervisor_runtime = record {
    State = Runtime p g;
    invoke = invoke_message p g;
    resume = invoke_resume p g;
    intent = λ thread_id s. intent_name (get_state p g thread_id s).intent;
    subagent_result = λ thread_id s. none;
    required_scope = λ thread_id s. some (get_state p g thread_id s).required_scope;
  }

  abbrev pub scope_shown : String → Option String
  scope_shown scope = if is_empty scope then none else some scope

  abbrev pub state_response : String → StateView p g → AssistantStateResponse
  state_response thread_id view = record {
    thread_id = thread_id;
    status = view.status;
    awaiting_approval = has_nodes view.next;
    next_nodes = view.next;
    pending_actions = view.pending_actions;
    required_scope = scope_shown view.required_scope;
  }

  unfoldable pub assistant_state :
      String → RequestContext → Approvals × Runtime p g → Http AssistantStateResponse
  unfolding get_state
  assistant_state thread_id context (approvals, s) =
      elim (get_pending thread_type thread_id context approvals) [
        | none ↦ refused 404
        | some pending ↦
            let view = get_state p g thread_id s in
            if contains context.permission_scopes view.required_scope
            then answered (state_response thread_id view)
            else refused 403
      ]
