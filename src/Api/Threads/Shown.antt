-- ===== src/Api/Threads/Shown.antt =====
-- Who is shown a thread, and who may resume it (app/api/routes.py, _require_pending_approval).
use office_mult_agent.Base.{
  ℕ, String, Bool, true, Option, List, [], ◌∷◌, ◌≡◌, ◌⊎◌, inl, inr, refl, ap, contains, string_eq,
  is_some, if◌then◌else◌, Option-cases, Bool-cases,
}
use office_mult_agent.Context.{RequestContext}
use office_mult_agent.Approvals.{Approvals, get_pending}
use office_mult_agent.Orchestration.Replies.{Printing}
use office_mult_agent.Orchestration.Supervisor.{AgentGraph, Runtime, get_state, is_waiting_state}
use office_mult_agent.Api.{answered, refused}
use office_mult_agent.Api.Assistant.{thread_type, resume_assistant}
use office_mult_agent.Api.Threads.{
  AssistantStateResponse, has_nodes, state_response, supervisor_runtime, assistant_state,
}

says_waiting :
    (p : Printing) (g : AgentGraph) (next : List String)
    → is_waiting_state p g next ≡ (if has_nodes next then "awaiting_approval" else "completed")
says_waiting p g [] = refl
says_waiting p g (n ∷ next) = refl

module _ (p : Printing) (g : AgentGraph) (thread_id : String) (granted : Bool)
    (comment : Option String) (context : RequestContext) (approvals : Approvals)
    (s : Runtime p g) where
  -- A caller to whom the state of a thread is refused is refused a resume of it with the same status,
  -- whatever it decides, and nothing changes; else an approval of the thread is pending, the caller holds
  -- the scope that the thread's pending actions need, and the answer shows the nodes of the graph that
  -- are left to run, and says that it awaits an approval, in its flag and its status, exactly if there
  -- are any.
  pub assistant_state-resume_assistant :
      ((status : ℕ) × (assistant_state p g thread_id context (approvals, s) ≡ refused status)
        × (resume_assistant
              (supervisor_runtime p g)
              thread_id
              granted
              comment
              context
              (approvals, s)
            ≡ (refused status, (approvals, s))))
      ⊎ ((view : AssistantStateResponse) × (assistant_state p g thread_id context (approvals, s)
            ≡ answered view)
          × (is_some (get_pending thread_type thread_id context approvals) ≡ true)
          × (contains context.permission_scopes (get_state p g thread_id s).required_scope ≡ true)
          × (view.next_nodes ≡ g.next thread_id s.graph)
          × (view.awaiting_approval ≡ has_nodes (g.next thread_id s.graph))
          × (view.status ≡ (if view.awaiting_approval then "awaiting_approval" else "completed")))
  unfolding assistant_state resume_assistant get_state
  assistant_state-resume_assistant =
      elim (Option-cases (get_pending thread_type thread_id context approvals)) [
        | inl missing ↦
            inl (404, rw (missing, assistant_state) refl, rw (missing, resume_assistant) refl)
        | inr (pending, there) ↦
            elim (Bool-cases
              (contains context.permission_scopes (get_state p g thread_id s).required_scope)) [
                | inr denied ↦ inl (
                  403,
                  rw (there, denied, assistant_state) refl,
                  rw (there, denied, resume_assistant) refl,
                )
                | inl scope ↦ inr (
                  state_response p g thread_id (get_state p g thread_id s),
                  rw (there, scope, assistant_state) refl,
                  ap is_some there,
                  scope,
                  refl,
                  refl,
                  says_waiting p g (g.next thread_id s.graph),
                )
              ]
      ]
