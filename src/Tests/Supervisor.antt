-- ===== src/Tests/Supervisor.antt =====
-- A run of the supervisor with a graph that runs out of time (app/orchestration/supervisor.py).
use office_mult_agent.Base.{
  ℕ, ◌+◌, String, true, Option, none, some, is_some, contains, ◌⊎◌, if◌then◌else◌, [], ◌∷◌,
  triple_eq, ◌≡◌, refl, ap, inl, Error, ok, err, timeout_error, pair_eq, string_eq,
}
use office_mult_agent.Base.Dict.{lookup, insert}
use office_mult_agent.Value.{Value, end, obj, field, arr, item, str, nil}
use office_mult_agent.Memories.{list_memories, list_for}
use office_mult_agent.Orchestration.Replies.{Printing}
use office_mult_agent.Orchestration.Supervisor.{
  AgentGraph, Runtime, memory_file, invoke_message, sync_confirmed_memory, get_state,
}
use office_mult_agent.Approvals.{Approvals, get_pending, create_pending}
use office_mult_agent.Context.{RequestContext}
use office_mult_agent.Orchestration.Approval.{pending_action_names, required_scope}
use office_mult_agent.Api.{answered, refused}
use office_mult_agent.Api.Assistant.{thread_type, resume_assistant}
use office_mult_agent.Api.Threads.{
  AssistantStateResponse, supervisor_runtime, assistant_state, state_response, has_nodes,
}
use office_mult_agent.Api.Threads.Shown.{assistant_state-resume_assistant}
use office_mult_agent.Orchestration.Supervisor.Answers.{IsAnswer, invoke_message-IsAnswer}
use office_mult_agent.Orchestration.Supervisor.MemoryFile.{invoke_message-files}
use office_mult_agent.Tests.Samples.{ann}
use office_mult_agent.Tests.Memories.{formats, count-unary, no_memories}

abbrev printing : Printing
printing = record { lower = λ s. s; repr = λ v. "?"; dumps = λ v. "?"; formats = formats }

-- A graph that counts its runs, each of which is out of time.
abbrev slow_graph : AgentGraph
slow_graph = record {
  State = ℕ;
  invoke = λ message context n. (err timeout_error, n + 1);
  interrupts = λ thread n. [];
  messages = λ thread n. [];
  next = λ thread n. [];
  read_memories = λ context n. none;
  put = λ context n. none;
}

abbrev start : Runtime printing slow_graph
start = record { memories = no_memories; files = []; graph = 0 }

invoke_message-IsAnswer_example :
    ((e : Error) × ((sync_confirmed_memory printing slow_graph ann start).0 ≡ err e)
      × ((invoke_message printing slow_graph "hello" end ann start).0 ≡ err e)
      × ((invoke_message printing slow_graph "hello" end ann start).1.graph ≡ start.graph)
      × ((invoke_message printing slow_graph "hello" end ann start).1.files ≡ start.files))
    ⊎ (((sync_confirmed_memory printing slow_graph ann start).0 ≡ ok tt)
        × IsAnswer (invoke_message printing slow_graph "hello" end ann start).0)
invoke_message-IsAnswer_example = invoke_message-IsAnswer printing slow_graph "hello" end ann start

invoke_message-files_example :
    lookup ("acme", "ann") (invoke_message printing slow_graph "hello" end ann start).1.files
    ≡ some (memory_file printing (list_memories ann no_memories))
unfolding lookup sync_confirmed_memory list_for
invoke_message-files_example =
    invoke_message-files printing slow_graph (λ n. ap some (count-unary n)) "hello" end ann start
      ("acme", "ann") (tt, (inl refl, tt)) refl

abbrev comment : Option String
comment = none

-- A graph that stands before its node "review" and asks for the review of a report.
abbrev review_request : Value
review_request =
    obj
      (field "action_requests" (arr (item (obj (field "name" (str "review_report") end)) nil)) end)

abbrev waiting_graph : AgentGraph
waiting_graph = record slow_graph {
  interrupts = λ thread n. review_request ∷ [];
  next = λ thread n. "review" ∷ [];
}

abbrev waiting : Runtime printing waiting_graph
waiting = record { memories = no_memories; files = []; graph = 0 }

abbrev reviewer : RequestContext
reviewer = record ann { permission_scopes = "report:review" ∷ [] }

abbrev asked : Approvals
asked = (create_pending thread_type "thread" ann []).1

-- The reviewer is shown the thread.
shown :
    assistant_state printing waiting_graph "thread" reviewer (asked, waiting)
    ≡ answered (
        state_response printing waiting_graph "thread"
          (get_state printing waiting_graph "thread" waiting))
unfolding assistant_state get_state get_pending create_pending lookup insert pending_action_names
    required_scope
shown = refl

assistant_state-resume_assistant_example :
    ((status : ℕ) × (assistant_state printing waiting_graph "thread" reviewer (asked, waiting)
        ≡ refused status)
      × (resume_assistant
            (supervisor_runtime printing waiting_graph)
            "thread"
            true
            comment
            reviewer
            (asked, waiting)
          ≡ (refused status, (asked, waiting))))
    ⊎ ((view : AssistantStateResponse) × (assistant_state printing waiting_graph "thread" reviewer
            (asked, waiting)
          ≡ answered view)
        × (is_some (get_pending thread_type "thread" reviewer asked) ≡ true)
        × (contains reviewer.permission_scopes
              (get_state printing waiting_graph "thread" waiting).required_scope
            ≡ true)
        × (view.next_nodes ≡ "review" ∷ [])
        × (view.awaiting_approval ≡ has_nodes (waiting_graph.next "thread" waiting.graph))
        × (view.status ≡ (if view.awaiting_approval then "awaiting_approval" else "completed")))
assistant_state-resume_assistant_example =
    assistant_state-resume_assistant printing waiting_graph "thread" true comment reviewer asked
      waiting
