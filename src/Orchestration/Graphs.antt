-- ===== src/Orchestration/Graphs.antt =====
-- The domain graphs (app/orchestration/worker_graphs.py). A node that interrupts is run again from
-- its start on a resume, so a run takes the resume value, if there is one: without it the run ends
-- waiting. What the model makes of the task, the ReportTaskSpec or MeetingTaskSpec, is an input.
pub mod Report
pub mod Meeting
pub mod Gate
use office_mult_agent.Base.{String, Bool, true, false, Option, none, some, List, [], ◌∷◌}
use office_mult_agent.Value.{Value, Fields, Items, str, obj, arr, field, end, item, nil}

-- What a node leaves in the graph's state.
pub record Outcome : Type 0 where
  pub status : String
  pub warnings : List String
  pub result : Fields

-- A run that has ended, or one that waits for a decision on a request.
pub data Progress : Type 0 where
  waiting : (request : Value) → Progress
  finished : (outcome : Outcome) → Progress

abbrev pub completed : Fields → Progress
completed result = finished (record { status = "completed"; warnings = []; result = result })

abbrev pub stopped : String → String → Progress
stopped status warning =
    finished (record { status = status; warnings = warning ∷ []; result = end })

abbrev pub texts : List String → Items
texts [] = nil
texts (x ∷ xs) = item (str x) (texts xs)

-- The payload of the message that _finalize writes.
unfoldable pub finalize : Outcome → Fields
finalize outcome =
    field "status" (str outcome.status)
      (field "result" (obj outcome.result) (field "warnings" (arr (texts outcome.warnings)) end))
