-- ===== src/Orchestration/Graphs/Meeting.antt =====
-- build_meeting_subgraph (app/orchestration/worker_graphs.py). Its nodes work on the minutes and on
-- the background tasks, each in its own part of the state.
use office_mult_agent.Base.{
  ℕ, String, Bool, Option, none, some, List, [], if◌then◌else◌, string_eq, Result, ok, err, Exec,
  pure, lift, ◌>>=◌,
}
use office_mult_agent.Base.Int.{pos}
use office_mult_agent.Base.Text.{take_chars}
use office_mult_agent.Value.{Value, Fields, str, bool, field, end, get_field, to_str}
use office_mult_agent.Context.{RequestContext}
use office_mult_agent.Tasks.Repository.{Repository, create}
use office_mult_agent.Meetings.Draft.{TranscriptSegment, MeetingMinutesDraft}
use office_mult_agent.Meetings.Service.{
  Outside, Minutes, dump_status, generate, review_minutes, send,
}
use office_mult_agent.Orchestration.Approval.{approval_request, decision_approved, is_truthy}
use office_mult_agent.Orchestration.Graphs.{Progress, waiting, finished, completed, stopped}

pub data MeetingOperation : Type 0 where
  transcribe_op generate_op review_op send_op : MeetingOperation

pub record MeetingTaskSpec : Type 0 where
  pub operation : MeetingOperation
  pub meeting_id : String
  pub title : Option String
  pub meeting_date : Option String
  pub segments : List TranscriptSegment
  pub approved : Bool
  pub comment : Option String

pub record MeetingDependencies : Type 0 where
  pub service : Outside
  -- the meeting of an id, as the connector answers
  pub get_meeting : String → RequestContext → Result Fields
  -- `result.model_dump(mode="json")`, and `str` of a value that is no text
  pub dump : MeetingMinutesDraft → Fields
  pub repr : Value → String

pub record MeetingWorld : Type 0 where
  pub minutes : Minutes
  pub tasks : Repository

abbrev pub on_minutes : {A : Type 0} → Exec Minutes A → Exec MeetingWorld A
on_minutes m s = let (r, minutes) = m s.minutes in (r, record s { minutes = minutes })

abbrev pub on_tasks : {A : Type 0} → Exec Repository A → Exec MeetingWorld A
on_tasks m s = let (r, tasks) = m s.tasks in (r, record s { tasks = tasks })

-- `meeting.get("meeting_date") or meeting.get("start_time")`
abbrev pub truthy_field : String → Fields → Option Value
truthy_field key fields = elim (get_field key fields) [
  | none ↦ none
  | some v ↦ if is_truthy v then some v else none
]

abbrev pub first_some : Option Value → Option Value → Option Value
first_some (some v) other = some v
first_some none other = other

abbrev pub raw_date : Fields → Option Value
raw_date meeting =
    first_some (truthy_field "meeting_date" meeting) (truthy_field "start_time" meeting)

module _ (d : MeetingDependencies) where
  abbrev pub found_title : Option Value → String
  found_title none = "会议纪要"
  found_title (some v) = to_str d.repr v

  abbrev pub found_date : Option Value → Option String
  found_date none = none
  found_date (some v) = some (take_chars 10 (to_str d.repr v))

  abbrev pub title_from : Option String → Fields → String
  title_from (some title) meeting = title
  title_from none meeting = found_title (get_field "title" meeting)

  abbrev pub date_from : Option String → Fields → Option String
  date_from (some date) meeting = some date
  date_from none meeting = found_date (raw_date meeting)

  abbrev pub looked_up : MeetingTaskSpec → Result Fields → Result (String × Option String)
  looked_up spec (ok meeting) =
      ok (title_from spec.title meeting, date_from spec.meeting_date meeting)
  looked_up spec (err e) = err e

  -- The title and the date of the minutes: the connector is asked for what the task lacks.
  abbrev pub heading :
      MeetingTaskSpec
      → Option String
      → Option String
      → RequestContext
      → Result (String × Option String)
  heading spec (some title) (some date) context = ok (title, some date)
  heading spec _ _ context = looked_up spec (d.get_meeting spec.meeting_id context)

module _ (d : MeetingDependencies) (uuid : String) (now : ℕ) (context : RequestContext) where
  unfoldable pub transcribe_node : MeetingTaskSpec → Exec MeetingWorld Progress
  transcribe_node spec = do
    ref ← on_tasks (
        create uuid now "meeting_transcription"
          (some (field "meeting_id" (str spec.meeting_id) end)) (pos 3) context)
    pure (
        finished (record {
          status = "queued";
          warnings = [];
          result = field "background_task_id" (str uuid) (field "status" (str "queued") end);
        }))

module _ (d : MeetingDependencies) (context : RequestContext) where
  unfoldable pub generate_node : MeetingTaskSpec → Exec MeetingWorld Progress
  generate_node spec = do
    found ← lift (heading d spec spec.title spec.meeting_date context)
    result ← on_minutes (generate d.service spec.meeting_id found.0 spec.segments context found.1)
    pure (completed (d.dump result))

  abbrev pub review_approved : MeetingTaskSpec → Exec MeetingWorld Progress
  review_approved spec = do
    result ←
        on_minutes (review_minutes d.service spec.meeting_id spec.approved spec.comment context)
    pure (completed (d.dump result))

  unfoldable pub review_minutes_node : MeetingTaskSpec → Option Value → Exec MeetingWorld Progress
  review_minutes_node spec resume = elim resume [
    | none ↦ pure (
        waiting (
          approval_request "review_meeting_minutes"
            (field "meeting_id" (str spec.meeting_id) (field "approved" (bool spec.approved) end))))
    | some decision ↦
        if decision_approved decision
        then review_approved spec
        else pure (stopped "blocked" "用户拒绝执行会议纪要审核。")
  ]

  abbrev pub send_approved : MeetingTaskSpec → Exec MeetingWorld Progress
  send_approved spec = do
    result ← on_minutes (send d.service spec.meeting_id context)
    pure (completed (dump_status result))

  unfoldable pub send_node : MeetingTaskSpec → Option Value → Exec MeetingWorld Progress
  send_node spec resume = elim resume [
    | none ↦ pure (
        waiting
          (approval_request "send_meeting_minutes" (field "meeting_id" (str spec.meeting_id) end)))
    | some decision ↦
        if decision_approved decision
        then send_approved spec
        else pure (stopped "blocked" "用户拒绝发送会议纪要。")
  ]

-- The edges from "parse_meeting_task" on.
unfoldable pub meeting_graph :
    MeetingDependencies
    → String
    → ℕ
    → MeetingTaskSpec
    → Option Value
    → RequestContext
    → Exec MeetingWorld Progress
unfolding transcribe_node generate_node review_minutes_node send_node
meeting_graph d uuid now spec resume context = elim spec.operation [
  | transcribe_op ↦ transcribe_node d uuid now context spec
  | generate_op ↦ generate_node d context spec
  | review_op ↦ review_minutes_node d context spec resume
  | send_op ↦ send_node d context spec resume
]
