-- ===== src/Collector/Sources.antt =====
-- How app/services/work_events.py turns the records of GitLab, of the task system and of the meeting
-- minutes into work events.
use Prim.Native.String.{◌++◌ as join_text}
use office_mult_agent.Base.{
  ℕ, zero, suc, String, Bool, Option, none, some, List, [], ◌∷◌, map, filter, take, not, length,
  ◌==◌, string_eq, if◌then◌else◌,
}
use office_mult_agent.Base.Text.{is_empty, join}
use office_mult_agent.Value.{Value, Fields, str, null, get_field, to_str}
use office_mult_agent.Events.{
  WorkEvent, WorkStatus, EventType, completed, in_progress, blocked, planned, unknown, code_change,
  task_progress, SourceType, gitlab, task, work_event,
}
use office_mult_agent.SensitiveData.{Patterns, findings, is_nil}
use office_mult_agent.Meetings.Draft.{MeetingMinutesDraft}

-- `str` of a value that is no text, and of a number.
pub record Printing : Type 0 where
  pub repr : Value → String
  pub decimal : ℕ → String

-- `s or None`
abbrev pub non_empty : String → Option String
non_empty s = if is_empty s then none else some s

abbrev pub status_alias : String → String
status_alias status =
    if status == "done"
    then "completed"
    else if status == "closed"
    then "completed"
    else if status == "doing"
    then "in_progress"
    else if status == "open"
    then "planned"
    else status

-- The statuses by their names; any other name is "unknown".
abbrev pub status_named : String → WorkStatus
status_named name =
    if name == "completed"
    then completed
    else if name == "in_progress"
    then in_progress
    else if name == "blocked"
    then blocked
    else if name == "planned"
    then planned
    else unknown

module _ (p : Printing) where
  unfoldable pub work_status : Value → WorkStatus
  work_status value = status_named (status_alias (to_str p.repr value))

  -- `str(item.get(key, index))`
  abbrev pub text_or_index : String → Fields → ℕ → String
  text_or_index key record_fields index = elim (get_field key record_fields) [
    | none ↦ p.decimal index
    | some v ↦ to_str p.repr v
  ]

  -- `str(item.get(key, default))`
  abbrev pub text_or : String → Fields → String → String
  text_or key record_fields default = elim (get_field key record_fields) [
    | none ↦ default
    | some v ↦ to_str p.repr v
  ]

  -- `str(item["project_id"]) if item.get("project_id") is not None else None`
  abbrev pub present : Option Value → Option String
  present none = none
  present (some null) = none
  present (some v) = some (to_str p.repr v)

  abbrev pub status_of : Fields → WorkStatus
  status_of record_fields = elim (get_field "status" record_fields) [
    | none ↦ work_status (str "unknown")
    | some v ↦ work_status v
  ]

  unfoldable pub gitlab_event : ℕ → Fields → WorkEvent
  gitlab_event index activity =
      let id = text_or_index "id" activity index in
      record (work_event (join_text "gitlab:" id) (text_or "title" activity "GitLab 活动")
        completed) {
          event_type = code_change;
          project_id = present (get_field "project_id" activity);
          source_type = gitlab;
          source_id = some id;
          evidence_url = some (join_text "connector://gitlab/" id);
        }

  unfoldable pub task_event : ℕ → Fields → WorkEvent
  unfolding work_status
  task_event index record_fields =
      let id = text_or_index "task_id" record_fields index in
      record (work_event (join_text "task:" id) (text_or "title" record_fields "任务活动")
        (status_of record_fields)) {
          event_type = task_progress;
          project_id = present (get_field "project_id" record_fields);
          source_type = task;
          source_id = some id;
          evidence_url = some (join_text "connector://task/" id);
        }

-- `[f(index, item) for index, item in enumerate(items)]`
abbrev pub map_from : (ℕ → Fields → WorkEvent) → ℕ → List Fields → List WorkEvent
map_from f index [] = []
map_from f index (x ∷ xs) = f index x ∷ map_from f (suc index) xs

-- A MeetingMinutesDraft as an event.
unfoldable pub meeting_event : MeetingMinutesDraft → WorkEvent
meeting_event minutes =
    let decisions = join "；" (map (λ d. d.content) (take 3 minutes.decisions)) in
    let result = if is_empty decisions then minutes.summary else decisions in
    record (work_event (join_text "meeting:" minutes.meeting_id) (join_text "会议协作：" minutes.title)
      completed) {
        description = non_empty minutes.summary;
        result = non_empty result;
        event_type = EventType.meeting;
        event_time = minutes.generated_at;
        source_type = SourceType.meeting;
        source_id = some minutes.meeting_id;
        evidence_url = some (join_text "connector://meeting-minutes/" minutes.meeting_id);
        participants = minutes.participants;
      }

abbrev pub minutes_text : MeetingMinutesDraft → String
minutes_text minutes = join_text minutes.title (join_text "\n" minutes.summary)

abbrev pub is_clean : Patterns → String → Bool
is_clean patterns text = is_nil (findings patterns text)

-- `[f"已忽略 {count} …"] if count else []`
abbrev pub count_warning : (ℕ → String) → ℕ → String → List String
count_warning decimal zero tail = []
count_warning decimal (suc n) tail = join_text "已忽略 " (join_text (decimal (suc n)) tail) ∷ []

-- The events of _collect_meetings from the listed minutes, and its warnings.
unfoldable pub meeting_events :
    (ℕ → String) → Patterns → List MeetingMinutesDraft → List WorkEvent × List String
unfolding meeting_event
meeting_events decimal patterns minutes = (
  map meeting_event (filter (λ m. is_clean patterns (minutes_text m)) minutes),
  count_warning decimal (length (filter (λ m. not (is_clean patterns (minutes_text m))) minutes))
      " 条包含敏感信息的会议纪要。",
)
