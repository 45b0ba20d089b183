-- ===== src/Api/Tasks.antt =====
-- The routes of background tasks (app/api/routes.py) over BackgroundTaskService. BackgroundTaskResponse
-- (app/schemas/workflows.py) validates its fields: a task that breaks a bound is answered with 500.
use office_mult_agent.Base.{
  ℕ, String, Bool, ◌&&◌, Option, none, some, leb, get_elem?, if◌then◌else◌, Error, key_error,
  permission_error, Result, ok, err, ◌>>◌,
}
use office_mult_agent.Base.Int.{pos}
use office_mult_agent.Value.{Fields, field, str, end}
use office_mult_agent.Context.{RequestContext, require}
use office_mult_agent.Tasks.Object.{BackgroundTask, TaskStatus}
use office_mult_agent.Tasks.Repository.{Repository, create, get, cancel}
use office_mult_agent.Api.{Http, answered, refused}

pub record BackgroundTaskResponse : Type 0 where
  pub task_id : String
  pub kind : String
  pub status : TaskStatus
  pub progress : ℕ
  pub attempts : ℕ
  pub max_attempts : ℕ
  pub cancel_requested : Bool
  pub result : Option Fields
  pub error_code : Option String

abbrev pub response_of : BackgroundTask → BackgroundTaskResponse
response_of task = record {
  task_id = task.task_id;
  kind = task.kind;
  status = task.status;
  progress = task.progress;
  attempts = task.attempts;
  max_attempts = task.max_attempts;
  cancel_requested = task.cancel_requested;
  result = task.result;
  error_code = task.error_code;
}

-- `Field(ge=0, le=100)` and `Field(ge=1)`
abbrev pub is_valid_response : BackgroundTaskResponse → Bool
is_valid_response r = leb r.progress 100 && leb 1 r.max_attempts

-- `_task_response`: the ValidationError is no exception that a route handles.
unfoldable pub task_response : BackgroundTask → Http BackgroundTaskResponse
task_response task =
    let r = response_of task in if is_valid_response r then answered r else refused 500

-- The answer to a call of the service that gives a task.
unfoldable pub answer_task :
    (Error → ℕ) → Result ℕ × Repository → Http BackgroundTaskResponse × Repository
unfolding task_response
answer_task status (err e, s) = (refused (status e), s)
answer_task status (ok ref, s) = elim (get_elem? s.heap ref) [
  | none ↦ (refused 500, s)
  | some task ↦ (task_response task, s)
]

abbrev pub transcription_status : Error → ℕ
transcription_status (permission_error m) = 403
transcription_status _ = 500

unfoldable pub start_meeting_transcription :
    String → ℕ → String → RequestContext → Repository → Http BackgroundTaskResponse × Repository
unfolding answer_task
start_meeting_transcription uuid now meeting_id context s = answer_task transcription_status (
    (require context "meeting:transcribe"
        >> create uuid now "meeting_transcription" (some (field "meeting_id" (str meeting_id) end))
            (pos 3) context)
      s)

abbrev pub lookup_status : Error → ℕ
lookup_status (key_error m) = 404
lookup_status _ = 500

unfoldable pub get_background_task :
    String → RequestContext → Repository → Http BackgroundTaskResponse × Repository
unfolding answer_task
get_background_task task_id context s = answer_task lookup_status (get task_id context s)

abbrev pub guarded_status : Error → ℕ
guarded_status (key_error m) = 404
guarded_status (permission_error m) = 403
guarded_status _ = 500

unfoldable pub cancel_background_task :
    ℕ → String → RequestContext → Repository → Http BackgroundTaskResponse × Repository
unfolding answer_task
cancel_background_task now task_id context s =
    answer_task guarded_status ((require context "task:cancel" >> cancel now task_id context) s)
