-- ===== src/Worker/Polling.antt =====
-- MeetingTranscriptionHandler (app/services/task_worker.py). The meeting connector and the
-- transcription service are parameters; `between n` is what other callers do to the repository
-- while the handler waits for the n-th time.
pub mod Rounds
use office_mult_agent.Base.{
  ℕ, zero, suc, ◌+◌, String, Bool, true, false, not, Option, none, some, ◌==◌, string_eq, or_else,
  if◌then◌else◌, Error, key_error, value_error, type_error, runtime_error, task_cancelled,
  timeout_error, Result, ok, err, Exec, pure, raise, lift, modify, ◌>>=◌, ◌>>◌,
}
use office_mult_agent.Value.{
  Value, str, arr, Items, nil, Fields, end, field, get_field, as_list, to_str,
}
use office_mult_agent.Context.{RequestContext}
use office_mult_agent.Tasks.Object.{BackgroundTask}
use office_mult_agent.Tasks.Repository.{Repository, read, get}

-- What the handler calls and this repository does not implement.
pub record Services : Type 0 where
  -- `str` of a value that is no text, and `str.strip`
  pub repr : Value → String
  pub strip : String → String
  -- `list` of a value that is no list
  pub list_of : Value → Result Items
  pub get_recording : String → Result Fields
  pub submit_transcription : String → Result Fields
  -- the answer to the n-th poll
  pub get_status : String → ℕ → Result Fields
  pub get_result : String → Result Fields
  -- what other callers do before the n-th look at the task
  pub between : ℕ → Repository → Repository

-- `str(d.get(key, default))`
abbrev pub text_of : Services → String → String → Fields → String
text_of e key default d = to_str e.repr (or_else (get_field key d) (str default))

-- `d[key]`
abbrev pub subscript : String → Fields → Exec Repository Value
subscript key d s = elim (get_field key d) [ none ↦ (err (key_error key), s) | some v ↦ (ok v, s) ]

-- `list(d.get("segments", []))`
abbrev pub segments_of : Services → Fields → Result Items
segments_of e d =
    let found = or_else (get_field "segments" d) (arr nil) in
    elim (as_list found) [ none ↦ e.list_of found | some items ↦ ok items ]

module _ (e : Services) where
  -- The look at the persisted cancellation request.
  unfoldable pub check_cancel : ℕ → String → RequestContext → Exec Repository (Unit {0})
  check_cancel n task_id context = do
    modify (e.between n)
    ref ← get task_id context
    current ← read ref
    if current.cancel_requested then raise task_cancelled else pure tt

  unfoldable pub collect_result : String → Exec Repository Fields
  collect_result asr_task_id = do
    result ← lift (e.get_result asr_task_id)
    segments ← lift (segments_of e result)
    pure (field "asr_task_id" (str asr_task_id) (field "segments" (arr segments) end))

  -- The polling loop; `polls` is how many rounds start before asyncio.timeout cancels the handler.
  unfoldable pub poll : ℕ → ℕ → String → String → RequestContext → Exec Repository Fields
  poll zero n asr_task_id task_id context = raise timeout_error
  poll (suc polls) n asr_task_id task_id context =
      let again = poll polls (n + 1) asr_task_id task_id context in
      do
        check_cancel n task_id context
        status ← lift (e.get_status asr_task_id n)
        let state = text_of e "status" "running" status
        if state == "completed"
            then collect_result asr_task_id
            else if state == "failed"
            then raise (runtime_error "ASR_FAILED")
            else again

  unfoldable pub transcribe : ℕ → ℕ → RequestContext → Exec Repository Fields
  transcribe polls ref context = do
    task ← read ref
    let meeting_id = e.strip (text_of e "meeting_id" "" (or_else task.payload end))
    if meeting_id == "" then raise (value_error "meeting_id is required") else do
      check_cancel 0 task.task_id context
      recording ← lift (e.get_recording meeting_id)
      recording_ref ← subscript "recording_ref" recording
      submitted ← lift (e.submit_transcription (to_str e.repr recording_ref))
      asr_task_id ← subscript "task_id" submitted
      poll polls 1 (to_str e.repr asr_task_id) task.task_id context
