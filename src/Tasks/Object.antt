-- ===== src/Tasks/Object.antt =====
-- The BackgroundTask object of app/services/runtime_state.py, and what each method writes to it.
use office_mult_agent.Base.{
  ℕ, ◌+◌, ◌*◌, max, String, Bool, true, false, not, ◌&&◌, ◌||◌, Option, none, some, leb, ltb,
  or_else, if◌then◌else◌,
}
use office_mult_agent.Base.Int.{ℤ, max_zero}
use office_mult_agent.Value.{Fields}

pub data TaskStatus : Type 0 where
  queued running retry_wait succeeded failed cancelled : TaskStatus

pub record BackgroundTask : Type 0 where
  pub task_id : String
  pub tenant_id : String
  pub kind : String
  pub operator_id : String
  pub status : TaskStatus
  pub progress : ℕ
  pub error_code : Option String
  pub payload : Option Fields
  pub result : Option Fields
  pub attempts : ℕ
  pub max_attempts : ℕ
  pub available_at : Option ℕ
  pub locked_at : Option ℕ
  pub locked_by : Option String
  pub cancel_requested : Bool
  pub finished_at : Option ℕ

-- `status in {"queued", "retry_wait"}`
abbrev pub is_waiting : TaskStatus → Bool
is_waiting queued = true
is_waiting retry_wait = true
is_waiting _ = false

-- `status == "running"`
abbrev pub is_running : TaskStatus → Bool
is_running running = true
is_running _ = false

-- `timedelta(seconds=n)`
abbrev pub seconds : ℕ → ℕ
seconds n = n * 1000000

-- `locked_at is not None and locked_at <= now - lease`, with the lease on the other side
abbrev pub expired : Option ℕ → ℕ → ℕ → Bool
expired none now lease = false
expired (some locked) now lease = leb (locked + lease) now

unfoldable pub stale_running : ℕ → ℕ → BackgroundTask → Bool
stale_running now lease task = is_running task.status && expired task.locked_at now (seconds lease)

-- The guard of the loop's first `continue`, negated.
unfoldable pub is_due : ℕ → ℕ → BackgroundTask → Bool
unfolding stale_running
is_due now lease task =
    stale_running now lease task
    || (is_waiting task.status && leb (or_else task.available_at now) now)

-- One round of the loop in claim_next_task: whether it returns the task, and the object after it.
unfoldable pub claim_one : String → ℕ → ℕ → BackgroundTask → Bool × BackgroundTask
unfolding is_due
claim_one worker_id now lease task =
    if not (is_due now lease task)
    then (false, task)
    else if task.cancel_requested
    then (false, record task { status = cancelled; finished_at = some now })
    else if stale_running now lease task && leb task.max_attempts task.attempts
    then (
      false,
      record task {
        status = failed;
        error_code = some "TASK_LEASE_EXPIRED";
        finished_at = some now;
      },
    )
    else (
      true,
      record task {
        status = running;
        attempts = task.attempts + 1;
        progress = max task.progress 5;
        locked_by = some worker_id;
        locked_at = some now;
      },
    )

-- request_task_cancel, on the object
unfoldable pub request_cancel : ℕ → BackgroundTask → BackgroundTask
request_cancel now task =
    if is_waiting task.status
    then record task { cancel_requested = true; status = cancelled; finished_at = some now }
    else record task { cancel_requested = true }

-- BackgroundTaskService.succeed, on the object
unfoldable pub mark_succeeded : Fields → ℕ → BackgroundTask → BackgroundTask
mark_succeeded result now task = record task {
  status = succeeded;
  progress = 100;
  result = some result;
  error_code = none;
  locked_at = none;
  locked_by = none;
  finished_at = some now;
}

-- BackgroundTaskService.fail, on the object
unfoldable pub mark_failed : String → ℤ → ℕ → BackgroundTask → BackgroundTask
mark_failed error_code retry_delay_seconds now task =
    if task.cancel_requested
    then record task {
      error_code = some error_code;
      locked_at = none;
      locked_by = none;
      status = cancelled;
      finished_at = some now;
    }
    else if ltb task.attempts task.max_attempts
    then record task {
      error_code = some error_code;
      locked_at = none;
      locked_by = none;
      status = retry_wait;
      available_at = some (now + seconds (max_zero retry_delay_seconds));
    }
    else record task {
      error_code = some error_code;
      locked_at = none;
      locked_by = none;
      status = failed;
      finished_at = some now;
    }

-- BackgroundTaskService.update, on the object
unfoldable pub mark_updated : TaskStatus → ℕ → Option String → BackgroundTask → BackgroundTask
mark_updated status progress error_code task = record task {
  status = status;
  progress = progress;
  error_code = error_code;
}

-- `task.attempts = task.max_attempts` and `task.cancel_requested = True` of the worker
unfoldable pub exhaust : BackgroundTask → BackgroundTask
exhaust task = record task { attempts = task.max_attempts }

unfoldable pub flag_cancel : BackgroundTask → BackgroundTask
flag_cancel task = record task { cancel_requested = true }
