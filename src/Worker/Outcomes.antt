-- ===== src/Worker/Outcomes.antt =====
-- How run_once (app/services/task_worker.py) leaves the task it has claimed.
use office_mult_agent.Base.{
  ℕ, String, Bool, true, false, none, some, ◌≡◌, refl, arith, ltb, get_elem?, inl, inr, Bool-cases,
  get_elem?-set_self, string_eq, pair_eq, if◌then◌else◌, List, Error, key_error, value_error,
  type_error, sensitive_data_error, unsafe_file_error, unicode_decode_error, invalid_sso_token,
  task_cancelled, timeout_error, Result, ok, err,
}
use office_mult_agent.Base.Dict.{lookup}
use office_mult_agent.Base.Int.{ℤ}
use office_mult_agent.Value.{Fields}
use office_mult_agent.Context.{RequestContext}
use office_mult_agent.Tasks.Object.{
  BackgroundTask, TaskStatus, retry_wait, succeeded, failed, cancelled, exhaust, flag_cancel,
  mark_failed, mark_succeeded,
}
use office_mult_agent.Tasks.Repository.{Repository, key_of, succeed, fail, get, write}
use office_mult_agent.Worker.{
  AsyncTaskWorker, TaskHandler, task_context, attempt, settle_error, try_except, execute,
}

-- Errors that no retry can mend.
abbrev pub is_final : Error → Bool
is_final (key_error m) = true
is_final (type_error m) = true
is_final (value_error m) = true
is_final (sensitive_data_error m) = true
is_final (unsafe_file_error m) = true
is_final (unicode_decode_error m) = true
is_final (invalid_sso_token m) = true
is_final _ = false

abbrev pub is_cancel : Error → Bool
is_cancel task_cancelled = true
is_cancel _ = false

-- The status in which the worker leaves a task, by how the handler ended and by the task as it then
-- stands.
abbrev pub final_status : Result Fields → BackgroundTask → TaskStatus
final_status (ok result) task = if task.cancel_requested then cancelled else succeeded
final_status (err e) task =
    if is_cancel e
    then cancelled
    else if task.cancel_requested
    then cancelled
    else if is_final e
    then failed
    else if ltb task.attempts task.max_attempts
    then retry_wait
    else failed

pub record IsSettled (ref : ℕ) (status : TaskStatus) (r : Result ℕ) (heap : List BackgroundTask)
    : Type 0 where
  pub after : BackgroundTask
  pub found : get_elem? heap ref ≡ some after
  pub status_is : after.status ≡ status
  pub unlocked_by : after.locked_by ≡ none
  pub unlocked_at : after.locked_at ≡ none
  pub returned : r ≡ ok ref

-- The method `fail`, on an object that the dict holds under its key.
module _ (ref : ℕ) (s : Repository) {task : BackgroundTask} (e : get_elem? s.heap ref ≡ some task)
    (registered : lookup (key_of task) s.tasks ≡ some ref) where
  fail-IsSettled :
      (code : String) (delay : ℤ) (now : ℕ) (status : TaskStatus)
      → status ≡ (
          if task.cancel_requested
          then cancelled
          else if ltb task.attempts task.max_attempts
          then retry_wait
          else failed)
      → IsSettled ref status (fail ref code delay now s).0 (fail ref code delay now s).1.heap
  unfolding fail mark_failed
  fail-IsSettled code delay now status is = record {
    after = mark_failed code delay now task;
    found = ground (arith, get_elem?-set_self s.heap ref (mark_failed code delay now task) e);
    status_is = ground arith;
    unlocked_by = ground arith;
    unlocked_at = ground arith;
    returned = ground (arith, get_elem?-set_self s.heap ref (mark_failed code delay now task) e);
  }

  succeed-IsSettled :
      (result : Fields) (now : ℕ)
      → IsSettled ref succeeded (succeed ref result now s).0 (succeed ref result now s).1.heap
  unfolding succeed mark_succeeded
  succeed-IsSettled result now = record {
    after = mark_succeeded result now task;
    found = ground (arith, get_elem?-set_self s.heap ref (mark_succeeded result now task) e);
    status_is = refl;
    unlocked_by = refl;
    unlocked_at = refl;
    returned = ground (arith, get_elem?-set_self s.heap ref (mark_succeeded result now task) e);
  }

  write_self :
      (g : BackgroundTask → BackgroundTask) → get_elem? (write ref g s).heap ref ≡ some (g task)
  write_self g = ground (arith, get_elem?-set_self s.heap ref (g task) e)

  write_tasks : (g : BackgroundTask → BackgroundTask) → (write ref g s).tasks ≡ s.tasks
  write_tasks g = ground arith

abbrev pub Settles : (ref : ℕ) (status : TaskStatus) → Result ℕ × Repository → Type 0
Settles ref status (r, s) = IsSettled ref status r s.heap

module _ (ref now : ℕ) (s : Repository) {task : BackgroundTask}
    (e : get_elem? s.heap ref ≡ some task)
    (registered : lookup (key_of task) s.tasks ≡ some ref) where
  pub exhausted_fail :
      (code : String) (delay : ℤ)
      → Settles ref
          (if task.cancel_requested then cancelled else failed)
          (fail ref code delay now (write ref exhaust s))
  unfolding exhaust
  exhausted_fail code delay =
      fail-IsSettled ref (write ref exhaust s) {task = exhaust task}
        (write_self ref s e registered exhaust)
        (rw (write_tasks ref s e registered exhaust) registered) code delay now
        (if task.cancel_requested then cancelled else failed) (ground arith)

  cancelled_fail :
      (code : String) (delay : ℤ)
      → Settles ref cancelled (fail ref code delay now (write ref flag_cancel s))
  unfolding flag_cancel
  cancelled_fail code delay =
      fail-IsSettled ref (write ref flag_cancel s) {task = flag_cancel task}
        (write_self ref s e registered flag_cancel)
        (rw (write_tasks ref s e registered flag_cancel) registered) code delay now cancelled refl

  retried_fail :
      (code : String) (delay : ℤ)
      → Settles ref
          (if task.cancel_requested
            then cancelled
            else if ltb task.attempts task.max_attempts
            then retry_wait
            else failed)
          (fail ref code delay now s)
  retried_fail code delay = fail-IsSettled ref s e registered code delay now _ refl

  settle_error-Settles :
      (worker : AsyncTaskWorker) (x : Error)
      → Settles ref (final_status (err x) task) (settle_error worker ref now x s)
  unfolding settle_error
  settle_error-Settles worker task_cancelled = cancelled_fail _ _
  settle_error-Settles worker timeout_error = retried_fail _ _
  settle_error-Settles worker (key_error m) = exhausted_fail _ _
  settle_error-Settles worker (type_error m) = exhausted_fail _ _
  settle_error-Settles worker (value_error m) = exhausted_fail _ _
  settle_error-Settles worker (sensitive_data_error m) = exhausted_fail _ _
  settle_error-Settles worker (unsafe_file_error m) = exhausted_fail _ _
  settle_error-Settles worker (unicode_decode_error m) = exhausted_fail _ _
  settle_error-Settles worker (invalid_sso_token m) = exhausted_fail _ _
  settle_error-Settles worker _ = retried_fail _ _

module _ (handler : TaskHandler) (ref now : ℕ) (task_id : String) (context : RequestContext)
    (s s' : Repository) where
  attempt_cancelled :
      {result : Fields} {current : BackgroundTask}
      → handler ref context s ≡ (ok result, s')
      → lookup (context.tenant_id, task_id) s'.tasks ≡ some ref
      → get_elem? s'.heap ref ≡ some current
      → current.cancel_requested ≡ true
      → attempt handler ref task_id context now s ≡ (err task_cancelled, write ref flag_cancel s')
  unfolding attempt get
  attempt_cancelled h found e stop = ground arith

  attempt_done :
      {result : Fields} {current : BackgroundTask}
      → handler ref context s ≡ (ok result, s')
      → lookup (context.tenant_id, task_id) s'.tasks ≡ some ref
      → get_elem? s'.heap ref ≡ some current
      → current.cancel_requested ≡ false
      → attempt handler ref task_id context now s ≡ succeed ref result now s'
  unfolding attempt get
  attempt_done h found e live = ground arith

  attempt_err :
      {x : Error}
      → handler ref context s ≡ (err x, s')
      → attempt handler ref task_id context now s ≡ (err x, s')
  unfolding attempt
  attempt_err h = ground arith

module _ (worker : AsyncTaskWorker) (now ref : ℕ) (task : BackgroundTask) (handler : TaskHandler)
    (s s' : Repository) {current : BackgroundTask} (e : get_elem? s'.heap ref ≡ some current)
    (named : key_of current ≡ key_of task)
    (registered : lookup (key_of current) s'.tasks ≡ some ref) where
  found : lookup (key_of task) s'.tasks ≡ some ref
  found = rw named at registered

  -- execute, in terms of how the handler ended
  execute_err :
      {x : Error}
      → handler ref (task_context task) s ≡ (err x, s')
      → execute worker now ref task (some handler) s ≡ settle_error worker ref now x s'
  unfolding execute try_except
  execute_err h =
      ground (arith, attempt_err handler ref now task.task_id (task_context task) s s' h)

  execute_done :
      {result : Fields}
      → handler ref (task_context task) s ≡ (ok result, s')
      → current.cancel_requested ≡ false
      → execute worker now ref task (some handler) s ≡ succeed ref result now s'
  unfolding execute try_except
  execute_done {result} h live =
      let done = succeed-IsSettled ref s' e registered result now in
      ground (
        arith,
        attempt_done handler ref now task.task_id (task_context task) s s' h found e live,
        done.returned,
      )

  execute_cancelled :
      {result : Fields}
      → handler ref (task_context task) s ≡ (ok result, s')
      → current.cancel_requested ≡ true
      → execute worker now ref task (some handler) s
        ≡ settle_error worker ref now task_cancelled (write ref flag_cancel s')
  unfolding execute try_except
  execute_cancelled h stop = ground (
    arith,
    attempt_cancelled handler ref now task.task_id (task_context task) s s' h found e stop,
  )

  flagged_again :
      Settles ref cancelled (settle_error worker ref now task_cancelled (write ref flag_cancel s'))
  unfolding flag_cancel
  flagged_again =
      settle_error-Settles ref now (write ref flag_cancel s') {task = flag_cancel current}
        (write_self ref s' e registered flag_cancel)
        (rw (write_tasks ref s' e registered flag_cancel) registered) worker task_cancelled

  -- Whatever the handler returns or raises, the worker leaves the task settled, in the status that
  -- the outcome, the cancellation flag and the attempts left determine, and with no lease.
  pub execute-Settles :
      (r : Result Fields)
      → handler ref (task_context task) s ≡ (r, s')
      → Settles ref (final_status r current) (execute worker now ref task (some handler) s)
  execute-Settles (err x) h =
      rw (execute_err h) (settle_error-Settles ref now s' e registered worker x)
  execute-Settles (ok result) h = elim (Bool-cases current.cancel_requested) [
    | inl stop ↦ rw (stop, execute_cancelled h stop) flagged_again
    | inr live ↦ rw (live, execute_done h live) (succeed-IsSettled ref s' e registered result now)
  ]
