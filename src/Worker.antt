-- ===== src/Worker.antt =====
-- The background worker: app/services/task_worker.py, AsyncTaskWorker, over the in-memory
-- repository. A handler is an action on the repository, since other callers use the repository
-- while the handler waits; asyncio.timeout makes it end in TimeoutError.
pub mod Polling
pub mod Outcomes
pub mod Runs
use Prim.Native.String.{◌++◌}
use office_mult_agent.Base.{
  ℕ, String, Bool, true, false, Option, none, some, ◌==◌, string_eq, if◌then◌else◌, Error,
  key_error, value_error, type_error, sensitive_data_error, unsafe_file_error, unicode_decode_error,
  invalid_sso_token, task_cancelled, timeout_error, Result, ok, err, Exec, pure, raise, ◌>>=◌, ◌>>◌,
}
use office_mult_agent.Base.Int.{ℤ, pos}
use office_mult_agent.Base.Dict.{Dict, lookup}
use office_mult_agent.Value.{Fields}
use office_mult_agent.Context.{RequestContext, request_context}
use office_mult_agent.Tasks.Object.{BackgroundTask, exhaust, flag_cancel}
use office_mult_agent.Tasks.Repository.{Repository, read, assign, get, claim, succeed, fail}

abbrev pub TaskHandler : Type 0
TaskHandler = ℕ → RequestContext → Exec Repository Fields

pub record AsyncTaskWorker : Type 0 where
  pub worker_id : String
  pub handlers : Dict String TaskHandler
  pub lease_timeout_seconds : ℕ
  pub retry_delay_seconds : ℤ

-- The context that run_once gives to the handler.
abbrev pub task_context : BackgroundTask → RequestContext
task_context task =
    request_context ("task:" ++ task.task_id) task.tenant_id
      (if task.operator_id == "" then "system-worker" else task.operator_id)

-- The body of the `try` statement.
unfoldable pub attempt : TaskHandler → ℕ → String → RequestContext → ℕ → Exec Repository ℕ
attempt handler ref task_id context now = do
  result ← handler ref context
  latest ← get task_id context
  current ← read latest
  if current.cancel_requested
      then (assign ref flag_cancel >> raise task_cancelled)
      else succeed ref result now

-- The `except` clauses, in their order.
unfoldable pub settle_error : AsyncTaskWorker → ℕ → ℕ → Error → Exec Repository ℕ
settle_error worker ref now task_cancelled =
    assign ref flag_cancel >> fail ref "TASK_CANCELLED" (pos 0) now
settle_error worker ref now timeout_error = fail ref "TASK_TIMEOUT" worker.retry_delay_seconds now
settle_error worker ref now (key_error m) =
    assign ref exhaust >> fail ref "INVALID_TASK_PAYLOAD" (pos 0) now
settle_error worker ref now (type_error m) =
    assign ref exhaust >> fail ref "INVALID_TASK_PAYLOAD" (pos 0) now
settle_error worker ref now (value_error m) =
    assign ref exhaust >> fail ref "INVALID_TASK_PAYLOAD" (pos 0) now
settle_error worker ref now (sensitive_data_error m) =
    assign ref exhaust >> fail ref "INVALID_TASK_PAYLOAD" (pos 0) now
settle_error worker ref now (unsafe_file_error m) =
    assign ref exhaust >> fail ref "INVALID_TASK_PAYLOAD" (pos 0) now
settle_error worker ref now (unicode_decode_error m) =
    assign ref exhaust >> fail ref "INVALID_TASK_PAYLOAD" (pos 0) now
settle_error worker ref now (invalid_sso_token m) =
    assign ref exhaust >> fail ref "INVALID_TASK_PAYLOAD" (pos 0) now
settle_error worker ref now _ = fail ref "TASK_EXECUTION_FAILED" worker.retry_delay_seconds now

unfoldable pub try_except :
    {A : Type 0} → Exec Repository A → (Error → Exec Repository A) → Exec Repository A
try_except m handle s = let (r, s') = m s in elim r [ ok a ↦ (ok a, s') | err e ↦ handle e s' ]

-- What run_once does with a claimed task, by the handler that its kind names.
unfoldable pub execute :
    AsyncTaskWorker → ℕ → ℕ → BackgroundTask → Option TaskHandler → Exec Repository ℕ
execute worker now ref task none =
    assign ref exhaust >> fail ref "TASK_HANDLER_NOT_FOUND" (pos 0) now
execute worker now ref task (some handler) =
    try_except (attempt handler ref task.task_id (task_context task) now)
      (settle_error worker ref now)

-- `now` at the claim, and at the end of the handler
unfoldable pub run_once : AsyncTaskWorker → ℕ → ℕ → Exec Repository Bool
run_once worker claimed_at now = do
  claimed ← claim worker.worker_id claimed_at worker.lease_timeout_seconds
  elim claimed [
    | none ↦ pure false
    | some ref ↦ do
      task ← read ref
      execute worker now ref task (lookup task.kind worker.handlers)
      pure true
  ]
