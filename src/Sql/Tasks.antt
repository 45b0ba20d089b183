-- ===== src/Sql/Tasks.antt =====
-- The tasks of SqlAlchemyRuntimeStateRepository (app/repositories/runtime.py) over the table
-- background_tasks. A method returns a copy of a row, made by `_to_task`.
pub mod Claims
pub mod Draining
pub mod Copies
pub mod Bounds
use office_mult_agent.Base.{
  ℕ, ◌+◌, max, String, Bool, true, false, not, ◌&&◌, ◌||◌, Option, none, some, List, [], ◌∷◌, ◌++◌,
  ◌==◌, string_eq, nat_eq, filter, leb, ltb, contains, or_else, if◌then◌else◌, Result, ok, err,
  Exec, key_error,
}
use office_mult_agent.Value.{Fields, end}
use office_mult_agent.Context.{RequestContext}
use office_mult_agent.Tasks.Object.{
  BackgroundTask, TaskStatus, running, failed, cancelled, is_waiting, is_running, seconds, expired,
}
use office_mult_agent.Sql.Rows.{scalar_one_or_none, row_at, change_where, map_option}

pub record BackgroundTaskRecord : Type 0 where
  pub id : String
  pub tenant_id : String
  pub created_by : String
  pub created_at : ℕ
  pub version : ℕ
  pub kind : String
  pub status : TaskStatus
  pub progress : ℕ
  pub error_code : Option String
  pub payload : Fields
  pub result : Option Fields
  pub attempts : ℕ
  pub max_attempts : ℕ
  pub available_at : ℕ
  pub locked_at : Option ℕ
  pub locked_by : Option String
  pub cancel_requested : Bool
  pub finished_at : Option ℕ

abbrev pub Table : Type 0
Table = List BackgroundTaskRecord

-- `_to_task`
abbrev pub to_task : BackgroundTaskRecord → BackgroundTask
to_task row = record {
  task_id = row.id;
  tenant_id = row.tenant_id;
  kind = row.kind;
  operator_id = row.created_by;
  status = row.status;
  progress = row.progress;
  error_code = row.error_code;
  payload = some row.payload;
  result = row.result;
  attempts = row.attempts;
  max_attempts = row.max_attempts;
  available_at = some row.available_at;
  locked_at = row.locked_at;
  locked_by = row.locked_by;
  cancel_requested = row.cancel_requested;
  finished_at = row.finished_at;
}

-- The row of a task that is saved for the first time; `inserted` is the time of the database.
abbrev pub new_record : ℕ → ℕ → BackgroundTask → RequestContext → BackgroundTaskRecord
new_record now inserted task context = record {
  id = task.task_id;
  tenant_id = context.tenant_id;
  created_by = context.operator_id;
  created_at = inserted;
  version = 1;
  kind = task.kind;
  status = task.status;
  progress = task.progress;
  error_code = task.error_code;
  payload = or_else task.payload end;
  result = task.result;
  attempts = task.attempts;
  max_attempts = task.max_attempts;
  available_at = or_else task.available_at now;
  locked_at = task.locked_at;
  locked_by = task.locked_by;
  cancel_requested = task.cancel_requested;
  finished_at = task.finished_at;
}

-- What save_task writes to a row that is there.
abbrev pub overwrite_record : ℕ → BackgroundTask → BackgroundTaskRecord → BackgroundTaskRecord
overwrite_record now task row = record row {
  status = task.status;
  progress = task.progress;
  error_code = task.error_code;
  payload = or_else task.payload end;
  result = task.result;
  attempts = task.attempts;
  max_attempts = task.max_attempts;
  available_at = or_else task.available_at now;
  locked_at = task.locked_at;
  locked_by = task.locked_by;
  cancel_requested = task.cancel_requested;
  finished_at = task.finished_at;
  version = row.version + 1;
}

abbrev pub has_id : String → BackgroundTaskRecord → Bool
has_id task_id row = row.id == task_id

-- `session.get` finds a row by its primary key, whatever its tenant.
unfoldable pub save_task_row : ℕ → ℕ → BackgroundTask → RequestContext → Exec Table BackgroundTask
save_task_row now inserted task context rows = elim (row_at (λ r. r.id) task.task_id rows) [
  | none ↦ (ok task, rows ++ new_record now inserted task context ∷ [])
  | some row ↦
      if row.tenant_id == context.tenant_id
      then (ok task, change_where (has_id task.task_id) (overwrite_record now task) rows)
      else (err (key_error task.task_id), rows)
]

-- The row of a task of a tenant.
abbrev pub task_row : String → String → Table → Result (Option BackgroundTaskRecord)
task_row task_id tenant_id rows =
    scalar_one_or_none (filter (λ r. r.id == task_id && r.tenant_id == tenant_id) rows)

abbrev pub to_task_or_none : Result (Option BackgroundTaskRecord) → Result (Option BackgroundTask)
to_task_or_none (err e) = err e
to_task_or_none (ok row) = ok (map_option to_task row)

unfoldable pub get_task_row : String → RequestContext → Table → Result (Option BackgroundTask)
get_task_row task_id context rows = to_task_or_none (task_row task_id context.tenant_id rows)

-- The condition of the query in claim_next_task.
unfoldable pub can_claim : ℕ → ℕ → BackgroundTaskRecord → Bool
can_claim now lease row =
    (is_waiting row.status && leb row.available_at now)
    || (is_running row.status && expired row.locked_at now (seconds lease))

-- `order_by(available_at, created_at)`
abbrev pub before : BackgroundTaskRecord → BackgroundTaskRecord → Bool
before r s =
    ltb r.available_at s.available_at
    || (r.available_at == s.available_at && ltb r.created_at s.created_at)

-- The first row in the order, the one inserted first where it leaves a choice.
unfoldable pub earliest : Table → Option BackgroundTaskRecord
earliest [] = none
earliest (r ∷ rows) = elim (earliest rows) [
  | none ↦ some r
  | some s ↦ if before s r then some s else some r
]

-- What claim_next_task does to the row that it has selected, and whether it returns it.
unfoldable pub claim_record : String → ℕ → BackgroundTaskRecord → Bool × BackgroundTaskRecord
claim_record worker_id now row =
    if row.cancel_requested
    then (
      false,
      record row { status = cancelled; finished_at = some now; version = row.version + 1 },
    )
    else if is_running row.status && leb row.max_attempts row.attempts
    then (
      false,
      record row {
        status = failed;
        error_code = some "TASK_LEASE_EXPIRED";
        finished_at = some now;
        version = row.version + 1;
      },
    )
    else (
      true,
      record row {
        status = running;
        attempts = row.attempts + 1;
        progress = max row.progress 5;
        locked_by = some worker_id;
        locked_at = some now;
        version = row.version + 1;
      },
    )

-- The rows that the query may return: `held` are those that another transaction has locked, which
-- `skip_locked` passes over.
abbrev pub candidates : ℕ → ℕ → List String → Table → Table
candidates now lease held rows =
    filter (λ r. can_claim now lease r && not (contains held r.id)) rows

unfoldable pub claim_next_row : String → ℕ → ℕ → List String → Table → Option BackgroundTask × Table
unfolding claim_record
claim_next_row worker_id now lease held rows = elim (earliest (candidates now lease held rows)) [
  | none ↦ (none, rows)
  | some row ↦
      let (claimed, after) = claim_record worker_id now row in
      (
        if claimed then some (to_task after) else none,
        change_where (has_id row.id) (λ r. (claim_record worker_id now r).1) rows,
      )
]

-- What save_claimed_task writes: the attempts are not among it.
abbrev pub write_claimed : ℕ → BackgroundTask → BackgroundTaskRecord → BackgroundTaskRecord
write_claimed now task row = record row {
  status = task.status;
  progress = task.progress;
  error_code = task.error_code;
  result = task.result;
  available_at = or_else task.available_at now;
  locked_at = task.locked_at;
  locked_by = task.locked_by;
  cancel_requested = task.cancel_requested;
  finished_at = task.finished_at;
  version = row.version + 1;
}

abbrev settle_found :
    ℕ → BackgroundTask → Result (Option BackgroundTaskRecord) → Exec Table BackgroundTask
settle_found now task (err e) rows = (err e, rows)
settle_found now task (ok none) rows = (err (key_error task.task_id), rows)
settle_found now task (ok (some row)) rows =
    (ok task, change_where (has_id row.id) (write_claimed now task) rows)

unfoldable pub save_claimed_row : ℕ → BackgroundTask → Exec Table BackgroundTask
save_claimed_row now task rows =
    settle_found now task (task_row task.task_id task.tenant_id rows) rows

abbrev pub cancel_record : ℕ → BackgroundTaskRecord → BackgroundTaskRecord
cancel_record now row =
    if is_waiting row.status
    then record row {
      cancel_requested = true;
      status = cancelled;
      finished_at = some now;
      version = row.version + 1;
    }
    else record row { cancel_requested = true; version = row.version + 1 }

abbrev cancel_found : ℕ → Result (Option BackgroundTaskRecord) → Exec Table (Option BackgroundTask)
cancel_found now (err e) rows = (err e, rows)
cancel_found now (ok none) rows = (ok none, rows)
cancel_found now (ok (some row)) rows = (
  ok (some (to_task (cancel_record now row))),
  change_where (has_id row.id) (cancel_record now) rows,
)

unfoldable pub request_row_cancel : ℕ → String → RequestContext → Exec Table (Option BackgroundTask)
request_row_cancel now task_id context rows =
    cancel_found now (task_row task_id context.tenant_id rows) rows
