-- ===== src/Sql/Memories.antt =====
-- The memories and schedules of SqlAlchemyRuntimeStateRepository (app/repositories/runtime.py) over
-- the tables user_memories and schedules. A row that a query updates gets the database's time as its
-- `updated_at`; the in-memory repository keeps the memory that was saved.
pub mod Refines
use office_mult_agent.Base.{
  ℕ, ◌+◌, String, Bool, true, ◌&&◌, Option, none, some, List, [], ◌∷◌, ◌++◌, map, ◌==◌, string_eq,
  triple_eq, filter, if◌then◌else◌, Result, ok, err, Exec, pure, ◌>>◌, ◌>>=◌,
}
use office_mult_agent.Value.{Fields, end}
use office_mult_agent.Context.{RequestContext}
use office_mult_agent.Memories.{ConfirmedMemory, Schedule, MemoryKey}
use office_mult_agent.Sql.Rows.{scalar_one_or_none, change_where, insert_row}

pub record UserMemory : Type 0 where
  pub id : String
  pub tenant_id : String
  pub created_by : String
  pub memory_key : String
  pub memory_value : String
  pub confirmed : Bool
  pub updated_at : ℕ
  pub version : ℕ

-- The columns of `uq_user_memory_key`.
abbrev pub user_key : UserMemory → MemoryKey
user_key r = (r.tenant_id, r.created_by, r.memory_key)

abbrev pub new_memory : ConfirmedMemory → ℕ → RequestContext → UserMemory
new_memory m now context = record {
  id = m.memory_id;
  tenant_id = context.tenant_id;
  created_by = context.operator_id;
  memory_key = m.key;
  memory_value = m.value;
  confirmed = true;
  updated_at = now;
  version = 1;
}

abbrev pub overwrite_memory : ConfirmedMemory → ℕ → UserMemory → UserMemory
overwrite_memory m now r = record r {
  memory_value = m.value;
  confirmed = true;
  updated_at = now;
  version = r.version + 1;
}

-- The write, for what the query found.
unfoldable pub write_memory :
    ConfirmedMemory
    → ℕ
    → RequestContext
    → Result (Option UserMemory)
    → Exec (List UserMemory) ConfirmedMemory
unfolding insert_row
write_memory m now context (err e) rows = (err e, rows)
write_memory m now context (ok none) rows =
    (insert_row (λ r. r.id) (new_memory m now context) >> pure m) rows
write_memory m now context (ok (some found)) rows =
    (ok m, change_where (λ r. user_key r == user_key found) (overwrite_memory m now) rows)

unfoldable pub save_memory_row :
    ConfirmedMemory → ℕ → RequestContext → Exec (List UserMemory) ConfirmedMemory
unfolding write_memory
save_memory_row m now context rows =
    write_memory m now context
      (scalar_one_or_none
        (filter (λ r. user_key r == (context.tenant_id, context.operator_id, m.key)) rows))
      rows

abbrev pub memory_of : UserMemory → ConfirmedMemory
memory_of r = record {
  memory_id = r.id;
  tenant_id = r.tenant_id;
  operator_id = r.created_by;
  key = r.memory_key;
  value = r.memory_value;
  confirmed_at = r.updated_at;
}

abbrev pub is_own_row : RequestContext → UserMemory → Bool
is_own_row context r =
    r.tenant_id == context.tenant_id && r.created_by == context.operator_id && r.confirmed

unfoldable pub list_memory_rows : RequestContext → List UserMemory → List ConfirmedMemory
list_memory_rows context rows = map memory_of (filter (is_own_row context) rows)

pub record ScheduleRecord : Type 0 where
  pub id : String
  pub tenant_id : String
  pub created_by : String
  pub name : String
  pub cron : String
  pub task_type : String
  pub payload : Fields
  pub status : String

abbrev pub new_schedule : Schedule → RequestContext → ScheduleRecord
new_schedule schedule context = record {
  id = schedule.schedule_id;
  tenant_id = context.tenant_id;
  created_by = context.operator_id;
  name = schedule.name;
  cron = schedule.cron;
  task_type = schedule.task_type;
  payload = end;
  status = if schedule.enabled then "active" else "disabled";
}

unfoldable pub save_schedule_row : Schedule → RequestContext → Exec (List ScheduleRecord) Schedule
unfolding insert_row
save_schedule_row schedule context =
    insert_row (λ r. r.id) (new_schedule schedule context) >> pure schedule

abbrev pub schedule_of : ScheduleRecord → Schedule
schedule_of r = record {
  schedule_id = r.id;
  tenant_id = r.tenant_id;
  name = r.name;
  cron = r.cron;
  task_type = r.task_type;
  enabled = r.status == "active";
}

unfoldable pub list_schedule_rows : RequestContext → List ScheduleRecord → List Schedule
list_schedule_rows context rows =
    map schedule_of (filter (λ r. r.tenant_id == context.tenant_id) rows)
