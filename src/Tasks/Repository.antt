-- ===== src/Tasks/Repository.antt =====
-- The task half of InMemoryRuntimeStateRepository, and BackgroundTaskService over it
-- (app/services/runtime_state.py). A method runs without interruption: none of them waits between
-- its first and its last access to the objects. `uuid4()` and `datetime.now()` are arguments.
use office_mult_agent.Base.{
  ℕ, String, false, not, Option, none, some, List, [], ◌∷◌, ◌++◌, length, get_elem?, set, is_some,
  or_else, if◌then◌else◌, key_error, value_error, ok, err, Exec, pure, raise_if, ◌>>=◌, ◌>>◌,
  string_eq, pair_eq,
}
use office_mult_agent.Base.Int.{ℤ, max_zero, lt_ℕ, in_range}
use office_mult_agent.Base.Dict.{Dict, values, lookup, insert}
use office_mult_agent.Value.{Fields, end}
use office_mult_agent.Context.{RequestContext}
use office_mult_agent.Tasks.Object.{
  BackgroundTask, TaskStatus, queued, claim_one, request_cancel, mark_succeeded, mark_failed,
  mark_updated,
}

-- `(tenant_id, task_id)`
abbrev pub TaskKey : Type 0
TaskKey = String × String

pub record Repository : Type 0 where
  pub heap : List BackgroundTask
  pub tasks : Dict TaskKey ℕ

abbrev pub key_of : BackgroundTask → TaskKey
key_of task = (task.tenant_id, task.task_id)

-- A write through a reference.
abbrev pub write : ℕ → (BackgroundTask → BackgroundTask) → Repository → Repository
write ref change s = elim (get_elem? s.heap ref) [
  | none ↦ s
  | some task ↦ record s { heap = set s.heap ref (change task) }
]

abbrev pub assign : ℕ → (BackgroundTask → BackgroundTask) → Exec Repository (Unit {0})
assign ref change s = (ok tt, write ref change s)

-- A new object, at the end of the heap.
abbrev pub allocate : BackgroundTask → Exec Repository ℕ
allocate task s = (ok (length s.heap), record s { heap = s.heap ++ task ∷ [] })

-- A read through a reference. No program state has a reference with no object behind it.
abbrev pub read : ℕ → Exec Repository BackgroundTask
read ref s = elim (get_elem? s.heap ref) [
  | none ↦ (err (key_error "dangling reference"), s)
  | some task ↦ (ok task, s)
]

abbrev pub register : TaskKey → ℕ → Exec Repository (Unit {0})
register key ref s = (ok tt, record s { tasks = insert key ref s.tasks })

unfoldable pub save_task : ℕ → RequestContext → Exec Repository ℕ
save_task ref context = do task ← read ref; register (context.tenant_id, task.task_id) ref; pure ref

unfoldable pub get_task : String → RequestContext → Repository → Option ℕ
get_task task_id context s = lookup (context.tenant_id, task_id) s.tasks

-- The loop of claim_next_task, over the references in the dict's order.
unfoldable pub claim_from :
    String → ℕ → ℕ → List ℕ → List BackgroundTask → Option ℕ × List BackgroundTask
claim_from worker_id now lease [] heap = (none, heap)
claim_from worker_id now lease (ref ∷ refs) heap = elim (get_elem? heap ref) [
  | none ↦ claim_from worker_id now lease refs heap
  | some task ↦
      let (claimed, after) = claim_one worker_id now lease task in
      let rest = claim_from worker_id now lease refs (set heap ref after) in
      if claimed then (some ref, set heap ref after) else rest
]

unfoldable pub claim_next_task : String → ℕ → ℕ → Repository → Option ℕ × Repository
unfolding claim_from
claim_next_task worker_id now lease s =
    let (claimed, heap) = claim_from worker_id now lease (values s.tasks) s.heap in
    (claimed, record s { heap = heap })

unfoldable pub save_claimed_task : ℕ → Exec Repository ℕ
save_claimed_task ref s = elim (get_elem? s.heap ref) [
  | none ↦ (err (key_error "dangling reference"), s)
  | some task ↦
      if is_some (lookup (key_of task) s.tasks)
      then (ok ref, record s { tasks = insert (key_of task) ref s.tasks })
      else (err (key_error task.task_id), s)
]

unfoldable pub request_task_cancel :
    ℕ → String → RequestContext → Repository → Option ℕ × Repository
request_task_cancel now task_id context s = elim (lookup (context.tenant_id, task_id) s.tasks) [
  | none ↦ (none, s)
  | some ref ↦ (some ref, write ref (request_cancel now) s)
]

-- BackgroundTask(...) as BackgroundTaskService.create calls it.
abbrev pub fresh_task : String → ℕ → String → Option Fields → ℕ → RequestContext → BackgroundTask
fresh_task uuid now kind payload max_attempts context = record {
  task_id = uuid;
  tenant_id = context.tenant_id;
  kind = kind;
  operator_id = context.operator_id;
  status = queued;
  progress = 0;
  error_code = none;
  payload = some (or_else payload end);
  result = none;
  attempts = 0;
  max_attempts = max_attempts;
  available_at = some now;
  locked_at = none;
  locked_by = none;
  cancel_requested = false;
  finished_at = none;
}

unfoldable pub create : String → ℕ → String → Option Fields → ℤ → RequestContext → Exec Repository ℕ
unfolding save_task
create uuid now kind payload max_attempts context = do
  raise_if (lt_ℕ max_attempts 1) (value_error "max_attempts must be positive")
  ref ← allocate (fresh_task uuid now kind payload (max_zero max_attempts) context)
  save_task ref context

unfoldable pub get : String → RequestContext → Exec Repository ℕ
unfolding get_task
get task_id context s = elim (get_task task_id context s) [
  | none ↦ (err (key_error task_id), s)
  | some ref ↦ (ok ref, s)
]

unfoldable pub update : String → TaskStatus → ℤ → RequestContext → Option String → Exec Repository ℕ
unfolding get save_task
update task_id status progress context error_code = do
  ref ← get task_id context
  raise_if (not (in_range progress 100)) (value_error "progress must be between 0 and 100")
  assign ref (mark_updated status (max_zero progress) error_code)
  save_task ref context

unfoldable pub cancel : ℕ → String → RequestContext → Exec Repository ℕ
unfolding request_task_cancel
cancel now task_id context s =
    let (found, s') = request_task_cancel now task_id context s in
    elim found [ none ↦ (err (key_error task_id), s') | some ref ↦ (ok ref, s') ]

unfoldable pub claim : String → ℕ → ℕ → Exec Repository (Option ℕ)
unfolding claim_next_task
claim worker_id now lease s =
    let (claimed, s') = claim_next_task worker_id now lease s in (ok claimed, s')

unfoldable pub succeed : ℕ → Fields → ℕ → Exec Repository ℕ
unfolding save_claimed_task
succeed ref result now = do assign ref (mark_succeeded result now); save_claimed_task ref

unfoldable pub fail : ℕ → String → ℤ → ℕ → Exec Repository ℕ
unfolding save_claimed_task
fail ref error_code retry_delay_seconds now = do
  assign ref (mark_failed error_code retry_delay_seconds now)
  save_claimed_task ref
