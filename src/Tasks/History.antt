-- ===== src/Tasks/History.antt =====
-- Every interleaving of the callers of BackgroundTaskService (app/services/runtime_state.py): API
-- requests that create and cancel, workers that claim and settle, each with references of its own,
-- lapsed ones included, and callers that update a task, to a status that fits it: `update` would write
-- any status over any other.
use office_mult_agent.Base.{
  ℕ, ◌+◌, String, Bool, true, Option, none, some, ◌≡◌, get_elem?, string_eq, pair_eq, All,
}
use office_mult_agent.Base.Int.{ℤ}
use office_mult_agent.Base.Dict.{values, lookup}
use office_mult_agent.Value.{Fields}
use office_mult_agent.Context.{RequestContext}
use office_mult_agent.Tasks.Object.{TaskStatus, exhaust, flag_cancel}
use office_mult_agent.Tasks.Repository.{
  Repository, write, create, update, cancel, claim, succeed, fail, claim_from,
}
use office_mult_agent.Tasks.Lifecycle.{IsValid, fits}
use office_mult_agent.Tasks.Heap.{grant}

-- Whether a status fits the task that a call of `update` finds.
abbrev pub fits_at : String → TaskStatus → RequestContext → Repository → Bool
fits_at task_id status context s = elim (lookup (context.tenant_id, task_id) s.tasks) [
  | none ↦ true
  | some ref ↦ elim (get_elem? s.heap ref) [ none ↦ true | some task ↦ fits status task ]
]

pub data Step (s : Repository) : Repository → Type 0 where
  created :
      (uuid : String) (now : ℕ) (kind : String) (payload : Option Fields) (max_attempts : ℤ)
      (context : RequestContext)
      → Step s (create uuid now kind payload max_attempts context s).1
  cancelled :
      (now : ℕ) (task_id : String) (context : RequestContext)
      → Step s (cancel now task_id context s).1
  updated :
      (task_id : String) (status : TaskStatus) (progress : ℤ) (context : RequestContext)
      (code : Option String)
      → fits_at task_id status context s ≡ true
      → Step s (update task_id status progress context code s).1
  claimed : (worker : String) (now lease : ℕ) → Step s (claim worker now lease s).1
  succeeded : (ref : ℕ) (result : Fields) (now : ℕ) → Step s (succeed ref result now s).1
  failed : (ref : ℕ) (code : String) (delay : ℤ) (now : ℕ) → Step s (fail ref code delay now s).1
  -- the worker sets `attempts` or `cancel_requested` first, with no wait in between
  given_up :
      (ref : ℕ) (code : String) (delay : ℤ) (now : ℕ)
      → Step s (fail ref code delay now (write ref exhaust s)).1
  cancel_seen :
      (ref : ℕ) (code : String) (delay : ℤ) (now : ℕ)
      → Step s (fail ref code delay now (write ref flag_cancel s)).1

pub data Reach (s : Repository) : Repository → Type 0 where
  here : Reach s s
  next : {t u : Repository} → Reach s t → Step t u → Reach s u

pub Reach-trans : {s t u : Repository} → Reach s t → Reach t u → Reach s u
Reach-trans r here = r
Reach-trans r (next q st) = next (Reach-trans r q) st

-- How often the steps hand the object at a reference to a worker.
abbrev pub step_grants : {s t : Repository} → Step s t → ℕ → ℕ
step_grants {s} (claimed worker now lease) ref =
    grant (claim_from worker now lease (values s.tasks) s.heap).0 ref
step_grants _ ref = 0

abbrev pub grants : {s t : Repository} → Reach s t → ℕ → ℕ
grants here ref = 0
grants (next r st) ref = grants r ref + step_grants st ref

abbrev pub AllValid : Repository → Type 0
AllValid s = All IsValid s.heap
