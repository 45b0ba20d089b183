-- ===== src/Worker/Runs.antt =====
-- run_once as a whole (app/services/task_worker.py): what it claims, runs and reports.
use office_mult_agent.Base.{
  ℕ, String, Bool, true, false, Option, none, some, ◌≡◌, refl, arith, get_elem?, string_eq, pair_eq,
  if◌then◌else◌, Result, ok, ap,
}
use office_mult_agent.Base.Int.{pos}
use office_mult_agent.Base.Dict.{lookup, values}
use office_mult_agent.Value.{Fields}
use office_mult_agent.Tasks.Object.{BackgroundTask, TaskStatus, failed, cancelled}
use office_mult_agent.Tasks.Repository.{Repository, key_of, claim}
use office_mult_agent.Tasks.Claim.{first, offered, claim_from-first}
use office_mult_agent.Worker.{AsyncTaskWorker, TaskHandler, task_context, execute, run_once}
use office_mult_agent.Worker.Outcomes.{
  IsSettled, Settles, final_status, execute-Settles, exhausted_fail,
}

-- The reference that a claim hands out is the first, in the dict's order, whose task may be
-- claimed; so a claim comes back empty only if no task may be claimed.
pub claim-first :
    (worker : String) (now lease : ℕ) (s : Repository)
    → (claim worker now lease s).0 ≡ ok (first (offered now lease s.heap) (values s.tasks))
unfolding claim
claim-first worker now lease s = ap ok (claim_from-first worker now lease (values s.tasks) s.heap)

-- With nothing to claim run_once reports false and runs no handler.
pub run_once_idle :
    (worker : AsyncTaskWorker) (claimed_at now : ℕ) (s : Repository)
    → first (offered claimed_at worker.lease_timeout_seconds s.heap) (values s.tasks) ≡ none
    → (run_once worker claimed_at now s).0 ≡ ok false
unfolding run_once
run_once_idle worker claimed_at now s h =
    ground (arith, claim-first worker.worker_id claimed_at worker.lease_timeout_seconds s, h)

abbrev pub Ends : ℕ → TaskStatus → Result Bool × Repository → Type 0
Ends ref status (r, s) = (r ≡ ok true) × IsSettled ref status (ok ref) s.heap

module _ (worker : AsyncTaskWorker) (claimed_at now ref : ℕ) (start s : Repository)
    (task : BackgroundTask)
    (claimed : claim worker.worker_id claimed_at worker.lease_timeout_seconds start
      ≡ (ok (some ref), s))
    (e : get_elem? s.heap ref ≡ some task) where
  run_once-execute :
      (chosen : Option TaskHandler)
      → lookup task.kind worker.handlers ≡ chosen
      → (execute worker now ref task chosen s).0 ≡ ok ref
      → run_once worker claimed_at now start ≡ (ok true, (execute worker now ref task chosen s).1)
  unfolding run_once
  run_once-execute chosen h done = ground arith

  Settles-Ends :
      (chosen : Option TaskHandler) (status : TaskStatus)
      → lookup task.kind worker.handlers ≡ chosen
      → Settles ref status (execute worker now ref task chosen s)
      → Ends ref status (run_once worker claimed_at now start)
  Settles-Ends chosen status h settled = rw (run_once-execute chosen h settled.returned) (
    refl,
    record {
      after = settled.after;
      found = settled.found;
      status_is = settled.status_is;
      unlocked_by = settled.unlocked_by;
      unlocked_at = settled.unlocked_at;
      returned = refl;
    },
  )

  -- A claimed task whose kind has no handler ends at once, with no retry: failed, or cancelled if
  -- its cancellation was asked for.
  pub run_once_unknown_kind :
      lookup task.kind worker.handlers ≡ none
      → lookup (key_of task) s.tasks ≡ some ref
      → Ends ref
          (if task.cancel_requested then cancelled else failed)
          (run_once worker claimed_at now start)
  run_once_unknown_kind h registered =
      Settles-Ends none _ h
        (unfold execute in exhausted_fail ref now s e registered "TASK_HANDLER_NOT_FOUND" (pos 0))

  -- When the handler of a claimed task has returned, raised or run out of time, run_once reports
  -- true and leaves the task with no lease, in the status that final_status reads off the handler's
  -- end and the task as it then stands; so it is never left running.
  pub run_once-final_status :
      (handler : TaskHandler) (s' : Repository) (current : BackgroundTask) (r : Result Fields)
      → lookup task.kind worker.handlers ≡ some handler
      → handler ref (task_context task) s ≡ (r, s')
      → get_elem? s'.heap ref ≡ some current
      → key_of current ≡ key_of task
      → lookup (key_of current) s'.tasks ≡ some ref
      → Ends ref (final_status r current) (run_once worker claimed_at now start)
  run_once-final_status handler s' current r h ran e' named registered =
      Settles-Ends (some handler) _ h
        (execute-Settles worker now ref task handler s s' e' named registered r ran)
