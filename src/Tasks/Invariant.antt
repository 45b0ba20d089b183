-- ===== src/Tasks/Invariant.antt =====
-- The invariants that hold whatever the callers of BackgroundTaskService do, and in whatever order
-- (app/services/runtime_state.py).
use office_mult_agent.Base.{
  ℕ, ◌+◌, ◌≤◌, some, ◌≡◌, refl, sym, arith, get_elem?, All-get_elem?, subst, string_eq, pair_eq,
}
use office_mult_agent.Base.Dict.{values}
use office_mult_agent.Tasks.Object.{
  BackgroundTask, mark_succeeded, mark_failed, exhaust, flag_cancel,
}
use office_mult_agent.Tasks.Repository.{Repository}
use office_mult_agent.Tasks.Lifecycle.{
  IsValid, SameTask, by_success, by_failure, by_giving_up, by_cancel,
}
use office_mult_agent.Tasks.Claim.{claim_from-All-IsValid}
use office_mult_agent.Tasks.Heap.{Advances, Advances-refl, Advances-trans, claim_from-Advances}
use office_mult_agent.Tasks.History.{
  Step, created, cancelled, updated, claimed, succeeded, failed, given_up, cancel_seen, Reach, here,
  next, step_grants, grants, AllValid,
}
use office_mult_agent.Tasks.Moves.{
  Moves, write-Moves, heap-succeed, heap-fail, create-Moves, cancel-Moves, update-Moves, fail-Moves,
  heap-claim,
}

abbrev Steps : {s t : Repository} → Step s t → Type 0
Steps {s} {t} st = AllValid s → AllValid t × Advances (step_grants st) s.heap t.heap

Step-Steps : {s t : Repository} (st : Step s t) → Steps st
Step-Steps {s} (created uuid now kind payload n context) =
    create-Moves uuid now kind payload n context s
Step-Steps {s} (cancelled now task_id context) = cancel-Moves now task_id context s
Step-Steps {s} (updated task_id status progress context code fit) =
    update-Moves task_id status progress context code s fit
Step-Steps {s} (claimed worker now lease) = λ valid. rw heap-claim (
  claim_from-All-IsValid worker now lease (values s.tasks) s.heap valid,
  claim_from-Advances worker now lease (values s.tasks) s.heap valid,
)
Step-Steps {s} (succeeded ref result now) =
    subst (Moves s.heap) (sym (heap-succeed ref result now s))
      (write-Moves ref (mark_succeeded result now) s (λ t. by_success result now))
Step-Steps {s} (failed ref code delay now) =
    subst (Moves s.heap) (sym (heap-fail ref code delay now s))
      (write-Moves ref (mark_failed code delay now) s (λ t. by_failure code delay now))
Step-Steps {s} (given_up ref code delay now) =
    fail-Moves ref code delay now exhaust s (λ t. by_giving_up code delay now)
Step-Steps {s} (cancel_seen ref code delay now) =
    fail-Moves ref code delay now flag_cancel s (λ t. by_cancel code delay now)

Reach-Steps :
    {s t : Repository} (r : Reach s t) → AllValid s → AllValid t × Advances (grants r) s.heap t.heap
Reach-Steps {s} here valid = (valid, Advances-refl s.heap)
Reach-Steps {s} (next {t = m} {u = u} r st) valid =
    let (middle, before) = Reach-Steps r valid in
    let (after, moved) = Step-Steps st middle in
    (
      after,
      Advances-trans (grants r) (step_grants st) (grants (next r st)) s.heap m.heap u.heap
          (λ x. refl) before moved,
    )

-- Whatever the callers do, as long as `update` is called with a status that fits the task that it finds
-- (whatever the progress), every task object stays valid: max_attempts is at least 1, its attempts
-- never pass it, a task that waits has an attempt left, its progress is at most 100, a running task
-- has a lease, and a task that has ended has a finishing time.
pub Reach-AllValid : {s t : Repository} → Reach s t → AllValid s → AllValid t
Reach-AllValid r valid = (Reach-Steps r valid).0

-- Whatever the callers do, with `update` as above, an object keeps its identity, its owner, its payload and its bound on
-- attempts, and its attempts never fall.
pub Reach-SameTask :
    {s t : Repository} (r : Reach s t) (ref : ℕ) (task : BackgroundTask)
    → AllValid s
    → get_elem? s.heap ref ≡ some task
    → (after : BackgroundTask) × (get_elem? t.heap ref ≡ some after) × SameTask task after
Reach-SameTask r ref task valid e =
    let moved = (Reach-Steps r valid).1 ref task e in (moved.after, moved.found, moved.same)

-- Whatever the callers do, as long as `update` is called with a status that fits the task that it
-- finds, one task is handed to workers at most max_attempts times. A waiting status fits where an
-- attempt is left, running where there is a lease, an ended one where there is a finishing time.
pub grants-le-max_attempts :
    {s t : Repository} (r : Reach s t) (ref : ℕ) (task : BackgroundTask)
    → AllValid s
    → get_elem? s.heap ref ≡ some task
    → task.attempts + grants r ref ≤ task.max_attempts
grants-le-max_attempts {t = t} r ref task valid e =
    let (kept, history) = Reach-Steps r valid in
    let moved = history ref task e in
    omega (
      arith,
      moved.grown,
      (All-get_elem? IsValid t.heap ref kept moved.found).bounded,
      moved.same.max_attempts,
    )
