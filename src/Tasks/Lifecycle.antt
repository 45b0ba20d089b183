-- ===== src/Tasks/Lifecycle.antt =====
-- What the methods of app/services/runtime_state.py keep true of one BackgroundTask object.
use office_mult_agent.Base.{
  ℕ, ◌+◌, ◌≤◌, ◌<◌, String, Bool, true, false, not, ◌&&◌, ◌||◌, ltb, Option, some, ◌≡◌, arith,
  is_some,
}
use office_mult_agent.Base.Int.{ℤ}
use office_mult_agent.Value.{Fields}
use office_mult_agent.Tasks.Object.{
  BackgroundTask, TaskStatus, running, succeeded, failed, cancelled, is_waiting, is_running,
  seconds, is_due, claim_one, request_cancel, mark_succeeded, mark_failed, exhaust, flag_cancel,
  mark_updated,
}

abbrev pub is_terminal : TaskStatus → Bool
is_terminal succeeded = true
is_terminal failed = true
is_terminal cancelled = true
is_terminal _ = false

-- Whether a status fits the attempts, the lease and the end of a task.
abbrev pub fits : TaskStatus → BackgroundTask → Bool
fits status t =
    (not (is_waiting status) || ltb t.attempts t.max_attempts)
    && (not (is_running status) || is_some t.locked_at)
    && (not (is_terminal status) || is_some t.finished_at)

pub record IsValid (t : BackgroundTask) : Type 0 where
  pub bounded : t.attempts ≤ t.max_attempts
  pub positive : 1 ≤ t.max_attempts
  pub retriable : is_waiting t.status ≡ true → t.attempts < t.max_attempts
  pub percent : t.progress ≤ 100
  pub leased : is_running t.status ≡ true → is_some t.locked_at ≡ true
  pub finished : is_terminal t.status ≡ true → is_some t.finished_at ≡ true

-- The same task: what create sets and no later method changes.
pub record SameTask (t u : BackgroundTask) : Type 0 where
  pub task_id : t.task_id ≡ u.task_id
  pub tenant_id : t.tenant_id ≡ u.tenant_id
  pub kind : t.kind ≡ u.kind
  pub operator_id : t.operator_id ≡ u.operator_id
  pub payload : t.payload ≡ u.payload
  pub max_attempts : t.max_attempts ≡ u.max_attempts
  pub attempts : t.attempts ≤ u.attempts

pub SameTask-refl : (t : BackgroundTask) → SameTask t t
SameTask-refl t = ground arith

pub SameTask-trans : {t u v : BackgroundTask} → SameTask t u → SameTask u v → SameTask t v
SameTask-trans h k = ground arith

-- The method bodies that another party may run on the object at any time.
pub data Change (t : BackgroundTask) : BackgroundTask → Type 0 where
  by_claim : (worker : String) (now lease : ℕ) → Change t (claim_one worker now lease t).1
  by_request : (now : ℕ) → Change t (request_cancel now t)
  by_success : (result : Fields) (now : ℕ) → Change t (mark_succeeded result now t)
  by_failure : (code : String) (delay : ℤ) (now : ℕ) → Change t (mark_failed code delay now t)
  by_giving_up :
      (code : String) (delay : ℤ) (now : ℕ) → Change t (mark_failed code delay now (exhaust t))
  by_cancel :
      (code : String) (delay : ℤ) (now : ℕ) → Change t (mark_failed code delay now (flag_cancel t))
  by_update :
      (status : TaskStatus) (progress : ℕ) (code : Option String)
      → progress ≤ 100
      → fits status t ≡ true
      → Change t (mark_updated status progress code t)

module _ (t : BackgroundTask) (v : IsValid t) where
  claim_one-IsValid : (worker : String) (now lease : ℕ) → IsValid (claim_one worker now lease t).1
  unfolding claim_one
  claim_one-IsValid worker now lease = ground arith

  mark_failed-IsValid :
      (code : String) (delay : ℤ) (now : ℕ) → IsValid (mark_failed code delay now t)
  unfolding mark_failed
  mark_failed-IsValid code delay now = ground arith

  given_up-IsValid :
      (code : String) (delay : ℤ) (now : ℕ) → IsValid (mark_failed code delay now (exhaust t))
  unfolding mark_failed exhaust
  given_up-IsValid code delay now = ground arith

  cancel_seen-IsValid :
      (code : String) (delay : ℤ) (now : ℕ) → IsValid (mark_failed code delay now (flag_cancel t))
  unfolding mark_failed flag_cancel
  cancel_seen-IsValid code delay now = ground arith

pub Change-IsValid : {t u : BackgroundTask} → Change t u → IsValid t → IsValid u
unfolding request_cancel mark_succeeded mark_updated
Change-IsValid {t} (by_claim w n l) v = claim_one-IsValid t v w n l
Change-IsValid (by_request n) v = ground arith
Change-IsValid (by_success r n) v = ground arith
Change-IsValid {t} (by_failure c d n) v = mark_failed-IsValid t v c d n
Change-IsValid {t} (by_giving_up c d n) v = given_up-IsValid t v c d n
Change-IsValid {t} (by_cancel c d n) v = cancel_seen-IsValid t v c d n
Change-IsValid (by_update status p c within fit) v = ground (arith, within, fit)

pub Change-SameTask : {t u : BackgroundTask} → IsValid t → Change t u → SameTask t u
unfolding claim_one request_cancel mark_succeeded mark_failed exhaust flag_cancel mark_updated
Change-SameTask v (by_claim w n l) = ground arith
Change-SameTask v (by_request n) = ground arith
Change-SameTask v (by_success r n) = ground arith
Change-SameTask v (by_failure c d n) = ground arith
Change-SameTask v (by_giving_up c d n) = ground arith
Change-SameTask v (by_cancel c d n) = ground arith
Change-SameTask v (by_update status p c within fit) = ground arith

-- What a round of the claim loop hands out: a task that was due, that nobody has cancelled and that
-- has an attempt left, with a fresh lease.
pub record IsLeased (worker : String) (now lease : ℕ) (t u : BackgroundTask) : Type 0 where
  pub due : is_due now lease t ≡ true
  pub live : t.cancel_requested ≡ false
  pub status : u.status ≡ running
  pub attempts : u.attempts ≡ t.attempts + 1
  pub locked_by : u.locked_by ≡ some worker
  pub locked_at : u.locked_at ≡ some now

pub claim_one-IsLeased :
    (worker : String) (now lease : ℕ) (t : BackgroundTask)
    → (claim_one worker now lease t).0 ≡ true
    → IsLeased worker now lease t (claim_one worker now lease t).1
unfolding claim_one
claim_one-IsLeased worker now lease t h = ground arith

-- A lease that has not run out protects a running task.
pub claim_one_protects :
    (worker : String) (now lease since : ℕ) (t : BackgroundTask)
    → t.status ≡ running
    → t.locked_at ≡ some since
    → now < since + seconds lease
    → claim_one worker now lease t ≡ (false, t)
unfolding claim_one
claim_one_protects worker now lease since t s l h = ground arith

-- A task that has ended stays as it is.
pub claim_one_terminal :
    (worker : String) (now lease : ℕ) (t : BackgroundTask)
    → is_terminal t.status ≡ true
    → claim_one worker now lease t ≡ (false, t)
unfolding claim_one
claim_one_terminal worker now lease t h = ground arith

-- A round that hands nothing out leaves nothing to hand out at that object.
pub claim_one_settled :
    (worker : String) (now lease : ℕ) (t : BackgroundTask)
    → (claim_one worker now lease t).0 ≡ false
    → (claim_one worker now lease (claim_one worker now lease t).1).0 ≡ false
unfolding claim_one
claim_one_settled worker now lease t h = ground arith
