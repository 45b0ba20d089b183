-- ===== src/Tasks/Moves.antt =====
-- What one call of BackgroundTaskService does to the heap (app/services/runtime_state.py).
use office_mult_agent.Base.{
  ◌≤◌, ℕ, zero, suc, String, true, false, Option, none, some, [], ◌∷◌, ◌++◌, ◌≡◌, refl, ap, sym,
  inl, inr, arith, get_elem?, set, Bool-cases, Option-cases, All, All-set, All-append,
  All-get_elem?, subst, ◌∙◌, get_elem?-set_self, string_eq, pair_eq,
}
use office_mult_agent.Base.Int.{ℤ, pos, negsuc, in_range, lt_ℕ, max_zero}
use office_mult_agent.Base.Dict.{values, lookup}
use office_mult_agent.Value.{Fields}
use office_mult_agent.Context.{RequestContext}
use office_mult_agent.Tasks.Object.{
  BackgroundTask, TaskStatus, request_cancel, mark_succeeded, mark_failed, mark_updated,
}
use office_mult_agent.Tasks.Repository.{
  Repository, write, create, update, get, cancel, claim, succeed, fail, fresh_task, claim_from,
}
use office_mult_agent.Tasks.Lifecycle.{
  IsValid, Change, by_request, by_update, Change-IsValid, Change-SameTask,
}
use office_mult_agent.Tasks.History.{fits_at}
use office_mult_agent.Tasks.Heap.{
  get_elem?-append_end, Heap, Advances, Advances-refl, Advances-set, Advances-append, no_grants,
}

-- What a step that hands nothing out may do to the heap.
abbrev pub Moves : Heap → Heap → Type 0
Moves h h' = All IsValid h → All IsValid h' × Advances no_grants h h'

Moves-refl : (h : Heap) → Moves h h
Moves-refl h valid = (valid, Advances-refl h)

set-Moves :
    (h : Heap) (ref : ℕ) (f : BackgroundTask → BackgroundTask) {t : BackgroundTask}
    → Change t (f t)
    → get_elem? h ref ≡ some t
    → Moves h (set h ref (f t))
set-Moves h ref f {t} change e valid =
    let v = All-get_elem? IsValid h ref valid e in
    (
      All-set IsValid h ref (f t) valid (Change-IsValid change v),
      Advances-set h ref e (Change-SameTask v change),
    )

write_missing :
    (ref : ℕ) (f : BackgroundTask → BackgroundTask) (s : Repository)
    → get_elem? s.heap ref ≡ none
    → (write ref f s).heap ≡ s.heap
write_missing ref f s e = ground arith

write_found :
    (ref : ℕ) (f : BackgroundTask → BackgroundTask) (s : Repository) {t : BackgroundTask}
    → get_elem? s.heap ref ≡ some t
    → (write ref f s).heap ≡ set s.heap ref (f t)
write_found ref f s e = ground arith

pub write-Moves :
    (ref : ℕ) (f : BackgroundTask → BackgroundTask) (s : Repository)
    → ((t : BackgroundTask) → Change t (f t))
    → Moves s.heap (write ref f s).heap
write-Moves ref f s change = elim (Option-cases (get_elem? s.heap ref)) [
  | inl missing ↦ subst (Moves s.heap) (sym (write_missing ref f s missing)) (Moves-refl s.heap)
  | inr (t, e) ↦
      subst (Moves s.heap) (sym (write_found ref f s e)) (set-Moves s.heap ref f (change t) e)
]

-- The settling methods write the heap through the reference, whether or not they raise.
pub heap-succeed :
    (ref : ℕ) (result : Fields) (now : ℕ) (s : Repository)
    → (succeed ref result now s).1.heap ≡ (write ref (mark_succeeded result now) s).heap
unfolding succeed
heap-succeed ref result now s = ground arith

pub heap-fail :
    (ref : ℕ) (code : String) (delay : ℤ) (now : ℕ) (s : Repository)
    → (fail ref code delay now s).1.heap ≡ (write ref (mark_failed code delay now) s).heap
unfolding fail
heap-fail ref code delay now s = ground arith

set-set : (h : Heap) (ref : ℕ) (t u : BackgroundTask) → set (set h ref t) ref u ≡ set h ref u
set-set [] ref t u = refl
set-set (x ∷ h) zero t u = refl
set-set (x ∷ h) (suc ref) t u = ap (◌∷◌ x) (set-set h ref t u)

heap-write-write :
    (ref : ℕ) (f g : BackgroundTask → BackgroundTask) (s : Repository)
    → (write ref f (write ref g s)).heap ≡ (write ref (λ t. f (g t)) s).heap
heap-write-write ref f g s = elim (Option-cases (get_elem? s.heap ref)) [
  | inl missing ↦ ground arith
  | inr (t, e) ↦
      ground (arith, get_elem?-set_self s.heap ref (g t) e, set-set s.heap ref (g t) (f (g t)))
]

heap-create_refused :
    (uuid : String) (now : ℕ) (kind : String) (payload : Option Fields) (n : ℤ)
    (context : RequestContext) (s : Repository)
    → lt_ℕ n 1 ≡ true
    → (create uuid now kind payload n context s).1.heap ≡ s.heap
unfolding create
heap-create_refused uuid now kind payload n context s h = ground arith

heap-create_accepted :
    (uuid : String) (now : ℕ) (kind : String) (payload : Option Fields) (n : ℤ)
    (context : RequestContext) (s : Repository)
    → lt_ℕ n 1 ≡ false
    → (create uuid now kind payload n context s).1.heap
      ≡ s.heap ++ fresh_task uuid now kind payload (max_zero n) context ∷ []
unfolding create
heap-create_accepted uuid now kind payload n context s h =
    ground
      (arith, get_elem?-append_end s.heap (fresh_task uuid now kind payload (max_zero n) context))

fresh_task-IsValid :
    (uuid : String) (now : ℕ) (kind : String) (payload : Option Fields) (n : ℤ)
    (context : RequestContext)
    → lt_ℕ n 1 ≡ false
    → IsValid (fresh_task uuid now kind payload (max_zero n) context)
fresh_task-IsValid uuid now kind payload n context h = ground arith

pub create-Moves :
    (uuid : String) (now : ℕ) (kind : String) (payload : Option Fields) (n : ℤ)
    (context : RequestContext) (s : Repository)
    → Moves s.heap (create uuid now kind payload n context s).1.heap
create-Moves uuid now kind payload n context s = elim (Bool-cases (lt_ℕ n 1)) [
  | inl no_try ↦
      subst (Moves s.heap) (sym (heap-create_refused uuid now kind payload n context s no_try))
        (Moves-refl s.heap)
  | inr accepted ↦
      let task : BackgroundTask = fresh_task uuid now kind payload (max_zero n) context in
      subst (Moves s.heap) (sym (heap-create_accepted uuid now kind payload n context s accepted))
        (λ valid. (
          All-append IsValid s.heap (task ∷ []) valid
              (fresh_task-IsValid uuid now kind payload n context accepted, tt),
          Advances-append s.heap task,
        ))
]

heap-cancel_missing :
    (now : ℕ) (task_id : String) (context : RequestContext) (s : Repository)
    → lookup (context.tenant_id, task_id) s.tasks ≡ none
    → (cancel now task_id context s).1.heap ≡ s.heap
unfolding cancel
heap-cancel_missing now task_id context s h = ground arith

heap-cancel_found :
    (now : ℕ) (task_id : String) (context : RequestContext) (s : Repository) {ref : ℕ}
    → lookup (context.tenant_id, task_id) s.tasks ≡ some ref
    → (cancel now task_id context s).1.heap ≡ (write ref (request_cancel now) s).heap
unfolding cancel
heap-cancel_found now task_id context s h = ground arith

pub cancel-Moves :
    (now : ℕ) (task_id : String) (context : RequestContext) (s : Repository)
    → Moves s.heap (cancel now task_id context s).1.heap
cancel-Moves now task_id context s =
    elim (Option-cases (lookup (context.tenant_id, task_id) s.tasks)) [
      | inl missing ↦
          subst (Moves s.heap) (sym (heap-cancel_missing now task_id context s missing))
            (Moves-refl s.heap)
      | inr (ref, e) ↦
          subst (Moves s.heap) (sym (heap-cancel_found now task_id context s e))
            (write-Moves ref (request_cancel now) s (λ t. by_request now))
    ]

in_range-le : (n : ℤ) → in_range n 100 ≡ true → max_zero n ≤ 100
in_range-le (pos m) h = ground (arith, h)
in_range-le (negsuc m) h = absurd (ground (arith, h))

module _ (task_id : String) (status : TaskStatus) (progress : ℤ) (context : RequestContext)
    (code : Option String) (s : Repository) where
  heap-update_missing :
      lookup (context.tenant_id, task_id) s.tasks ≡ none
      → (update task_id status progress context code s).1.heap ≡ s.heap
  unfolding update get
  heap-update_missing missing = ground (arith, missing)

  heap-update_refused :
      in_range progress 100 ≡ false
      → (update task_id status progress context code s).1.heap ≡ s.heap
  unfolding update get
  heap-update_refused outside = ground (arith, outside)

  heap-update_found :
      {ref : ℕ}
      → lookup (context.tenant_id, task_id) s.tasks ≡ some ref
      → in_range progress 100 ≡ true
      → (update task_id status progress context code s).1.heap
        ≡ (write ref (mark_updated status (max_zero progress) code) s).heap
  unfolding update get
  heap-update_found found within = ground (arith, found, within)

  pub update-Moves :
      fits_at task_id status context s ≡ true
      → Moves s.heap (update task_id status progress context code s).1.heap
  update-Moves fit = elim (Bool-cases (in_range progress 100)) [
    | inr outside ↦ subst (Moves s.heap) (sym (heap-update_refused outside)) (Moves-refl s.heap)
    | inl within ↦ elim (Option-cases (lookup (context.tenant_id, task_id) s.tasks)) [
      | inl missing ↦ subst (Moves s.heap) (sym (heap-update_missing missing)) (Moves-refl s.heap)
      | inr (ref, found) ↦
          subst (Moves s.heap) (sym (heap-update_found found within))
            (elim (Option-cases (get_elem? s.heap ref)) [
              | inl dangling ↦
                  subst (Moves s.heap)
                    (sym
                      (write_missing ref (mark_updated status (max_zero progress) code) s dangling))
                    (Moves-refl s.heap)
              | inr (t, there) ↦
                  subst (Moves s.heap)
                    (sym (write_found ref (mark_updated status (max_zero progress) code) s there))
                    (set-Moves s.heap ref (mark_updated status (max_zero progress) code)
                      (by_update status (max_zero progress) code (in_range-le progress within)
                        (ground (arith, fit, found, there)))
                      there)
            ])
    ]
  ]

pub fail-Moves :
    (ref : ℕ) (code : String) (delay : ℤ) (now : ℕ) (g : BackgroundTask → BackgroundTask)
    (s : Repository)
    → ((t : BackgroundTask) → Change t (mark_failed code delay now (g t)))
    → Moves s.heap (fail ref code delay now (write ref g s)).1.heap
fail-Moves ref code delay now g s change =
    subst (Moves s.heap)
      (sym (
        heap-fail ref code delay now (write ref g s)
        ∙ heap-write-write ref (mark_failed code delay now) g s))
      (write-Moves ref (λ t. mark_failed code delay now (g t)) s change)

pub heap-claim :
    (worker : String) (now lease : ℕ) (s : Repository)
    → (claim worker now lease s).1.heap ≡ (claim_from worker now lease (values s.tasks) s.heap).1
unfolding claim
heap-claim worker now lease s = refl
