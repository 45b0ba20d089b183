-- ===== src/Tasks/Lease.antt =====
-- Leases: what a claim does to the object it hands out, and to the objects that it may not touch
-- (app/services/runtime_state.py, claim_next_task).
use office_mult_agent.Base.{
  ℕ, ◌+◌, ◌<◌, String, true, false, some, List, [], ◌∷◌, ◌≡◌, refl, inl, inr, arith, get_elem?, set,
  Bool-cases, Option-cases, ==_iff, ◌==◌, nat_eq, get_elem?-set_self, get_elem?-set_ne, ok,
}
use office_mult_agent.Base.Dict.{values}
use office_mult_agent.Tasks.Object.{BackgroundTask, running, claim_one, seconds}
use office_mult_agent.Tasks.Repository.{Repository, claim_from, claim}
use office_mult_agent.Tasks.Lifecycle.{
  IsLeased, claim_one-IsLeased, claim_one_settled, claim_one_protects, claim_one_terminal,
  is_terminal,
}
use office_mult_agent.Tasks.Heap.{
  Heap, claim_from-nil, claim_from-missing, claim_from-taken, claim_from-idle,
}

-- Another party's lease that has not run out, or the end of the task.
pub data Untouchable (now lease : ℕ) (t : BackgroundTask) : Type 0 where
  held :
      (since : ℕ)
      → t.status ≡ running
      → t.locked_at ≡ some since
      → now < since + seconds lease
      → Untouchable now lease t
  ended : is_terminal t.status ≡ true → Untouchable now lease t

module _ (worker : String) (now lease : ℕ) where
  skips-Untouchable :
      (t : BackgroundTask) → Untouchable now lease t → claim_one worker now lease t ≡ (false, t)
  skips-Untouchable t (held since r l h) = claim_one_protects worker now lease since t r l h
  skips-Untouchable t (ended h) = claim_one_terminal worker now lease t h

  -- Writing an object that a round left alone changes nothing.
  set-idle :
      (h : Heap) (ref r : ℕ) (u : BackgroundTask) {t v : BackgroundTask}
      → get_elem? h ref ≡ some t
      → get_elem? h r ≡ some v
      → claim_one worker now lease t ≡ (false, t)
      → u ≡ (claim_one worker now lease v).1
      → get_elem? (set h r u) ref ≡ some t
  set-idle h ref r u {t} {v} e ev idle is = elim (Bool-cases (r == ref)) [
    | inl same ↦
        let here : r ≡ ref = (==_iff r ref).0 same in
        ground (arith, here, get_elem?-set_self h r u ev, e, ev, idle, is)
    | inr other ↦ ground (arith, ==_iff r ref, get_elem?-set_ne h r ref u, e)
  ]

  claim_from_keeps :
      (refs : List ℕ) (h : Heap) (ref : ℕ) {t : BackgroundTask}
      → get_elem? h ref ≡ some t
      → claim_one worker now lease t ≡ (false, t)
      → get_elem? (claim_from worker now lease refs h).1 ref ≡ some t
  claim_from_keeps [] h ref e idle = rw (claim_from-nil worker now lease h) e
  claim_from_keeps (r ∷ refs) h ref {t} e idle = elim (Option-cases (get_elem? h r)) [
    | inl missing ↦
        rw (claim_from-missing worker now lease r refs h missing)
          (claim_from_keeps refs h ref e idle)
    | inr (v, ev) ↦
        let u : BackgroundTask = (claim_one worker now lease v).1 in
        let kept = set-idle h ref r u e ev idle refl in
        elim (Bool-cases (claim_one worker now lease v).0) [
          | inl taken ↦ rw (claim_from-taken worker now lease r refs h ev taken) kept
          | inr passed ↦
              rw (claim_from-idle worker now lease r refs h ev passed)
                (claim_from_keeps refs (set h r u) ref kept idle)
        ]
  ]

  -- A claim leaves a task alone that another worker runs under a lease that has not run out, and a
  -- task that has ended.
  pub claim_keeps-Untouchable :
      (s : Repository) (ref : ℕ) (t : BackgroundTask)
      → get_elem? s.heap ref ≡ some t
      → Untouchable now lease t
      → get_elem? (claim worker now lease s).1.heap ref ≡ some t
  unfolding claim
  claim_keeps-Untouchable s ref t e h =
      claim_from_keeps (values s.tasks) s.heap ref e (skips-Untouchable t h)

  pub record Handed (ref : ℕ) (before after : Heap) : Type 0 where
    pub task : BackgroundTask
    pub leased : BackgroundTask
    pub was : get_elem? before ref ≡ some task
    pub is : get_elem? after ref ≡ some leased
    pub taken : (claim_one worker now lease task).0 ≡ true
    pub lease_of : IsLeased worker now lease task leased

  Handed-earlier :
      (h after : Heap) (ref r : ℕ) {v : BackgroundTask}
      → get_elem? h r ≡ some v
      → (claim_one worker now lease v).0 ≡ false
      → Handed ref (set h r (claim_one worker now lease v).1) after
      → Handed ref h after
  Handed-earlier h after ref r {v} ev idle handed = elim (Bool-cases (r == ref)) [
    | inl same ↦
        let here : r ≡ ref = (==_iff r ref).0 same in
        let u : BackgroundTask = (claim_one worker now lease v).1 in
        absurd (
          ground (
            arith,
            here,
            get_elem?-set_self h r u ev,
            handed.was,
            handed.taken,
            claim_one_settled worker now lease v idle,
          ))
    | inr other ↦ record {
      task = handed.task;
      leased = handed.leased;
      was = ground (
        arith,
        ==_iff r ref,
        get_elem?-set_ne h r ref (claim_one worker now lease v).1,
        handed.was,
      );
      is = handed.is;
      taken = handed.taken;
      lease_of = handed.lease_of;
    }
  ]

  claim_from-Handed :
      (refs : List ℕ) (h : Heap) (ref : ℕ)
      → (claim_from worker now lease refs h).0 ≡ some ref
      → Handed ref h (claim_from worker now lease refs h).1
  claim_from-Handed [] h ref c = absurd (ground (arith, c, claim_from-nil worker now lease h))
  claim_from-Handed (r ∷ refs) h ref c = elim (Option-cases (get_elem? h r)) [
    | inl missing ↦ rw (claim_from-missing worker now lease r refs h missing) (
        claim_from-Handed refs h ref
          (rw (claim_from-missing worker now lease r refs h missing) at c))
    | inr (v, ev) ↦
        let u : BackgroundTask = (claim_one worker now lease v).1 in
        elim (Bool-cases (claim_one worker now lease v).0) [
          | inl taken ↦
              let all = claim_from-taken worker now lease r refs h ev taken in
              let here : r ≡ ref = ground (arith, all, c) in
              rw all (record {
                task = v;
                leased = u;
                was = rw (← here) ev;
                is = rw (← here) (get_elem?-set_self h r u ev);
                taken = taken;
                lease_of = claim_one-IsLeased worker now lease v taken;
              })
          | inr passed ↦
              let all = claim_from-idle worker now lease r refs h ev passed in
              rw all (
                Handed-earlier h (claim_from worker now lease refs (set h r u)).1 ref r ev passed
                  (claim_from-Handed refs (set h r u) ref (rw all at c)))
        ]
  ]

  -- The task that a claim hands out was due and not cancelled; it comes back running, with one
  -- attempt more and a lease that names the worker and begins now.
  pub claim-Handed :
      (s : Repository) (ref : ℕ)
      → (claim worker now lease s).0 ≡ ok (some ref)
      → Handed ref s.heap (claim worker now lease s).1.heap
  unfolding claim
  claim-Handed s ref c = claim_from-Handed (values s.tasks) s.heap ref (ground arith)
