-- ===== src/Tasks/Heap.antt =====
-- How the heap of task objects moves under a claim, a write through a reference and an allocation.
-- `Advances grants h h'`: every object of `h` is in `h'`, at its place and as the same task, and its
-- attempts have grown by `grants` at least.
use office_mult_agent.Base.{
  ℕ, zero, suc, ◌+◌, ◌≤◌, String, true, false, Option, none, some, List, [], ◌∷◌, ◌++◌, ◌≡◌, refl,
  inl, inr, arith, get_elem?, set, length, if◌then◌else◌, Bool-cases, Option-cases, ==_iff, ◌==◌,
  nat_eq, get_elem?-set_self, get_elem?-set_ne, All, All-set, All-get_elem?,
}
use office_mult_agent.Tasks.Object.{BackgroundTask, claim_one}
use office_mult_agent.Tasks.Repository.{claim_from}
use office_mult_agent.Tasks.Lifecycle.{
  IsValid, SameTask, SameTask-refl, SameTask-trans, by_claim, Change-IsValid, Change-SameTask,
  claim_one-IsLeased,
}

abbrev pub Heap : Type 0
Heap = List BackgroundTask

pub record Advanced (grants : ℕ → ℕ) (ref : ℕ) (t : BackgroundTask) (h' : Heap) : Type 0 where
  pub after : BackgroundTask
  pub found : get_elem? h' ref ≡ some after
  pub same : SameTask t after
  pub grown : t.attempts + grants ref ≤ after.attempts

abbrev pub Advances : (ℕ → ℕ) → Heap → Heap → Type 0
Advances grants h h' =
    (ref : ℕ) (t : BackgroundTask) → get_elem? h ref ≡ some t → Advanced grants ref t h'

abbrev pub no_grants : ℕ → ℕ
no_grants ref = 0

-- One grant, at the reference that was handed out.
abbrev pub grant : Option ℕ → ℕ → ℕ
grant none ref = 0
grant (some r) ref = if r == ref then 1 else 0

pub Advances-refl : (h : Heap) → Advances no_grants h h
Advances-refl h ref t e = record {
  after = t;
  found = e;
  same = SameTask-refl t;
  grown = omega arith;
}

pub Advances-trans :
    (f g k : ℕ → ℕ) (h h' h'' : Heap)
    → ((r : ℕ) → k r ≡ f r + g r)
    → Advances f h h'
    → Advances g h' h''
    → Advances k h h''
Advances-trans f g k h h' h'' sum a b ref t e =
    let p = a ref t e in
    let q = b ref p.after p.found in
    record {
      after = q.after;
      found = q.found;
      same = SameTask-trans p.same q.same;
      grown = omega (arith, sum ref, p.grown, q.grown);
    }

pub Advances-set :
    (h : Heap) (ref : ℕ) {t u : BackgroundTask}
    → get_elem? h ref ≡ some t
    → SameTask t u
    → Advances no_grants h (set h ref u)
Advances-set h ref {t} {u} e same r v ev = elim (Bool-cases (ref == r)) [
  | inl eq ↦
      let here : ref ≡ r = (==_iff ref r).0 eq in
      let is : v ≡ t = ground (arith, here, e, ev) in
      record {
        after = u;
        found = ground (arith, here, get_elem?-set_self h ref u e);
        same = rw is same;
        grown = rw is (omega (arith, same.attempts));
      }
  | inr ne ↦ record {
    after = v;
    found = ground (arith, ==_iff ref r, get_elem?-set_ne h ref r u);
    same = SameTask-refl v;
    grown = omega arith;
  }
]

get_elem?-append :
    (h : Heap) (t : BackgroundTask) (r : ℕ) (v : BackgroundTask)
    → get_elem? h r ≡ some v
    → get_elem? (h ++ t ∷ []) r ≡ some v
get_elem?-append [] t r v e = cc
get_elem?-append (x ∷ h) t zero v e = e
get_elem?-append (x ∷ h) t (suc r) v e = get_elem?-append h t r v e

pub get_elem?-append_end :
    (h : Heap) (t : BackgroundTask) → get_elem? (h ++ t ∷ []) (length h) ≡ some t
get_elem?-append_end [] t = refl
get_elem?-append_end (x ∷ h) t = get_elem?-append_end h t

pub Advances-append : (h : Heap) (t : BackgroundTask) → Advances no_grants h (h ++ t ∷ [])
Advances-append h t r v e = record {
  after = v;
  found = get_elem?-append h t r v e;
  same = SameTask-refl v;
  grown = omega arith;
}

module _ (worker : String) (now lease : ℕ) where
  granted_set :
      (h : Heap) (ref : ℕ) {t : BackgroundTask}
      → get_elem? h ref ≡ some t
      → IsValid t
      → (claim_one worker now lease t).0 ≡ true
      → Advances (grant (some ref)) h (set h ref (claim_one worker now lease t).1)
  granted_set h ref {t} e valid taken r v ev =
      let u : BackgroundTask = (claim_one worker now lease t).1 in
      let leased = claim_one-IsLeased worker now lease t taken in
      let moved = Advances-set h ref e (Change-SameTask valid (by_claim worker now lease)) r v ev in
      record {
        after = moved.after;
        found = moved.found;
        same = moved.same;
        grown = ground (
          arith,
          moved.grown,
          moved.found,
          e,
          ev,
          ==_iff ref r,
          leased.attempts,
          get_elem?-set_self h ref u e,
        );
      }

  pub claim_from-nil : (h : Heap) → claim_from worker now lease [] h ≡ (none, h)
  unfolding claim_from
  claim_from-nil h = refl

  pub claim_from-missing :
      (ref : ℕ) (refs : List ℕ) (h : Heap)
      → get_elem? h ref ≡ none
      → claim_from worker now lease (ref ∷ refs) h ≡ claim_from worker now lease refs h
  unfolding claim_from
  claim_from-missing ref refs h e = ground arith

  pub claim_from-taken :
      (ref : ℕ) (refs : List ℕ) (h : Heap) {t : BackgroundTask}
      → get_elem? h ref ≡ some t
      → (claim_one worker now lease t).0 ≡ true
      → claim_from worker now lease (ref ∷ refs) h
        ≡ (some ref, set h ref (claim_one worker now lease t).1)
  unfolding claim_from
  claim_from-taken ref refs h e taken = ground arith

  pub claim_from-idle :
      (ref : ℕ) (refs : List ℕ) (h : Heap) {t : BackgroundTask}
      → get_elem? h ref ≡ some t
      → (claim_one worker now lease t).0 ≡ false
      → claim_from worker now lease (ref ∷ refs) h
        ≡ claim_from worker now lease refs (set h ref (claim_one worker now lease t).1)
  unfolding claim_from
  claim_from-idle ref refs h e idle = ground arith

  -- The claim loop hands out at most one object, and that one gains an attempt.
  pub claim_from-Advances :
      (refs : List ℕ) (h : Heap)
      → All IsValid h
      → Advances
          (grant (claim_from worker now lease refs h).0)
          h
          (claim_from worker now lease refs h).1
  claim_from-Advances [] h valid = rw claim_from-nil (Advances-refl h)
  claim_from-Advances (ref ∷ refs) h valid = elim (Option-cases (get_elem? h ref)) [
    | inl missing ↦ rw (claim_from-missing ref refs h missing) (claim_from-Advances refs h valid)
    | inr (t, e) ↦
        let u : BackgroundTask = (claim_one worker now lease t).1 in
        let ok_t = All-get_elem? IsValid h ref valid e in
        elim (Bool-cases (claim_one worker now lease t).0) [
          | inl taken ↦ rw (claim_from-taken ref refs h e taken) (granted_set h ref e ok_t taken)
          | inr idle ↦
              let kept =
                All-set IsValid h ref u valid (Change-IsValid (by_claim worker now lease) ok_t) in
              rw (claim_from-idle ref refs h e idle) (
                Advances-trans no_grants (grant (claim_from worker now lease refs (set h ref u)).0)
                  (grant (claim_from worker now lease refs (set h ref u)).0) h (set h ref u)
                  (claim_from worker now lease refs (set h ref u)).1 (λ r. omega arith)
                  (Advances-set h ref e (Change-SameTask ok_t (by_claim worker now lease)))
                  (claim_from-Advances refs (set h ref u) kept))
        ]
  ]
