-- ===== src/Tasks/Claim.antt =====
-- What claim_next_task hands out, over the whole dict (app/services/runtime_state.py).
use office_mult_agent.Base.{
  ℕ, String, Bool, false, not, ◌&&◌, ◌||◌, Option, none, some, List, [], ◌∷◌, ◌≡◌, refl, ap,
  fun_ext, inl, inr, arith, ltb, get_elem?, set, if◌then◌else◌, Bool-cases, Option-cases, ==_iff,
  ◌==◌, nat_eq, get_elem?-set_self, get_elem?-set_ne, All, All-set, All-get_elem?,
}
use office_mult_agent.Tasks.Object.{BackgroundTask, is_due, stale_running, claim_one}
use office_mult_agent.Tasks.Repository.{claim_from}
use office_mult_agent.Tasks.Lifecycle.{IsValid, by_claim, Change-IsValid, claim_one_settled}

-- The test that the loop makes, said on its own: due, not cancelled, and with an attempt left if
-- its last worker went silent.
abbrev pub claimable : ℕ → ℕ → BackgroundTask → Bool
claimable now lease t =
    is_due now lease t
    && (not t.cancel_requested
        && (not (stale_running now lease t) || ltb t.attempts t.max_attempts))

abbrev pub offered : ℕ → ℕ → List BackgroundTask → ℕ → Bool
offered now lease heap ref = elim (get_elem? heap ref) [
  | none ↦ false
  | some t ↦ claimable now lease t
]

-- The first reference that passes a test.
abbrev pub first : (ℕ → Bool) → List ℕ → Option ℕ
first p [] = none
first p (r ∷ rs) = if p r then some r else first p rs

claim_one-claimable :
    (worker : String) (now lease : ℕ) (t : BackgroundTask)
    → (claim_one worker now lease t).0 ≡ claimable now lease t
unfolding claim_one
claim_one-claimable worker now lease t = ground arith

module _ (worker : String) (now lease : ℕ) where
  -- A round that hands nothing out changes no offer.
  offered-set :
      (heap : List BackgroundTask) (ref : ℕ) {t : BackgroundTask}
      → get_elem? heap ref ≡ some t
      → (claim_one worker now lease t).0 ≡ false
      → (x : ℕ)
      → offered now lease (set heap ref (claim_one worker now lease t).1) x
        ≡ offered now lease heap x
  offered-set heap ref {t} e idle x = elim (Bool-cases (ref == x)) [
    | inl same ↦
        let here : ref ≡ x = (==_iff ref x).0 same in
        ground (
          arith,
          here,
          get_elem?-set_self heap ref (claim_one worker now lease t).1 e,
          claim_one-claimable worker now lease t,
          claim_one-claimable worker now lease (claim_one worker now lease t).1,
          claim_one_settled worker now lease t idle,
        )
    | inr other ↦
        ground (arith, get_elem?-set_ne heap ref x (claim_one worker now lease t).1, ==_iff ref x)
  ]

  pub claim_from-first :
      (refs : List ℕ) (heap : List BackgroundTask)
      → (claim_from worker now lease refs heap).0 ≡ first (offered now lease heap) refs
  unfolding claim_from
  claim_from-first [] heap = refl
  claim_from-first (ref ∷ refs) heap = elim (Option-cases (get_elem? heap ref)) [
    | inl missing ↦ ground (arith, claim_from-first refs heap)
    | inr (t, e) ↦ elim (Bool-cases (claim_one worker now lease t).0) [
      | inl taken ↦ ground (arith, claim_one-claimable worker now lease t)
      | inr idle ↦ ground (
        arith,
        claim_one-claimable worker now lease t,
        claim_from-first refs (set heap ref (claim_one worker now lease t).1),
        ap (λ p. first p refs) (fun_ext (offered-set heap ref e idle)),
      )
    ]
  ]

  pub claim_from-All-IsValid :
      (refs : List ℕ) (heap : List BackgroundTask)
      → All IsValid heap
      → All IsValid (claim_from worker now lease refs heap).1
  unfolding claim_from
  claim_from-All-IsValid [] heap v = v
  claim_from-All-IsValid (ref ∷ refs) heap v = elim (Option-cases (get_elem? heap ref)) [
    | inl missing ↦ ground (arith, claim_from-All-IsValid refs heap v)
    | inr (t, e) ↦
        let after : BackgroundTask = (claim_one worker now lease t).1 in
        let kept =
          All-set IsValid heap ref after v
            (Change-IsValid (by_claim worker now lease) (All-get_elem? IsValid heap ref v e)) in
        ground (arith, e, kept, claim_from-All-IsValid refs (set heap ref after) kept)
  ]
