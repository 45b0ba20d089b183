-- ===== src/Orchestration/Planning/Replan.antt =====
-- When a failed delegation calls for a new plan (app/orchestration/middleware.py).
use office_mult_agent.Base.{
  ℕ, suc, ◌≤◌, String, Bool, true, false, not, ◌&&◌, ◌||◌, List, [], ◌∷◌, any, ltb, lt→ltb,
  not-lt→ltb, Bool-cases, inl, inr, ◌≡◌, refl, arith, string_eq, option_eq,
}
use office_mult_agent.Orchestration.Planning.{
  Message, human, system, ai, tool, is_plan, is_failure, latest, requires_replan,
}

module _ (lower : String → String) where
  -- A delegation has failed, and no plan update follows.
  abbrev pub failed_since : List Message → Bool
  failed_since [] = false
  failed_since (m ∷ messages) =
      failed_since messages || (is_failure lower m && not (any is_plan messages))

  failure-not-plan : (m : Message) → is_failure lower m ≡ true → is_plan m ≡ false
  unfolding is_failure
  failure-not-plan (tool text) h = refl
  failure-not-plan (human text) h = refl
  failure-not-plan (system text) h = refl
  failure-not-plan (ai text calls) h = ground (arith, h)

  latest-failed_since :
      (messages : List Message) (index failure plan : ℕ)
      → failure ≤ index
      → plan ≤ index
      → ltb
          (latest lower index (failure, plan) messages).1
          (latest lower index (failure, plan) messages).0
        ≡ (failed_since messages || (ltb plan failure && not (any is_plan messages)))
  latest-failed_since [] index failure plan hf hp = ground arith
  latest-failed_since (m ∷ messages) index failure plan hf hp =
      elim (Bool-cases (is_failure lower m)) [
        | inl failed ↦
            rw (failed, failure-not-plan m failed)
              (ground (
                arith,
                latest-failed_since messages (suc index) (suc index) plan (omega arith)
                    (omega (arith, hp)),
                lt→ltb plan (suc index) (omega (arith, hp)),
              ))
        | inr fine ↦ elim (Bool-cases (is_plan m)) [
          | inl planned ↦
              rw (fine, planned)
                (ground (
                  arith,
                  latest-failed_since messages (suc index) failure (suc index) (omega (arith, hf))
                      (omega arith),
                  not-lt→ltb (suc index) failure (omega (arith, hf)),
                ))
          | inr other ↦
              rw (fine, other)
                (ground (
                  arith,
                  latest-failed_since messages (suc index) failure plan (omega (arith, hf))
                      (omega (arith, hp)),
                ))
        ]
      ]

  -- A new plan is required exactly when some delegation has failed and no plan update follows it.
  pub requires_replan-failed_since :
      (messages : List Message) → requires_replan lower messages ≡ failed_since messages
  unfolding requires_replan
  requires_replan-failed_since messages = ground (arith, latest-failed_since messages 0 0 0)
