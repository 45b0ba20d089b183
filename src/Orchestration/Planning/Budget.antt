-- ===== src/Orchestration/Planning/Budget.antt =====
-- What the middleware (app/orchestration/middleware.py) lets the model call.
use office_mult_agent.Base.{
  ℕ, ◌≤◌, ◌<◌, String, Bool, true, false, some, List, [], ◌∷◌, any, leb, ◌≡◌, ◌≢◌, ◌⊎◌, inl, inr,
  refl, sym, ◌∙◌, arith, string_eq, option_eq, ◌==◌, ==_iff, Bool-cases,
}
use office_mult_agent.Orchestration.Planning.{
  count_tool_calls, Tool, tool_name, ModelRequest, PlanningBudget, without, requires_replan,
  limited_request,
}
use office_mult_agent.Orchestration.Planning.Replan.{failed_since, requires_replan-failed_since}

abbrev pub offers : String → List Tool → Bool
offers name tools = any (λ t. tool_name t == some name) tools

offers-without : (name : String) (tools : List Tool) → offers name (without name tools) ≡ false
offers-without name [] = refl
offers-without name (t ∷ tools) = ground (arith, offers-without name tools)

offers-without_other :
    (name other : String) (tools : List Tool)
    → other ≢ name
    → offers other (without name tools) ≡ offers other tools
offers-without_other name other [] h = refl
offers-without_other name other (t ∷ tools) h = ground (
  arith,
  h,
  offers-without_other name other tools,
  ==_iff (tool_name t) (some name),
  ==_iff (tool_name t) (some other),
)

-- Withholding one tool leaves the other withheld.
still_without :
    (name other : String) (tools : List Tool)
    → offers name tools ≡ false
    → offers name (without other tools) ≡ false
still_without name other [] h = refl
still_without name other (t ∷ tools) h = ground (arith, h, still_without name other tools)

lt_absurd : (m n : ℕ) → leb m n ≡ false → ¬ (m ≤ n)
lt_absurd m n h le = ground (arith, h, le)

le_absurd : (m n : ℕ) → leb m n ≡ true → ¬ (n < m)
le_absurd m n h lt = ground (arith, h, lt)

pub true-ne-false : ¬ (true ≡ false)
true-ne-false h = cc

module _ (lower : String → String) (b : PlanningBudget) (request : ModelRequest) where
  -- What becomes of each tool.
  limited_request-offers :
      let tools = (limited_request lower b request).tools in
      (b.max_delegations ≤ count_tool_calls request.messages "task" → offers "task" tools ≡ false)
      × (b.max_plan_updates ≤ count_tool_calls request.messages "write_todos"
          → offers "write_todos" tools ≡ false)
      × (failed_since lower request.messages ≡ true
          → count_tool_calls request.messages "write_todos" < b.max_plan_updates
          → offers "task" tools ≡ false)
      × ((name : String)
          → name ≢ "task"
          → name ≢ "write_todos"
          → offers name tools ≡ offers name request.tools)
  unfolding limited_request
  limited_request-offers =
      let delegations = count_tool_calls request.messages "task" in
      let plans = count_tool_calls request.messages "write_todos" in
      let all = request.tools in
      elim (Bool-cases (leb b.max_delegations delegations)) [
        | inl no_task ↦ elim (Bool-cases (leb b.max_plan_updates plans)) [
          | inl no_plan ↦
              rw (no_task, no_plan)
                (
                  λ h.
                      still_without "task" "write_todos" (without "task" all)
                        (offers-without "task" all),
                  λ h. offers-without "write_todos" (without "task" all),
                  λ failed left.
                      still_without "task" "write_todos" (without "task" all)
                        (offers-without "task" all),
                  λ name n1 n2.
                      offers-without_other "write_todos" name (without "task" all) n2
                      ∙ offers-without_other "task" name all n1,
                )
          | inr plan ↦
              rw (no_task, plan)
                (
                  λ h. offers-without "task" all,
                  λ h. absurd (lt_absurd b.max_plan_updates plans plan h),
                  λ failed left. offers-without "task" all,
                  λ name n1 n2. offers-without_other "task" name all n1,
                )
        ]
        | inr task ↦ elim (Bool-cases (leb b.max_plan_updates plans)) [
          | inl no_plan ↦
              rw (task, no_plan)
                (
                  λ h. absurd (lt_absurd b.max_delegations delegations task h),
                  λ h. offers-without "write_todos" all,
                  λ failed left. absurd (le_absurd b.max_plan_updates plans no_plan left),
                  λ name n1 n2. offers-without_other "write_todos" name all n2,
                )
          | inr plan ↦ elim (Bool-cases (requires_replan lower request.messages)) [
            | inl failed ↦
                rw (task, plan, failed)
                  (
                    λ h. absurd (lt_absurd b.max_delegations delegations task h),
                    λ h. absurd (lt_absurd b.max_plan_updates plans plan h),
                    λ since left. offers-without "task" all,
                    λ name n1 n2. offers-without_other "task" name all n1,
                  )
            | inr fine ↦
                rw (task, plan, fine)
                  (
                    λ h. absurd (lt_absurd b.max_delegations delegations task h),
                    λ h. absurd (lt_absurd b.max_plan_updates plans plan h),
                    λ since left. absurd (
                        true-ne-false (
                          sym since
                          ∙ sym (requires_replan-failed_since lower request.messages)
                          ∙ fine)),
                    λ name n1 n2. refl,
                  )
          ]
        ]
      ]

  -- The tool "task" is not offered to the model once the delegations are used up, nor while a failed
  -- delegation is not followed by a plan update and plan updates are left.
  pub limited_request-no_task :
      (b.max_delegations ≤ count_tool_calls request.messages "task")
        ⊎ ((failed_since lower request.messages ≡ true)
            × (count_tool_calls request.messages "write_todos" < b.max_plan_updates))
      → offers "task" (limited_request lower b request).tools ≡ false
  limited_request-no_task (inl spent) = limited_request-offers.0 spent
  limited_request-no_task (inr (failed, left)) = limited_request-offers.2 failed left

  -- The tool "write_todos" is not offered once the plan updates are used up.
  pub limited_request-no_plan :
      b.max_plan_updates ≤ count_tool_calls request.messages "write_todos"
      → offers "write_todos" (limited_request lower b request).tools ≡ false
  limited_request-no_plan = limited_request-offers.1

  -- Any other tool is offered exactly if the request offers it, whatever has happened.
  pub limited_request-other :
      (name : String)
      → name ≢ "task"
      → name ≢ "write_todos"
      → offers name (limited_request lower b request).tools ≡ offers name request.tools
  limited_request-other = limited_request-offers.3
