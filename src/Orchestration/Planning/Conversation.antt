-- ===== src/Orchestration/Planning/Conversation.antt =====
-- How far a conversation under the budget (app/orchestration/middleware.py) can go.
use office_mult_agent.Base.{
  ℕ, ◌+◌, ◌≤◌, ◌<◌, String, true, Option, some, List, [], ◌∷◌, ◌++◌, length, length-filter-le, leb,
  leb→le, In, ◌≡◌, ◌⊎◌, inl, inr, refl, sym, ap, ◌∙◌, arith, string_eq, option_eq, ◌==◌, ==_iff,
  Bool-cases,
}
use office_mult_agent.Orchestration.Planning.{
  Message, ai, calls_of, count_named, count_tool_calls, Tool, ModelRequest, PlanningBudget,
  limited_request,
}
use office_mult_agent.Orchestration.Planning.Budget.{offers, true-ne-false, limited_request-no_task}

-- A conversation in which the model calls only tools that its limited request offers, at most
-- `width` of them in one message.
pub data Conversation (lower : String → String) (b : PlanningBudget) (tools : List Tool) (width : ℕ)
    : List Message → Type 0 where
  start : Conversation lower b tools width []
  other :
      (messages : List Message) (m : Message)
      → Conversation lower b tools width messages
      → calls_of m ≡ []
      → Conversation lower b tools width (messages ++ m ∷ [])
  reply :
      (messages : List Message) (text : String) (calls : List (Option String))
      (system_message : Option String)
      → Conversation lower b tools width messages
      → ((name : String)
          → In (some name) calls
          → offers name
              (limited_request lower b (record {
                messages = messages;
                tools = tools;
                system_message = system_message;
              })).tools
            ≡ true)
      → length calls ≤ width
      → Conversation lower b tools width (messages ++ ai text calls ∷ [])

count-append :
    (name : String) (xs ys : List Message)
    → count_tool_calls (xs ++ ys) name ≡ count_tool_calls xs name + count_tool_calls ys name
unfolding count_tool_calls
count-append name [] ys = omega arith
count-append name (x ∷ xs) ys = omega (arith, count-append name xs ys)

not-In→count :
    (name : String) (calls : List (Option String))
    → ¬ In (some name) calls
    → count_named name calls ≡ 0
not-In→count name [] h = refl
not-In→count name (c ∷ calls) h = elim (Bool-cases (c == some name)) [
  | inl same ↦ absurd (h (inl (sym ((==_iff c (some name)).0 same))))
  | inr differs ↦ rw differs (not-In→count name calls (λ m. h (inr m)))
]

-- A message of the model delegates only within the budget, and no more than its width.
reply-count :
    (lower : String → String) (b : PlanningBudget) (request : ModelRequest)
    (calls : List (Option String))
    → ((name : String)
        → In (some name) calls
        → offers name (limited_request lower b request).tools ≡ true)
    → (count_named "task" calls ≡ 0)
      ⊎ (count_tool_calls request.messages "task" < b.max_delegations)
reply-count lower b request calls offered =
    let count = count_tool_calls request.messages "task" in
    elim (Bool-cases (leb b.max_delegations count)) [
      | inl full ↦
          let withheld =
            limited_request-no_task lower b request (inl (leb→le b.max_delegations count full)) in
          inl (not-In→count "task" calls (λ m. true-ne-false (sym (offered "task" m) ∙ withheld)))
      | inr room ↦ inr (ground (arith, room))
    ]

-- In a conversation in which the model calls only tools that it was offered, no more than `width` of them in
-- one message, and with a budget of at least one delegation, the delegations stay below the budget and the
-- width together, so the budget is exceeded only by what one message calls at once.
pub delegations-lt :
    (lower : String → String) (b : PlanningBudget) (tools : List Tool) (width : ℕ)
    (messages : List Message)
    → 1 ≤ b.max_delegations
    → Conversation lower b tools width messages
    → count_tool_calls messages "task" < b.max_delegations + width
unfolding count_tool_calls
delegations-lt lower b tools width _ one start = omega (arith, one)
delegations-lt lower b tools width _ one (other messages m talk quiet) = omega (
  arith,
  count-append "task" messages (m ∷ []),
  ap (count_named "task") quiet,
  delegations-lt lower b tools width messages one talk,
)
delegations-lt lower b tools width _ one
      (reply messages text calls system_message talk offered few) =
    let request : ModelRequest = record {
      messages = messages;
      tools = tools;
      system_message = system_message;
    } in
    let added = count-append "task" messages (ai text calls ∷ []) in
    elim (reply-count lower b request calls offered) [
      | inl nothing ↦
          omega (arith, added, nothing, delegations-lt lower b tools width messages one talk)
      | inr room ↦ omega (arith, added, room, few, length-filter-le (λ c. c == some "task") calls)
    ]
