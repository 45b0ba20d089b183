-- ===== src/Orchestration/Planning.antt =====
-- PlanningBudgetMiddleware (app/orchestration/middleware.py). `str.lower` is a parameter.
pub mod Replan
pub mod Budget
pub mod Conversation
use Prim.Native.String.{◌++◌ as join_text}
use office_mult_agent.Base.{
  ℕ, zero, suc, ◌+◌, String, Bool, true, false, not, ◌&&◌, ◌||◌, Option, none, some, List, [], ◌∷◌,
  ◌++◌, any, filter, length, ltb, leb, ◌==◌, string_eq, option_eq, if◌then◌else◌,
}
use office_mult_agent.Base.Text.{join, contains_text}
use office_mult_agent.Value.{Value, Fields, str, get_field, as_dict, as_str}

-- The messages that the code tells apart. A tool call is its name, if it has one.
pub data Message : Type 0 where
  human system : (text : String) → Message
  ai : (text : String) (calls : List (Option String)) → Message
  tool : (text : String) → Message

abbrev pub calls_of : Message → List (Option String)
calls_of (ai text calls) = calls
calls_of _ = []

abbrev pub count_named : String → List (Option String) → ℕ
count_named name calls = length (filter (λ c. c == some name) calls)

unfoldable pub count_tool_calls : List Message → String → ℕ
count_tool_calls [] name = 0
count_tool_calls (m ∷ messages) name =
    count_named name (calls_of m) + count_tool_calls messages name

-- A plan update, and a delegation that came back failed.
abbrev pub is_plan : Message → Bool
is_plan m = any (λ c. c == some "write_todos") (calls_of m)

abbrev pub failure_markers : List String
failure_markers =
    "\"status\": \"failed\"" ∷ "\"status\":\"failed\"" ∷ "\"status\": \"blocked\""
    ∷ "\"status\":\"blocked\"" ∷ "timeout" ∷ "error_code" ∷ []

-- A tool of the request: an object with a name, or a dict.
pub data Tool : Type 0 where
  base_tool : (name : String) → Tool
  schema : (fields : Fields) → Tool

abbrev pub function_name : Option Value → Option String
function_name none = none
function_name (some v) = elim (as_dict v) [
  | none ↦ none
  | some function ↦ elim (get_field "name" function) [ none ↦ none | some n ↦ as_str n ]
]

abbrev pub own_name : Fields → Option String
own_name fields = elim (get_field "name" fields) [ none ↦ none | some n ↦ as_str n ]

abbrev pub first_name : Option String → Option String → Option String
first_name (some name) other = some name
first_name none other = other

unfoldable pub tool_name : Tool → Option String
tool_name (base_tool name) = some name
tool_name (schema fields) =
    first_name (own_name fields) (function_name (get_field "function" fields))

pub record ModelRequest : Type 0 where
  pub messages : List Message
  pub tools : List Tool
  pub system_message : Option String

pub record PlanningBudget : Type 0 where
  pub max_delegations : ℕ
  pub max_plan_updates : ℕ

abbrev pub without : String → List Tool → List Tool
without name tools = filter (λ t. not (tool_name t == some name)) tools

abbrev pub system_text : ModelRequest → String
system_text request = elim request.system_message [ none ↦ "" | some text ↦ text ]

abbrev pub budget_notice : List String → String
budget_notice exhausted =
    join_text "\n\n运行预算已耗尽："
      (join_text (join "、" exhausted) "。不得继续调用对应工具；请基于已有结果返回 completed、partial 或 failed。")

abbrev pub replan_notice : String
replan_notice =
    "\n\n最近一次子任务返回 failed、blocked、timeout 或错误码。在继续委派前必须调用 write_todos：保留已完成项，标记失败项，补充替代步骤或明确终止条件。"

abbrev pub spent : PlanningBudget → List Message → Bool × Bool
spent b messages = (
  leb b.max_delegations (count_tool_calls messages "task"),
  leb b.max_plan_updates (count_tool_calls messages "write_todos"),
)

abbrev pub drop_if : Bool → String → List Tool → List Tool
drop_if b name tools = let rest = without name tools in if b then rest else tools

abbrev pub mention : Bool → String → List String
mention b text = if b then text ∷ [] else []

module _ (lower : String → String) where
  unfoldable pub is_failure : Message → Bool
  is_failure (tool text) = any (λ marker. contains_text marker (lower text)) failure_markers
  is_failure _ = false

  -- The loop, with each latest index as its successor, and 0 for the -1 of none.
  abbrev pub latest : ℕ → ℕ × ℕ → List Message → ℕ × ℕ
  latest index (failure, plan) [] = (failure, plan)
  latest index (failure, plan) (m ∷ messages) =
      latest (suc index)
        (if is_failure m then suc index else failure, if is_plan m then suc index else plan)
        messages

  -- `latest_failure > latest_plan`
  unfoldable pub requires_replan : List Message → Bool
  unfolding is_failure
  requires_replan messages = let (failure, plan) = latest 0 (0, 0) messages in ltb plan failure

  unfoldable pub limited_request : PlanningBudget → ModelRequest → ModelRequest
  unfolding requires_replan count_tool_calls tool_name
  limited_request b request =
      let (no_task, no_plan) = spent b request.messages in
      if no_task || no_plan
      then record request {
        tools = drop_if no_plan "write_todos" (drop_if no_task "task" request.tools);
        system_message = some (
            join_text (system_text request)
              (budget_notice (mention no_task "子 Agent 委派" ++ mention no_plan "计划更新")));
      }
      else if requires_replan request.messages
      then record request {
        tools = without "task" request.tools;
        system_message = some (join_text (system_text request) replan_notice);
      }
      else request
