-- ===== src/Orchestration/Approval.antt =====
-- The approval of controlled actions: _approval_request and _decision_approved of
-- app/orchestration/worker_graphs.py, and how app/orchestration/supervisor.py answers the request
-- and reads which scope it needs.
use Prim.Native.String.{◌++◌ as join_text}
use office_mult_agent.Base.{
  ℕ, zero, suc, max, String, Bool, true, false, not, Option, none, some, List, [], ◌∷◌, ◌++◌,
  length, ◌==◌, string_eq, nat_eq, if◌then◌else◌, contains,
}
use office_mult_agent.Base.Text.{is_empty}
use office_mult_agent.Value.{
  Value, Fields, Items, str, num, bool, obj, arr, null, field, end, item, nil, get_field, as_str,
  as_bool, to_str,
}

-- What an interrupt shows.
unfoldable pub approval_request : String → Fields → Value
approval_request tool_name arguments = obj (
    field "action_requests"
      (arr (
        item
          (obj (
            field "name" (str tool_name) (
              field "args" (obj arguments) (
                field "description" (str (join_text "受控操作 " (join_text tool_name " 正在等待人工审核")))
                  end))))
          nil))
      (field "review_configs"
        (arr (
          item
            (obj (
              field "action_name" (str tool_name) (
                field "allowed_decisions" (arr (item (str "approve") (item (str "reject") nil)))
                  end)))
            nil))
        end))

abbrev pub is_approve : Option Value → Bool
is_approve (some (str type)) = type == "approve"
is_approve _ = false

-- `decisions[0]`, if it is a dict whose type is "approve"
abbrev pub first_approved : Items → Bool
first_approved (item (obj decision) rest) = is_approve (get_field "type" decision)
first_approved _ = false

abbrev pub list_approved : Option Value → Bool
list_approved (some (arr decisions)) = first_approved decisions
list_approved _ = false

unfoldable pub decision_approved : Value → Bool
decision_approved (obj value) = list_approved (get_field "decisions" value)
decision_approved _ = false

-- `bool(v)`
abbrev pub is_truthy : Value → Bool
is_truthy (str s) = not (is_empty s)
is_truthy (num n) = not (n == 0)
is_truthy (bool b) = b
is_truthy (obj end) = false
is_truthy (obj (field k v rest)) = true
is_truthy (arr nil) = false
is_truthy (arr (item v rest)) = true
is_truthy null = false

-- `str(resume.get("comment") or default)`
abbrev pub comment_or : (Value → String) → Option Value → String → String
comment_or repr none default = default
comment_or repr (some v) default = if is_truthy v then to_str repr v else default

abbrev pub one_decision : (Value → String) → Bool → Option Value → Fields
one_decision repr true comment = field "type" (str "approve") end
one_decision repr false comment =
    field "type" (str "reject") (field "message" (str (comment_or repr comment "用户拒绝执行")) end)

abbrev pub copies : ℕ → Value → Items
copies zero v = nil
copies (suc n) v = item v (copies n v)

-- The name of one action request, if it has one.
abbrev pub request_name : Value → List String
request_name (obj fields) = elim (get_field "name" fields) [
  | none ↦ []
  | some v ↦ elim (as_str v) [ none ↦ [] | some name ↦ name ∷ [] ]
]
request_name _ = []

abbrev pub request_names : Items → List String
request_names nil = []
request_names (item v rest) = request_name v ++ request_names rest

abbrev pub names_in : Option Value → List String
names_in (some (arr requests)) = request_names requests
names_in _ = []

abbrev pub interrupt_names : Value → List String
interrupt_names (obj value) = names_in (get_field "action_requests" value)
interrupt_names _ = []

-- The values of the snapshot's interrupts, in their order.
unfoldable pub pending_action_names : List Value → List String
pending_action_names [] = []
pending_action_names (v ∷ interrupts) = interrupt_names v ++ pending_action_names interrupts

-- The resume value that the graph gets, for a resume with a Boolean `approved`.
unfoldable pub resume_value : (Value → String) → Bool → Option Value → List Value → Value
unfolding pending_action_names
resume_value repr granted comment interrupts =
    let action_count = max 1 (length (pending_action_names interrupts)) in
    obj
      (field "decisions" (arr (copies action_count (obj (one_decision repr granted comment)))) end)

-- `payload.resume` as the graph gets it: any other resume is passed on as it is.
unfoldable pub adapt_resume : (Value → String) → Value → List Value → Value
unfolding resume_value
adapt_resume repr (obj resume) interrupts = elim (get_field "approved" resume) [
  | none ↦ obj resume
  | some v ↦ elim (as_bool v) [
    | none ↦ obj resume
    | some granted ↦ resume_value repr granted (get_field "comment" resume) interrupts
  ]
]
adapt_resume repr resume interrupts = resume

abbrev pub tool_scope : String → Option String
tool_scope name =
    if name == "review_report"
    then some "report:review"
    else if name == "submit_report"
    then some "report:submit"
    else if name == "review_meeting_minutes"
    then some "meeting:review"
    else if name == "send_meeting_minutes"
    then some "meeting:send"
    else none

-- The set of the scopes of the known names.
abbrev pub add_scope : Option String → List String → List String
add_scope none scopes = scopes
add_scope (some scope) scopes = if contains scopes scope then scopes else scope ∷ scopes

abbrev pub scopes_of : List String → List String
scopes_of [] = []
scopes_of (name ∷ names) = add_scope (tool_scope name) (scopes_of names)

abbrev pub only_scope : List String → String
only_scope (scope ∷ []) = scope
only_scope _ = "assistant:review"

unfoldable pub required_scope : List String → String
required_scope names = only_scope (scopes_of names)
