-- ===== src/Orchestration/Replies.antt =====
-- What the supervisor makes of a run's messages and structured response (app/orchestration/
-- supervisor.py, SupervisorRuntime._adapt; MainAgentResponse of app/orchestration/schemas.py).
use Prim.Native.String.{◌++◌ as join_text}
use office_mult_agent.Base.{
  String, Bool, Option, none, some, List, [], ◌∷◌, reverse, string_eq, pair_eq, if◌then◌else◌,
  type_error, Result, ok, err,
}
use office_mult_agent.Base.Text.{is_empty}
use office_mult_agent.Value.{
  Value, Fields, Items, str, obj, arr, field, end, item, nil, get_field, to_str,
}
use office_mult_agent.Memories.{Formats}
use office_mult_agent.Base.Text.{sort_names}
use office_mult_agent.Api.Assistant.{GraphResult}
use office_mult_agent.Orchestration.Intent.{
  Intent, classify_intent, report_submission, meeting_review, chart_generation, report_export,
  memory_management, composite_task, daily_report, weekly_report, meeting_minutes, email_polish,
  file_analysis, knowledge_qa, general_chat,
}
use office_mult_agent.Orchestration.Approval.{is_truthy}

-- What the code calls: `str.lower`, `str` and `json.dumps` of a value that is no text, and the
-- formats of the memory service.
pub record Printing : Type 0 where
  pub lower : String → String
  pub repr : Value → String
  pub dumps : Value → String
  pub formats : Formats

-- A message of the conversation, with its content.
pub data Message : Type 0 where
  human ai : (content : Value) → Message
  other_message : Message

-- MainAgentResponse, with its dump
pub record MainAgentResponse : Type 0 where
  pub status : String
  pub summary : String
  pub warnings : List String
  pub dump : Fields

pub data Structured : Type 0 where
  response : MainAgentResponse → Structured
  fields : Fields → Structured
  absent : Structured

-- What a run of the graph gives back.
pub record RawResult : Type 0 where
  pub messages : List Message
  pub structured : Structured
  pub todos : Option Value
  pub files : List String
  pub interrupted : Bool

abbrev pub intent_name : Intent → String
intent_name report_submission = "report_submission"
intent_name meeting_review = "meeting_review"
intent_name chart_generation = "chart_generation"
intent_name report_export = "report_export"
intent_name memory_management = "memory_management"
intent_name composite_task = "composite_task"
intent_name daily_report = "daily_report"
intent_name weekly_report = "weekly_report"
intent_name meeting_minutes = "meeting_minutes"
intent_name email_polish = "email_polish"
intent_name file_analysis = "file_analysis"
intent_name knowledge_qa = "knowledge_qa"
intent_name general_chat = "general_chat"

abbrev pub names_value : List String → Items
names_value [] = nil
names_value (s ∷ ss) = item (str s) (names_value ss)

abbrev pub or_value : Option Value → Value → Value
or_value none v = v
or_value (some v) w = v

abbrev pub characters : String → List String
characters String.[] = []
characters (String.◌∷◌ c s) = String.◌∷◌ c "" ∷ characters s

abbrev pub keys_of : Fields → List String
keys_of end = []
keys_of (field k v rest) = k ∷ keys_of rest

-- `a or b`, for texts
abbrev pub or_else_text : String → String → String
or_else_text a b = if is_empty a then b else a

module _ (p : Printing) where
  unfoldable pub original_message : List Message → String
  original_message [] = ""
  original_message (human content ∷ messages) = to_str p.repr content
  original_message (ai content ∷ messages) = original_message messages
  original_message (other_message ∷ messages) = original_message messages

  abbrev pub text_content : Value → String
  text_content (str s) = s
  text_content v = p.dumps v

  -- The newest message of an agent that says something.
  unfoldable pub last_text : List Message → String
  last_text [] = ""
  last_text (human content ∷ older) = last_text older
  last_text (other_message ∷ older) = last_text older
  last_text (ai content ∷ older) =
      let rest = last_text older in if is_truthy content then text_content content else rest

  unfoldable pub final_text : List Message → String
  unfolding last_text
  final_text messages = last_text (reverse messages)

  abbrev pub texts : Items → List String
  texts nil = []
  texts (item v rest) = to_str p.repr v ∷ texts rest

  -- `[str(item) for item in v]`
  abbrev pub each_text : Value → Result (List String)
  each_text (arr items) = ok (texts items)
  each_text (str s) = ok (characters s)
  each_text (obj d) = ok (keys_of d)
  each_text _ = err (type_error "object is not iterable")

  -- The part of the answer that the graph's structured response determines: the status, the message,
  -- the warnings and the payload.
  pub record Reply : Type 0 where
    pub status : String
    pub message : String
    pub warnings : List String
    pub payload : Fields

  abbrev pub reply_of_fields : RawResult → Fields → Result (List String) → Result Reply
  reply_of_fields raw d (err e) = err e
  reply_of_fields raw d (ok warnings) = ok (record {
    status = to_str p.repr (or_value (get_field "status" d) (str "completed"));
    message = to_str p.repr (or_value (get_field "summary" d) (str (final_text raw.messages)));
    warnings = warnings;
    payload = d;
  })

  abbrev pub reply_of : RawResult → Structured → Result Reply
  reply_of raw (response r) =
      ok
        (record { status = r.status; message = r.summary; warnings = r.warnings; payload = r.dump })
  reply_of raw (fields d) =
      reply_of_fields raw d (each_text (or_value (get_field "warnings" d) (arr nil)))
  reply_of raw absent = ok (record {
    status = "completed";
    message = final_text raw.messages;
    warnings = [];
    payload = field "answer" (str (final_text raw.messages)) (
        field "todos" (or_value raw.todos (arr nil))
          (field "files" (arr (names_value (sort_names raw.files))) end));
  })

  abbrev pub done_message : Intent → String
  done_message intent = join_text (intent_name intent) " 任务已处理。"

  abbrev pub answer_of : RawResult → Intent → Result Reply → Result GraphResult
  answer_of raw intent (err e) = err e
  answer_of raw intent (ok reply) = ok (record {
    interrupted = raw.interrupted;
    intent = intent_name intent;
    status = if raw.interrupted then "awaiting_approval" else reply.status;
    message = or_else_text reply.message (done_message intent);
    warnings = reply.warnings;
    result = reply.payload;
    subagent_result = reply.payload;
  })

  unfoldable pub adapt : RawResult → String → Result GraphResult
  unfolding original_message final_text
  adapt raw fallback_message =
      answer_of raw
        (classify_intent p.lower (or_else_text fallback_message (original_message raw.messages)))
        (reply_of raw raw.structured)
