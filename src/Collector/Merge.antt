-- ===== src/Collector/Merge.antt =====
-- collect and _safe_collect (app/services/work_events.py).
use Prim.Native.String.{◌++◌ as join_text}
use office_mult_agent.Base.{
  ℕ, String, Bool, true, false, ◌||◌, Option, List, [], ◌∷◌, ◌++◌, length, string_eq, if◌then◌else◌,
  Error, timeout_error, is_value_error, is_runtime_error, Result, ok, err,
}
use office_mult_agent.Base.Dict.{Dict, insert}
use office_mult_agent.Base.Text.{or_text}
use office_mult_agent.Value.{Fields}
use office_mult_agent.Context.{RequestContext}
use office_mult_agent.Events.{WorkEvent}
use office_mult_agent.SensitiveData.{Patterns}
use office_mult_agent.Meetings.Service.{Minutes, list_for_report}
use office_mult_agent.Collector.Sources.{
  Printing, gitlab_event, task_event, map_from, meeting_events,
}
use office_mult_agent.Collector.Email.{EmailActivity, email_events}

pub record WorkEventCollection : Type 0 where
  pub events : List WorkEvent
  pub source_warnings : List String
  pub source_counts : Dict String ℕ

-- What the collector calls and this repository does not implement: the three connectors, by
-- employee and days, and pydantic's validation of an EmailActivity.
pub record Sources : Type 0 where
  pub printing : Printing
  pub patterns : Patterns
  pub validate : Fields → Option EmailActivity
  pub list_gitlab : String → String → String → RequestContext → Result (List Fields)
  pub list_tasks : String → RequestContext → Result (List Fields)
  pub list_email : String → String → String → RequestContext → Result (List Fields)

-- What one source gives: its events and its warnings.
abbrev pub Gathered : Type 0
Gathered = List WorkEvent × List String

abbrev pub then_map : {A B : Type 0} → (A → B) → Result A → Result B
then_map f (ok a) = ok (f a)
then_map f (err e) = err e

-- `except (RuntimeError, TimeoutError, ValueError)`
abbrev pub is_timeout : Error → Bool
is_timeout timeout_error = true
is_timeout _ = false

abbrev pub is_tolerated : Error → Bool
is_tolerated e = is_runtime_error e || is_timeout e || is_value_error e

abbrev pub unavailable : String → List String
unavailable source = join_text source " 数据源暂不可用，日报已使用其他来源继续生成。" ∷ []

unfoldable pub safe_collect : String → Result Gathered → Result (String × Gathered)
safe_collect source (ok (events, warnings)) = ok (source, (events, warnings))
safe_collect source (err e) =
    if is_tolerated e then ok (source, ([], unavailable source)) else err e

-- `asyncio.gather`: all the results, or an exception.
abbrev pub gather : {A : Type 0} → List (Result A) → Result (List A)
gather [] = ok []
gather (err e ∷ rs) = err e
gather (ok a ∷ rs) = then_map (λ rest. a ∷ rest) (gather rs)

-- The loop over the results of the sources.
unfoldable pub merge : List (String × Gathered) → WorkEventCollection → WorkEventCollection
merge [] c = c
merge ((source, (events, warnings)) ∷ rest) c = merge rest (record {
  events = c.events ++ events;
  source_warnings = c.source_warnings ++ warnings;
  source_counts = insert source (length events) c.source_counts;
})

abbrev pub nothing : WorkEventCollection
nothing = record { events = []; source_warnings = []; source_counts = [] }

module _ (o : Sources) (date_from date_to : String) (context : RequestContext) (s : Minutes) where
  abbrev pub employee : String
  employee = or_text context.employee_id context.operator_id

  abbrev pub collect_gitlab : Result Gathered
  collect_gitlab =
      then_map (λ xs. (map_from (gitlab_event o.printing) 0 xs, []))
        (o.list_gitlab employee date_from date_to context)

  abbrev pub collect_tasks : Result Gathered
  collect_tasks =
      then_map (λ xs. (map_from (task_event o.printing) 0 xs, [])) (o.list_tasks employee context)

  abbrev pub collect_email : Result Gathered
  collect_email =
      then_map (email_events o.validate o.patterns o.printing.decimal)
        (o.list_email employee date_from date_to context)

  abbrev pub collect_meetings : Result Gathered
  collect_meetings =
      ok
        (meeting_events o.printing.decimal o.patterns (list_for_report date_from date_to context s))

  unfoldable pub collect : Result WorkEventCollection
  unfolding safe_collect merge
  collect =
      then_map (λ rs. merge rs nothing)
        (gather (
          safe_collect "gitlab" collect_gitlab
          ∷ safe_collect "task" collect_tasks
          ∷ safe_collect "email" collect_email
          ∷ safe_collect "meeting" collect_meetings
          ∷ []))
