-- ===== src/Orchestration/Graphs/Report.antt =====
-- build_report_subgraph (app/orchestration/worker_graphs.py).
use office_mult_agent.Base.{
  String, Bool, Option, none, some, List, [], ◌∷◌, if◌then◌else◌, Result, ok, err, Exec, pure, lift,
  ◌>>=◌,
}
use office_mult_agent.Base.Text.{is_empty}
use office_mult_agent.Value.{Value, Fields, str, bool, field, end}
use office_mult_agent.Context.{RequestContext}
use office_mult_agent.Events.{WorkEvent}
use office_mult_agent.Meetings.Service.{Minutes}
use office_mult_agent.Reports.Draft.{ReportDraft, ReportType, daily, weekly}
use office_mult_agent.Reports.Service.{
  Outside, Reports, dump_submission, generate_daily, generate_weekly, review, submit,
}
use office_mult_agent.Collector.Merge.{Sources, collect, then_map}
use office_mult_agent.Orchestration.Approval.{approval_request, decision_approved}
use office_mult_agent.Orchestration.Graphs.{Progress, waiting, completed, stopped}

pub data ReportOperation : Type 0 where
  draft_op review_op submit_op : ReportOperation

pub record ReportTaskSpec : Type 0 where
  pub operation : ReportOperation
  pub report_date : Option String
  pub report_type : ReportType
  pub events : List WorkEvent
  pub report_id : Option String
  pub approved : Bool
  pub comment : Option String

pub record ReportDependencies : Type 0 where
  pub service : Outside
  pub sources : Sources
  -- `result.model_dump(mode="json")`
  pub dump : ReportDraft → Fields
  -- `(date.fromisoformat(day) + timedelta(days=6)).isoformat()`
  pub six_days_on : String → Result String

-- A text that is there and not empty.
abbrev pub given : Option String → Option String
given none = none
given (some s) = if is_empty s then none else some s

abbrev pub then_bind : {A B : Type 0} → Result A → (A → Result B) → Result B
then_bind (ok a) f = f a
then_bind (err e) f = err e

abbrev pub last_day : ReportDependencies → ReportType → String → Result String
last_day d daily date = ok date
last_day d weekly date = d.six_days_on date

-- The events of the task, or else the collected ones with their warnings.
abbrev pub events_for :
    ReportDependencies
    → Minutes
    → ReportTaskSpec
    → String
    → List WorkEvent
    → RequestContext
    → Result (List WorkEvent × List String)
events_for d minutes spec date [] context = then_bind (last_day d spec.report_type date) (λ date_to.
    then_map (λ c. (c.events, c.source_warnings)) (collect d.sources date date_to context minutes))
events_for d minutes spec date (e ∷ events) context = ok (e ∷ events, [])

module _ (d : ReportDependencies) (uuid : String) (minutes : Minutes)
    (context : RequestContext) where
  abbrev pub generate_as :
      ReportType → String → List WorkEvent × List String → Exec Reports ReportDraft
  generate_as weekly date (events, warnings) =
      generate_weekly d.service uuid date events context warnings
  generate_as daily date (events, warnings) =
      generate_daily d.service uuid date events context warnings

  unfoldable pub prepare_draft : ReportTaskSpec → Exec Reports Progress
  prepare_draft spec = elim (given spec.report_date) [
    | none ↦ pure (stopped "failed" "报告草稿缺少 report_date。")
    | some date ↦ do
      gathered ← lift (events_for d minutes spec date spec.events context)
      result ← generate_as spec.report_type date gathered
      pure (completed (d.dump result))
  ]

module _ (d : ReportDependencies) (context : RequestContext) where
  abbrev pub review_approved : ReportTaskSpec → String → Exec Reports Progress
  review_approved spec report_id = do
    result ← review d.service report_id spec.approved spec.comment context
    pure (completed (d.dump result))

  unfoldable pub review_node : ReportTaskSpec → Option Value → Exec Reports Progress
  review_node spec resume = elim (given spec.report_id) [
    | none ↦ pure (stopped "failed" "报告审核缺少 report_id。")
    | some report_id ↦ elim resume [
      | none ↦ pure (
          waiting (
            approval_request "review_report"
              (field "report_id" (str report_id) (field "approved" (bool spec.approved) end))))
      | some decision ↦
          if decision_approved decision
          then review_approved spec report_id
          else pure (stopped "blocked" "用户拒绝执行报告审核。")
    ]
  ]

  abbrev pub submit_approved : String → Exec Reports Progress
  submit_approved report_id = do
    result ← submit d.service report_id context
    pure (completed (dump_submission result))

  unfoldable pub submit_node : ReportTaskSpec → Option Value → Exec Reports Progress
  submit_node spec resume = elim (given spec.report_id) [
    | none ↦ pure (stopped "failed" "报告提交缺少 report_id。")
    | some report_id ↦ elim resume [
      | none ↦
          pure (waiting (approval_request "submit_report" (field "report_id" (str report_id) end)))
      | some decision ↦
          if decision_approved decision
          then submit_approved report_id
          else pure (stopped "blocked" "用户拒绝提交报告。")
    ]
  ]

-- The edges from "parse_report_task" on.
unfoldable pub report_graph :
    ReportDependencies
    → String
    → Minutes
    → ReportTaskSpec
    → Option Value
    → RequestContext
    → Exec Reports Progress
unfolding prepare_draft review_node submit_node
report_graph d uuid minutes spec resume context = elim spec.operation [
  | draft_op ↦ prepare_draft d uuid minutes context spec
  | review_op ↦ review_node d context spec resume
  | submit_op ↦ submit_node d context spec resume
]
