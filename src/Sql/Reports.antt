-- ===== src/Sql/Reports.antt =====
-- SqlAlchemyReportRepository and SqlAlchemyAuditRepository (app/repositories/persistence.py) over
-- the tables reports and audit_logs.
pub mod Isolation
use office_mult_agent.Base.{
  ℕ, ◌+◌, String, Bool, ◌&&◌, Option, none, some, List, [], ◌∷◌, ◌++◌, ◌==◌, string_eq, filter,
  if◌then◌else◌, Result, ok, err, Exec, key_error, value_error,
}
use office_mult_agent.Value.{Fields}
use office_mult_agent.Context.{RequestContext}
use office_mult_agent.Reports.Draft.{ReportDraft, ReportStatus}
use office_mult_agent.Sql.Rows.{scalar_one_or_none, row_at, change_where}

-- `draft.model_dump(mode="json")`, and `ReportDraft.model_validate`, which may raise a ValueError.
pub record Codec : Type 0 where
  pub dump : ReportDraft → Fields
  pub validate : Fields → Result ReportDraft

pub record ReportRow : Type 0 where
  pub id : String
  pub tenant_id : String
  pub created_by : String
  pub report_date : String
  pub status : ReportStatus
  pub payload : Fields
  pub version : ℕ

abbrev pub id_of : ReportRow → String
id_of r = r.id

abbrev pub missing_context : String
missing_context = "trusted request context is required for persistent reports"

module _ (codec : Codec) where
  abbrev pub new_report : ReportDraft → RequestContext → ReportRow
  new_report d context = record {
    id = d.report_id;
    tenant_id = context.tenant_id;
    created_by = context.operator_id;
    report_date = d.report_date;
    status = d.status;
    payload = codec.dump d;
    version = 1;
  }

  abbrev pub overwrite_report : ReportDraft → ReportRow → ReportRow
  overwrite_report d r = record r {
    status = d.status;
    payload = codec.dump d;
    version = r.version + 1;
  }

  abbrev pub save_found :
      ReportDraft → RequestContext → Option ReportRow → Exec (List ReportRow) ReportDraft
  save_found d context none rows = (ok d, rows ++ new_report d context ∷ [])
  save_found d context (some r) rows =
      if r.tenant_id == context.tenant_id
      then (ok d, change_where (λ r. id_of r == d.report_id) (overwrite_report d) rows)
      else (err (key_error d.report_id), rows)

  unfoldable pub save_report_row :
      ReportDraft → Option RequestContext → Exec (List ReportRow) ReportDraft
  save_report_row d none rows = (err (value_error missing_context), rows)
  save_report_row d (some context) rows = save_found d context (row_at id_of d.report_id rows) rows

  abbrev pub validate_found : Result (Option ReportRow) → Result (Option ReportDraft)
  validate_found (err e) = err e
  validate_found (ok none) = ok none
  validate_found (ok (some r)) = elim (codec.validate r.payload) [
    | ok d ↦ ok (some d)
    | err e ↦ err e
  ]

  unfoldable pub get_report_row :
      String → Option RequestContext → List ReportRow → Result (Option ReportDraft)
  get_report_row report_id none rows = err (value_error missing_context)
  get_report_row report_id (some context) rows = validate_found (
      scalar_one_or_none (filter (λ r. r.id == report_id && r.tenant_id == context.tenant_id) rows))

pub record AuditLog : Type 0 where
  pub id : String
  pub tenant_id : String
  pub created_by : String
  pub action : String
  pub target_id : String
  pub trace_id : String

-- `uuid` is the row's id.
unfoldable pub audit_row : String → String → RequestContext → String → List AuditLog → List AuditLog
audit_row uuid action context target_id rows =
    rows
    ++ record {
      id = uuid;
      tenant_id = context.tenant_id;
      created_by = context.operator_id;
      action = action;
      target_id = target_id;
      trace_id = context.trace_id;
    }
      ∷ []
