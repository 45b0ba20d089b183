-- ===== src/Sql/Approvals.antt =====
-- SqlAlchemyApprovalRepository (app/repositories/persistence.py) over the table approval_tasks. A
-- decided row stays, and a new request is a new row.
pub mod Agreement
pub mod Refines
use office_mult_agent.Base.{
  ℕ, ◌+◌, String, Bool, ◌&&◌, Option, none, some, List, [], ◌∷◌, ◌++◌, ◌==◌, string_eq, triple_eq,
  filter, if◌then◌else◌, Result, ok, err, Exec, key_error,
}
use office_mult_agent.Context.{RequestContext}
use office_mult_agent.Approvals.{
  ApprovalRecord, ApprovalStatus, ApprovalKey, pending, approved, rejected, is_pending,
}
use office_mult_agent.Sql.Rows.{scalar_one_or_none, change_where, map_option}

pub record ApprovalTask : Type 0 where
  pub id : String
  pub tenant_id : String
  pub created_by : String
  pub target_type : String
  pub target_id : String
  pub status : ApprovalStatus
  pub comment : Option String
  pub version : ℕ

abbrev pub target_key : ApprovalTask → ApprovalKey
target_key r = (r.tenant_id, r.target_type, r.target_id)

-- `_to_record`
abbrev pub to_record : ApprovalTask → ApprovalRecord
to_record r = record {
  target_type = r.target_type;
  target_id = r.target_id;
  tenant_id = r.tenant_id;
  status = r.status;
  comment = r.comment;
}

-- The condition of the three queries.
abbrev pub is_pending_at : ApprovalKey → ApprovalTask → Bool
is_pending_at k r = target_key r == k && is_pending r.status

abbrev pub pending_row : ApprovalKey → List ApprovalTask → Result (Option ApprovalTask)
pending_row k rows = scalar_one_or_none (filter (is_pending_at k) rows)

abbrev pub new_approval : String → String → String → RequestContext → ApprovalTask
new_approval uuid target_type target_id context = record {
  id = uuid;
  tenant_id = context.tenant_id;
  created_by = context.operator_id;
  target_type = target_type;
  target_id = target_id;
  status = pending;
  comment = none;
  version = 1;
}

abbrev pub create_found :
    String
    → String
    → String
    → RequestContext
    → Result (Option ApprovalTask)
    → Exec (List ApprovalTask) ApprovalRecord
create_found uuid target_type target_id context (err e) rows = (err e, rows)
create_found uuid target_type target_id context (ok (some r)) rows = (ok (to_record r), rows)
create_found uuid target_type target_id context (ok none) rows =
    let r = new_approval uuid target_type target_id context in (ok (to_record r), rows ++ r ∷ [])

-- `uuid` is the new row's id, should there be one.
unfoldable pub create_pending_row :
    String → String → String → RequestContext → Exec (List ApprovalTask) ApprovalRecord
create_pending_row uuid target_type target_id context rows =
    create_found uuid target_type target_id context
      (pending_row (context.tenant_id, target_type, target_id) rows) rows

abbrev pub record_or_none : Result (Option ApprovalTask) → Result (Option ApprovalRecord)
record_or_none (err e) = err e
record_or_none (ok r) = ok (map_option to_record r)

unfoldable pub get_pending_row :
    String → String → RequestContext → List ApprovalTask → Result (Option ApprovalRecord)
get_pending_row target_type target_id context rows =
    record_or_none (pending_row (context.tenant_id, target_type, target_id) rows)

abbrev pub decide_record : Bool → Option String → ApprovalTask → ApprovalTask
decide_record granted comment r = record r {
  status = if granted then approved else rejected;
  comment = comment;
  version = r.version + 1;
}

-- The change of the selected row.
abbrev pub decide_found :
    ApprovalKey
    → Bool
    → Option String
    → Result (Option ApprovalTask)
    → Exec (List ApprovalTask) ApprovalRecord
decide_found k granted comment (err e) rows = (err e, rows)
decide_found k granted comment (ok none) rows = (err (key_error k.2), rows)
decide_found k granted comment (ok (some r)) rows = (
  ok (to_record (decide_record granted comment r)),
  change_where (is_pending_at k) (decide_record granted comment) rows,
)

unfoldable pub decide_row :
    String
    → String
    → Bool
    → Option String
    → RequestContext
    → Exec (List ApprovalTask) ApprovalRecord
decide_row target_type target_id granted comment context rows =
    decide_found (context.tenant_id, target_type, target_id) granted comment
      (pending_row (context.tenant_id, target_type, target_id) rows) rows
