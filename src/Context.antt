-- ===== src/Context.antt =====
-- The trusted request context (app/schemas/assistant.py, RequestContext), the permission guard
-- (app/services/permissions.py) and the audit trail (app/services/audit.py).
pub mod Access
use office_mult_agent.Base.{
  ℕ, String, Bool, true, false, not, Option, none, some, List, [], ◌∷◌, ◌++◌, ◌==◌, string_eq,
  contains, Error, permission_error, Result, ok, err, Exec, raise_if,
}

pub record RequestContext : Type 0 where
  pub request_id : String
  pub thread_id : String
  pub tenant_id : String
  pub operator_id : String
  pub employee_id : Option String
  pub department_id : Option String
  pub role_ids : List String
  -- a set of scopes, listed
  pub permission_scopes : List String
  pub locale : String
  pub timezone : String
  pub trace_id : String

-- The context that a model's defaults give, with the fields that a caller passes.
abbrev pub request_context : String → String → String → RequestContext
request_context thread_id tenant_id operator_id = record {
  request_id = "";
  thread_id = thread_id;
  tenant_id = tenant_id;
  operator_id = operator_id;
  employee_id = none;
  department_id = none;
  role_ids = [];
  permission_scopes = [];
  locale = "zh-CN";
  timezone = "Asia/Shanghai";
  trace_id = "";
}

-- PermissionService.require; the message names the scope.
unfoldable pub require : {S : Type 0} → RequestContext → String → Exec S (Unit {0})
require context scope =
    raise_if (not (contains context.permission_scopes scope)) (permission_error scope)

pub record AuditRecord : Type 0 where
  pub action : String
  pub tenant_id : String
  pub operator_id : String
  pub target_id : String

-- AuditService.record without a database: the record goes to the end of the list.
unfoldable pub audit_record : String → RequestContext → String → List AuditRecord → List AuditRecord
audit_record action context target_id records =
    records
    ++ record {
      action = action;
      tenant_id = context.tenant_id;
      operator_id = context.operator_id;
      target_id = target_id;
    }
      ∷ []
