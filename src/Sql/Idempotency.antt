-- ===== src/Sql/Idempotency.antt =====
-- SqlAlchemyIdempotencyRepository (app/repositories/runtime.py) over the table idempotency_records.
pub mod Refines
use office_mult_agent.Base.{
  ℕ, String, Bool, ◌&&◌, Option, none, some, List, [], ◌∷◌, ◌++◌, ◌==◌, string_eq, triple_eq,
  filter, is_some, if◌then◌else◌, Result, ok, err, Exec, integrity_error, runtime_error,
}
use office_mult_agent.Value.{Fields}
use office_mult_agent.Context.{RequestContext}
use office_mult_agent.Idempotency.{Scope}
use office_mult_agent.Sql.Rows.{scalar_one_or_none, insert_row}

pub record IdempotencyRecord : Type 0 where
  pub id : String
  pub tenant_id : String
  pub created_by : String
  pub operation : String
  pub idempotency_key : String
  pub status : String
  pub result : Option Fields

-- The columns of `uq_idempotency_scope`.
abbrev pub scope_key : IdempotencyRecord → Scope
scope_key r = (r.tenant_id, r.operation, r.idempotency_key)

-- The condition of the query in `get`.
abbrev pub is_completed_at : Scope → IdempotencyRecord → Bool
is_completed_at scope r = scope_key r == scope && r.status == "completed"

-- `record.result if record is not None else None`
abbrev pub result_of : Result (Option IdempotencyRecord) → Result (Option Fields)
result_of (err e) = err e
result_of (ok none) = ok none
result_of (ok (some r)) = ok r.result

unfoldable pub get_result :
    String → String → RequestContext → List IdempotencyRecord → Result (Option Fields)
get_result operation key context rows =
    result_of
      (scalar_one_or_none (filter (is_completed_at (context.tenant_id, operation, key)) rows))

abbrev pub completed_record : String → String → String → Fields → RequestContext → IdempotencyRecord
completed_record uuid operation key result context = record {
  id = uuid;
  tenant_id = context.tenant_id;
  created_by = context.operator_id;
  operation = operation;
  idempotency_key = key;
  status = "completed";
  result = some result;
}

-- What `save` returns after a conflict.
abbrev pub existing_result : Result (Option Fields) → Result Fields
existing_result (err e) = err e
existing_result (ok none) =
    err (runtime_error "idempotency record conflict without completed result")
existing_result (ok (some existing)) = ok existing

unfoldable pub save_result :
    String → String → String → Fields → RequestContext → Exec (List IdempotencyRecord) Fields
unfolding get_result insert_row
save_result uuid operation key result context rows =
    let (committed, after) =
      insert_row scope_key (completed_record uuid operation key result context) rows in
    elim committed [
      | ok done ↦ (ok result, after)
      | err conflict ↦ (existing_result (get_result operation key context after), after)
    ]
