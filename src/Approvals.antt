-- ===== src/Approvals.antt =====
-- Approval records: app/services/approvals.py, the in-memory repository and ApprovalService. The
-- records are frozen, so the dict holds them as values.
pub mod Decisions
use office_mult_agent.Base.{
  String, Bool, true, false, Option, none, some, triple_eq, string_eq, Error, key_error, Result, ok,
  err, Exec, pure, gets, or_raise, if◌then◌else◌, ◌>>=◌,
}
use office_mult_agent.Base.Dict.{Dict, lookup, insert}
use office_mult_agent.Context.{RequestContext}

pub data ApprovalStatus : Type 0 where
  pending approved rejected : ApprovalStatus

pub record ApprovalRecord : Type 0 where
  pub target_type : String
  pub target_id : String
  pub tenant_id : String
  pub status : ApprovalStatus
  pub comment : Option String

-- `(tenant_id, target_type, target_id)`
abbrev pub ApprovalKey : Type 0
ApprovalKey = String × String × String

-- `_records` of InMemoryApprovalRepository
abbrev pub Approvals : Type 0
Approvals = Dict ApprovalKey ApprovalRecord

abbrev pub is_pending : ApprovalStatus → Bool
is_pending pending = true
is_pending _ = false

abbrev pub pending_record : String → String → RequestContext → ApprovalRecord
pending_record target_type target_id context = record {
  target_type = target_type;
  target_id = target_id;
  tenant_id = context.tenant_id;
  status = pending;
  comment = none;
}

abbrev pub decision_record :
    String → String → Bool → Option String → RequestContext → ApprovalRecord
decision_record target_type target_id granted comment context = record {
  target_type = target_type;
  target_id = target_id;
  tenant_id = context.tenant_id;
  status = if granted then approved else rejected;
  comment = comment;
}

unfoldable pub create_pending : String → String → RequestContext → Exec Approvals ApprovalRecord
create_pending target_type target_id context s =
    let entry = pending_record target_type target_id context in
    (ok entry, insert (context.tenant_id, target_type, target_id) entry s)

-- `record if record is not None and record.status == "pending" else None`
abbrev pub only_pending : Option ApprovalRecord → Option ApprovalRecord
only_pending none = none
only_pending (some entry) = if is_pending entry.status then some entry else none

unfoldable pub get_pending : String → String → RequestContext → Approvals → Option ApprovalRecord
get_pending target_type target_id context s =
    only_pending (lookup (context.tenant_id, target_type, target_id) s)

unfoldable pub decide :
    String → String → Bool → Option String → RequestContext → Exec Approvals ApprovalRecord
unfolding get_pending
decide target_type target_id granted comment context s =
    elim (get_pending target_type target_id context s) [
      | none ↦ (err (key_error target_id), s)
      | some current ↦
          let entry = decision_record target_type target_id granted comment context in
          (ok entry, insert (context.tenant_id, target_type, target_id) entry s)
    ]

-- ApprovalService.request and ApprovalService.decide call the repository as it is.
abbrev pub request : String → String → RequestContext → Exec Approvals ApprovalRecord
request = create_pending

unfoldable pub require_pending : String → String → RequestContext → Exec Approvals ApprovalRecord
unfolding get_pending
require_pending target_type target_id context s =
    or_raise (get_pending target_type target_id context s) (key_error target_id) s
