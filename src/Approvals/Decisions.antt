-- ===== src/Approvals/Decisions.antt =====
-- One decision for one request (app/services/approvals.py), over every sequence of calls.
use office_mult_agent.Base.{
  ℕ, ◌+◌, ◌≤◌, String, Bool, true, false, Option, none, some, List, [], ◌∷◌, ◌≡◌, ◌≢◌, arith, ◌==◌,
  triple_eq, string_eq, ==_iff, if◌then◌else◌, Result, ok, err,
}
use office_mult_agent.Base.Dict.{lookup, lookup-insert}
use office_mult_agent.Context.{RequestContext}
use office_mult_agent.Approvals.{
  ApprovalKey, ApprovalRecord, Approvals, is_pending, create_pending, decide, pending_record,
  decision_record,
}

-- A call that changes the records.
pub data Call : Type 0 where
  request : (target_type target_id : String) (context : RequestContext) → Call
  decide_on :
      (target_type target_id : String) (granted : Bool) (comment : Option String)
      (context : RequestContext)
      → Call

abbrev pub key_of : Call → ApprovalKey
key_of (request target_type target_id context) = (context.tenant_id, target_type, target_id)
key_of (decide_on target_type target_id granted comment context) =
    (context.tenant_id, target_type, target_id)

abbrev pub apply : Call → Approvals → Result ApprovalRecord × Approvals
apply (request target_type target_id context) s = create_pending target_type target_id context s
apply (decide_on target_type target_id granted comment context) s =
    decide target_type target_id granted comment context s

abbrev pub is_ok : Result ApprovalRecord → Bool
is_ok (ok r) = true
is_ok (err e) = false

-- 1 if the call asks for an approval under the key, 1 if it decides one, and 1 if one is open.
abbrev pub requested : ApprovalKey → Call → ℕ
requested k (request target_type target_id context) =
    if (context.tenant_id, target_type, target_id) == k then 1 else 0
requested k _ = 0

abbrev pub decided : ApprovalKey → Call → Approvals → ℕ
decided k (decide_on target_type target_id granted comment context) s =
    if (context.tenant_id, target_type, target_id) == k
    then (if is_ok (decide target_type target_id granted comment context s).0 then 1 else 0)
    else 0
decided k _ s = 0

abbrev pub open_at : Option ApprovalRecord → ℕ
open_at none = 0
open_at (some r) = if is_pending r.status then 1 else 0

abbrev pub requests : ApprovalKey → List Call → ℕ
requests k [] = 0
requests k (c ∷ cs) = requested k c + requests k cs

abbrev pub decisions : ApprovalKey → List Call → Approvals → ℕ
decisions k [] s = 0
decisions k (c ∷ cs) s = decided k c s + decisions k cs (apply c s).1

-- A call under one key leaves every other record alone.
pub lookup-apply_ne :
    (c : Call) (k : ApprovalKey) (s : Approvals)
    → key_of c ≢ k
    → lookup k (apply c s).1 ≡ lookup k s
unfolding create_pending decide
lookup-apply_ne (request target_type target_id context) k s h =
    let key : ApprovalKey = (context.tenant_id, target_type, target_id) in
    ground
      (arith, ==_iff key k, lookup-insert key k (pending_record target_type target_id context) s)
lookup-apply_ne (decide_on target_type target_id granted comment context) k s h =
    let key : ApprovalKey = (context.tenant_id, target_type, target_id) in
    ground (
      arith,
      ==_iff key k,
      lookup-insert key k (decision_record target_type target_id granted comment context) s,
    )

balance :
    (c : Call) (k : ApprovalKey) (s : Approvals)
    → decided k c s + open_at (lookup k (apply c s).1) ≤ requested k c + open_at (lookup k s)
unfolding create_pending decide
balance (request target_type target_id context) k s =
    let key : ApprovalKey = (context.tenant_id, target_type, target_id) in
    ground
      (arith, ==_iff key k, lookup-insert key k (pending_record target_type target_id context) s)
balance (decide_on target_type target_id granted comment context) k s =
    let key : ApprovalKey = (context.tenant_id, target_type, target_id) in
    ground (
      arith,
      ==_iff key k,
      lookup-insert key k (decision_record target_type target_id granted comment context) s,
    )

-- Over any sequence of calls, a record is decided no more often than an approval was asked for
-- under its key, counting the one that may be open at the start: no request is decided twice.
pub decisions-le-requests :
    (k : ApprovalKey) (calls : List Call) (s : Approvals)
    → decisions k calls s ≤ requests k calls + open_at (lookup k s)
decisions-le-requests k [] s = omega arith
decisions-le-requests k (c ∷ cs) s =
    omega (arith, balance c k s, decisions-le-requests k cs (apply c s).1)
