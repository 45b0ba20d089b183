-- ===== src/Sql/Approvals/Refines.antt =====
-- The table of approvals, with its history, behaves as the dict of app/services/approvals.py.
use office_mult_agent.Base.{String, List, [], ◌∷◌, ◌≡◌, refl, ap₂, string_eq, triple_eq, Result, ok}
use office_mult_agent.Base.Dict.{lookup}
use office_mult_agent.Context.{RequestContext}
use office_mult_agent.Approvals.{ApprovalRecord, Approvals, get_pending}
use office_mult_agent.Approvals.Decisions.{Call, request, decide_on, apply}
use office_mult_agent.Sql.Approvals.{ApprovalTask, create_pending_row, get_pending_row, decide_row}
use office_mult_agent.Sql.Approvals.Agreement.{
  Agrees, decide_row-decide, get_pending_row-get_pending, create_pending_row-create_pending,
}

-- A call, on the table; a request brings the id that its row would get.
abbrev pub apply_row : String → Call → List ApprovalTask → Result ApprovalRecord × List ApprovalTask
apply_row uuid (request target_type target_id context) rows =
    create_pending_row uuid target_type target_id context rows
apply_row uuid (decide_on target_type target_id granted comment context) rows =
    decide_row target_type target_id granted comment context rows

-- The answers of a sequence of calls, and what they leave.
pub row_calls :
    List (String × Call) → List ApprovalTask → List (Result ApprovalRecord) × List ApprovalTask
row_calls [] rows = ([], rows)
row_calls ((uuid, call) ∷ rest) rows =
    let (answer, after) = apply_row uuid call rows in
    let (answers, final) = row_calls rest after in (answer ∷ answers, final)

pub dict_calls : List (String × Call) → Approvals → List (Result ApprovalRecord) × Approvals
dict_calls [] s = ([], s)
dict_calls ((uuid, call) ∷ rest) s =
    let (answer, after) = apply call s in
    let (answers, final) = dict_calls rest after in (answer ∷ answers, final)

apply_row-apply :
    (uuid : String) (call : Call) (rows : List ApprovalTask) (s : Approvals)
    → Agrees rows s
    → ((apply_row uuid call rows).0 ≡ (apply call s).0)
      × Agrees (apply_row uuid call rows).1 (apply call s).1
apply_row-apply uuid (request target_type target_id context) rows s agrees =
    create_pending_row-create_pending rows s agrees target_type target_id context uuid
apply_row-apply uuid (decide_on target_type target_id granted comment context) rows s agrees =
    decide_row-decide rows s agrees target_type target_id context granted comment

calls_refine :
    (calls : List (String × Call)) (rows : List ApprovalTask) (s : Approvals)
    → Agrees rows s
    → ((row_calls calls rows).0 ≡ (dict_calls calls s).0)
      × Agrees (row_calls calls rows).1 (dict_calls calls s).1
unfolding row_calls dict_calls
calls_refine [] rows s agrees = (refl, agrees)
calls_refine ((uuid, call) ∷ rest) rows s agrees =
    let one = apply_row-apply uuid call rows s agrees in
    let more = calls_refine rest (apply_row uuid call rows).1 (apply call s).1 one.1 in
    (ap₂ ◌∷◌ one.0 more.0, more.1)

-- Over any sequence of requests and decisions from the empty table, every call answers what the
-- in-memory repository answers, errors included, and a later query of any target finds the same open
-- request.
pub calls_refine_new :
    (calls : List (String × Call)) (target_type target_id : String) (context : RequestContext)
    → ((row_calls calls []).0 ≡ (dict_calls calls []).0)
      × (get_pending_row target_type target_id context (row_calls calls []).1
          ≡ ok (get_pending target_type target_id context (dict_calls calls []).1))
unfolding lookup
calls_refine_new calls target_type target_id context =
    let (answers, agrees) =
      calls_refine calls [] [] (record { unique = tt; plain = tt; same = λ k. refl }) in
    (
      answers,
      get_pending_row-get_pending (row_calls calls []).1 (dict_calls calls []).1 agrees target_type
          target_id context,
    )
