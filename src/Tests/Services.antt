-- ===== src/Tests/Services.antt =====
-- Approvals and idempotency records at work (app/services/approvals.py, app/services/idempotency.py).
use office_mult_agent.Base.{◌+◌, ◌≤◌, true, none, [], ◌∷◌, List, triple_eq, string_eq}
use office_mult_agent.Base.Dict.{lookup}
use office_mult_agent.Value.{Fields, field, end, str}
use office_mult_agent.Idempotency.{Results}
use office_mult_agent.Approvals.{Approvals}
use office_mult_agent.Idempotency.FirstWins.{Attempt}
use office_mult_agent.Approvals.Decisions.{
  Call, request, decide_on, requests, decisions, open_at, decisions-le-requests,
}
use office_mult_agent.Tests.Samples.{ann}

abbrev no_approvals : Approvals
no_approvals = []

abbrev no_results : Results
no_results = []

abbrev calls : List Call
calls =
    request "assistant_thread" "th" ann
    ∷ decide_on "assistant_thread" "th" true none ann
    ∷ decide_on "assistant_thread" "th" true none ann
    ∷ []

decisions-le-requests_example :
    decisions ("acme", "assistant_thread", "th") calls no_approvals
    ≤ requests ("acme", "assistant_thread", "th") calls
      + open_at (lookup ("acme", "assistant_thread", "th") no_approvals)
decisions-le-requests_example =
    decisions-le-requests ("acme", "assistant_thread", "th") calls no_approvals

abbrev attempt_with : Fields → Attempt
attempt_with result = record {
  operation = "report.submit";
  key = "r1";
  result = result;
  context = ann;
}

abbrev attempts : List Attempt
attempts = attempt_with (field "n" (str "1") end) ∷ attempt_with end ∷ []
