-- ===== src/Tests/Gateway.antt =====
-- A token, a request through the middleware, and a start in production (app/security/sso.py,
-- app/middleware/runtime.py, app/main.py).
use Prim.Native.String.{◌++◌ as join_text}
use office_mult_agent.Base.{ℕ, ◌+◌, String, true, none, some, [], ◌∷◌, ◌≡◌, ◌↔◌, refl, ok}
use office_mult_agent.Base.Dict.{Dict}
use office_mult_agent.Security.{extract_bearer_token, has_blank}
use office_mult_agent.Security.Tokens.{IsToken, extract_bearer_token-IsToken}
use office_mult_agent.Api.{answered}
use office_mult_agent.Api.Gateway.{Request, TextTools, Handler, dispatch}
use office_mult_agent.Api.Gateway.Sealed.{IsTraced, IsSealed, dispatch-IsSealed}
use office_mult_agent.Api.Startup.{Settings, wire, lifespan, readiness, check_settings}
use office_mult_agent.Api.Startup.Production.{IsProduction, lifespan-IsProduction}

extract_bearer_token-IsToken_example :
    (extract_bearer_token (λ s. s) (some (join_text "bearer" " abc.def")) ≡ ok (some "abc.def"))
    ↔ IsToken "abc.def"
unfolding has_blank
extract_bearer_token-IsToken_example =
    extract_bearer_token-IsToken (λ s. s) "bearer" refl refl "abc.def"

abbrev text_tools : TextTools
text_tools = record { lower = λ s. s; isdigit = λ s. true; int_of = λ s. ok 7 }

abbrev headers : Dict String String
headers = ("content-length", "7") ∷ ("authorization", "bearer abc.def") ∷ []

abbrev signed_request : Request
signed_request = record { headers = headers; request_context = none; request_id = none }

-- A handler that counts the requests.
abbrev counting : Handler ℕ
counting request (token, n) = (ok (record { status = 200; headers = [] }), (token, n + 1))

dispatch-IsSealed_example :
    IsTraced text_tools 100 "3f2504e0-4f89" signed_request counting none 4
      (dispatch text_tools 100 "3f2504e0-4f89" signed_request counting (none, 4)).0
    × IsSealed text_tools 100 "3f2504e0-4f89" signed_request counting none 4
        (dispatch text_tools 100 "3f2504e0-4f89" signed_request counting (none, 4)).1
dispatch-IsSealed_example =
    dispatch-IsSealed text_tools 100 "3f2504e0-4f89" signed_request counting none 4

abbrev live : Settings
live = record {
  app_env = "production";
  agent_model = some "model";
  database_url = some "postgresql+asyncpg://db";
  redis_url = some "redis://cache";
  gitlab_base_url = some "https://gitlab";
  gitlab_access_token = some "secret";
  knowledge_mcp_url = some "https://rag";
}

lifespan-IsProduction_example :
    IsProduction (wire live) × (readiness live (wire live) ≡ answered "ready")
unfolding lifespan check_settings
lifespan-IsProduction_example = lifespan-IsProduction live refl (wire live) refl
