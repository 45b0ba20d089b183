-- ===== src/Api/Gateway.antt =====
-- What stands before the routes: the context of a request (app/middleware/context.py), the security
-- middleware (app/middleware/runtime.py) and the handler of other exceptions (app/main.py). Names of
-- headers are in lower case.
pub mod Sealed
use Prim.Native.Char.{Char, code}
use office_mult_agent.Base.{
  ℕ, String, Bool, true, false, ◌&&◌, ◌||◌, not, Option, none, some, List, [], ◌∷◌, ◌==◌, nat_eq,
  string_eq, ltb, leb, if◌then◌else◌, Error, Result, ok, err, Exec,
}
use office_mult_agent.Base.Dict.{Dict, lookup, insert}
use office_mult_agent.Base.Text.{is_empty}
use office_mult_agent.Files.{text_length}
use office_mult_agent.Context.{RequestContext}
use office_mult_agent.Security.{extract_bearer_token, bind_sso_access_token}
use office_mult_agent.Api.{Http, answered, refused}

-- The headers of a request, and request.state.
pub record Request : Type 0 where
  pub headers : Dict String String
  pub request_context : Option RequestContext
  pub request_id : Option String

abbrev pub header_or : String → String → Request → String
header_or name default request = elim (lookup name request.headers) [
  | none ↦ default
  | some value ↦ value
]

-- `s.split(",")`
abbrev pub split_comma : String → String × List String
split_comma String.[] = ("", [])
split_comma (String.◌∷◌ c s) =
    let (first, others) = split_comma s in
    if code c == 44 then ("", first ∷ others) else (String.◌∷◌ c first, others)

abbrev pub scopes_of : String × List String → List String
scopes_of (first, others) = first ∷ others

abbrev pub trace_of : String → Request → String
trace_of uuid request = elim request.request_id [
  | some id ↦ id
  | none ↦ header_or "x-trace-id" uuid request
]

-- The context of a request outside production, where no gateway has injected one; the new ids of the
-- request and of the trace are arguments.
abbrev pub context_of_headers : String → String → Request → String → RequestContext
context_of_headers uuid trace request thread_id = record {
  request_id = uuid;
  thread_id = thread_id;
  tenant_id = header_or "x-tenant-id" "demo-tenant" request;
  operator_id = header_or "x-operator-id" "demo-operator" request;
  employee_id = some (header_or "x-employee-id" "demo-employee" request);
  department_id = none;
  role_ids = [];
  permission_scopes =
      scopes_of (split_comma (header_or "x-permission-scopes" "report:read" request));
  locale = "zh-CN";
  timezone = "Asia/Shanghai";
  trace_id = trace_of trace request;
}

unfoldable pub build_development_context :
    String → String → String → Request → String → Http RequestContext
build_development_context app_env uuid trace request thread_id = elim request.request_context [
  | some injected ↦ answered (record injected { thread_id = thread_id })
  | none ↦
      if app_env == "production"
      then refused 503
      else answered (context_of_headers uuid trace request thread_id)
]

pub record Response : Type 0 where
  pub status : ℕ
  pub headers : Dict String String

abbrev pub is_id_char : Char → Bool
is_id_char c =
    let n = code c in
    (leb 48 n && leb n 57)
    || (leb 65 n && leb n 90)
    || (leb 97 n && leb n 122)
    || n == 95
    || n == 45

abbrev pub all_id_chars : String → Bool
all_id_chars String.[] = true
all_id_chars (String.◌∷◌ c s) = is_id_char c && all_id_chars s

-- `^[A-Za-z0-9_-]{8,128}$`
unfoldable pub is_request_id : String → Bool
is_request_id s = leb 8 (text_length s) && leb (text_length s) 128 && all_id_chars s

-- What the code calls: `str.lower`, `str.isdigit` and `int` of a text.
pub record TextTools : Type 0 where
  pub lower : String → String
  pub isdigit : String → Bool
  pub int_of : String → Result ℕ

abbrev pub exceeds : ℕ → Result ℕ → Result Bool
exceeds max_bytes (err e) = err e
exceeds max_bytes (ok n) = ok (ltb max_bytes n)

abbrev pub id_header : String → Dict String String
id_header request_id = ("x-request-id", request_id) ∷ []

-- The application behind the middleware, with the bound token.
abbrev pub Handler : Type 0 → Type 0
Handler S = Request → Exec (Option String × S) Response

module _ (t : TextTools) (max_request_body_bytes : ℕ) where
  unfoldable pub is_oversized : Option String → Result Bool
  is_oversized none = ok false
  is_oversized (some length) =
      if not (is_empty length) && t.isdigit length
      then exceeds max_request_body_bytes (t.int_of length)
      else ok false

  unfoldable pub choose_request_id : String → Request → String
  unfolding is_request_id
  choose_request_id uuid request =
      let supplied = header_or "x-request-id" "" request in
      if is_request_id supplied then supplied else uuid

  abbrev pub identified : String → Request → Request
  identified uuid request = record request { request_id = some (choose_request_id uuid request) }

  unfoldable pub secured : String → Dict String String → Dict String String
  secured request_id headers = insert "cache-control" "no-store" (
      insert "referrer-policy" "no-referrer" (
        insert "x-frame-options" "DENY"
          (insert "x-content-type-options" "nosniff" (insert "x-request-id" request_id headers))))

  module _ {S : Type 0} where
    abbrev pub after_call :
        String → Result Response × (Option String × S) → Result Response × (Option String × S)
    after_call request_id (err e, (bound, s)) = (err e, (bound, s))
    after_call request_id (ok r, (bound, s)) =
        (ok (record r { headers = secured request_id r.headers }), (bound, s))

    abbrev pub authorized :
        String → Request → Handler S → Result (Option String) → Exec (Option String × S) Response
    authorized uuid request call_next (err e) s =
        (ok (record { status = 401; headers = id_header (choose_request_id uuid request) }), s)
    authorized uuid request call_next (ok token) s =
        after_call (choose_request_id uuid request)
          (bind_sso_access_token token (call_next (identified uuid request)) s)

    abbrev pub admitted :
        String → Request → Handler S → Result Bool → Exec (Option String × S) Response
    admitted uuid request call_next (err e) s = (err e, s)
    admitted uuid request call_next (ok true) s = (ok (record { status = 413; headers = [] }), s)
    admitted uuid request call_next (ok false) s =
        authorized uuid request call_next
          (extract_bearer_token t.lower (lookup "authorization" request.headers)) s

    unfoldable pub dispatch : String → Request → Handler S → Exec (Option String × S) Response
    unfolding is_oversized choose_request_id secured
    dispatch uuid request call_next s =
        admitted uuid request call_next (is_oversized (lookup "content-length" request.headers)) s
