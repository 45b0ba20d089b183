-- ===== src/Api/Startup.antt =====
-- The start of the service (app/main.py, lifespan) for its settings (app/config.py), and the readiness
-- route. The connections themselves are outside: of each it is told whether the start makes it.
pub mod Production
use office_mult_agent.Base.{
  ℕ, String, Bool, true, false, ◌&&◌, not, Option, none, some, ◌≡◌, refl, arith, ◌==◌, string_eq,
  if◌then◌else◌, is_some, Error, runtime_error, Result, ok, err, Exec, raise_if, pure, ◌>>=◌, ◌>>◌,
  Bool-cases,
}
use office_mult_agent.Base.Text.{is_empty}
use office_mult_agent.Api.{Http, answered, refused}

-- The settings that the start looks at.
pub record Settings : Type 0 where
  pub app_env : String
  pub agent_model : Option String
  pub database_url : Option String
  pub redis_url : Option String
  pub gitlab_base_url : Option String
  pub gitlab_access_token : Option String
  pub knowledge_mcp_url : Option String

-- `if setting`
abbrev pub is_set : Option String → Bool
is_set none = false
is_set (some s) = not (is_empty s)

-- What stands behind a connector: a client of the real system, a mock, or a connector that raises
-- ConnectorUnavailableError. A connector may be cached.
pub data Connector : Type 0 where
  client mock unavailable : Connector
  cached : Connector → Connector

pub record ConnectorRegistry : Type 0 where
  pub report_system : Connector
  pub email : Connector
  pub meeting_im : Connector
  pub asr : Connector
  pub gitlab : Connector
  pub task : Connector
  pub directory : Connector

abbrev pub all_else : Connector → Connector → ConnectorRegistry
all_else other gitlab = record {
  report_system = other;
  email = other;
  meeting_im = other;
  asr = other;
  gitlab = gitlab;
  task = other;
  directory = other;
}

abbrev pub cached_if : Option String → Connector → Connector
cached_if none c = c
cached_if (some url) c = cached c

-- The branches by app_env are those of the code.
unfoldable pub for_environment :
    String → Option String → Option String → Option String → ConnectorRegistry
for_environment app_env gitlab_base_url gitlab_access_token cache =
    let gitlab =
      if is_set gitlab_base_url && is_set gitlab_access_token
      then client
      else if app_env == "production"
      then unavailable
      else mock in
    if app_env == "production"
    then all_else unavailable (cached_if cache gitlab)
    else all_else mock (cached_if cache gitlab)

-- Where the services keep their state.
pub data Repositories : Type 0 where
  sql : (url : String) → Repositories
  in_memory : Repositories

-- app.state behind the start.
pub record AppState : Type 0 where
  pub database : Option String
  pub cache : Option String
  pub knowledge : Connector
  pub needs_token : Bool
  pub connectors : ConnectorRegistry
  pub repositories : Repositories
  pub has_assistant : Bool

abbrev pub only_set : Option String → Option String
only_set setting = if is_set setting then setting else none

abbrev pub repositories_of : Option String → Repositories
repositories_of none = in_memory
repositories_of (some url) = sql url

abbrev pub required : Settings → Option String → String → Exec (Unit {0}) (Unit {0})
required settings setting message =
    raise_if (settings.app_env == "production" && not (is_set setting)) (runtime_error message)

unfoldable pub check_settings : Settings → Exec (Unit {0}) (Unit {0})
check_settings settings = do
  required settings settings.database_url "DATABASE_URL is required in production"
  required settings settings.redis_url "REDIS_URL is required in production"
  required settings settings.gitlab_base_url "GITLAB_BASE_URL is required in production"
  required settings settings.gitlab_access_token "GITLAB_ACCESS_TOKEN is required in production"
  required settings settings.knowledge_mcp_url "KNOWLEDGE_MCP_URL is required in production"
  required settings settings.agent_model "AGENT_MODEL is required in production"

unfoldable pub wire : Settings → AppState
unfolding for_environment
wire settings =
    let database = only_set settings.database_url in
    let cache = only_set settings.redis_url in
    record {
      database = database;
      cache = cache;
      knowledge = cached_if cache (if is_set settings.knowledge_mcp_url then client else mock);
      needs_token = is_set settings.knowledge_mcp_url;
      connectors =
          for_environment settings.app_env settings.gitlab_base_url settings.gitlab_access_token
            cache;
      repositories = repositories_of database;
      has_assistant = is_set settings.agent_model;
    }

-- The connections are made without an error.
unfoldable pub lifespan : Settings → Result AppState
unfolding check_settings wire
lifespan settings = elim (check_settings settings tt).0 [
  | err e ↦ err e
  | ok done ↦ ok (wire settings)
]

unfoldable pub readiness : Settings → AppState → Http String
readiness settings app =
    if settings.app_env == "production" && not (is_some app.database)
    then refused 503
    else answered "ready"

abbrev pub is_mock : Connector → Bool
is_mock client = false
is_mock mock = true
is_mock unavailable = false
is_mock (cached c) = is_mock c
