-- ===== src/Api/Startup/Production.antt =====
-- What a start in production guarantees (app/main.py).
use office_mult_agent.Base.{
  String, true, Option, none, some, ◌≡◌, refl, ap, subst, arith, ◌==◌, string_eq, ok,
}
use office_mult_agent.Api.{answered}
use office_mult_agent.Api.Startup.{
  Settings, is_set, client, unavailable, cached, all_else, for_environment, AppState, sql, wire,
  lifespan, readiness, only_set, repositories_of,
}

-- Nothing of a development set-up: rows in a database, a shared cache, real clients or connectors that
-- fail, and knowledge only with the caller's own token.
abbrev pub IsProduction : AppState → Type 0
IsProduction app =
    ((url : String) × (app.database ≡ some url) × (app.repositories ≡ sql url))
    × (app.connectors ≡ all_else unavailable (cached client))
    × (app.knowledge ≡ cached client)
    × (app.needs_token ≡ true)
    × (app.has_assistant ≡ true)

module _ (settings : Settings) (production : (settings.app_env == "production") ≡ true) where
  passes :
      (app : AppState)
      → lifespan settings ≡ ok app
      → (is_set settings.database_url ≡ true)
        × (is_set settings.redis_url ≡ true)
        × (is_set settings.gitlab_base_url ≡ true)
        × (is_set settings.gitlab_access_token ≡ true)
        × (is_set settings.knowledge_mcp_url ≡ true)
        × (is_set settings.agent_model ≡ true)
        × (wire settings ≡ app)
  unfolding lifespan
  passes app started = ground (arith, started, production)

  set_value :
      (setting : Option String) → is_set setting ≡ true → (value : String) × (setting ≡ some value)
  set_value none h = absurd (ground (arith, h))
  set_value (some value) h = (value, refl)

  -- A service that has started in production runs on its database, with the real GitLab and knowledge
  -- clients behind the shared cache and no mock, asks for the caller's token before the knowledge base,
  -- has an assistant, and answers that it is ready.
  pub lifespan-IsProduction :
      (app : AppState)
      → lifespan settings ≡ ok app
      → IsProduction app × (readiness settings app ≡ answered "ready")
  unfolding readiness wire for_environment
  lifespan-IsProduction app started =
      let (database, redis, base, token, knowledge, model, wired) = passes app started in
      let (url, has_url) = set_value settings.database_url database in
      let (cache, has_cache) = set_value settings.redis_url redis in
      let only : only_set settings.database_url ≡ some url = ground (arith, database, has_url) in
      let shared : only_set settings.redis_url ≡ some cache = ground (arith, redis, has_cache) in
      subst (λ a. IsProduction a × (readiness settings a ≡ answered "ready")) wired
        (
          (
            (url, only, ap repositories_of only),
            rw (production, base, token, shared) refl,
            rw (knowledge, shared) refl,
            knowledge,
            model,
          ),
          rw (production, only) refl,
        )
