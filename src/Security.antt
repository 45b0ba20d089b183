-- ===== src/Security.antt =====
-- The delegated token of a request (app/security/sso.py). The ContextVar is a part of the state that
-- holds the token of the request that is being handled.
pub mod Tokens
use Prim.Native.Char.{code}
use office_mult_agent.Base.{
  ℕ, String, Bool, true, false, ◌||◌, not, Option, none, some, ◌==◌, nat_eq, string_eq, ltb,
  if◌then◌else◌, invalid_sso_token, sso_token_unavailable, Result, ok, err, Exec,
}
use office_mult_agent.Base.Text.{is_empty, is_space, strip}
use office_mult_agent.Files.{text_length}
use office_mult_agent.Context.{RequestContext}

-- `authorization.partition(" ")`: what stands before the first blank, whether there is one, and what
-- stands behind it.
unfoldable pub partition : String → String × Bool × String
partition String.[] = ("", false, "")
partition (String.◌∷◌ c s) =
    let (scheme, separator, token) = partition s in
    if code c == 32 then ("", true, s) else (String.◌∷◌ c scheme, separator, token)

-- `any(character.isspace() or ord(character) < 32 for character in token)`
unfoldable pub has_blank : String → Bool
unfolding is_space
has_blank String.[] = false
has_blank (String.◌∷◌ c s) = is_space c || ltb (code c) 32 || has_blank s

abbrev pub is_unusable : (String → String) → String → Bool → String → Bool
is_unusable lower scheme separator token =
    not separator
    || not (lower scheme == "bearer")
    || is_empty token
    || ltb 8192 (text_length token)
    || has_blank token

abbrev pub accept : (String → String) → String × Bool × String → Result (Option String)
accept lower (scheme, separator, token) =
    if is_unusable lower scheme separator (strip token)
    then err (invalid_sso_token "invalid bearer token")
    else ok (some (strip token))

unfoldable pub extract_bearer_token : (String → String) → Option String → Result (Option String)
unfolding partition has_blank
extract_bearer_token lower none = ok none
extract_bearer_token lower (some authorization) = accept lower (partition authorization)

-- The body of the `with` runs with the token bound; what was bound before is bound again afterwards,
-- after an exception too.
unfoldable pub bind_sso_access_token :
    {S A : Type 0} → Option String → Exec (Option String × S) A → Exec (Option String × S) A
bind_sso_access_token token body (bound, s) =
    let (result, (left, after)) = body (token, s) in (result, (bound, after))

-- RequestSsoTokenProvider
unfoldable pub get_access_token : {S : Type 0} → RequestContext → Exec (Option String × S) String
get_access_token context (none, s) =
    (err (sso_token_unavailable "SSO token is required for knowledge queries"), (none, s))
get_access_token context (some token, s) = (ok token, (some token, s))
